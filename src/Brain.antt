-- ===== src/Brain.antt =====
-- backend/app/domain/business/evaluator.py: the decision of a business's rules on a transaction.
pub mod Values
pub mod Conditions
pub mod Evaluator
pub mod Conflicts
pub mod Decisions
pub mod Order
