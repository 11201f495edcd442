-- ===== src/Rulebook.antt =====
-- backend/app/domain/business: the rule types, the validation of a rule, and the versions of a brain with
-- their approval and activation.
pub mod Registry
pub mod Validation
pub mod Approval
pub mod Rows
pub mod Service
pub mod RuleService
pub mod Operations
pub mod Checked
mod Committed
mod Writes
pub mod Sealed
pub mod Kept
pub mod Active
pub mod Activation
pub mod Blocked
pub mod Reviewed
pub mod Deleted
pub mod Columns
