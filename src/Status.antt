-- ===== src/Status.antt =====
-- The state machines of backend/app/domain/common/enums.py, one child for each.
pub mod Payments
pub mod Invoices
pub mod Enquiries
pub mod Quotes
pub mod Bookings
pub mod Executions
pub mod Policies
pub mod Versions
