-- ===== src/Lifecycle.antt =====
-- The customer's journey: backend/app/domain/enquiry, quote, booking and service_execution.
pub mod Enquiries
pub mod Quotes
pub mod Bookings
pub mod Completion
pub mod Access
pub mod Messages
pub mod Read
pub mod Executions
pub mod Once
pub mod Authority
pub mod Invoicing
pub mod Single
