-- ===== src/Payment.antt =====
-- backend/app/domain/payment: payments against invoices.
pub mod Balance
pub mod Provider
pub mod Connect
pub mod Checks
pub mod Service
pub mod Webhook
pub mod Refund
pub mod Delivery
pub mod Money
pub mod Outstanding
pub mod SecondRefund
pub mod Charge
