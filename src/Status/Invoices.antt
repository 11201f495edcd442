-- ===== src/Status/Invoices.antt =====
-- backend/app/domain/common/enums.py, InvoicePaymentStatus and InvoiceStatus.
use fielded_online.Common.{ℕ, ◌≡◌, arith, Enum}

pub data InvoicePaymentStatus : Type 0 where
  unpaid partially_paid paid failed refunded partially_refunded void : InvoicePaymentStatus

abbrev pub invoice_payment_status_index : InvoicePaymentStatus → ℕ
invoice_payment_status_index unpaid = 0
invoice_payment_status_index partially_paid = 1
invoice_payment_status_index paid = 2
invoice_payment_status_index failed = 3
invoice_payment_status_index refunded = 4
invoice_payment_status_index partially_refunded = 5
invoice_payment_status_index void = 6

pub invoice_payment_status_index_injective :
    (a b : InvoicePaymentStatus)
    → invoice_payment_status_index a ≡ invoice_payment_status_index b
    → a ≡ b
invoice_payment_status_index_injective a b h = ground arith

instance abbrev pub invoice_payment_status_enum : Enum InvoicePaymentStatus
invoice_payment_status_enum = record {
  index = invoice_payment_status_index;
  index_injective = invoice_payment_status_index_injective;
}

pub data InvoiceStatus : Type 0 where
  draft issued void : InvoiceStatus
