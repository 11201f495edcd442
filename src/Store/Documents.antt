-- ===== src/Store/Documents.antt =====
-- backend/app/domain/invoice/models.py and backend/app/domain/ledger/models.py: invoices with their
-- lines, and entries of the operational service ledger. Amounts are in hundredths.
use fielded_online.Common.{ℕ, Bool, Option}
use fielded_online.Common.Int.{ℤ}
use fielded_online.Status.Invoices.{InvoicePaymentStatus, InvoiceStatus}
use fielded_online.Store.Payments.{Currency}

pub record Invoice : Type 0 where
  pub id : ℕ
  pub business_id : ℕ
  pub customer_id : ℕ
  pub service_execution_id : ℕ
  pub booking_id : ℕ
  pub quote_id : Option ℕ
  pub invoice_number : ℕ
  pub issue_date : ℕ
  pub currency : Currency
  pub subtotal : ℤ
  pub discount : ℤ
  pub tax : ℤ
  pub total : ℤ
  pub payment_status : InvoicePaymentStatus
  pub status : InvoiceStatus
  pub fee_evidence : Option ℤ

-- A quantity is in hundredths too: 100 stands for "1.00".
pub record InvoiceLineItem : Type 0 where
  pub invoice_id : ℕ
  pub description : Option ℕ
  pub quantity : ℕ
  pub unit_price : ℤ
  pub discount : ℤ
  pub tax : ℤ
  pub line_total : ℤ
  pub currency : Currency

pub record LedgerEntry : Type 0 where
  pub id : ℕ
  pub business_id : ℕ
  pub customer_id : ℕ
  pub service_execution_id : ℕ
  pub booking_id : ℕ
  pub quote_id : Option ℕ
  pub invoice_id : Option ℕ
  pub service_offer_id : ℕ
  pub completion_date : ℕ
  pub gross_amount : ℤ
  pub discount : ℤ
  pub tax : ℤ
  pub net_amount : ℤ
  pub currency : Currency
  pub payment_status : InvoicePaymentStatus
  pub is_primary : Bool
  pub adjusts_entry_id : Option ℕ
  pub transaction_reference : ℕ
  pub fee_evidence : Option ℤ
