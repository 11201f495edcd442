-- ===== src/Payment/Balance.antt =====
-- backend/app/domain/payment/repository.py (the two totals of an invoice) and, in
-- backend/app/domain/payment/service.py, _update_invoice_payment_status and _validate_transition.
use fielded_online.Common.{
  ℕ, Bool, false, not, ◌&&◌, List, [], ◌∷◌, Option, none, some, find, is_in, same, ◌==◌,
  if◌then◌else◌,
}
use fielded_online.Common.Int.{ℤ, pos, ◌+ℤ◌, ◌-ℤ◌, ltb_ℤ, leb_ℤ, eqb_ℤ}
use fielded_online.Common.Outcome.{Action, raise_if, state_transition}
use fielded_online.Status.Payments.{
  PaymentStatus, payment_status_enum, payment_transitions, succeeded, partially_refunded, refunded,
}
use fielded_online.Status.Invoices.{InvoicePaymentStatus, invoice_payment_status_enum}
use fielded_online.Status.Invoices
use fielded_online.Store.{Store}
use fielded_online.Store.Payments.{Payment}
use fielded_online.Store.Documents.{Invoice, LedgerEntry}

abbrev pub is_for_invoice : ℕ → Option ℕ → Bool
is_for_invoice i none = false
is_for_invoice i (some j) = j == i

-- get_successful_total_for_invoice
unfoldable pub successful_total : ℕ → List Payment → ℤ
successful_total i [] = pos 0
successful_total i (p ∷ ps) =
    let rest = successful_total i ps in
    if is_for_invoice i p.invoice_id && is_in p.status (succeeded ∷ partially_refunded ∷ [])
    then p.amount +ℤ rest
    else rest

-- get_refunded_total_for_invoice
unfoldable pub refunded_total : ℕ → List Payment → ℤ
refunded_total i [] = pos 0
refunded_total i (p ∷ ps) =
    let rest = refunded_total i ps in
    if is_for_invoice i p.invoice_id
      && is_in p.status (succeeded ∷ partially_refunded ∷ refunded ∷ [])
    then p.refunded_amount +ℤ rest
    else rest

-- The part of _update_invoice_payment_status that computes the new status from the two totals.
unfoldable pub derived_status : ℤ → ℤ → ℤ → InvoicePaymentStatus
derived_status paid_amount refunded_amount invoice_total =
    let net_paid = paid_amount -ℤ refunded_amount in
    let new_status =
      if leb_ℤ net_paid (pos 0)
      then Invoices.unpaid
      else if ltb_ℤ net_paid invoice_total
      then Invoices.partially_paid
      else if eqb_ℤ net_paid invoice_total
      then Invoices.paid
      else Invoices.paid in
    if ltb_ℤ (pos 0) refunded_amount
    then if leb_ℤ invoice_total refunded_amount
      then Invoices.refunded
      else Invoices.partially_refunded
    else new_status

unfoldable pub set_invoice_status : ℕ → InvoicePaymentStatus → List Invoice → List Invoice
set_invoice_status i status [] = []
set_invoice_status i status (v ∷ vs) =
    (if v.id == i then record v { payment_status = status } else v) ∷ set_invoice_status i status vs

-- The loop over the entries of get_by_invoice_id.
unfoldable pub sync_ledger : ℕ → InvoicePaymentStatus → List LedgerEntry → List LedgerEntry
sync_ledger i status [] = []
sync_ledger i status (e ∷ es) =
    (if is_for_invoice i e.invoice_id && not (same e.payment_status status)
      then record e { payment_status = status }
      else e)
    ∷ sync_ledger i status es

abbrev pub find_invoice : ℕ → Store → Option Invoice
find_invoice i s = find (λ v. v.id == i) s.invoices

-- What is written once the invoice is found.
unfoldable pub sync_invoice : Invoice → Store → Store
sync_invoice invoice s =
    let status =
      derived_status (successful_total invoice.id s.payments) (refunded_total invoice.id s.payments)
        invoice.total in
    if same invoice.payment_status Invoices.void then s else record s {
      invoices = set_invoice_status invoice.id status s.invoices;
      ledger_entries = sync_ledger invoice.id status s.ledger_entries;
    }

-- _update_invoice_payment_status
unfoldable pub update_invoice_payment_status : Payment → Store → Store
update_invoice_payment_status p s = elim p.invoice_id [
  | none ↦ s
  | some i ↦ elim (find_invoice i s) [ none ↦ s | some invoice ↦ sync_invoice invoice s ]
]

-- _validate_transition
unfoldable pub validate_transition : PaymentStatus → PaymentStatus → Action Store (Unit {0})
validate_transition from to = raise_if (not (is_in to (payment_transitions from))) state_transition
