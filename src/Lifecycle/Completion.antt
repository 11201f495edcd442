-- ===== src/Lifecycle/Completion.antt =====
-- backend/app/domain/service_execution/service.py: what the completion of a service writes
-- (_create_completion_records, _cascade_booking_completion). The fresh keys, the name of the service
-- offer and the answer of CommercialPolicyService.calculate_fee (`none` when it raises) are
-- parameters, in one record.
use fielded_online.Common.{
  ℕ, suc, Bool, true, not, any, ◌&&◌, List, [], ◌∷◌, ◌++◌, Option, none, some, find, length, select,
  is_in, same, ◌==◌, if◌then◌else◌,
}
use fielded_online.Common.Int.{ℤ, pos, ◌+ℤ◌, ◌-ℤ◌}
use fielded_online.Common.Outcome.{
  Action, Result, ok, err, pure, modify, raise_if, ◌>>◌, state_transition, integrity_error,
}
use fielded_online.Status.Invoices.{InvoicePaymentStatus, InvoiceStatus}
use fielded_online.Status.Invoices
use fielded_online.Status.Bookings.{booking_status_enum, confirmed, in_progress, completed}
use fielded_online.Store.{Store, emit_outbox_event}
use fielded_online.Store.Outbox.{invoice_issued}
use fielded_online.Store.Payments.{Currency, other}
use fielded_online.Store.Documents.{Invoice, InvoiceLineItem, LedgerEntry}
use fielded_online.Store.Lifecycle.{Quote, Booking, ServiceExecution}
use fielded_online.Lifecycle.Enquiries.{system}
use fielded_online.Lifecycle.Bookings.{find_booking, transition_booking}

pub record Completion : Type 0 where
  pub now : ℕ
  pub invoice_id : ℕ
  pub entry_id : ℕ
  pub transaction_reference : ℕ
  pub service_name : ℕ → Option ℕ
  pub calculate_fee : ℕ → ℤ → Currency → Option ℤ

abbrev pub gbp : Currency
gbp = other 0

abbrev pub is_for_execution : ℕ → Invoice → Bool
is_for_execution x v = v.service_execution_id == x

-- get_by_service_execution_id
abbrev pub execution_invoice : ℕ → Store → Option Invoice
execution_invoice x s = find (is_for_execution x) s.invoices

-- get_next_invoice_number: the sequence within the business.
abbrev pub next_invoice_number : ℕ → Store → ℕ
next_invoice_number business s = suc (length (select (λ v. v.business_id == business) s.invoices))

abbrev pub find_quote : Option ℕ → List Quote → Option Quote
find_quote none quotes = none
find_quote (some i) quotes = find (λ q. q.id == i) quotes

abbrev pub quote_amount : Option Quote → ℤ
quote_amount none = pos 0
quote_amount (some q) = q.amount

abbrev pub booking_currency : Option Booking → Currency
booking_currency none = gbp
booking_currency (some b) = b.currency

-- The quote's evidence, or else a fresh calculation.
abbrev pub or_calculated : Option ℤ → Option ℤ → Option ℤ
or_calculated none fresh = fresh
or_calculated (some fee) fresh = some fee

abbrev pub quote_fee : Option Quote → Option ℤ → Option ℤ
quote_fee none fresh = fresh
quote_fee (some q) fresh = or_calculated q.fee_evidence fresh

-- The discount and the tax are zero, as in the source.
abbrev pub new_invoice : Completion → ServiceExecution → Store → Invoice
new_invoice c x s =
    let quote = find_quote x.quote_id s.quotes in
    let currency = booking_currency (find_booking x.booking_id s) in
    let amount = quote_amount quote in
    let total = (amount -ℤ pos 0) +ℤ pos 0 in
    record {
      id = c.invoice_id;
      business_id = x.business_id;
      customer_id = x.customer_id;
      service_execution_id = x.id;
      booking_id = x.booking_id;
      quote_id = x.quote_id;
      invoice_number = next_invoice_number x.business_id s;
      issue_date = c.now;
      currency = currency;
      subtotal = amount;
      discount = pos 0;
      tax = pos 0;
      total = total;
      payment_status = Invoices.unpaid;
      status = Invoices.issued;
      fee_evidence = quote_fee quote (c.calculate_fee x.business_id total currency);
    }

abbrev pub new_line_item : Completion → ServiceExecution → Invoice → InvoiceLineItem
new_line_item c x v = record {
  invoice_id = v.id;
  description = c.service_name x.service_offer_id;
  quantity = 100;
  unit_price = v.subtotal;
  discount = v.discount;
  tax = v.tax;
  line_total = v.total;
  currency = v.currency;
}

abbrev pub new_entry : Completion → ServiceExecution → Invoice → LedgerEntry
new_entry c x v = record {
  id = c.entry_id;
  business_id = x.business_id;
  customer_id = x.customer_id;
  service_execution_id = x.id;
  booking_id = x.booking_id;
  quote_id = x.quote_id;
  invoice_id = some v.id;
  service_offer_id = x.service_offer_id;
  completion_date = c.now;
  gross_amount = v.subtotal;
  discount = v.discount;
  tax = v.tax;
  net_amount = v.total -ℤ v.discount;
  currency = v.currency;
  payment_status = Invoices.unpaid;
  is_primary = true;
  adjusts_entry_id = none;
  transaction_reference = c.transaction_reference;
  fee_evidence = v.fee_evidence;
}

-- The store with the three rows of a completion.
abbrev pub add_records : Completion → ServiceExecution → Invoice → Store → Store
add_records c x v s = record s {
  invoices = s.invoices ++ (v ∷ []);
  line_items = s.line_items ++ (new_line_item c x v ∷ []);
  ledger_entries = s.ledger_entries ++ (new_entry c x v ∷ []);
}

-- Another invoice of the business has the number.
abbrev pub is_number_taken : Invoice → Store → Bool
is_number_taken v s =
    any (λ w. w.business_id == v.business_id && w.invoice_number == v.invoice_number) s.invoices

-- _create_completion_records, when there is no invoice yet. A number that another invoice of the
-- business has breaks a unique constraint.
unfoldable pub issue_invoice : Completion → ServiceExecution → Action Store (Unit {0})
issue_invoice c x s =
    let v = new_invoice c x s in
    let insert : Action Store (Unit {0}) = do
      raise_if (is_number_taken v s) integrity_error
      modify (add_records c x v)
      emit_outbox_event c.now invoice_issued x.business_id v.id
    in insert s

unfoldable pub create_completion_records : Completion → ServiceExecution → Action Store (Unit {0})
create_completion_records c x s = elim (execution_invoice x.id s) [
  | some existing ↦ (pure tt) s
  | none ↦ issue_invoice c x s
]

-- contextlib.suppress(StateTransitionError)
abbrev pub suppress_state_transition : {A : Type 0} → Result A × Store → Result (Unit {0}) × Store
suppress_state_transition (ok a, s) = (ok tt, s)
suppress_state_transition (err state_transition, s) = (ok tt, s)
suppress_state_transition (err e, s) = (err e, s)

abbrev pub cascade_found : ℕ → Option Booking → Action Store (Unit {0})
cascade_found now none s = (ok tt, s)
cascade_found now (some b) s =
    if same b.status completed
    then (ok tt, s)
    else if not (is_in b.status (confirmed ∷ in_progress ∷ []))
    then (ok tt, s)
    else suppress_state_transition (transition_booking now b completed system s)

-- _cascade_booking_completion
unfoldable pub cascade_booking_completion : ℕ → ServiceExecution → Action Store (Unit {0})
cascade_booking_completion now x s = cascade_found now (find_booking x.booking_id s) s
