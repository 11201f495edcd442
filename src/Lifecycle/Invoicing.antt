-- ===== src/Lifecycle/Invoicing.antt =====
-- The completion of a service issues one invoice.
use fielded_online.Common.{
  ℕ, ◌≡◌, refl, sym, ap, ◌∙◌, false, [], ◌∷◌, ◌++◌, Option, none, some, same, arith,
}
use fielded_online.Common.Outcome.{Result, ok, >>=-eq-ok}
use fielded_online.Status.Executions.{execution_status_enum, completed}
use mathlib.Core.Path.{subst}
use fielded_online.Common.Int.{ℤ, pos, ◌+ℤ◌, ◌-ℤ◌, minus_zero, plus_zero}
use fielded_online.Status.Invoices
use fielded_online.Store.Documents.{Invoice, LedgerEntry}
use fielded_online.Lifecycle.Completion.{
  Completion, find_quote, quote_amount, execution_invoice, new_invoice, new_entry, issue_invoice,
  create_completion_records, cascade_found, cascade_booking_completion, suppress_state_transition,
}
use fielded_online.Lifecycle.Executions.{
  Details, updated_execution, save_execution, complete_records, transition, complete_service,
}
use fielded_online.Status.Enquiries.{EnquiryStatus}
use fielded_online.Status.Enquiries
use fielded_online.Status.Bookings.{BookingStatus}
use fielded_online.Status.Bookings
use fielded_online.Store.{Store, emit_outbox_event}
use fielded_online.Store.Lifecycle.{Quote, Booking, ServiceExecution}
use fielded_online.Lifecycle.Enquiries.{Actor, system}
use fielded_online.Lifecycle.Quotes.{move_enquiry}
use fielded_online.Lifecycle.Bookings.{find_booking, transition_booking, save_booking}

move_enquiry-invoices :
    (i : ℕ) (before after : EnquiryStatus) (s : Store)
    → ((move_enquiry i before after s).invoices ≡ s.invoices)
      × ((move_enquiry i before after s).ledger_entries ≡ s.ledger_entries)
unfolding move_enquiry
move_enquiry-invoices i before after s = ground arith

transition_booking-invoices :
    (now : ℕ) (b : Booking) (target : BookingStatus) (actor : Actor) (s : Store)
    → ((transition_booking now b target actor s).1.invoices ≡ s.invoices)
      × ((transition_booking now b target actor s).1.ledger_entries ≡ s.ledger_entries)
unfolding transition_booking emit_outbox_event
transition_booking-invoices now b target actor s = ground (
  arith,
  move_enquiry-invoices b.enquiry_id Enquiries.booking_proposed Enquiries.booked
      (save_booking (record b { status = target }) s),
  move_enquiry-invoices b.enquiry_id Enquiries.booked Enquiries.completed
      (save_booking (record b { status = target }) s),
)

suppress-store : {A : Type 0} (m : Result A × Store) → (suppress_state_transition m).1 ≡ m.1
suppress-store m = ground arith

-- Two stores have the same invoices and the same ledger.
abbrev SameBooks : Store → Store → Type 0
SameBooks s t = (s.invoices ≡ t.invoices) × (s.ledger_entries ≡ t.ledger_entries)

cascade_found-SameBooks :
    (now : ℕ) (b : Option Booking) (s : Store) → SameBooks (cascade_found now b s).1 s
cascade_found-SameBooks now none s = (refl, refl)
cascade_found-SameBooks now (some b) s = ground (
  arith,
  transition_booking-invoices now b Bookings.completed system s,
  suppress-store (transition_booking now b Bookings.completed system s),
)

cascade_booking_completion-SameBooks :
    (now : ℕ) (x : ServiceExecution) (s : Store)
    → SameBooks (cascade_booking_completion now x s).1 s
unfolding cascade_booking_completion
cascade_booking_completion-SameBooks now x s =
    cascade_found-SameBooks now (find_booking x.booking_id s) s

abbrev AddsRows : Completion → ServiceExecution → Store → Store → Type 0
AddsRows c x s t =
    (t.invoices ≡ s.invoices ++ (new_invoice c x s ∷ []))
    × (t.ledger_entries ≡ s.ledger_entries ++ (new_entry c x (new_invoice c x s) ∷ []))

create_completion_records-new :
    (c : Completion) (x : ServiceExecution) (s : Store)
    → execution_invoice x.id s ≡ none
    → (create_completion_records c x s).0 ≡ ok tt
    → AddsRows c x s (create_completion_records c x s).1
unfolding create_completion_records issue_invoice emit_outbox_event
create_completion_records-new c x s e h = ground arith

complete_records-new :
    (c : Completion) (x : ServiceExecution) (s : Store) (u : Unit {0})
    → execution_invoice x.id s ≡ none
    → (complete_records c x s).0 ≡ ok u
    → AddsRows c x s (complete_records c x s).1
unfolding complete_records
complete_records-new c x s u e h =
    let (v, s₁, created, cascaded) =
      >>=-eq-ok (λ _. cascade_booking_completion c.now x) (create_completion_records c x) s
        (ap (λ r. (r, (complete_records c x s).1)) h) in
    let (i, l) = create_completion_records-new c x s e (ap (λ m. m.0) created ∙ refl) in
    let (j, m) = cascade_booking_completion-SameBooks c.now x s₁ in (cc, cc)

-- What a transition to COMPLETED that returned has done.
transition-completed :
    (c : Completion) (x x' : ServiceExecution) (d : Details) (s s' : Store)
    → transition c x completed d s ≡ (ok x', s')
    → let y = updated_execution c.now d completed x in
      (x' ≡ y)
      × ((complete_records c y (save_execution y s)).0 ≡ ok tt)
      × SameBooks s' (complete_records c y (save_execution y s)).1
unfolding transition emit_outbox_event
transition-completed c x x' d s s' h = ground arith

-- The rows of a completion do not depend on what the transition has changed before.
new_invoice-updated :
    (c : Completion) (now : ℕ) (d : Details) (x : ServiceExecution) (s : Store)
    → let y = updated_execution now d completed x in
      new_invoice c y (save_execution y s) ≡ new_invoice c x s
new_invoice-updated c now d x s = refl

new_entry-updated :
    (c : Completion) (now : ℕ) (d : Details) (x : ServiceExecution) (v w : Invoice)
    → v ≡ w
    → new_entry c (updated_execution now d completed x) v ≡ new_entry c x w
new_entry-updated c now d x v w e = ap (λ i. new_entry c x i) e

-- The amount of the quote; nothing without a quote.
abbrev pub IsPriced : Option Quote → ℤ → Type 0
IsPriced none amount = amount ≡ pos 0
IsPriced (some q) amount = amount ≡ q.amount

-- One more invoice, of the execution, unpaid, with the quote's amount, and one more entry for it, with
-- the same amount.
pub record AddsInvoice (x : ServiceExecution) (s t : Store) : Type 0 where
  pub invoice : Invoice
  pub ledger_entry : LedgerEntry
  pub invoices : t.invoices ≡ s.invoices ++ (invoice ∷ [])
  pub entries : t.ledger_entries ≡ s.ledger_entries ++ (ledger_entry ∷ [])
  pub execution : invoice.service_execution_id ≡ x.id
  pub business : invoice.business_id ≡ x.business_id
  pub customer : invoice.customer_id ≡ x.customer_id
  pub is_unpaid : invoice.payment_status ≡ Invoices.unpaid
  pub subtotal : IsPriced (find_quote x.quote_id s.quotes) invoice.subtotal
  pub total : IsPriced (find_quote x.quote_id s.quotes) invoice.total
  pub of_invoice : ledger_entry.invoice_id ≡ some invoice.id
  pub gross : IsPriced (find_quote x.quote_id s.quotes) ledger_entry.gross_amount
  pub net : IsPriced (find_quote x.quote_id s.quotes) ledger_entry.net_amount

untouched_amount : (a : ℤ) → ((a -ℤ pos 0) +ℤ pos 0 ≡ a) × (((a -ℤ pos 0) +ℤ pos 0) -ℤ pos 0 ≡ a)
untouched_amount a =
    let total = plus_zero (a -ℤ pos 0) ∙ minus_zero a in (total, minus_zero _ ∙ total)

IsPriced-subtotal : (q : Option Quote) → IsPriced q (quote_amount q)
IsPriced-subtotal none = refl
IsPriced-subtotal (some q) = refl

rows-AddsInvoice :
    (c : Completion) (x : ServiceExecution) (s t : Store) → AddsRows c x s t → AddsInvoice x s t
rows-AddsInvoice c x s t (i, l) =
    let q = find_quote x.quote_id s.quotes in
    let (one, two) = untouched_amount (quote_amount q) in
    record {
      invoice = new_invoice c x s;
      ledger_entry = new_entry c x (new_invoice c x s);
      invoices = i;
      entries = l;
      execution = refl;
      business = refl;
      customer = refl;
      is_unpaid = refl;
      subtotal = IsPriced-subtotal q;
      total = subst (IsPriced q) (sym one) (IsPriced-subtotal q);
      of_invoice = refl;
      gross = IsPriced-subtotal q;
      net = subst (IsPriced q) (sym two) (IsPriced-subtotal q);
    }

-- A completion that returned, of a service that was not completed and had no invoice, has added one
-- unpaid invoice and one ledger entry for it, both of the amount of the service's quote (zero without
-- one); and completing the result again changes nothing.
pub complete_service-AddsInvoice :
    (c c' : Completion) (x x' : ServiceExecution) (d d' : Details) (s s' : Store)
    → same x.status completed ≡ false
    → execution_invoice x.id s ≡ none
    → complete_service c x d s ≡ (ok x', s')
    → AddsInvoice x s s' × (complete_service c' x' d' s' ≡ (ok x', s'))
unfolding complete_service
complete_service-AddsInvoice c c' x x' d d' s s' fresh none_yet h =
    let y = updated_execution c.now d completed x in
    let h' : transition c x completed d s ≡ (ok x', s') = ground arith in
    let (done, r, (i, l)) = transition-completed c x x' d s s' h' in
    let (j, m) = complete_records-new c y (save_execution y s) tt none_yet r in
    let st : x'.status ≡ completed = cc in
    let v = new_invoice-updated c c.now d x s in
    (
      rows-AddsInvoice c x s s' (
        i ∙ j ∙ ap (λ w. s.invoices ++ (w ∷ [])) v,
        l ∙ m ∙ ap (λ w. s.ledger_entries ++ (w ∷ [])) (new_entry-updated c c.now d x _ _ v),
      ),
      ground arith,
    )
