-- ===== src/Store.antt =====
-- The database as the services see it: one list of rows for each table, and what the payment
-- provider has been sent, which no rollback takes back.
-- A change of a loaded object is visible to the later queries of the same session (SQLAlchemy
-- flushes before a query), so each change is written to its table where the source makes it.
pub mod Outbox
pub mod Payments
pub mod Documents
pub mod Lifecycle
pub mod Conversations
use fielded_online.Common.{
  ℕ, suc, List, [], ◌∷◌, ◌++◌, Option, none, some, any, find, length, ◌==◌, if◌then◌else◌,
}
use fielded_online.Common.Int.{ℤ}
use fielded_online.Common.Outcome.{Action, ok, err, integrity_error}
use Outbox.{EventType, OutboxEvent, pending, has_key}
use Payments.{Payment, PaymentAttempt, Business, Currency}
use Documents.{Invoice, InvoiceLineItem, LedgerEntry}
use Lifecycle.{Enquiry, Quote, Booking, ServiceExecution}
use Conversations.{Conversation, Message}

-- backend/app/adapters/payment/base.py, PaymentRequest and RefundRequest. A payment is
-- asked for in hundredths, a refund in millionths.
pub record PaymentRequest : Type 0 where
  pub amount : ℤ
  pub currency : Currency
  pub idempotency_key : ℕ
  pub payment_id : ℕ
  pub stripe_account : Option ℕ
  pub application_fee_amount : Option ℕ

pub record RefundRequest : Type 0 where
  pub provider_payment_reference : Option ℕ
  pub amount : ℤ
  pub payment_id : ℕ
  pub stripe_account : Option ℕ

pub record Store : Type 0 where
  pub businesses : List Business
  pub payments : List Payment
  pub attempts : List PaymentAttempt
  pub invoices : List Invoice
  pub line_items : List InvoiceLineItem
  pub ledger_entries : List LedgerEntry
  pub enquiries : List Enquiry
  pub quotes : List Quote
  pub bookings : List Booking
  pub executions : List ServiceExecution
  pub conversations : List Conversation
  pub messages : List Message
  pub outbox : List OutboxEvent
  pub payments_sent : List PaymentRequest
  pub refunds_sent : List RefundRequest

-- A row is replaced by the row with its number.
abbrev pub put_payment : Payment → List Payment → List Payment
put_payment p [] = []
put_payment p (q ∷ qs) = if q.id == p.id then p ∷ qs else q ∷ put_payment p qs

abbrev pub save_payment : Payment → Store → Store
save_payment p s = record s { payments = put_payment p s.payments }

abbrev pub put_enquiry : Enquiry → List Enquiry → List Enquiry
put_enquiry e [] = []
put_enquiry e (x ∷ xs) = if x.id == e.id then e ∷ xs else x ∷ put_enquiry e xs

abbrev pub put_quote : Quote → List Quote → List Quote
put_quote e [] = []
put_quote e (x ∷ xs) = if x.id == e.id then e ∷ xs else x ∷ put_quote e xs

abbrev pub put_booking : Booking → List Booking → List Booking
put_booking e [] = []
put_booking e (x ∷ xs) = if x.id == e.id then e ∷ xs else x ∷ put_booking e xs

abbrev pub put_execution : ServiceExecution → List ServiceExecution → List ServiceExecution
put_execution e [] = []
put_execution e (x ∷ xs) = if x.id == e.id then e ∷ xs else x ∷ put_execution e xs

abbrev pub new_event : ℕ → EventType → ℕ → ℕ → Store → OutboxEvent
new_event now t business aggregate s = record {
  id = length s.outbox;
  business_id = business;
  event_type = t;
  aggregate_id = aggregate;
  status = pending;
  attempt_count = 0;
  available_at = now;
  processed_at = none;
  last_error = none;
  processing_started_at = none;
}

-- `_emit_outbox_event` of each service: a row whose idempotency key is unique.
unfoldable pub emit_outbox_event : ℕ → EventType → ℕ → ℕ → Action Store (Unit {0})
emit_outbox_event now t business aggregate s =
    if any (has_key t aggregate) s.outbox
    then (err integrity_error, s)
    else (ok tt, record s { outbox = s.outbox ++ (new_event now t business aggregate s ∷ []) })

-- get_db_session of backend/app/database.py around an action: an exception rolls the tables back,
-- and what was sent to the provider stays sent.
abbrev pub request : {A : Type 0} → Action Store A → Action Store A
request m s =
    let (r, s') = m s in
    elim r [
      | ok a ↦ (ok a, s')
      | err e ↦
          (err e, record s { payments_sent = s'.payments_sent; refunds_sent = s'.refunds_sent })
    ]
