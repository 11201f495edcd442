-- ===== src/Payment/Service.antt =====
-- backend/app/domain/payment/service.py, PaymentService: creation, processing, cancellation and
-- expiry. The payment that a method receives is the loaded row.
use fielded_online.Common.{
  ℕ, suc, Bool, true, false, not, ◌&&◌, List, [], ◌∷◌, ◌++◌, Option, none, some, length, select,
  is_in, same, ◌==◌, if◌then◌else◌,
}
use fielded_online.Common.Int.{ℤ, pos}
use fielded_online.Common.Outcome.{
  Action, pure, gets, raise_if, or_raise, modify, ◌>>=◌, ◌>>◌, validation, state_transition, ok,
  continue,
}
use fielded_online.Status.Payments.{
  payment_status_enum, pending, processing, succeeded, failed, expired, cancelled,
}
use fielded_online.Store.{Store, PaymentRequest, save_payment, emit_outbox_event}
use fielded_online.Store.Outbox.{payment_event}
use fielded_online.Store.Payments.{Payment, PaymentAttempt, Currency, currency_enum}
use fielded_online.Store.Payments
use fielded_online.Store.Documents.{Invoice}
use fielded_online.Payment.Provider.{PaymentProvider, ProviderResult, ProviderStatus}
use fielded_online.Payment.Provider
use fielded_online.Payment.Connect.{resolve_stripe_connect}
use fielded_online.Payment.Checks.{NewPayment, find_by_key, check_payment}
use fielded_online.Payment.Balance.{update_invoice_payment_status, validate_transition}

abbrev pub pending_payment : NewPayment → Invoice → ℤ → Store → Payment
pending_payment r invoice amount s = record {
  id = length s.payments;
  idempotency_key = r.idempotency_key;
  business_id = r.business_id;
  customer_id = r.customer_id;
  invoice_id = some r.invoice_id;
  amount = amount;
  currency = r.currency;
  payment_method = r.payment_method;
  status = pending;
  provider = r.provider_name;
  provider_reference = none;
  refunded_amount = pos 0;
  refund_provider_reference = none;
  paid_at = none;
  refunded_at = none;
  provider_evidence = none;
  fee_evidence = invoice.fee_evidence;
  failure_code = none;
  failure_message = none;
}

-- The store with one more payment.
abbrev pub add_payment : Payment → Store → Store
add_payment p s = record s { payments = s.payments ++ (p ∷ []) }

unfoldable pub insert_payment : NewPayment → Invoice × ℤ → Action Store Payment
insert_payment r (invoice, amount) s =
    let payment = pending_payment r invoice amount s in (ok payment, add_payment payment s)

unfoldable pub create_payment : NewPayment → Action Store Payment
create_payment r s =
    let fresh = continue (insert_payment r) (check_payment r s) s in
    elim (find_by_key r.idempotency_key s) [ some existing ↦ (pure existing) s | none ↦ fresh ]

-- The provider's statuses that leave a payment in PROCESSING.
abbrev pub awaits_confirmation : ProviderStatus → Bool
awaits_confirmation Provider.requires_payment_method = true
awaits_confirmation Provider.requires_confirmation = true
awaits_confirmation Provider.requires_action = true
awaits_confirmation Provider.processing = true
awaits_confirmation Provider.pending = true
awaits_confirmation Provider.succeeded = false
awaits_confirmation Provider.other = false

-- The attempts that a payment has had.
abbrev pub attempt_count : ℕ → Store → ℕ
attempt_count p s = length (select (λ a. a.payment_id == p) s.attempts)

abbrev pub put_attempt : PaymentAttempt → List PaymentAttempt → List PaymentAttempt
put_attempt a [] = []
put_attempt a (b ∷ bs) =
    if b.payment_id == a.payment_id && b.attempt_number == a.attempt_number
    then a ∷ bs
    else b ∷ put_attempt a bs

abbrev pub save_attempt : PaymentAttempt → Store → Store
save_attempt a s = record s { attempts = put_attempt a s.attempts }

abbrev pub first_attempt : ℕ → Payment → ℕ → PaymentAttempt
first_attempt now p number = record {
  payment_id = p.id;
  attempt_number = number;
  provider = p.provider;
  provider_reference = none;
  status = Payments.processing;
  amount = p.amount;
  currency = p.currency;
  requested_at = now;
  completed_at = none;
  error_code = none;
  provider_response = none;
}

-- The three ends of process_payment.
unfoldable pub record_awaiting :
    ℕ → Payment → PaymentAttempt → ProviderResult → Action Store Payment
record_awaiting now p a result = do
  modify (
      save_attempt (record a {
        completed_at = some now;
        provider_reference = result.provider_reference;
        provider_response = result.raw_response;
      }))
  let p' = record p { provider_reference = result.provider_reference }
  modify (save_payment p')
  pure p'

unfoldable pub record_success : ℕ → Payment → PaymentAttempt → ProviderResult → Action Store Payment
record_success now p a result = do
  modify (
      save_attempt (record a {
        completed_at = some now;
        status = Payments.succeeded;
        provider_reference = result.provider_reference;
        provider_response = result.raw_response;
      }))
  validate_transition p.status succeeded
  let p' = record p {
    status = succeeded;
    provider_reference = result.provider_reference;
    paid_at = some now;
    provider_evidence = result.raw_response;
  }
  modify (save_payment p')
  modify (update_invoice_payment_status p')
  emit_outbox_event now (payment_event succeeded) p.business_id p.id
  pure p'

unfoldable pub record_failure : ℕ → Payment → PaymentAttempt → ProviderResult → Action Store Payment
record_failure now p a result = do
  modify (
      save_attempt (record a {
        completed_at = some now;
        status = Payments.failed;
        error_code = result.error;
        provider_response = result.raw_response;
      }))
  validate_transition p.status failed
  let p' = record p { status = failed; failure_code = result.error; failure_message = result.error }
  modify (save_payment p')
  emit_outbox_event now (payment_event failed) p.business_id p.id
  pure p'

unfoldable pub record_result : ℕ → Payment → PaymentAttempt → ProviderResult → Action Store Payment
record_result now p a result =
    if result.success && awaits_confirmation result.raw_status
    then record_awaiting now p a result
    else if result.success
    then record_success now p a result
    else record_failure now p a result

abbrev pub charge_request : Payment → Option ℕ × Option ℕ → PaymentRequest
charge_request p connect = record {
  amount = p.amount;
  currency = p.currency;
  idempotency_key = p.idempotency_key;
  payment_id = p.id;
  stripe_account = connect.0;
  application_fee_amount = connect.1;
}

unfoldable pub process_payment : ℕ → Option PaymentProvider → Payment → Action Store Payment
process_payment now provider payment = do
  raise_if (not (same payment.status pending)) state_transition
  prov ← or_raise provider validation
  validate_transition payment.status processing
  let p = record payment { status = processing }
  modify (save_payment p)
  number ← gets (λ s. suc (attempt_count p.id s))
  let attempt = first_attempt now p number
  modify (λ s. record s { attempts = s.attempts ++ (attempt ∷ []) })
  connect ← resolve_stripe_connect prov p
  let sent = charge_request p connect
  modify (λ s. record s { payments_sent = s.payments_sent ++ (sent ∷ []) })
  record_result now p attempt (prov.initiate_payment sent)

unfoldable pub cancel_payment : Payment → Action Store Payment
cancel_payment payment = do
  raise_if (not (same payment.status pending)) state_transition
  validate_transition payment.status cancelled
  let p = record payment { status = cancelled }
  modify (save_payment p)
  pure p

unfoldable pub expire_payment : Payment → Action Store Payment
expire_payment payment = do
  raise_if (not (is_in payment.status (pending ∷ processing ∷ []))) state_transition
  validate_transition payment.status expired
  let p = record payment { status = expired }
  modify (save_payment p)
  pure p
