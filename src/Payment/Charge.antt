-- ===== src/Payment/Charge.antt =====
-- What process_payment sends to the provider, and what it makes of the answer.
use fielded_online.Common.{
  ℕ, suc, sym, ◌≡◌, refl, ◌∙◌, Option, some, [], ◌∷◌, ◌++◌, if◌then◌else◌, arith,
}
use fielded_online.Common.Outcome.{Action, ok, modify, ◌>>=◌, ◌>>◌, >>=-eq-ok}
use fielded_online.Status.Payments.{
  PaymentStatus, payment_status_enum, pending, processing, succeeded, failed,
}
use fielded_online.Store.{Store, PaymentRequest, save_payment, emit_outbox_event}
use fielded_online.Store.Payments.{Payment, PaymentAttempt}
use fielded_online.Payment.Provider.{PaymentProvider, ProviderResult}
use fielded_online.Payment.Connect.{resolve_stripe_connect}
use fielded_online.Payment.Balance.{validate_transition}
use fielded_online.Payment.Service.{
  awaits_confirmation, record_awaiting, record_success, record_failure, record_result,
  charge_request, process_payment, first_attempt, attempt_count,
}
use fielded_online.Payment.Money.{update_invoice-sends}

-- The status that the provider's answer leads to.
abbrev pub answered_status : ProviderResult → PaymentStatus
answered_status result =
    if result.success
    then if awaits_confirmation result.raw_status then processing else succeeded
    else failed

record_result-ok :
    (now : ℕ) (p p' : Payment) (a : PaymentAttempt) (result : ProviderResult) (s s' : Store)
    → p.status ≡ processing
    → record_result now p a result s ≡ (ok p', s')
    → (p'.status ≡ answered_status result)
      × (p'.amount ≡ p.amount)
      × (s'.payments_sent ≡ s.payments_sent)
unfolding record_result record_awaiting record_success record_failure validate_transition
    emit_outbox_event
record_result-ok now p p' a result s s' st h = grind (arith, update_invoice-sends)

resolve_stripe_connect-store :
    (prov : PaymentProvider) (p : Payment) (s : Store) → (resolve_stripe_connect prov p s).1 ≡ s
unfolding resolve_stripe_connect
resolve_stripe_connect-store prov p s = ground arith

-- process_payment from the point where the attempt is made.
abbrev ask_provider : ℕ → PaymentProvider → Payment → PaymentAttempt → Action Store Payment
ask_provider now prov x a = do
  connect ← resolve_stripe_connect prov x
  let sent = charge_request x connect
  modify (λ s. record s { payments_sent = s.payments_sent ++ (sent ∷ []) })
  record_result now x a (prov.initiate_payment sent)

process_payment-pending :
    (now : ℕ) (prov : PaymentProvider) (p p' : Payment) (s s' : Store)
    → process_payment now (some prov) p s ≡ (ok p', s')
    → p.status ≡ pending
unfolding process_payment
process_payment-pending now prov p p' s s' h = ground arith

process_payment-asks :
    (now : ℕ) (prov : PaymentProvider) (p : Payment) (s : Store)
    → p.status ≡ pending
    → let x = record p { status = processing } in
      let a = first_attempt now x (suc (attempt_count p.id (save_payment x s))) in
      process_payment now (some prov) p s
      ≡ ask_provider now prov x a (record (save_payment x s) { attempts = s.attempts ++ (a ∷ []) })
unfolding process_payment validate_transition
process_payment-asks now prov p s st = rw st refl

process_payment-steps :
    (now : ℕ) (prov : PaymentProvider) (p p' : Payment) (s s' : Store)
    → process_payment now (some prov) p s ≡ (ok p', s')
    → (p.status ≡ pending)
      × (x : Payment) × (a : PaymentAttempt) × (c : Option ℕ × Option ℕ) × (t : Store) × (x
          ≡ record p { status = processing })
      × (t.payments_sent ≡ s.payments_sent ++ (charge_request x c ∷ []))
      × (record_result now x a (prov.initiate_payment (charge_request x c)) t ≡ (ok p', s'))
process_payment-steps now prov p p' s s' h =
    let was = process_payment-pending now prov p p' s s' h in
    let x = record p { status = processing } in
    let a = first_attempt now x (suc (attempt_count p.id (save_payment x s))) in
    let s₂ : Store = record (save_payment x s) { attempts = s.attempts ++ (a ∷ []) } in
    let asked : ask_provider now prov x a s₂ ≡ (ok p', s') =
      sym (process_payment-asks now prov p s was) ∙ h in
    let (c, s₃, resolved, rest) =
      >>=-eq-ok
        (λ connect.
          modify
            (λ s. record s { payments_sent = s.payments_sent ++ (charge_request x connect ∷ []) })
          >> record_result now x a (prov.initiate_payment (charge_request x connect)))
        (resolve_stripe_connect prov x) s₂ asked in
    let same_store : s₃ ≡ s₂ = cc (resolved, resolve_stripe_connect-store prov x s₂) in
    (
      was,
      x,
      a,
      c,
      record s₃ { payments_sent = s₃.payments_sent ++ (charge_request x c ∷ []) },
      refl,
      rw same_store refl,
      rest,
    )

-- When process_payment returns, the payment was PENDING, the provider was asked once, for its amount
-- and with its key, and the status follows the provider's answer.
pub process_payment-charges :
    (now : ℕ) (prov : PaymentProvider) (p p' : Payment) (s s' : Store)
    → process_payment now (some prov) p s ≡ (ok p', s')
    → (p.status ≡ pending)
      × (p'.amount ≡ p.amount)
      × (r : PaymentRequest) × (s'.payments_sent ≡ s.payments_sent ++ (r ∷ []))
      × (r.amount ≡ p.amount)
      × (r.idempotency_key ≡ p.idempotency_key)
      × (p'.status ≡ answered_status (prov.initiate_payment r))
process_payment-charges now prov p p' s s' h =
    let (was, x, a, c, t, same_row, sent, recorded) = process_payment-steps now prov p p' s s' h in
    let st : x.status ≡ processing = cc in
    let (status, amount, kept) =
      record_result-ok now x p' a (prov.initiate_payment (charge_request x c)) t s' st recorded in
    (was, cc, charge_request x c, kept ∙ sent, cc, cc, status)
