-- ===== src/Payment/SecondRefund.antt =====
-- What refund_payment does to a payment that has been refunded in part already.
use fielded_online.Common.{
  ℕ, ◌≡◌, inl, inr, true, Option, some, [], ◌∷◌, ◌++◌, arith, Bool-cases, any, any-append_last,
  if◌then◌else◌,
}
use fielded_online.Common.Int.{ℤ, ◌+ℤ◌, leb_ℤ}
use fielded_online.Common.Outcome.{AppError, ok, err, integrity_error, state_transition}
use fielded_online.Status.Payments.{partially_refunded, refunded}
use fielded_online.Store.{Store, RefundRequest, emit_outbox_event, new_event, request}
use fielded_online.Store.Outbox.{EventType, payment_event, has_key}
use fielded_online.Store.Payments.{Payment}
use fielded_online.Payment.Provider.{PaymentProvider}
use fielded_online.Payment.Connect.{business_stripe_account}
use fielded_online.Payment.Balance.{validate_transition}
use fielded_online.Payment.Refund.{
  RefundAmount, millionths, refund_amount, refund_request, refund_status, record_refund,
  send_refund, refund_payment,
}
use fielded_online.Payment.Money.{update_invoice-sends, send_refund-ok, refund_payment-ok}

abbrev Reported : Payment → Store → Type 0
Reported p s = any (has_key (payment_event refunded) p.id) s.outbox ≡ true

emit-has_key :
    (now : ℕ) (t : EventType) (b a : ℕ) (s s' : Store)
    → emit_outbox_event now t b a s ≡ (ok tt, s')
    → any (has_key t a) s'.outbox ≡ true
unfolding emit_outbox_event
emit-has_key now t b a s s' e =
    ground (arith, any-append_last (has_key t a) s.outbox (new_event now t b a s))

record_refund-Reported :
    (now : ℕ) (p : Payment) (r : ℤ) (reference : Option ℕ) (p' : Payment) (s s' : Store)
    → record_refund now p r reference s ≡ (ok p', s')
    → Reported p' s'
unfolding record_refund validate_transition
record_refund-Reported now p r reference p' s s' e = grind (arith, emit-has_key)

-- How the second refund fails: the rest of the money by the duplicate event, less by the transition.
abbrev pub second_error : ℤ → ℤ → AppError
second_error new_refunded payment_amount =
    if leb_ℤ payment_amount new_refunded then integrity_error else state_transition

record_refund-second :
    (now : ℕ) (p : Payment) (r : ℤ) (reference : Option ℕ) (s : Store)
    → p.status ≡ partially_refunded
    → Reported p s
    → let (x, s') = record_refund now p r reference s in
      (x ≡ err (second_error (millionths p.refunded_amount +ℤ r) (millionths p.amount)))
      × (s'.payments_sent ≡ s.payments_sent)
      × (s'.refunds_sent ≡ s.refunds_sent)
unfolding record_refund validate_transition refund_status emit_outbox_event
record_refund-second now p r reference s st rep =
    elim (Bool-cases (leb_ℤ (millionths p.amount) (millionths p.refunded_amount +ℤ r))) [
      | inl full ↦ grind (arith, update_invoice-sends)
      | inr less ↦ ground arith
    ]

refund_payment-Reported :
    (now : ℕ) (prov : Option PaymentProvider) (amount : RefundAmount) (p p' : Payment)
    (s s' : Store)
    → refund_payment now prov amount p s ≡ (ok p', s')
    → Reported p' s'
refund_payment-Reported now prov amount p p' s s' e =
    let (v, r, s₁, _, done) = refund_payment-ok now prov amount p p' s s' e in
    let (reference, s₂, recorded) = send_refund-ok now v p r p' s₁ s' done in
    record_refund-Reported now p r reference p' s₂ s' recorded

abbrev pub sent_request : PaymentProvider → Payment → ℤ → Store → RefundRequest
sent_request v p r s = refund_request p r (business_stripe_account v p.business_id s)

-- After a refund that left a payment PARTIALLY_REFUNDED, a further refund of a valid amount that the
-- provider carries out fails in the service: the provider keeps the request, and the tables are
-- rolled back, so the payment still shows the old refunded amount.
pub refund_twice_fails :
    (now later : ℕ) (prov : Option PaymentProvider) (v : PaymentProvider)
    (first second : RefundAmount) (p p' : Payment) (s s' : Store) (r : ℤ)
    → refund_payment now prov first p s ≡ (ok p', s')
    → p'.status ≡ partially_refunded
    → refund_amount p' second s' ≡ (ok r, s')
    → (v.refund (sent_request v p' r s')).success ≡ true
    → request (refund_payment later (some v) second p') s' ≡ (
      err (second_error (millionths p'.refunded_amount +ℤ r) (millionths p'.amount)),
      record s' { refunds_sent = s'.refunds_sent ++ (sent_request v p' r s' ∷ []) },
    )
unfolding refund_payment send_refund
refund_twice_fails now later prov v first second p p' s s' r e st valid done =
    let reported = refund_payment-Reported now prov first p p' s s' e in
    let sent = sent_request v p' r s' in
    let s₁ : Store = record s' { refunds_sent = s'.refunds_sent ++ (sent ∷ []) } in
    ground
      (arith, record_refund-second later p' r (v.refund sent).provider_reference s₁ st reported)
