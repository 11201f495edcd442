-- ===== src/Payment/Money.antt =====
-- The money of one payment under refund_payment.
use fielded_online.Common.{
  ℕ, ◌≡◌, sym, ap, ◌∙◌, inl, inr, ◌⊎◌, ◌↔◌, Option, none, some, [], ◌∷◌, ◌++◌, arith,
}
use fielded_online.Common.Int.{ℤ, pos, ◌+ℤ◌, ◌≤ℤ◌, +ℤ_parts, -ℤ_parts}
use fielded_online.Common.Outcome.{>>=-eq-ok, ok}
use fielded_online.Status.Payments.{partially_refunded, refunded}
use fielded_online.Store.{Store, emit_outbox_event}
use fielded_online.Store.Payments.{Payment}
use fielded_online.Payment.Provider.{PaymentProvider}
use fielded_online.Payment.Connect.{business_stripe_account}
use fielded_online.Payment.Balance.{
  validate_transition, update_invoice_payment_status, sync_invoice,
}
use fielded_online.Payment.Refund.{
  RefundAmount, millionths, stored, refund_amount, refund_status, record_refund, send_refund,
  refund_payment, refund_request,
}

-- No more is refunded than was taken.
pub record IsSound (p : Payment) : Type 0 where
  pub nonneg : pos 0 ≤ℤ p.refunded_amount
  pub bounded : p.refunded_amount ≤ℤ p.amount

-- The amount that is refunded, in millionths, with what has been refunded before, is at most what was
-- taken.
abbrev pub Fits : Payment → ℤ → Type 0
Fits p r = (pos 0 ≤ℤ r) × (millionths p.refunded_amount +ℤ r ≤ℤ millionths p.amount)

≤ℤ_trans : (a b c : ℤ) → a ≤ℤ b → b ≤ℤ c → a ≤ℤ c
≤ℤ_trans a b c h k = omega arith

millionths_mono : (a b : ℤ) → a ≤ℤ b → millionths a ≤ℤ millionths b
millionths_mono a b h = ground arith

refund_amount-Fits :
    (p : Payment) (amount : RefundAmount) (r : ℤ) (s s' : Store)
    → IsSound p
    → refund_amount p amount s ≡ (ok r, s')
    → Fits p r × (s' ≡ s)
unfolding refund_amount
refund_amount-Fits p RefundAmount.whole r s s' h e =
    let mono = millionths_mono p.refunded_amount p.amount h.bounded in
    ground (
      arith,
      mono,
      -ℤ_parts (millionths p.amount) (millionths p.refunded_amount),
      +ℤ_parts (millionths p.refunded_amount) r,
    )
refund_amount-Fits p RefundAmount.malformed r s s' h e = cc
refund_amount-Fits p RefundAmount.not_a_number r s s' h e = cc
refund_amount-Fits p (RefundAmount.part a) r s s' h e = ground (
  arith,
  -ℤ_parts (millionths p.amount) (millionths p.refunded_amount),
  +ℤ_parts (millionths p.refunded_amount) r,
)

-- What the column keeps lies between what it held before and what was taken.
stored-bounds :
    (f a r : ℤ)
    → pos 0 ≤ℤ f
    → pos 0 ≤ℤ r
    → millionths f +ℤ r ≤ℤ millionths a
    → (f ≤ℤ stored (millionths f +ℤ r)) × (stored (millionths f +ℤ r) ≤ℤ a)
unfolding stored ◌+ℤ◌
stored-bounds f a r h k fits = ground arith

stored-millionths : (a : ℤ) → stored (millionths a) ≡ a
unfolding stored
stored-millionths a = ground arith

refund_status-eq-refunded : (n a : ℤ) → n ≤ℤ a → ((refund_status n a ≡ refunded) ↔ (n ≡ a))
unfolding refund_status
refund_status-eq-refunded n a h = ground arith

-- What a refund that goes through leaves in the row.
record_refund-ok :
    (now : ℕ) (p : Payment) (r : ℤ) (reference : Option ℕ) (p' : Payment) (s s' : Store)
    → record_refund now p r reference s ≡ (ok p', s')
    → (p'.refunded_amount ≡ stored (millionths p.refunded_amount +ℤ r))
      × (p'.amount ≡ p.amount)
      × (p'.status ≡ refund_status (millionths p.refunded_amount +ℤ r) (millionths p.amount))
unfolding record_refund validate_transition emit_outbox_event
record_refund-ok now p r reference p' s s' e = ground arith

pub send_refund-ok :
    (now : ℕ) (prov : PaymentProvider) (p : Payment) (r : ℤ) (p' : Payment) (s s' : Store)
    → send_refund now prov p r s ≡ (ok p', s')
    → (reference : Option ℕ) × (s₁ : Store) × (record_refund now p r reference s₁ ≡ (ok p', s'))
unfolding send_refund
send_refund-ok now prov p r p' s s' e =
    let sent = refund_request p r (business_stripe_account prov p.business_id s) in
    (
      (prov.refund sent).provider_reference,
      record s { refunds_sent = s.refunds_sent ++ (sent ∷ []) },
      ground arith,
    )

pub refund_payment-ok :
    (now : ℕ) (prov : Option PaymentProvider) (amount : RefundAmount) (p p' : Payment)
    (s s' : Store)
    → refund_payment now prov amount p s ≡ (ok p', s')
    → (v : PaymentProvider) × (r : ℤ) × (s₁ : Store) × (refund_amount p amount s ≡ (ok r, s₁))
      × (send_refund now v p r s₁ ≡ (ok p', s'))
unfolding refund_payment
refund_payment-ok now none amount p p' s s' e = absurd (ground arith)
refund_payment-ok now (some v) amount p p' s s' e =
    let (r, s₁, paid, sent) =
      >>=-eq-ok (send_refund now v p) (refund_amount p amount) s (ground arith) in
    (v, r, s₁, paid, sent)

pub update_invoice-sends :
    (p : Payment) (s : Store)
    → let s' = update_invoice_payment_status p s in
      (s'.payments_sent ≡ s.payments_sent)
      × (s'.refunds_sent ≡ s.refunds_sent)
      × (s'.outbox ≡ s.outbox)
unfolding update_invoice_payment_status sync_invoice
update_invoice-sends p s = ground arith

record_refund-sends :
    (now : ℕ) (p : Payment) (r : ℤ) (reference : Option ℕ) (p' : Payment) (s s' : Store)
    → record_refund now p r reference s ≡ (ok p', s')
    → s'.refunds_sent ≡ s.refunds_sent
unfolding record_refund validate_transition emit_outbox_event
record_refund-sends now p r reference p' s s' e = grind (arith, update_invoice-sends)

-- One request is sent, of the amount.
send_refund-asks :
    (now : ℕ) (prov : PaymentProvider) (p : Payment) (r : ℤ) (p' : Payment) (s s' : Store)
    → send_refund now prov p r s ≡ (ok p', s')
    → s'.refunds_sent
      ≡ s.refunds_sent ++ (refund_request p r (business_stripe_account prov p.business_id s) ∷ [])
unfolding send_refund
send_refund-asks now prov p r p' s s' e =
    let sent = refund_request p r (business_stripe_account prov p.business_id s) in
    let s₁ : Store = record s { refunds_sent = s.refunds_sent ++ (sent ∷ []) } in
    record_refund-sends now p r (prov.refund sent).provider_reference p' s₁ s' (ground arith)

-- What a refund of an amount, in millionths, leaves of the payment: the column rounds the sum of the
-- refunds to hundredths, and the status says whether the exact sum is the whole amount.
pub record IsRefunded (p p' : Payment) (r : ℤ) : Type 0 where
  pub sound : IsSound p'
  pub grows : p.refunded_amount ≤ℤ p'.refunded_amount
  pub amount : p'.amount ≡ p.amount
  pub column : p'.refunded_amount ≡ stored (millionths p.refunded_amount +ℤ r)
  pub full : (p'.status ≡ refunded) ↔ (millionths p.refunded_amount +ℤ r ≡ millionths p.amount)
  pub status :
      (p'.status ≡ partially_refunded) ⊎ ((p'.status ≡ refunded) × (p'.refunded_amount ≡ p'.amount))

refund_status-cases :
    (n a : ℤ)
    → n ≤ℤ a
    → (refund_status n a ≡ partially_refunded) ⊎ ((refund_status n a ≡ refunded) × (n ≡ a))
unfolding refund_status
refund_status-cases n a h = ground arith

after_refund :
    (p p' : Payment) (r : ℤ)
    → IsSound p
    → Fits p r
    → p'.refunded_amount ≡ stored (millionths p.refunded_amount +ℤ r)
    → p'.amount ≡ p.amount
    → p'.status ≡ refund_status (millionths p.refunded_amount +ℤ r) (millionths p.amount)
    → IsRefunded p p' r
after_refund p p' r h (nonneg, fits) column same_amount status =
    let sum = millionths p.refunded_amount +ℤ r in
    let (low, high) = stored-bounds p.refunded_amount p.amount r h.nonneg nonneg fits in
    let grows : p.refunded_amount ≤ℤ p'.refunded_amount = rw column low in
    let (to, from) = refund_status-eq-refunded sum (millionths p.amount) fits in
    record {
      sound = record {
        nonneg = ≤ℤ_trans (pos 0) p.refunded_amount p'.refunded_amount h.nonneg grows;
        bounded = rw (column, same_amount) high;
      };
      grows = grows;
      amount = same_amount;
      column = column;
      full = (λ e. to (sym status ∙ e), λ e. status ∙ from e);
      status = elim (refund_status-cases sum (millionths p.amount) fits) [
        | inl part ↦ inl (status ∙ part)
        | inr (all, e) ↦
            inr (status ∙ all, column ∙ ap stored e ∙ stored-millionths p.amount ∙ sym same_amount)
      ];
    }

-- A refund that returns, of a request with at most six decimal places, has sent the provider one
-- request, of an amount that is not negative and with the refunds before does not exceed what was
-- taken; the row stays sound, its refunded amount is the sum rounded to hundredths, and its status is
-- REFUNDED exactly when the sum before rounding is the whole amount, PARTIALLY_REFUNDED otherwise.
pub refund_payment-IsSound :
    (now : ℕ) (prov : Option PaymentProvider) (amount : RefundAmount) (p p' : Payment)
    (s s' : Store)
    → IsSound p
    → refund_payment now prov amount p s ≡ (ok p', s')
    → (r : ℤ) × Fits p r
      × IsRefunded p p' r
      × (account : Option ℕ) × (s'.refunds_sent
          ≡ s.refunds_sent ++ (refund_request p r account ∷ []))
refund_payment-IsSound now prov amount p p' s s' h e =
    let (v, r, s₁, asked, done) = refund_payment-ok now prov amount p p' s s' e in
    let (fits, same_store) = refund_amount-Fits p amount r s s₁ h asked in
    let (reference, s₂, recorded) = send_refund-ok now v p r p' s₁ s' done in
    let (sum, same_amount, status) = record_refund-ok now p r reference p' s₂ s' recorded in
    let sends = send_refund-asks now v p r p' s₁ s' done in
    (
      r,
      fits,
      after_refund p p' r h fits sum same_amount status,
      business_stripe_account v p.business_id s₁,
      sends
          ∙ ap
              (λ t.
                t.refunds_sent
                ++ (refund_request p r (business_stripe_account v p.business_id s₁) ∷ []))
              same_store,
    )
