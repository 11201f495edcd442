-- ===== src/Payment/Delivery.antt =====
-- Repeated delivery of one webhook event.
use fielded_online.Common.{
  ℕ, ◌≡◌, refl, inl, inr, Bool, true, false, List, [], ◌∷◌, some, none, any, select, ◌⊎◌, same,
  ◌==◌, ==_iff, if◌then◌else◌, arith, Bool-cases, Option-cases, ap, ◌∙◌, is_in,
}
use fielded_online.Common.Outcome.{ok, err, unexpected}
use fielded_online.Status.Payments.{
  PaymentStatus, payment_status_enum, payment_status_index_injective, payment_transitions,
  succeeded,
}
use fielded_online.Store.{Store, put_payment, save_payment}
use fielded_online.Store.Payments.{Payment}
use fielded_online.Payment.Balance.{update_invoice_payment_status, sync_invoice}
use fielded_online.Payment.Webhook.{
  WebhookEvent, map_webhook_to_status, has_reference, rows_of_reference, at_most_one,
  webhook_payment, apply_webhook, handle_webhook,
}

abbrev pub has_id : ℕ → Payment → Bool
has_id i q = q.id == i

-- No two rows have the same id: the primary key.
abbrev pub Distinct : List Payment → Type 0
Distinct [] = Unit
Distinct (p ∷ ps) = (any (has_id p.id) ps ≡ false) × Distinct ps

select-any :
    (t : Payment → Bool) (ps : List Payment) (p : Payment)
    → select t ps ≡ p ∷ []
    → any (has_id p.id) ps ≡ true
select-any t [] p h = cc
select-any t (x ∷ ps) p h = ground (arith, select-any t ps p)

select-holds :
    (t : Payment → Bool) (ps : List Payment) (p : Payment) → select t ps ≡ p ∷ [] → t p ≡ true
select-holds t [] p h = cc
select-holds t (x ∷ ps) p h = ground (arith, select-holds t ps p)

-- A replaced row is found where the old one was, if it still passes the test.
select-put_payment :
    (t : Payment → Bool) (ps : List Payment) (p p' : Payment)
    → Distinct ps
    → select t ps ≡ p ∷ []
    → p'.id ≡ p.id
    → t p' ≡ true
    → select t (put_payment p' ps) ≡ p' ∷ []
select-put_payment t [] p p' d h i e = cc
select-put_payment t (x ∷ ps) p p' d h i e =
    ground (arith, select-any t ps p, select-put_payment t ps p p' d.1)

update_invoice-payments :
    (p : Payment) (s : Store) → (update_invoice_payment_status p s).payments ≡ s.payments
unfolding update_invoice_payment_status sync_invoice
update_invoice-payments p s = ground arith

webhook_payment-same :
    (now event : ℕ) (t : PaymentStatus) (p : Payment)
    → ((webhook_payment now event t p).status ≡ t)
      × ((webhook_payment now event t p).id ≡ p.id)
      × ((webhook_payment now event t p).provider_reference ≡ p.provider_reference)
webhook_payment-same now event t p = ground arith

-- What is left of the store after a transition is applied.
apply_webhook-find :
    (now event r : ℕ) (t : PaymentStatus) (p : Payment) (s : Store)
    → Distinct s.payments
    → rows_of_reference r s ≡ p ∷ []
    → (same p.status t ≡ false)
    → let p' = webhook_payment now event t p in
      let s' = save_payment p' s in
      (rows_of_reference r s' ≡ p' ∷ [])
      × (rows_of_reference r (update_invoice_payment_status p' s') ≡ p' ∷ [])
apply_webhook-find now event r t p s d h n =
    let p' = webhook_payment now event t p in
    let (_, id, reference) = webhook_payment-same now event t p in
    let old = select-holds (λ q. has_reference r q.provider_reference) s.payments p h in
    let hit =
      select-put_payment (λ q. has_reference r q.provider_reference) s.payments p p' d h id
        (ap (has_reference r) reference ∙ old) in
    (hit, rw (update_invoice-payments p' (save_payment p' s)) hit)

apply_webhook-applied :
    (now event : ℕ) (t : PaymentStatus) (p : Payment) (s : Store)
    → same p.status t ≡ false
    → is_in t (payment_transitions p.status) ≡ true
    → let p' = webhook_payment now event t p in
      let s' = save_payment p' s in
      apply_webhook now event t p s
      ≡ (ok (some p'), if same t succeeded then update_invoice_payment_status p' s' else s')
unfolding apply_webhook
apply_webhook-applied now event t p s other allowed = ground arith

apply_webhook-done :
    (now event : ℕ) (t : PaymentStatus) (p : Payment) (s : Store)
    → p.status ≡ t
    → apply_webhook now event t p s ≡ (ok (some p), s)
unfolding apply_webhook
apply_webhook-done now event t p s e = ground arith

apply_webhook-refused :
    (now event : ℕ) (t : PaymentStatus) (p : Payment) (s : Store)
    → same p.status t ≡ false
    → is_in t (payment_transitions p.status) ≡ false
    → apply_webhook now event t p s ≡ (ok (some p), s)
unfolding apply_webhook
apply_webhook-refused now event t p s other refused = ground arith

same-eq : (a b : PaymentStatus) → same a b ≡ true → a ≡ b
same-eq a b h = payment_status_index_injective a b ((==_iff _ _).0 h)

if-find :
    (b : Bool) (r : ℕ) (p : Payment) (s s' : Store)
    → rows_of_reference r s ≡ p ∷ []
    → rows_of_reference r s' ≡ p ∷ []
    → rows_of_reference r (if b then s' else s) ≡ p ∷ []
if-find true r p s s' h h' = h'
if-find false r p s s' h h' = h

apply_webhook_again :
    (now later event r : ℕ) (t : PaymentStatus) (p : Payment) (s : Store)
    → Distinct s.payments
    → rows_of_reference r s ≡ p ∷ []
    → let (x, s') = apply_webhook now event t p s in
      (q : Payment) × (x ≡ ok (some q))
      × (rows_of_reference r s' ≡ q ∷ [])
      × (apply_webhook later event t q s' ≡ (x, s'))
apply_webhook_again now later event r t p s d h = elim (Bool-cases (same p.status t)) [
  | inl done ↦
      let st = same-eq p.status t done in
      let out = apply_webhook-done now event t p s st in
      (p, rw out refl, rw out h, rw out (apply_webhook-done later event t p s st))
  | inr other ↦ elim (Bool-cases (is_in t (payment_transitions p.status))) [
    | inl allowed ↦
        let p' = webhook_payment now event t p in
        let (kept, kept_paid) = apply_webhook-find now event r t p s d h other in
        let st = (webhook_payment-same now event t p).0 in
        let out = apply_webhook-applied now event t p s other allowed in
        (
          p',
          rw out refl,
          rw out (if-find (same t succeeded) r p' _ _ kept kept_paid),
          rw out (apply_webhook-done later event t p' _ st),
        )
    | inr refused ↦
        let out = λ (at : ℕ). apply_webhook-refused at event t p s other refused in
        (p, rw (out now) refl, rw (out now) h, rw (out now) (out later))
  ]
]

handle_webhook-known :
    (now : ℕ) (e : WebhookEvent) (t : PaymentStatus) (p : Payment) (s : Store)
    → rows_of_reference e.reference s ≡ p ∷ []
    → map_webhook_to_status e ≡ some t
    → handle_webhook now e s ≡ apply_webhook now e.event_type t p s
unfolding handle_webhook
handle_webhook-known now e t p s h mapped = ground arith

reference-cases :
    (ps : List Payment)
    → ((p : Payment) × (ps ≡ p ∷ []))
      ⊎ (at_most_one ps ≡ ok none)
      ⊎ (at_most_one ps ≡ err unexpected)
reference-cases [] = inr (inl refl)
reference-cases (p ∷ []) = inl (p, refl)
reference-cases (p ∷ q ∷ ps) = inr (inr refl)

-- Where no two payments have the same id, a second delivery of an event, at whatever time, has the same
-- answer, an exception included, and changes nothing.
pub handle_webhook_again :
    (now later : ℕ) (e : WebhookEvent) (s : Store)
    → Distinct s.payments
    → let (x, s') = handle_webhook now e s in handle_webhook later e s' ≡ (x, s')
unfolding handle_webhook
handle_webhook_again now later e s d = elim (reference-cases (rows_of_reference e.reference s)) [
  | inl (p, h) ↦ elim (Option-cases (map_webhook_to_status e)) [
    | inl ignored ↦ ground arith
    | inr (t, mapped) ↦
        let (q, out, hit, done) =
          apply_webhook_again now later e.event_type e.reference t p s d h in
        rw (handle_webhook-known now e t p s h mapped)
          (handle_webhook-known later e t q _ hit mapped ∙ done)
  ]
  | inr (inl unknown) ↦ ground arith
  | inr (inr several) ↦ ground arith
]
