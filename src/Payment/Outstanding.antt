-- ===== src/Payment/Outstanding.antt =====
-- What create_payment lets a customer pay, against what the business still has to be paid.
use fielded_online.Common.{
  ℕ, ◌+◌, ◌≡◌, refl, inl, inr, ◌&&◌, List, [], ◌∷◌, ◌++◌, none, some, find, is_in, ◌==◌,
  if◌then◌else◌, arith, Option-cases, ◌↔◌, ap, ◌∙◌,
}
use fielded_online.Common.Int.{ℤ, pos, pos_part, neg_part, ◌+ℤ◌, ◌-ℤ◌, ◌≤ℤ◌, ltb_ℤ, leb_ℤ, int_laws}
use fielded_online.Common.Outcome.{Result, Result-cases, ok, err, validation}
use fielded_online.Status.Payments.{payment_status_enum, succeeded, partially_refunded, refunded}
use fielded_online.Store.{Store}
use fielded_online.Store.Payments.{Payment, currency_enum}
use fielded_online.Store.Documents.{Invoice}
use fielded_online.Payment.Balance.{is_for_invoice, successful_total, refunded_total, find_invoice}
use fielded_online.Payment.Checks.{NewPayment, find_by_key, outstanding, check_payment}
use fielded_online.Payment.Service.{pending_payment, add_payment, insert_payment, create_payment}

-- What the payments of an invoice have left with the business.
unfoldable pub kept_total : ℕ → List Payment → ℤ
kept_total i [] = pos 0
kept_total i (p ∷ ps) =
    let rest = kept_total i ps in
    if is_for_invoice i p.invoice_id
      && is_in p.status (succeeded ∷ partially_refunded ∷ refunded ∷ [])
    then (p.amount -ℤ p.refunded_amount) +ℤ rest
    else rest

-- The amounts of the payments that are fully refunded.
unfoldable pub fully_refunded_total : ℕ → List Payment → ℤ
fully_refunded_total i [] = pos 0
fully_refunded_total i (p ∷ ps) =
    let rest = fully_refunded_total i ps in
    if is_for_invoice i p.invoice_id && is_in p.status (refunded ∷ [])
    then p.amount +ℤ rest
    else rest

-- An equation of integers, as `omega` reads it.
eq_parts : (a b : ℤ) → a ≡ b → pos_part a + neg_part b ≡ pos_part b + neg_part a
eq_parts a b h = rw h (omega arith)

succeeded_step : (a r x y k z : ℤ) → x +ℤ y ≡ k +ℤ z → (a +ℤ x) +ℤ y ≡ ((a -ℤ r) +ℤ k) +ℤ (r +ℤ z)
succeeded_step a r x y k z h = omega (int_laws, eq_parts _ _ h)

refunded_step : (a r x y k z : ℤ) → x +ℤ y ≡ k +ℤ z → x +ℤ (a +ℤ y) ≡ ((a -ℤ r) +ℤ k) +ℤ (r +ℤ z)
refunded_step a r x y k z h = omega (int_laws, eq_parts _ _ h)

totals_agree :
    (i : ℕ) (ps : List Payment)
    → successful_total i ps +ℤ fully_refunded_total i ps ≡ kept_total i ps +ℤ refunded_total i ps
unfolding successful_total fully_refunded_total kept_total refunded_total
totals_agree i [] = refl
totals_agree i (p ∷ ps) =
    let ih = totals_agree i ps in
    ground (
      arith,
      ih,
      succeeded_step p.amount p.refunded_amount _ _ _ _ ih,
      refunded_step p.amount p.refunded_amount _ _ _ _ ih,
    )

-- The balance that create_payment allows is what is really due, plus every fully refunded amount.
pub outstanding-eq :
    (invoice : Invoice) (ps : List Payment)
    → outstanding invoice ps
      ≡ (invoice.total -ℤ kept_total invoice.id ps) +ℤ fully_refunded_total invoice.id ps
unfolding outstanding
outstanding-eq invoice ps = omega (int_laws, eq_parts _ _ (totals_agree invoice.id ps))

find_by_key-append :
    (k : ℕ) (ps : List Payment) (p : Payment)
    → find (λ (q : Payment). q.idempotency_key == k) ps ≡ none
    → p.idempotency_key ≡ k
    → find (λ (q : Payment). q.idempotency_key == k) (ps ++ (p ∷ [])) ≡ some p
find_by_key-append k [] p h e = ground arith
find_by_key-append k (x ∷ ps) p h e = ground (arith, find_by_key-append k ps p)

insert_payment-find :
    (r : NewPayment) (x : Invoice × ℤ) (p : Payment) (s s' : Store)
    → find_by_key r.idempotency_key s ≡ none
    → insert_payment r x s ≡ (ok p, s')
    → find_by_key r.idempotency_key s' ≡ some p
unfolding insert_payment
insert_payment-find r x p s s' fresh e =
    let new = pending_payment r x.0 x.1 s in
    rw (← ap (λ (y : Result Payment × Store). y.1) e)
      (find_by_key-append r.idempotency_key s.payments new fresh refl ∙ ground arith)

create_payment_hit :
    (r : NewPayment) (p : Payment) (s : Store)
    → find_by_key r.idempotency_key s ≡ some p
    → create_payment r s ≡ (ok p, s)
unfolding create_payment
create_payment_hit r p s h = ground arith

create_payment_miss :
    (r : NewPayment) (p : Payment) (s s' : Store)
    → find_by_key r.idempotency_key s ≡ none
    → create_payment r s ≡ (ok p, s')
    → (x : Invoice × ℤ) × (insert_payment r x s ≡ (ok p, s'))
unfolding create_payment
create_payment_miss r p s s' h e = elim (Result-cases (check_payment r s)) [
  | inl (x, passed) ↦ (x, ground arith)
  | inr (x, failed) ↦ absurd (ground arith)
]

-- A request that has returned and is made again returns the same payment and inserts nothing.
pub create_payment_again :
    (r : NewPayment) (p : Payment) (s s' : Store)
    → create_payment r s ≡ (ok p, s')
    → create_payment r s' ≡ (ok p, s')
create_payment_again r p s s' e = elim (Option-cases (find_by_key r.idempotency_key s)) [
  | inl fresh ↦
      let (x, added) = create_payment_miss r p s s' fresh e in
      create_payment_hit r p s' (insert_payment-find r x p s s' fresh added)
  | inr (old, found) ↦ ground (arith, create_payment_hit r old s found)
]

module _ (r : NewPayment) (invoice : Invoice) (a : ℤ) (s : Store)
    (fresh : find_by_key r.idempotency_key s ≡ none)
    (found : find_invoice r.invoice_id s ≡ some invoice)
    (business : r.business_id ≡ invoice.business_id)
    (customer : r.customer_id ≡ invoice.customer_id) (currency : r.currency ≡ invoice.currency)
    (given : r.amount ≡ some a) where
  check_payment-cases : check_payment r s ≡ (
      if leb_ℤ a (pos 0)
      then err validation
      else if ltb_ℤ (outstanding invoice s.payments) a
      then err validation
      else ok (invoice, a))
  unfolding check_payment
  check_payment-cases = ground arith

  -- A request with a new key for a matching invoice is accepted exactly when its amount is positive
  -- and at most what is really due plus every fully refunded amount.
  pub create_payment_accepts :
      (create_payment r s
        ≡ (ok (pending_payment r invoice a s), add_payment (pending_payment r invoice a s) s))
      ↔ ((pos 1 ≤ℤ a)
          × (a
              ≤ℤ (invoice.total -ℤ kept_total invoice.id s.payments)
                +ℤ fully_refunded_total invoice.id s.payments))
  unfolding create_payment insert_payment
  create_payment_accepts =
      let due = eq_parts _ _ (outstanding-eq invoice s.payments) in
      let cases = check_payment-cases in
      (
        λ e. (ground (arith, cases, due), ground (arith, cases, due)),
        λ h. ground (arith, cases, due),
      )
