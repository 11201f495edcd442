-- ===== src/Commercial/FeeCases.antt =====
-- When FeeCalculator.calculate raises, and what it does with half a hundredth.
use fielded_online.Common.{ℕ, ◌+◌, ◌*◌, ◌<◌, ◌≡◌, inl, inr, ◌↔◌, arith}
use fielded_online.Common.Int.{ℤ, pos, negsuc, ◌+ℤ◌, ◌-ℤ◌, sub_ℕ, ◌≤ℤ◌}
use fielded_online.Common.Decimal.{quantize, percent_of}
use fielded_online.Common.Outcome.{Result, Result-cases, ok}
use fielded_online.Store.Payments.{Currency}
use fielded_online.Commercial.Policy.{CommercialPolicy, FeeType}
use fielded_online.Commercial.Fees.{
  FeeResult, hundred, components, capped_fee, fee_result, calculate,
}
use fielded_online.Commercial.FeeBounds.{cents, quantize-cents}

abbrev pub InRange : ℤ → Type 0
InRange p = (pos 0 ≤ℤ p) × (p ≤ℤ hundred)

-- The terms that each fee type asks for: only the fields that it uses are checked.
abbrev pub HasTerms : FeeType → ℤ → ℤ → Type 0
HasTerms FeeType.percentage p f = InRange p
HasTerms FeeType.fixed p f = pos 0 ≤ℤ f
HasTerms FeeType.combined p f = InRange p × (pos 0 ≤ℤ f)
HasTerms FeeType.zero p f = Unit
HasTerms FeeType.unknown p f = ⊥

components-HasTerms :
    (t : FeeType) (amount p f : ℤ) (x : ℤ × ℤ) → components t amount p f ≡ ok x → HasTerms t p f
unfolding components
components-HasTerms FeeType.percentage amount p f x e = (ground arith, ground arith)
components-HasTerms FeeType.fixed amount p f x e = ground arith
components-HasTerms FeeType.combined amount p f x e = ((ground arith, ground arith), ground arith)
components-HasTerms FeeType.zero amount p f x e = tt
components-HasTerms FeeType.unknown amount p f x e = absurd (ground arith)

components_of_HasTerms :
    (t : FeeType) (amount p f : ℤ) → HasTerms t p f → (x : ℤ × ℤ) × (components t amount p f ≡ ok x)
unfolding components
components_of_HasTerms FeeType.percentage amount p f h =
    ((percent_of amount p, pos 0), ground arith)
components_of_HasTerms FeeType.fixed amount p f h = ((pos 0, quantize f), ground arith)
components_of_HasTerms FeeType.combined amount p f h =
    ((percent_of amount p, quantize f), ground arith)
components_of_HasTerms FeeType.zero amount p f h = ((pos 0, pos 0), ground arith)
components_of_HasTerms FeeType.unknown amount p f h = absurd h

module _ (policy : CommercialPolicy) (amount : ℤ) (currency : Currency) where
  abbrev policy_parts : Result (ℤ × ℤ)
  policy_parts = components policy.fee_type amount policy.percentage policy.fixed_amount

  calculate-needs :
      (f : FeeResult)
      → calculate policy amount currency ≡ ok f
      → (pos 0 ≤ℤ amount) × HasTerms policy.fee_type policy.percentage policy.fixed_amount
  unfolding calculate
  calculate-needs f e = elim (Result-cases policy_parts) [
    | inl (x, h) ↦ (ground arith, components-HasTerms policy.fee_type amount _ _ x h)
    | inr (x, h) ↦ absurd (ground arith)
  ]

  -- A fee is computed exactly when the amount is not negative and the terms that the fee type uses
  -- are in range; an unknown fee type never is.
  pub calculate_ok_iff :
      ((f : FeeResult) × (calculate policy amount currency ≡ ok f))
      ↔ ((pos 0 ≤ℤ amount) × HasTerms policy.fee_type policy.percentage policy.fixed_amount)
  unfolding calculate
  calculate_ok_iff = (
    λ h. calculate-needs h.0 h.1,
    λ h.
        let (x, e) = components_of_HasTerms policy.fee_type amount _ _ h.1 in
        let nonneg = h.0 in (fee_result policy amount currency x, ground arith),
  )

half_fee : (c k : ℕ) → c < k → capped_fee (pos (c * 10000 + 5000)) (cents k) ≡ cents (c + 1)
unfolding capped_fee quantize
half_fee c k lt = ground arith

half_rest : (c : ℕ) → quantize (pos (c * 10000 + 5000) -ℤ cents (c + 1)) ≡ negsuc 9999
unfolding quantize ◌-ℤ◌
half_rest c =
    let gap : sub_ℕ (c * 10000 + 5000 + 0) (0 + (c + 1) * 10000) ≡ negsuc 4999 = ground arith in
    rw gap

zero-+ : (k : ℕ) → pos 0 +ℤ cents k ≡ cents k
unfolding ◌+ℤ◌
zero-+ k = ground arith

-- For an amount that ends in exactly half a hundredth, a fixed fee above it takes one hundredth more
-- than rounding down would, and the business is left with minus one hundredth.
pub half_cent_loss :
    (policy : CommercialPolicy) (currency : Currency) (c k : ℕ) (f : FeeResult)
    → policy.fee_type ≡ FeeType.fixed
    → policy.fixed_amount ≡ cents k
    → c < k
    → calculate policy (pos (c * 10000 + 5000)) currency ≡ ok f
    → (f.platform_fee ≡ cents (c + 1)) × (f.business_proceeds ≡ negsuc 9999)
unfolding calculate components fee_result
half_cent_loss policy currency c k f t fixed lt e =
    let amount : ℤ = pos (c * 10000 + 5000) in
    let out : f ≡ fee_result policy amount currency (pos 0, quantize (cents k)) = ground arith in
    let fee : capped_fee amount (quantize (pos 0 +ℤ quantize (cents k))) ≡ cents (c + 1) =
      rw (quantize-cents, zero-+, quantize-cents) (half_fee c k lt) in
    rw out (fee, rw fee (half_rest c))
