-- ===== src/Commercial/FeeBounds.antt =====
-- What FeeCalculator.calculate promises: the split of the amount between the platform and the business.
use fielded_online.Common.{ℕ, ◌+◌, ◌*◌, ◌/◌, ◌≤◌, ◌≡◌, refl, inl, inr, ◌-◌, ap, ◌∙◌, arith}
use native.Mathlib.Decide.{dec_le}
use fielded_online.Common.Int.{ℤ, pos, negsuc, ◌+ℤ◌, ◌-ℤ◌, ◌≤ℤ◌}
use fielded_online.Common.Decimal.{quantize, scaled}
use fielded_online.Common.Outcome.{Result-cases, ok}
use fielded_online.Store.Payments.{Currency}
use fielded_online.Commercial.Policy.{CommercialPolicy, FeeType}
use fielded_online.Commercial.Fees.{FeeResult, components, capped_fee, fee_result, calculate}

-- An amount in whole hundredths.
abbrev pub cents : ℕ → ℤ
cents c = pos (c * 10000)

-- `quantize` keeps whole hundredths.
pub quantize-cents : (c : ℕ) → quantize (cents c) ≡ cents c
unfolding quantize
quantize-cents c = ground arith

-- Every non-negative result of `quantize` is whole hundredths.
quantize-pos : (n : ℕ) → (c : ℕ) × (quantize (pos n) ≡ cents c)
unfolding quantize
quantize-pos n = ((n + 5000) / 10000, refl)

scaled-pos : (d m n : ℕ) → (c : ℕ) × (scaled d (pos m) (pos n) ≡ cents c)
unfolding scaled
scaled-pos d m n = ((m * n + d * 10000000000 / 2) / (d * 10000000000), refl)

-- The parts of a fee are whole, non-negative hundredths.
components-cents :
    (t : FeeType) (n : ℕ) (percentage fixed : ℤ) (x : ℤ × ℤ)
    → components t (pos n) percentage fixed ≡ ok x
    → (a : ℕ) × (b : ℕ) × (x ≡ (cents a, cents b))
unfolding components
components-cents FeeType.percentage n (pos p) f x e =
    let (a, h) = scaled-pos 100 n p in (a, 0, ground arith)
components-cents FeeType.percentage n (negsuc p) f x e = absurd (ground arith)
components-cents FeeType.fixed n p (pos f) x e = let (b, h) = quantize-pos f in (0, b, ground arith)
components-cents FeeType.fixed n p (negsuc f) x e = absurd (ground arith)
components-cents FeeType.combined n (pos p) (pos f) x e =
    let (a, h) = scaled-pos 100 n p in let (b, k) = quantize-pos f in (a, b, ground arith)
components-cents FeeType.combined n (negsuc p) f x e = absurd (ground arith)
components-cents FeeType.combined n (pos p) (negsuc f) x e = absurd (ground arith)
components-cents FeeType.zero n p f x e = (0, 0, ground arith)
components-cents FeeType.unknown n p f x e = cc

cents-+ : (a b : ℕ) → cents a +ℤ cents b ≡ cents (a + b)
unfolding ◌+ℤ◌
cents-+ a b = ground arith

cents-- : (a b : ℕ) → b ≤ a → cents a -ℤ cents b ≡ cents (a - b)
unfolding ◌-ℤ◌
cents-- a b h = ground arith

capped_fee-cents : (c k : ℕ) → (j : ℕ) × (capped_fee (cents c) (cents k) ≡ cents j) × (j ≤ c)
unfolding capped_fee
capped_fee-cents c k = elim (dec_le k c) [
  | yes h ↦ (k, ground arith, h)
  | no h ↦ (c, ground (arith, quantize-cents c), omega arith)
]

-- What a fee does with an amount.
pub record Splits (amount : ℤ) (f : FeeResult) : Type 0 where
  pub whole : f.customer_amount ≡ amount
  pub fee_nonneg : pos 0 ≤ℤ f.platform_fee
  pub fee_capped : f.platform_fee ≤ℤ amount
  pub proceeds_nonneg : pos 0 ≤ℤ f.business_proceeds
  pub sum : f.platform_fee +ℤ f.business_proceeds ≡ amount

fee_result-Splits :
    (policy : CommercialPolicy) (currency : Currency) (c a b : ℕ)
    → Splits (cents c) (fee_result policy (cents c) currency (cents a, cents b))
unfolding fee_result
fee_result-Splits policy currency c a b =
    let (j, fee, le) = capped_fee-cents c (a + b) in
    let out : quantize (cents a +ℤ cents b) ≡ cents (a + b) =
      ap quantize (cents-+ a b) ∙ quantize-cents (a + b) in
    let rest : quantize (cents c -ℤ cents j) ≡ cents (c - j) =
      ap quantize (cents-- c j le) ∙ quantize-cents (c - j) in
    let fee' : capped_fee (cents c) (quantize (cents a +ℤ cents b)) ≡ cents j = rw out fee in
    record {
      whole = quantize-cents c;
      fee_nonneg = rw fee' (omega arith);
      fee_capped = rw fee' (omega arith);
      proceeds_nonneg = rw (fee', rest) (omega arith);
      sum = rw (fee', rest, cents-+) (ap cents (omega arith));
    }

-- For an amount in whole hundredths, a fee that is computed lies between 0 and the amount, the
-- business gets a non-negative rest, and fee and rest make up what the customer pays.
pub calculate-Splits :
    (policy : CommercialPolicy) (c : ℕ) (currency : Currency) (f : FeeResult)
    → calculate policy (cents c) currency ≡ ok f
    → Splits (cents c) f
unfolding calculate
calculate-Splits policy c currency f e =
    elim (Result-cases
      (components policy.fee_type (cents c) policy.percentage policy.fixed_amount)) [
        | inl (x, h) ↦
            let (a, b, whole) =
              components-cents policy.fee_type (c * 10000) policy.percentage policy.fixed_amount x
                h in
            let out : f ≡ fee_result policy (cents c) currency (cents a, cents b) = ground arith in
            rw out (fee_result-Splits policy currency c a b)
        | inr (x, h) ↦ absurd (ground arith)
      ]
