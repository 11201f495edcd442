-- ===== src/Pricing/Ignored.antt =====
-- Rules of type base_pricing have no effect on a price.
use fielded_online.Common.{
  ◌≡◌, refl, inl, inr, Bool, true, false, not, List, [], ◌∷◌, Option, ◌&&◌, select, if◌then◌else◌,
  Bool-cases, arith,
}
use fielded_online.Common.Int.{ℤ}
use fielded_online.Common.Outcome.{Result, ok, err, Result-cases}
use fielded_online.Store.Payments.{Currency}
use fielded_online.Pricing.Rules.{BusinessRule, RuleType, Tally, is_pricing, apply_pricing_rule}
use fielded_online.Pricing.Engine.{
  PricingModel, PricingConfig, PricingResult, empty_tally, when_holds, apply_rule, apply_rules,
  bounded_amount, price_result, calculate_price, resolve_base_amount,
}

-- Two tallies agree on all but the rules that were applied.
abbrev SameMoney : Tally → Tally → Type 0
SameMoney t u =
    (t.surcharges ≡ u.surcharges)
    × (t.discounts ≡ u.discounts)
    × (t.floor_amount ≡ u.floor_amount)
    × (t.cap_amount ≡ u.cap_amount)
    × (t.minimum_amount ≡ u.minimum_amount)
    × (t.needs_quote ≡ u.needs_quote)

abbrev pub sets_base : RuleType → Bool
sets_base RuleType.base_pricing = true
sets_base RuleType.surcharge = false
sets_base RuleType.discount = false
sets_base RuleType.price_floor = false
sets_base RuleType.price_cap = false
sets_base RuleType.quote_threshold = false
sets_base RuleType.payment_terms = false
sets_base RuleType.unlisted = false

abbrev pub without_base_pricing : List BusinessRule → List BusinessRule
without_base_pricing rules = select (λ r. not (sets_base r.rule_type)) rules

abbrev step : (BusinessRule → Option Bool) → BusinessRule → ℤ → Tally → Tally
step holds rule base t =
    if is_pricing rule.rule_type && rule.is_active
    then when_holds (holds rule) (apply_rule rule base t) t
    else t

apply_rule-SameMoney :
    (rule : BusinessRule) (base : ℤ) (t u : Tally)
    → SameMoney t u
    → SameMoney (apply_rule rule base t) (apply_rule rule base u)
unfolding apply_rule apply_pricing_rule
apply_rule-SameMoney rule base t u h = ground arith

step-SameMoney :
    (holds : BusinessRule → Option Bool) (rule : BusinessRule) (base : ℤ) (t u : Tally)
    → SameMoney t u
    → SameMoney (step holds rule base t) (step holds rule base u)
step-SameMoney holds rule base t u h = ground (arith, apply_rule-SameMoney rule base t u h)

step-base_pricing :
    (holds : BusinessRule → Option Bool) (rule : BusinessRule) (base : ℤ) (t u : Tally)
    → sets_base rule.rule_type ≡ true
    → SameMoney t u
    → SameMoney (step holds rule base t) u
unfolding apply_rule apply_pricing_rule
step-base_pricing holds rule base t u e h = ground arith

apply_rules-SameMoney :
    (holds : BusinessRule → Option Bool) (rules : List BusinessRule) (base : ℤ) (t u : Tally)
    → SameMoney t u
    → SameMoney
        (apply_rules holds rules base t)
        (apply_rules holds (without_base_pricing rules) base u)
unfolding apply_rules
apply_rules-SameMoney holds [] base t u h = h
apply_rules-SameMoney holds (rule ∷ rules) base t u h =
    elim (Bool-cases (sets_base rule.rule_type)) [
      | inl hit ↦
          rw hit (
            apply_rules-SameMoney holds rules base _ u
              (step-base_pricing holds rule base t u hit h))
      | inr miss ↦
          rw miss
            (apply_rules-SameMoney holds rules base _ _ (step-SameMoney holds rule base t u h))
    ]

-- The amount and the currency of a price, or its error.
abbrev pub price_of : Result PricingResult → Result (ℤ × Currency)
price_of (ok r) = ok (r.amount, r.currency)
price_of (err e) = err e

price_result-SameMoney :
    (x : ℤ × Currency) (t u : Tally)
    → SameMoney t u
    → price_of (ok (price_result x t)) ≡ price_of (ok (price_result x u))
unfolding price_result bounded_amount
price_result-SameMoney (base, currency) t u (s, d, f, c, m, q) = rw (s, d, f, c, m) refl

-- Rules of type base_pricing do not change the amount that is calculated, nor whether one is.
pub calculate_price-without_base_pricing :
    (holds : BusinessRule → Option Bool) (model : PricingModel) (config : PricingConfig)
    (rules : List BusinessRule) (business_currency : Option Currency)
    → price_of (calculate_price holds model config rules business_currency)
      ≡ price_of (calculate_price holds model config (without_base_pricing rules) business_currency)
unfolding calculate_price
calculate_price-without_base_pricing holds model config rules business_currency =
    elim (Result-cases (resolve_base_amount model config business_currency)) [
      | inl (x, h) ↦ rw h (
          price_result-SameMoney x (apply_rules holds rules x.0 empty_tally)
            (apply_rules holds (without_base_pricing rules) x.0 empty_tally)
            (apply_rules-SameMoney holds rules x.0 empty_tally empty_tally
              (refl, refl, refl, refl, refl, refl)))
      | inr (e, h) ↦ rw h refl
    ]
