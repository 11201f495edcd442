-- ===== src/Pricing/Bounds.antt =====
-- The bounds of a calculated price.
use fielded_online.Common.{
  ◌≡◌, refl, sym, ap, ◌∙◌, inl, inr, Bool, true, false, List, [], ◌∷◌, Option, none, some, ◌&&◌,
  if◌then◌else◌, arith,
}
use fielded_online.Common.Int.{ℤ, pos, ◌≤ℤ◌, ltb_ℤ}
use fielded_online.Common.Decimal.{quantize}
use fielded_online.Common.Outcome.{ok, Result-cases}
use fielded_online.Store.Payments.{Currency}
use fielded_online.Pricing.Rules.{BusinessRule, RuleType, Tally, is_pricing, apply_pricing_rule}
use fielded_online.Pricing.Engine.{
  PricingModel, PricingConfig, PricingResult, raised, lowered, empty_tally, when_holds, apply_rule,
  apply_rules, bounded_amount, price_result, calculate_price, resolve_base_amount,
}

quantize_mono : (a b : ℤ) → a ≤ℤ b → quantize a ≤ℤ quantize b
unfolding quantize
quantize_mono a b h = ground arith

-- No rule sets the minimum charge.
apply_rule-minimum :
    (rule : BusinessRule) (base : ℤ) (t : Tally)
    → (apply_rule rule base t).minimum_amount ≡ t.minimum_amount
unfolding apply_rule apply_pricing_rule
apply_rule-minimum rule base t = ground arith

when_holds-minimum :
    (h : Option Bool) (t u : Tally)
    → t.minimum_amount ≡ none
    → u.minimum_amount ≡ none
    → (when_holds h t u).minimum_amount ≡ none
when_holds-minimum h t u e f = ground arith

if-minimum :
    (b : Bool) (t u : Tally)
    → t.minimum_amount ≡ none
    → u.minimum_amount ≡ none
    → (if b then t else u).minimum_amount ≡ none
if-minimum true t u e f = e
if-minimum false t u e f = f

apply_rules-minimum :
    (holds : BusinessRule → Option Bool) (rules : List BusinessRule) (base : ℤ) (t : Tally)
    → t.minimum_amount ≡ none
    → (apply_rules holds rules base t).minimum_amount ≡ none
unfolding apply_rules
apply_rules-minimum holds [] base t e = e
apply_rules-minimum holds (rule ∷ rules) base t e =
    let new = apply_rule-minimum rule base t ∙ e in
    let next = when_holds-minimum (holds rule) (apply_rule rule base t) t new e in
    apply_rules-minimum holds rules base _ (
      if-minimum (is_pricing rule.rule_type && rule.is_active)
        (when_holds (holds rule) (apply_rule rule base t) t) t next e)

-- A rule counts if it is active and its conditions are known to hold.
abbrev pub counts : (BusinessRule → Option Bool) → BusinessRule → Bool
counts holds rule = rule.is_active && elim (holds rule) [ some b ↦ b | none ↦ false ]

abbrev pub is_floor : RuleType → Bool
is_floor t = elim t [ RuleType.price_floor ↦ true | _ ↦ false ]

abbrev pub is_cap : RuleType → Bool
is_cap t = elim t [ RuleType.price_cap ↦ true | _ ↦ false ]

-- The minimum amount of the last price_floor rule that counts, and the maximum amount of the last
-- price_cap rule that counts; `before` if there is none.
abbrev pub last_floor : (BusinessRule → Option Bool) → List BusinessRule → Option ℤ → Option ℤ
last_floor holds [] before = before
last_floor holds (rule ∷ rules) before =
    last_floor holds rules
      (if is_floor rule.rule_type && counts holds rule then rule.minimum_amount else before)

abbrev pub last_cap : (BusinessRule → Option Bool) → List BusinessRule → Option ℤ → Option ℤ
last_cap holds [] before = before
last_cap holds (rule ∷ rules) before =
    last_cap holds rules
      (if is_cap rule.rule_type && counts holds rule then rule.maximum_amount else before)

-- One turn of the loop.
abbrev turn : (BusinessRule → Option Bool) → BusinessRule → ℤ → Tally → Tally
turn holds rule base t =
    if is_pricing rule.rule_type && rule.is_active
    then when_holds (holds rule) (apply_rule rule base t) t
    else t

turn-floor :
    (holds : BusinessRule → Option Bool) (rule : BusinessRule) (base : ℤ) (t : Tally)
    → (turn holds rule base t).floor_amount ≡ (
        if is_floor rule.rule_type && counts holds rule
        then rule.minimum_amount
        else t.floor_amount)
unfolding apply_rule apply_pricing_rule
turn-floor holds rule base t = ground arith

turn-cap :
    (holds : BusinessRule → Option Bool) (rule : BusinessRule) (base : ℤ) (t : Tally)
    → (turn holds rule base t).cap_amount
      ≡ (if is_cap rule.rule_type && counts holds rule then rule.maximum_amount else t.cap_amount)
unfolding apply_rule apply_pricing_rule
turn-cap holds rule base t = ground arith

apply_rules-floor :
    (holds : BusinessRule → Option Bool) (rules : List BusinessRule) (base : ℤ) (t : Tally)
    → (apply_rules holds rules base t).floor_amount ≡ last_floor holds rules t.floor_amount
unfolding apply_rules
apply_rules-floor holds [] base t = refl
apply_rules-floor holds (rule ∷ rules) base t =
    apply_rules-floor holds rules base (turn holds rule base t)
    ∙ ap (last_floor holds rules) (turn-floor holds rule base t)

apply_rules-cap :
    (holds : BusinessRule → Option Bool) (rules : List BusinessRule) (base : ℤ) (t : Tally)
    → (apply_rules holds rules base t).cap_amount ≡ last_cap holds rules t.cap_amount
unfolding apply_rules
apply_rules-cap holds [] base t = refl
apply_rules-cap holds (rule ∷ rules) base t =
    apply_rules-cap holds rules base (turn holds rule base t)
    ∙ ap (last_cap holds rules) (turn-cap holds rule base t)

-- The cap, if there is one, after rounding; a negative cap counts as zero.
abbrev pub IsCapped : Option ℤ → ℤ → Type 0
IsCapped none amount = Unit
IsCapped (some cap) amount = amount ≤ℤ quantize (if ltb_ℤ cap (pos 0) then pos 0 else cap)

-- The floor, if there is one, unless the cap is below it.
abbrev pub IsFloored : Option ℤ → Option ℤ → ℤ → Type 0
IsFloored none cap amount = Unit
IsFloored (some floor) none amount = quantize floor ≤ℤ amount
IsFloored (some floor) (some cap) amount =
    quantize (if ltb_ℤ cap floor then cap else floor) ≤ℤ amount

-- What holds of a price that was calculated under a floor and a cap.
pub record IsBounded (floor cap : Option ℤ) (r : PricingResult) : Type 0 where
  pub nonneg : pos 0 ≤ℤ r.amount
  pub capped : IsCapped cap r.amount
  pub floored : IsFloored floor cap r.amount
  pub no_minimum : r.minimum_charge_applied ≡ false

quantize_nonneg : (a : ℤ) → pos 0 ≤ℤ a → pos 0 ≤ℤ quantize a
unfolding quantize
quantize_nonneg a h = ground arith

-- The running amount after the floor, the cap and zero.
abbrev kept_within : Option ℤ → Option ℤ → ℤ → ℤ
kept_within floor cap x =
    let capped = lowered cap (raised floor x) in if ltb_ℤ capped (pos 0) then pos 0 else capped

kept_within-nonneg : (floor cap : Option ℤ) (x : ℤ) → pos 0 ≤ℤ kept_within floor cap x
kept_within-nonneg floor cap x = ground arith

kept_within-IsCapped :
    (floor cap : Option ℤ) (x : ℤ) → IsCapped cap (quantize (kept_within floor cap x))
kept_within-IsCapped floor none x = tt
kept_within-IsCapped floor (some cap) x = quantize_mono _ _ (ground arith)

kept_within-IsFloored :
    (floor cap : Option ℤ) (x : ℤ) → IsFloored floor cap (quantize (kept_within floor cap x))
kept_within-IsFloored none cap x = tt
kept_within-IsFloored (some floor) none x = quantize_mono _ _ (ground arith)
kept_within-IsFloored (some floor) (some cap) x = quantize_mono _ _ (ground arith)

bounded_amount-eq :
    (t : Tally) (x : ℤ)
    → t.minimum_amount ≡ none
    → bounded_amount t x ≡ kept_within t.floor_amount t.cap_amount x
unfolding bounded_amount
bounded_amount-eq t x e = rw e refl

price_result-IsBounded :
    (base : ℤ) (currency : Currency) (t : Tally)
    → t.minimum_amount ≡ none
    → IsBounded t.floor_amount t.cap_amount (price_result (base, currency) t)
unfolding price_result
price_result-IsBounded base currency t e =
    let floor = t.floor_amount in
    let cap = t.cap_amount in
    record {
      nonneg = rw (bounded_amount-eq t _ e) (quantize_nonneg _ (kept_within-nonneg floor cap _));
      capped = rw (bounded_amount-eq t _ e) (kept_within-IsCapped floor cap _);
      floored = rw (bounded_amount-eq t _ e) (kept_within-IsFloored floor cap _);
      no_minimum = rw e refl;
    }

pub calculate_price-IsBounded :
    (holds : BusinessRule → Option Bool) (model : PricingModel) (config : PricingConfig)
    (rules : List BusinessRule) (business_currency : Option Currency) (r : PricingResult)
    → calculate_price holds model config rules business_currency ≡ ok r
    → IsBounded (last_floor holds rules none) (last_cap holds rules none) r
unfolding calculate_price price_result
calculate_price-IsBounded holds model config rules business_currency r e =
    elim (Result-cases (resolve_base_amount model config business_currency)) [
      | inl ((base, currency), h) ↦
          let tally = apply_rules holds rules base empty_tally in
          let out : r ≡ price_result (base, currency) tally = ground arith in
          let least = apply_rules-minimum holds rules base empty_tally refl in
          rw
            (
              out,
              sym (apply_rules-floor holds rules base empty_tally),
              sym (apply_rules-cap holds rules base empty_tally),
            )
            (price_result-IsBounded base currency tally least)
      | inr (x, h) ↦ absurd (ground arith)
    ]
