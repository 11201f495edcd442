-- ===== src/Pricing/Engine.antt =====
-- backend/app/domain/quote/pricing.py, PricingEngine.calculate. Whether the conditions of a rule hold
-- is a parameter (ConditionEvaluator): `none` when the evaluation raises, which passes over the rule.
use fielded_online.Common.{
  ℕ, Bool, true, false, ◌&&◌, List, [], ◌∷◌, ◌++◌, Option, none, some, if◌then◌else◌,
}
use fielded_online.Common.Int.{ℤ, pos, ◌+ℤ◌, ◌-ℤ◌, ltb_ℤ}
use fielded_online.Common.Decimal.{quantize, scaled}
use fielded_online.Common.Outcome.{Result, ok, err, value_error}
use fielded_online.Common.Check.{found_or, ◌>>=◌}
use fielded_online.Store.Payments.{Currency}
use fielded_online.Pricing.Rules.{
  BusinessRule, Tally, is_pricing, or_zero, apply_pricing_rule, note_action,
}

-- The `pricing_model` strings; `unknown` is any other.
pub data PricingModel : Type 0 where
  fixed hourly starting_at quote_required custom unknown : PricingModel

-- `pricing_config`, as _to_decimal reads it.
pub record PricingConfig : Type 0 where
  pub currency : Option Currency
  pub amount : Option ℤ
  pub hourly_rate : Option ℤ
  pub estimated_hours : Option ℤ
  pub minimum_hours : Option ℤ
  pub base_price : Option ℤ

pub record PricingResult : Type 0 where
  pub amount : ℤ
  pub currency : Currency
  pub base_amount : ℤ
  pub surcharges : List ℤ
  pub discounts : List ℤ
  pub floor_applied : Bool
  pub cap_applied : Bool
  pub minimum_charge_applied : Bool
  pub quote_required : Bool
  pub applied_rule_ids : List ℕ

abbrev pub or_else : Option Currency → Option Currency → Option Currency
or_else none other = other
or_else (some c) other = some c

abbrev pub hours_or_one : Option ℤ → ℤ
hours_or_one none = pos 1000000
hours_or_one (some h) = h

-- `if low is not None and value < low: value = low`, and whether it did.
abbrev pub is_below : Option ℤ → ℤ → Bool
is_below none value = false
is_below (some low) value = ltb_ℤ value low

abbrev pub raised : Option ℤ → ℤ → ℤ
raised none value = value
raised (some low) value = if ltb_ℤ value low then low else value

abbrev pub is_above : Option ℤ → ℤ → Bool
is_above none value = false
is_above (some high) value = ltb_ℤ high value

abbrev pub lowered : Option ℤ → ℤ → ℤ
lowered none value = value
lowered (some high) value = if ltb_ℤ high value then high else value

-- The amount part of _resolve_base_amount.
unfoldable pub base_amount : PricingModel → PricingConfig → Result ℤ
base_amount fixed config = found_or config.amount value_error
base_amount hourly config = do
  rate ← found_or config.hourly_rate value_error
  ok (scaled 1 rate (raised config.minimum_hours (hours_or_one config.estimated_hours)))
base_amount starting_at config = found_or config.base_price value_error
base_amount quote_required config = ok (pos 0)
base_amount custom config = ok (or_zero config.amount)
base_amount unknown config = err value_error

unfoldable pub resolve_base_amount :
    PricingModel → PricingConfig → Option Currency → Result (ℤ × Currency)
resolve_base_amount model config business_currency = do
  currency ← found_or (or_else config.currency business_currency) value_error
  amount ← base_amount model config
  ok (amount, currency)

abbrev pub empty_tally : Tally
empty_tally = record {
  applied_rules = [];
  surcharges = [];
  discounts = [];
  floor_amount = none;
  cap_amount = none;
  minimum_amount = none;
  needs_quote = false;
}

-- One turn of the loop, for a rule whose conditions hold.
unfoldable pub apply_rule : BusinessRule → ℤ → Tally → Tally
apply_rule rule base t =
    let (action, t') =
      apply_pricing_rule rule base
        (record t { applied_rules = t.applied_rules ++ (rule.id ∷ []) }) in
    note_action rule action t'

abbrev pub when_holds : Option Bool → Tally → Tally → Tally
when_holds (some true) new old = new
when_holds (some false) new old = old
when_holds none new old = old

unfoldable pub apply_rules : (BusinessRule → Option Bool) → List BusinessRule → ℤ → Tally → Tally
apply_rules holds [] base t = t
apply_rules holds (rule ∷ rules) base t =
    let t' =
      if is_pricing rule.rule_type && rule.is_active
      then when_holds (holds rule) (apply_rule rule base t) t
      else t in
    apply_rules holds rules base t'

unfoldable pub total : List ℤ → ℤ
total [] = pos 0
total (x ∷ xs) = x +ℤ total xs

-- The running amount after the floor, the cap, the minimum charge and zero.
unfoldable pub bounded_amount : Tally → ℤ → ℤ
bounded_amount t running =
    let floored = raised t.floor_amount running in
    let capped = lowered t.cap_amount floored in
    let charged = raised t.minimum_amount capped in if ltb_ℤ charged (pos 0) then pos 0 else charged

unfoldable pub price_result : ℤ × Currency → Tally → PricingResult
price_result (base, currency) t =
    let running = (base +ℤ total t.surcharges) -ℤ total t.discounts in
    let floored = raised t.floor_amount running in
    record {
      amount = quantize (bounded_amount t running);
      currency = currency;
      base_amount = base;
      surcharges = t.surcharges;
      discounts = t.discounts;
      floor_applied = is_below t.floor_amount running;
      cap_applied = is_above t.cap_amount floored;
      minimum_charge_applied = is_below t.minimum_amount (lowered t.cap_amount floored);
      quote_required = t.needs_quote;
      applied_rule_ids = t.applied_rules;
    }

-- PricingEngine.calculate. Without a brain version or a context there are no rules.
unfoldable pub calculate_price :
    (BusinessRule → Option Bool)
    → PricingModel
    → PricingConfig
    → List BusinessRule
    → Option Currency
    → Result PricingResult
calculate_price holds model config rules business_currency = do
  base ← resolve_base_amount model config business_currency
  ok (price_result base (apply_rules holds rules base.0 empty_tally))
