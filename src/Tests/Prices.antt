-- ===== src/Tests/Prices.antt =====
-- Prices and policies at concrete inputs.
use fielded_online.Common.{
  ℕ, ◌≡◌, refl, inl, inr, Bool, true, List, [], ◌∷◌, All, Option, none, some, arith,
}
use fielded_online.Common.Int.{ℤ, pos, ◌+ℤ◌, ◌-ℤ◌}
use fielded_online.Common.Decimal.{quantize}
use fielded_online.Common.Outcome.{ok}
use fielded_online.Status.Policies
use fielded_online.Commercial.Policy.{CommercialPolicy, FeeType}
use fielded_online.Commercial.Policy
use fielded_online.Commercial.FeeBounds.{cents}
use fielded_online.Commercial.Resolution.{effective_policies, resolve_effective_policy}
use fielded_online.Commercial.Chosen.{IsBest, IsOneOf, resolve_effective_policy-IsBest}
use fielded_online.Commercial.Activation.{transition_policy}
use fielded_online.Commercial.Superseding.{
  IsRival, IsSpared, transition_policy-supersedes, transition_policy-coded_promotion,
}
use fielded_online.Pricing.Rules.{
  BusinessRule, RuleType, calculate_surcharge, calculate_discount, apply_pricing_rule,
}
use fielded_online.Pricing.Engine.{
  PricingModel, PricingConfig, PricingResult, empty_tally, apply_rules, apply_rule, price_result,
  calculate_price, total, bounded_amount,
}
use fielded_online.Pricing.Ignored.{
  price_of, without_base_pricing, calculate_price-without_base_pricing,
}
use fielded_online.Tests.Sample.{gbp}

abbrev policy : ℕ → Policy.Scope → Option ℕ → Policies.PolicyStatus → CommercialPolicy
policy i scope code status = record {
  id = i;
  scope = scope;
  version = 1;
  business_id = none;
  category_id = none;
  promotion_code = code;
  fee_type = FeeType.percentage;
  percentage = pos 10000000;
  fixed_amount = pos 0;
  effective_from = 0;
  effective_until = none;
  status = status;
  is_active = true;
  created_at = i;
}

-- An old default, a promotion with the code 8, and a draft of each.
abbrev policies : List CommercialPolicy
policies =
    policy 1 Policy.global_default none Policies.active
    ∷ policy 2 Policy.promotion (some 8) Policies.active
    ∷ policy 3 Policy.global_default none Policies.draft
    ∷ policy 4 Policy.promotion (some 8) Policies.draft
    ∷ []

resolve_effective_policy-IsBest_example :
    IsBest
      (effective_policies 100 1 none (some 8) policies)
      (resolve_effective_policy 100 1 none (some 8) policies)
resolve_effective_policy-IsBest_example =
    resolve_effective_policy-IsBest 100 1 none (some 8) policies

abbrev new_default : CommercialPolicy
new_default = policy 3 Policy.global_default none Policies.active

abbrev after_default : List CommercialPolicy
after_default =
    (transition_policy 100 (policy 3 Policy.global_default none Policies.draft) Policies.active
      policies).1

new_default-returns :
    transition_policy 100
      (policy 3 Policy.global_default none Policies.draft)
      Policies.active
      policies
    ≡ (ok new_default, after_default)
unfolding transition_policy
new_default-returns = refl

transition_policy-supersedes_example :
    All (λ q. ¬ IsRival 100 new_default q) after_default
    × All (IsSpared new_default after_default) policies
transition_policy-supersedes_example =
    transition_policy-supersedes 100 (policy 3 Policy.global_default none Policies.draft)
      new_default policies after_default (omega arith) new_default-returns

abbrev new_promotion : CommercialPolicy
new_promotion = policy 4 Policy.promotion (some 8) Policies.active

abbrev after_promotion : List CommercialPolicy
after_promotion =
    (transition_policy 100 (policy 4 Policy.promotion (some 8) Policies.draft) Policies.active
      policies).1

new_promotion-returns :
    transition_policy 100
      (policy 4 Policy.promotion (some 8) Policies.draft)
      Policies.active
      policies
    ≡ (ok new_promotion, after_promotion)
unfolding transition_policy
new_promotion-returns = refl

transition_policy-coded_promotion_example :
    IsOneOf (policy 2 Policy.promotion (some 8) Policies.active) after_promotion
transition_policy-coded_promotion_example =
    transition_policy-coded_promotion 100 8 (policy 4 Policy.promotion (some 8) Policies.draft)
      new_promotion (policy 2 Policy.promotion (some 8) Policies.active) policies after_promotion
      refl refl refl (inr (inl refl)) new_promotion-returns

-- Two hours at 40.00.
abbrev pub by_the_hour : PricingConfig
by_the_hour = record {
  currency = none;
  amount = none;
  hourly_rate = some (cents 4000);
  estimated_hours = some (pos 2000000);
  minimum_hours = none;
  base_price = none;
}

abbrev rule : ℕ → RuleType → Option ℤ → BusinessRule
rule i t amount = record {
  id = i;
  rule_type = t;
  is_active = true;
  conditions = [];
  percentage = none;
  amount = amount;
  max_discount = none;
  minimum_amount = amount;
  maximum_amount = amount;
}

-- A new base, a surcharge of 30.00, a discount of 5.00 and a cap of 100.00.
abbrev rules : List BusinessRule
rules =
    rule 1 RuleType.base_pricing (some (cents 1))
    ∷ rule 2 RuleType.surcharge (some (cents 3000))
    ∷ rule 3 RuleType.discount (some (cents 500))
    ∷ rule 4 RuleType.price_cap (some (cents 10000))
    ∷ []

abbrev always : BusinessRule → Option Bool
always r = some true

abbrev priced : PricingResult
priced = price_result (cents 8000, gbp) (apply_rules always rules (cents 8000) empty_tally)

calculate_price-without_base_pricing_example :
    price_of (calculate_price always PricingModel.hourly by_the_hour rules (some gbp))
    ≡ price_of (
        calculate_price always PricingModel.hourly by_the_hour
          (without_base_pricing rules)
          (some gbp))
calculate_price-without_base_pricing_example =
    calculate_price-without_base_pricing always PricingModel.hourly by_the_hour rules (some gbp)

-- The cap decides the amount.
priced_amount : priced.amount ≡ cents 10000
unfolding price_result bounded_amount apply_rules apply_rule apply_pricing_rule calculate_surcharge
    calculate_discount total quantize ◌+ℤ◌ ◌-ℤ◌
priced_amount = refl
