-- ===== src/Pricing/Rules.antt =====
-- backend/app/domain/quote/pricing.py: what one pricing rule contributes. The fields of `rule_data` are
-- what _to_decimal makes of them: a Decimal in millionths, or `none` when absent or not a number.
use fielded_online.Common.{
  ℕ, Bool, true, false, List, [], ◌∷◌, ◌++◌, Option, none, some, if◌then◌else◌,
}
use fielded_online.Common.Int.{ℤ, pos, ltb_ℤ}
use fielded_online.Common.Decimal.{percent_of}
use fielded_online.Brain.Conditions.{Condition}

-- The `rule_type` strings; `unlisted` is any other.
pub data RuleType : Type 0 where
  base_pricing surcharge discount price_floor price_cap quote_threshold payment_terms : RuleType
  unlisted : RuleType

-- What _apply_pricing_rule returns. The caller also looks for "minimum_charge".
pub data RuleAction : Type 0 where
  base_override surcharge discount floor cap minimum_charge quote_required info unknown : RuleAction

pub record BusinessRule : Type 0 where
  pub id : ℕ
  pub rule_type : RuleType
  pub is_active : Bool
  pub conditions : List Condition
  pub percentage : Option ℤ
  pub amount : Option ℤ
  pub max_discount : Option ℤ
  pub minimum_amount : Option ℤ
  pub maximum_amount : Option ℤ

-- _PRICING_RULE_TYPES
abbrev pub is_pricing : RuleType → Bool
is_pricing RuleType.base_pricing = true
is_pricing RuleType.surcharge = true
is_pricing RuleType.discount = true
is_pricing RuleType.price_floor = true
is_pricing RuleType.price_cap = true
is_pricing RuleType.quote_threshold = true
is_pricing RuleType.payment_terms = true
is_pricing RuleType.unlisted = false

-- `amount or Decimal("0")`
abbrev pub or_zero : Option ℤ → ℤ
or_zero none = pos 0
or_zero (some a) = a

-- _calculate_surcharge
unfoldable pub calculate_surcharge : BusinessRule → ℤ → ℤ
calculate_surcharge rule base = elim rule.percentage [
  | some p ↦ percent_of base p
  | none ↦ or_zero rule.amount
]

-- The steps of _calculate_discount.
abbrev pub percentage_discount : Option ℤ → ℤ → ℤ
percentage_discount none base = pos 0
percentage_discount (some p) base = percent_of base p

abbrev pub larger : Option ℤ → ℤ → ℤ
larger none amount = amount
larger (some fixed) amount = if ltb_ℤ amount fixed then fixed else amount

abbrev pub at_most : Option ℤ → ℤ → ℤ
at_most none amount = amount
at_most (some limit) amount = if ltb_ℤ limit amount then limit else amount

unfoldable pub calculate_discount : BusinessRule → ℤ → ℤ
calculate_discount rule base =
    let amount = larger rule.amount (percentage_discount rule.percentage base) in
    at_most (some base) (at_most rule.max_discount amount)

-- What the loop over the rules collects.
pub record Tally : Type 0 where
  pub applied_rules : List ℕ
  pub surcharges : List ℤ
  pub discounts : List ℤ
  pub floor_amount : Option ℤ
  pub cap_amount : Option ℤ
  pub minimum_amount : Option ℤ
  pub needs_quote : Bool

-- A component is listed if it is positive.
abbrev pub listed : List ℤ → ℤ → List ℤ
listed xs amount = if ltb_ℤ (pos 0) amount then xs ++ (amount ∷ []) else xs

-- _apply_pricing_rule: the lists it appends to, and its answer.
unfoldable pub apply_pricing_rule : BusinessRule → ℤ → Tally → RuleAction × Tally
apply_pricing_rule rule base t = elim rule.rule_type [
  | base_pricing ↦ (RuleAction.base_override, t)
  | surcharge ↦ (
    RuleAction.surcharge,
    record t { surcharges = listed t.surcharges (calculate_surcharge rule base) },
  )
  | discount ↦ (
    RuleAction.discount,
    record t { discounts = listed t.discounts (calculate_discount rule base) },
  )
  | price_floor ↦ (RuleAction.floor, t)
  | price_cap ↦ (RuleAction.cap, t)
  | quote_threshold ↦ (RuleAction.quote_required, t)
  | payment_terms ↦ (RuleAction.info, t)
  | unlisted ↦ (RuleAction.unknown, t)
]

-- What the loop does with the answer.
abbrev pub note_action : BusinessRule → RuleAction → Tally → Tally
note_action rule RuleAction.floor t = record t { floor_amount = rule.minimum_amount }
note_action rule RuleAction.cap t = record t { cap_amount = rule.maximum_amount }
note_action rule RuleAction.minimum_charge t = record t { minimum_amount = rule.amount }
note_action rule RuleAction.quote_required t = record t { needs_quote = true }
note_action rule RuleAction.base_override t = t
note_action rule RuleAction.surcharge t = t
note_action rule RuleAction.discount t = t
note_action rule RuleAction.info t = t
note_action rule RuleAction.unknown t = t
