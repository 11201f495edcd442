-- ===== src/Commercial/Policy.antt =====
-- backend/app/domain/commercial_policy/models.py, and the enums that a policy uses
-- (backend/app/domain/common/enums.py). Identifiers are numbers; an amount or a percentage is a
-- Decimal in millionths; a time is a number.
use fielded_online.Common.{ℕ, Bool, Option}
use fielded_online.Common.Int.{ℤ}
use fielded_online.Status.Policies.{PolicyStatus}

-- CommercialPolicyScope
pub data Scope : Type 0 where
  global_default category_default business_plan promotion business_specific : Scope

-- CommercialPolicyFeeType; `unknown` is any other text in the column.
pub data FeeType : Type 0 where
  percentage fixed combined zero unknown : FeeType

-- COMMERCIAL_POLICY_PRECEDENCE
abbrev pub precedence : Scope → ℕ
precedence global_default = 0
precedence category_default = 10
precedence business_plan = 20
precedence promotion = 30
precedence business_specific = 40

pub record CommercialPolicy : Type 0 where
  pub id : ℕ
  pub scope : Scope
  pub version : ℕ
  pub business_id : Option ℕ
  pub category_id : Option ℕ
  pub promotion_code : Option ℕ
  pub fee_type : FeeType
  pub percentage : ℤ
  pub fixed_amount : ℤ
  pub effective_from : ℕ
  pub effective_until : Option ℕ
  pub status : PolicyStatus
  pub is_active : Bool
  pub created_at : ℕ
