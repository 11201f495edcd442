-- ===== src/Tests/Fees.antt =====
-- Fees at concrete inputs.
use fielded_online.Common.{◌≡◌, ◌↔◌, refl, true, none, arith}
use fielded_online.Common.Int.{pos, negsuc, ◌≤ℤ◌}
use fielded_online.Common.Decimal.{quantize, scaled}
use fielded_online.Common.Outcome.{ok}
use fielded_online.Status.Policies
use fielded_online.Commercial.Policy.{CommercialPolicy, FeeType, Scope}
use fielded_online.Commercial.Policy
use fielded_online.Commercial.Fees.{FeeResult, components, fee_result, calculate}
use fielded_online.Commercial.FeeBounds.{cents, Splits, calculate-Splits}
use fielded_online.Commercial.FeeCases.{InRange, calculate_ok_iff, half_cent_loss}
use fielded_online.Tests.Sample.{gbp}

-- A global default of 10 per cent.
abbrev tenth : CommercialPolicy
tenth = record {
  id = 1;
  scope = Policy.global_default;
  version = 1;
  business_id = none;
  category_id = none;
  promotion_code = none;
  fee_type = FeeType.percentage;
  percentage = pos 10000000;
  fixed_amount = pos 0;
  effective_from = 0;
  effective_until = none;
  status = Policies.active;
  is_active = true;
  created_at = 0;
}

abbrev tenth_fee : FeeResult
tenth_fee = fee_result tenth (cents 4500) gbp (cents 450, pos 0)

tenth_fee-returns : calculate tenth (cents 4500) gbp ≡ ok tenth_fee
unfolding calculate components scaled
tenth_fee-returns = refl

calculate-Splits_example : Splits (cents 4500) tenth_fee
calculate-Splits_example = calculate-Splits tenth 4500 gbp tenth_fee tenth_fee-returns

calculate_ok_iff_example :
    ((f : FeeResult) × (calculate tenth (cents 4500) gbp ≡ ok f))
    ↔ ((pos 0 ≤ℤ cents 4500) × InRange (pos 10000000))
calculate_ok_iff_example = calculate_ok_iff tenth (cents 4500) gbp

-- A fixed fee of 1.00.
abbrev flat : CommercialPolicy
flat = record tenth { fee_type = FeeType.fixed; fixed_amount = cents 100 }

abbrev flat_fee : FeeResult
flat_fee = fee_result flat (pos 205000) gbp (pos 0, cents 100)

flat_fee-returns : calculate flat (pos 205000) gbp ≡ ok flat_fee
unfolding calculate components quantize
flat_fee-returns = refl

half_cent_loss_example :
    (flat_fee.platform_fee ≡ cents 21) × (flat_fee.business_proceeds ≡ negsuc 9999)
half_cent_loss_example =
    half_cent_loss flat gbp 20 100 flat_fee refl refl (omega arith) flat_fee-returns
