-- ===== src/Commercial/Fees.antt =====
-- backend/app/domain/commercial_policy/fee_calculator.py, FeeCalculator.calculate.
use fielded_online.Common.{ℕ, ◌||◌, if◌then◌else◌}
use fielded_online.Common.Int.{ℤ, pos, ◌+ℤ◌, ◌-ℤ◌, ltb_ℤ}
use fielded_online.Common.Decimal.{quantize, percent_of}
use fielded_online.Common.Outcome.{Result, ok, err, value_error}
use fielded_online.Common.Check.{refuse, ◌>>=◌, ◌>>◌}
use fielded_online.Store.Payments.{Currency}
use fielded_online.Commercial.Policy.{CommercialPolicy, FeeType}

pub record FeeResult : Type 0 where
  pub customer_amount : ℤ
  pub platform_fee : ℤ
  pub fee_type : FeeType
  pub percentage_applied : ℤ
  pub fixed_applied : ℤ
  pub business_proceeds : ℤ
  pub currency : Currency
  pub policy_id : ℕ

abbrev pub hundred : ℤ
hundred = pos 100000000

abbrev pub check_percentage : ℤ → Result (Unit {0})
check_percentage p = refuse (ltb_ℤ p (pos 0) || ltb_ℤ hundred p) value_error

abbrev pub check_fixed : ℤ → Result (Unit {0})
check_fixed f = refuse (ltb_ℤ f (pos 0)) value_error

-- The percentage part and the fixed part of the fee, after the checks that the fee type asks for.
unfoldable pub components : FeeType → ℤ → ℤ → ℤ → Result (ℤ × ℤ)
components FeeType.percentage amount percentage fixed = do
  check_percentage percentage
  ok (percent_of amount percentage, pos 0)
components FeeType.fixed amount percentage fixed = do check_fixed fixed; ok (pos 0, quantize fixed)
components FeeType.combined amount percentage fixed = do
  check_percentage percentage
  check_fixed fixed
  ok (percent_of amount percentage, quantize fixed)
components FeeType.zero amount percentage fixed = ok (pos 0, pos 0)
components FeeType.unknown amount percentage fixed = err value_error

-- The fee, which cannot exceed the transaction amount.
unfoldable pub capped_fee : ℤ → ℤ → ℤ
capped_fee amount fee = if ltb_ℤ amount fee then quantize amount else fee

unfoldable pub fee_result : CommercialPolicy → ℤ → Currency → ℤ × ℤ → FeeResult
fee_result policy amount currency (pct_component, fix_component) =
    let platform_fee = capped_fee amount (quantize (pct_component +ℤ fix_component)) in
    record {
      customer_amount = quantize amount;
      platform_fee = platform_fee;
      fee_type = policy.fee_type;
      percentage_applied = policy.percentage;
      fixed_applied = fix_component;
      business_proceeds = quantize (amount -ℤ platform_fee);
      currency = currency;
      policy_id = policy.id;
    }

unfoldable pub calculate : CommercialPolicy → ℤ → Currency → Result FeeResult
calculate policy amount currency = do
  refuse (ltb_ℤ amount (pos 0)) value_error
  parts ← components policy.fee_type amount policy.percentage policy.fixed_amount
  ok (fee_result policy amount currency parts)
