-- ===== src/Payment/Connect.antt =====
-- backend/app/domain/payment/service.py, _resolve_stripe_connect and
-- _resolve_business_stripe_account.
use fielded_online.Common.{
  ℕ, ◌*◌, ◌/◌, Bool, true, false, not, ◌||◌, Option, none, some, find, ◌==◌, ltb, if◌then◌else◌,
}
use fielded_online.Common.Int.{ℤ, pos, pos_part, ltb_ℤ}
use fielded_online.Common.Outcome.{Action, pure, raise, validation}
use fielded_online.Store.{Store}
use fielded_online.Store.Payments.{Currency, Business, ConnectStatus, Payment}
use fielded_online.Store.Payments
use fielded_online.Payment.Provider.{PaymentProvider}

abbrev pub is_zero_decimal : Currency → Bool
is_zero_decimal (Payments.other _) = false
is_zero_decimal Payments.jpy = true
is_zero_decimal Payments.krw = true
is_zero_decimal Payments.vnd = true
is_zero_decimal Payments.clp = true
is_zero_decimal Payments.huf = true

-- The statuses that cannot accept charges.
abbrev pub refuses_charges : ConnectStatus → Bool
refuses_charges Payments.not_connected = true
refuses_charges Payments.pending = true
refuses_charges Payments.restricted = true
refuses_charges Payments.charges_disabled = true
refuses_charges Payments.active = false
refuses_charges Payments.payouts_disabled = false

-- `int(amount)` or `int(amount * 100)` of an amount in hundredths. A negative amount is cut to 0,
-- as by the final `max(0, ...)`.
abbrev pub minor_units : Currency → ℤ → ℕ
minor_units c a = if is_zero_decimal c then pos_part a / 100 else pos_part a

-- The fee from the policy's evidence, or else from the percentage of the business, which is in
-- hundredths of a per cent.
unfoldable pub application_fee : Option ℤ → Currency → ℤ → ℕ → Option ℕ
application_fee (some platform_fee) currency amount percent =
    if ltb_ℤ (pos 0) platform_fee then some (minor_units currency platform_fee) else none
application_fee none currency amount percent =
    if ltb 0 percent then some (minor_units currency amount * percent / 10000) else none

abbrev pub find_business : ℕ → Store → Option Business
find_business b s = find (λ v. v.id == b) s.businesses

-- What is checked of a business that is found, and has an account or none.
abbrev pub charge_account : Payment → ℤ → Business → Option ℕ → Action Store (Option ℕ × Option ℕ)
charge_account p amount b none = pure (none, none)
charge_account p amount b (some account) =
    if refuses_charges b.stripe_connect_status || not b.stripe_charges_enabled
    then raise validation
    else pure
        (some account, application_fee p.fee_evidence p.currency amount b.platform_fee_percent)

unfoldable pub resolve_stripe_connect :
    PaymentProvider → Payment → Action Store (Option ℕ × Option ℕ)
resolve_stripe_connect provider p s =
    if not provider.is_stripe then (pure (none, none)) s else elim (find_business p.business_id s) [
      | none ↦ pure (none, none) s
      | some b ↦ charge_account p p.amount b b.stripe_account_id s
    ]

unfoldable pub business_stripe_account : PaymentProvider → ℕ → Store → Option ℕ
business_stripe_account provider b s =
    if not provider.is_stripe
    then none
    else elim (find_business b s) [ none ↦ none | some v ↦ v.stripe_account_id ]
