-- ===== src/Payment/Checks.antt =====
-- backend/app/domain/payment/service.py, create_payment: its arguments and its validations.
use fielded_online.Common.{ℕ, not, List, Option, find, same, ◌==◌}
use fielded_online.Common.Int.{ℤ, pos, ◌-ℤ◌, ltb_ℤ, leb_ℤ}
use fielded_online.Common.Outcome.{Result, ok, not_found, authorization, validation}
use fielded_online.Common.Check.{refuse, found_or, ◌>>=◌, ◌>>◌}
use fielded_online.Store.{Store}
use fielded_online.Store.Payments.{Payment, Currency, currency_enum}
use fielded_online.Store.Documents.{Invoice}
use fielded_online.Payment.Balance.{successful_total, refunded_total, find_invoice}

-- The arguments of create_payment. `amount` is `none` when it is not a number.
pub record NewPayment : Type 0 where
  pub business_id : ℕ
  pub customer_id : ℕ
  pub invoice_id : ℕ
  pub amount : Option ℤ
  pub currency : Currency
  pub payment_method : ℕ
  pub idempotency_key : ℕ
  pub provider_name : ℕ

-- get_by_idempotency_key
abbrev pub find_by_key : ℕ → Store → Option Payment
find_by_key k s = find (λ p. p.idempotency_key == k) s.payments

-- What may still be paid on an invoice.
unfoldable pub outstanding : Invoice → List Payment → ℤ
outstanding invoice ps =
    let net_paid = successful_total invoice.id ps -ℤ refunded_total invoice.id ps in
    invoice.total -ℤ net_paid

-- The validations of create_payment, once the key is known to be new.
unfoldable pub check_payment : NewPayment → Store → Result (Invoice × ℤ)
check_payment r s = do
  invoice ← found_or (find_invoice r.invoice_id s) not_found
  refuse (not (invoice.business_id == r.business_id)) authorization
  refuse (not (invoice.customer_id == r.customer_id)) authorization
  amount ← found_or r.amount validation
  refuse (leb_ℤ amount (pos 0)) validation
  refuse (not (same r.currency invoice.currency)) validation
  refuse (ltb_ℤ (outstanding invoice s.payments) amount) validation
  ok (invoice, amount)
