-- ===== src/Store/Payments.antt =====
-- backend/app/domain/payment/models.py and the columns of a business that payments read.
-- UUIDs, keys, references and texts are only compared or copied, so they are numbers; an amount is
-- a whole number of hundredths, as its column Numeric(12, 2).
use fielded_online.Common.{ℕ, ◌+◌, Bool, Option, Enum, ◌≡◌, arith}
use fielded_online.Common.Int.{ℤ}
use fielded_online.Status.Payments.{PaymentStatus}

-- ISO 4217 codes. The five named ones are those that the code takes to have no minor unit.
pub data Currency : Type 0 where
  jpy krw vnd clp huf : Currency
  other : ℕ → Currency

abbrev pub currency_index : Currency → ℕ
currency_index jpy = 0
currency_index krw = 1
currency_index vnd = 2
currency_index clp = 3
currency_index huf = 4
currency_index (other n) = 5 + n

pub currency_index_injective : (a b : Currency) → currency_index a ≡ currency_index b → a ≡ b
currency_index_injective a b h = ground arith

instance abbrev pub currency_enum : Enum Currency
currency_enum = record { index = currency_index; index_injective = currency_index_injective }

pub record Payment : Type 0 where
  pub id : ℕ
  pub idempotency_key : ℕ
  pub business_id : ℕ
  pub customer_id : ℕ
  pub invoice_id : Option ℕ
  pub amount : ℤ
  pub currency : Currency
  pub payment_method : ℕ
  pub status : PaymentStatus
  pub provider : ℕ
  pub provider_reference : Option ℕ
  pub refunded_amount : ℤ
  pub refund_provider_reference : Option ℕ
  pub paid_at : Option ℕ
  pub refunded_at : Option ℕ
  pub provider_evidence : Option ℕ
  pub fee_evidence : Option ℤ
  pub failure_code : Option ℕ
  pub failure_message : Option ℕ

pub data AttemptStatus : Type 0 where
  processing succeeded failed : AttemptStatus

pub record PaymentAttempt : Type 0 where
  pub payment_id : ℕ
  pub attempt_number : ℕ
  pub provider : ℕ
  pub provider_reference : Option ℕ
  pub status : AttemptStatus
  pub amount : ℤ
  pub currency : Currency
  pub requested_at : ℕ
  pub completed_at : Option ℕ
  pub error_code : Option ℕ
  pub provider_response : Option ℕ

-- StripeConnectAccountStatus
pub data ConnectStatus : Type 0 where
  not_connected pending restricted active charges_disabled payouts_disabled : ConnectStatus

-- A business that is not deleted. The percentage is in hundredths of a per cent.
pub record Business : Type 0 where
  pub id : ℕ
  pub stripe_account_id : Option ℕ
  pub stripe_connect_status : ConnectStatus
  pub stripe_charges_enabled : Bool
  pub platform_fee_percent : ℕ
