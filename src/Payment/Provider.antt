-- ===== src/Payment/Provider.antt =====
-- backend/app/adapters/payment/base.py: the interface of a payment provider. What it answers is the
-- parameter of every operation that calls it. The texts of an answer are numbers.
use fielded_online.Common.{ℕ, Bool, Option}
use fielded_online.Store.{PaymentRequest, RefundRequest}

-- The `status` of the raw response, as process_payment reads it.
pub data ProviderStatus : Type 0 where
  requires_payment_method requires_confirmation requires_action : ProviderStatus
  processing pending succeeded other : ProviderStatus

pub record ProviderResult : Type 0 where
  pub success : Bool
  pub provider_reference : Option ℕ
  pub error : Option ℕ
  pub raw_status : ProviderStatus
  pub raw_response : Option ℕ

pub record PaymentProvider : Type 0 where
  pub is_stripe : Bool
  pub initiate_payment : PaymentRequest → ProviderResult
  pub refund : RefundRequest → ProviderResult
