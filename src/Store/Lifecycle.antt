-- ===== src/Store/Lifecycle.antt =====
-- The rows of the customer's journey: backend/app/domain/enquiry/models.py (Enquiry),
-- quote/models.py (Quote), booking/models.py (Booking) and service_execution/models.py.
use fielded_online.Common.{ℕ, Option}
use fielded_online.Common.Int.{ℤ}
use fielded_online.Status.Enquiries.{EnquiryStatus}
use fielded_online.Status.Quotes.{QuoteStatus}
use fielded_online.Status.Bookings.{BookingStatus}
use fielded_online.Status.Executions.{ServiceExecutionStatus}
use fielded_online.Store.Payments.{Currency}

pub record Enquiry : Type 0 where
  pub id : ℕ
  pub customer_id : ℕ
  pub business_id : ℕ
  pub service_offer_id : ℕ
  pub status : EnquiryStatus

pub record Quote : Type 0 where
  pub id : ℕ
  pub customer_id : ℕ
  pub business_id : ℕ
  pub enquiry_id : ℕ
  pub service_offer_id : ℕ
  pub amount : ℤ
  pub currency : Currency
  pub status : QuoteStatus
  pub fee_evidence : Option ℤ

pub record Booking : Type 0 where
  pub id : ℕ
  pub customer_id : ℕ
  pub business_id : ℕ
  pub quote_id : ℕ
  pub enquiry_id : ℕ
  pub service_offer_id : ℕ
  pub requested_at : ℕ
  pub currency : Currency
  pub status : BookingStatus

pub record ServiceExecution : Type 0 where
  pub id : ℕ
  pub business_id : ℕ
  pub customer_id : ℕ
  pub booking_id : ℕ
  pub service_offer_id : ℕ
  pub quote_id : Option ℕ
  pub status : ServiceExecutionStatus
  pub scheduled_at : ℕ
  pub started_at : Option ℕ
  pub completed_at : Option ℕ
  pub completed_by : Option ℕ
  pub completion_evidence : Option ℕ
  pub notes : Option ℕ
