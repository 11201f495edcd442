-- ===== src/Store/Outbox.antt =====
-- backend/app/domain/outbox/models.py: the row of a transactional outbox event.
-- The payload is not read by any operation that is modelled, and is left out.
use fielded_online.Common.{ℕ, ◌+◌, Bool, ◌&&◌, Option, ◌==◌}
use fielded_online.Status.Payments.{PaymentStatus, payment_status_index}
use fielded_online.Status.Enquiries.{EnquiryStatus, enquiry_status_index}
use fielded_online.Status.Quotes.{QuoteStatus, quote_status_index}
use fielded_online.Status.Bookings.{BookingStatus, booking_status_index}
use fielded_online.Status.Executions.{ServiceExecutionStatus, execution_status_index}

-- The `event_type` strings. The aggregate type is a function of the event type.
pub data EventType : Type 0 where
  payment_event : PaymentStatus → EventType
  enquiry_event : EnquiryStatus → EventType
  quote_event : QuoteStatus → EventType
  booking_event : BookingStatus → EventType
  service_event : ServiceExecutionStatus → EventType
  invoice_issued : EventType
  voice_event : ℕ → EventType

-- One number for each string.
abbrev pub event_code : EventType → ℕ
event_code (payment_event s) = 0 + payment_status_index s
event_code (enquiry_event s) = 20 + enquiry_status_index s
event_code (quote_event s) = 40 + quote_status_index s
event_code (booking_event s) = 60 + booking_status_index s
event_code (service_event s) = 80 + execution_status_index s
event_code invoice_issued = 99
event_code (voice_event n) = 100 + n

pub data OutboxStatus : Type 0 where
  pending processing processed retryable failed : OutboxStatus

pub record OutboxEvent : Type 0 where
  pub id : ℕ
  pub business_id : ℕ
  pub event_type : EventType
  pub aggregate_id : ℕ
  pub status : OutboxStatus
  pub attempt_count : ℕ
  pub available_at : ℕ
  pub processed_at : Option ℕ
  pub last_error : Option ℕ
  pub processing_started_at : Option ℕ

-- Whether an event has the key "<event_type>:<aggregate_type>:<aggregate_id>".
abbrev pub has_key : EventType → ℕ → OutboxEvent → Bool
has_key t a e = event_code t == event_code e.event_type && a == e.aggregate_id
