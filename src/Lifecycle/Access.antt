-- ===== src/Lifecycle/Access.antt =====
-- Who may load a row: get_customer_enquiry and get_business_enquiry of
-- backend/app/domain/enquiry/service.py, the same pair of the quote, booking and service execution
-- services, and the validations of create_from_booking.
use fielded_online.Common.{
  ℕ, Bool, true, false, not, [], ◌∷◌, Option, none, some, find, is_in, ◌==◌,
}
use fielded_online.Common.Outcome.{Result, ok, conflict, not_found, authorization, validation}
use fielded_online.Common.Check.{refuse, found_or, ◌>>=◌, ◌>>◌}
use fielded_online.Status.Bookings.{booking_status_enum, confirmed, in_progress}
use fielded_online.Store.{Store}
use fielded_online.Store.Lifecycle.{Enquiry, Quote, Booking, ServiceExecution}
use fielded_online.Lifecycle.Enquiries.{find_enquiry}
use fielded_online.Lifecycle.Bookings.{find_booking}

-- The row with an id, if its owner is the one given.
abbrev pub owned : {A : Type 0} → (A → ℕ) → ℕ → Option A → Result A
owned owner i found = do
  row ← found_or found not_found
  refuse (not (owner row == i)) authorization
  ok row

abbrev pub get_customer_enquiry : ℕ → ℕ → Store → Result Enquiry
get_customer_enquiry i customer s = owned (λ e. e.customer_id) customer (find_enquiry i s)

abbrev pub get_business_enquiry : ℕ → ℕ → Store → Result Enquiry
get_business_enquiry i business s = owned (λ e. e.business_id) business (find_enquiry i s)

abbrev pub get_customer_quote : ℕ → ℕ → Store → Result Quote
get_customer_quote i customer s =
    owned (λ q. q.customer_id) customer (find (λ q. q.id == i) s.quotes)

abbrev pub get_business_quote : ℕ → ℕ → Store → Result Quote
get_business_quote i business s =
    owned (λ q. q.business_id) business (find (λ q. q.id == i) s.quotes)

abbrev pub get_customer_booking : ℕ → ℕ → Store → Result Booking
get_customer_booking i customer s = owned (λ b. b.customer_id) customer (find_booking i s)

abbrev pub get_business_booking : ℕ → ℕ → Store → Result Booking
get_business_booking i business s = owned (λ b. b.business_id) business (find_booking i s)

abbrev pub get_customer_execution : ℕ → ℕ → Store → Result ServiceExecution
get_customer_execution i customer s =
    owned (λ x. x.customer_id) customer (find (λ x. x.id == i) s.executions)

abbrev pub get_business_execution : ℕ → ℕ → Store → Result ServiceExecution
get_business_execution i business s =
    owned (λ x. x.business_id) business (find (λ x. x.id == i) s.executions)

abbrev pub find_execution : ℕ → Store → Option ServiceExecution
find_execution b s = find (λ x. x.booking_id == b) s.executions

abbrev pub is_some : {A : Type 0} → Option A → Bool
is_some none = false
is_some (some a) = true

-- The validations of create_from_booking.
unfoldable pub check_booking : ℕ → ℕ → Store → Result Booking
check_booking booking_id business_id s = do
  refuse (is_some (find_execution booking_id s)) conflict
  booking ← found_or (find_booking booking_id s) not_found
  refuse (not (booking.business_id == business_id)) authorization
  refuse (not (is_in booking.status (confirmed ∷ in_progress ∷ []))) validation
  ok booking
