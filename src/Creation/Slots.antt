-- ===== src/Creation/Slots.antt =====
-- The validations of BookingService.create_booking and check_availability: the accepted quote, the
-- availability of the requested time, and the decision of the brain.
use fielded_online.Common.{ℕ, ◌*◌, Bool, false, not, ◌&&◌, List, Option, none, some, select, ◌==◌}
use fielded_online.Common.Int.{pos, ◌+ℤ◌, ◌-ℤ◌, leb_ℤ}
use fielded_online.Common.Outcome.{Result, ok, authorization, validation}
use fielded_online.Common.Check.{refuse, ◌>>=◌, ◌>>◌}
use fielded_online.Store.{Store}
use fielded_online.Store.Lifecycle.{Quote, Booking}
use fielded_online.Brain.Values.{Value, text, object, field, end, codes}
use fielded_online.Brain.Evaluator.{evaluate}
use fielded_online.Availability.Times.{DateTime, hour_length}
use fielded_online.Availability.Checks.{is_live}
use fielded_online.Availability.Evaluator.{
  AvailabilityRule, AvailabilityResult, evaluate_availability,
}
use fielded_online.Creation.Directory.{
  Directory, ServiceOffer, BrainVersion, find_offer, resolve_active_brain_version, decision_rules,
  availability_rules, booking_data,
}
use fielded_online.Creation.Checks.{is_denied, resolve_accepted_quote}

-- Within twelve hours of the requested time.
abbrev pub is_around : ℕ → Booking → Bool
is_around t b =
    leb_ℤ (pos t -ℤ pos (12 * hour_length)) (pos b.requested_at)
    && leb_ℤ (pos b.requested_at) (pos t +ℤ pos (12 * hour_length))

-- _get_existing_bookings_for_availability
unfoldable pub existing_bookings : ℕ → DateTime → Store → List Booking
existing_bookings business t s =
    select (λ b. (b.business_id == business) && is_around t.instant b && is_live b) s.bookings

abbrev pub rules_of_version : Option BrainVersion → Option (ℕ × List AvailabilityRule)
rules_of_version none = none
rules_of_version (some v) = some (v.id, availability_rules v)

unfoldable pub availability_of : Directory → ℕ → ℕ → Value → DateTime → Store → AvailabilityResult
availability_of d now business context_data t s =
    evaluate_availability d.python (rules_of_version (resolve_active_brain_version business d))
      (some context_data) t now (existing_bookings business t s)

-- _evaluate_brain_booking_policy: whether a brain denies the booking. Without one nothing does.
abbrev pub denies_booking : Directory → Value → Option BrainVersion → Bool
denies_booking d context_data none = false
denies_booking d context_data (some v) =
    is_denied (evaluate d.python v.id (decision_rules v) context_data)

-- The steps of create_booking between the quote and the writing.
unfoldable pub check_quote_slot : Directory → ℕ → ℕ → DateTime → Store → Quote → Result Quote
check_quote_slot d now customer t s quote = do
  offer ← find_offer quote.service_offer_id d
  let context_data = booking_data d quote.business_id offer customer t
  let denied = denies_booking d context_data (resolve_active_brain_version quote.business_id d)
  refuse (not (availability_of d now quote.business_id context_data t s).available) validation
  refuse denied validation
  ok quote

unfoldable pub check_slot : Directory → ℕ → ℕ → ℕ → DateTime → Store → Result Quote
check_slot d now customer quote_id t s = do
  quote ← resolve_accepted_quote quote_id customer s
  check_quote_slot d now customer t s quote

-- check_availability, whose context names no customer.
abbrev pub availability_data : Directory → ℕ → ServiceOffer → DateTime → Value
availability_data d business offer t = object (
    field (codes "business_id") (text (d.uuid_str business)) (
      field (codes "service_offer_id") (text (d.uuid_str offer.id))
        (field (codes "requested_at") (text (d.isoformat t)) end)))

unfoldable pub check_availability :
    Directory → ℕ → ℕ → ℕ → DateTime → Store → Result AvailabilityResult
check_availability d now business offer_id t s = do
  offer ← find_offer offer_id d
  refuse (not (offer.business_id == business)) authorization
  ok (availability_of d now business (availability_data d business offer t) t s)
