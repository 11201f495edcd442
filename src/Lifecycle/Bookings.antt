-- ===== src/Lifecycle/Bookings.antt =====
-- backend/app/domain/booking/service.py, BookingService: transitions.
use fielded_online.Common.{
  ℕ, not, ◌&&◌, List, [], ◌∷◌, Option, find, is_in, same, ◌==◌, if◌then◌else◌,
}
use fielded_online.Common.Outcome.{
  Action, pure, raise_if, modify, when, ◌>>◌, authorization, state_transition,
}
use fielded_online.Status.Enquiries
use fielded_online.Status.Bookings.{
  BookingStatus, booking_status_enum, booking_transitions, proposed, accepted, confirmed, completed,
  cancelled,
}
use fielded_online.Store.{Store, put_booking, emit_outbox_event}
use fielded_online.Store.Outbox.{booking_event}
use fielded_online.Store.Lifecycle.{Booking}
use fielded_online.Lifecycle.Enquiries.{Actor}
use fielded_online.Lifecycle.Quotes.{is_customer, move_enquiry}

abbrev pub save_booking : Booking → Store → Store
save_booking b s = record s { bookings = put_booking b s.bookings }

abbrev pub find_booking : ℕ → Store → Option Booking
find_booking i s = find (λ b. b.id == i) s.bookings

-- The targets that a customer may choose.
abbrev pub customer_allowed : BookingStatus → List BookingStatus
customer_allowed current =
    if same current proposed then cancelled ∷ accepted ∷ [] else cancelled ∷ []

unfoldable pub transition_booking : ℕ → Booking → BookingStatus → Actor → Action Store Booking
transition_booking now booking target actor = do
  raise_if (not (is_in target (booking_transitions booking.status))) state_transition
  raise_if (is_customer actor && not (is_in target (customer_allowed booking.status))) authorization
  let b = record booking { status = target }
  modify (save_booking b)
  when (same target confirmed)
      (modify (move_enquiry b.enquiry_id Enquiries.booking_proposed Enquiries.booked))
  when (same target completed)
      (modify (move_enquiry b.enquiry_id Enquiries.booked Enquiries.completed))
  emit_outbox_event now (booking_event target) b.business_id b.id
  pure b
