-- ===== src/Lifecycle/Authority.antt =====
-- What each actor may do: the actor checks of the enquiry, quote and booking services together with
-- their state machines.
use fielded_online.Common.{ℕ, ◌≡◌, ◌⊎◌, arith}
use fielded_online.Common.Outcome.{ok}
use fielded_online.Status.Enquiries.{EnquiryStatus}
use fielded_online.Status.Enquiries
use fielded_online.Status.Quotes.{QuoteStatus}
use fielded_online.Status.Quotes
use fielded_online.Status.Bookings.{BookingStatus}
use fielded_online.Status.Bookings
use fielded_online.Store.{Store, emit_outbox_event}
use fielded_online.Store.Lifecycle.{Enquiry, Quote, Booking}
use fielded_online.Lifecycle.Enquiries.{customer, transition_enquiry}
use fielded_online.Lifecycle.Quotes.{transition_quote}
use fielded_online.Lifecycle.Bookings.{transition_booking}

-- A customer's transition of an enquiry that returns cancels it, from DRAFT or SUBMITTED.
pub transition_enquiry-customer :
    (now : ℕ) (e e' : Enquiry) (target : EnquiryStatus) (s s' : Store)
    → transition_enquiry now e target customer s ≡ (ok e', s')
    → (target ≡ Enquiries.cancelled)
      × ((e.status ≡ Enquiries.draft) ⊎ (e.status ≡ Enquiries.submitted))
unfolding transition_enquiry emit_outbox_event
transition_enquiry-customer now e e' target s s' h = ground arith

-- A customer's transition of a quote that returns accepts or declines an issued quote.
pub transition_quote-customer :
    (now : ℕ) (q q' : Quote) (target : QuoteStatus) (s s' : Store)
    → transition_quote now q target customer s ≡ (ok q', s')
    → (q.status ≡ Quotes.issued) × ((target ≡ Quotes.accepted) ⊎ (target ≡ Quotes.declined))
unfolding transition_quote emit_outbox_event
transition_quote-customer now q q' target s s' h = ground arith

-- A customer's transition of a booking that returns cancels it, or accepts one that is PROPOSED.
pub transition_booking-customer :
    (now : ℕ) (b b' : Booking) (target : BookingStatus) (s s' : Store)
    → transition_booking now b target customer s ≡ (ok b', s')
    → (target ≡ Bookings.cancelled)
      ⊎ ((b.status ≡ Bookings.proposed) × (target ≡ Bookings.accepted))
unfolding transition_booking emit_outbox_event
transition_booking-customer now b b' target s s' h = ground arith
