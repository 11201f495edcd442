-- ===== src/Creation/Bookings.antt =====
-- BookingService.create_booking. The advisory lock, for the business and the hour, makes the count of
-- the bookings and the insertion one step among the requests that ask for the same lock.
use fielded_online.Common.{ℕ, [], ◌∷◌, ◌++◌, length}
use fielded_online.Common.Outcome.{Action, pure, continue, modify, ◌>>◌}
use fielded_online.Status.Enquiries
use fielded_online.Status.Bookings
use fielded_online.Store.{Store}
use fielded_online.Store.Lifecycle.{Quote, Booking}
use fielded_online.Lifecycle.Quotes.{move_enquiry}
use fielded_online.Availability.Times.{DateTime}
use fielded_online.Creation.Directory.{Directory}
use fielded_online.Creation.Slots.{check_slot}

abbrev pub new_booking : ℕ → DateTime → Quote → Store → Booking
new_booking customer t quote s = record {
  id = length s.bookings;
  customer_id = customer;
  business_id = quote.business_id;
  quote_id = quote.id;
  enquiry_id = quote.enquiry_id;
  service_offer_id = quote.service_offer_id;
  requested_at = t.instant;
  currency = quote.currency;
  status = Bookings.requested;
}

abbrev pub add_booking : Booking → Store → Store
add_booking b s = record s { bookings = s.bookings ++ (b ∷ []) }

unfoldable pub insert_booking : ℕ → DateTime → Quote → Action Store Booking
insert_booking customer t quote s =
    (do
      let booking = new_booking customer t quote s
      modify (add_booking booking)
      modify (move_enquiry quote.enquiry_id Enquiries.customer_accepted Enquiries.booking_proposed)
      pure booking)
      s

unfoldable pub create_booking : Directory → ℕ → ℕ → ℕ → DateTime → Action Store Booking
create_booking d now customer quote_id t s =
    continue (insert_booking customer t) (check_slot d now customer quote_id t s) s
