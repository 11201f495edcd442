-- ===== src/Status/Bookings.antt =====
-- backend/app/domain/common/enums.py, BookingStatus and BOOKING_TRANSITIONS.
use fielded_online.Common.{ℕ, List, [], ◌∷◌, ◌≡◌, arith, Enum}

pub data BookingStatus : Type 0 where
  requested proposed accepted confirmed in_progress completed declined cancelled expired rescheduled
        no_show :
      BookingStatus

abbrev pub booking_status_index : BookingStatus → ℕ
booking_status_index requested = 0
booking_status_index proposed = 1
booking_status_index accepted = 2
booking_status_index confirmed = 3
booking_status_index in_progress = 4
booking_status_index completed = 5
booking_status_index declined = 6
booking_status_index cancelled = 7
booking_status_index expired = 8
booking_status_index rescheduled = 9
booking_status_index no_show = 10

pub booking_status_index_injective :
    (a b : BookingStatus) → booking_status_index a ≡ booking_status_index b → a ≡ b
booking_status_index_injective a b h = ground arith

instance abbrev pub booking_status_enum : Enum BookingStatus
booking_status_enum = record {
  index = booking_status_index;
  index_injective = booking_status_index_injective;
}

abbrev pub booking_transitions : BookingStatus → List BookingStatus
booking_transitions requested = proposed ∷ declined ∷ cancelled ∷ expired ∷ []
booking_transitions proposed = accepted ∷ declined ∷ cancelled ∷ expired ∷ []
booking_transitions accepted = confirmed ∷ cancelled ∷ expired ∷ []
booking_transitions confirmed = in_progress ∷ completed ∷ cancelled ∷ no_show ∷ []
booking_transitions in_progress = completed ∷ cancelled ∷ []
booking_transitions completed = []
booking_transitions declined = []
booking_transitions cancelled = []
booking_transitions expired = []
booking_transitions rescheduled = []
booking_transitions no_show = []
