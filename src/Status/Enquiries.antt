-- ===== src/Status/Enquiries.antt =====
-- backend/app/domain/common/enums.py, EnquiryStatus and ENQUIRY_TRANSITIONS.
use fielded_online.Common.{ℕ, List, [], ◌∷◌, ◌≡◌, arith, Enum}

pub data EnquiryStatus : Type 0 where
  draft submitted received in_review needs_information quoted customer_accepted booking_proposed
        booked in_progress completed declined cancelled expired rejected :
      EnquiryStatus

abbrev pub enquiry_status_index : EnquiryStatus → ℕ
enquiry_status_index draft = 0
enquiry_status_index submitted = 1
enquiry_status_index received = 2
enquiry_status_index in_review = 3
enquiry_status_index needs_information = 4
enquiry_status_index quoted = 5
enquiry_status_index customer_accepted = 6
enquiry_status_index booking_proposed = 7
enquiry_status_index booked = 8
enquiry_status_index in_progress = 9
enquiry_status_index completed = 10
enquiry_status_index declined = 11
enquiry_status_index cancelled = 12
enquiry_status_index expired = 13
enquiry_status_index rejected = 14

pub enquiry_status_index_injective :
    (a b : EnquiryStatus) → enquiry_status_index a ≡ enquiry_status_index b → a ≡ b
enquiry_status_index_injective a b h = ground arith

instance abbrev pub enquiry_status_enum : Enum EnquiryStatus
enquiry_status_enum = record {
  index = enquiry_status_index;
  index_injective = enquiry_status_index_injective;
}

abbrev pub enquiry_transitions : EnquiryStatus → List EnquiryStatus
enquiry_transitions draft = submitted ∷ cancelled ∷ []
enquiry_transitions submitted = received ∷ expired ∷ cancelled ∷ []
enquiry_transitions received = in_review ∷ declined ∷ expired ∷ []
enquiry_transitions in_review = needs_information ∷ quoted ∷ declined ∷ expired ∷ []
enquiry_transitions needs_information = in_review ∷ declined ∷ expired ∷ []
enquiry_transitions quoted = customer_accepted ∷ expired ∷ cancelled ∷ []
enquiry_transitions customer_accepted = booking_proposed ∷ cancelled ∷ []
enquiry_transitions booking_proposed = booked ∷ cancelled ∷ []
enquiry_transitions booked = in_progress ∷ cancelled ∷ []
enquiry_transitions in_progress = completed ∷ cancelled ∷ []
enquiry_transitions completed = []
enquiry_transitions declined = []
enquiry_transitions cancelled = []
enquiry_transitions expired = []
enquiry_transitions rejected = []
