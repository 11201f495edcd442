-- ===== src/Lifecycle/Enquiries.antt =====
-- backend/app/domain/enquiry/service.py, EnquiryService: transitions and access. The texts of the
-- notifications are not modelled.
use fielded_online.Common.{ℕ, not, List, [], ◌∷◌, Option, find, is_in, ◌==◌}
use fielded_online.Common.Outcome.{
  Action, pure, raise_if, modify, ◌>>◌, authorization, state_transition,
}
use fielded_online.Status.Enquiries.{
  EnquiryStatus, enquiry_status_enum, enquiry_transitions, draft, submitted, received, in_review,
  needs_information, quoted, customer_accepted, booking_proposed, booked, in_progress, completed,
  declined, cancelled, expired, rejected,
}
use fielded_online.Store.{Store, put_enquiry, emit_outbox_event}
use fielded_online.Store.Outbox.{enquiry_event}
use fielded_online.Store.Lifecycle.{Enquiry}

-- The `actor` strings; any string but the first two is treated alike.
pub data Actor : Type 0 where
  customer business system : Actor

-- CUSTOMER_ALLOWED_TRANSITIONS; a missing key has no targets.
abbrev pub customer_allowed_transitions : EnquiryStatus → List EnquiryStatus
customer_allowed_transitions draft = cancelled ∷ []
customer_allowed_transitions submitted = cancelled ∷ []
customer_allowed_transitions received = cancelled ∷ []
customer_allowed_transitions in_review = cancelled ∷ []
customer_allowed_transitions needs_information = cancelled ∷ []
customer_allowed_transitions quoted = []
customer_allowed_transitions customer_accepted = []
customer_allowed_transitions booking_proposed = []
customer_allowed_transitions booked = []
customer_allowed_transitions in_progress = []
customer_allowed_transitions completed = []
customer_allowed_transitions declined = []
customer_allowed_transitions cancelled = []
customer_allowed_transitions expired = []
customer_allowed_transitions rejected = []

-- BUSINESS_ALLOWED_TRANSITIONS
abbrev pub business_allowed_transitions : EnquiryStatus → List EnquiryStatus
business_allowed_transitions draft = []
business_allowed_transitions submitted = received ∷ declined ∷ expired ∷ []
business_allowed_transitions received = in_review ∷ declined ∷ expired ∷ []
business_allowed_transitions in_review = needs_information ∷ quoted ∷ declined ∷ expired ∷ []
business_allowed_transitions needs_information = in_review ∷ declined ∷ expired ∷ []
business_allowed_transitions quoted = []
business_allowed_transitions customer_accepted = []
business_allowed_transitions booking_proposed = []
business_allowed_transitions booked = []
business_allowed_transitions in_progress = []
business_allowed_transitions completed = []
business_allowed_transitions declined = []
business_allowed_transitions cancelled = []
business_allowed_transitions expired = []
business_allowed_transitions rejected = []

abbrev pub actor_allowed : Actor → EnquiryStatus → List EnquiryStatus
actor_allowed customer current = customer_allowed_transitions current
actor_allowed business current = business_allowed_transitions current
actor_allowed system current = enquiry_transitions current

abbrev pub save_enquiry : Enquiry → Store → Store
save_enquiry e s = record s { enquiries = put_enquiry e s.enquiries }

abbrev pub find_enquiry : ℕ → Store → Option Enquiry
find_enquiry i s = find (λ e. e.id == i) s.enquiries

unfoldable pub transition_enquiry : ℕ → Enquiry → EnquiryStatus → Actor → Action Store Enquiry
transition_enquiry now enquiry target actor = do
  raise_if (not (is_in target (enquiry_transitions enquiry.status))) state_transition
  raise_if (not (is_in target (actor_allowed actor enquiry.status))) authorization
  let e = record enquiry { status = target }
  modify (save_enquiry e)
  emit_outbox_event now (enquiry_event target) e.business_id e.id
  pure e
