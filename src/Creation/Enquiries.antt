-- ===== src/Creation/Enquiries.antt =====
-- EnquiryService.create_enquiry: the enquiry with its conversation.
use fielded_online.Common.{ℕ, [], ◌∷◌, ◌++◌, length}
use fielded_online.Common.Outcome.{Action, pure, continue, modify, ◌>>◌}
use fielded_online.Status.Enquiries
use fielded_online.Store.{Store, emit_outbox_event}
use fielded_online.Store.Outbox.{enquiry_event}
use fielded_online.Store.Lifecycle.{Enquiry}
use fielded_online.Store.Conversations.{Conversation}
use fielded_online.Lifecycle.Enquiries.{save_enquiry}
use fielded_online.Creation.Directory.{Directory, Listing, ServiceOffer}
use fielded_online.Creation.Checks.{check_enquiry}

abbrev pub draft_enquiry : ℕ → Listing → ServiceOffer → Store → Enquiry
draft_enquiry customer business offer s = record {
  id = length s.enquiries;
  customer_id = customer;
  business_id = business.id;
  service_offer_id = offer.id;
  status = Enquiries.draft;
}

abbrev pub add_enquiry : Enquiry → Store → Store
add_enquiry e s = record s { enquiries = s.enquiries ++ (e ∷ []) }

abbrev pub new_conversation : Enquiry → Store → Conversation
new_conversation e s = record {
  id = length s.conversations;
  enquiry_id = e.id;
  customer_id = e.customer_id;
  business_id = e.business_id;
}

abbrev pub add_conversation : Enquiry → Store → Store
add_conversation e s = record s { conversations = s.conversations ++ (new_conversation e s ∷ []) }

-- The enquiry as a DRAFT, its conversation, and the submission.
unfoldable pub submit_enquiry : ℕ → ℕ → Listing × ServiceOffer → Action Store Enquiry
submit_enquiry now customer (business, offer) s =
    (do
      let enquiry = draft_enquiry customer business offer s
      modify (add_enquiry enquiry)
      modify (add_conversation enquiry)
      let submitted = record enquiry { status = Enquiries.submitted }
      modify (save_enquiry submitted)
      emit_outbox_event now (enquiry_event Enquiries.submitted) business.id submitted.id
      pure submitted)
      s

unfoldable pub create_enquiry : Directory → ℕ → ℕ → ℕ → ℕ → Action Store Enquiry
create_enquiry d now customer business_id offer_id s =
    continue (submit_enquiry now customer) (check_enquiry d customer business_id offer_id) s
