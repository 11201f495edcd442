-- ===== src/Lifecycle/Quotes.antt =====
-- backend/app/domain/quote/service.py, QuoteService: transitions.
use fielded_online.Common.{
  ℕ, Bool, true, false, not, ◌&&◌, [], ◌∷◌, Option, none, some, is_in, same,
}
use fielded_online.Common.Outcome.{
  Action, pure, raise_if, modify, when, ◌>>◌, authorization, state_transition,
}
use fielded_online.Status.Enquiries.{EnquiryStatus, enquiry_status_enum}
use fielded_online.Status.Enquiries
use fielded_online.Status.Quotes.{
  QuoteStatus, quote_status_enum, quote_transitions, issued, accepted, declined, expired,
}
use fielded_online.Store.{Store, put_quote, emit_outbox_event}
use fielded_online.Store.Outbox.{quote_event}
use fielded_online.Store.Lifecycle.{Enquiry, Quote}
use fielded_online.Lifecycle.Enquiries.{
  Actor, customer, business, system, find_enquiry, save_enquiry,
}

abbrev pub save_quote : Quote → Store → Store
save_quote q s = record s { quotes = put_quote q s.quotes }

-- `if enquiry and EnquiryStatus(enquiry.status) == before: enquiry.status = after`
abbrev pub move_found : EnquiryStatus → EnquiryStatus → Option Enquiry → Store → Store
move_found before after none s = s
move_found before after (some e) s = elim (same e.status before) [
  | true ↦ save_enquiry (record e { status = after }) s
  | false ↦ s
]

unfoldable pub move_enquiry : ℕ → EnquiryStatus → EnquiryStatus → Store → Store
move_enquiry i before after s = move_found before after (find_enquiry i s) s

abbrev pub is_customer : Actor → Bool
is_customer customer = true
is_customer business = false
is_customer system = false

abbrev pub is_business : Actor → Bool
is_business customer = false
is_business business = true
is_business system = false

unfoldable pub transition_quote : ℕ → Quote → QuoteStatus → Actor → Action Store Quote
transition_quote now quote target actor = do
  raise_if (not (is_in target (quote_transitions quote.status))) state_transition
  raise_if (is_customer actor && not (is_in target (accepted ∷ declined ∷ []))) authorization
  raise_if (is_business actor && not (is_in target (issued ∷ expired ∷ []))) authorization
  let q = record quote { status = target }
  modify (save_quote q)
  when (is_customer actor && same target accepted)
      (modify (move_enquiry q.enquiry_id Enquiries.quoted Enquiries.customer_accepted))
  emit_outbox_event now (quote_event target) q.business_id q.id
  pure q
