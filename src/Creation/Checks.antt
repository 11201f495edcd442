-- ===== src/Creation/Checks.antt =====
-- The validations of create_enquiry, create_quote and create_booking.
use fielded_online.Common.{
  ℕ, Bool, true, false, not, ◌&&◌, List, [], ◌∷◌, Option, none, some, find, is_in, same, ◌==◌,
}
use fielded_online.Common.Int.{pos, eqb_ℤ}
use fielded_online.Common.Outcome.{Result, ok, err, not_found, authorization, validation}
use fielded_online.Common.Check.{refuse, found_or, ◌>>=◌, ◌>>◌}
use fielded_online.Status.Enquiries.{
  EnquiryStatus, enquiry_status_enum, received, in_review, needs_information,
}
use fielded_online.Status.Quotes
use fielded_online.Status.Quotes.{quote_status_enum}
use fielded_online.Store.{Store}
use fielded_online.Store.Payments.{Currency}
use fielded_online.Store.Lifecycle.{Enquiry, Quote}
use fielded_online.Lifecycle.Enquiries.{find_enquiry}
use fielded_online.Pricing.Rules.{BusinessRule}
use fielded_online.Pricing.Engine.{PricingModel, quote_required, PricingResult, calculate_price}
use fielded_online.Brain.Values.{Value}
use fielded_online.Brain.Conditions.{evaluate_conditions}
use fielded_online.Brain.Evaluator.{
  BrainDecision, BrainDecisionOutcome, allow, deny, require_approval, evaluate,
}
use fielded_online.Creation.Directory.{
  Directory, Listing, ServiceOffer, BusinessStatus, BusinessProfileStatus, ServiceOfferStatus,
  BrainVersion, find_listing, find_offer, active_version_id, find_version,
  resolve_active_brain_version, decision_rules, pricing_rules, transaction_data,
}

abbrev pub is_open_business : BusinessStatus → Bool
is_open_business BusinessStatus.pending = true
is_open_business BusinessStatus.active = true
is_open_business BusinessStatus.suspended = false
is_open_business BusinessStatus.deactivated = false

abbrev pub is_public : Option BusinessProfileStatus → Bool
is_public none = false
is_public (some BusinessProfileStatus.active) = true
is_public (some BusinessProfileStatus.incomplete) = false
is_public (some BusinessProfileStatus.suspended) = false

abbrev pub is_active_offer : ServiceOfferStatus → Bool
is_active_offer ServiceOfferStatus.draft = false
is_active_offer ServiceOfferStatus.active = true
is_active_offer ServiceOfferStatus.paused = false
is_active_offer ServiceOfferStatus.archived = false

-- _validate_business_eligible
unfoldable pub validate_business_eligible : ℕ → Directory → Result Listing
validate_business_eligible i d = do
  business ← found_or (find_listing i d) not_found
  refuse (not (is_open_business business.status)) validation
  refuse (not (is_public business.public_status)) validation
  ok business

-- _validate_service_offer_eligible
unfoldable pub validate_service_offer_eligible : ℕ → ℕ → Directory → Result ServiceOffer
validate_service_offer_eligible i business d = do
  offer ← found_or (find (λ o. (o.id == i) && (o.business_id == business)) d.offers) not_found
  refuse (not (is_active_offer offer.status)) validation
  ok offer

-- A decision that no evaluation stands behind.
abbrev pub default_decision : BrainDecisionOutcome → Option ℕ → BrainDecision
default_decision outcome version = record {
  decision = outcome;
  brain_version_id = version;
  matched_rules = [];
  conflicts = [];
  required_information = [];
  required_approval = none;
  actions = [];
}

abbrev pub evaluate_version : Directory → Value → ℕ → Option BrainVersion → BrainDecision
evaluate_version d context_data active none = default_decision require_approval (some active)
evaluate_version d context_data active (some v) =
    evaluate d.python v.id (decision_rules v) context_data

abbrev pub evaluate_active : Directory → Value → Option ℕ → BrainDecision
evaluate_active d context_data none = default_decision allow none
evaluate_active d context_data (some active) =
    evaluate_version d context_data active (find_version (some active) d)

-- _evaluate_brain_for_enquiry. The evaluation itself raises nothing.
unfoldable pub evaluate_brain_for_enquiry : Directory → ℕ → ServiceOffer → ℕ → BrainDecision
evaluate_brain_for_enquiry d business offer customer =
    evaluate_active d (transaction_data d business offer customer) (active_version_id business d)

-- BrainDecision.is_allowed and is_denied
abbrev pub is_allowed : BrainDecision → Bool
is_allowed decision = elim decision.decision [ allow ↦ true | _ ↦ false ]

abbrev pub is_denied : BrainDecision → Bool
is_denied decision = elim decision.decision [ deny ↦ true | _ ↦ false ]

-- What create_enquiry checks before it writes: the business, the offer and the decision.
unfoldable pub check_enquiry : Directory → ℕ → ℕ → ℕ → Result (Listing × ServiceOffer)
check_enquiry d customer business_id offer_id = do
  business ← validate_business_eligible business_id d
  offer ← validate_service_offer_eligible offer_id business_id d
  refuse (not (is_allowed (evaluate_brain_for_enquiry d business_id offer customer))) validation
  ok (business, offer)

-- _resolve_enquiry of the quote service
unfoldable pub resolve_enquiry : ℕ → ℕ → Store → Result Enquiry
resolve_enquiry i business s = do
  enquiry ← found_or (find_enquiry i s) not_found
  refuse (not (enquiry.business_id == business)) authorization
  ok enquiry

abbrev pub quotable_states : List EnquiryStatus
quotable_states = received ∷ in_review ∷ needs_information ∷ []

-- The pricing rules apply only with a brain version; their conditions see the transaction.
abbrev pub rules_of : Option BrainVersion → List BusinessRule
rules_of none = []
rules_of (some v) = pricing_rules v

unfoldable pub price_of_enquiry :
    Directory → Enquiry → ServiceOffer → Option Currency → Result PricingResult
price_of_enquiry d enquiry offer currency =
    calculate_price
      (λ r.
        evaluate_conditions d.python
          (transaction_data d enquiry.business_id offer enquiry.customer_id) r.conditions)
      offer.pricing_model offer.pricing_config
      (rules_of (resolve_active_brain_version enquiry.business_id d)) currency

-- A ValueError becomes a ValidationError.
abbrev pub or_invalid : Result PricingResult → Result PricingResult
or_invalid (ok r) = ok r
or_invalid (err e) = err validation

abbrev pub is_quote_required : PricingModel → Bool
is_quote_required model = elim model [ quote_required ↦ true | _ ↦ false ]

-- The steps of create_quote that lead to the price.
unfoldable pub price_enquiry : Directory → Enquiry → Result PricingResult
price_enquiry d enquiry = do
  offer ← find_offer enquiry.service_offer_id d
  business ← found_or (find_listing enquiry.business_id d) not_found
  result ← or_invalid (price_of_enquiry d enquiry offer business.currency)
  refuse (is_quote_required offer.pricing_model && eqb_ℤ result.amount (pos 0)) validation
  ok result

unfoldable pub check_quote : Directory → ℕ → ℕ → Store → Result (Enquiry × PricingResult)
check_quote d business_id enquiry_id s = do
  enquiry ← resolve_enquiry enquiry_id business_id s
  refuse (not (is_in enquiry.status quotable_states)) validation
  result ← price_enquiry d enquiry
  ok (enquiry, result)

-- _resolve_accepted_quote
unfoldable pub resolve_accepted_quote : ℕ → ℕ → Store → Result Quote
resolve_accepted_quote i customer s = do
  quote ← found_or (find (λ q. q.id == i) s.quotes) not_found
  refuse (not (quote.customer_id == customer)) authorization
  refuse (not (same quote.status Quotes.accepted)) validation
  ok quote
