-- ===== src/Creation/Granted.antt =====
-- What a created enquiry rests on, and what its creation leaves behind.
use fielded_online.Common.{
  ℕ, ◌≡◌, refl, inl, inr, true, false, List, [], ◌∷◌, ◌++◌, Option, none, some, All, any, find-some,
  ◌&&◌, length, ◌==◌, ==_iff, ==_refl, Bool-cases, arith,
}
use fielded_online.Common.Outcome.{ok, Result-cases}
use fielded_online.Status.Enquiries
use fielded_online.Store.{Store, put_enquiry, new_event, emit_outbox_event}
use fielded_online.Store.Outbox.{enquiry_event, has_key}
use fielded_online.Store.Lifecycle.{Enquiry}
use fielded_online.Brain.Values.{Value}
use fielded_online.Brain.Evaluator.{BrainDecision, allow, evaluate}
use fielded_online.Brain.Decisions.{Permits, evaluate-allow_iff}
use fielded_online.Creation.Directory.{
  Directory, Listing, ServiceOffer, BrainVersion, find_listing, active_version_id, find_version,
  decision_rules, transaction_data,
}
use fielded_online.Creation.Checks.{
  is_allowed, evaluate_active, evaluate_version, evaluate_brain_for_enquiry, check_enquiry,
  is_open_business, is_public, is_active_offer, validate_business_eligible,
  validate_service_offer_eligible,
}
use fielded_online.Creation.Enquiries.{
  draft_enquiry, new_conversation, submit_enquiry, create_enquiry,
}

-- The active version, if there is one, exists, and each of its rules lets the transaction pass.
abbrev pub IsGoverned : Directory → Value → Option ℕ → Type 0
IsGoverned d context_data none = Unit
IsGoverned d context_data (some i) =
    (v : BrainVersion) × (find_version (some i) d ≡ some v)
    × All (Permits d.python context_data) (decision_rules v)

is_allowed-allow :
    (decision : BrainDecision) → is_allowed decision ≡ true → decision.decision ≡ allow
is_allowed-allow decision h = ground arith

evaluate_version-IsGoverned :
    (d : Directory) (context_data : Value) (i : ℕ) (found : Option BrainVersion)
    → find_version (some i) d ≡ found
    → is_allowed (evaluate_version d context_data i found) ≡ true
    → IsGoverned d context_data (some i)
evaluate_version-IsGoverned d context_data i none e h = absurd (ground arith)
evaluate_version-IsGoverned d context_data i (some v) e h = (
  v,
  e,
  (evaluate-allow_iff d.python context_data v.id (decision_rules v)).0
      (is_allowed-allow (evaluate d.python v.id (decision_rules v) context_data) h),
)

evaluate_active-IsGoverned :
    (d : Directory) (context_data : Value) (active : Option ℕ)
    → is_allowed (evaluate_active d context_data active) ≡ true
    → IsGoverned d context_data active
evaluate_active-IsGoverned d context_data none h = tt
evaluate_active-IsGoverned d context_data (some i) h =
    evaluate_version-IsGoverned d context_data i (find_version (some i) d) refl h

module _ (d : Directory) (now customer business_id offer_id : ℕ) where
  -- The business is open (ACTIVE or PENDING) and public, the offer is its own and active, and its brain permits the enquiry.
  pub record IsGranted (business : Listing) (offer : ServiceOffer) : Type 0 where
    pub found : find_listing business_id d ≡ some business
    pub is_open : is_open_business business.status ≡ true
    pub is_listed : is_public business.public_status ≡ true
    pub own : offer.business_id ≡ business_id
    pub is_offered : is_active_offer offer.status ≡ true
    pub governed :
        IsGoverned d
          (transaction_data d business_id offer customer)
          (active_version_id business_id d)

  check_enquiry-allowed :
      (business : Listing) (offer : ServiceOffer)
      → check_enquiry d customer business_id offer_id ≡ ok (business, offer)
      → is_allowed (evaluate_brain_for_enquiry d business_id offer customer) ≡ true
  unfolding check_enquiry
  check_enquiry-allowed business offer h = ground arith

  check_enquiry-IsGranted :
      (business : Listing) (offer : ServiceOffer)
      → check_enquiry d customer business_id offer_id ≡ ok (business, offer)
      → IsGranted business offer
  unfolding check_enquiry evaluate_brain_for_enquiry validate_business_eligible
      validate_service_offer_eligible
  check_enquiry-IsGranted business offer h = record {
    found = ground arith;
    is_open = ground arith;
    is_listed = ground arith;
    own = ground (
      arith,
      find-some (λ o. (o.id == offer_id) && (o.business_id == business_id)) d.offers offer,
      ==_iff offer.business_id business_id,
    );
    is_offered = ground arith;
    governed =
        evaluate_active-IsGoverned d _ (active_version_id business_id d)
          (check_enquiry-allowed business offer h);
  }

  -- The rows after the creation of an enquiry.
  pub record IsSubmitted (s s' : Store) (e : Enquiry) : Type 0 where
    pub submitted : e.status ≡ Enquiries.submitted
    pub owner : e.customer_id ≡ customer
    pub enquiries : s'.enquiries ≡ s.enquiries ++ (e ∷ [])
    pub conversations : s'.conversations ≡ s.conversations ++ (new_conversation e s ∷ [])
    pub outbox :
        s'.outbox
        ≡ s.outbox ++ (new_event now (enquiry_event Enquiries.submitted) e.business_id e.id s ∷ [])

  put_enquiry-new :
      (xs : List Enquiry) (e e' : Enquiry)
      → any (λ x. x.id == e'.id) xs ≡ false
      → (e.id == e'.id) ≡ true
      → put_enquiry e' (xs ++ (e ∷ [])) ≡ xs ++ (e' ∷ [])
  put_enquiry-new [] e e' fresh same = rw same refl
  put_enquiry-new (x ∷ xs) e e' fresh same = ground (arith, put_enquiry-new xs e e')

  submit_enquiry-IsSubmitted :
      (business : Listing) (offer : ServiceOffer) (s s' : Store) (e : Enquiry)
      → any (λ x. x.id == length s.enquiries) s.enquiries ≡ false
      → submit_enquiry now customer (business, offer) s ≡ (ok e, s')
      → IsSubmitted s s' e
  unfolding submit_enquiry emit_outbox_event
  submit_enquiry-IsSubmitted business offer s s' e fresh h =
      let draft = draft_enquiry customer business offer s in
      let placed =
        put_enquiry-new s.enquiries draft (record draft { status = Enquiries.submitted }) fresh
          (==_refl draft.id) in
      elim (Bool-cases (any (has_key (enquiry_event Enquiries.submitted) draft.id) s.outbox)) [
        | inl hit ↦ absurd (ground arith)
        | inr miss ↦ record {
          submitted = ground arith;
          owner = ground arith;
          enquiries = ground (arith, placed);
          conversations = ground arith;
          outbox = ground arith;
        }
      ]

  -- When create_enquiry returns, and no enquiry had the new id, then the business is pending or active
  -- with an active public profile, the offer is its own and active, each rule of the active brain
  -- version, if one is set, lets the enquiry pass, the enquiry of the customer is SUBMITTED, it has a
  -- conversation, and one event, ENQUIRY_SUBMITTED, was added to the outbox.
  pub create_enquiry-IsGranted :
      (s s' : Store) (e : Enquiry)
      → any (λ x. x.id == length s.enquiries) s.enquiries ≡ false
      → create_enquiry d now customer business_id offer_id s ≡ (ok e, s')
      → (business : Listing) × (offer : ServiceOffer) × IsGranted business offer
        × IsSubmitted s s' e
  unfolding create_enquiry
  create_enquiry-IsGranted s s' e fresh h =
      elim (Result-cases (check_enquiry d customer business_id offer_id)) [
        | inl ((business, offer), c) ↦ (
          business,
          offer,
          check_enquiry-IsGranted business offer c,
          submit_enquiry-IsSubmitted business offer s s' e fresh (rw c at h),
        )
        | inr (x, c) ↦ absurd (ground arith)
      ]
