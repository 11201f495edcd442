-- ===== src/Lifecycle/Once.antt =====
-- Each event type is emitted once for an aggregate: what that means for the enquiry's loop between
-- IN_REVIEW and NEEDS_INFORMATION.
use fielded_online.Common.{
  ℕ, ◌≡◌, Bool, true, List, [], ◌∷◌, ◌++◌, any, any-append_last, is_in, arith, ==_refl,
}
use fielded_online.Common.Outcome.{ok, err, integrity_error}
use fielded_online.Status.Enquiries.{
  EnquiryStatus, enquiry_transitions, in_review, needs_information, enquiry_status_enum,
}
use fielded_online.Store.{Store, new_event, emit_outbox_event, request}
use fielded_online.Store.Outbox.{event_code, OutboxEvent, has_key, enquiry_event}
use fielded_online.Store.Lifecycle.{Enquiry}
use fielded_online.Lifecycle.Enquiries.{Actor, actor_allowed, transition_enquiry}

any-append :
    (p : OutboxEvent → Bool) (xs ys : List OutboxEvent) → any p xs ≡ true → any p (xs ++ ys) ≡ true
any-append p [] ys h = cc
any-append p (x ∷ xs) ys h = ground (arith, any-append p xs ys)

-- What an enquiry's transition that returned has done.
transition_enquiry-ok :
    (now : ℕ) (e e' : Enquiry) (target : EnquiryStatus) (actor : Actor) (s s' : Store)
    → transition_enquiry now e target actor s ≡ (ok e', s')
    → (e' ≡ record e { status = target })
      × (s'.outbox ≡ s.outbox ++ (new_event now (enquiry_event target) e.business_id e.id s ∷ []))
unfolding transition_enquiry emit_outbox_event
transition_enquiry-ok now e e' target actor s s' h = ground arith

enquiry_key_kept :
    (now i : ℕ) (t : EnquiryStatus) (e e' : Enquiry) (target : EnquiryStatus) (actor : Actor)
    (s s' : Store)
    → transition_enquiry now e target actor s ≡ (ok e', s')
    → any (has_key (enquiry_event t) i) s.outbox ≡ true
    → any (has_key (enquiry_event t) i) s'.outbox ≡ true
enquiry_key_kept now i t e e' target actor s s' h k =
    let (_, o) = transition_enquiry-ok now e e' target actor s s' h in
    rw (o, any-append (has_key (enquiry_event t) i) s.outbox _ k)

enquiry_key_set :
    (now : ℕ) (e e' : Enquiry) (target : EnquiryStatus) (actor : Actor) (s s' : Store)
    → transition_enquiry now e target actor s ≡ (ok e', s')
    → any (has_key (enquiry_event target) e.id) s'.outbox ≡ true
enquiry_key_set now e e' target actor s s' h =
    let (_, o) = transition_enquiry-ok now e e' target actor s s' h in
    rw (
      o,
      any-append_last (has_key (enquiry_event target) e.id) s.outbox
          (new_event now (enquiry_event target) e.business_id e.id s)
          (ground (arith, ==_refl e.id, ==_refl (event_code (enquiry_event target)))),
    )

transition_enquiry_duplicate :
    (now : ℕ) (e : Enquiry) (target : EnquiryStatus) (actor : Actor) (s : Store)
    → is_in target (enquiry_transitions e.status) ≡ true
    → is_in target (actor_allowed actor e.status) ≡ true
    → any (has_key (enquiry_event target) e.id) s.outbox ≡ true
    → request (transition_enquiry now e target actor) s ≡ (err integrity_error, s)
unfolding transition_enquiry emit_outbox_event
transition_enquiry_duplicate now e target actor s allowed may k = ground arith

-- An enquiry that went into review, then to NEEDS_INFORMATION, cannot be taken into review again:
-- whoever may ask for it gets the database's refusal of a second ENQUIRY_IN_REVIEW event, and
-- nothing changes.
pub enquiry_review_again_fails :
    (t₁ t₂ t₃ : ℕ) (e e₁ e₂ : Enquiry) (a₁ a₂ a₃ : Actor) (s s₁ s₂ : Store)
    → transition_enquiry t₁ e in_review a₁ s ≡ (ok e₁, s₁)
    → transition_enquiry t₂ e₁ needs_information a₂ s₁ ≡ (ok e₂, s₂)
    → is_in in_review (actor_allowed a₃ needs_information) ≡ true
    → request (transition_enquiry t₃ e₂ in_review a₃) s₂ ≡ (err integrity_error, s₂)
enquiry_review_again_fails t₁ t₂ t₃ e e₁ e₂ a₁ a₂ a₃ s s₁ s₂ h₁ h₂ may =
    let (same₁, _) = transition_enquiry-ok t₁ e e₁ in_review a₁ s s₁ h₁ in
    let (same₂, _) = transition_enquiry-ok t₂ e₁ e₂ needs_information a₂ s₁ s₂ h₂ in
    let k =
      enquiry_key_kept t₂ e.id in_review e₁ e₂ needs_information a₂ s₁ s₂ h₂
        (enquiry_key_set t₁ e e₁ in_review a₁ s s₁ h₁) in
    let id₂ : e₂.id ≡ e.id = cc in
    let st₂ : e₂.status ≡ needs_information = cc in
    transition_enquiry_duplicate t₃ e₂ in_review a₃ s₂ (rw st₂) (rw (st₂, may)) (rw (id₂, k))
