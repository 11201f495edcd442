-- ===== src/Commercial/Activation.antt =====
-- backend/app/domain/commercial_policy/service.py, transition_policy and _deactivate_overlapping, on
-- the table of policies.
use fielded_online.Common.{
  ℕ, Bool, not, ◌&&◌, List, [], ◌∷◌, Option, none, some, is_in, same, ltb, ◌==◌, if◌then◌else◌,
}
use fielded_online.Common.Outcome.{Action, pure, raise_if, modify, ◌>>◌, state_transition}
use fielded_online.Status.Policies.{
  PolicyStatus, policy_status_enum, policy_transitions, active, superseded,
}
use fielded_online.Commercial.Policy.{CommercialPolicy, precedence}
use fielded_online.Commercial.Resolution.{equals, is_candidate}

-- `policy.business_id or uuid.UUID(int=0)`: the business 0 is nobody's.
abbrev pub business_or_nil : Option ℕ → ℕ
business_or_nil none = 0
business_or_nil (some b) = b

-- The candidates that an activation supersedes. Scopes are told apart by their precedence. The
-- query is made without a promotion code.
unfoldable pub is_overlapped : ℕ → CommercialPolicy → CommercialPolicy → Bool
is_overlapped now policy q =
    is_candidate now (business_or_nil policy.business_id) policy.category_id none q
    && (not (q.id == policy.id)
        && (precedence q.scope == precedence policy.scope
            && (equals q.business_id policy.business_id
                && (equals q.category_id policy.category_id && same q.status active))))

unfoldable pub supersede : ℕ → CommercialPolicy → List CommercialPolicy → List CommercialPolicy
supersede now policy [] = []
supersede now policy (q ∷ qs) =
    (if is_overlapped now policy q then record q { status = superseded } else q)
    ∷ supersede now policy qs

-- _deactivate_overlapping: a policy of the future supersedes nothing.
unfoldable pub deactivate_overlapping :
    ℕ → CommercialPolicy → List CommercialPolicy → List CommercialPolicy
deactivate_overlapping now policy ps =
    if ltb now policy.effective_from then ps else supersede now policy ps

abbrev pub put_policy : CommercialPolicy → List CommercialPolicy → List CommercialPolicy
put_policy p [] = []
put_policy p (q ∷ qs) = if q.id == p.id then p ∷ qs else q ∷ put_policy p qs

abbrev pub activated :
    ℕ → PolicyStatus → CommercialPolicy → List CommercialPolicy → List CommercialPolicy
activated now target p ps = if same target active then deactivate_overlapping now p ps else ps

unfoldable pub transition_policy :
    ℕ → CommercialPolicy → PolicyStatus → Action (List CommercialPolicy) CommercialPolicy
transition_policy now policy target = do
  raise_if (not (is_in target (policy_transitions policy.status))) state_transition
  let p = record policy { status = target }
  modify (put_policy p)
  modify (activated now target p)
  pure p
