-- ===== src/Commercial/Resolution.antt =====
-- Which policy sets the fee: get_effective_policies and get_global_default of
-- backend/app/domain/commercial_policy/repository.py, and resolve_effective_policy and calculate_fee of
-- service.py beside it. The list of policies holds the rows that are not deleted. The order in which
-- the query returns its rows matters only among policies of one scope that were created at once.
use fielded_online.Common.{
  ℕ, Bool, true, false, ◌&&◌, ◌||◌, List, [], ◌∷◌, Option, none, some, select, same, ltb, leb, ◌==◌,
  if◌then◌else◌,
}
use fielded_online.Common.Int.{ℤ, pos, ltb_ℤ}
use fielded_online.Common.Outcome.{Result, ok, err, validation}
use fielded_online.Common.Check.{refuse, found_or, ◌>>=◌, ◌>>◌}
use fielded_online.Status.Policies.{policy_status_enum, active}
use fielded_online.Store.Payments.{Currency}
use fielded_online.Commercial.Policy.{
  CommercialPolicy, Scope, precedence, global_default, category_default, business_plan, promotion,
  business_specific,
}
use fielded_online.Commercial.Fees.{FeeResult, calculate}

-- A column against a value; against None it is IS NULL.
abbrev pub equals : Option ℕ → Option ℕ → Bool
equals none none = true
equals none (some b) = false
equals (some a) none = false
equals (some a) (some b) = a == b

-- The time-window filter.
abbrev pub is_after : ℕ → Option ℕ → Bool
is_after now none = true
is_after now (some until) = ltb now until

abbrev pub is_in_force : ℕ → CommercialPolicy → Bool
is_in_force now p =
    (leb p.effective_from now && is_after now p.effective_until)
    && (same p.status active && p.is_active)

-- The filter of each scope.
abbrev pub fits_scope : Scope → ℕ → Option ℕ → Option ℕ → CommercialPolicy → Bool
fits_scope global_default business category code p = true
fits_scope category_default business category code p = equals p.category_id category
fits_scope business_plan business category code p = equals p.business_id (some business)
fits_scope promotion business category code p =
    (equals p.business_id (some business) || equals p.business_id none)
    && (equals p.promotion_code none || equals p.promotion_code code)
fits_scope business_specific business category code p = equals p.business_id (some business)

unfoldable pub is_candidate : ℕ → ℕ → Option ℕ → Option ℕ → CommercialPolicy → Bool
is_candidate now business category code p =
    is_in_force now p && fits_scope p.scope business category code p

abbrev pub effective_policies :
    ℕ → ℕ → Option ℕ → Option ℕ → List CommercialPolicy → List CommercialPolicy
effective_policies now business category code ps =
    select (is_candidate now business category code) ps

-- `_sort_key(p) >= _sort_key(q)`, on the pairs (precedence, created_at).
abbrev pub ranks_over : CommercialPolicy → CommercialPolicy → Bool
ranks_over p q =
    ltb (precedence q.scope) (precedence p.scope)
    || (precedence q.scope == precedence p.scope && leb q.created_at p.created_at)

unfoldable pub insert_policy : CommercialPolicy → List CommercialPolicy → List CommercialPolicy
insert_policy p [] = p ∷ []
insert_policy p (q ∷ qs) =
    let rest = insert_policy p qs in if ranks_over p q then p ∷ q ∷ qs else q ∷ rest

-- candidates.sort(key=_sort_key, reverse=True), which keeps the order of equals.
unfoldable pub sort_policies : List CommercialPolicy → List CommercialPolicy
sort_policies [] = []
sort_policies (p ∷ ps) = insert_policy p (sort_policies ps)

abbrev pub is_global : Scope → Bool
is_global global_default = true
is_global category_default = false
is_global business_plan = false
is_global promotion = false
is_global business_specific = false

-- The newer of two versions; the first of equals.
abbrev pub newer_version : CommercialPolicy → Option CommercialPolicy → Option CommercialPolicy
newer_version p none = some p
newer_version p (some q) = if ltb p.version q.version then some q else some p

unfoldable pub global_default_policy : ℕ → List CommercialPolicy → Option CommercialPolicy
global_default_policy now [] = none
global_default_policy now (p ∷ ps) =
    let rest = global_default_policy now ps in
    if is_global p.scope && is_in_force now p then newer_version p rest else rest

abbrev pub first_or : Option CommercialPolicy → List CommercialPolicy → Option CommercialPolicy
first_or other [] = other
first_or other (p ∷ ps) = some p

unfoldable pub resolve_effective_policy :
    ℕ → ℕ → Option ℕ → Option ℕ → List CommercialPolicy → Option CommercialPolicy
resolve_effective_policy now business category code ps =
    first_or (global_default_policy now ps)
      (sort_policies (effective_policies now business category code ps))

-- A ValueError becomes a ValidationError.
abbrev pub as_validation : Result FeeResult → Result FeeResult
as_validation (ok f) = ok f
as_validation (err e) = err validation

unfoldable pub calculate_fee :
    ℕ → ℕ → ℤ → Currency → Option ℕ → Option ℕ → List CommercialPolicy → Result FeeResult
calculate_fee now business amount currency category code ps = do
  refuse (ltb_ℤ amount (pos 0)) validation
  policy ← found_or (resolve_effective_policy now business category code ps) validation
  as_validation (calculate policy amount currency)
