-- ===== src/Rulebook/Rows.antt =====
-- The tables of the business brain: backend/app/domain/business/models.py and repository.py. No
-- version or brain is ever deleted. A column that is NULL is `null`.
use fielded_online.Common.{
  ℕ, Bool, not, ◌&&◌, List, [], ◌∷◌, Option, none, some, find, select, same, ◌==◌, ltb,
  if◌then◌else◌,
}
use fielded_online.Common.Outcome.{Result, ok, err, unexpected}
use fielded_online.Status.Versions.{BrainVersionStatus, version_status_enum, active}
use fielded_online.Brain.Values.{Text, Value, codes}

-- The configuration columns of a version, by the key that a configuration uses for them.
pub data Area : Type 0 where
  identity services pricing availability qualification policies escalation communication : Area

abbrev pub area_key : Area → Text
area_key identity = codes "identity"
area_key services = codes "services"
area_key pricing = codes "pricing"
area_key availability = codes "availability"
area_key qualification = codes "qualification"
area_key policies = codes "policies"
area_key escalation = codes "escalation"
area_key communication = codes "communication"

pub record Version : Type 0 where
  pub id : ℕ
  pub brain_id : ℕ
  pub version_number : ℕ
  pub status : BrainVersionStatus
  pub config : Area → Value

pub record StoredRule : Type 0 where
  pub id : ℕ
  pub brain_version_id : ℕ
  pub rule_type : Text
  pub name : Text
  pub rule_data : Value
  pub priority : ℕ
  pub is_active : Bool
  pub is_deleted : Bool

pub record Brain : Type 0 where
  pub id : ℕ
  pub business_id : ℕ
  pub active_version_id : Option ℕ

pub record Tables : Type 0 where
  pub brains : List Brain
  pub versions : List Version
  pub rules : List StoredRule

abbrev pub version_row : ℕ → List Version → Option Version
version_row i versions = find (λ v. v.id == i) versions

-- version.rules: the relationship has no condition, so that deleted rows are among them.
abbrev pub version_rules : ℕ → List StoredRule → List StoredRule
version_rules version rules = select (λ r. r.brain_version_id == version) rules

-- UPDATE ... WHERE id = ...
unfoldable pub put_version : Version → List Version → List Version
put_version v [] = []
put_version v (x ∷ xs) = (if x.id == v.id then v else x) ∷ put_version v xs

-- UPDATE ... SET status = ... WHERE id = ...
unfoldable pub put_status : ℕ → BrainVersionStatus → List Version → List Version
put_status i status [] = []
put_status i status (x ∷ xs) =
    (if x.id == i then record x { status = status } else x) ∷ put_status i status xs

-- The row that get_by_id answers: a deleted one is passed over.
abbrev pub is_rule : ℕ → StoredRule → Bool
is_rule i r = (r.id == i) && not r.is_deleted

unfoldable pub put_rule : StoredRule → List StoredRule → List StoredRule
put_rule r [] = []
put_rule r (x ∷ xs) = if is_rule r.id x then r ∷ xs else x ∷ put_rule r xs

unfoldable pub put_brain : Brain → List Brain → List Brain
put_brain b [] = []
put_brain b (x ∷ xs) = (if x.id == b.id then b else x) ∷ put_brain b xs

abbrev pub larger_number : ℕ → ℕ → ℕ
larger_number a b = if ltb a b then b else a

-- get_next_version_number
unfoldable pub last_version_number : ℕ → List Version → ℕ
last_version_number brain [] = 0
last_version_number brain (v ∷ vs) =
    let rest = last_version_number brain vs in
    if v.brain_id == brain then larger_number v.version_number rest else rest

abbrev pub is_active_of : ℕ → Version → Bool
is_active_of brain v = (v.brain_id == brain) && same v.status active

-- get_active_by_brain_id: more than one row is an exception.
abbrev pub one_or_none : List Version → Result (Option Version)
one_or_none [] = ok none
one_or_none (v ∷ []) = ok (some v)
one_or_none (v ∷ w ∷ rest) = err unexpected

abbrev pub get_active : ℕ → List Version → Result (Option Version)
get_active brain versions = one_or_none (select (is_active_of brain) versions)
