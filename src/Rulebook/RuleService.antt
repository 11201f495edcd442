-- ===== src/Rulebook/RuleService.antt =====
-- backend/app/domain/business/service.py: BusinessRuleService, on the tables of the brain.
use fielded_online.Common.{
  ℕ, Bool, true, false, [], ◌∷◌, ◌++◌, Option, none, some, find, length, if◌then◌else◌,
}
use fielded_online.Common.Outcome.{Action, Result, ok, not_found}
use fielded_online.Common.Check.{found_or, ◌>>=◌, ◌>>◌}
use fielded_online.Status.Versions.{version_status_enum}
use fielded_online.Brain.Values.{Text, Value, Fields, object, text, end, field, codes, lookup}
use fielded_online.Rulebook.Registry.{current_schema_version, get_rule_type}
use fielded_online.Rulebook.Validation.{Numbers, validate_rule_data, is_there}
use fielded_online.Rulebook.Rows.{StoredRule, Tables, put_rule, is_rule}
use fielded_online.Rulebook.Service.{save_with, load_version, ensure_mutable, check_errors}

abbrev pub load_rule : ℕ → Tables → Result StoredRule
load_rule i s = found_or (find (is_rule i) s.rules) not_found

-- `{**rule_data, "schema_version": CURRENT_SCHEMA_VERSION}` if the key is missing
abbrev pub append_field : Fields → Text → Value → Fields
append_field end key value = field key value end
append_field (field k v rest) key value = field k v (append_field rest key value)

abbrev pub with_schema_version : Fields → Fields
with_schema_version fields =
    if is_there (lookup (codes "schema_version") fields)
    then fields
    else append_field fields (codes "schema_version") (text current_schema_version)

abbrev pub is_known_rule_type : Text → Bool
is_known_rule_type t = elim (get_rule_type t) [ none ↦ false | some d ↦ true ]

abbrev pub new_rule : ℕ → Text → Text → Fields → ℕ → Tables → StoredRule
new_rule version rule_type name fields priority s = record {
  id = length s.rules;
  brain_version_id = version;
  rule_type = rule_type;
  name = name;
  rule_data = object (with_schema_version fields);
  priority = priority;
  is_active = true;
  is_deleted = false;
}

abbrev pub insert_rule : StoredRule → Tables → Tables
insert_rule r s = record s { rules = s.rules ++ (r ∷ []) }

-- The columns of a rule that a request may change; `none` is an absent key or null.
pub record Updates : Type 0 where
  pub name : Option Text
  pub rule_data : Option Fields
  pub priority : Option ℕ
  pub is_active : Option Bool

abbrev pub new_or_old : {A : Type 0} → Option A → A → A
new_or_old none old = old
new_or_old (some new) old = new

abbrev pub data_or_old : Option Fields → Value → Value
data_or_old none old = old
data_or_old (some fields) old = object fields

abbrev pub updated_rule : Updates → StoredRule → StoredRule
updated_rule u r = record r {
  name = new_or_old u.name r.name;
  rule_data = data_or_old u.rule_data r.rule_data;
  priority = new_or_old u.priority r.priority;
  is_active = new_or_old u.is_active r.is_active;
}

abbrev pub save_rule : StoredRule → Tables → Tables
save_rule r s = record s { rules = put_rule r s.rules }

module _ (numbers : Numbers) where
  -- The validation of add_rule: a type that is not registered needs a dictionary alone.
  abbrev pub check_data : Text → Fields → Result (Unit {0})
  check_data rule_type fields = elim (is_known_rule_type rule_type) [
    | true ↦ check_errors (validate_rule_data numbers rule_type (object fields) none)
    | false ↦ ok tt
  ]

  unfoldable pub check_rule : ℕ → Text → Text → Fields → ℕ → Tables → Result StoredRule
  check_rule i rule_type name fields priority s = do
    version ← load_version i s
    ensure_mutable version
    check_data rule_type fields
    ok (new_rule i rule_type name fields priority s)

  abbrev pub add_rule : ℕ → Text → Text → Fields → ℕ → Action Tables StoredRule
  add_rule i rule_type name fields priority s =
      save_with (check_rule i rule_type name fields priority s) insert_rule s

  abbrev pub check_new_data : Text → Option Fields → Result (Unit {0})
  check_new_data rule_type none = ok tt
  check_new_data rule_type (some fields) =
      check_errors (validate_rule_data numbers rule_type (object fields) none)

  unfoldable pub check_update : ℕ → Updates → Tables → Result StoredRule
  check_update i u s = do
    rule ← load_rule i s
    version ← load_version rule.brain_version_id s
    ensure_mutable version
    check_new_data rule.rule_type u.rule_data
    ok (updated_rule u rule)

  abbrev pub update_rule : ℕ → Updates → Action Tables StoredRule
  update_rule i u s = save_with (check_update i u s) save_rule s

unfoldable pub check_delete : ℕ → Tables → Result StoredRule
check_delete i s = do
  rule ← load_rule i s
  version ← load_version rule.brain_version_id s
  ensure_mutable version
  ok (record rule { is_deleted = true })

abbrev pub delete_rule : ℕ → Action Tables StoredRule
delete_rule i s = save_with (check_delete i s) save_rule s
