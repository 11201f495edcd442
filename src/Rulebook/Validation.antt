-- ===== src/Rulebook/Validation.antt =====
-- backend/app/domain/business/validation.py: the structural validation of a rule and of a version. An
-- error is its code; the texts are left out. `none` is an exception.
use fielded_online.Common.{
  Bool, true, false, not, ◌&&◌, ◌||◌, List, [], ◌∷◌, ◌++◌, map, Option, none, some, length, leb,
  ◌==◌, if◌then◌else◌,
}
use fielded_online.Brain.Values.{
  Text, Value, Values, Fields, null, boolean, number, text, array, object, nil, cons, end, field,
  Number, lookup, codes, same_text,
}
use fielded_online.Rulebook.Registry.{
  RuleTypeDefinition, get_rule_type, current_schema_version, is_supported_schema_version,
  is_supported_operator, is_supported_scope, is_supported_outcome, is_one_of,
}

pub data ErrorCode : Type 0 where
  unknown_rule_type type_error unsupported_schema_version missing_required_field : ErrorCode
  unknown_operator unknown_outcome invalid_scope invalid_priority invalid_date_format : ErrorCode
  unknown_config_area : ErrorCode

-- What is asked of a number: whether it is not zero, and whether it is an integer that is not negative.
pub record Numbers : Type 0 where
  pub is_nonzero : Number → Bool
  pub is_natural : Number → Bool

-- An error if the test fails.
abbrev pub require : Bool → ErrorCode → List ErrorCode
require true e = []
require false e = e ∷ []

abbrev pub is_there : Option Value → Bool
is_there none = false
is_there (some v) = true

-- A string that passes a test.
abbrev pub is_text_in : (Text → Bool) → Value → Bool
is_text_in test (text t) = test t
is_text_in test _ = false

-- `condition["operator"]`, if it is there
abbrev pub operator_errors : Option Value → List ErrorCode
operator_errors none = missing_required_field ∷ []
operator_errors (some op) = require (is_text_in is_supported_operator op) unknown_operator

-- `op not in ("is_empty", "is_not_empty")`
abbrev pub needs_value : Option Value → Bool
needs_value none = true
needs_value (some op) =
    not (is_text_in (is_one_of (codes "is_empty" ∷ codes "is_not_empty" ∷ [])) op)

-- The body of the loop over the conditions.
unfoldable pub condition_errors : Value → List ErrorCode
condition_errors (object fields) =
    require (is_there (lookup (codes "field") fields)) missing_required_field
    ++ operator_errors (lookup (codes "operator") fields)
    ++ require
        (not (needs_value (lookup (codes "operator") fields))
          || is_there (lookup (codes "value") fields))
        missing_required_field
condition_errors _ = type_error ∷ []

unfoldable pub conditions_errors : Values → List ErrorCode
conditions_errors nil = []
conditions_errors (cons v vs) = condition_errors v ++ conditions_errors vs

-- _validate_conditions, of the value if it is there
abbrev pub validate_conditions : Option Value → List ErrorCode
validate_conditions none = []
validate_conditions (some (array vs)) = conditions_errors vs
validate_conditions (some _) = type_error ∷ []

abbrev pub outcome_errors : Option Value → List ErrorCode
outcome_errors none = missing_required_field ∷ []
outcome_errors (some v) = require (is_text_in is_supported_outcome v) unknown_outcome

unfoldable pub action_errors : Value → List ErrorCode
action_errors (object fields) = outcome_errors (lookup (codes "outcome") fields)
action_errors _ = type_error ∷ []

unfoldable pub actions_errors : Values → List ErrorCode
actions_errors nil = []
actions_errors (cons v vs) = action_errors v ++ actions_errors vs

-- _validate_actions, of the value if it is there
abbrev pub validate_actions : Option Value → List ErrorCode
validate_actions none = []
validate_actions (some (array vs)) = actions_errors vs
validate_actions (some _) = type_error ∷ []

abbrev pub scope_errors : Option Value → List ErrorCode
scope_errors none = []
scope_errors (some v) = require (is_text_in is_supported_scope v) invalid_scope

abbrev pub both : Option (List ErrorCode) → Option (List ErrorCode) → Option (List ErrorCode)
both none rest = none
both (some errors) none = none
both (some errors) (some rest) = some (errors ++ rest)

module _ (numbers : Numbers) where
  -- Python's `or` reads the truth of a value.
  abbrev pub is_truthy : Value → Bool
  is_truthy null = false
  is_truthy (boolean b) = b
  is_truthy (number n) = numbers.is_nonzero n
  is_truthy (text []) = false
  is_truthy (text (c ∷ s)) = true
  is_truthy (array nil) = false
  is_truthy (array (cons v vs)) = true
  is_truthy (object end) = false
  is_truthy (object (field k v fields)) = true

  -- A boolean is an integer too.
  abbrev pub priority_errors : Option Value → List ErrorCode
  priority_errors none = []
  priority_errors (some (number n)) = require (numbers.is_natural n) invalid_priority
  priority_errors (some (boolean b)) = []
  priority_errors (some _) = invalid_priority ∷ []

  abbrev or_current : Option Value → Value
  or_current none = text current_schema_version
  or_current (some v) = if is_truthy v then v else text current_schema_version

  -- A list or a dictionary cannot be looked up in a set.
  abbrev schema_errors : Value → Option (List ErrorCode)
  schema_errors (text t) = some (require (is_supported_schema_version t) unsupported_schema_version)
  schema_errors (array vs) = none
  schema_errors (object fields) = none
  schema_errors _ = some (unsupported_schema_version ∷ [])

  -- `schema_version or rule_data.get("schema_version") or CURRENT_SCHEMA_VERSION`
  abbrev pub effective_version : Option Value → Option Value → Value
  effective_version none own = or_current own
  effective_version (some v) own = if is_truthy v then v else or_current own

  abbrev pub has_dash : Text → Bool
  has_dash (a ∷ b ∷ c ∷ d ∷ e ∷ rest) = (e == 45) && leb 5 (length rest)
  has_dash _ = false

  -- _validate_date_string
  abbrev pub date_errors : Option Value → List ErrorCode
  date_errors none = []
  date_errors (some (text t)) = require (has_dash t) invalid_date_format
  date_errors (some _) = type_error ∷ []

  abbrev pub required_errors : List Text → Fields → List ErrorCode
  required_errors [] fields = []
  required_errors (key ∷ keys) fields =
      require (is_there (lookup key fields)) missing_required_field ++ required_errors keys fields

  abbrev after : Option (List ErrorCode) → List ErrorCode → Option (List ErrorCode)
  after none rest = none
  after (some errors) rest = some (errors ++ rest)

  -- The checks of a dictionary, from the schema version on.
  unfoldable pub fields_errors :
      RuleTypeDefinition → Fields → Option Value → Option (List ErrorCode)
  fields_errors d fields schema_version =
      after
        (schema_errors (effective_version schema_version (lookup (codes "schema_version") fields)))
        (required_errors d.required_fields fields
          ++ validate_conditions (lookup (codes "conditions") fields)
          ++ validate_actions (lookup (codes "actions") fields)
          ++ scope_errors (lookup (codes "scope") fields)
          ++ priority_errors (lookup (codes "priority") fields)
          ++ date_errors (lookup (codes "effective_from") fields)
          ++ date_errors (lookup (codes "effective_until") fields))

  abbrev pub data_errors :
      Option RuleTypeDefinition → Value → Option Value → Option (List ErrorCode)
  data_errors none rule_data schema_version = some (unknown_rule_type ∷ [])
  data_errors (some d) (object fields) schema_version = fields_errors d fields schema_version
  data_errors (some d) _ schema_version = some (type_error ∷ [])

  unfoldable pub validate_rule_data : Text → Value → Option Value → Option (List ErrorCode)
  validate_rule_data rule_type rule_data schema_version =
      data_errors (get_rule_type rule_type) rule_data schema_version

  -- validate_brain_version_config: unknown areas, areas that are no dictionary, and the schema version.
  abbrev pub config_areas : List Text
  config_areas = map codes (
      "identity" ∷ "services" ∷ "pricing" ∷ "availability" ∷ "qualification" ∷ "policies"
      ∷ "escalation" ∷ "communication" ∷ [])

  abbrev pub unknown_areas : Fields → List ErrorCode
  unknown_areas end = []
  unknown_areas (field key v fields) =
      require (is_one_of config_areas key || same_text key (codes "schema_version"))
        unknown_config_area
      ++ unknown_areas fields

  abbrev pub area_errors : Option Value → List ErrorCode
  area_errors none = []
  area_errors (some null) = []
  area_errors (some (object fields)) = []
  area_errors (some _) = type_error ∷ []

  abbrev pub areas_errors : List Text → Fields → List ErrorCode
  areas_errors [] fields = []
  areas_errors (area ∷ areas) fields = area_errors (lookup area fields) ++ areas_errors areas fields

  abbrev pub own_schema_errors : Option Value → List ErrorCode
  own_schema_errors none = []
  own_schema_errors (some (text t)) =
      require (is_supported_schema_version t) unsupported_schema_version
  own_schema_errors (some _) = type_error ∷ []

  unfoldable pub validate_brain_version_config : Value → List ErrorCode
  validate_brain_version_config null = []
  validate_brain_version_config (object fields) =
      unknown_areas fields
      ++ areas_errors config_areas fields
      ++ own_schema_errors (lookup (codes "schema_version") fields)
  validate_brain_version_config _ = type_error ∷ []

  -- validate_brain_version_full, of the rules' types and data. A rule without a type is an error.
  abbrev pub rule_errors : Text → Value → Option (List ErrorCode)
  rule_errors [] rule_data = some (missing_required_field ∷ [])
  rule_errors (c ∷ t) rule_data = validate_rule_data (c ∷ t) rule_data none

  unfoldable pub rules_errors : List (Text × Value) → Option (List ErrorCode)
  rules_errors [] = some []
  rules_errors ((t, rule_data) ∷ rules) = both (rule_errors t rule_data) (rules_errors rules)

  unfoldable pub validate_brain_version_full : Value → List (Text × Value) → Option (List ErrorCode)
  validate_brain_version_full config rules =
      both (some (validate_brain_version_config config)) (rules_errors rules)
