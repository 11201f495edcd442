-- ===== src/Rulebook/Service.antt =====
-- backend/app/domain/business/service.py: BrainService, on the tables of the
-- brain. An exception that the validation raises is `unexpected`.
use fielded_online.Common.{
  ℕ, suc, Bool, true, false, not, List, [], ◌∷◌, ◌++◌, map, Option, none, some, find, length, is_in,
  same, ◌==◌, if◌then◌else◌,
}
use fielded_online.Common.Outcome.{
  Action, Result, ok, err, domain_error, not_found, validation, authorization, state_transition,
  unexpected,
}
use fielded_online.Common.Check.{refuse, found_or, ◌>>=◌, ◌>>◌}
use fielded_online.Status.Versions.{
  BrainVersionStatus, version_status_enum, version_transitions, draft, review, approved, active,
  superseded, BusinessMemberRole,
}
use fielded_online.Brain.Values.{Text, Value, Fields, null, object, end, field, lookup}
use fielded_online.Brain.Conditions.{is_null}
use fielded_online.Rulebook.Validation.{
  ErrorCode, Numbers, validate_brain_version_config, validate_brain_version_full,
}
use fielded_online.Rulebook.Approval.{ApprovalDecision, check_approval, default_approval_policy}
use fielded_online.Rulebook.Rows.{
  Area, area_key, identity, services, pricing, availability, qualification, policies, escalation,
  communication, Version, StoredRule, Brain, Tables, version_row, version_rules, put_version,
  put_status, put_brain, last_version_number, get_active,
}

abbrev pub save_version : Version → Tables → Tables
save_version v s = record s { versions = put_version v s.versions }

abbrev pub save_status : ℕ → BrainVersionStatus → Tables → Tables
save_status i status s = record s { versions = put_status i status s.versions }

-- Each operation reads and validates before it writes: the row that it answers, and the tables then.
abbrev pub save_with : {A : Type 0} → Result A → (A → Tables → Tables) → Action Tables A
save_with (ok a) write s = (ok a, write a s)
save_with (err e) write s = (err e, s)

abbrev pub load_version : ℕ → Tables → Result Version
load_version i s = found_or (version_row i s.versions) not_found

-- config.get(area)
abbrev pub area_or_null : Option Value → Value
area_or_null none = null
area_or_null (some v) = v

abbrev pub new_version : ℕ → Fields → Tables → Version
new_version brain config s = record {
  id = length s.versions;
  brain_id = brain;
  version_number = suc (last_version_number brain s.versions);
  status = draft;
  config = λ a. area_or_null (lookup (area_key a) config);
}

abbrev pub no_errors : List ErrorCode → Bool
no_errors [] = true
no_errors (e ∷ es) = false

abbrev pub insert_version : Version → Tables → Tables
insert_version v s = record s { versions = s.versions ++ (v ∷ []) }

-- `if area in config: version.<area>_config = config[area]`
abbrev pub area_or_old : Option Value → Value → Value
area_or_old none old = old
area_or_old (some v) old = v

abbrev pub updated_config : Fields → Version → Version
updated_config config v = record v {
  config = λ a. area_or_old (lookup (area_key a) config) (v.config a);
}

-- The columns that are not NULL, as a configuration.
abbrev pub with_area : Version → Area → Fields → Fields
with_area v a rest = if is_null (v.config a) then rest else field (area_key a) (v.config a) rest

unfoldable pub config_of : Version → Value
config_of v = object (
    with_area v identity (
      with_area v services (
        with_area v pricing (
          with_area v availability (
            with_area v qualification
              (with_area v policies (with_area v escalation (with_area v communication end))))))))

abbrev pub typed_data : List StoredRule → List (Text × Value)
typed_data rules = map (λ r. (r.rule_type, r.rule_data)) rules

abbrev pub check_errors : Option (List ErrorCode) → Result (Unit {0})
check_errors none = err unexpected
check_errors (some errors) = refuse (not (no_errors errors)) validation

-- _ensure_mutable
abbrev pub ensure_mutable : Version → Result (Unit {0})
ensure_mutable v = refuse (not (same v.status draft)) domain_error

module _ (numbers : Numbers) where
  unfoldable pub check_create : ℕ → Fields → Tables → Result Version
  check_create brain config s = do
    refuse (not (no_errors (validate_brain_version_config numbers (object config)))) validation
    ok (new_version brain config s)

  abbrev pub create_version : ℕ → Fields → Action Tables Version
  create_version brain config s = save_with (check_create brain config s) insert_version s

  -- _validate_version_structure, of a version on its way to REVIEW
  abbrev pub validate_structure : BrainVersionStatus → Version → Tables → Result (Unit {0})
  validate_structure target v s = elim (same target review) [
    | true ↦ check_errors (
        validate_brain_version_full numbers (config_of v) (typed_data (version_rules v.id s.rules)))
    | false ↦ ok tt
  ]

  unfoldable pub check_transition : ℕ → BrainVersionStatus → Tables → Result Version
  check_transition i target s = do
    version ← load_version i s
    refuse (not (is_in target (version_transitions version.status))) state_transition
    validate_structure target version s
    ok (record version { status = target })

  abbrev pub transition_version : ℕ → BrainVersionStatus → Action Tables Version
  transition_version i target s = save_with (check_transition i target s) save_version s

  unfoldable pub check_config : ℕ → Fields → Tables → Result Version
  check_config i config s = do
    version ← load_version i s
    ensure_mutable version
    refuse (not (no_errors (validate_brain_version_config numbers (object config)))) validation
    ok (updated_config config version)

  abbrev pub update_version_config : ℕ → Fields → Action Tables Version
  update_version_config i config s = save_with (check_config i config s) save_version s

abbrev pub is_approved : ApprovalDecision → Bool
is_approved decision = elim decision [ ApprovalDecision.approved ↦ true | _ ↦ false ]

unfoldable pub check_approve : ℕ → BusinessMemberRole → Bool → Tables → Result Version
check_approve i approver_role is_author s = do
  version ← load_version i s
  refuse (not (same version.status review)) domain_error
  let rule_types = map (λ r. r.rule_type) (version_rules i s.rules)
  let decision = check_approval default_approval_policy approver_role is_author rule_types 0
  refuse (not (is_approved decision)) authorization
  ok (record version { status = approved })

abbrev pub approve_version : ℕ → BusinessMemberRole → Bool → Action Tables Version
approve_version i approver_role is_author s =
    save_with (check_approve i approver_role is_author s) save_version s

-- The version that is active gives way to another.
abbrev pub supersede_other : ℕ → Option Version → Tables → Tables
supersede_other i none s = s
supersede_other i (some current) s = elim (current.id == i) [
  | true ↦ s
  | false ↦ save_status current.id superseded s
]

abbrev pub activate_approved : Version → Tables → Tables
activate_approved version s = elim (same version.status approved) [
  | true ↦ save_status version.id active s
  | false ↦ s
]

abbrev pub save_brain : Brain → Tables → Tables
save_brain b s = record s { brains = put_brain b s.brains }

-- The brain, the version, and the version that is active.
unfoldable pub check_activate : ℕ → ℕ → Tables → Result (Brain × Version × Option Version)
check_activate business i s = do
  brain ← found_or (find (λ b. b.business_id == business) s.brains) not_found
  version ← load_version i s
  refuse (not (is_in version.status (approved ∷ active ∷ []))) domain_error
  current ← get_active brain.id s.versions
  ok (brain, version, current)

-- The three writes of activate_version.
abbrev pub write_activation : ℕ → Brain × Version × Option Version → Tables → Tables
write_activation i (brain, version, current) s =
    save_brain (record brain { active_version_id = some i })
      (activate_approved version (supersede_other i current s))

abbrev pub activate_version : ℕ → ℕ → Action Tables (Brain × Version × Option Version)
activate_version business i s = save_with (check_activate business i s) (write_activation i) s
