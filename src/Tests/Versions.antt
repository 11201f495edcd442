-- ===== src/Tests/Versions.antt =====
-- The versions of a brain at concrete inputs: version 0 is ACTIVE, version 1 APPROVED, version 2 a draft.
use fielded_online.Common.{
  ℕ, ◌≡◌, ◌≢◌, refl, true, false, List, [], ◌∷◌, some, not, ◌==◌, All, is_in,
}
use fielded_online.Common.Outcome.{ok}
use fielded_online.Status.Versions.{
  BrainVersionStatus, version_status_enum, version_transitions, draft, review, approved, active,
  superseded, owner,
}
use fielded_online.Brain.Values.{
  Value, Fields, null, number, object, end, field, codes, same_text, lookup,
}
use fielded_online.Rulebook.Validation.{
  Numbers, validate_brain_version_config, validate_brain_version_full, rules_errors,
  validate_rule_data, fields_errors,
}
use fielded_online.Rulebook.Rows.{
  pricing, Tables, Version, StoredRule, Brain, Area, version_row, version_rules,
}
use fielded_online.Rulebook.Service.{
  new_version, create_version, transition_version, check_transition, check_approve, check_activate,
  activate_version, config_of, check_create,
}
use fielded_online.Rulebook.RuleService.{delete_rule, check_delete}
use fielded_online.Rulebook.Operations.{committed, Operation, run_all}
use fielded_online.Rulebook.Sealed.{IsKept}
use fielded_online.Rulebook.Kept.{run_all-IsKept}
use fielded_online.Rulebook.Activation.{IsActivated, activate_version-IsActivated}
use fielded_online.Rulebook.Blocked.{transition_version-blocks}
use fielded_online.Rulebook.Reviewed.{IsValidRule, check_transition-review, check_approve-owner}
use fielded_online.Rulebook.Columns.{create_version-config_of}
use fielded_online.Rulebook.Deleted.{read_data, delete_rule-read_data}
use fielded_online.Rulebook.Approval.{check_approval}
use fielded_online.Rulebook.Registry.{get_rule_type, registry}

abbrev sample_numbers : Numbers
sample_numbers = record { is_nonzero = λ n. not (n == 0); is_natural = λ n. true }

abbrev no_config : Area → Value
no_config a = null

abbrev sample_version : ℕ → BrainVersionStatus → Version
sample_version i status = record {
  id = i;
  brain_id = 5;
  version_number = i;
  status = status;
  config = no_config;
}

abbrev floor_data : Fields
floor_data = field (codes "minimum_amount") (number 40) end

abbrev sample_rule : ℕ → StoredRule
sample_rule version = record {
  id = version;
  brain_version_id = version;
  rule_type = codes "price_floor";
  name = codes "floor";
  rule_data = object floor_data;
  priority = 0;
  is_active = true;
  is_deleted = false;
}

abbrev sample_brain : Brain
sample_brain = record { id = 5; business_id = 9; active_version_id = some 0 }

abbrev sample_tables : Tables
sample_tables = record {
  brains = sample_brain ∷ [];
  versions =
      sample_version 0 active
      ∷ sample_version 1 approved
      ∷ sample_version 2 draft
      ∷ sample_version 3 review
      ∷ [];
  rules = sample_rule 1 ∷ sample_rule 2 ∷ [];
}

-- The approved version is configured and a rule of it deleted, in vain, and then activated.
abbrev sample_requests : List Operation
sample_requests =
    Operation.configure 1 end
    ∷ Operation.delete 1
    ∷ Operation.delete 2
    ∷ Operation.activate 9 1
    ∷ Operation.move 1 superseded
    ∷ []

run_all-IsKept_example :
    IsKept 1
      (sample_version 1 approved)
      (version_rules 1 sample_tables.rules)
      (run_all sample_numbers sample_requests sample_tables)
run_all-IsKept_example =
    run_all-IsKept sample_numbers 1 (sample_version 1 approved) sample_tables sample_requests refl
      refl

activate_version-IsActivated_example :
    IsActivated 9 1 sample_brain (activate_version 9 1 sample_tables).1
unfolding check_activate
activate_version-IsActivated_example =
    activate_version-IsActivated 9 1 sample_tables (activate_version 9 1 sample_tables).1
      sample_brain (sample_version 1 approved) (some (sample_version 0 active)) refl

transition_version-blocks_example :
    ((transition_version sample_numbers 1 active sample_tables).0 ≡ ok (sample_version 1 active))
    × (check_activate 9 0 (committed (transition_version sample_numbers 1 active) sample_tables)
        ≢ ok (sample_brain, sample_version 0 active, some (sample_version 0 active)))
transition_version-blocks_example =
    transition_version-blocks sample_numbers 1 0 (sample_version 1 approved)
      (sample_version 0 active) sample_tables 9 0 sample_brain
      (sample_brain, sample_version 0 active, some (sample_version 0 active)) refl refl refl refl
      refl refl refl

check_approve-owner_example :
    (x : Version) × (version_row 3 sample_tables.versions ≡ some x)
    × (x.status ≡ review)
    × (owner ≡ owner)
    × (record x { status = approved } ≡ sample_version 3 approved)
unfolding check_approve check_approval
check_approve-owner_example =
    check_approve-owner 3 owner true (sample_version 3 approved) sample_tables refl

delete_rule-read_data_example :
    (true ≡ true)
    × (read_data (version_rules 2 (delete_rule 2 sample_tables).1.rules)
        ≡ read_data (version_rules 2 sample_tables.rules))
unfolding check_delete
delete_rule-read_data_example =
    delete_rule-read_data 2 2 sample_tables (delete_rule 2 sample_tables).1
      (record (sample_rule 2) { is_deleted = true }) refl

check_transition-review_example :
    (x : Version) × (version_row 2 sample_tables.versions ≡ some x)
    × (is_in review (version_transitions x.status) ≡ true)
    × (validate_brain_version_config sample_numbers (config_of x) ≡ [])
    × All (IsValidRule sample_numbers) (version_rules x.id sample_tables.rules)
    × (record x { status = review } ≡ sample_version 2 review)
unfolding check_transition validate_brain_version_full rules_errors validate_rule_data get_rule_type
    registry same_text fields_errors lookup validate_brain_version_config config_of
check_transition-review_example =
    check_transition-review sample_numbers 2 (sample_version 2 review) sample_tables refl

-- A version with prices alone.
abbrev priced_config : Area → Value
priced_config pricing = object floor_data
priced_config _ = null

abbrev priced_version : Version
priced_version = record (sample_version 0 active) { config = priced_config }

abbrev priced_fields : Fields
priced_fields = field (codes "pricing") (object floor_data) end

abbrev copied : Version
copied = new_version 5 priced_fields sample_tables

create_version-config_of_example :
    (copied.status ≡ draft)
    × (copied.brain_id ≡ sample_brain.id)
    × ((a : Area) → copied.config a ≡ priced_config a)
unfolding config_of check_create validate_brain_version_config same_text lookup
create_version-config_of_example =
    create_version-config_of sample_numbers priced_version copied priced_fields 5 sample_tables
      (create_version sample_numbers 5 priced_fields sample_tables).1 refl refl
