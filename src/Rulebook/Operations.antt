-- ===== src/Rulebook/Operations.antt =====
-- The requests that change the tables of a brain, and a sequence of them: an exception rolls back
-- (backend/app/database.py).
use fielded_online.Common.{ℕ, Bool, List, [], ◌∷◌}
use fielded_online.Common.Outcome.{Action, Result, ok, err}
use fielded_online.Status.Versions.{BrainVersionStatus, BusinessMemberRole}
use fielded_online.Brain.Values.{Text, Fields}
use fielded_online.Rulebook.Validation.{Numbers}
use fielded_online.Rulebook.Rows.{Tables}
use fielded_online.Rulebook.Service.{
  create_version, transition_version, update_version_config, approve_version, activate_version,
}
use fielded_online.Rulebook.RuleService.{Updates, add_rule, update_rule, delete_rule}

abbrev pub kept_of : {A : Type 0} → Result A → Tables → Tables → Tables
kept_of (ok a) new old = new
kept_of (err e) new old = old

abbrev pub committed : {A : Type 0} → Action Tables A → Tables → Tables
committed m s = kept_of (m s).0 (m s).1 s

pub data Operation : Type 0 where
  create : ℕ → Fields → Operation
  move : ℕ → BrainVersionStatus → Operation
  configure : ℕ → Fields → Operation
  add : ℕ → Text → Text → Fields → ℕ → Operation
  change : ℕ → Updates → Operation
  delete : ℕ → Operation
  approve : ℕ → BusinessMemberRole → Bool → Operation
  activate : ℕ → ℕ → Operation

module _ (numbers : Numbers) where
  unfoldable pub run : Operation → Tables → Tables
  run (create brain config) s = committed (create_version numbers brain config) s
  run (move i target) s = committed (transition_version numbers i target) s
  run (configure i config) s = committed (update_version_config numbers i config) s
  run (add i rule_type name fields priority) s =
      committed (add_rule numbers i rule_type name fields priority) s
  run (change i u) s = committed (update_rule numbers i u) s
  run (delete i) s = committed (delete_rule i) s
  run (approve i role is_author) s = committed (approve_version i role is_author) s
  run (activate business i) s = committed (activate_version business i) s

  unfoldable pub run_all : List Operation → Tables → Tables
  run_all [] s = s
  run_all (op ∷ ops) s = run_all ops (run op s)
