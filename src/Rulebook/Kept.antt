-- ===== src/Rulebook/Kept.antt =====
-- A sequence of requests of any kind keeps the configuration and the rules of a sealed version.
use fielded_online.Common.{
  ℕ, ◌≡◌, refl, ◌∙◌, true, false, List, [], ◌∷◌, Option, none, some, same, ◌==◌,
}
use fielded_online.Status.Versions.{version_status_enum, approved, active, superseded}
use fielded_online.Rulebook.Validation.{Numbers}
use fielded_online.Rulebook.Rows.{Tables, Version, StoredRule, Brain, version_row, version_rules}
use fielded_online.Rulebook.Service.{
  activate_version, check_activate, write_activation, supersede_other, activate_approved,
  save_status,
}
use fielded_online.Rulebook.Operations.{committed, Operation, run, run_all}
use fielded_online.Rulebook.Checked.{is_sealed}
use fielded_online.Rulebook.Committed.{committed-save_with}
use fielded_online.Rulebook.Sealed.{
  IsKept, status-IsKept, Keeps-self, create-Keeps, transition-Keeps, config-Keeps, add-Keeps,
  change-Keeps, delete-Keeps, approve-Keeps,
}

module _ (i : ℕ) (v : Version) (rules : List StoredRule) where
  supersede_other-IsKept :
      (j : ℕ) (current : Option Version) (s : Tables)
      → IsKept i v rules s
      → IsKept i v rules (supersede_other j current s)
  supersede_other-IsKept j none s k = k
  supersede_other-IsKept j (some current) s k =
      elim (current.id == j)
        as (λ b.
          IsKept i v rules (elim b [ true ↦ s | false ↦ save_status current.id superseded s ])) [
            | true ↦ k
            | false ↦ status-IsKept i current.id v rules superseded s refl k
          ]

  activate_approved-IsKept :
      (w : Version) (s : Tables) → IsKept i v rules s → IsKept i v rules (activate_approved w s)
  activate_approved-IsKept w s k =
      elim (same w.status approved)
        as (λ b. IsKept i v rules (elim b [ true ↦ save_status w.id active s | false ↦ s ])) [
          | true ↦ status-IsKept i w.id v rules active s refl k
          | false ↦ k
        ]

  write_activation-IsKept :
      (j : ℕ) (a : Brain × Version × Option Version) (s : Tables)
      → IsKept i v rules s
      → IsKept i v rules (write_activation j a s)
  write_activation-IsKept j (brain, version, current) s k =
      let kept =
        activate_approved-IsKept version (supersede_other j current s)
          (supersede_other-IsKept j current s k) in
      record {
        row = kept.row;
        found = kept.found;
        config = kept.config;
        sealed = kept.sealed;
        same_rules = kept.same_rules;
      }

  activate-IsKept :
      (business j : ℕ) (s : Tables)
      → IsKept i v rules s
      → IsKept i v rules (committed (activate_version business j) s)
  activate-IsKept business j s k =
      committed-save_with (IsKept i v rules) s (check_activate business j s) (write_activation j) k
        (λ a e. write_activation-IsKept j a s k)

module _ (numbers : Numbers) (i : ℕ) where
  module _ (v : Version) (s : Tables) (found : version_row i s.versions ≡ some v)
      (sealed : is_sealed v.status ≡ true) where
    run-IsKept : (op : Operation) → IsKept i v (version_rules i s.rules) (run numbers op s)
    unfolding run
    run-IsKept (Operation.create brain config) =
        create-Keeps numbers i v s found sealed brain config
    run-IsKept (Operation.move j target) = transition-Keeps numbers i v s found sealed j target
    run-IsKept (Operation.configure j config) = config-Keeps numbers i v s found sealed j config
    run-IsKept (Operation.add j rule_type name fields priority) =
        add-Keeps numbers i v s found sealed j rule_type name fields priority
    run-IsKept (Operation.change j u) = change-Keeps numbers i v s found sealed j u
    run-IsKept (Operation.delete j) = delete-Keeps numbers i v s found sealed j
    run-IsKept (Operation.approve j role is_author) =
        approve-Keeps numbers i v s found sealed j role is_author
    run-IsKept (Operation.activate business j) =
        activate-IsKept i v (version_rules i s.rules) business j s
          (Keeps-self numbers i v s found sealed)

  run_all-IsKept_step :
      (v : Version) (rules : List StoredRule) (ops : List Operation) (s : Tables)
      → IsKept i v rules s
      → IsKept i v rules (run_all numbers ops s)
  unfolding run_all
  run_all-IsKept_step v rules [] s k = k
  run_all-IsKept_step v rules (op ∷ ops) s k =
      let k₁ = run-IsKept k.row s k.found k.sealed op in
      run_all-IsKept_step v rules ops (run numbers op s) (record {
        row = k₁.row;
        found = k₁.found;
        config = k₁.config ∙ k.config;
        sealed = k₁.sealed;
        same_rules = k₁.same_rules ∙ k.same_rules;
      })

  -- From its approval on, and through any sequence of requests, refused ones included, a version is
  -- there, with the configuration and the list of rules that it has, and its status is approved, active
  -- or superseded.
  pub run_all-IsKept :
      (v : Version) (s : Tables) (ops : List Operation)
      → version_row i s.versions ≡ some v
      → is_sealed v.status ≡ true
      → IsKept i v (version_rules i s.rules) (run_all numbers ops s)
  run_all-IsKept v s ops found sealed =
      run_all-IsKept_step v (version_rules i s.rules) ops s (Keeps-self numbers i v s found sealed)
