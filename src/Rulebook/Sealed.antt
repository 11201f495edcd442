-- ===== src/Rulebook/Sealed.antt =====
-- From its approval on, a version keeps its configuration and its rules.
use fielded_online.Common.{
  ℕ, ◌≡◌, refl, sym, ap, ◌∙◌, inl, inr, Bool, true, false, List, [], ◌∷◌, ◌++◌, some, find-some,
  ◌==◌, Bool-cases, arith,
}
use mathlib.Core.Path.{subst}
use fielded_online.Status.Versions.{
  BrainVersionStatus, version_status_enum, approved, BusinessMemberRole,
}
use fielded_online.Brain.Values.{Text, Fields}
use fielded_online.Rulebook.Validation.{Numbers}
use fielded_online.Rulebook.Rows.{Tables, Version, StoredRule, version_row, version_rules, put_rule}
use fielded_online.Rulebook.Service.{
  create_version, transition_version, update_version_config, approve_version, updated_config,
  save_version, save_status, insert_version, check_create, check_transition, check_config,
  check_approve,
}
use fielded_online.Rulebook.RuleService.{
  Updates, add_rule, update_rule, delete_rule, updated_rule, save_rule, insert_rule, check_rule,
  check_update, check_delete,
}
use fielded_online.Rulebook.Operations.{committed}
use fielded_online.Rulebook.Checked.{
  is_sealed, IsOpen, find_rule, version_transitions-sealed, check_transition-eq-ok,
  check_config-eq-ok, check_rule-eq-ok, check_update-eq-ok, check_delete-eq-ok, check_approve-eq-ok,
}
use fielded_online.Rulebook.Writes.{
  version_row-put_version, find-append, version_rules-put_rule, version_rules-append, find_rule-own,
  find-put_status,
}
use fielded_online.Rulebook.Committed.{committed-save_with}

-- The version is still there and sealed, with the configuration and the rules of before.
pub record IsKept (i : ℕ) (v : Version) (rules : List StoredRule) (s : Tables) : Type 0 where
  pub row : Version
  pub found : version_row i s.versions ≡ some row
  pub config : row.config ≡ v.config
  pub sealed : is_sealed row.status ≡ true
  pub same_rules : version_rules i s.rules ≡ rules

-- The status of a version is set: a sealed one stays sealed.
pub status-IsKept :
    (i j : ℕ) (v : Version) (rules : List StoredRule) (t : BrainVersionStatus) (s : Tables)
    → is_sealed t ≡ true
    → IsKept i v rules s
    → IsKept i v rules (save_status j t s)
status-IsKept i j v rules t s h k =
    let at_row = find-put_status i j t k.row s.versions k.found in
    elim (Bool-cases (k.row.id == j)) [
      | inl hit ↦ record {
        row = record k.row { status = t };
        found = rw hit at at_row;
        config = k.config;
        sealed = h;
        same_rules = k.same_rules;
      }
      | inr miss ↦ record {
        row = k.row;
        found = rw miss at at_row;
        config = k.config;
        sealed = k.sealed;
        same_rules = k.same_rules;
      }
    ]

module _ (numbers : Numbers) (i : ℕ) (v : Version) (s : Tables)
    (found : version_row i s.versions ≡ some v) (sealed : is_sealed v.status ≡ true) where
  abbrev pub Keeps : Tables → Type 0
  Keeps = IsKept i v (version_rules i s.rules)

  pub Keeps-self : Keeps s
  Keeps-self = record { row = v; found = found; config = refl; sealed = sealed; same_rules = refl }

  Keeps-written :
      (w : Version)
      → ((v.id == w.id) ≡ true → (w.config ≡ v.config) × (is_sealed w.status ≡ true))
      → Keeps (save_version w s)
  Keeps-written w h =
      let at_row = version_row-put_version i w v s.versions found in
      elim (Bool-cases (v.id == w.id)) [
        | inl hit ↦
            let (c, d) = h hit in
            record { row = w; found = rw hit at at_row; config = c; sealed = d; same_rules = refl }
        | inr miss ↦ record {
          row = v;
          found = rw miss at at_row;
          config = refl;
          sealed = sealed;
          same_rules = refl;
        }
      ]

  -- A version that is loaded by an id, and has the id of the row, is the row.
  loaded-same :
      (j : ℕ) (w : Version) → version_row j s.versions ≡ some w → (v.id == w.id) ≡ true → w ≡ v
  loaded-same j w h e =
      let at_w = find-some (λ x. x.id == j) s.versions w h in
      let at_v = find-some (λ x. x.id == i) s.versions v found in
      let same_id : j ≡ i = ground arith in
      let both : some w ≡ some v = sym h ∙ ap (λ k. version_row k s.versions) same_id ∙ found in
      cc both

  pub create-Keeps :
      (brain : ℕ) (config : Fields) → Keeps (committed (create_version numbers brain config) s)
  create-Keeps brain config =
      committed-save_with Keeps s (check_create numbers brain config s) insert_version Keeps-self
        (λ w e. record {
          row = v;
          found = find-append (λ x. x.id == i) s.versions (w ∷ []) v found;
          config = refl;
          sealed = sealed;
          same_rules = refl;
        })

  -- A loaded version is written back: it counts if it is the row.
  Keeps-rewritten :
      (j : ℕ) (x w : Version)
      → version_row j s.versions ≡ some x
      → w.id ≡ x.id
      → (x ≡ v → (w.config ≡ v.config) × (is_sealed w.status ≡ true))
      → Keeps (save_version w s)
  Keeps-rewritten j x w f e h = Keeps-written w (λ hit. h (loaded-same j x f (rw e at hit)))

  open-apart : {j : ℕ} (x : IsOpen j s) → x.row ≡ v → ⊥
  open-apart x e =
      let closed : is_sealed x.row.status ≡ true = ap (λ u. is_sealed u.status) e ∙ sealed in cc

  -- A version that is loaded and open is another one.
  open-other : (j : ℕ) (x : IsOpen j s) → (j == i) ≡ false
  open-other j x = elim (Bool-cases (j == i)) [
    | inl hit ↦
        let same_id : j ≡ i = ground arith in
        let both : some x.row ≡ some v =
          sym x.found ∙ ap (λ k. version_row k s.versions) same_id ∙ found in
        absurd (open-apart x (cc both))
    | inr miss ↦ miss
  ]

  pub transition-Keeps :
      (j : ℕ) (target : BrainVersionStatus)
      → Keeps (committed (transition_version numbers j target) s)
  transition-Keeps j target =
      committed-save_with Keeps s (check_transition numbers j target s) save_version Keeps-self
        (λ w h.
          let (x, f, allowed, made) = check_transition-eq-ok numbers s j target w h in
          subst (λ w. Keeps (save_version w s)) made
            (Keeps-rewritten j x (record x { status = target }) f refl
              (λ own. (
                ap (λ u. u.config) own,
                version_transitions-sealed x.status target
                    (ap (λ u. is_sealed u.status) own ∙ sealed) allowed,
              ))))

  pub config-Keeps :
      (j : ℕ) (config : Fields) → Keeps (committed (update_version_config numbers j config) s)
  config-Keeps j config =
      committed-save_with Keeps s (check_config numbers j config s) save_version Keeps-self (λ w h.
        let (x, made) = check_config-eq-ok numbers s j config w h in
        subst (λ w. Keeps (save_version w s)) made
          (Keeps-rewritten j x.row (updated_config config x.row) x.found refl
            (λ own. absurd (open-apart x own))))

  pub approve-Keeps :
      (j : ℕ) (role : BusinessMemberRole) (is_author : Bool)
      → Keeps (committed (approve_version j role is_author) s)
  approve-Keeps j role is_author =
      committed-save_with Keeps s (check_approve j role is_author s) save_version Keeps-self (λ w h.
        let (x, made) = check_approve-eq-ok numbers s j role is_author w h in
        subst (λ w. Keeps (save_version w s)) made
          (Keeps-rewritten j x.row (record x.row { status = approved }) x.found refl
            (λ own. absurd (open-apart x own))))

  -- The rules are written, and the rules of the version are those of before.
  Keeps-rules :
      (rules : List StoredRule)
      → version_rules i rules ≡ version_rules i s.rules
      → Keeps (record s { rules = rules })
  Keeps-rules rules e = record {
    row = v;
    found = found;
    config = refl;
    sealed = sealed;
    same_rules = e;
  }

  pub add-Keeps :
      (j : ℕ) (rule_type name : Text) (fields : Fields) (priority : ℕ)
      → Keeps (committed (add_rule numbers j rule_type name fields priority) s)
  add-Keeps j rule_type name fields priority =
      committed-save_with Keeps s (check_rule numbers j rule_type name fields priority s)
        insert_rule Keeps-self
        (λ r h.
          let (x, e) = check_rule-eq-ok numbers s j rule_type name fields priority r h in
          Keeps-rules (s.rules ++ (r ∷ []))
            (version_rules-append i r s.rules (ap (λ k. k == i) e ∙ open-other j x)))

  -- A rule of an open version is written back, with the version that it had.
  Keeps-rule :
      (j : ℕ) (x r : StoredRule)
      → find_rule j s ≡ some x
      → IsOpen x.brain_version_id s
      → r.id ≡ x.id
      → r.brain_version_id ≡ x.brain_version_id
      → Keeps (save_rule r s)
  Keeps-rule j x r f open_row e own =
      let other = open-other x.brain_version_id open_row in
      Keeps-rules (put_rule r s.rules)
        (version_rules-put_rule i r x s.rules (rw e (find_rule-own s j x f)) other (rw own other))

  pub change-Keeps : (j : ℕ) (u : Updates) → Keeps (committed (update_rule numbers j u) s)
  change-Keeps j u =
      committed-save_with Keeps s (check_update numbers j u s) save_rule Keeps-self (λ r h.
        let (x, f, open_row, made) = check_update-eq-ok numbers s j u r h in
        subst (λ r. Keeps (save_rule r s)) made
          (Keeps-rule j x (updated_rule u x) f open_row refl refl))

  pub delete-Keeps : (j : ℕ) → Keeps (committed (delete_rule j) s)
  delete-Keeps j = committed-save_with Keeps s (check_delete j s) save_rule Keeps-self (λ r h.
      let (x, f, open_row, made) = check_delete-eq-ok s j r h in
      subst (λ r. Keeps (save_rule r s)) made
        (Keeps-rule j x (record x { is_deleted = true }) f open_row refl refl))
