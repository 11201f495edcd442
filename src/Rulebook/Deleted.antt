-- ===== src/Rulebook/Deleted.antt =====
-- A deleted rule is still among the rules that its version is validated and evaluated with.
use fielded_online.Common.{
  ℕ, ◌≡◌, refl, sym, ap, ◌∙◌, Bool, true, List, [], ◌∷◌, map, some, find, arith,
}
use fielded_online.Common.Outcome.{ok}
use fielded_online.Brain.Values.{Text, Value}
use fielded_online.Rulebook.Rows.{Tables, StoredRule, is_rule, version_rules, put_rule}
use fielded_online.Rulebook.RuleService.{delete_rule, check_delete, save_rule}
use fielded_online.Rulebook.Checked.{check_delete-eq-ok}
use fielded_online.Rulebook.Writes.{find_rule-own}
use fielded_online.Rulebook.Committed.{save_with-eq-ok}

-- What a validation, a price and an availability read of the rules.
abbrev pub read_data : List StoredRule → List (Text × Value × Bool)
read_data rules = map (λ r. (r.rule_type, r.rule_data, r.is_active)) rules

-- A row is written back with the version, the type, the data and the flag of before.
read_data-put_rule :
    (i : ℕ) (r x : StoredRule) (xs : List StoredRule)
    → find (is_rule r.id) xs ≡ some x
    → r.brain_version_id ≡ x.brain_version_id
    → r.rule_type ≡ x.rule_type
    → r.rule_data ≡ x.rule_data
    → r.is_active ≡ x.is_active
    → read_data (version_rules i (put_rule r xs)) ≡ read_data (version_rules i xs)
unfolding put_rule
read_data-put_rule i r x [] h e f g k = refl
read_data-put_rule i r x (y ∷ xs) h e f g k = ground (arith, read_data-put_rule i r x xs)

-- When a rule is deleted, its row is marked, and every version reads the same types, data and flags of
-- rules as before.
pub delete_rule-read_data :
    (i j : ℕ) (s s' : Tables) (r : StoredRule)
    → delete_rule i s ≡ (ok r, s')
    → (r.is_deleted ≡ true)
      × (read_data (version_rules j s'.rules) ≡ read_data (version_rules j s.rules))
delete_rule-read_data i j s s' r h =
    let (checked, made) = save_with-eq-ok (check_delete i s) save_rule s r s' h in
    let (x, f, open_row, marked) = check_delete-eq-ok s i r checked in
    let same_data =
      read_data-put_rule j (record x { is_deleted = true }) x s.rules (find_rule-own s i x f) refl
        refl refl refl in
    (
      ap (λ r. r.is_deleted) (sym marked),
      ap (λ s. read_data (version_rules j s.rules)) (sym made)
          ∙ ap (λ r. read_data (version_rules j (put_rule r s.rules))) (sym marked)
          ∙ same_data,
    )
