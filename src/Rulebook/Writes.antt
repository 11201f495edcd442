-- ===== src/Rulebook/Writes.antt =====
-- What the writes of a row do to the rows that are found.
use fielded_online.Common.{
  ℕ, ◌≡◌, refl, sym, ap, ◌∙◌, Bool, false, List, [], ◌∷◌, ◌++◌, some, find, find-some, ◌==◌,
  if◌then◌else◌, arith,
}
use fielded_online.Status.Versions.{BrainVersionStatus, version_status_enum}
use fielded_online.Rulebook.Rows.{
  Tables, Version, StoredRule, version_row, version_rules, put_version, put_status, put_rule,
  is_rule,
}
use fielded_online.Rulebook.Checked.{find_rule}

-- A row of a version after a row was written.
abbrev pub written : Version → Version → Version
written w v = if v.id == w.id then w else v

pub version_row-put_version :
    (i : ℕ) (w v : Version) (xs : List Version)
    → version_row i xs ≡ some v
    → version_row i (put_version w xs) ≡ some (written w v)
unfolding put_version
version_row-put_version i w v [] h = cc
version_row-put_version i w v (x ∷ xs) h = ground (arith, version_row-put_version i w v xs)

pub find-append :
    {A : Type 0} (p : A → Bool) (xs ys : List A) (x : A)
    → find p xs ≡ some x
    → find p (xs ++ ys) ≡ some x
find-append p [] ys x h = cc
find-append p (z ∷ xs) ys x h = ground (arith, find-append p xs ys x)

pub version_rules-put_rule :
    (i : ℕ) (r x : StoredRule) (xs : List StoredRule)
    → find (is_rule r.id) xs ≡ some x
    → (x.brain_version_id == i) ≡ false
    → (r.brain_version_id == i) ≡ false
    → version_rules i (put_rule r xs) ≡ version_rules i xs
unfolding put_rule
version_rules-put_rule i r x [] h e f = refl
version_rules-put_rule i r x (y ∷ xs) h e f = ground (arith, version_rules-put_rule i r x xs)

pub version_rules-append :
    (i : ℕ) (r : StoredRule) (xs : List StoredRule)
    → (r.brain_version_id == i) ≡ false
    → version_rules i (xs ++ (r ∷ [])) ≡ version_rules i xs
version_rules-append i r [] e = rw e refl
version_rules-append i r (y ∷ xs) e = ground (arith, version_rules-append i r xs e)

pub find-put_status :
    (i j : ℕ) (t : BrainVersionStatus) (v : Version) (xs : List Version)
    → version_row i xs ≡ some v
    → version_row i (put_status j t xs) ≡ some (if v.id == j then record v { status = t } else v)
unfolding put_status
find-put_status i j t v [] h = cc
find-put_status i j t v (x ∷ xs) h = ground (arith, find-put_status i j t v xs)

-- A rule that an id finds is found by its own id.
pub find_rule-own :
    (s : Tables) (j : ℕ) (r : StoredRule)
    → find_rule j s ≡ some r
    → find (is_rule r.id) s.rules ≡ some r
find_rule-own s j r f =
    let hit = find-some (is_rule j) s.rules r f in
    let same_id : j ≡ r.id = ground arith in ap (λ k. find (is_rule k) s.rules) (sym same_id) ∙ f
