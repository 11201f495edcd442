-- ===== src/Brain/Conflicts.antt =====
-- Conflicts are found whatever the order of the rules: the grouping by type loses no pair.
use mathlib.Core.List.{append-nil}
use fielded_online.Common.{
  ℕ, ◌≡◌, refl, sym, ap, ◌∙◌, Bool, false, not, ◌&&◌, ◌||◌, List, [], ◌∷◌, ◌++◌, map, ◌==◌, select,
  any, if◌then◌else◌, arith,
}
use fielded_online.Brain.Evaluator.{
  MatchedRule, Outcome, outcomes_conflict, rule_conflict, insert_by_type, group_by_type,
  conflicts_within, conflicts_of, detect_conflicts, is_empty,
}

abbrev clash_in_group : MatchedRule → MatchedRule → Bool
clash_in_group a b = outcomes_conflict a.outcome b.outcome

-- Two rules of one type with contradictory outcomes.
abbrev pub clash : MatchedRule → MatchedRule → Bool
clash a b = (a.rule_type == b.rule_type) && clash_in_group a b

unfoldable pub clashes : List MatchedRule → Bool
clashes [] = false
clashes (a ∷ ms) = any (clash a) ms || clashes ms

pub outcomes_conflict_comm : (a b : Outcome) → outcomes_conflict a b ≡ outcomes_conflict b a
outcomes_conflict_comm a b = ground arith

pub clash_comm : (a b : MatchedRule) → clash a b ≡ clash b a
clash_comm a b = ground (arith, outcomes_conflict_comm a.outcome b.outcome)

-- The clashes inside one group, and inside every group.
clashes_within : List MatchedRule → Bool
clashes_within [] = false
clashes_within (a ∷ ms) = any (clash_in_group a) ms || clashes_within ms

clashes_of : List (ℕ × List MatchedRule) → Bool
clashes_of [] = false
clashes_of ((t, rules) ∷ groups) = clashes_within rules || clashes_of groups

is_empty-append :
    {A : Type 0} (xs ys : List A)
    → not (is_empty (xs ++ ys)) ≡ (not (is_empty xs) || not (is_empty ys))
is_empty-append [] ys = refl
is_empty-append (x ∷ xs) ys = refl

is_empty-map-select :
    {A B : Type 0} (f : A → B) (p : A → Bool) (xs : List A)
    → not (is_empty (map f (select p xs))) ≡ any p xs
is_empty-map-select f p [] = refl
is_empty-map-select f p (x ∷ xs) = ground (arith, is_empty-map-select f p xs)

conflicts_within-clashes :
    (rules : List MatchedRule) → not (is_empty (conflicts_within rules)) ≡ clashes_within rules
unfolding conflicts_within clashes_within
conflicts_within-clashes [] = refl
conflicts_within-clashes (a ∷ rules) =
    rw
      (
        is_empty-append _ (conflicts_within rules),
        is_empty-map-select (rule_conflict a) (clash_in_group a) rules,
        conflicts_within-clashes rules,
      )
      refl

conflicts_of-clashes :
    (groups : List (ℕ × List MatchedRule))
    → not (is_empty (conflicts_of groups)) ≡ clashes_of groups
unfolding conflicts_of clashes_of
conflicts_of-clashes [] = refl
conflicts_of-clashes ((t, rules) ∷ groups) =
    rw
      (
        is_empty-append (conflicts_within rules) _,
        conflicts_within-clashes rules,
        conflicts_of-clashes groups,
      )
      refl

-- The rules of a type, among the groups.
group_of : ℕ → List (ℕ × List MatchedRule) → List MatchedRule
group_of t [] = []
group_of t ((u, rules) ∷ groups) = if u == t then rules else group_of t groups

any-append :
    {A : Type 0} (p : A → Bool) (xs ys : List A) → any p (xs ++ ys) ≡ (any p xs || any p ys)
any-append p [] ys = refl
any-append p (x ∷ xs) ys = ground (arith, any-append p xs ys)

clashes_within-snoc :
    (rules : List MatchedRule) (m : MatchedRule)
    → clashes_within (rules ++ (m ∷ [])) ≡ (clashes_within rules || any (clash_in_group m) rules)
unfolding clashes_within
clashes_within-snoc [] m = refl
clashes_within-snoc (a ∷ rules) m = ground (
  arith,
  any-append (clash_in_group a) rules (m ∷ []),
  clashes_within-snoc rules m,
  outcomes_conflict_comm a.outcome m.outcome,
)

clashes-snoc :
    (done : List MatchedRule) (m : MatchedRule)
    → clashes (done ++ (m ∷ [])) ≡ (clashes done || any (clash m) done)
unfolding clashes
clashes-snoc [] m = refl
clashes-snoc (a ∷ done) m =
    ground (arith, any-append (clash a) done (m ∷ []), clashes-snoc done m, clash_comm a m)

clashes_of-insert :
    (m : MatchedRule) (groups : List (ℕ × List MatchedRule))
    → clashes_of (insert_by_type m groups)
      ≡ (clashes_of groups || any (clash_in_group m) (group_of m.rule_type groups))
unfolding clashes_of insert_by_type group_of clashes_within
clashes_of-insert m [] = refl
clashes_of-insert m ((t, rules) ∷ groups) =
    ground (arith, clashes_within-snoc rules m, clashes_of-insert m groups)

group_of-insert :
    (t : ℕ) (m : MatchedRule) (groups : List (ℕ × List MatchedRule))
    → group_of t (insert_by_type m groups)
      ≡ (if m.rule_type == t then group_of t groups ++ (m ∷ []) else group_of t groups)
unfolding insert_by_type group_of
group_of-insert t m [] = ground arith
group_of-insert t m ((u, rules) ∷ groups) = ground (arith, group_of-insert t m groups)

abbrev of_type : ℕ → MatchedRule → Bool
of_type t m = m.rule_type == t

select-append_one :
    {A : Type 0} (p : A → Bool) (xs : List A) (x : A)
    → select p (xs ++ (x ∷ [])) ≡ (if p x then select p xs ++ (x ∷ []) else select p xs)
select-append_one p [] x = refl
select-append_one p (y ∷ ys) x = ground (arith, select-append_one p ys x)

any-select-clash :
    (m : MatchedRule) (done : List MatchedRule)
    → any (clash_in_group m) (select (of_type m.rule_type) done) ≡ any (clash m) done
any-select-clash m [] = refl
any-select-clash m (a ∷ done) = ground (arith, any-select-clash m done)

append_one-append :
    {A : Type 0} (xs : List A) (x : A) (ys : List A) → (xs ++ (x ∷ [])) ++ ys ≡ xs ++ (x ∷ ys)
append_one-append [] x ys = refl
append_one-append (y ∷ xs) x ys = cc (append_one-append xs x ys)

-- The groups hold the rules that were inserted, each under its type.
abbrev Holds : List MatchedRule → List (ℕ × List MatchedRule) → Type 0
Holds done groups = (t : ℕ) → group_of t groups ≡ select (of_type t) done

Holds-insert :
    (m : MatchedRule) (done : List MatchedRule) (groups : List (ℕ × List MatchedRule))
    → Holds done groups
    → Holds (done ++ (m ∷ [])) (insert_by_type m groups)
Holds-insert m done groups h t =
    group_of-insert t m groups ∙ (rw (h t) refl) ∙ sym (select-append_one (of_type t) done m)

clashes_of-group_by_type :
    (ms done : List MatchedRule) (groups : List (ℕ × List MatchedRule))
    → Holds done groups
    → clashes_of groups ≡ clashes done
    → clashes_of (group_by_type ms groups) ≡ clashes (done ++ ms)
unfolding group_by_type
clashes_of-group_by_type [] done groups h e = e ∙ ap clashes (sym (append-nil done))
clashes_of-group_by_type (m ∷ ms) done groups h e =
    let next : clashes_of (insert_by_type m groups) ≡ clashes (done ++ (m ∷ [])) =
      rw (clashes_of-insert m groups, e, h m.rule_type, any-select-clash m done)
        (sym (clashes-snoc done m)) in
    clashes_of-group_by_type ms (done ++ (m ∷ [])) (insert_by_type m groups)
      (Holds-insert m done groups h) next
    ∙ ap clashes (append_one-append done m ms)

pub detect_conflicts-clashes :
    (ms : List MatchedRule) → not (is_empty (detect_conflicts ms)) ≡ clashes ms
unfolding detect_conflicts clashes_of clashes group_of
detect_conflicts-clashes ms =
    conflicts_of-clashes (group_by_type ms []) ∙ clashes_of-group_by_type ms [] [] (λ t. refl) refl
