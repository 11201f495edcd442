-- ===== src/Brain/Conditions.antt =====
-- ConditionEvaluator: the conditions of a rule on a transaction's context. `none` is an exception
-- that no operator catches.
use fielded_online.Common.{
  Bool, true, false, not, ◌&&◌, ◌||◌, List, [], ◌∷◌, Option, none, some, if◌then◌else◌,
}
use fielded_online.Brain.Values.{
  Text, Value, Values, null, boolean, number, text, array, object, nil, cons, Python, Conversion,
  converted, refused, raises, starts_with, ends_with, contains, split, get_value,
}

-- The operators' strings; `unknown` is any other.
pub data Operator : Type 0 where
  is_empty is_not_empty equals not_equals greater_than less_than : Operator
  greater_than_or_equal less_than_or_equal is_in not_in has between : Operator
  matches_regex begins finishes unknown : Operator

-- A missing key is the empty text, or null.
pub record Condition : Type 0 where
  pub path : Text
  pub operator : Operator
  pub expected : Value

-- `actual is None or actual == "" or actual == []`
abbrev pub is_blank : Value → Bool
is_blank null = true
is_blank (boolean b) = false
is_blank (number n) = false
is_blank (text []) = true
is_blank (text (c ∷ s)) = false
is_blank (array nil) = true
is_blank (array (cons v vs)) = false
is_blank (object fields) = false

abbrev pub is_null : Value → Bool
is_null null = true
is_null (boolean b) = false
is_null (number n) = false
is_null (text t) = false
is_null (array values) = false
is_null (object fields) = false

module _ (py : Python) where
  -- `actual in values`
  unfoldable pub is_among : Value → Values → Bool
  is_among actual nil = false
  is_among actual (cons v vs) = py.eq actual v || is_among actual vs

  unfoldable pub is_part : Value → List Text → Bool
  is_part actual [] = false
  is_part actual (part ∷ parts) = py.eq actual (text part) || is_part actual parts

  -- _to_float(actual, None) is not None and test(_to_float(actual, 0), _to_float(expected, 0))
  abbrev pub compared_with :
      (py.Float → py.Float → Bool) → py.Float → Conversion py.Float → Option Bool
  compared_with test a (converted b) = some (test a b)
  compared_with test a refused = some (test a py.float_zero)
  compared_with test a raises = none

  abbrev pub compared :
      (py.Float → py.Float → Bool) → Conversion py.Float → Conversion py.Float → Option Bool
  compared test (converted a) b = compared_with test a b
  compared test refused b = some false
  compared test raises b = none

  -- lo <= a <= hi, when all three are numbers.
  abbrev pub is_within :
      Conversion py.Float → Conversion py.Float → Conversion py.Float → Option Bool
  is_within raises lo hi = none
  is_within (converted a) raises hi = none
  is_within refused raises hi = none
  is_within (converted a) (converted lo) raises = none
  is_within (converted a) refused raises = none
  is_within refused (converted lo) raises = none
  is_within refused refused raises = none
  is_within (converted a) (converted lo) (converted hi) =
      some (py.float_le lo a && py.float_le a hi)
  is_within (converted a) (converted lo) refused = some false
  is_within (converted a) refused (converted hi) = some false
  is_within (converted a) refused refused = some false
  is_within refused (converted lo) (converted hi) = some false
  is_within refused (converted lo) refused = some false
  is_within refused refused (converted hi) = some false
  is_within refused refused refused = some false

  unfoldable pub is_between : Value → Value → Option Bool
  is_between actual (array (cons lo (cons hi nil))) =
      is_within (py.float actual) (py.float lo) (py.float hi)
  is_between actual _ = some false

  -- The operators `in` and `not_in`: membership, or the answer when there is nothing to look in.
  unfoldable pub is_member : Value → Value → Bool → Bool
  unfolding is_among is_part split
  is_member actual (array values) otherwise = is_among actual values
  is_member actual (text t) otherwise = is_part actual (split b',' t)
  is_member actual _ otherwise = otherwise

  abbrev pub is_in_text : Value → Value → Bool
  is_in_text (text s) expected = contains s (py.str expected)
  is_in_text _ expected = false

  -- A pattern that is not a regular expression matches nothing.
  abbrev pub or_false : Option Bool → Bool
  or_false none = false
  or_false (some b) = b

  -- The operators from "equals" on, for a value that is there.
  unfoldable pub apply_to : Value → Operator → Value → Option Bool
  apply_to actual is_empty expected = some (is_blank actual)
  apply_to actual is_not_empty expected = some (not (is_blank actual))
  apply_to actual equals expected = some (py.eq actual expected)
  apply_to actual not_equals expected = some (not (py.eq actual expected))
  apply_to actual greater_than expected =
      compared (λ a b. py.float_lt b a) (py.float actual) (py.float expected)
  apply_to actual less_than expected = compared py.float_lt (py.float actual) (py.float expected)
  apply_to actual greater_than_or_equal expected =
      compared (λ a b. py.float_le b a) (py.float actual) (py.float expected)
  apply_to actual less_than_or_equal expected =
      compared py.float_le (py.float actual) (py.float expected)
  apply_to actual is_in expected = some (is_member actual expected false)
  apply_to actual not_in expected = some (not (is_member actual expected false))
  apply_to actual has expected = some (is_in_text actual expected)
  apply_to actual between expected = is_between actual expected
  apply_to actual matches_regex expected =
      some (or_false (py.search (py.str expected) (py.str actual)))
  apply_to actual begins expected = some (starts_with (py.str actual) (py.str expected))
  apply_to actual finishes expected = some (ends_with (py.str actual) (py.str expected))
  apply_to actual unknown expected = some false

  -- _apply_operator: a missing value matches only "is_empty".
  unfoldable pub apply_operator : Value → Operator → Value → Option Bool
  apply_operator actual is_empty expected = some (is_blank actual)
  apply_operator actual is_not_empty expected = some (not (is_blank actual))
  apply_operator actual operator expected =
      if is_null actual then some false else apply_to actual operator expected

  -- _evaluate_single
  unfoldable pub evaluate_single : Value → Condition → Option Bool
  evaluate_single context_data cond =
      apply_operator (get_value cond.path context_data) cond.operator cond.expected

  -- `all(...)` stops at the first condition that fails, so that a later one cannot raise.
  abbrev and_then : Option Bool → Option Bool → Option Bool
  and_then (some true) rest = rest
  and_then (some false) rest = some false
  and_then none rest = none

  -- ConditionEvaluator.evaluate
  unfoldable pub evaluate_conditions : Value → List Condition → Option Bool
  evaluate_conditions context_data [] = some true
  evaluate_conditions context_data (cond ∷ conds) =
      and_then (evaluate_single context_data cond) (evaluate_conditions context_data conds)

-- get_required_fields: the paths, other than the empty one, at which there is nothing.
abbrev pub is_missing : Value → Text → Bool
is_missing context_data [] = false
is_missing context_data (c ∷ s) = is_null (get_value (c ∷ s) context_data)

unfoldable pub get_required_fields : List Condition → Value → List Text
get_required_fields [] context_data = []
get_required_fields (cond ∷ conds) context_data =
    if is_missing context_data cond.path
    then cond.path ∷ get_required_fields conds context_data
    else get_required_fields conds context_data
