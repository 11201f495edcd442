-- ===== src/Rulebook/Columns.antt =====
-- The columns of a version and its configuration as a dictionary.
use fielded_online.Common.{
  ℕ, ◌≡◌, refl, sym, ap, ◌∙◌, Bool, true, not, ◌&&◌, Option, none, some, Bool-cases, inl, inr,
  if◌then◌else◌,
}
use fielded_online.Brain.Values.{
  Text, Value, Fields, null, boolean, number, text, array, object, end, lookup, same_text,
}
use fielded_online.Brain.Conditions.{is_null}
use fielded_online.Rulebook.Rows.{
  Area, area_key, identity, services, pricing, availability, qualification, policies, escalation,
  communication, Version, Tables,
}
use fielded_online.Rulebook.Service.{
  create_version, check_create, insert_version, no_errors, config_of, with_area, new_version,
  area_or_null,
}
use fielded_online.Rulebook.Validation.{Numbers, validate_brain_version_config}
use fielded_online.Rulebook.Committed.{save_with-eq-ok}
use fielded_online.Common.Outcome.{ok}
use fielded_online.Common.Check.{refuse-eq-ok}
use fielded_online.Status.Versions.{draft}

-- What a column adds to a lookup: nothing if the key is another one, or the column is NULL.
abbrev pick : Bool → Value → Option Value → Option Value
pick hit x rest = if hit && not (is_null x) then some x else rest

lookup-with_area :
    (key : Text) (v : Version) (a : Area) (rest : Fields)
    → lookup key (with_area v a rest)
      ≡ pick (same_text (area_key a) key) (v.config a) (lookup key rest)
unfolding lookup
lookup-with_area key v a rest = elim (Bool-cases (is_null (v.config a))) [
  | inl nothing ↦ elim (Bool-cases (same_text (area_key a) key)) [
    | inl hit ↦ rw (nothing, hit) refl
    | inr miss ↦ rw (nothing, miss) refl
  ]
  | inr there ↦ elim (Bool-cases (same_text (area_key a) key)) [
    | inl hit ↦ rw (there, hit) refl
    | inr miss ↦ rw (there, miss) refl
  ]
]

pick_alone : (x : Value) → area_or_null (pick true x none) ≡ x
pick_alone null = refl
pick_alone (boolean b) = refl
pick_alone (number n) = refl
pick_alone (text t) = refl
pick_alone (array vs) = refl
pick_alone (object fs) = refl

abbrev fields_of : Version → Fields
fields_of v = with_area v identity (
    with_area v services (
      with_area v pricing (
        with_area v availability (
          with_area v qualification
            (with_area v policies (with_area v escalation (with_area v communication end)))))))

lookup-columns :
    (key : Text) (v : Version)
    → lookup key (fields_of v)
      ≡ pick (same_text (area_key identity) key) (v.config identity) (
          pick (same_text (area_key services) key) (v.config services) (
            pick (same_text (area_key pricing) key) (v.config pricing) (
              pick (same_text (area_key availability) key) (v.config availability) (
                pick (same_text (area_key qualification) key) (v.config qualification) (
                  pick (same_text (area_key policies) key) (v.config policies) (
                    pick (same_text (area_key escalation) key) (v.config escalation) (
                      pick
                        (same_text (area_key communication) key)
                        (v.config communication)
                        none)))))))
unfolding lookup
lookup-columns key v = simp (lookup-with_area key v)

pick_column :
    (v : Version) (a : Area) → area_or_null (lookup (area_key a) (fields_of v)) ≡ v.config a
unfolding same_text
pick_column v identity =
    ap area_or_null (lookup-columns (area_key identity) v) ∙ pick_alone (v.config identity)
pick_column v services =
    ap area_or_null (lookup-columns (area_key services) v) ∙ pick_alone (v.config services)
pick_column v pricing =
    ap area_or_null (lookup-columns (area_key pricing) v) ∙ pick_alone (v.config pricing)
pick_column v availability =
    ap area_or_null (lookup-columns (area_key availability) v) ∙ pick_alone (v.config availability)
pick_column v qualification =
    ap area_or_null (lookup-columns (area_key qualification) v)
    ∙ pick_alone (v.config qualification)
pick_column v policies =
    ap area_or_null (lookup-columns (area_key policies) v) ∙ pick_alone (v.config policies)
pick_column v escalation =
    ap area_or_null (lookup-columns (area_key escalation) v) ∙ pick_alone (v.config escalation)
pick_column v communication =
    ap area_or_null (lookup-columns (area_key communication) v)
    ∙ pick_alone (v.config communication)

new_version-config :
    (v : Version) (fields : Fields) (brain : ℕ) (s : Tables) (a : Area)
    → config_of v ≡ object fields
    → (new_version brain fields s).config a ≡ v.config a
unfolding config_of
new_version-config v fields brain s a h =
    let same_fields : fields_of v ≡ fields = cc h in
    ap (λ f. area_or_null (lookup (area_key a) f)) (sym same_fields) ∙ pick_column v a

-- When a version is created with the configuration that another one is read as, it is a draft of the
-- given brain with the same columns.
pub create_version-config_of :
    (numbers : Numbers) (v w : Version) (fields : Fields) (brain : ℕ) (s s' : Tables)
    → config_of v ≡ object fields
    → create_version numbers brain fields s ≡ (ok w, s')
    → (w.status ≡ draft) × (w.brain_id ≡ brain) × ((a : Area) → w.config a ≡ v.config a)
unfolding check_create
create_version-config_of numbers v w fields brain s s' h e =
    let (checked, written_rows) =
      save_with-eq-ok (check_create numbers brain fields s) insert_version s w s' e in
    let (valid, made_ok) =
      refuse-eq-ok (not (no_errors (validate_brain_version_config numbers (object fields)))) _ _ w
        checked in
    let made : new_version brain fields s ≡ w = cc made_ok in
    (
      ap (λ w. w.status) (sym made),
      ap (λ w. w.brain_id) (sym made),
      λ a. ap (λ w. w.config a) (sym made) ∙ new_version-config v fields brain s a h,
    )
