-- ===== src/Availability/Evaluator.antt =====
-- AvailabilityEvaluator.evaluate
use fielded_online.Common.{
  ℕ, Bool, true, false, ◌&&◌, List, [], ◌∷◌, Option, none, some, if◌then◌else◌,
}
use fielded_online.Store.Lifecycle.{Booking}
use fielded_online.Brain.Values.{Value, Python}
use fielded_online.Brain.Evaluator.{is_empty}
use fielded_online.Brain.Conditions.{Condition, evaluate_conditions}
use fielded_online.Availability.Times.{DateTime}
use fielded_online.Availability.Checks.{
  RuleType, blackout_period, operating_hours, minimum_notice, maximum_advance, capacity_limit,
  concurrent_limit, slot_configuration, unlisted, RuleSettings, is_blocked,
}

-- `settings` is `none` where reading `rule_data` raises.
pub record AvailabilityRule : Type 0 where
  pub id : ℕ
  pub rule_type : RuleType
  pub is_active : Bool
  pub settings : Option RuleSettings

pub record AvailabilityResult : Type 0 where
  pub available : Bool
  pub requested_at : DateTime
  pub brain_version_id : Option ℕ
  pub matched_rules : List ℕ
  pub blocked_by : List ℕ

-- _AVAILABILITY_RULE_TYPES
abbrev pub is_availability : RuleType → Bool
is_availability blackout_period = true
is_availability operating_hours = true
is_availability minimum_notice = true
is_availability maximum_advance = true
is_availability capacity_limit = true
is_availability concurrent_limit = true
is_availability slot_configuration = true
is_availability unlisted = false

-- `if conditions and context is not None and not evaluate(...): continue`; `none` if that raises.
abbrev pub conditions_hold : Python → Option Value → List Condition → Option Bool
conditions_hold py none conds = some true
conditions_hold py (some context_data) conds = evaluate_conditions py context_data conds

-- What the loop collects.
abbrev pub Collected : Type 0
Collected = List ℕ × List ℕ

abbrev pub note_rule : ℕ → Bool → Collected → Collected
note_rule i blocked (matched, blocking) = (i ∷ matched, if blocked then i ∷ blocking else blocking)

abbrev pub note_if : Option Bool → ℕ → Bool → Collected → Collected
note_if (some true) i blocked rest = note_rule i blocked rest
note_if (some false) i blocked rest = rest
note_if none i blocked rest = rest

module _ (py : Python) (context : Option Value) (t : DateTime) (now : ℕ)
    (existing_bookings : List Booking) where
  abbrev pub note_settings : AvailabilityRule → Option RuleSettings → Collected → Collected
  note_settings rule none rest = rest
  note_settings rule (some d) rest =
      note_if (conditions_hold py context d.conditions) rule.id
        (is_blocked rule.rule_type d t now existing_bookings) rest

  -- The loop over the active availability rules.
  unfoldable pub check_rules : List AvailabilityRule → Collected
  check_rules [] = ([], [])
  check_rules (rule ∷ rules) =
      let rest = check_rules rules in
      if is_availability rule.rule_type && rule.is_active
      then note_settings rule rule.settings rest
      else rest

-- The version is its id and its rules; without one every time is available.
unfoldable pub evaluate_availability :
    Python
    → Option (ℕ × List AvailabilityRule)
    → Option Value
    → DateTime
    → ℕ
    → List Booking
    → AvailabilityResult
evaluate_availability py none context t now existing_bookings = record {
  available = true;
  requested_at = t;
  brain_version_id = none;
  matched_rules = [];
  blocked_by = [];
}
evaluate_availability py (some (version, rules)) context t now existing_bookings =
    let (matched, blocking) = check_rules py context t now existing_bookings rules in
    record {
      available = is_empty blocking;
      requested_at = t;
      brain_version_id = some version;
      matched_rules = matched;
      blocked_by = blocking;
    }
