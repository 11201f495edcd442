-- ===== src/Availability/Admitted.antt =====
-- Which times are available.
use fielded_online.Common.{
  ℕ, ◌+◌, ◌<◌, ◌≡◌, ◌≢◌, refl, ◌⊎◌, ◌↔◌, true, false, List, [], ◌∷◌, Option, none, some, All, arith,
}
use fielded_online.Common.Int.{ℤ, pos, ◌-ℤ◌, ◌≤ℤ◌, ltb_ℤ}
use fielded_online.Store.Lifecycle.{Booking}
use fielded_online.Brain.Values.{Value, Python}
use fielded_online.Brain.Evaluator.{is_empty}
use fielded_online.Availability.Times.{DateTime, weekday, half_minutes}
use fielded_online.Availability.Checks.{
  RuleType, blackout_period, operating_hours, minimum_notice, maximum_advance, capacity_limit,
  concurrent_limit, slot_configuration, unlisted, Setting, absent, malformed, value, RuleSettings,
  is_blocked, check_blackout, check_operating_hours, check_minimum_notice, check_maximum_advance,
  check_capacity, check_concurrent, minute_of_day, in_break, outside_hours, count_near,
  window_or_hour, is_concurrent,
}
use fielded_online.Availability.Evaluator.{
  AvailabilityRule, is_availability, conditions_hold, check_rules, note_settings, Collected,
  evaluate_availability,
}
use fielded_online.Common.{length, select}

-- Not in a period, if it has a start and an end.
abbrev pub IsOutside : Option ℕ → Option ℕ → ℕ → Type 0
IsOutside none end t = Unit
IsOutside (some start) none t = Unit
IsOutside (some start) (some end) t = (t < start) ⊎ (end < t)

-- The minute is not in a break, if there is one.
abbrev pub IsOffBreak : Setting → Setting → ℤ → Type 0
IsOffBreak (value start) (value end) m = (ltb_ℤ m start ≡ true) ⊎ (ltb_ℤ end m ≡ true)
IsOffBreak (value start) absent m = Unit
IsOffBreak (value start) malformed m = Unit
IsOffBreak absent end m = Unit
IsOffBreak malformed end m = Unit

-- The minute is from the opening to the closing time and not in a break; without both times any is.
abbrev pub IsOpen : Setting → Setting → Setting → Setting → ℤ → Type 0
IsOpen (value opens) (value closes) start end m =
    (opens ≤ℤ m) × (m ≤ℤ closes) × IsOffBreak start end m
IsOpen (value opens) absent start end m = Unit
IsOpen (value opens) malformed start end m = Unit
IsOpen absent closes start end m = Unit
IsOpen malformed closes start end m = Unit

abbrev pub IsOpenOn : Option ℕ → ℕ → Type 0 → Type 0
IsOpenOn none day P = Unit
IsOpenOn (some expected) day P = (day ≢ expected) ⊎ P

abbrev pub AtLeast : Setting → ℤ → Type 0
AtLeast (value n) x = n ≤ℤ x
AtLeast absent x = Unit
AtLeast malformed x = Unit

abbrev pub AtMost : Setting → ℤ → Type 0
AtMost (value n) x = x ≤ℤ n
AtMost absent x = Unit
AtMost malformed x = Unit

-- Fewer than the maximum.
abbrev pub HasRoom : Setting → ℕ → Type 0
HasRoom (value max) n = pos (n + 1) ≤ℤ max
HasRoom absent n = Unit
HasRoom malformed n = Unit

abbrev pub HasRoomNear : Setting → Option ℤ → ℕ → List Booking → Type 0
HasRoomNear max none t bookings = Unit
HasRoomNear max (some window) t bookings = HasRoom max (count_near (half_minutes window) t bookings)

-- What a rule of each type asks of a time.
abbrev pub Admits : RuleType → RuleSettings → DateTime → ℕ → List Booking → Type 0
Admits blackout_period d t now bookings = IsOutside d.start_date d.end_date t.instant
Admits operating_hours d t now bookings =
    IsOpenOn d.day_of_week (weekday t)
      (IsOpen d.open_time d.close_time d.break_start d.break_end (minute_of_day t))
Admits minimum_notice d t now bookings = AtLeast d.notice (pos t.instant -ℤ pos now)
Admits maximum_advance d t now bookings = AtMost d.advance (pos t.instant -ℤ pos now)
Admits capacity_limit d t now bookings =
    HasRoomNear d.max_capacity (window_or_hour d.time_window_minutes) t.instant bookings
Admits concurrent_limit d t now bookings =
    HasRoom d.max_concurrent (length (select (is_concurrent t) bookings))
Admits slot_configuration d t now bookings = Unit
Admits unlisted d t now bookings = Unit

check_blackout_iff :
    (start end : Option ℕ) (t : DateTime)
    → (check_blackout start end t ≡ false) ↔ IsOutside start end t.instant
unfolding check_blackout
check_blackout_iff start end t = ground arith

in_break_iff :
    (start end : Setting) (m : ℤ) → (in_break start end m ≡ false) ↔ IsOffBreak start end m
in_break_iff start end m = ground arith

outside_hours_iff :
    (opens closes start end : Setting) (m : ℤ)
    → (outside_hours opens closes (in_break start end m) m ≡ false)
      ↔ IsOpen opens closes start end m
outside_hours_iff opens closes start end m = ground (arith, in_break_iff start end m)

check_operating_hours_iff :
    (d : RuleSettings) (t : DateTime)
    → (check_operating_hours d t ≡ false) ↔ Admits operating_hours d t 0 []
unfolding check_operating_hours
check_operating_hours_iff d t =
    ground (
      arith,
      outside_hours_iff d.open_time d.close_time d.break_start d.break_end (minute_of_day t),
    )

is_full_iff :
    (max : Setting) (window : Setting) (t : DateTime) (bookings : List Booking)
    → (check_capacity max window t bookings ≡ false)
      ↔ HasRoomNear max (window_or_hour window) t.instant bookings
unfolding check_capacity
is_full_iff max window t bookings = ground arith

is_blocked_iff :
    (r : RuleType) (d : RuleSettings) (t : DateTime) (now : ℕ) (bookings : List Booking)
    → (is_blocked r d t now bookings ≡ false) ↔ Admits r d t now bookings
unfolding is_blocked check_minimum_notice check_maximum_advance check_concurrent
is_blocked_iff blackout_period d t now bookings = check_blackout_iff d.start_date d.end_date t
is_blocked_iff operating_hours d t now bookings = check_operating_hours_iff d t
is_blocked_iff capacity_limit d t now bookings =
    is_full_iff d.max_capacity d.time_window_minutes t bookings
is_blocked_iff minimum_notice d t now bookings = ground arith
is_blocked_iff maximum_advance d t now bookings = ground arith
is_blocked_iff concurrent_limit d t now bookings = ground arith
is_blocked_iff slot_configuration d t now bookings = ground arith
is_blocked_iff unlisted d t now bookings = ground arith

module _ (py : Python) (context : Option Value) (t : DateTime) (now : ℕ)
    (existing_bookings : List Booking) where
  -- A rule whose settings can be read and whose conditions hold admits the time.
  abbrev pub AdmitsIf : AvailabilityRule → Option RuleSettings → Type 0
  AdmitsIf rule none = Unit
  AdmitsIf rule (some d) =
      (conditions_hold py context d.conditions ≡ some false)
      ⊎ (conditions_hold py context d.conditions ≡ none)
      ⊎ Admits rule.rule_type d t now existing_bookings

  abbrev pub AdmitsTime : AvailabilityRule → Type 0
  AdmitsTime rule = (rule.is_active ≡ false) ⊎ AdmitsIf rule rule.settings

  note_settings_iff :
      (rule : AvailabilityRule) (settings : Option RuleSettings) (rest : Collected)
      → (is_empty (note_settings py context t now existing_bookings rule settings rest).1 ≡ true)
        ↔ (AdmitsIf rule settings × (is_empty rest.1 ≡ true))
  note_settings_iff rule none rest = ground arith
  note_settings_iff rule (some d) rest =
      ground (arith, is_blocked_iff rule.rule_type d t now existing_bookings)

  -- An unlisted rule asks for nothing.
  AdmitsIf-unlisted :
      (rule : AvailabilityRule) (settings : Option RuleSettings)
      → is_availability rule.rule_type ≡ false
      → AdmitsIf rule settings
  AdmitsIf-unlisted rule none h = tt
  AdmitsIf-unlisted rule (some d) h = ground arith

  check_rules_iff :
      (rules : List AvailabilityRule)
      → (is_empty (check_rules py context t now existing_bookings rules).1 ≡ true)
        ↔ All AdmitsTime rules
  unfolding check_rules
  check_rules_iff [] = (λ h. tt, λ h. refl)
  check_rules_iff (rule ∷ rules) = ground (
    arith,
    check_rules_iff rules,
    AdmitsIf-unlisted rule rule.settings,
    note_settings_iff rule rule.settings (check_rules py context t now existing_bookings rules),
  )

-- With an active brain version a time is available exactly when each of its rules is inactive, cannot
-- be read, has conditions that do not hold or cannot be evaluated, or admits the time: it is outside
-- the blackout; on the day of an operating_hours rule it is in the hours and not in the break; the
-- notice is at least the minimum and the advance at most the maximum; and fewer bookings than the
-- maximum that are not cancelled, declined or expired lie in the window of a capacity_limit, or on the
-- same date and hour for a concurrent_limit. A setting that is missing or cannot be read asks for
-- nothing.
pub evaluate_availability_iff :
    (py : Python) (version : ℕ) (rules : List AvailabilityRule) (context : Option Value)
    (t : DateTime) (now : ℕ) (existing_bookings : List Booking)
    → ((evaluate_availability py (some (version, rules)) context t now existing_bookings).available
        ≡ true)
      ↔ All (AdmitsTime py context t now existing_bookings) rules
unfolding evaluate_availability
evaluate_availability_iff py version rules context t now existing_bookings =
    check_rules_iff py context t now existing_bookings rules
