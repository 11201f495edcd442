-- ===== src/Availability/Checks.antt =====
-- The checks of the availability rules. Each is true for a time that the rule blocks.
use fielded_online.Common.{
  ℕ, ◌+◌, ◌*◌, Bool, false, not, ◌&&◌, ◌||◌, List, [], ◌∷◌, Option, none, some, ◌==◌, leb, is_in,
  select, length,
}
use fielded_online.Common.Int.{ℤ, pos, ◌+ℤ◌, ◌-ℤ◌, ltb_ℤ, leb_ℤ}
use fielded_online.Status.Bookings.{booking_status_enum, cancelled, declined, expired}
use fielded_online.Store.Lifecycle.{Booking}
use fielded_online.Brain.Conditions.{Condition}
use fielded_online.Availability.Times.{DateTime, in_utc, date, hour, minute, weekday, half_minutes}

-- The `rule_type` strings; `unlisted` is any other.
pub data RuleType : Type 0 where
  blackout_period operating_hours minimum_notice maximum_advance : RuleType
  capacity_limit concurrent_limit slot_configuration unlisted : RuleType

-- A key of `rule_data`: absent or empty, or not what the check can read, or a value.
pub data Setting : Type 0 where
  absent malformed : Setting
  value : ℤ → Setting

-- The dates are instants (_parse_datetime), the times of the day are minutes ("HH:MM"), the notice and
-- the advance are microseconds, and the window is in minutes. `day_of_week` is `none` for a name that
-- is no day.
pub record RuleSettings : Type 0 where
  pub conditions : List Condition
  pub start_date : Option ℕ
  pub end_date : Option ℕ
  pub day_of_week : Option ℕ
  pub open_time : Setting
  pub close_time : Setting
  pub break_start : Setting
  pub break_end : Setting
  pub notice : Setting
  pub advance : Setting
  pub max_capacity : Setting
  pub time_window_minutes : Setting
  pub max_concurrent : Setting

-- _check_blackout
unfoldable pub check_blackout : Option ℕ → Option ℕ → DateTime → Bool
check_blackout (some start) (some end) t = leb start t.instant && leb t.instant end
check_blackout (some start) none t = false
check_blackout none end t = false

abbrev pub minute_of_day : DateTime → ℤ
minute_of_day t = pos (hour t * 60 + minute t)

-- A break that cannot be read is passed over.
abbrev pub in_break : Setting → Setting → ℤ → Bool
in_break (value start) (value end) m = leb_ℤ start m && leb_ℤ m end
in_break (value start) absent m = false
in_break (value start) malformed m = false
in_break absent end m = false
in_break malformed end m = false

abbrev pub outside_hours : Setting → Setting → Bool → ℤ → Bool
outside_hours (value opens) (value closes) breaking m = breaking || ltb_ℤ m opens || ltb_ℤ closes m
outside_hours (value opens) absent breaking m = false
outside_hours (value opens) malformed breaking m = false
outside_hours absent closes breaking m = false
outside_hours malformed closes breaking m = false

abbrev pub on_day : Option ℕ → ℕ → Bool
on_day none day = false
on_day (some expected) day = day == expected

-- _check_operating_hours: a rule without a day, or whose hours are missing or cannot be read, blocks
-- nothing, and neither does one for another day.
unfoldable pub check_operating_hours : RuleSettings → DateTime → Bool
check_operating_hours d t =
    on_day d.day_of_week (weekday t)
    && outside_hours d.open_time d.close_time (in_break d.break_start d.break_end (minute_of_day t))
        (minute_of_day t)

-- _check_minimum_notice: (requested_at - now) < required_notice
unfoldable pub check_minimum_notice : Setting → DateTime → ℕ → Bool
check_minimum_notice (value notice) t now = ltb_ℤ (pos t.instant -ℤ pos now) notice
check_minimum_notice absent t now = false
check_minimum_notice malformed t now = false

-- _check_maximum_advance: (requested_at - now) > max_advance
unfoldable pub check_maximum_advance : Setting → DateTime → ℕ → Bool
check_maximum_advance (value advance) t now = ltb_ℤ advance (pos t.instant -ℤ pos now)
check_maximum_advance absent t now = false
check_maximum_advance malformed t now = false

-- A booking that takes up room.
abbrev pub is_live : Booking → Bool
is_live b = not (is_in b.status (cancelled ∷ declined ∷ expired ∷ []))

-- window_start <= booking_time <= window_end
abbrev pub is_near : ℤ → ℕ → Booking → Bool
is_near half t b =
    leb_ℤ (pos t -ℤ half) (pos b.requested_at) && leb_ℤ (pos b.requested_at) (pos t +ℤ half)

abbrev pub count_near : ℤ → ℕ → List Booking → ℕ
count_near half t bookings = length (select (λ b. is_near half t b && is_live b) bookings)

-- int(rule_data.get("time_window_minutes", 60))
abbrev pub window_or_hour : Setting → Option ℤ
window_or_hour absent = some (pos 60)
window_or_hour malformed = none
window_or_hour (value n) = some n

abbrev pub is_full : ℤ → Option ℤ → ℕ → List Booking → Bool
is_full max none t bookings = false
is_full max (some window) t bookings = leb_ℤ max (pos (count_near (half_minutes window) t bookings))

-- _check_capacity
unfoldable pub check_capacity : Setting → Setting → DateTime → List Booking → Bool
check_capacity (value max) window t bookings =
    is_full max (window_or_hour window) t.instant bookings
check_capacity absent window t bookings = false
check_capacity malformed window t bookings = false

-- booking_time.date() == requested_at.date() and the same of the hours
abbrev pub is_concurrent : DateTime → Booking → Bool
is_concurrent t b =
    date (in_utc b.requested_at) == date t && hour (in_utc b.requested_at) == hour t && is_live b

-- _check_concurrent
unfoldable pub check_concurrent : Setting → DateTime → List Booking → Bool
check_concurrent (value max) t bookings =
    leb_ℤ max (pos (length (select (is_concurrent t) bookings)))
check_concurrent absent t bookings = false
check_concurrent malformed t bookings = false

-- _evaluate_rule
unfoldable pub is_blocked : RuleType → RuleSettings → DateTime → ℕ → List Booking → Bool
is_blocked blackout_period d t now bookings = check_blackout d.start_date d.end_date t
is_blocked operating_hours d t now bookings = check_operating_hours d t
is_blocked minimum_notice d t now bookings = check_minimum_notice d.notice t now
is_blocked maximum_advance d t now bookings = check_maximum_advance d.advance t now
is_blocked capacity_limit d t now bookings =
    check_capacity d.max_capacity d.time_window_minutes t bookings
is_blocked concurrent_limit d t now bookings = check_concurrent d.max_concurrent t bookings
is_blocked slot_configuration d t now bookings = false
is_blocked unlisted d t now bookings = false
