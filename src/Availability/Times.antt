-- ===== src/Availability/Times.antt =====
-- Python's aware datetimes, as the evaluator reads them. `instant` counts microseconds from
-- 1970-01-01T00:00Z, and `wall` the same on the clock of the datetime's own offset.
use fielded_online.Common.{ℕ, ◌+◌, ◌*◌, ◌/◌, ◌%◌}
use fielded_online.Common.Int.{ℤ, pos, negsuc}
use fielded_online.Common.Decimal.{minus}

pub record DateTime : Type 0 where
  pub instant : ℕ
  pub wall : ℕ

abbrev pub minute_length : ℕ
minute_length = 60000000

abbrev pub hour_length : ℕ
hour_length = 60 * minute_length

abbrev pub day_length : ℕ
day_length = 24 * hour_length

-- The database answers in UTC.
abbrev pub in_utc : ℕ → DateTime
in_utc t = record { instant = t; wall = t }

-- .date(), as the number of the day; .hour; .minute; and .weekday(), with Monday for 0. The first day
-- was a Thursday.
unfoldable pub date : DateTime → ℕ
date t = t.wall / day_length

unfoldable pub hour : DateTime → ℕ
hour t = t.wall / hour_length % 24

unfoldable pub minute : DateTime → ℕ
minute t = t.wall / minute_length % 60

unfoldable pub weekday : DateTime → ℕ
weekday t = (t.wall / day_length + 3) % 7

-- timedelta(minutes=n / 2)
abbrev pub half_minutes : ℤ → ℤ
half_minutes (pos n) = pos (n * 30000000)
half_minutes (negsuc n) = minus ((n + 1) * 30000000)
