-- ===== src/Common/Decimal.antt =====
-- Python's Decimal where the services round money: a whole number of millionths (10^-6), which holds
-- every amount and percentage of at most six decimal places. A product of an amount below 10^12 and a
-- percentage up to 1000 has at most 28 digits, so Python's default context computes it exactly too.
use Prim.Native.Nat.{ℕ, zero, suc, ◌+◌, ◌*◌, ◌/◌}
use package.fielded_online.Common.Int.{ℤ, pos, negsuc}

-- -n
abbrev pub minus : ℕ → ℤ
minus zero = pos 0
minus (suc n) = negsuc n

-- n / d to the nearest whole number, halves up.
abbrev pub round_half_up : ℕ → ℕ → ℕ
round_half_up n d = (n + d / 2) / d

-- x.quantize(Decimal("0.01"), rounding=ROUND_HALF_UP): halves go away from zero.
unfoldable pub quantize : ℤ → ℤ
quantize (pos n) = pos (round_half_up n 10000 * 10000)
quantize (negsuc n) = minus (round_half_up (suc n) 10000 * 10000)

-- (a * b / Decimal(divisor)).quantize(...), whose exact value has 10^-12 / divisor for its unit.
unfoldable pub scaled : ℕ → ℤ → ℤ → ℤ
scaled divisor (pos a) (pos b) = pos (round_half_up (a * b) (divisor * 10000000000) * 10000)
scaled divisor (pos a) (negsuc b) =
    minus (round_half_up (a * suc b) (divisor * 10000000000) * 10000)
scaled divisor (negsuc a) (pos b) =
    minus (round_half_up (suc a * b) (divisor * 10000000000) * 10000)
scaled divisor (negsuc a) (negsuc b) =
    pos (round_half_up (suc a * suc b) (divisor * 10000000000) * 10000)

-- (amount * percentage / Decimal("100")).quantize(...)
abbrev pub percent_of : ℤ → ℤ → ℤ
percent_of = scaled 100
