-- ===== src/Tests/Limits.antt =====
-- The rate limiter at a concrete sequence of calls.
use fielded_online.Common.{ℕ, ◌≡◌, ◌≤◌, refl, List, [], ◌∷◌, length, select, arith}
use fielded_online.RateLimit.Limiter.{Limits, is_recent, is_allowed}
use fielded_online.RateLimit.Window.{allowed_times, is_allowed-window}

-- Two requests in 300 seconds.
abbrev limits : Limits
limits = record { max_requests = 2; window_seconds = 300 }

-- Four calls for the key 7 and one for another, the latest first.
abbrev calls : List (ℕ × ℕ)
calls = (7, 420) ∷ (7, 200) ∷ (8, 150) ∷ (7, 110) ∷ (7, 100) ∷ []

calls_allowed : allowed_times limits 7 calls ≡ 420 ∷ 110 ∷ 100 ∷ []
unfolding is_allowed
calls_allowed = refl

is_allowed-window_example : length (select (is_recent 300 420) (allowed_times limits 7 calls)) ≤ 2
is_allowed-window_example =
    is_allowed-window limits 7 420 calls
      (omega arith, (omega arith, (omega arith, (omega arith, (omega arith, tt)))))
