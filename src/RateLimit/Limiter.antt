-- ===== src/RateLimit/Limiter.antt =====
-- backend/app/middleware/rate_limit.py, SlidingWindowRateLimiter. The lock makes each call one step.
-- A time is a whole number of some unit, in which the window is given too.
use fielded_online.Common.{
  ℕ, ◌+◌, Bool, true, false, List, [], ◌∷◌, ◌++◌, length, select, ltb, leb, ◌==◌, if◌then◌else◌,
}

pub record Limits : Type 0 where
  pub max_requests : ℕ
  pub window_seconds : ℕ

-- The dictionary of timestamps; a missing key has none.
abbrev pub Requests : Type 0
Requests = ℕ → List ℕ

-- `ts > now - window_seconds`
abbrev pub is_recent : ℕ → ℕ → ℕ → Bool
is_recent window now ts = ltb now (ts + window)

abbrev pub put_requests : ℕ → List ℕ → Requests → Requests
put_requests key log requests k = if k == key then log else requests k

unfoldable pub is_allowed : Limits → ℕ → ℕ → Requests → Bool × Requests
is_allowed l key now requests =
    let log = select (is_recent l.window_seconds now) (requests key) in
    if leb l.max_requests (length log)
    then (false, put_requests key log requests)
    else (true, put_requests key (log ++ (now ∷ [])) requests)

unfoldable pub reset : ℕ → Requests → Requests
reset key requests = put_requests key [] requests
