-- ===== src/RateLimit/Window.antt =====
-- The number of requests that are allowed in a window.
use fielded_online.Common.{
  ℕ, suc, ◌≤◌, ◌≡◌, refl, inl, inr, Bool, false, ◌&&◌, List, [], ◌∷◌, ◌++◌, length, length-append,
  select, leb, not, ◌==◌, ==_refl, ==_iff, if◌then◌else◌, Bool-cases, arith,
}
use fielded_online.RateLimit.Limiter.{Limits, Requests, is_recent, is_allowed}

-- The calls so far, the latest first, each with its key and its time.
module _ (l : Limits) where
  abbrev pub requests_after : List (ℕ × ℕ) → Requests
  requests_after [] k = []
  requests_after (c ∷ cs) k = (is_allowed l c.0 c.1 (requests_after cs)).1 k

  abbrev pub allowed_times : ℕ → List (ℕ × ℕ) → List ℕ
  allowed_times k [] = []
  allowed_times k (c ∷ cs) =
      let earlier = allowed_times k cs in
      if c.0 == k && (is_allowed l c.0 c.1 (requests_after cs)).0 then c.1 ∷ earlier else earlier

-- No call is later than a time, nor than the calls after it.
abbrev pub IsUntil : ℕ → List (ℕ × ℕ) → Type 0
IsUntil now [] = Unit
IsUntil now (c ∷ cs) = (c.1 ≤ now) × IsUntil c.1 cs

length-select : (p : ℕ → Bool) (xs : List ℕ) → length (select p xs) ≤ length xs
length-select p [] = omega arith
length-select p (x ∷ xs) = ground (arith, length-select p xs)

-- What is dropped at one time is out of every later window.
select_later :
    (window now later : ℕ) (xs : List ℕ)
    → now ≤ later
    → length (select (is_recent window later) (select (is_recent window now) xs))
      ≡ length (select (is_recent window later) xs)
select_later window now later [] h = refl
select_later window now later (x ∷ xs) h = ground (arith, select_later window now later xs h)

select_last :
    (p : ℕ → Bool) (xs : List ℕ) (x : ℕ)
    → length (select p (xs ++ (x ∷ [])))
      ≡ (if p x then suc (length (select p xs)) else length (select p xs))
select_last p [] x = ground arith
select_last p (y ∷ ys) x = ground (arith, select_last p ys x)

-- The timestamps of a key that still count, and what a call makes of them.
abbrev live : Limits → ℕ → List ℕ → List ℕ
live l now log = select (is_recent l.window_seconds now) log

abbrev next_log : Limits → ℕ → List ℕ → List ℕ
next_log l now log =
    if leb l.max_requests (length (live l now log))
    then live l now log
    else live l now log ++ (now ∷ [])

is_allowed-same :
    (l : Limits) (k now : ℕ) (r : Requests)
    → ((is_allowed l k now r).0 ≡ not (leb l.max_requests (length (live l now (r k)))))
      × ((is_allowed l k now r).1 k ≡ next_log l now (r k))
unfolding is_allowed
is_allowed-same l k now r = ground (arith, ==_refl k)

is_allowed-other :
    (l : Limits) (key k now : ℕ) (r : Requests)
    → (key == k) ≡ false
    → (is_allowed l key now r).1 k ≡ r k
unfolding is_allowed
is_allowed-other l key k now r h = ground arith

next_log-length :
    (l : Limits) (now : ℕ) (log : List ℕ)
    → length log ≤ l.max_requests
    → length (next_log l now log) ≤ l.max_requests
next_log-length l now log h = ground (
  arith,
  length-select (is_recent l.window_seconds now) log,
  length-append (live l now log) (now ∷ []),
)

-- The timestamps that count later, after a call.
next_log-later :
    (l : Limits) (now later : ℕ) (log : List ℕ)
    → now ≤ later
    → length (live l later (next_log l now log)) ≡ (
        if not (leb l.max_requests (length (live l now log)))
          && is_recent l.window_seconds later now
        then suc (length (live l later log))
        else length (live l later log))
next_log-later l now later log h = ground (
  arith,
  select_later l.window_seconds now later log h,
  select_last (is_recent l.window_seconds later) (live l now log) now,
)

IsUntil-later :
    (now later : ℕ) (cs : List (ℕ × ℕ)) → now ≤ later → IsUntil now cs → IsUntil later cs
IsUntil-later now later [] h u = tt
IsUntil-later now later (c ∷ cs) h (le, u) = (omega arith, u)

-- A served call is counted by the log.
served_counts :
    (l : Limits) (now later : ℕ) (log allowed : List ℕ)
    → now ≤ later
    → length (live l later allowed) ≡ length (live l later log)
    → length (
        live l later
          (if not (leb l.max_requests (length (live l now log))) then now ∷ allowed else allowed))
      ≡ length (live l later (next_log l now log))
served_counts l now later log allowed le counts =
    elim (Bool-cases (leb l.max_requests (length (live l now log)))) [
      | inl full ↦ ground (arith, next_log-later l now later log le)
      | inr free ↦ ground (arith, next_log-later l now later log le)
    ]

-- The log of a key counts what was allowed to it, and is never longer than the limit.
log_counts :
    (l : Limits) (k later : ℕ) (cs : List (ℕ × ℕ))
    → IsUntil later cs
    → (length (live l later (allowed_times l k cs)) ≡ length (live l later (requests_after l cs k)))
      × (length (requests_after l cs k) ≤ l.max_requests)
log_counts l k later [] u = (refl, omega arith)
log_counts l k later ((key, now) ∷ cs) (le, u) =
    let (counts, short) = log_counts l k later cs (IsUntil-later now later cs le u) in
    elim (Bool-cases (key == k)) [
      | inl hit ↦
          let same_key = (==_iff key k).0 hit in
          let log = requests_after l cs k in
          let (answer, written) = is_allowed-same l k now (requests_after l cs) in
          rw (hit, same_key, answer, written)
            (
              served_counts l now later log (allowed_times l k cs) le counts,
              next_log-length l now log short,
            )
      | inr miss ↦
          rw (miss, is_allowed-other l key k now (requests_after l cs) miss) (counts, short)
    ]

-- At any time after a sequence of calls in the order of time, at most max_requests of those that were
-- allowed for a key lie in the window that ends then.
pub is_allowed-window :
    (l : Limits) (k now : ℕ) (calls : List (ℕ × ℕ))
    → IsUntil now calls
    → length (select (is_recent l.window_seconds now) (allowed_times l k calls)) ≤ l.max_requests
is_allowed-window l k now calls u =
    let (counts, short) = log_counts l k now calls u in
    omega (
      arith,
      counts,
      short,
      length-select (is_recent l.window_seconds now) (requests_after l calls k),
    )
