-- ===== src/Outbox/Promises.antt =====
-- What a claim promises: the batch that it returns, and the table that it leaves.
use fielded_online.Common.{
  ℕ, suc, ◌≤◌, ◌<◌, ◌+◌, ◌≡◌, ◌⊎◌, Bool, true, false, List, [], ◌∷◌, some, All, elem, length,
}
use fielded_online.Store.Outbox.{OutboxEvent, pending, retryable, processing}
use fielded_online.Outbox.Claims.{ids}
use fielded_online.Outbox.Claimed.{IsServed}

-- The row may be claimed: PENDING or RETRYABLE, available, and not locked by another worker.
pub record IsDue (now : ℕ) (locked : ℕ → Bool) (e : OutboxEvent) : Type 0 where
  pub status : (e.status ≡ pending) ⊎ (e.status ≡ retryable)
  pub available : e.available_at ≤ now
  pub unlocked : locked e.id ≡ false

-- The claim of a row.
pub record IsTaken (now : ℕ) (e r : OutboxEvent) : Type 0 where
  pub id : r.id ≡ e.id
  pub event_type : r.event_type ≡ e.event_type
  pub status : r.status ≡ processing
  pub started : r.processing_started_at ≡ some now
  pub attempts : r.attempt_count ≡ suc e.attempt_count

-- A lease that ran out: the row of a worker that started too long ago is RETRYABLE, at once.
pub record IsReclaimed (now lease : ℕ) (e r : OutboxEvent) : Type 0 where
  pub start : ℕ
  pub was : e.status ≡ processing
  pub began : e.processing_started_at ≡ some start
  pub expired : start + lease < now
  pub id : r.id ≡ e.id
  pub attempts : r.attempt_count ≡ e.attempt_count
  pub status : r.status ≡ retryable
  pub available : r.available_at ≡ now

-- No lease of the row ran out.
abbrev pub IsLeased : ℕ → ℕ → OutboxEvent → Type 0
IsLeased now lease e = ¬ (
    (start : ℕ) × (e.status ≡ processing)
    × (e.processing_started_at ≡ some start)
    × (start + lease < now))

-- Two tables, row by row.
abbrev pub Pointwise :
    (OutboxEvent → OutboxEvent → Type 0) → List OutboxEvent → List OutboxEvent → Type 0
Pointwise R [] [] = Unit
Pointwise R [] (r ∷ rs) = ⊥
Pointwise R (e ∷ es) [] = ⊥
Pointwise R (e ∷ es) (r ∷ rs) = R e r × Pointwise R es rs

-- Some row of a table.
abbrev pub AnyOf : (OutboxEvent → Type 0) → List OutboxEvent → Type 0
AnyOf P [] = ⊥
AnyOf P (e ∷ es) = P e ⊎ AnyOf P es

-- The batch and the table after a claim. `recovered` is the table once the leases that ran out are
-- taken back.
pub record IsClaimed (batch_size lease now : ℕ) (locked : ℕ → Bool)
    (es batch after : List OutboxEvent) : Type 0 where
  pub recovered : List OutboxEvent
  pub leases :
      Pointwise (λ e r. IsReclaimed now lease e r ⊎ (IsLeased now lease e × (r ≡ e))) es recovered
  pub bounded : length batch ≤ batch_size
  pub full :
      (length batch ≡ batch_size)
      ⊎ All (λ e. (¬ IsDue now locked e) ⊎ (elem e.id (ids batch) ≡ true)) recovered
  pub served : All (λ e. (¬ IsDue now locked e) ⊎ IsServed batch e) recovered
  pub taken : All (λ x. AnyOf (λ e. IsDue now locked e × IsTaken now e x) recovered) batch
  pub marked :
      Pointwise
        (λ e r.
          ((elem e.id (ids batch) ≡ true) × IsTaken now e r)
          ⊎ ((elem e.id (ids batch) ≡ false) × (r ≡ e)))
        recovered
        after
