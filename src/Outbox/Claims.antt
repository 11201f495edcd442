-- ===== src/Outbox/Claims.antt =====
-- backend/app/domain/outbox/repository.py, OutboxRepository: claiming and marking.
-- The rows that another worker has locked are a parameter: SKIP LOCKED passes over them.
use fielded_online.Common.{
  ℕ, suc, ◌+◌, Bool, true, false, not, ◌&&◌, List, [], ◌∷◌, map, Option, none, some, elem, select,
  take, ltb, leb, if◌then◌else◌,
}
use fielded_online.Store.Outbox.{
  OutboxEvent, OutboxStatus, pending, processing, processed, retryable, failed,
}

abbrev pub is_processing : OutboxStatus → Bool
is_processing processing = true
is_processing pending = false
is_processing processed = false
is_processing retryable = false
is_processing failed = false

abbrev pub is_claimable : OutboxStatus → Bool
is_claimable pending = true
is_claimable retryable = true
is_claimable processing = false
is_claimable processed = false
is_claimable failed = false

-- `started < now - lease`; no comparison with NULL holds.
abbrev pub is_past_lease : ℕ → ℕ → Option ℕ → Bool
is_past_lease now lease none = false
is_past_lease now lease (some started) = ltb (started + lease) now

-- UPDATE ... WHERE test
abbrev pub update_where :
    (OutboxEvent → Bool) → (OutboxEvent → OutboxEvent) → List OutboxEvent → List OutboxEvent
update_where test change [] = []
update_where test change (e ∷ es) = (if test e then change e else e) ∷ update_where test change es

unfoldable pub reclaim : ℕ → ℕ → List OutboxEvent → List OutboxEvent
reclaim now lease =
    update_where (λ e. is_processing e.status && is_past_lease now lease e.processing_started_at)
      λ e. record e { status = retryable; available_at = now; processing_started_at = none }

abbrev pub is_due : ℕ → (ℕ → Bool) → OutboxEvent → Bool
is_due now locked e = is_claimable e.status && (leb e.available_at now && not (locked e.id))

-- ORDER BY available_at ASC
unfoldable pub insert_event : OutboxEvent → List OutboxEvent → List OutboxEvent
insert_event e [] = e ∷ []
insert_event e (x ∷ xs) =
    if leb e.available_at x.available_at then e ∷ x ∷ xs else x ∷ insert_event e xs

unfoldable pub order_events : List OutboxEvent → List OutboxEvent
order_events [] = []
order_events (e ∷ es) = insert_event e (order_events es)

abbrev pub claim : ℕ → OutboxEvent → OutboxEvent
claim now e = record e {
  status = processing;
  processing_started_at = some now;
  attempt_count = suc e.attempt_count;
}

abbrev pub ids : List OutboxEvent → List ℕ
ids [] = []
ids (e ∷ es) = e.id ∷ ids es

-- The rows that the SELECT returns.
unfoldable pub due_events : ℕ → ℕ → (ℕ → Bool) → List OutboxEvent → List OutboxEvent
due_events batch_size now locked es = take batch_size (order_events (select (is_due now locked) es))

-- claim_pending_events: the claimed rows, and the table.
unfoldable pub claim_pending_events :
    ℕ → ℕ → ℕ → (ℕ → Bool) → List OutboxEvent → List OutboxEvent × List OutboxEvent
claim_pending_events batch_size lease now locked es =
    let table = reclaim now lease es in
    let due = due_events batch_size now locked table in
    (map (claim now) due, update_where (λ e. elem e.id (ids due)) (claim now) table)

-- mark_processed, mark_retryable (after a minute) and mark_failed, on the rows with the id.
abbrev pub mark_processed : ℕ → OutboxEvent → OutboxEvent
mark_processed now e = record e {
  status = processed;
  processed_at = some now;
  processing_started_at = none;
}

abbrev pub mark_retryable : ℕ → ℕ → OutboxEvent → OutboxEvent
mark_retryable now error e = record e {
  status = retryable;
  last_error = some error;
  available_at = now + 60;
  processing_started_at = none;
}

abbrev pub mark_failed : ℕ → ℕ → OutboxEvent → OutboxEvent
mark_failed now error e = record e {
  status = failed;
  last_error = some error;
  processed_at = some now;
  processing_started_at = none;
}
