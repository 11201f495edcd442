-- ===== src/Outbox/Settled.antt =====
-- What the loop of process_outbox_events leaves behind.
use fielded_online.Common.{
  ℕ, ◌+◌, ◌≡◌, refl, sym, ap, ◌∙◌, ◌⊎◌, inl, inr, Bool, false, List, [], ◌∷◌, ◌++◌, Option, none,
  some, elem, leb, ◌==◌, ==_iff, if◌then◌else◌, Bool-cases, Option-cases, arith,
}
use mathlib.Core.Path.{subst}
use fielded_online.Common.Outcome.{Result, ok, err, unexpected}
use fielded_online.Store.Outbox.{OutboxEvent, OutboxStatus, processed, retryable, failed}
use fielded_online.Outbox.Claims.{
  mark_processed, mark_retryable, mark_failed, ids, update_where, claim_pending_events,
}
use fielded_online.Outbox.Promises.{Pointwise}
use fielded_online.Outbox.Worker.{
  Handlers, route, mark, count_success, process_all, process_outbox_events,
}

-- The status that an answer leads to, by the attempts that are read after a failure.
abbrev pub settled_status : ℕ → Option ℕ → Option ℕ → Option OutboxStatus
settled_status max_attempts none attempts = some processed
settled_status max_attempts (some error) none = none
settled_status max_attempts (some error) (some attempts) =
    some (if leb max_attempts attempts then failed else retryable)

abbrev pub one_if_success : Option ℕ → ℕ
one_if_success none = 1
one_if_success (some error) = 0

mark-status :
    (now max_attempts : ℕ) (answer attempts : Option ℕ) (change : OutboxEvent → OutboxEvent)
    (row : OutboxEvent)
    → mark now max_attempts answer attempts ≡ some change
    → ((change row).id ≡ row.id)
      × (settled_status max_attempts answer attempts ≡ some ((change row).status))
unfolding mark
mark-status now max_attempts none attempts change row h =
    let same_change : mark_processed now ≡ change = cc in
    subst (λ c. ((c row).id ≡ row.id) × (some processed ≡ some ((c row).status))) same_change
      (refl, refl)
mark-status now max_attempts (some error) none change row h = cc
mark-status now max_attempts (some error) (some attempts) change row h =
    let marked = λ (r : OutboxEvent).
      if leb max_attempts attempts then mark_failed now error r else mark_retryable now error r in
    let same_change : marked ≡ change = cc in
    subst
      (λ c.
        ((c row).id ≡ row.id)
        × (some (if leb max_attempts attempts then failed else retryable) ≡ some ((c row).status)))
      same_change (ground arith)

module _ (now max_attempts : ℕ) (h : Handlers) where
  -- The row has the id of one of the events, and the status that the answer to it leads to.
  abbrev pub IsAnswered : List OutboxEvent → OutboxEvent → Type 0
  IsAnswered [] row = ⊥
  IsAnswered (e ∷ es) row =
      ((row.id ≡ e.id)
        × (settled_status max_attempts (route h e.event_type e) (h.attempts_after_rollback e)
            ≡ some row.status))
      ⊎ IsAnswered es row

  -- A row before and after: it belongs to none of the events and is as before, or it is settled.
  abbrev pub IsSettled : List OutboxEvent → OutboxEvent → OutboxEvent → Type 0
  IsSettled es row row' = ((elem row.id (ids es) ≡ false) × (row' ≡ row)) ⊎ IsAnswered es row'

  abbrev pub successes : List OutboxEvent → ℕ
  successes [] = 0
  successes (e ∷ es) = one_if_success (route h e.event_type e) + successes es

  -- How the loop ends: with the number of successes when no event is left, or with an exception at a
  -- failed event that cannot be read after the rollback.
  abbrev pub Ends : List OutboxEvent → ℕ → Result ℕ → Type 0
  Ends [] n result = result ≡ ok n
  Ends (e ∷ rest) n result =
      ((error : ℕ) × (route h e.event_type e ≡ some error))
      × (h.attempts_after_rollback e ≡ none)
      × (result ≡ err unexpected)

  -- The events that were settled, and those that were not come to.
  pub record IsRun (n : ℕ) (events before after : List OutboxEvent) (result : Result ℕ)
      : Type 0 where
    pub settled : List OutboxEvent
    pub left : List OutboxEvent
    pub order : events ≡ settled ++ left
    pub rows : Pointwise (IsSettled settled) before after
    pub ends : Ends left (n + successes settled) result

  module _ (e : OutboxEvent) (change : OutboxEvent → OutboxEvent)
      (made : mark now max_attempts (route h e.event_type e) (h.attempts_after_rollback e)
        ≡ some change) where
    IsSettled-head :
        (done : List OutboxEvent) (row row' : OutboxEvent)
        → IsSettled done (if row.id == e.id then change row else row) row'
        → IsSettled (e ∷ done) row row'
    IsSettled-head done row row' (inr a) = inr (inr a)
    IsSettled-head done row row' (inl (n, same_row)) = elim (Bool-cases (row.id == e.id)) [
      | inl hit ↦
          let (same_id, st) = mark-status now max_attempts _ _ change row made in
          let same_changed : row' ≡ change row = rw hit at same_row in
          let own : row.id ≡ e.id = (==_iff row.id e.id).0 hit in
          inr (
            inl (
              ap (λ r. r.id) same_changed ∙ same_id ∙ own,
              st ∙ ap (λ r. some r.status) (sym same_changed),
            ))
      | inr miss ↦
          let kept : row' ≡ row = rw miss at same_row in
          let later : elem row.id (ids done) ≡ false = rw miss at n in
          inl (rw (miss, later) refl, kept)
    ]

    Pointwise-head :
        (done rows after : List OutboxEvent)
        → Pointwise (IsSettled done) (update_where (λ row. row.id == e.id) change rows) after
        → Pointwise (IsSettled (e ∷ done)) rows after
    Pointwise-head done [] [] ps = tt
    Pointwise-head done [] (r ∷ rs) ps = ps
    Pointwise-head done (row ∷ rows) [] ps = ps
    Pointwise-head done (row ∷ rows) (r ∷ rs) (p, ps) =
        (IsSettled-head done row r p, Pointwise-head done rows rs ps)

  Pointwise-same : (rows : List OutboxEvent) → Pointwise (IsSettled []) rows rows
  Pointwise-same [] = tt
  Pointwise-same (r ∷ rows) = (inl (refl, refl), Pointwise-same rows)

  mark-none :
      (answer attempts : Option ℕ)
      → mark now max_attempts answer attempts ≡ none
      → ((error : ℕ) × (answer ≡ some error)) × (attempts ≡ none)
  unfolding mark
  mark-none none attempts e = cc
  mark-none (some error) none e = ((error, refl), refl)
  mark-none (some error) (some attempts) e = cc

  count_success-eq :
      (answer : Option ℕ) (n k : ℕ) → count_success answer n + k ≡ n + (one_if_success answer + k)
  count_success-eq none n k = omega arith
  count_success-eq (some error) n k = omega arith

  process_all-stop :
      (e : OutboxEvent) (es : List OutboxEvent) (n : ℕ) (rows : List OutboxEvent)
      → mark now max_attempts (route h e.event_type e) (h.attempts_after_rollback e) ≡ none
      → process_all now max_attempts h (e ∷ es) n rows ≡ (err unexpected, rows)
  unfolding process_all
  process_all-stop e es n rows stop = rw (stop, process_all) refl

  process_all-next :
      (e : OutboxEvent) (es : List OutboxEvent) (n : ℕ) (rows : List OutboxEvent)
      (change : OutboxEvent → OutboxEvent)
      → mark now max_attempts (route h e.event_type e) (h.attempts_after_rollback e) ≡ some change
      → process_all now max_attempts h (e ∷ es) n rows
        ≡ process_all now max_attempts h es
            (count_success (route h e.event_type e) n)
            (update_where (λ row. row.id == e.id) change rows)
  unfolding process_all
  process_all-next e es n rows change made = rw (made, process_all) refl

  process_all-IsRun :
      (es : List OutboxEvent) (n : ℕ) (rows : List OutboxEvent)
      → let (result, after) = process_all now max_attempts h es n rows in
        IsRun n es rows after result
  unfolding process_all
  process_all-IsRun [] n rows = record {
    settled = [];
    left = [];
    order = refl;
    rows = Pointwise-same rows;
    ends = ap ok (omega arith);
  }
  process_all-IsRun (e ∷ es) n rows =
      elim (Option-cases
        (mark now max_attempts (route h e.event_type e) (h.attempts_after_rollback e))) [
          | inl stop ↦
              let (failed_with, unread) = mark-none _ _ stop in
              rw (process_all-stop e es n rows stop) (record {
                settled = [];
                left = e ∷ es;
                order = refl;
                rows = Pointwise-same rows;
                ends = (failed_with, unread, refl);
              })
          | inr (change, made) ↦
              let n' = count_success (route h e.event_type e) n in
              let rows' = update_where (λ row. row.id == e.id) change rows in
              let rest = process_all-IsRun es n' rows' in
              rw (process_all-next e es n rows change made) (record {
                settled = e ∷ rest.settled;
                left = rest.left;
                order = ap (λ es. e ∷ es) rest.order;
                rows = Pointwise-head e change made rest.settled rows _ rest.rows;
                ends =
                    subst (λ k. Ends rest.left k (process_all now max_attempts h es n' rows').0)
                      (count_success-eq (route h e.event_type e) n (successes rest.settled))
                      rest.ends;
              })
        ]

-- The worker settles the claimed events in their order. The row of each that it comes to is PROCESSED on
-- success, FAILED when the attempts that are read have reached the maximum, and else RETRYABLE; every
-- other row stays as the claim left it. It returns the number of successes when it has come to all of
-- them, and raises at the first failed event that cannot be read after the rollback.
pub process_outbox_events-settles :
    (batch_size lease max_attempts now : ℕ) (h : Handlers) (locked : ℕ → Bool)
    (es : List OutboxEvent)
    → let (events, claimed) = claim_pending_events batch_size lease now locked es in
      let (result, after) = process_outbox_events batch_size lease max_attempts now h locked es in
      IsRun now max_attempts h 0 events claimed after result
unfolding process_outbox_events
process_outbox_events-settles batch_size lease max_attempts now h locked es =
    let claimed = claim_pending_events batch_size lease now locked es in
    process_all-IsRun now max_attempts h claimed.0 0 claimed.1
