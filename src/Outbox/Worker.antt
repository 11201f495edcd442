-- ===== src/Outbox/Worker.antt =====
-- backend/app/workers/__init__.py, process_outbox_events. What the orchestrators do with an event is
-- a parameter, which answers the error that they raise. What reading a claimed row answers after a
-- rollback is a parameter too: SQLAlchemy expires every object then, and reloads it or raises. Neither
-- a commit that fails is modelled, nor the booking automation, whose failures the loop swallows.
use fielded_online.Common.{
  ℕ, suc, Bool, List, [], ◌∷◌, Option, none, some, leb, ◌==◌, if◌then◌else◌,
}
use fielded_online.Common.Outcome.{Result, ok, err, unexpected}
use fielded_online.Store.Outbox.{
  OutboxEvent, EventType, payment_event, enquiry_event, quote_event, booking_event, service_event,
  invoice_issued, voice_event,
}
use fielded_online.Outbox.Claims.{
  update_where, claim_pending_events, mark_processed, mark_retryable, mark_failed,
}

-- The orchestrators: `none` is success. The attempts of an event after a rollback: `none` is an
-- exception. A worker may have no voice orchestrator.
pub record Handlers : Type 0 where
  pub voice : Option (OutboxEvent → Option ℕ)
  pub communication : OutboxEvent → Option ℕ
  pub no_voice_error : ℕ
  pub attempts_after_rollback : OutboxEvent → Option ℕ

abbrev pub run_voice : Handlers → Option (OutboxEvent → Option ℕ) → OutboxEvent → Option ℕ
run_voice h none e = some h.no_voice_error
run_voice h (some v) e = v e

-- `voice.*` events go to the voice orchestrator.
abbrev pub route : Handlers → EventType → OutboxEvent → Option ℕ
route h (voice_event n) e = run_voice h h.voice e
route h (payment_event s) e = h.communication e
route h (enquiry_event s) e = h.communication e
route h (quote_event s) e = h.communication e
route h (booking_event s) e = h.communication e
route h (service_event s) e = h.communication e
route h invoice_issued e = h.communication e

-- How the row of an event is marked, by the answer and by the attempts that are read after it. A failure
-- is followed by a rollback, and reading the event may raise then: `none`.
unfoldable pub mark : ℕ → ℕ → Option ℕ → Option ℕ → Option (OutboxEvent → OutboxEvent)
mark now max_attempts none attempts = some (mark_processed now)
mark now max_attempts (some error) none = none
mark now max_attempts (some error) (some attempts) = some (λ row.
    if leb max_attempts attempts then mark_failed now error row else mark_retryable now error row)

abbrev pub count_success : Option ℕ → ℕ → ℕ
count_success none n = suc n
count_success (some error) n = n

-- The loop over the claimed events, on the number processed and the table. An exception outside the
-- `try` ends it; what was committed before stays.
unfoldable pub process_all :
    ℕ → ℕ → Handlers → List OutboxEvent → ℕ → List OutboxEvent → Result ℕ × List OutboxEvent
process_all now max_attempts h [] n table = (ok n, table)
process_all now max_attempts h (e ∷ es) n table =
    let answer = route h e.event_type e in
    elim (mark now max_attempts answer (h.attempts_after_rollback e)) [
      | none ↦ (err unexpected, table)
      | some change ↦
          process_all now max_attempts h es (count_success answer n)
            (update_where (λ row. row.id == e.id) change table)
    ]

unfoldable pub process_outbox_events :
    ℕ → ℕ → ℕ → ℕ → Handlers → (ℕ → Bool) → List OutboxEvent → Result ℕ × List OutboxEvent
process_outbox_events batch_size lease max_attempts now h locked es =
    let (events, table) = claim_pending_events batch_size lease now locked es in
    process_all now max_attempts h events 0 table
