-- ===== src/Tests/Queue.antt =====
-- The outbox at a concrete table.
use fielded_online.Common.{ℕ, Bool, false, List, [], ◌∷◌, none, some, ◌==◌, if◌then◌else◌}
use fielded_online.Store.Outbox.{OutboxEvent, pending, processing, invoice_issued, voice_event}
use fielded_online.Outbox.Claims.{claim_pending_events}
use fielded_online.Outbox.Promises.{IsClaimed}
use fielded_online.Outbox.Promised.{claim_pending_events-IsClaimed}
use fielded_online.Outbox.Worker.{Handlers, process_outbox_events}
use fielded_online.Outbox.Settled.{IsRun, process_outbox_events-settles}

abbrev event : ℕ → ℕ → OutboxEvent
event i available = record {
  id = i;
  business_id = 1;
  event_type = invoice_issued;
  aggregate_id = i;
  status = pending;
  attempt_count = 0;
  available_at = available;
  processed_at = none;
  last_error = none;
  processing_started_at = none;
}

-- Two events that wait, and one that a worker left behind.
abbrev table : List OutboxEvent
table =
    event 0 7
    ∷ event 1 3
    ∷ record (event 2 1) {
      status = processing;
      attempt_count = 4;
      event_type = voice_event 0;
      processing_started_at = some 2;
    }
    ∷ []

abbrev unlocked : ℕ → Bool
unlocked i = false

-- No voice orchestrator; the message of event 2 fails, and no event can be read after that.
abbrev handlers : Handlers
handlers = record {
  voice = none;
  communication = λ e. if e.id == 2 then some 9 else none;
  no_voice_error = 13;
  attempts_after_rollback = λ e. none;
}

claim_pending_events-IsClaimed_example :
    let (batch, after) = claim_pending_events 2 300 400 unlocked table in
    IsClaimed 2 300 400 unlocked table batch after
claim_pending_events-IsClaimed_example = claim_pending_events-IsClaimed 2 300 400 unlocked table

process_outbox_events-settles_example :
    let (events, claimed) = claim_pending_events 2 300 400 unlocked table in
    let (result, after) = process_outbox_events 2 300 5 400 handlers unlocked table in
    IsRun 400 5 handlers 0 events claimed after result
process_outbox_events-settles_example =
    process_outbox_events-settles 2 300 5 400 handlers unlocked table
