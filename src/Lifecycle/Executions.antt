-- ===== src/Lifecycle/Executions.antt =====
-- backend/app/domain/service_execution/service.py, ServiceExecutionService.
use fielded_online.Common.{
  ℕ, true, false, not, [], ◌∷◌, ◌++◌, Option, none, some, length, is_in, same,
}
use fielded_online.Common.Outcome.{
  Action, ok, pure, raise_if, modify, when, continue, ◌>>◌, state_transition,
}
use fielded_online.Status.Bookings.{booking_status_enum}
use fielded_online.Status.Executions.{
  ServiceExecutionStatus, execution_status_enum, execution_transitions, scheduled, in_progress,
  completed, cancelled, no_show,
}
use fielded_online.Store.{Store, put_execution, emit_outbox_event}
use fielded_online.Store.Outbox.{service_event}
use fielded_online.Store.Lifecycle.{Booking, ServiceExecution}
use fielded_online.Lifecycle.Access.{check_booking}
use fielded_online.Lifecycle.Completion.{
  Completion, create_completion_records, cascade_booking_completion,
}

abbrev pub save_execution : ServiceExecution → Store → Store
save_execution x s = record s { executions = put_execution x s.executions }

abbrev pub new_execution : ℕ → ℕ → Booking → Store → ServiceExecution
new_execution now business_id booking s = record {
  id = length s.executions;
  business_id = business_id;
  customer_id = booking.customer_id;
  booking_id = booking.id;
  service_offer_id = booking.service_offer_id;
  quote_id = some booking.quote_id;
  status = in_progress;
  scheduled_at = booking.requested_at;
  started_at = some now;
  completed_at = none;
  completed_by = none;
  completion_evidence = none;
  notes = none;
}

abbrev pub insert_execution : ServiceExecution → Action Store ServiceExecution
insert_execution x s = (ok x, record s { executions = s.executions ++ (x ∷ []) })

unfoldable pub create_from_booking : ℕ → ℕ → ℕ → Action Store ServiceExecution
create_from_booking now booking_id business_id s =
    continue (λ b. insert_execution (new_execution now business_id b s))
      (check_booking booking_id business_id s) s

-- `if value: field = value`
abbrev pub or_old : Option ℕ → Option ℕ → Option ℕ
or_old none old = old
or_old (some new) old = some new

-- What the caller of `transition` may give.
pub record Details : Type 0 where
  pub actor_id : Option ℕ
  pub notes : Option ℕ
  pub completion_evidence : Option ℕ

abbrev pub stamped : ℕ → Details → ServiceExecutionStatus → ServiceExecution → ServiceExecution
stamped now d in_progress x = record x { started_at = some now }
stamped now d completed x = record x {
  completed_at = some now;
  completed_by = d.actor_id;
  completion_evidence = or_old d.completion_evidence x.completion_evidence;
}
stamped now d scheduled x = x
stamped now d cancelled x = x
stamped now d no_show x = x

abbrev pub updated_execution :
    ℕ → Details → ServiceExecutionStatus → ServiceExecution → ServiceExecution
updated_execution now d target x =
    let x' = stamped now d target x in
    record x' { notes = or_old d.notes x'.notes; status = target }

unfoldable pub complete_records : Completion → ServiceExecution → Action Store (Unit {0})
complete_records c x = do create_completion_records c x; cascade_booking_completion c.now x

unfoldable pub transition :
    Completion → ServiceExecution → ServiceExecutionStatus → Details → Action Store ServiceExecution
transition c execution target d = do
  raise_if (not (is_in target (execution_transitions execution.status))) state_transition
  let x = updated_execution c.now d target execution
  modify (save_execution x)
  when (same target completed) (complete_records c x)
  emit_outbox_event c.now (service_event target) x.business_id x.id
  pure x

unfoldable pub complete_service :
    Completion → ServiceExecution → Details → Action Store ServiceExecution
complete_service c x d s = elim (same x.status completed) [
  | true ↦ (pure x) s
  | false ↦ transition c x completed d s
]

abbrev pub no_details : ℕ → Details
no_details actor = record { actor_id = some actor; notes = none; completion_evidence = none }

unfoldable pub start_service : Completion → ServiceExecution → ℕ → Action Store ServiceExecution
start_service c x actor = transition c x in_progress (no_details actor)

unfoldable pub cancel_service :
    Completion → ServiceExecution → ℕ → Option ℕ → Action Store ServiceExecution
cancel_service c x actor notes =
    transition c x cancelled (record (no_details actor) { notes = notes })

unfoldable pub mark_no_show :
    Completion → ServiceExecution → ℕ → Option ℕ → Action Store ServiceExecution
mark_no_show c x actor notes = transition c x no_show (record (no_details actor) { notes = notes })
