-- ===== src/Tests/Journey.antt =====
-- The customer's journey at concrete inputs.
use fielded_online.Common.{some, [], ◌∷◌, ◌≡◌, ◌⊎◌, refl}
use fielded_online.Common.Int.{◌+ℤ◌, ◌-ℤ◌}
use fielded_online.Common.Outcome.{conflict, ok, err, integrity_error}
use fielded_online.Status.Enquiries
use fielded_online.Status.Quotes
use fielded_online.Status.Bookings
use fielded_online.Status.Executions
use fielded_online.Store.{Store, request, emit_outbox_event}
use fielded_online.Store.Lifecycle.{Booking, Enquiry, ServiceExecution}
use fielded_online.Lifecycle.Enquiries.{customer, business, transition_enquiry}
use fielded_online.Lifecycle.Quotes.{transition_quote, move_enquiry}
use fielded_online.Lifecycle.Bookings.{find_booking, transition_booking}
use fielded_online.Lifecycle.Completion.{
  create_completion_records, issue_invoice, cascade_booking_completion,
}
use fielded_online.Lifecycle.Executions.{
  new_execution, create_from_booking, transition, complete_service, complete_records,
  updated_execution, no_details,
}
use fielded_online.Lifecycle.Authority.{
  transition_enquiry-customer, transition_quote-customer, transition_booking-customer,
}
use fielded_online.Lifecycle.Access.{check_booking}
use fielded_online.Lifecycle.Single.{create_from_booking_again}
use fielded_online.Lifecycle.Once.{enquiry_review_again_fails}
use fielded_online.Lifecycle.Invoicing.{AddsInvoice, complete_service-AddsInvoice}
use fielded_online.Tests.Sample.{
  sample_store, paid_payment, sample_enquiry, sample_quote, sample_booking, sample_execution,
  sample_completion,
}

abbrev start : Store
start = sample_store paid_payment

abbrev with_status : Enquiries.EnquiryStatus → Enquiry
with_status st = record sample_enquiry { status = st }

abbrev after_cancel : Store
after_cancel = (transition_enquiry 1 sample_enquiry Enquiries.cancelled customer start).1

cancel-returns :
    transition_enquiry 1 sample_enquiry Enquiries.cancelled customer start
    ≡ (ok (with_status Enquiries.cancelled), after_cancel)
unfolding transition_enquiry emit_outbox_event
cancel-returns = refl

transition_enquiry-customer_example :
    (Enquiries.cancelled ≡ Enquiries.cancelled)
    × ((sample_enquiry.status ≡ Enquiries.draft) ⊎ (sample_enquiry.status ≡ Enquiries.submitted))
transition_enquiry-customer_example =
    transition_enquiry-customer 1 sample_enquiry (with_status Enquiries.cancelled)
      Enquiries.cancelled start after_cancel cancel-returns

abbrev after_accept : Store
after_accept = (transition_quote 1 sample_quote Quotes.accepted customer start).1

accept-returns :
    transition_quote 1 sample_quote Quotes.accepted customer start
    ≡ (ok (record sample_quote { status = Quotes.accepted }), after_accept)
unfolding transition_quote move_enquiry emit_outbox_event
accept-returns = refl

transition_quote-customer_example :
    (sample_quote.status ≡ Quotes.issued)
    × ((Quotes.accepted ≡ Quotes.accepted) ⊎ (Quotes.accepted ≡ Quotes.declined))
transition_quote-customer_example =
    transition_quote-customer 1 sample_quote (record sample_quote { status = Quotes.accepted })
      Quotes.accepted start after_accept accept-returns

abbrev after_call_off : Store
after_call_off = (transition_booking 1 sample_booking Bookings.cancelled customer start).1

call_off-returns :
    transition_booking 1 sample_booking Bookings.cancelled customer start
    ≡ (ok (record sample_booking { status = Bookings.cancelled }), after_call_off)
unfolding transition_booking move_enquiry emit_outbox_event
call_off-returns = refl

transition_booking-customer_example :
    (Bookings.cancelled ≡ Bookings.cancelled)
    ⊎ ((sample_booking.status ≡ Bookings.proposed) × (Bookings.cancelled ≡ Bookings.accepted))
transition_booking-customer_example =
    transition_booking-customer 1 sample_booking
      (record sample_booking { status = Bookings.cancelled }) Bookings.cancelled start
      after_call_off call_off-returns

abbrev after_review : Store
after_review =
    (transition_enquiry 1 (with_status Enquiries.received) Enquiries.in_review business start).1

review-returns :
    transition_enquiry 1 (with_status Enquiries.received) Enquiries.in_review business start
    ≡ (ok (with_status Enquiries.in_review), after_review)
unfolding transition_enquiry emit_outbox_event
review-returns = refl

abbrev after_question : Store
after_question =
    (transition_enquiry 2 (with_status Enquiries.in_review) Enquiries.needs_information business
      after_review).1

question-returns :
    transition_enquiry 2
      (with_status Enquiries.in_review)
      Enquiries.needs_information
      business
      after_review
    ≡ (ok (with_status Enquiries.needs_information), after_question)
unfolding transition_enquiry emit_outbox_event
question-returns = refl

enquiry_review_again_fails_example :
    request
      (transition_enquiry 3 (with_status Enquiries.needs_information) Enquiries.in_review business)
      after_question
    ≡ (err integrity_error, after_question)
enquiry_review_again_fails_example =
    enquiry_review_again_fails 1 2 3 (with_status Enquiries.received)
      (with_status Enquiries.in_review) (with_status Enquiries.needs_information) business business
      business start after_review after_question review-returns question-returns refl

abbrev done : ServiceExecution
done = updated_execution 60 (no_details 3) Executions.completed sample_execution

abbrev after_completion : Store
after_completion = (complete_service sample_completion sample_execution (no_details 3) start).1

completion-returns :
    complete_service sample_completion sample_execution (no_details 3) start
    ≡ (ok done, after_completion)
unfolding complete_service transition complete_records create_completion_records issue_invoice
    cascade_booking_completion transition_booking move_enquiry emit_outbox_event ◌+ℤ◌ ◌-ℤ◌
completion-returns = refl

complete_service-AddsInvoice_example :
    AddsInvoice sample_execution start after_completion
    × (complete_service sample_completion done (no_details 4) after_completion
        ≡ (ok done, after_completion))
complete_service-AddsInvoice_example =
    complete_service-AddsInvoice sample_completion sample_completion sample_execution done
      (no_details 3) (no_details 4) start after_completion refl refl completion-returns

-- The booking before its execution is made.
abbrev before_execution : Store
before_execution = record start { executions = [] }

abbrev first_execution : ServiceExecution
first_execution = new_execution 55 1 sample_booking before_execution

abbrev after_execution : Store
after_execution = record start { executions = first_execution ∷ [] }

execution-returns :
    create_from_booking 55 22 1 before_execution ≡ (ok first_execution, after_execution)
unfolding create_from_booking check_booking
execution-returns = refl

create_from_booking_again_example :
    (b : Booking) × (find_booking 22 before_execution ≡ some b)
    × (first_execution.business_id ≡ 1)
    × (b.business_id ≡ 1)
    × ((b.status ≡ Bookings.confirmed) ⊎ (b.status ≡ Bookings.in_progress))
    × (create_from_booking 56 22 1 after_execution ≡ (err conflict, after_execution))
create_from_booking_again_example =
    create_from_booking_again 55 56 22 1 1 first_execution before_execution after_execution
      execution-returns
