-- ===== src/Tests/Payments.antt =====
-- Payments at concrete inputs.
use fielded_online.Common.{ℕ, Option, arith, ◌≡◌, ◌↔◌, refl, same, [], ◌∷◌, ◌++◌, none, some}
use fielded_online.Common.Int.{ℤ, pos, ◌+ℤ◌, ◌-ℤ◌, ◌≤ℤ◌}
use fielded_online.Common.Outcome.{Result, ok, err}
use fielded_online.Status.Payments.{payment_status_enum, refunded, partially_refunded, succeeded}
use fielded_online.Status.Payments
use fielded_online.Store.{PaymentRequest, Store, request, emit_outbox_event}
use fielded_online.Store.Payments.{Payment}
use fielded_online.Payment.Balance.{
  validate_transition, update_invoice_payment_status, sync_invoice, derived_status,
  successful_total, refunded_total, set_invoice_status, sync_ledger,
}
use fielded_online.Payment.Connect.{
  resolve_stripe_connect, application_fee, business_stripe_account,
}
use fielded_online.Payment.Checks.{NewPayment, check_payment, outstanding}
use fielded_online.Payment.Service.{
  process_payment, record_result, record_success, create_payment, insert_payment, pending_payment,
  add_payment,
}
use fielded_online.Payment.Webhook.{WebhookEvent, handle_webhook}
use fielded_online.Payment.Refund.{
  part, refund_payment, refund_amount, send_refund, record_refund, refund_status, refund_request,
  stored,
}
use fielded_online.Payment.Money.{IsSound, IsRefunded, Fits, refund_payment-IsSound}
use fielded_online.Payment.SecondRefund.{refund_twice_fails, second_error, sent_request}
use fielded_online.Payment.Outstanding.{
  create_payment_again, create_payment_accepts, kept_total, fully_refunded_total,
}
use fielded_online.Payment.Charge.{answered_status, process_payment-charges}
use fielded_online.Payment.Delivery.{handle_webhook_again}
use fielded_online.Tests.Sample.{
  sample_store, sample_payment, paid_payment, sample_invoice, willing, gbp,
}

abbrev before : Store
before = sample_store paid_payment

-- A refund of 20.00 out of 60.00.
abbrev first_refund : Result Payment × Store
first_refund = refund_payment 14 (some willing) (part (pos 20000000)) paid_payment before

abbrev refunded_once : Payment
refunded_once = record paid_payment {
  refunded_amount = pos 2000;
  refunded_at = some 14;
  refund_provider_reference = some 41;
  status = partially_refunded;
}

abbrev after_first : Store
after_first = first_refund.1

first_refund-returns :
    refund_payment 14 (some willing) (part (pos 20000000)) paid_payment before
    ≡ (ok refunded_once, after_first)
unfolding refund_payment refund_amount send_refund record_refund refund_status stored ◌+ℤ◌ ◌-ℤ◌
    validate_transition business_stripe_account update_invoice_payment_status sync_invoice
    derived_status successful_total refunded_total set_invoice_status sync_ledger emit_outbox_event
first_refund-returns = refl

paid_payment-IsSound : IsSound paid_payment
paid_payment-IsSound = record { nonneg = omega arith; bounded = omega arith }

refund_payment-IsSound_example :
    (r : ℤ) × Fits paid_payment r
    × IsRefunded paid_payment refunded_once r
    × (account : Option ℕ) × (after_first.refunds_sent
        ≡ before.refunds_sent ++ (refund_request paid_payment r account ∷ []))
refund_payment-IsSound_example =
    refund_payment-IsSound 14 (some willing) (part (pos 20000000)) paid_payment refunded_once before
      after_first paid_payment-IsSound first_refund-returns

-- 59.996 of 60.00: the column says that all is refunded, and the status does not.
abbrev almost_refunded : Payment
almost_refunded = record paid_payment {
  refunded_amount = pos 6000;
  refunded_at = some 14;
  refund_provider_reference = some 41;
  status = partially_refunded;
}

almost_all :
    (refund_payment 14 (some willing) (part (pos 59996000)) paid_payment before).0
    ≡ ok almost_refunded
unfolding refund_payment refund_amount send_refund record_refund refund_status stored ◌+ℤ◌ ◌-ℤ◌
    validate_transition business_stripe_account update_invoice_payment_status sync_invoice
    derived_status successful_total refunded_total set_invoice_status sync_ledger emit_outbox_event
almost_all = refl

second_amount :
    refund_amount refunded_once (part (pos 10000000)) after_first ≡ (ok (pos 10000000), after_first)
unfolding refund_amount ◌-ℤ◌
second_amount = refl

refund_twice_fails_example :
    request (refund_payment 15 (some willing) (part (pos 10000000)) refunded_once) after_first ≡ (
      err (second_error (pos 20000000 +ℤ pos 10000000) (pos 60000000)),
      record after_first {
        refunds_sent =
            after_first.refunds_sent
            ++ (sent_request willing refunded_once (pos 10000000) after_first ∷ []);
      },
    )
refund_twice_fails_example =
    refund_twice_fails 14 15 (some willing) willing (part (pos 20000000)) (part (pos 10000000))
      paid_payment refunded_once before after_first (pos 10000000) first_refund-returns refl
      second_amount refl

-- A second payment, of 40.00.
abbrev next_payment : NewPayment
next_payment = record {
  business_id = 1;
  customer_id = 2;
  invoice_id = 5;
  amount = some (pos 4000);
  currency = gbp;
  payment_method = 1;
  idempotency_key = 31;
  provider_name = 1;
}

abbrev next_row : Payment
next_row = pending_payment next_payment sample_invoice (pos 4000) before

next_payment-returns :
    create_payment next_payment before ≡ (ok next_row, add_payment next_row before)
unfolding create_payment insert_payment check_payment outstanding successful_total refunded_total
    ◌+ℤ◌ ◌-ℤ◌
next_payment-returns = refl

create_payment_again_example :
    create_payment next_payment (add_payment next_row before)
    ≡ (ok next_row, add_payment next_row before)
create_payment_again_example =
    create_payment_again next_payment next_row before (add_payment next_row before)
      next_payment-returns

create_payment_accepts_example :
    (create_payment next_payment before ≡ (ok next_row, add_payment next_row before)) ↔ (
      (pos 1 ≤ℤ pos 4000)
      × (pos 4000
          ≤ℤ (pos 10000 -ℤ kept_total 5 before.payments) +ℤ fully_refunded_total 5 before.payments))
create_payment_accepts_example =
    create_payment_accepts next_payment sample_invoice (pos 4000) before refl refl refl refl refl
      refl

-- The provider confirms a payment that is being processed.
abbrev sent_payment : Payment
sent_payment = record sample_payment { status = Payments.processing; provider_reference = some 40 }

abbrev confirmation : WebhookEvent
confirmation = record {
  reference = 40;
  event_type = 3;
  mentions = λ s. same s succeeded;
  provider_status = none;
}

handle_webhook_again_example :
    let (x, s') = handle_webhook 16 confirmation (sample_store sent_payment) in
    handle_webhook 17 confirmation s' ≡ (x, s')
handle_webhook_again_example =
    handle_webhook_again 16 17 confirmation (sample_store sent_payment) (refl, tt)

-- The provider takes the money at once.
abbrev charged_payment : Payment
charged_payment = record sample_payment {
  status = succeeded;
  provider_reference = some 40;
  paid_at = some 12;
  provider_evidence = none;
}

abbrev after_charge : Store
after_charge = (process_payment 12 (some willing) sample_payment (sample_store sample_payment)).1

charge-returns :
    process_payment 12 (some willing) sample_payment (sample_store sample_payment)
    ≡ (ok charged_payment, after_charge)
unfolding process_payment validate_transition resolve_stripe_connect record_result record_success
    update_invoice_payment_status sync_invoice derived_status successful_total refunded_total
    set_invoice_status sync_ledger emit_outbox_event application_fee ◌+ℤ◌ ◌-ℤ◌
charge-returns = refl

process_payment-charges_example :
    (sample_payment.status ≡ Payments.pending)
    × (charged_payment.amount ≡ sample_payment.amount)
    × (r : PaymentRequest) × (after_charge.payments_sent ≡ [] ++ (r ∷ []))
    × (r.amount ≡ sample_payment.amount)
    × (r.idempotency_key ≡ sample_payment.idempotency_key)
    × (charged_payment.status ≡ answered_status (willing.initiate_payment r))
process_payment-charges_example =
    process_payment-charges 12 willing sample_payment charged_payment (sample_store sample_payment)
      after_charge charge-returns
