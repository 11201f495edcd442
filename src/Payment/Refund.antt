-- ===== src/Payment/Refund.antt =====
-- backend/app/domain/payment/service.py, refund_payment.
use fielded_online.Common.Decimal.{minus, round_half_up}
use fielded_online.Common.{ℕ, suc, ◌*◌, not, [], ◌∷◌, ◌++◌, Option, some, is_in, if◌then◌else◌}
use fielded_online.Common.Int.{ℤ, pos, negsuc, ◌+ℤ◌, ◌-ℤ◌, ltb_ℤ, leb_ℤ}
use fielded_online.Common.Outcome.{
  Action, pure, raise, gets, raise_if, or_raise, modify, ◌>>=◌, ◌>>◌, validation, state_transition,
  unexpected,
}
use fielded_online.Status.Payments.{
  PaymentStatus, payment_status_enum, succeeded, partially_refunded, refunded,
}
use fielded_online.Store.{Store, RefundRequest, save_payment, emit_outbox_event}
use fielded_online.Store.Outbox.{payment_event}
use fielded_online.Store.Payments.{Payment}
use fielded_online.Payment.Provider.{PaymentProvider}
use fielded_online.Payment.Connect.{business_stripe_account}
use fielded_online.Payment.Balance.{update_invoice_payment_status, validate_transition}

-- The argument `amount`: absent, a text that is no number (or an infinite one, which is refused in the
-- same way), NaN, or a number of at most six decimal places, in millionths.
pub data RefundAmount : Type 0 where
  whole malformed not_a_number : RefundAmount
  part : ℤ → RefundAmount

-- A column of hundredths as a Decimal in millionths.
abbrev pub millionths : ℤ → ℤ
millionths (pos n) = pos (n * 10000)
millionths (negsuc n) = minus (suc n * 10000)

-- What Numeric(12, 2) keeps of a Decimal: halves go away from zero.
unfoldable pub stored : ℤ → ℤ
stored (pos n) = pos (round_half_up n 10000)
stored (negsuc n) = minus (round_half_up (suc n) 10000)

-- The answer is in millionths: nothing is rounded before the provider is asked. A comparison with NaN
-- raises.
unfoldable pub refund_amount : Payment → RefundAmount → Action Store ℤ
refund_amount p whole = pure (millionths p.amount -ℤ millionths p.refunded_amount)
refund_amount p malformed = raise validation
refund_amount p not_a_number = raise unexpected
refund_amount p (part a) = do
  raise_if (leb_ℤ a (pos 0)) validation
  raise_if (ltb_ℤ (millionths p.amount -ℤ millionths p.refunded_amount) a) validation
  pure a

abbrev pub refund_request : Payment → ℤ → Option ℕ → RefundRequest
refund_request p amount account = record {
  provider_payment_reference = p.provider_reference;
  amount = amount;
  payment_id = p.id;
  stripe_account = account;
}

unfoldable pub refund_status : ℤ → ℤ → PaymentStatus
refund_status new_refunded payment_amount =
    if leb_ℤ payment_amount new_refunded then refunded else partially_refunded

-- What follows a successful answer of the provider. The status is chosen by the exact sum, and the
-- column rounds it. The result is the row as the table holds it.
unfoldable pub record_refund : ℕ → Payment → ℤ → Option ℕ → Action Store Payment
record_refund now payment amount reference = do
  let new_refunded = millionths payment.refunded_amount +ℤ amount
  let p = record payment {
    refunded_amount = stored new_refunded;
    refunded_at = some now;
    refund_provider_reference = reference;
    status = refund_status new_refunded (millionths payment.amount);
  }
  validate_transition payment.status p.status
  modify (save_payment p)
  modify (update_invoice_payment_status p)
  emit_outbox_event now (payment_event refunded) p.business_id p.id
  pure p

-- The provider is asked, and its answer recorded.
unfoldable pub send_refund : ℕ → PaymentProvider → Payment → ℤ → Action Store Payment
send_refund now prov payment refund = do
  account ← gets (business_stripe_account prov payment.business_id)
  let sent = refund_request payment refund account
  modify (λ s. record s { refunds_sent = s.refunds_sent ++ (sent ∷ []) })
  raise_if (not (prov.refund sent).success) validation
  record_refund now payment refund (prov.refund sent).provider_reference

unfoldable pub refund_payment :
    ℕ → Option PaymentProvider → RefundAmount → Payment → Action Store Payment
refund_payment now provider amount payment = do
  raise_if (not (is_in payment.status (succeeded ∷ partially_refunded ∷ []))) state_transition
  prov ← or_raise provider validation
  refund ← refund_amount payment amount
  send_refund now prov payment refund
