-- ===== src/Payment/Webhook.antt =====
-- backend/app/domain/payment/service.py, handle_webhook and _map_webhook_to_status.
use fielded_online.Common.{
  ℕ, Bool, false, ◌||◌, Option, none, some, List, [], ◌∷◌, select, is_in, same, ◌==◌, if◌then◌else◌,
}
use fielded_online.Common.Outcome.{Action, Result, ok, err, unexpected, pure, modify, ◌>>◌}
use fielded_online.Status.Payments.{
  PaymentStatus, payment_status_enum, payment_transitions, succeeded, failed, expired, cancelled,
  processing,
}
use fielded_online.Store.{Store, save_payment}
use fielded_online.Store.Payments.{Payment}
use fielded_online.Payment.Balance.{update_invoice_payment_status}

-- The event type, by which of the five words occur in its lower-cased text, and its code; the
-- provider's status, by which of the five words it is.
pub record WebhookEvent : Type 0 where
  pub reference : ℕ
  pub event_type : ℕ
  pub mentions : PaymentStatus → Bool
  pub provider_status : Option PaymentStatus

abbrev pub says : WebhookEvent → PaymentStatus → Bool
says e word = e.mentions word || elim e.provider_status [ none ↦ false | some s ↦ same s word ]

unfoldable pub map_webhook_to_status : WebhookEvent → Option PaymentStatus
map_webhook_to_status e =
    if says e succeeded
    then some succeeded
    else if says e failed
    then some failed
    else if says e expired
    then some expired
    else if says e cancelled
    then some cancelled
    else if says e processing
    then some processing
    else none

abbrev pub has_reference : ℕ → Option ℕ → Bool
has_reference r none = false
has_reference r (some q) = q == r

-- scalar_one_or_none: more than one row is an exception.
abbrev pub at_most_one : List Payment → Result (Option Payment)
at_most_one [] = ok none
at_most_one (p ∷ []) = ok (some p)
at_most_one (p ∷ q ∷ ps) = err unexpected

-- get_by_provider_reference
abbrev pub rows_of_reference : ℕ → Store → List Payment
rows_of_reference r s = select (λ p. has_reference r p.provider_reference) s.payments

abbrev pub find_by_reference : ℕ → Store → Result (Option Payment)
find_by_reference r s = at_most_one (rows_of_reference r s)

-- The payment once the transition to the target is made.
abbrev pub webhook_payment : ℕ → ℕ → PaymentStatus → Payment → Payment
webhook_payment now event succeeded p = record p { status = succeeded; paid_at = some now }
webhook_payment now event failed p = record p { status = failed; failure_code = some event }
webhook_payment now event target p = record p { status = target }

unfoldable pub apply_webhook : ℕ → ℕ → PaymentStatus → Payment → Action Store (Option Payment)
apply_webhook now event target p =
    if same p.status target
    then pure (some p)
    else if is_in target (payment_transitions p.status)
    then (let p' = webhook_payment now event target p in
        do
          modify (save_payment p')
          modify (λ s. if same target succeeded then update_invoice_payment_status p' s else s)
          pure (some p'))
    else pure (some p)

abbrev pub on_payment : ℕ → WebhookEvent → Payment → Action Store (Option Payment)
on_payment now e p s = elim (map_webhook_to_status e) [
  | none ↦ pure (some p) s
  | some target ↦ apply_webhook now e.event_type target p s
]

abbrev pub on_found : ℕ → WebhookEvent → Result (Option Payment) → Action Store (Option Payment)
on_found now e (err error) s = (err error, s)
on_found now e (ok none) s = pure none s
on_found now e (ok (some p)) s = on_payment now e p s

unfoldable pub handle_webhook : ℕ → WebhookEvent → Action Store (Option Payment)
handle_webhook now e s = on_found now e (find_by_reference e.reference s) s
