-- ===== src/Webhook.antt =====
-- api/routes/webhooks.py: what a provider's event does, once its bytes were verified and parsed.
pub mod Once
mod Tests
use trust_gate_merchant_copi.Base.{
  ℕ, ◌-◌, Bool, true, false, not, ◌&&◌, ◌||◌, Option, none, some, List, [], ◌∷◌, ltb, ◌==◌,
  if◌then◌else◌, is_some, holds_id, ℤ, pos, find, update_where,
}
use trust_gate_merchant_copi.Models.{
  Uuid, Text, Time, EventType, payment_authorized, payment_captured, payment_failed,
  payment_refunded, DbError, check_violation, unique_violation, Reason, machine, event,
  webhook_tenant_mismatch, webhook_timestamp_stale, webhook_duplicate_event, StateCode, Error,
  state_machine_error, database_error, State, provider_pending, captured, failed, refunded, Payment,
  ProviderEvent, AuditEvent, webhook_rejected, rejected, Db, is_payment,
}
use trust_gate_merchant_copi.Session.{
  Result, ok, err, Action, pure, raise, gets, modify, raise_if, or_raise, atomically, add_audit,
  ◌>>=◌, ◌>>◌,
}
use trust_gate_merchant_copi.Chain.Rows.{Env}
use trust_gate_merchant_copi.Machine.Transition.{transition}
use trust_gate_merchant_copi.Requests.{request_event}

-- `_TOLERANCE`, in microseconds
abbrev pub tolerance : ℕ
tolerance = 300000000

-- `_EVENT_TARGETS`
abbrev pub event_target : EventType → State
event_target payment_authorized = provider_pending
event_target payment_captured = captured
event_target payment_failed = failed
event_target payment_refunded = refunded

-- `ProviderWebhookEvent`
pub record WebhookEvent : Type 0 where
  pub tenant_id : Uuid
  pub payment_id : Uuid
  pub provider_event_id : Text
  pub event_type : EventType
  pub occurred_at : Time

-- The answers: 202, and 409 or 422 with a detail.
pub data WebhookReply : Type 0 where
  accepted : WebhookReply
  refused_with : Reason → WebhookReply

abbrev pub request_of_payment : Option Payment → Option Uuid
request_of_payment none = none
request_of_payment (some p) = some p.payment_request_id

abbrev pub id_of : Option Payment → Option Uuid
id_of none = none
id_of (some p) = some p.id

-- `_audit_rejection`, and the answer that goes with it.
unfoldable pub reject : Env → WebhookEvent → Option Payment → Reason → Action WebhookReply
reject env e payment reason = do
  modify (
      add_audit (
        request_event e.tenant_id (request_of_payment payment) (id_of payment) env.new_correlation
          webhook_rejected (rejected reason (e.provider_event_id ∷ e.payment_id ∷ []))))
  pure (refused_with reason)

abbrev amount_or_zero : Option ℤ → ℤ
amount_or_zero none = pos 0
amount_or_zero (some n) = n

-- What the event says of the amounts.
unfoldable pub set_amounts : EventType → Payment → Payment
set_amounts payment_captured p = record p {
  captured_amount_minor = amount_or_zero p.authorized_amount_minor;
}
set_amounts payment_refunded p = record p { refunded_amount_minor = p.captured_amount_minor }
set_amounts payment_authorized p = p
set_amounts payment_failed p = p

abbrev pub event_row : WebhookEvent → ProviderEvent
event_row e = record {
  tenant_id = e.tenant_id;
  provider_event_id = e.provider_event_id;
  event_type = e.event_type;
  payment_id = e.payment_id;
  processed_at = none;
}

-- The savepoint around the event.
unfoldable pub record_event : Env → WebhookEvent → Action (Unit {0})
record_event env e = atomically (do
  modify (λ s. record s {
    provider_events = event_row e ∷ s.provider_events;
    payments =
        update_where (is_payment e.tenant_id e.payment_id) (set_amounts e.event_type) s.payments;
  })
  transition env e.tenant_id e.payment_id (event_target e.event_type) (event e.event_type)
      env.new_correlation none)

-- The detail that an exception is answered with, if it is caught.
abbrev pub caught_detail : Error → Option Reason
caught_detail (database_error check_violation) = some webhook_duplicate_event
caught_detail (database_error unique_violation) = some webhook_duplicate_event
caught_detail (state_machine_error c) = some (machine c)
caught_detail _ = none

abbrev pub is_event : Uuid → Text → ProviderEvent → Bool
is_event tenant i e = e.tenant_id == tenant && e.provider_event_id == i

abbrev pub process_at : Time → ProviderEvent → ProviderEvent
process_at t e = record e { processed_at = some t }

abbrev pub reject_caught :
    Env → WebhookEvent → Payment → Error → Option Reason → Action WebhookReply
reject_caught env e payment error none = raise error
reject_caught env e payment error (some reason) = reject env e (some payment) reason

-- `except IntegrityError`, `except StateMachineError`, and the `else` of the `try`.
unfoldable pub settle_event : Env → WebhookEvent → Payment → Result (Unit {0}) → Action WebhookReply
settle_event env e payment (ok _) = do
  modify (λ s. record s {
    provider_events =
        update_where (is_event e.tenant_id e.provider_event_id) (process_at env.now)
          s.provider_events;
  })
  pure accepted
settle_event env e payment (err error) = reject_caught env e payment error (caught_detail error)

unfoldable pub try_event : Env → WebhookEvent → Payment → Action WebhookReply
try_event env e payment s = let (r, s') = record_event env e s in settle_event env e payment r s'

-- `abs(now - occurred_at) > _TOLERANCE`
abbrev pub is_stale : Time → Time → Bool
is_stale now occurred = ltb tolerance (now - occurred) || ltb tolerance (occurred - now)

unfoldable pub event_on_payment : Env → WebhookEvent → Payment → Action WebhookReply
event_on_payment env e payment =
    if is_stale env.now e.occurred_at
    then reject env e (some payment) webhook_timestamp_stale
    else (do
      duplicate ←
          gets (λ s. is_some (find (is_event e.tenant_id e.provider_event_id) s.provider_events))
      if duplicate
          then reject env e (some payment) webhook_duplicate_event
          else try_event env e payment)

unfoldable pub event_for : Env → WebhookEvent → Option Uuid → Option Payment → Action WebhookReply
event_for env e none payment = pure (refused_with webhook_tenant_mismatch)
event_for env e (some _) none = reject env e none webhook_tenant_mismatch
event_for env e (some _) (some payment) = event_on_payment env e payment

-- `receive_provider_event`, from the verified event on.
unfoldable pub receive_provider_event : Env → WebhookEvent → Action WebhookReply
receive_provider_event env e = atomically (do
  tenant ← gets (λ s. find (λ i. i == e.tenant_id) s.tenants)
  payment ← gets (λ s. find (is_payment e.tenant_id e.payment_id) s.payments)
  event_for env e tenant payment)
