-- ===== src/Razorpay/Hook.antt =====
-- `webhook_timestamp_rejection`, `webhook_event_identity` and `receive_razorpay_webhook` of
-- api/routes/razorpay.py. Whether the bytes are signed, and what they parse to, are given.
use trust_gate_merchant_copi.Base.{
  ℕ, ◌+◌, ◌*◌, Bool, true, false, not, ◌||◌, Option, none, some, [], ◌∷◌, ltb, ◌==◌, if◌then◌else◌,
  is_some, ℤ, pos, negsuc, ◌-ℤ◌, ltb_ℤ, leb_ℤ, eq_ℤ, find, update_where,
}
use trust_gate_merchant_copi.Models.{
  Text, EventType, payment_authorized, payment_captured, payment_failed, payment_refunded, Reason,
  machine, event, razorpay_timestamp_missing, razorpay_stale, razorpay_post_dated,
  razorpay_body_too_large, razorpay_signature_invalid, razorpay_malformed, razorpay_order_not_found,
  razorpay_amount_mismatch, razorpay_payment_not_found, razorpay_duplicate_event, StateCode, Error,
  state_machine_error, database_error, check_violation, unique_violation, State, provider_pending,
  captured, RazorpayOrder, Payment, ProviderEvent, razorpay_webhook_rejected,
  razorpay_payment_attempt_failed, razorpay_webhook_verified, rejected, named, mismatch, attempted,
  is_payment,
}
use trust_gate_merchant_copi.Session.{
  Result, ok, err, Action, pure, raise, gets, modify, raise_if, atomically, add_audit, ◌>>=◌, ◌>>◌,
}
use trust_gate_merchant_copi.Chain.Rows.{Env}
use trust_gate_merchant_copi.Machine.Transition.{transition}
use trust_gate_merchant_copi.Webhook.{is_event, process_at}
use trust_gate_merchant_copi.Razorpay.Order.{has_provider_id, order_event}

-- `_MAX_WEBHOOK_BODY_BYTES`
abbrev pub max_webhook_body : ℕ
max_webhook_body = 65536

-- `_DEFAULT_WEBHOOK_MAX_AGE_SECONDS`
abbrev pub default_max_age : ℤ
default_max_age = pos 86400

-- `_WEBHOOK_FUTURE_TOLERANCE_SECONDS`
abbrev pub future_tolerance : ℤ
future_tolerance = pos 300

-- The environment variable: absent, not an integer, or an integer.
pub data Setting : Type 0 where
  unset not_an_integer : Setting
  integer : ℤ → Setting

-- `_webhook_max_age_seconds`
unfoldable pub webhook_max_age_seconds : Setting → ℤ
webhook_max_age_seconds unset = default_max_age
webhook_max_age_seconds not_an_integer = default_max_age
webhook_max_age_seconds (integer n) = if leb_ℤ n (pos 0) then default_max_age else n

-- Seconds in microseconds, as `now.timestamp()` has them.
abbrev pub micros : ℤ → ℤ
micros (pos n) = pos (n * 1000000)
micros (negsuc n) = negsuc (n * 1000000 + 999999)

-- `webhook_timestamp_rejection`; `now` is in microseconds since 1970.
unfoldable pub webhook_timestamp_rejection : Setting → Option ℤ → ℤ → Option Reason
webhook_timestamp_rejection max_age none now = some razorpay_timestamp_missing
webhook_timestamp_rejection max_age (some created_at) now =
    if ltb_ℤ (micros (webhook_max_age_seconds max_age)) (now -ℤ micros created_at)
    then some razorpay_stale
    else if ltb_ℤ (now -ℤ micros created_at) (pos 0 -ℤ micros future_tolerance)
    then some razorpay_post_dated
    else none

-- `RazorpayWebhookPaymentEntity`
pub record PaymentEntity : Type 0 where
  pub id : Text
  pub order_id : Text
  pub amount : ℤ
  pub currency : Text

-- The event's name: the three that are handled, or another.
pub data EventName : Type 0 where
  authorized_event captured_event failed_event : EventName
  other_event : Text → EventName

-- `RazorpayWebhookEvent`
pub record RazorpayEvent : Type 0 where
  pub event : EventName
  pub payment_entity : Option PaymentEntity
  pub created_at : Option ℤ

-- One delivery: its declared and its measured length, whether it is signed, what it parses to, the
-- header `X-Razorpay-Event-Id`, and the clock.
pub record Delivery : Type 0 where
  pub declared : Option ℕ
  pub body_length : ℕ
  pub is_signed : Bool
  pub parsed : Option RazorpayEvent
  pub header_id : Option Text
  pub unix_now : ℤ

-- The answers: 202 with the payment's identifier, 202 for an event that is ignored, or an error with
-- a status.
pub data HookReply : Type 0 where
  hook_accepted : Text → HookReply
  hook_ignored : HookReply
  hook_refused : Reason → ℕ → HookReply

-- `_RAZORPAY_HANDLED_EVENTS`
abbrev pub handled : EventName → Option EventType
handled authorized_event = some payment_authorized
handled captured_event = some payment_captured
handled failed_event = some payment_failed
handled (other_event t) = none

-- `_RAZORPAY_TRANSITIONS`
abbrev pub hook_target : EventType → Option State
hook_target payment_authorized = some provider_pending
hook_target payment_captured = some captured
hook_target payment_failed = none
hook_target payment_refunded = none

abbrev event_code : EventType → ℕ
event_code payment_authorized = 0
event_code payment_captured = 1
event_code payment_failed = 2
event_code payment_refunded = 3

-- `webhook_event_identity`: a text is a number, and a formatted text is one that its parts determine,
-- even for the header and odd for the event with the payment.
unfoldable pub webhook_event_identity : Option Text → EventType → Text → Text
webhook_event_identity (some header) kind payment = 2 * header
webhook_event_identity none kind payment = 2 * (4 * payment + event_code kind) + 1

abbrev pub hook_row : RazorpayOrder → Text → EventType → ProviderEvent
hook_row o identity kind = record {
  tenant_id = o.tenant_id;
  provider_event_id = identity;
  event_type = kind;
  payment_id = o.payment_id;
  processed_at = none;
}

abbrev pub capture_amount : ℤ → Payment → Payment
capture_amount amount p = record p { captured_amount_minor = amount }

abbrev is_capture : EventType → Bool
is_capture payment_captured = true
is_capture payment_authorized = false
is_capture payment_failed = false
is_capture payment_refunded = false

-- A failed attempt is recorded; the other events move the payment, a capture with its amount.
unfoldable pub apply_event :
    Env → RazorpayOrder → Payment → PaymentEntity → EventType → Option State → Action (Unit {0})
apply_event env o p entity kind none = modify (
    add_audit (
      order_event o env.new_correlation razorpay_payment_attempt_failed
        (attempted entity.order_id entity.id p.state)))
apply_event env o p entity kind (some target) = do
  modify (λ s. record s {
    payments =
        if is_capture kind
        then update_where (is_payment o.tenant_id o.payment_id) (capture_amount o.amount_minor)
            s.payments
        else s.payments;
  })
  transition env o.tenant_id o.payment_id target (event kind) env.new_correlation none

-- The savepoint: the event's row, whose identity is unique, and what it does.
unfoldable pub record_hook :
    Env → RazorpayOrder → Payment → PaymentEntity → EventType → Text → Action (Unit {0})
record_hook env o p entity kind identity = atomically (do
  duplicate ← gets (λ s. is_some (find (is_event o.tenant_id identity) s.provider_events))
  raise_if duplicate (database_error unique_violation)
  modify (λ s. record s { provider_events = hook_row o identity kind ∷ s.provider_events })
  apply_event env o p entity kind (hook_target kind))

-- A failed CHECK or a failed unique key.
abbrev pub is_integrity_error : Error → Bool
is_integrity_error (database_error check_violation) = true
is_integrity_error (database_error unique_violation) = true
is_integrity_error e = false

abbrev pub machine_code : Error → Option StateCode
machine_code (state_machine_error c) = some c
machine_code e = none

-- `except IntegrityError` and `except StateMachineError`
unfoldable pub settle_error :
    Env → RazorpayOrder → PaymentEntity → Error → Option StateCode → Action HookReply
settle_error env o entity e (some c) = do
  modify (
      add_audit (
        order_event o env.new_correlation razorpay_webhook_rejected
          (rejected (machine c) (entity.order_id ∷ []))))
  pure (hook_refused (machine c) 409)
settle_error env o entity e none =
    if is_integrity_error e then pure (hook_refused razorpay_duplicate_event 409) else raise e

-- What follows the `try`.
unfoldable pub settle_hook :
    Env → RazorpayOrder → PaymentEntity → Text → Result (Unit {0}) → Action HookReply
settle_hook env o entity identity (ok _) = do
  modify (λ s. record s {
    provider_events =
        update_where (is_event o.tenant_id identity) (process_at env.now) s.provider_events;
  })
  modify (
      add_audit (
        order_event o env.new_correlation razorpay_webhook_verified
          (named (entity.order_id ∷ entity.id ∷ []))))
  pure (hook_accepted entity.id)
settle_hook env o entity identity (err e) = settle_error env o entity e (machine_code e)

unfoldable pub try_hook :
    Env → RazorpayOrder → Payment → PaymentEntity → EventType → Text → Action HookReply
try_hook env o p entity kind identity s =
    let (r, s') = record_hook env o p entity kind identity s in
    settle_hook env o entity identity r s'

unfoldable pub hook_on_payment :
    Env → RazorpayOrder → PaymentEntity → EventType → Text → Option Payment → Action HookReply
hook_on_payment env o entity kind identity none = pure (hook_refused razorpay_payment_not_found 409)
hook_on_payment env o entity kind identity (some p) = try_hook env o p entity kind identity

-- The order's amount and currency govern.
unfoldable pub hook_on_order :
    Env → PaymentEntity → EventType → Text → Option RazorpayOrder → Action HookReply
hook_on_order env entity kind identity none = pure (hook_refused razorpay_order_not_found 404)
hook_on_order env entity kind identity (some o) =
    if not (eq_ℤ entity.amount o.amount_minor) || not (entity.currency == o.currency)
    then (do
      modify (
          add_audit (
            order_event o env.new_correlation razorpay_webhook_rejected
              (mismatch razorpay_amount_mismatch entity.order_id o.amount_minor entity.amount)))
      pure (hook_refused razorpay_amount_mismatch 409))
    else (do
      payment ← gets (λ s. find (is_payment o.tenant_id o.payment_id) s.payments)
      hook_on_payment env o entity kind identity payment)

-- An event that is not handled is acknowledged.
unfoldable pub hook_event :
    Env → Option Text → Option PaymentEntity → Option EventType → Action HookReply
hook_event env header none kind = pure hook_ignored
hook_event env header (some entity) none = pure hook_ignored
hook_event env header (some entity) (some kind) = do
  order ← gets (λ s. find (has_provider_id entity.order_id) s.razorpay_orders)
  hook_on_order env entity kind (webhook_event_identity header kind entity.id) order

abbrev pub exceeds : Option ℕ → Bool
exceeds none = false
exceeds (some n) = ltb max_webhook_body n

unfoldable pub timely_event : Env → Option Text → RazorpayEvent → Option Reason → Action HookReply
timely_event env header e (some reason) = pure (hook_refused reason 400)
timely_event env header e none = hook_event env header e.payment_entity (handled e.event)

unfoldable pub parsed_event : Env → Setting → Delivery → Option RazorpayEvent → Action HookReply
parsed_event env max_age d none = pure (hook_refused razorpay_malformed 400)
parsed_event env max_age d (some e) =
    timely_event env d.header_id e (webhook_timestamp_rejection max_age e.created_at d.unix_now)

-- `receive_razorpay_webhook`: the size, the signature, the form and the time, in this order, and only
-- then the database.
unfoldable pub receive_razorpay_webhook : Env → Setting → Delivery → Action HookReply
receive_razorpay_webhook env max_age d = atomically (
    if exceeds d.declared || ltb max_webhook_body d.body_length
    then pure (hook_refused razorpay_body_too_large 413)
    else if not d.is_signed
    then pure (hook_refused razorpay_signature_invalid 400)
    else parsed_event env max_age d d.parsed)
