-- ===== src/Webhook/Tests.antt =====
-- The theorem of webhooks at one captured payment.
use trust_gate_merchant_copi.Base.{
  ◌≢◌, refl, some, List, [], ◌∷◌, pos, find, update_where, count_where,
}
use trust_gate_merchant_copi.Models.{
  payment_captured, payment_failed, payment_refunded, provider_pending, Db,
}
use trust_gate_merchant_copi.Session.{Result, ok, ◌>>=◌}
use trust_gate_merchant_copi.Fixtures.{env_of, payment_in, payment_db}
use trust_gate_merchant_copi.Machine.Legal.{
  member_state, legal_transitions, is_legal, releases_budget, holds_reservation, is_capture_state,
  refund_failure, amount_failure, validate_transition,
}
use trust_gate_merchant_copi.Machine.Transition.{
  use_approval, guard_transition, return_budgets, accept_transition, finish_transition,
  transition_block, transition,
}
use trust_gate_merchant_copi.Checkout.Tests.{small_digest}
use trust_gate_merchant_copi.Program.{Call, webhook_call, run_all}
use trust_gate_merchant_copi.Webhook.{
  WebhookEvent, WebhookReply, accepted, record_event, set_amounts, settle_event, try_event,
  event_on_payment, event_for, receive_provider_event,
}
use trust_gate_merchant_copi.Webhook.Once.{OnlyAudited, event_applied_once}

-- The provider captures the 300 of the payment 81, at time 10.
abbrev capture_event : WebhookEvent
capture_event = record {
  tenant_id = 1;
  payment_id = 81;
  provider_event_id = 55;
  event_type = payment_captured;
  occurred_at = 10;
}

abbrev pending_db : Db
pending_db = record (payment_db provider_pending) {
  payments = record (payment_in provider_pending) { authorized_amount_minor = some (pos 300) } ∷ [];
}

abbrev received : Result WebhookReply × Db
received = receive_provider_event (env_of 94) capture_event pending_db

-- The same identifier again, now with a failure.
abbrev second_event : WebhookEvent
second_event = record capture_event { event_type = payment_failed }

-- In between, the provider refunds the payment, which is another event.
abbrev refund_event : WebhookEvent
refund_event = record capture_event { provider_event_id = 56; event_type = payment_refunded }

abbrev refunding : List Call
refunding = webhook_call (env_of 96) refund_event ∷ []

event_applied_once_example :
    ((receive_provider_event (env_of 95) second_event (run_all small_digest refunding received.1)).0
      ≢ ok accepted)
    × OnlyAudited
        (run_all small_digest refunding received.1)
        (receive_provider_event
          (env_of 95)
          second_event
          (run_all small_digest refunding received.1)).1
unfolding receive_provider_event event_for event_on_payment try_event record_event set_amounts
    settle_event transition transition_block guard_transition use_approval validate_transition
    is_legal member_state legal_transitions amount_failure refund_failure is_capture_state
    finish_transition accept_transition return_budgets releases_budget holds_reservation find
    update_where count_where ◌>>=◌
event_applied_once_example =
    event_applied_once small_digest (env_of 94) capture_event pending_db received.1 refunding
      (env_of 95) second_event refl refl refl
