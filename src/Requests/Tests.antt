-- ===== src/Requests/Tests.antt =====
-- The theorems of payment requests at one request.
use trust_gate_merchant_copi.Base.{
  ◌≡◌, refl, ap, subst, true, Option, none, some, [], ◌∷◌, arith, pos, ◌+ℤ◌, find, update_where,
}
use trust_gate_merchant_copi.Models.{
  allow, authorized, SpendingPolicy, AuthorizationDecision, Db, is_policy_version,
}
use trust_gate_merchant_copi.Session.{Result, ok, ◌>>=◌}
use trust_gate_merchant_copi.Fixtures.{small_policy, env_of, small_request, payment_in, payment_db}
use trust_gate_merchant_copi.Policy.{
  violations, evaluate_policy_rules, newest_policy, merchant_is_allowed, daily_spend,
  evaluate_payment_request, reserve_daily_spend,
}
use trust_gate_merchant_copi.Chain.Walk.{active_delegation_for}
use trust_gate_merchant_copi.Machine.Legal.{
  member_state, legal_transitions, is_legal, releases_budget, holds_reservation, is_capture_state,
  refund_failure, amount_failure, validate_transition,
}
use trust_gate_merchant_copi.Machine.Transition.{
  use_approval, guard_transition, return_budgets, accept_transition, finish_transition,
  transition_block, transition,
}
use trust_gate_merchant_copi.Requests.{
  PaymentRequestCreate, Fresh, PaymentRequestDecision, Reply, decided, same_request, replay,
}
use trust_gate_merchant_copi.Requests.Budgets.{
  claim_delegation, claim_body, claim_budgets, claim_if_permitted,
}
use trust_gate_merchant_copi.Requests.Create.{
  record_request, record_payment, record_decision, create, create_or_replay, request_for_merchant,
  create_payment_request_for_context,
}
use trust_gate_merchant_copi.Requests.Replay.{
  SameBooks, AnswersAgain, shown, replay_changes_nothing, replay_answers,
}
use trust_gate_merchant_copi.Requests.Outcome.{HasOneNewest, RequestOutcome, request_outcome}

abbrev asked : PaymentRequestCreate
asked = record {
  actor_id = 31;
  merchant_id = 21;
  amount_minor = pos 150;
  currency = 356;
  order_ref = 62;
  idempotency_key = 65;
}

abbrev fresh : Fresh
fresh = record {
  env = env_of 99;
  correlation_id = 7;
  request_id = 66;
  payment_id = 82;
  api_source = 63;
}

abbrev answered : Result Reply × Db
answered = create_payment_request_for_context fresh 1 asked none (payment_db authorized)

abbrev expected : PaymentRequestDecision
expected = record {
  payment_request_id = 66;
  decision = allow;
  reasons = [];
  policy_version = 3;
  correlation_id = 7;
  next_state = authorized;
}

-- 150 beside the 300 of the day are allowed outright.
allowed_outright : answered.0 ≡ ok (decided expected)
unfolding create_payment_request_for_context request_for_merchant create_or_replay create replay
    claim_if_permitted claim_budgets claim_body claim_delegation record_decision record_request
    record_payment same_request evaluate_payment_request evaluate_policy_rules violations
    newest_policy merchant_is_allowed daily_spend reserve_daily_spend active_delegation_for
    transition transition_block guard_transition use_approval validate_transition is_legal
    member_state legal_transitions amount_failure refund_failure is_capture_state finish_transition
    accept_transition return_budgets releases_budget holds_reservation find update_where ◌+ℤ◌ ◌>>=◌
allowed_outright = refl

abbrev policy_or_small : Option SpendingPolicy → SpendingPolicy
policy_or_small none = small_policy
policy_or_small (some p) = p

one_newest : HasOneNewest 1 (payment_db authorized)
unfolding newest_policy find
one_newest p e =
    subst
      (λ (x : SpendingPolicy).
        find (is_policy_version 1 x.version) (payment_db authorized).policies ≡ some x)
      (ap policy_or_small e) refl

request_outcome_example :
    RequestOutcome fresh 1 asked none (payment_db authorized) (decided expected) answered.1
unfolding create_payment_request_for_context request_for_merchant create_or_replay create replay
    claim_if_permitted claim_budgets claim_body claim_delegation record_decision record_request
    record_payment same_request evaluate_payment_request evaluate_policy_rules violations
    newest_policy merchant_is_allowed daily_spend reserve_daily_spend active_delegation_for
    transition transition_block guard_transition use_approval validate_transition is_legal
    member_state legal_transitions amount_failure refund_failure is_capture_state finish_transition
    accept_transition return_budgets releases_budget holds_reservation find update_where ◌+ℤ◌ ◌>>=◌
request_outcome_example =
    request_outcome fresh 1 asked none (payment_db authorized)
      (record { id = 21; tenant_id = 1; name = 53; is_active = true }) (decided expected) answered.1
      one_newest (omega arith) refl refl refl

-- The key 64 was used for the small request.
abbrev again : PaymentRequestCreate
again = record asked { idempotency_key = 64 }

replay_changes_nothing_example :
    SameBooks
      (payment_db authorized)
      (create_payment_request_for_context fresh 1 again none (payment_db authorized)).1
unfolding find
replay_changes_nothing_example =
    replay_changes_nothing fresh 1 again none (payment_db authorized) small_request refl

abbrev small_decision : AuthorizationDecision
small_decision = record {
  tenant_id = 1;
  payment_request_id = 61;
  decision = allow;
  reasons = [];
  policy_version = 3;
  correlation_id = 5;
}

abbrev decided_db : Db
decided_db = record (payment_db authorized) { decisions = small_decision ∷ [] }

-- 150 is not the 300 of the stored request.
replay_answers_example :
    AnswersAgain fresh again none small_request
      (shown small_request small_decision (payment_in authorized))
      (create_payment_request_for_context fresh 1 again none decided_db).0
unfolding find
replay_answers_example =
    replay_answers fresh 1 again none decided_db
      (record { id = 21; tenant_id = 1; name = 53; is_active = true }) small_request small_decision
      (payment_in authorized) refl refl refl refl
