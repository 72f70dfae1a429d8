-- ===== src/Approve/Tests.antt =====
-- The theorem of approvals at one payment that waits.
use trust_gate_merchant_copi.Base.{
  ◌≡◌, refl, ap, subst, Option, none, some, [], ◌∷◌, find, update_where, count_where,
}
use trust_gate_merchant_copi.Models.{
  require_approval, needs_approval, AuthorizationDecision, Payment, Db, is_payment,
}
use trust_gate_merchant_copi.Session.{Result, ◌>>=◌}
use trust_gate_merchant_copi.Fixtures.{env_of, payment_in, payment_db}
use trust_gate_merchant_copi.Policy.{newest_policy}
use trust_gate_merchant_copi.Machine.Legal.{
  member_state, legal_transitions, is_legal, releases_budget, holds_reservation, is_capture_state,
  refund_failure, amount_failure, validate_transition,
}
use trust_gate_merchant_copi.Machine.Transition.{
  consume_approval, require_approval_id, use_approval, guard_transition, return_budgets,
  accept_transition, finish_transition, transition_block, transition,
}
use trust_gate_merchant_copi.Approve.{ApprovalGrantResponse, policy_of, approve, grant_approval}
use trust_gate_merchant_copi.Approve.Grant.{HasOnePayment, Approved, grant_authorizes}

abbrev asked_decision : AuthorizationDecision
asked_decision = record {
  tenant_id = 1;
  payment_request_id = 61;
  decision = require_approval;
  reasons = [];
  policy_version = 3;
  correlation_id = 5;
}

abbrev waiting_db : Db
waiting_db = record (payment_db needs_approval) { decisions = asked_decision ∷ []; approvals = [] }

abbrev granted : Result ApprovalGrantResponse × Db
granted = grant_approval (env_of 93) 1 32 61 waiting_db

abbrev payment_or_small : Option Payment → Payment
payment_or_small none = payment_in needs_approval
payment_or_small (some p) = p

one_payment : HasOnePayment 1 61 waiting_db
unfolding find
one_payment p e =
    subst (λ (x : Payment). find (is_payment 1 x.id) waiting_db.payments ≡ some x)
      (ap payment_or_small e) refl

grant_authorizes_example : Approved (env_of 93) 1 32 61 waiting_db granted.1
unfolding grant_approval policy_of approve newest_policy transition transition_block
    guard_transition use_approval require_approval_id consume_approval validate_transition is_legal
    member_state legal_transitions amount_failure refund_failure is_capture_state finish_transition
    accept_transition return_budgets releases_budget holds_reservation find update_where count_where
    ◌>>=◌
grant_authorizes_example =
    grant_authorizes (env_of 93) 1 32 61 waiting_db
      (record { approval_id = 93; payment_request_id = 61; policy_version = 3; expires_at = 100 })
      granted.1 one_payment refl
