-- ===== src/Checkout/Tests.antt =====
-- The theorems of checkout authorities at one authorized payment.
use trust_gate_merchant_copi.Base.{
  ◌≡◌, refl, ap, subst, ◌+◌, ◌*◌, Option, none, some, [], ◌∷◌, arith, pos, find, update_where,
  count_where, select,
}
use trust_gate_merchant_copi.Models.{
  Text, allow, authorized, delegation_revoked, chain_refused, PaymentRequest, AuthorizationDecision,
  Payment, Delegation, CheckoutAuthority, Db, is_payment,
}
use trust_gate_merchant_copi.Session.{Result, ok, ◌>>=◌}
use trust_gate_merchant_copi.Fixtures.{env_of, small_policy, small_request, payment_in, payment_db}
use trust_gate_merchant_copi.Policy.{newest_policy, release_daily_spend}
use trust_gate_merchant_copi.Chain.Rows.{update_delegations, member}
use trust_gate_merchant_copi.Chain.Walk.{
  walk, insert_by_depth, sort_by_depth, check_chain, resolve_chain, locked_chain, refuse_dead_hops,
  assert_chain_live,
}
use trust_gate_merchant_copi.Chain.Spend.{release}
use trust_gate_merchant_copi.Machine.Legal.{
  member_state, legal_transitions, is_legal, releases_budget, holds_reservation, is_capture_state,
  refund_failure, amount_failure, validate_transition,
}
use trust_gate_merchant_copi.Machine.Transition.{
  use_approval, guard_transition, release_for_request, release_reserved_budget,
  release_delegated_budget, return_budgets, accept_transition, finish_transition, transition_block,
  transition,
}
use trust_gate_merchant_copi.Approve.Grant.{HasOnePayment}
use trust_gate_merchant_copi.Checkout.{
  PurchaseFacts, use_at, chain_refusal, claim_authority, consume_checkout_authority,
}
use trust_gate_merchant_copi.Checkout.Issue.{
  CheckoutReply, rejection, response_of, cancel_for_chain, last_consumed, insert_authority,
  issue_or_reissue, issue_for, issue_under, issue_if_authorized, issue_for_request,
  issue_checkout_authority,
}
use trust_gate_merchant_copi.Checkout.Permit.{Issued, issue-Issued}
use trust_gate_merchant_copi.Checkout.Consume.{HasLiveChain, Consumed, consume-Consumed}
use trust_gate_merchant_copi.Checkout.Use.{issued_is_consumed}
use trust_gate_merchant_copi.Checkout.Cancel.{Cancelled, dead_chain_cancels}

abbrev pub small_digest : PurchaseFacts → Text
small_digest f = f.payment_request_id * 1000 + f.policy_version

abbrev bought : PaymentRequest
bought = record small_request {
  snapshot = some (record {
    catalog_item_id = 51;
    catalog_sku = 71;
    catalog_name = 52;
    merchant_display_name = 53;
    quantity = 1;
    purpose = 5;
  });
}

abbrev allowed : AuthorizationDecision
allowed = record {
  tenant_id = 1;
  payment_request_id = 61;
  decision = allow;
  reasons = [];
  policy_version = 3;
  correlation_id = 5;
}

abbrev pub paid_db : Db
paid_db = record (payment_db authorized) {
  payment_requests = bought ∷ [];
  decisions = allowed ∷ [];
}

abbrev pub authority : CheckoutAuthority
authority = record {
  id = 96;
  tenant_id = 1;
  payment_request_id = 61;
  payment_id = 81;
  approval_id = none;
  policy_version = 3;
  snapshot_hash = 61003;
  expires_at = 100;
  used_at = none;
  created_at = 10;
}

-- The authority 96, until the policy's end at 100.
abbrev pub issue_result : Result CheckoutReply × Db
issue_result = issue_checkout_authority small_digest (env_of 96) 1 61 paid_db

issue-Issued_example :
    Issued small_digest (env_of 96) 1 61 (response_of authority) paid_db issue_result.1
unfolding issue_checkout_authority issue_for_request issue_if_authorized issue_under issue_for
    issue_or_reissue insert_authority chain_refusal last_consumed newest_policy find ◌>>=◌
issue-Issued_example =
    issue-Issued small_digest (env_of 96) 1 61 paid_db (response_of authority) issue_result.1 refl

abbrev pub consume_result : Result CheckoutAuthority × Db
consume_result = consume_checkout_authority small_digest (env_of 97) 1 96 7 issue_result.1

consume-Consumed_example :
    Consumed small_digest (env_of 97) 1 96 7 (use_at 10 authority) issue_result.1 consume_result.1
unfolding issue_checkout_authority issue_for_request issue_if_authorized issue_under issue_for
    issue_or_reissue insert_authority chain_refusal last_consumed newest_policy find ◌>>=◌
    consume_checkout_authority claim_authority update_where
consume-Consumed_example =
    consume-Consumed small_digest (env_of 97) 1 96 7 issue_result.1 (use_at 10 authority)
      consume_result.1 refl

abbrev payment_or_small : Option Payment → Payment
payment_or_small none = payment_in authorized
payment_or_small (some p) = p

one_payment : HasOnePayment 1 61 paid_db
unfolding find
one_payment p e =
    subst (λ (x : Payment). find (is_payment 1 x.id) paid_db.payments ≡ some x)
      (ap payment_or_small e) refl

abbrev request_or_bought : Option PaymentRequest → PaymentRequest
request_or_bought none = bought
request_or_bought (some q) = q

issued_is_consumed_example :
    (a : CheckoutAuthority) × ((consume_checkout_authority small_digest
        (env_of 97)
        1
        96
        7
        issue_result.1).0
      ≡ ok a)
unfolding issue_checkout_authority issue_for_request issue_if_authorized issue_under issue_for
    issue_or_reissue insert_authority chain_refusal last_consumed newest_policy find ◌>>=◌
issued_is_consumed_example =
    issued_is_consumed small_digest (env_of 96) 1 61 paid_db (response_of authority) issue_result.1
      (env_of 97) 7 refl refl one_payment (omega arith) (omega arith)
      (λ q e.
        subst (λ (x : PaymentRequest). HasLiveChain 1 x.delegation_id 10 paid_db)
          (ap request_or_bought e) tt)

-- The mandate 41 was revoked at 9.
abbrev revoked_mandate : Delegation
revoked_mandate = record {
  id = 41;
  tenant_id = 1;
  parent_id = none;
  depth = 0;
  policy_id = 11;
  policy_version = 3;
  root_actor_id = 30;
  delegator_actor_id = 30;
  delegate_actor_id = 31;
  budget_minor = pos 500;
  allocated_minor = pos 0;
  spent_minor = pos 300;
  max_amount_minor = pos 500;
  allowed_skus = 71 ∷ [];
  purpose = 5;
  expires_at = 90;
  revoked_at = some 9;
  created_at = 1;
}

abbrev delegated : PaymentRequest
delegated = record bought { delegation_id = some 41 }

abbrev revoked_db : Db
revoked_db = record paid_db {
  payment_requests = delegated ∷ [];
  delegations = revoked_mandate ∷ [];
}

abbrev cancel_result : Result CheckoutReply × Db
cancel_result = issue_checkout_authority small_digest (env_of 96) 1 61 revoked_db

dead_chain_cancels_example :
    (rejection (chain_refused delegation_revoked) 409
      ≡ rejection (chain_refused delegation_revoked) 409)
    × Cancelled delegated (payment_in authorized) revoked_db cancel_result.1
unfolding issue_checkout_authority issue_for_request issue_if_authorized issue_under issue_for
    chain_refusal last_consumed newest_policy find ◌>>=◌ cancel_for_chain assert_chain_live
    locked_chain resolve_chain walk sort_by_depth insert_by_depth check_chain refuse_dead_hops
    member select release_daily_spend update_delegations release use_approval guard_transition
    release_for_request release_reserved_budget release_delegated_budget return_budgets
    accept_transition finish_transition transition_block transition member_state legal_transitions
    is_legal releases_budget holds_reservation is_capture_state refund_failure amount_failure
    validate_transition update_where count_where
dead_chain_cancels_example =
    dead_chain_cancels small_digest (env_of 96) 1 61 revoked_db delegated (payment_in authorized)
      allowed small_policy delegation_revoked (rejection (chain_refused delegation_revoked) 409)
      cancel_result.1 refl refl refl refl refl refl refl (omega arith) refl refl
