-- ===== src/Catalog/Tests.antt =====
-- The theorem of catalogue purchases at one item.
use trust_gate_merchant_copi.Base.{
  ◌≡◌, refl, ap, subst, true, Option, none, some, [], ◌∷◌, arith, pos, ◌+ℤ◌, find, update_where,
}
use trust_gate_merchant_copi.Models.{
  allow, authorized, SpendingPolicy, CatalogItem, Db, is_policy_version,
}
use trust_gate_merchant_copi.Session.{Result, ◌>>=◌}
use trust_gate_merchant_copi.Fixtures.{small_policy, env_of, payment_db}
use trust_gate_merchant_copi.Policy.{
  violations, evaluate_policy_rules, newest_policy, merchant_is_allowed, daily_spend,
  evaluate_payment_request, reserve_daily_spend,
}
use trust_gate_merchant_copi.Chain.Walk.{active_delegation_for}
use trust_gate_merchant_copi.Machine.Legal.{
  member_state, legal_transitions, is_legal, releases_budget, holds_reservation, is_capture_state,
  refund_failure, amount_failure, validate_transition,
}
use trust_gate_merchant_copi.Machine.Transition.{
  use_approval, guard_transition, return_budgets, accept_transition, finish_transition,
  transition_block, transition,
}
use trust_gate_merchant_copi.Requests.{Fresh, same_request}
use trust_gate_merchant_copi.Requests.Budgets.{
  claim_delegation, claim_body, claim_budgets, claim_if_permitted,
}
use trust_gate_merchant_copi.Requests.Create.{
  record_request, record_payment, record_decision, create, create_or_replay, request_for_merchant,
  create_payment_request_for_context,
}
use trust_gate_merchant_copi.Requests.Outcome.{HasOneNewest}
use trust_gate_merchant_copi.Catalog.{
  CatalogPaymentRequestCreate, CatalogPaymentRequestDecision, CatalogReply, reject_purchase,
  purchase, create_catalog_payment_request_for_source,
}
use trust_gate_merchant_copi.Catalog.Outcome.{Purchased, catalog_purchase_outcome}

-- 75 each, up to five.
abbrev pub flour : CatalogItem
flour = record {
  id = 51;
  tenant_id = 1;
  merchant_id = 21;
  sku = 71;
  name = 52;
  price_minor = 75;
  currency = 356;
  max_quantity = 5;
  active = true;
}

abbrev pub shop_db : Db
shop_db = record (payment_db authorized) { catalog_items = flour ∷ [] }

abbrev two_bags : CatalogPaymentRequestCreate
two_bags = record { sku = 71; quantity = 2; purpose = 5; idempotency_key = 65 }

abbrev pub fresh : Fresh
fresh = record {
  env = env_of 99;
  correlation_id = 7;
  request_id = 66;
  payment_id = 82;
  api_source = 63;
}

abbrev answered : Result CatalogReply × Db
answered = create_catalog_payment_request_for_source fresh 1 two_bags 31 90 shop_db

abbrev bought : CatalogPaymentRequestDecision
bought = record {
  decision = record {
    payment_request_id = 66;
    decision = allow;
    reasons = [];
    policy_version = 3;
    correlation_id = 7;
    next_state = authorized;
  };
  sku = 71;
  quantity = 2;
  purpose = 5;
  merchant_display_name = 53;
  amount_minor = pos 150;
  currency = 356;
}

abbrev policy_or_small : Option SpendingPolicy → SpendingPolicy
policy_or_small none = small_policy
policy_or_small (some p) = p

pub one_newest : HasOneNewest 1 shop_db
unfolding newest_policy find
one_newest p e =
    subst (λ (x : SpendingPolicy). find (is_policy_version 1 x.version) shop_db.policies ≡ some x)
      (ap policy_or_small e) refl

catalog_purchase_outcome_example : Purchased fresh 1 two_bags 31 90 bought shop_db answered.1
unfolding create_catalog_payment_request_for_source purchase reject_purchase
    create_payment_request_for_context request_for_merchant create_or_replay create
    claim_if_permitted claim_budgets claim_body claim_delegation record_decision record_request
    record_payment same_request evaluate_payment_request evaluate_policy_rules violations
    newest_policy merchant_is_allowed daily_spend reserve_daily_spend active_delegation_for
    transition transition_block guard_transition use_approval validate_transition is_legal
    member_state legal_transitions amount_failure refund_failure is_capture_state finish_transition
    accept_transition return_budgets releases_budget holds_reservation find update_where ◌+ℤ◌ ◌>>=◌
catalog_purchase_outcome_example =
    catalog_purchase_outcome fresh 1 two_bags 31 90 shop_db bought answered.1 one_newest
      (omega arith) refl refl
