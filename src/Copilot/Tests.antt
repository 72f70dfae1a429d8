-- ===== src/Copilot/Tests.antt =====
-- The theorems of baskets at a plan of two lines: two bags of flour, and an item that is not in the
-- catalogue, with an amount that the planner made up.
use trust_gate_merchant_copi.Base.{
  ◌≡◌, refl, ℕ, ◌+◌, none, some, [], ◌∷◌, arith, pos, ◌+ℤ◌, find, update_where,
}
use trust_gate_merchant_copi.Models.{Text, date, compromised, Db, Uuid}
use trust_gate_merchant_copi.Session.{Result, ◌>>=◌}
use trust_gate_merchant_copi.Fixtures.{small_policy}
use trust_gate_merchant_copi.Policy.{
  violations, evaluate_policy_rules, newest_policy, merchant_is_allowed, daily_spend,
  evaluate_payment_request, reserve_daily_spend,
}
use trust_gate_merchant_copi.Chain.Walk.{active_delegation_for}
use trust_gate_merchant_copi.Machine.Legal.{
  member_state, legal_transitions, is_legal, releases_budget, holds_reservation, is_capture_state,
  refund_failure, amount_failure, validate_transition,
}
use trust_gate_merchant_copi.Machine.Transition.{
  use_approval, guard_transition, return_budgets, accept_transition, finish_transition,
  transition_block, transition,
}
use trust_gate_merchant_copi.Requests.{same_request}
use trust_gate_merchant_copi.Requests.Budgets.{
  claim_delegation, claim_body, claim_budgets, claim_if_permitted,
}
use trust_gate_merchant_copi.Requests.Create.{
  record_request, record_payment, record_decision, create, create_or_replay, request_for_merchant,
  create_payment_request_for_context,
}
use trust_gate_merchant_copi.Catalog.{
  reject_purchase, purchase, create_catalog_payment_request_for_source,
}
use trust_gate_merchant_copi.Catalog.Tests.{shop_db, fresh, one_newest}
use trust_gate_merchant_copi.Copilot.{
  RawLine, PlanResult, LineFresh, record_proposal, insert_line, insert_basket, add_line, add_lines,
  fill_basket, create_basket,
}
use trust_gate_merchant_copi.Copilot.WithinDay.{WithinDay, basket-WithinDay}
use trust_gate_merchant_copi.Copilot.Lines.{HasLines, basket-HasLines}

abbrev five_letters : Text → ℕ
five_letters t = 5

abbrev two_bags_line : RawLine
two_bags_line = record { sku = 71; quantity = some (pos 2); purpose = 5; discarded = [] }

abbrev made_up_line : RawLine
made_up_line = record {
  sku = 79;
  quantity = some (pos 1);
  purpose = 5;
  discarded = record { name = 1; value = 9999 } ∷ [];
}

abbrev plan : PlanResult
plan = record {
  lines = two_bags_line ∷ made_up_line ∷ [];
  note = 8;
  mode_used = compromised;
  model = none;
}

abbrev supply : ℕ → LineFresh
supply n = record { fresh = fresh; idempotency_key = 65 + n; line_id = 300 + n }

abbrev created_basket : Result (Unit {0}) × Db
created_basket = create_basket five_letters 31 90 (some 1) 4 compromised plan 200 supply shop_db

shop-WithinDay : WithinDay 1 31 (date 10) small_policy shop_db
unfolding newest_policy daily_spend find
shop-WithinDay = record {
  one_row = one_newest;
  newest = refl;
  nonnegative = omega arith;
  within = omega arith;
}

basket-WithinDay_example : WithinDay 1 31 (date 10) small_policy created_basket.1
basket-WithinDay_example =
    basket-WithinDay 1 31 90 (date 10) small_policy five_letters supply (λ n. refl) 4 compromised
      plan 200 shop_db shop-WithinDay

basket-HasLines_example :
    (tenant : Uuid) × (some 1 ≡ some tenant)
    × HasLines 31 90 supply shop_db created_basket.1 tenant 200 0 plan.lines shop_db.basket_lines
        created_basket.1.basket_lines
unfolding create_basket fill_basket insert_basket add_lines add_line record_proposal insert_line
    create_catalog_payment_request_for_source purchase reject_purchase
    create_payment_request_for_context request_for_merchant create_or_replay create
    claim_if_permitted claim_budgets claim_body claim_delegation record_decision record_request
    record_payment same_request evaluate_payment_request evaluate_policy_rules violations
    newest_policy merchant_is_allowed daily_spend reserve_daily_spend active_delegation_for
    transition transition_block guard_transition use_approval validate_transition is_legal
    member_state legal_transitions amount_failure refund_failure is_capture_state finish_transition
    accept_transition return_budgets releases_budget holds_reservation find update_where ◌+ℤ◌ ◌>>=◌
basket-HasLines_example =
    basket-HasLines five_letters 31 90 (some 1) supply 4 compromised plan 200 shop_db tt
      created_basket.1 refl
