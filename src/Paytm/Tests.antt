-- ===== src/Paytm/Tests.antt =====
-- The theorem of the Paytm rail at one order that the provider reports as paid.
use trust_gate_merchant_copi.Base.{refl, none, some, [], ◌∷◌, pos, find, update_where}
use trust_gate_merchant_copi.Models.{
  provider_pending, order_created, order_success, Payment, PaytmOrder, Db,
}
use trust_gate_merchant_copi.Session.{Result, ◌>>=◌}
use trust_gate_merchant_copi.Fixtures.{env_of, payment_in, payment_db}
use trust_gate_merchant_copi.Machine.Legal.{
  member_state, legal_transitions, is_legal, releases_budget, holds_reservation, is_capture_state,
  refund_failure, amount_failure, validate_transition,
}
use trust_gate_merchant_copi.Machine.Transition.{
  use_approval, guard_transition, return_budgets, accept_transition, finish_transition,
  transition_block, transition,
}
use trust_gate_merchant_copi.Paytm.{
  txn_success, StatusBody, status_body, move_if, settle_status, read_status, ask_provider,
  confirm_order,
}
use trust_gate_merchant_copi.Paytm.Moves.{ConfirmOutcome, confirm_order-outcome}

abbrev waiting : Payment
waiting = record (payment_in provider_pending) { authorized_amount_minor = some (pos 300) }

abbrev order : PaytmOrder
order = record {
  id = 97;
  tenant_id = 1;
  payment_id = 81;
  checkout_authority_id = 96;
  order_id = 401;
  amount_minor = pos 300;
  status = order_created;
  paytm_txn_id = none;
  confirmed_at = none;
}

abbrev order_db : Db
order_db = record (payment_db provider_pending) {
  payments = waiting ∷ [];
  paytm_orders = order ∷ [];
}

abbrev paid_in_full : StatusBody
paid_in_full = record {
  result = txn_success;
  reported = 300;
  reported_minor = some (pos 300);
  txn_id = some 402;
}

abbrev confirmation : Result PaytmOrder × Db
confirmation = confirm_order (env_of 98) 1 (status_body paid_in_full) 97 order_db

abbrev paid_order : PaytmOrder
paid_order = record order {
  status = order_success;
  paytm_txn_id = some 402;
  confirmed_at = some 10;
}

confirm_order-outcome_example :
    ConfirmOutcome 1 order waiting (status_body paid_in_full) confirmation.1
unfolding confirm_order ask_provider read_status settle_status move_if transition transition_block
    guard_transition use_approval validate_transition is_legal member_state legal_transitions
    amount_failure refund_failure is_capture_state finish_transition accept_transition
    return_budgets releases_budget holds_reservation find update_where ◌>>=◌
confirm_order-outcome_example =
    confirm_order-outcome (env_of 98) 1 order waiting (status_body paid_in_full) order_db 97
      paid_order confirmation.1 refl refl refl
