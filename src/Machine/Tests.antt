-- ===== src/Machine/Tests.antt =====
-- The theorems of the payment state machine at one payment.
use trust_gate_merchant_copi.Base.{
  ◌≡◌, refl, ◌↔◌, ◌⊎◌, true, none, some, List, [], ◌∷◌, arith, pos, ◌-ℤ◌, max_ℤ, find, update_where,
  count_where, all_where,
}
use trust_gate_merchant_copi.Models.{
  Uuid, State, needs_approval, authorized, provider_pending, captured, denied, expired,
  human_approval_granted, date, Error, Payment, Db, is_payment,
}
use trust_gate_merchant_copi.Session.{Result, ok, err, ◌>>=◌}
use trust_gate_merchant_copi.Fixtures.{env_of, small_request, payment_in, payment_db}
use trust_gate_merchant_copi.Policy.{daily_spend, newest_policy, release_daily_spend}
use trust_gate_merchant_copi.Chain.Rows.{update_delegations}
use trust_gate_merchant_copi.Chain.Spend.{release}
use trust_gate_merchant_copi.Machine.Legal.{
  member_state, legal_transitions, is_legal, releases_budget, holds_reservation, is_capture_state,
  refund_failure, amount_failure, validate_transition,
}
use trust_gate_merchant_copi.Machine.Transition.{
  set_state, consume_approval, release_for_request, release_reserved_budget,
  release_delegated_budget, require_approval_id, use_approval, guard_transition, return_budgets,
  accept_transition, refuse_transition, finish_transition, transition_block, transition,
}
use trust_gate_merchant_copi.Machine.Untouched.{Untouched}
use trust_gate_merchant_copi.Machine.Outcome.{Moved, transition-outcome}
use trust_gate_merchant_copi.Machine.Lifecycle.{IsValid, IsValid-iff}
use trust_gate_merchant_copi.Machine.History.{Attempt, try_transition, try_all}
use trust_gate_merchant_copi.Machine.Paths.{
  Leads, is_unauthorized, history_follows_lifecycle, history_final, history_needs_authorization,
}
use trust_gate_merchant_copi.Machine.Approvals.{Consumed, authorization_consumes_approval}
use trust_gate_merchant_copi.Machine.Budget.{
  HoldsBudgets, NeverSpends, SameBudgets, budgets_kept, budget_returned,
}

IsValid-iff_example :
    (validate_transition (payment_in authorized) provider_pending ≡ none)
    ↔ IsValid (payment_in authorized) provider_pending
IsValid-iff_example = IsValid-iff (payment_in authorized) provider_pending

-- The payment waits for approval, and is authorized with the approval 91.
abbrev approved : Result (Unit {0}) × Db
approved =
    transition (env_of 99) 1 81 authorized human_approval_granted 7 (some 91)
      (payment_db needs_approval)

transition-outcome_example :
    ((approved.0 ≡ ok tt) × Moved 1 81 authorized (payment_db needs_approval) approved.1)
    ⊎ ((e : Error) × (approved.0 ≡ err e) × Untouched (payment_db needs_approval) approved.1)
transition-outcome_example =
    transition-outcome (env_of 99) 1 81 authorized human_approval_granted 7 (some 91)
      (payment_db needs_approval) approved.0 approved.1 refl

abbrev attempt : State → Attempt
attempt to = record {
  env = env_of 99;
  tenant = 1;
  payment = 81;
  to = to;
  reason = human_approval_granted;
  correlation = 7;
  approval = some 91;
}

abbrev attempts : List Attempt
attempts = attempt captured ∷ attempt denied ∷ attempt authorized ∷ []

-- The capture is refused, the denial is made, and after it the authorization is refused.
denied_at_last : (try_all attempts (payment_db needs_approval)).payments ≡ payment_in denied ∷ []
unfolding try_all try_transition ◌>>=◌ transition transition_block guard_transition use_approval
    require_approval_id consume_approval newest_policy validate_transition is_legal member_state
    legal_transitions amount_failure refund_failure is_capture_state finish_transition
    accept_transition refuse_transition return_budgets releases_budget holds_reservation
    release_reserved_budget release_for_request release_daily_spend release_delegated_budget release
    update_delegations find update_where count_where all_where ◌-ℤ◌
denied_at_last = refl

history_follows_lifecycle_example :
    (q : Payment) × (find (is_payment 1 81) (try_all attempts (payment_db needs_approval)).payments
      ≡ some q)
    × Leads needs_approval q.state
    × (q ≡ set_state q.state (payment_in needs_approval))
unfolding find
history_follows_lifecycle_example =
    history_follows_lifecycle 1 81 attempts (payment_db needs_approval) (payment_in needs_approval)
      refl

history_final_example :
    find (is_payment 1 81) (try_all attempts (payment_db expired)).payments
    ≡ some (payment_in expired)
unfolding find
history_final_example =
    history_final 1 81 attempts (payment_db expired) (payment_in expired) refl refl

history_needs_authorization_example :
    (q : Payment) × (find
        (is_payment 1 81)
        (try_all (attempt captured ∷ attempt denied ∷ []) (payment_db needs_approval)).payments
      ≡ some q)
    × (is_unauthorized q.state ≡ true)
unfolding find
history_needs_authorization_example =
    history_needs_authorization 1 81 (attempt captured ∷ attempt denied ∷ [])
      (payment_db needs_approval) (payment_in needs_approval) refl refl
      ((λ on same. cc same), ((λ on same. cc same), tt))

authorization_consumes_approval_example :
    (approval_id : Uuid) × (some 91 ≡ some approval_id)
    × Consumed 10 (payment_in needs_approval) approval_id (payment_db needs_approval) approved.1
unfolding ◌>>=◌ transition transition_block guard_transition use_approval require_approval_id
    consume_approval newest_policy validate_transition is_legal member_state legal_transitions
    amount_failure refund_failure is_capture_state finish_transition accept_transition
    refuse_transition return_budgets releases_budget holds_reservation release_reserved_budget
    release_for_request release_daily_spend release_delegated_budget release update_delegations find
    update_where count_where all_where ◌-ℤ◌
authorization_consumes_approval_example =
    authorization_consumes_approval (env_of 99) 1 81 human_approval_granted 7 (some 91)
      (payment_db needs_approval) approved.1 (payment_in needs_approval) refl refl refl

-- The payment is expired: its 300 come back.
abbrev expired_db : Db
expired_db =
    (transition (env_of 99) 1 81 expired human_approval_granted 7 none
      (payment_db needs_approval)).1

budget_returned_example :
    daily_spend 1 31 (date 10) expired_db
    ≡ max_ℤ (daily_spend 1 31 (date 10) (payment_db needs_approval) -ℤ pos 300) (pos 0)
unfolding ◌>>=◌ transition transition_block guard_transition use_approval require_approval_id
    consume_approval newest_policy validate_transition is_legal member_state legal_transitions
    amount_failure refund_failure is_capture_state finish_transition accept_transition
    refuse_transition return_budgets releases_budget holds_reservation release_reserved_budget
    release_for_request release_daily_spend release_delegated_budget release update_delegations find
    update_where count_where all_where ◌-ℤ◌
budget_returned_example =
    budget_returned (env_of 99) 1 81 expired human_approval_granted 7 none
      (payment_db needs_approval) expired_db (payment_in needs_approval) small_request refl refl
      refl (omega arith) refl

-- The provider captures the 300.
abbrev to_capture : Payment
to_capture = record (payment_in provider_pending) {
  authorized_amount_minor = some (pos 300);
  captured_amount_minor = pos 300;
}

abbrev pending_db : Db
pending_db = record (payment_db provider_pending) { payments = to_capture ∷ [] }

abbrev captured_db : Db
captured_db = (transition (env_of 99) 1 81 captured human_approval_granted 7 none pending_db).1

capture_keeps : ¬ (HoldsBudgets provider_pending × NeverSpends captured)
capture_keeps h = elim (h.1) [ ]

budgets_kept_example : SameBudgets pending_db captured_db
unfolding ◌>>=◌ transition transition_block guard_transition use_approval require_approval_id
    consume_approval newest_policy validate_transition is_legal member_state legal_transitions
    amount_failure refund_failure is_capture_state finish_transition accept_transition
    refuse_transition return_budgets releases_budget holds_reservation release_reserved_budget
    release_for_request release_daily_spend release_delegated_budget release update_delegations find
    update_where count_where all_where ◌-ℤ◌
budgets_kept_example =
    budgets_kept (env_of 99) 1 81 captured human_approval_granted 7 none pending_db captured_db
      to_capture refl capture_keeps refl

-- Two payments wait; the approval authorizes the first.
abbrev second_waiting : Payment
second_waiting = record (payment_in needs_approval) { id = 82 }

abbrev two_waiting : Db
two_waiting = record (payment_db needs_approval) {
  payments = payment_in needs_approval ∷ second_waiting ∷ [];
}

abbrev one_waiting : Db
one_waiting =
    (transition (env_of 99) 1 81 authorized human_approval_granted 7 (some 91) two_waiting).1
