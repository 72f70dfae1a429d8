-- ===== src/Machine/Transition.antt =====
-- `_consume_approval`, the releases of budget, `_write_audit_event` and `transition` of
-- state_machine/transitions.py.
use trust_gate_merchant_copi.Base.{
  ℕ, Bool, true, false, not, ◌&&◌, Option, none, some, [], ◌∷◌, leb, ◌==◌, if◌then◌else◌, is_some,
  find, update_where, count_where,
}
use trust_gate_merchant_copi.Models.{
  Uuid, Time, date, State, needs_approval, authorized, state_eq, StateCode, payment_not_found,
  approval_required_missing, approval_not_found, approval_already_consumed, approval_expired,
  approval_policy_version_mismatch, Reason, machine, state_transition_accepted, Error,
  state_machine_error, delegation_refused, SpendingPolicy, PaymentRequest, Approval, Payment,
  Amounts, AuditEvent, EventKind, illegal_transition_attempt, payment_transition, transitioned,
  rejected, is_request, is_payment,
}
use trust_gate_merchant_copi.Session.{
  Result, ok, err, Action, pure, raise, gets, modify, raise_if, or_raise, atomically, add_audit,
  ◌>>=◌, ◌>>◌,
}
use trust_gate_merchant_copi.Policy.{newest_policy, release_daily_spend}
use trust_gate_merchant_copi.Chain.Rows.{Env}
use trust_gate_merchant_copi.Chain.Spend.{release}
use trust_gate_merchant_copi.Machine.Legal.{validate_transition, releases_budget, holds_reservation}

abbrev pub is_approval : Uuid → Uuid → Approval → Bool
is_approval tenant i a = a.tenant_id == tenant && a.id == i

-- The row that the final UPDATE of `_consume_approval` selects.
abbrev pub is_open_approval : Uuid → Uuid → Uuid → Approval → Bool
is_open_approval tenant i request a =
    is_approval tenant i a && a.payment_request_id == request && not (is_some a.consumed_at)

abbrev pub consume_at : Time → Approval → Approval
consume_at t a = record a { consumed_at = some t }

abbrev pub is_other_version : Option SpendingPolicy → ℕ → Bool
is_other_version none version = true
is_other_version (some p) version = not (p.version == version)

abbrev pub machine_error : StateCode → Error
machine_error c = state_machine_error c

unfoldable pub consume_approval : Env → Payment → Uuid → Action (Unit {0})
consume_approval env payment i = do
  found ← gets (λ s. find (is_approval payment.tenant_id i) s.approvals)
  approval ← or_raise found (machine_error approval_not_found)
  raise_if (not (approval.payment_request_id == payment.payment_request_id))
      (machine_error approval_not_found)
  raise_if (is_some approval.consumed_at) (machine_error approval_already_consumed)
  raise_if (leb approval.expires_at env.now) (machine_error approval_expired)
  current ← gets (λ s. newest_policy payment.tenant_id s.policies)
  raise_if (is_other_version current approval.policy_version)
      (machine_error approval_policy_version_mismatch)
  rows ← gets (λ s.
      count_where (is_open_approval payment.tenant_id i payment.payment_request_id) s.approvals)
  modify (λ s. record s {
    approvals =
        update_where (is_open_approval payment.tenant_id i payment.payment_request_id)
          (consume_at env.now) s.approvals;
  })
  raise_if (not (rows == 1)) (machine_error approval_already_consumed)

unfoldable pub release_for_request : Payment → Option PaymentRequest → Action (Unit {0})
release_for_request payment none = pure tt
release_for_request payment (some request) = do
  release_daily_spend payment.tenant_id request.actor_id request.amount_minor
      (date request.created_at)
  pure tt

-- `_release_reserved_budget`
unfoldable pub release_reserved_budget : Payment → Action (Unit {0})
release_reserved_budget payment = do
  request ←
      gets (λ s. find (is_request payment.tenant_id payment.payment_request_id) s.payment_requests)
  release_for_request payment request

-- `except DelegationRefused: return`
abbrev pub ignore_refusal : Result (Unit {0}) → Result (Unit {0})
ignore_refusal (err (delegation_refused _)) = ok tt
ignore_refusal r = r

-- `_release_delegated_budget`
unfoldable pub release_delegated_budget : Env → Payment → Uuid → Action (Unit {0})
release_delegated_budget env payment correlation s =
    let (r, s') =
      release env payment.tenant_id payment.payment_request_id env.db_now (some correlation)
        (some payment.payment_request_id) s in
    (ignore_refusal r, s')

-- `_write_audit_event`
abbrev pub transition_event :
    Payment → Uuid → EventKind → Reason → Reason → State → State → Option Amounts → AuditEvent
transition_event payment correlation kind reason code from to attempted = record {
  tenant_id = payment.tenant_id;
  payment_request_id = some payment.payment_request_id;
  payment_id = some payment.id;
  checkout_authority_id = none;
  provider_order_id = none;
  delegation_id = none;
  correlation_id = correlation;
  event_kind = kind;
  payload = transitioned payment.id from to reason code attempted;
}

abbrev pub amounts_of : Payment → Amounts
amounts_of p = record {
  authorized_amount_minor = p.authorized_amount_minor;
  captured_amount_minor = p.captured_amount_minor;
  refunded_amount_minor = p.refunded_amount_minor;
}

abbrev pub missing_approval_event : Payment → Uuid → AuditEvent
missing_approval_event payment correlation = record {
  tenant_id = payment.tenant_id;
  payment_request_id = some payment.payment_request_id;
  payment_id = some payment.id;
  checkout_authority_id = none;
  provider_order_id = none;
  delegation_id = none;
  correlation_id = correlation;
  event_kind = illegal_transition_attempt;
  payload = rejected (machine approval_required_missing) (payment.id ∷ []);
}

-- The approval that `APPROVAL_REQUIRED` to `AUTHORIZED` consumes.
unfoldable pub require_approval_id : Env → Payment → Uuid → Option Uuid → Action (Unit {0})
require_approval_id env payment correlation none = do
  modify (add_audit (missing_approval_event payment correlation))
  raise (machine_error approval_required_missing)
require_approval_id env payment correlation (some i) = consume_approval env payment i

abbrev pub raise_code : Option StateCode → Action (Unit {0})
raise_code none = pure tt
raise_code (some c) = raise (machine_error c)

-- Only a payment that waits for approval uses one.
unfoldable pub use_approval : Env → Payment → State → Uuid → Option Uuid → Action (Unit {0})
use_approval env payment to correlation approval_id =
    if state_eq payment.state needs_approval && state_eq to authorized
    then require_approval_id env payment correlation approval_id
    else pure tt

-- The body of the `try`.
unfoldable pub guard_transition : Env → Payment → State → Uuid → Option Uuid → Action (Unit {0})
guard_transition env payment to correlation approval_id = do
  use_approval env payment to correlation approval_id
  raise_code (validate_transition payment to)

-- `except StateMachineError as exc: error = exc`
abbrev pub caught : Result (Unit {0}) → Result (Option StateCode)
caught (ok _) = ok none
caught (err (state_machine_error c)) = ok (some c)
caught (err e) = err e

abbrev pub catch_machine : Action (Unit {0}) → Action (Option StateCode)
catch_machine m s = let (r, s') = m s in (caught r, s')

abbrev pub set_state : State → Payment → Payment
set_state to p = record p { state = to }

-- Both budgets come back when a payment that holds them reaches a state that never spends them.
unfoldable pub return_budgets : Env → Payment → State → Uuid → Action (Unit {0})
return_budgets env payment to correlation =
    if releases_budget to && holds_reservation payment.state
    then (do release_reserved_budget payment; release_delegated_budget env payment correlation)
    else pure tt

-- The `else` of the `try`: the state change, the budgets it frees, and its audit record.
unfoldable pub accept_transition : Env → Payment → State → Reason → Uuid → Action (Unit {0})
accept_transition env payment to reason correlation = do
  modify (λ s. record s {
    payments = update_where (is_payment payment.tenant_id payment.id) (set_state to) s.payments;
  })
  return_budgets env payment to correlation
  modify (
      add_audit (
        transition_event payment correlation payment_transition reason state_transition_accepted
          payment.state to none))

abbrev is_missing_approval : StateCode → Bool
is_missing_approval approval_required_missing = true
is_missing_approval _ = false

-- The `except` of the `try`: a missing approval has been audited already.
unfoldable pub refuse_transition : Payment → State → Reason → Uuid → StateCode → Action (Unit {0})
refuse_transition payment to reason correlation c =
    if is_missing_approval c
    then pure tt
    else modify (
        add_audit (
          transition_event payment correlation illegal_transition_attempt reason (machine c)
            payment.state to (some (amounts_of payment))))

unfoldable pub finish_transition :
    Env → Payment → State → Reason → Uuid → Option StateCode → Action (Option StateCode)
finish_transition env payment to reason correlation none = do
  accept_transition env payment to reason correlation
  pure none
finish_transition env payment to reason correlation (some c) = do
  refuse_transition payment to reason correlation c
  pure (some c)

-- The transaction of `transition`: what went wrong, if anything did.
unfoldable pub transition_block :
    Env → Uuid → Uuid → State → Reason → Uuid → Option Uuid → Action (Option StateCode)
transition_block env tenant i to reason correlation approval_id = do
  found ← gets (λ s. find (is_payment tenant i) s.payments)
  payment ← or_raise found (machine_error payment_not_found)
  error ← catch_machine (guard_transition env payment to correlation approval_id)
  finish_transition env payment to reason correlation error

unfoldable pub transition :
    Env → Uuid → Uuid → State → Reason → Uuid → Option Uuid → Action (Unit {0})
transition env tenant i to reason correlation approval_id = do
  error ← atomically (transition_block env tenant i to reason correlation approval_id)
  raise_code error
