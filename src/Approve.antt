-- ===== src/Approve.antt =====
-- api/routes/approvals.py: a person other than the requester approves a payment that waits.
pub mod Grant
mod Tests
use trust_gate_merchant_copi.Base.{
  ℕ, Bool, true, false, not, ◌&&◌, ◌||◌, Option, none, some, List, [], ◌∷◌, ◌==◌, leb,
  if◌then◌else◌, is_some, ℤ, find, update_where,
}
use trust_gate_merchant_copi.Models.{
  Uuid, Text, Time, Reason, human_approval_granted, Error, http_error, HttpDetail,
  approval_not_found_detail, approver_is_requester, approval_not_required, open_approval_exists,
  approval_expired_detail, State, needs_approval, authorized, state_eq, SpendingPolicy,
  PaymentRequest, Approval, AuthorizationDecision, Payment, Db, is_policy_version, is_request,
  is_payment, is_payment_of,
}
use trust_gate_merchant_copi.Session.{
  Action, pure, raise, gets, modify, raise_if, or_raise, atomically, ◌>>=◌, ◌>>◌,
}
use trust_gate_merchant_copi.Chain.Rows.{Env}
use trust_gate_merchant_copi.Machine.Transition.{transition}
use trust_gate_merchant_copi.Requests.{is_decision_of}

-- `ApprovalGrantResponse`
pub record ApprovalGrantResponse : Type 0 where
  pub approval_id : Uuid
  pub payment_request_id : Uuid
  pub policy_version : ℕ
  pub expires_at : Time

abbrev pub is_open_for : Uuid → Uuid → Approval → Bool
is_open_for tenant request a =
    a.tenant_id == tenant && a.payment_request_id == request && not (is_some a.consumed_at)

abbrev pub is_waiting : Payment → Bool
is_waiting p = state_eq p.state needs_approval

-- `policy.expiry <= datetime.now(UTC)`, or no decision, or no policy.
unfoldable pub policy_of :
    Uuid → Time → Option AuthorizationDecision → Action (AuthorizationDecision × SpendingPolicy)
policy_of tenant now none = raise (http_error approval_expired_detail)
policy_of tenant now (some decision) = do
  found ← gets (λ s. find (is_policy_version tenant decision.policy_version) s.policies)
  rules ← or_raise found (http_error approval_expired_detail)
  raise_if (leb rules.expiry now) (http_error approval_expired_detail)
  pure (decision, rules)

abbrev pub approval_row :
    Env → Uuid → Uuid → Text → AuthorizationDecision → SpendingPolicy → Approval
approval_row env tenant request approver decision rules = record {
  id = env.new_id;
  tenant_id = tenant;
  payment_request_id = request;
  policy_version = decision.policy_version;
  granted_by = approver;
  expires_at = rules.expiry;
  consumed_at = none;
}

abbrev pub authorize_amount : ℤ → Payment → Payment
authorize_amount amount p = record p { authorized_amount_minor = some amount }

-- The approval, the amount that it authorizes, and the transition that consumes it.
unfoldable pub approve :
    Env → Uuid → PaymentRequest → Payment → Approval → Action ApprovalGrantResponse
approve env tenant request payment approval = do
  modify (λ s. record s {
    approvals = approval ∷ s.approvals;
    payments =
        update_where (is_payment tenant payment.id) (authorize_amount request.amount_minor)
          s.payments;
  })
  transition env tenant payment.id authorized human_approval_granted env.new_correlation
      (some approval.id)
  pure (record {
    approval_id = approval.id;
    payment_request_id = request.id;
    policy_version = approval.policy_version;
    expires_at = approval.expires_at;
  })

-- `grant_approval`, once the approver's token was verified: `approver` is `DEMO_APPROVER_ID`.
unfoldable pub grant_approval : Env → Uuid → Text → Uuid → Action ApprovalGrantResponse
grant_approval env tenant approver request_id = atomically (do
  found_request ← gets (λ s. find (is_request tenant request_id) s.payment_requests)
  request ← or_raise found_request (http_error approval_not_found_detail)
  raise_if (approver == request.actor_id) (http_error approver_is_requester)
  found_payment ← gets (λ s. find (is_payment_of tenant request.id) s.payments)
  payment ← or_raise found_payment (http_error approval_not_required)
  raise_if (not (is_waiting payment)) (http_error approval_not_required)
  existing ← gets (λ s. is_some (find (is_open_for tenant request.id) s.approvals))
  raise_if existing (http_error open_approval_exists)
  found_decision ← gets (λ s. find (is_decision_of tenant request.id) s.decisions)
  decided_under ← policy_of tenant env.now found_decision
  approve env tenant request payment
      (approval_row env tenant request.id approver decided_under.0 decided_under.1))
