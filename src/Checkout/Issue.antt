-- ===== src/Checkout/Issue.antt =====
-- `issue_checkout_authority` of api/routes/checkout_authorities.py.
use trust_gate_merchant_copi.Base.{
  ℕ, ◌+◌, Bool, true, false, not, ◌&&◌, ◌||◌, Option, none, some, List, [], ◌∷◌, ltb, leb, ◌==◌,
  if◌then◌else◌, is_some, find,
}
use trust_gate_merchant_copi.Models.{
  Uuid, Text, Time, Decision, allow, deny, require_approval, DelegationReason, CheckoutReason,
  authority_not_found, authority_unavailable, payment_not_authorized, authority_policy_drift,
  catalog_snapshot_required, checkout_approval_required, chain_refused, refused, checkout,
  database_error, check_violation, unique_violation, authorized, cancelled, state_eq,
  SpendingPolicy, PaymentRequest, Approval, AuthorizationDecision, Payment, CheckoutAuthority,
  AuditEvent, checkout_authority_rejected, checkout_authority_issued, rejected, authority_facts,
  is_request, is_payment_of,
}
use trust_gate_merchant_copi.Session.{
  Action, pure, gets, modify, raise_if, atomically, add_audit, ◌>>=◌, ◌>>◌,
}
use trust_gate_merchant_copi.Policy.{newest_policy}
use trust_gate_merchant_copi.Chain.Rows.{Env}
use trust_gate_merchant_copi.Machine.Transition.{transition}
use trust_gate_merchant_copi.Requests.{is_decision_of}
use trust_gate_merchant_copi.Checkout.{
  authority_ttl, PurchaseFacts, snapshot_hash, is_authority, is_spent, chain_refusal,
}

-- `CheckoutAuthorityResponse`
pub record CheckoutAuthorityResponse : Type 0 where
  pub checkout_authority_id : Uuid
  pub payment_request_id : Uuid
  pub payment_id : Uuid
  pub expires_at : Time
  pub snapshot_hash : Text

-- The answers: 200, and a reason with a status (`_rejection`).
pub data CheckoutReply : Type 0 where
  issued : CheckoutAuthorityResponse → CheckoutReply
  rejection : CheckoutReason → ℕ → CheckoutReply

abbrev pub payment_id_of : Option Payment → Option Uuid
payment_id_of none = none
payment_id_of (some p) = some p.id

abbrev pub rejected_event :
    Uuid → Uuid → Option Uuid → Option Uuid → Uuid → CheckoutReason → List Uuid → AuditEvent
rejected_event tenant request payment delegation correlation reason ids = record {
  tenant_id = tenant;
  payment_request_id = some request;
  payment_id = payment;
  checkout_authority_id = none;
  provider_order_id = none;
  delegation_id = delegation;
  correlation_id = correlation;
  event_kind = checkout_authority_rejected;
  payload = rejected (checkout reason) ids;
}

-- The audit record of a refusal, and the answer 409.
unfoldable pub refuse :
    Env → PaymentRequest → Option Payment → CheckoutReason → Action CheckoutReply
refuse env request payment reason = do
  modify (
      add_audit (
        rejected_event request.tenant_id request.id (payment_id_of payment) none env.new_correlation
          reason (request.id ∷ [])))
  pure (rejection reason 409)

-- A chain that died takes the payment with it: cancelled, which returns its budgets.
unfoldable pub cancel_for_chain :
    Env → PaymentRequest → Payment → DelegationReason → Action CheckoutReply
cancel_for_chain env request payment reason = do
  modify (
      add_audit (
        rejected_event request.tenant_id request.id (some payment.id) request.delegation_id
          env.new_correlation (chain_refused reason) (request.id ∷ [])))
  transition env request.tenant_id payment.id cancelled (refused reason) env.new_correlation none
  pure (rejection (chain_refused reason) 409)

abbrev pub is_consumed_for : Uuid → Uuid → Approval → Bool
is_consumed_for tenant request a =
    a.tenant_id == tenant && a.payment_request_id == request && is_some a.consumed_at

abbrev time_or_zero : Option Time → Time
time_or_zero none = 0
time_or_zero (some t) = t

abbrev later_consumed : Approval → Option Approval → Approval
later_consumed a none = a
later_consumed a (some b) =
    if ltb (time_or_zero a.consumed_at) (time_or_zero b.consumed_at) then b else a

-- `ORDER BY consumed_at DESC LIMIT 1`
unfoldable pub last_consumed : Uuid → Uuid → List Approval → Option Approval
last_consumed tenant request [] = none
last_consumed tenant request (a ∷ rows) =
    let rest = last_consumed tenant request rows in
    if is_consumed_for tenant request a then some (later_consumed a rest) else rest

-- Whether an approval is needed and missing, and the one that was used.
abbrev pub needs_one : Decision → Bool
needs_one require_approval = true
needs_one allow = false
needs_one deny = false

abbrev pub used_approval : Decision → Option Approval → Option Uuid
used_approval require_approval (some a) = some a.id
used_approval require_approval none = none
used_approval allow o = none
used_approval deny o = none

abbrev pub is_authority_of : Uuid → Uuid → CheckoutAuthority → Bool
is_authority_of tenant request a = a.tenant_id == tenant && a.payment_request_id == request

abbrev pub authority_row :
    Env
    → PaymentRequest
    → Payment
    → SpendingPolicy
    → AuthorizationDecision
    → Option Uuid
    → Text
    → CheckoutAuthority
authority_row env request payment policy decision approval hash = record {
  id = env.new_id;
  tenant_id = request.tenant_id;
  payment_request_id = request.id;
  payment_id = payment.id;
  approval_id = approval;
  policy_version = decision.policy_version;
  snapshot_hash = hash;
  expires_at =
      if leb policy.expiry (env.now + authority_ttl)
      then policy.expiry
      else env.now + authority_ttl;
  used_at = none;
  created_at = env.db_now;
}

abbrev pub issued_event : Env → CheckoutAuthority → AuditEvent
issued_event env a = record {
  tenant_id = a.tenant_id;
  payment_request_id = some a.payment_request_id;
  payment_id = some a.payment_id;
  checkout_authority_id = some a.id;
  provider_order_id = none;
  delegation_id = none;
  correlation_id = env.new_correlation;
  event_kind = checkout_authority_issued;
  payload = authority_facts a.id a.payment_request_id a.snapshot_hash a.policy_version;
}

abbrev pub response_of : CheckoutAuthority → CheckoutAuthorityResponse
response_of a = record {
  checkout_authority_id = a.id;
  payment_request_id = a.payment_request_id;
  payment_id = a.payment_id;
  expires_at = a.expires_at;
  snapshot_hash = a.snapshot_hash;
}

-- The authority that the request has already must still be good, and be for the same purchase.
unfoldable pub reissue : Env → Text → ℕ → CheckoutAuthority → Action CheckoutReply
reissue env hash version a =
    if is_spent env.now a || not (a.snapshot_hash == hash) || not (a.policy_version == version)
    then pure (rejection authority_unavailable 409)
    else pure (issued (response_of a))

abbrev pub is_for_payment : Uuid → Uuid → CheckoutAuthority → Bool
is_for_payment tenant payment a = a.tenant_id == tenant && a.payment_id == payment

-- `session.add(authority)`, with the table's CHECK and its unique keys.
unfoldable pub insert_authority : CheckoutAuthority → Action (Unit {0})
insert_authority a = do
  raise_if (leb a.expires_at a.created_at) (database_error check_violation)
  taken ← gets (λ s. is_some (find (is_authority a.tenant_id a.id) s.authorities))
  rival ← gets (λ s. is_some (find (is_for_payment a.tenant_id a.payment_id) s.authorities))
  raise_if (taken || rival) (database_error unique_violation)
  modify (λ s. record s { authorities = a ∷ s.authorities })

unfoldable pub issue_or_reissue :
    Env → CheckoutAuthority → Option CheckoutAuthority → Action CheckoutReply
issue_or_reissue env a (some existing) = reissue env a.snapshot_hash a.policy_version existing
issue_or_reissue env a none = do
  insert_authority a
  modify (add_audit (issued_event env a))
  pure (issued (response_of a))

module _ (digest : PurchaseFacts → Text) where
  -- From the chain on.
  unfoldable pub issue_for :
      Env
      → PaymentRequest
      → Payment
      → AuthorizationDecision
      → SpendingPolicy
      → Option DelegationReason
      → Action CheckoutReply
  issue_for env request payment decision policy (some reason) =
      cancel_for_chain env request payment reason
  issue_for env request payment decision policy none =
      if not (is_some request.snapshot)
      then refuse env request (some payment) catalog_snapshot_required
      else (do
        approval ← gets (λ s. last_consumed request.tenant_id request.id s.approvals)
        existing ← gets (λ s. find (is_authority_of request.tenant_id request.id) s.authorities)
        if needs_one decision.decision && not (is_some approval)
            then refuse env request (some payment) checkout_approval_required
            else issue_or_reissue env
                (authority_row env request payment policy decision
                  (used_approval decision.decision approval)
                  (snapshot_hash digest request decision.policy_version))
                existing)

  -- From the policy's version on.
  unfoldable pub issue_under :
      Env → PaymentRequest → Payment → AuthorizationDecision → SpendingPolicy → Action CheckoutReply
  issue_under env request payment decision policy =
      if not (policy.version == decision.policy_version) || leb policy.expiry env.now
      then refuse env request (some payment) authority_policy_drift
      else (do
        refusal ← chain_refusal request.tenant_id request.delegation_id env.now
        issue_for env request payment decision policy refusal)

  -- A payment, its decision and a policy, or the refusal.
  unfoldable pub issue_if_authorized :
      Env
      → PaymentRequest
      → Option Payment
      → Option AuthorizationDecision
      → Option SpendingPolicy
      → Action CheckoutReply
  issue_if_authorized env request (some payment) (some decision) (some policy) =
      if state_eq payment.state authorized
      then issue_under env request payment decision policy
      else refuse env request (some payment) payment_not_authorized
  issue_if_authorized env request payment decision policy =
      refuse env request payment payment_not_authorized

  unfoldable pub issue_for_request : Env → Option PaymentRequest → Action CheckoutReply
  issue_for_request env none = pure (rejection authority_not_found 404)
  issue_for_request env (some request) = do
    payment ← gets (λ s. find (is_payment_of request.tenant_id request.id) s.payments)
    decision ← gets (λ s. find (is_decision_of request.tenant_id request.id) s.decisions)
    policy ← gets (λ s. newest_policy request.tenant_id s.policies)
    issue_if_authorized env request payment decision policy

  unfoldable pub issue_checkout_authority : Env → Uuid → Uuid → Action CheckoutReply
  issue_checkout_authority env tenant i = atomically (do
    request ← gets (λ s. find (is_request tenant i) s.payment_requests)
    issue_for_request env request)
