-- ===== src/Requests/Create.antt =====
-- `create_payment_request_for_context` of api/routes/payment_requests.py.
use trust_gate_merchant_copi.Base.{
  Bool, false, not, ◌&&◌, ◌||◌, Option, none, some, List, [], ◌∷◌, ◌==◌, is_some, same_id, ℤ, pos,
  ltb_ℤ, find, update_where,
}
use trust_gate_merchant_copi.Models.{
  Uuid, Decision, allow, deny, require_approval, Reason, policy_allowed, cross_tenant_access_denied,
  database_error, check_violation, unique_violation, runtime_error, State, created, needs_approval,
  authorized, denied, Merchant, PaymentRequest, AuthorizationDecision, Payment, AuditEvent,
  payment_request_rejected, rejected, is_request, is_payment, is_payment_of,
}
use trust_gate_merchant_copi.Session.{
  Action, pure, gets, modify, raise_if, or_raise, atomically, add_audit, ◌>>=◌, ◌>>◌,
}
use trust_gate_merchant_copi.Policy.{PolicyDecision, evaluate_payment_request}
use trust_gate_merchant_copi.Chain.Walk.{active_delegation_for}
use trust_gate_merchant_copi.Machine.Transition.{transition}
use trust_gate_merchant_copi.Requests.{
  PaymentRequestCreate, CatalogPurchaseContext, Fresh, Reply, decided, forbidden, snapshot_of,
  source_of, response, has_key, request_event, replay,
}
use trust_gate_merchant_copi.Requests.Budgets.{Claim, claimed, refusal, claim_if_permitted}

abbrev pub result_after : PolicyDecision → Claim → PolicyDecision
result_after result (claimed _) = result
result_after result (refusal r) = record {
  decision = deny;
  reasons = r ∷ [];
  policy_version = result.policy_version;
}

abbrev pub debited : Claim → Option Uuid
debited (claimed d) = d
debited (refusal _) = none

abbrev pub authorized_amount : Decision → ℤ → Option ℤ
authorized_amount allow amount = some amount
authorized_amount _ amount = none

-- `target_state`
abbrev pub target_state : Decision → State
target_state allow = authorized
target_state deny = denied
target_state require_approval = needs_approval

abbrev pub first_reason : List Reason → Reason
first_reason [] = policy_allowed
first_reason (r ∷ _) = r

abbrev pub request_row :
    Fresh
    → Uuid
    → PaymentRequestCreate
    → Option CatalogPurchaseContext
    → Option Uuid
    → PaymentRequest
request_row fresh tenant request context spent_delegation_id = record {
  id = fresh.request_id;
  tenant_id = tenant;
  actor_id = request.actor_id;
  merchant_id = request.merchant_id;
  snapshot = snapshot_of context;
  source = source_of fresh context;
  delegation_id = spent_delegation_id;
  request_revision = 1;
  amount_minor = request.amount_minor;
  currency = request.currency;
  order_ref = request.order_ref;
  idempotency_key = request.idempotency_key;
  created_at = fresh.env.db_now;
}

abbrev pub payment_row : Fresh → Uuid → PaymentRequestCreate → Decision → Payment
payment_row fresh tenant request decision = record {
  id = fresh.payment_id;
  tenant_id = tenant;
  payment_request_id = fresh.request_id;
  state = created;
  authorized_amount_minor = authorized_amount decision request.amount_minor;
  captured_amount_minor = pos 0;
  refunded_amount_minor = pos 0;
}

abbrev pub decision_row : Fresh → Uuid → PolicyDecision → AuthorizationDecision
decision_row fresh tenant result = record {
  tenant_id = tenant;
  payment_request_id = fresh.request_id;
  decision = result.decision;
  reasons = result.reasons;
  policy_version = result.policy_version;
  correlation_id = fresh.correlation_id;
}

-- The audit events of the spend that name no request yet.
abbrev pub is_spend_event : Uuid → Option Uuid → Uuid → AuditEvent → Bool
is_spend_event tenant none correlation e = false
is_spend_event tenant (some d) correlation e =
    e.tenant_id == tenant
    && same_id e.delegation_id (some d)
    && e.correlation_id == correlation
    && not (is_some e.payment_request_id)

abbrev pub name_request : Uuid → AuditEvent → AuditEvent
name_request i e = record e { payment_request_id = some i }

-- `session.add(payment_request)` and the update of the spend's evidence.
unfoldable pub record_request : Fresh → Uuid → PaymentRequest → Option Uuid → Action (Unit {0})
record_request fresh tenant row spent_delegation_id = do
  raise_if (ltb_ℤ row.amount_minor (pos 0)) (database_error check_violation)
  taken ← gets (λ s. is_some (find (is_request tenant row.id) s.payment_requests))
  raise_if taken (database_error unique_violation)
  modify (λ s. record s { payment_requests = row ∷ s.payment_requests })
  modify (λ s. record s {
    audit_events =
        update_where (is_spend_event tenant spent_delegation_id fresh.correlation_id)
          (name_request row.id) s.audit_events;
  })

-- `session.add_all([payment, decision])`
unfoldable pub record_payment : Uuid → Payment → AuthorizationDecision → Action (Unit {0})
record_payment tenant payment decision = do
  taken ← gets (λ s. is_some (find (is_payment tenant payment.id) s.payments))
  rival ← gets (λ s. is_some (find (is_payment_of tenant payment.payment_request_id) s.payments))
  raise_if (taken || rival) (database_error unique_violation)
  modify (λ s. record s { payments = payment ∷ s.payments; decisions = decision ∷ s.decisions })

-- From the claim on: the rows, and the first transition.
unfoldable pub record_decision :
    Fresh
    → Uuid
    → PaymentRequestCreate
    → Option CatalogPurchaseContext
    → Option Uuid
    → PolicyDecision
    → Action Reply
record_decision fresh tenant request context spent_delegation_id result = do
  let row = request_row fresh tenant request context spent_delegation_id
  record_request fresh tenant row spent_delegation_id
  let payment = payment_row fresh tenant request result.decision
  let decision = decision_row fresh tenant result
  record_payment tenant payment decision
  transition fresh.env tenant payment.id (target_state result.decision)
      (first_reason result.reasons) fresh.correlation_id none
  found ← gets (λ s. find (is_payment tenant payment.id) s.payments)
  moved ← or_raise found runtime_error
  pure (decided (response row decision moved))

-- A key that was not used before.
unfoldable pub create :
    Fresh → Uuid → PaymentRequestCreate → Option CatalogPurchaseContext → Action Reply
create fresh tenant request context = do
  result ← gets (
      evaluate_payment_request tenant request.actor_id request.merchant_id request.amount_minor
        request.currency fresh.env.now)
  held ← gets (active_delegation_for tenant request.actor_id fresh.env.now)
  claim ← claim_if_permitted fresh tenant request context held result result.decision
  record_decision fresh tenant request context (debited claim) (result_after result claim)

unfoldable pub create_or_replay :
    Fresh
    → Uuid
    → PaymentRequestCreate
    → Option CatalogPurchaseContext
    → Option PaymentRequest
    → Action Reply
create_or_replay fresh tenant request context none = create fresh tenant request context
create_or_replay fresh tenant request context (some existing) =
    replay fresh tenant request context existing

abbrev pub is_merchant : Uuid → Uuid → Merchant → Bool
is_merchant tenant i m = m.id == i && m.tenant_id == tenant

unfoldable pub request_for_merchant :
    Fresh
    → Uuid
    → PaymentRequestCreate
    → Option CatalogPurchaseContext
    → Option Merchant
    → Action Reply
request_for_merchant fresh tenant request context none = do
  modify (
      add_audit (
        request_event tenant none none fresh.correlation_id payment_request_rejected
          (rejected cross_tenant_access_denied (request.merchant_id ∷ []))))
  pure forbidden
request_for_merchant fresh tenant request context (some _) = do
  existing ← gets (λ s. find (has_key tenant request.idempotency_key) s.payment_requests)
  create_or_replay fresh tenant request context existing

-- The advisory lock on the key is what makes the calls with one key follow each other.
unfoldable pub create_payment_request_for_context :
    Fresh → Uuid → PaymentRequestCreate → Option CatalogPurchaseContext → Action Reply
create_payment_request_for_context fresh tenant request context = atomically (do
  merchant ← gets (λ s. find (is_merchant tenant request.merchant_id) s.merchants)
  request_for_merchant fresh tenant request context merchant)
