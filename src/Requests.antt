-- ===== src/Requests.antt =====
-- api/routes/payment_requests.py: the decision on a payment request, once for each idempotency key.
pub mod Budgets
pub mod Create
pub mod Same
pub mod Claiming
pub mod Stored
pub mod Replay
pub mod Claims
pub mod Record
pub mod Outcome
mod Tests
use trust_gate_merchant_copi.Base.{
  ℕ, Bool, true, false, not, ◌&&◌, Option, none, some, List, [], ◌∷◌, ◌==◌, if◌then◌else◌, is_some,
  same_id, ℤ, pos, ltb_ℤ, eq_ℤ, find, update_where,
}
use trust_gate_merchant_copi.Models.{
  Uuid, Text, Decision, allow, deny, require_approval, Reason, policy, daily_limit_exceeded,
  refused, requires_a_catalog_sku, policy_allowed, cross_tenant_access_denied,
  idempotency_key_replayed, Error, delegation_refused, database_error, check_violation,
  unique_violation, runtime_error, State, created, needs_approval, authorized, denied, Merchant,
  Delegation, Snapshot, PaymentRequest, AuthorizationDecision, Payment, AuditEvent, EventKind,
  payment_request_rejected, idempotency_key_collision, Payload, rejected, Db, is_request,
  is_payment, is_payment_of,
}
use trust_gate_merchant_copi.Session.{
  Result, ok, err, Action, pure, raise, gets, modify, raise_if, or_raise, atomically, add_audit,
  ◌>>=◌, ◌>>◌,
}
use trust_gate_merchant_copi.Policy.{PolicyDecision, evaluate_payment_request, reserve_daily_spend}
use trust_gate_merchant_copi.Chain.Rows.{Env}
use trust_gate_merchant_copi.Chain.Walk.{active_delegation_for}
use trust_gate_merchant_copi.Chain.Spend.{spend}
use trust_gate_merchant_copi.Machine.Transition.{transition}

-- `PaymentRequestCreate`
pub record PaymentRequestCreate : Type 0 where
  pub actor_id : Text
  pub merchant_id : Uuid
  pub amount_minor : ℤ
  pub currency : Text
  pub order_ref : Text
  pub idempotency_key : Text

-- `CatalogPurchaseContext`: the snapshot, and where the request comes from.
pub record CatalogPurchaseContext : Type 0 where
  pub snapshot : Snapshot
  pub source : Text

-- What `uuid4` supplies to one request, beside the call's own environment, and the source text "API".
pub record Fresh : Type 0 where
  pub env : Env
  pub correlation_id : Uuid
  pub request_id : Uuid
  pub payment_id : Uuid
  pub api_source : Text

-- `PaymentRequestDecision`
pub record PaymentRequestDecision : Type 0 where
  pub payment_request_id : Uuid
  pub decision : Decision
  pub reasons : List Reason
  pub policy_version : ℕ
  pub correlation_id : Uuid
  pub next_state : State

-- The HTTP answers: 201, 403 and 409.
pub data Reply : Type 0 where
  decided : PaymentRequestDecision → Reply
  forbidden : Reply
  conflict : PaymentRequestDecision → Reply

abbrev pub snapshot_of : Option CatalogPurchaseContext → Option Snapshot
snapshot_of none = none
snapshot_of (some c) = some c.snapshot

abbrev pub source_of : Fresh → Option CatalogPurchaseContext → Text
source_of fresh none = fresh.api_source
source_of fresh (some c) = c.source

-- The six catalogue columns, which are null together.
abbrev pub same_snapshot : Option Snapshot → Option Snapshot → Bool
same_snapshot none none = true
same_snapshot (some a) (some b) =
    a.catalog_item_id == b.catalog_item_id
    && a.catalog_sku == b.catalog_sku
    && a.catalog_name == b.catalog_name
    && a.merchant_display_name == b.merchant_display_name
    && a.quantity == b.quantity
    && a.purpose == b.purpose
same_snapshot _ _ = false

-- `_same_request`
unfoldable pub same_request :
    Fresh → PaymentRequest → PaymentRequestCreate → Option CatalogPurchaseContext → Bool
same_request fresh existing request context =
    existing.actor_id == request.actor_id
    && existing.merchant_id == request.merchant_id
    && eq_ℤ existing.amount_minor request.amount_minor
    && existing.currency == request.currency
    && existing.order_ref == request.order_ref
    && same_snapshot existing.snapshot (snapshot_of context)
    && existing.source == source_of fresh context

-- `_response`
abbrev pub response : PaymentRequest → AuthorizationDecision → Payment → PaymentRequestDecision
response request decision payment = record {
  payment_request_id = request.id;
  decision = decision.decision;
  reasons = decision.reasons;
  policy_version = decision.policy_version;
  correlation_id = decision.correlation_id;
  next_state = payment.state;
}

abbrev pub has_key : Uuid → Text → PaymentRequest → Bool
has_key tenant key r = r.tenant_id == tenant && r.idempotency_key == key

abbrev pub is_decision_of : Uuid → Uuid → AuthorizationDecision → Bool
is_decision_of tenant request d = d.tenant_id == tenant && d.payment_request_id == request

abbrev pub request_event :
    Uuid → Option Uuid → Option Uuid → Uuid → EventKind → Payload → AuditEvent
request_event tenant request payment correlation kind payload = record {
  tenant_id = tenant;
  payment_request_id = request;
  payment_id = payment;
  checkout_authority_id = none;
  provider_order_id = none;
  delegation_id = none;
  correlation_id = correlation;
  event_kind = kind;
  payload = payload;
}

-- The answer to a key that was used before: the stored decision, or a conflict.
unfoldable pub replay :
    Fresh
    → Uuid
    → PaymentRequestCreate
    → Option CatalogPurchaseContext
    → PaymentRequest
    → Action Reply
replay fresh tenant request context existing = do
  found_decision ← gets (λ s. find (is_decision_of tenant existing.id) s.decisions)
  found_payment ← gets (λ s. find (is_payment_of tenant existing.id) s.payments)
  decision ← or_raise found_decision runtime_error
  payment ← or_raise found_payment runtime_error
  if same_request fresh existing request context
      then pure (decided (response existing decision payment))
      else (do
        modify (
            add_audit (
              request_event tenant (some existing.id) (some payment.id) decision.correlation_id
                idempotency_key_collision (rejected idempotency_key_replayed (existing.id ∷ []))))
        pure (conflict (response existing decision payment)))
