-- ===== src/Checkout.antt =====
-- api/routes/checkout_authorities.py: the permission with which a provider's order may be created.
pub mod Issue
pub mod Permit
pub mod Consume
pub mod Use
pub mod Cancel
pub mod Tests
pub mod Chain
use trust_gate_merchant_copi.Base.{
  ℕ, Bool, true, false, not, ◌&&◌, ◌||◌, Option, none, some, List, [], ◌∷◌, ltb, leb, ◌==◌,
  if◌then◌else◌, is_some, ℤ, find, update_where,
}
use trust_gate_merchant_copi.Models.{
  Uuid, Text, Time, DelegationReason, CheckoutReason, authority_not_found, authority_unavailable,
  payment_not_authorized, authority_policy_drift, chain_refused, Error, delegation_refused,
  authority_error, database_error, check_violation, authorized, state_eq, SpendingPolicy,
  Delegation, Snapshot, PaymentRequest, Payment, CheckoutAuthority, AuditEvent,
  checkout_authority_consumed, named, Db, is_request, is_payment,
}
use trust_gate_merchant_copi.Session.{
  Result, ok, err, Action, pure, raise, gets, modify, raise_if, or_raise, atomically, add_audit,
  ◌>>=◌, ◌>>◌,
}
use trust_gate_merchant_copi.Policy.{newest_policy}
use trust_gate_merchant_copi.Chain.Rows.{Env}
use trust_gate_merchant_copi.Chain.Walk.{assert_chain_live}

-- `_AUTHORITY_TTL`, in microseconds
abbrev pub authority_ttl : ℕ
authority_ttl = 900000000

-- What `_snapshot_hash` writes as JSON: the facts of the purchase, and the version of the policy.
pub record PurchaseFacts : Type 0 where
  pub tenant_id : Uuid
  pub payment_request_id : Uuid
  pub actor_id : Text
  pub merchant_id : Uuid
  pub snapshot : Option Snapshot
  pub amount_minor : ℤ
  pub currency : Text
  pub policy_version : ℕ
  pub request_revision : ℕ

abbrev pub facts_of : PaymentRequest → ℕ → PurchaseFacts
facts_of request version = record {
  tenant_id = request.tenant_id;
  payment_request_id = request.id;
  actor_id = request.actor_id;
  merchant_id = request.merchant_id;
  snapshot = request.snapshot;
  amount_minor = request.amount_minor;
  currency = request.currency;
  policy_version = version;
  request_revision = request.request_revision;
}

abbrev pub is_authority : Uuid → Uuid → CheckoutAuthority → Bool
is_authority tenant i a = a.tenant_id == tenant && a.id == i

-- `used_at is not None or expires_at <= now`
abbrev pub is_spent : Time → CheckoutAuthority → Bool
is_spent now a = is_some a.used_at || leb a.expires_at now

abbrev pub use_at : Time → CheckoutAuthority → CheckoutAuthority
use_at t a = record a { used_at = some t }

-- `except DelegationRefused as refused`
abbrev pub refusal_of : Result (List Delegation) → Result (Option DelegationReason)
refusal_of (ok _) = ok none
refusal_of (err (delegation_refused r)) = ok (some r)
refusal_of (err e) = err e

-- Why the request's chain, if it has one, carries no authority any more.
unfoldable pub chain_refusal : Uuid → Option Uuid → Time → Action (Option DelegationReason)
chain_refusal tenant none now s = (ok none, s)
chain_refusal tenant (some i) now s =
    let (r, s') = assert_chain_live tenant i now s in (refusal_of r, s')

abbrev pub raise_refusal : Option DelegationReason → Action (Unit {0})
raise_refusal none = pure tt
raise_refusal (some r) = raise (authority_error (chain_refused r))

abbrev pub is_authorized : Option Payment → Bool
is_authorized none = false
is_authorized (some p) = state_eq p.state authorized

abbrev pub consumed_event : Uuid → Uuid → Uuid → CheckoutAuthority → AuditEvent
consumed_event request payment correlation a = record {
  tenant_id = a.tenant_id;
  payment_request_id = some request;
  payment_id = some payment;
  checkout_authority_id = some a.id;
  provider_order_id = none;
  delegation_id = none;
  correlation_id = correlation;
  event_kind = checkout_authority_consumed;
  payload = named (a.id ∷ payment ∷ []);
}

-- `authority.used_at = now`, unless the authority was created later (its CHECK), and the evidence.
unfoldable pub claim_authority :
    Time → Uuid → PaymentRequest → Payment → CheckoutAuthority → Action CheckoutAuthority
claim_authority now correlation request payment authority = do
  raise_if (ltb now authority.created_at) (database_error check_violation)
  modify (λ s. record s {
    authorities =
        update_where (is_authority authority.tenant_id authority.id) (use_at now) s.authorities;
  })
  modify (add_audit (consumed_event request.id payment.id correlation authority))
  pure (use_at now authority)

-- `digest` is SHA-256 of the canonical JSON.
module _ (digest : PurchaseFacts → Text) where
  abbrev pub snapshot_hash : PaymentRequest → ℕ → Text
  snapshot_hash request version = digest (facts_of request version)

  -- The policy is not the one that the authority was issued under, or the purchase changed.
  abbrev pub is_drifted : Time → PaymentRequest → CheckoutAuthority → Option SpendingPolicy → Bool
  is_drifted now request a none = true
  is_drifted now request a (some policy) =
      not (policy.version == a.policy_version)
      || leb policy.expiry now
      || not (snapshot_hash request a.policy_version == a.snapshot_hash)

  unfoldable pub consume_checkout_authority : Env → Uuid → Uuid → Uuid → Action CheckoutAuthority
  consume_checkout_authority env tenant i correlation = atomically (do
    found ← gets (λ s. find (is_authority tenant i) s.authorities)
    authority ← or_raise found (authority_error authority_not_found)
    raise_if (is_spent env.now authority) (authority_error authority_unavailable)
    found_request ←
        gets (λ s. find (is_request tenant authority.payment_request_id) s.payment_requests)
    found_payment ← gets (λ s. find (is_payment tenant authority.payment_id) s.payments)
    policy ← gets (λ s. newest_policy tenant s.policies)
    request ← or_raise found_request (authority_error payment_not_authorized)
    payment ← or_raise found_payment (authority_error payment_not_authorized)
    raise_if (not (state_eq payment.state authorized)) (authority_error payment_not_authorized)
    raise_if (is_drifted env.now request authority policy) (authority_error authority_policy_drift)
    refusal ← chain_refusal tenant request.delegation_id env.now
    raise_refusal refusal
    claim_authority env.now correlation request payment authority)
