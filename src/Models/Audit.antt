-- ===== src/Models/Audit.antt =====
-- `AuditEvent` of models/domain.py. The JSON payload is a data type with a constructor for each
-- shape that the modelled code writes.
use trust_gate_merchant_copi.Base.{ℕ, Option, List, ℤ}
use trust_gate_merchant_copi.Models.Codes.{State, Reason, PlannerMode}
use trust_gate_merchant_copi.Models.Rows.{Uuid, Text, Time, Bounds, ProposedLine, DiscardedField}

pub data EventKind : Type 0 where
  delegation_granted delegation_expiry_finalized delegation_was_revoked delegation_spent : EventKind
  delegation_released illegal_transition_attempt payment_transition : EventKind
  payment_request_rejected idempotency_key_collision webhook_rejected : EventKind
  checkout_authority_consumed checkout_authority_rejected checkout_authority_issued : EventKind
  catalog_purchase_rejected : EventKind
  planner_fell_back planner_line_proposed planner_fields_discarded line_stopped : EventKind
  paytm_order_created paytm_amount_mismatch paytm_status_confirmed paytm_payment_failed : EventKind
  paytm_status_pending paytm_callback_verified paytm_callback_rejected : EventKind
  razorpay_order_intent_recorded razorpay_order_created razorpay_order_creation_failed : EventKind
  razorpay_order_reconciled razorpay_order_needs_review : EventKind
  razorpay_callback_rejected razorpay_callback_verified razorpay_webhook_rejected : EventKind
  razorpay_payment_attempt_failed razorpay_webhook_verified : EventKind

-- `attempted_amounts`
pub record Amounts : Type 0 where
  pub authorized_amount_minor : Option ℤ
  pub captured_amount_minor : ℤ
  pub refunded_amount_minor : ℤ

pub data Payload : Type 0 where
  -- depth, parent, root actor, delegator (absent from a root's), delegate, bounds, policy version
  granted : ℕ → Option Uuid → Text → Option Text → Text → Bounds → Option ℕ → Payload
  finalized : Uuid → Text → Time → Payload
  revoked : Uuid → Payload
  -- reference, amount, sku, chain, root actor
  spent : Uuid → ℤ → Text → List Uuid → Text → Payload
  released : Uuid → ℤ → Payload
  -- payment, from, to, reason, reason code, attempted amounts
  transitioned : Uuid → State → State → Reason → Reason → Option Amounts → Payload
  -- a reason and the identifiers beside it
  rejected : Reason → List Uuid → Payload
  -- the identifiers of an authority and its payment or request
  named : List Uuid → Payload
  -- the identifiers of an authority and its order, which a second attempt created
  recovered : List Uuid → Payload
  -- reason, provider order, authorized and reported amount
  mismatch : Reason → Text → ℤ → ℤ → Payload
  -- provider order and payment, state of the payment
  attempted : Text → Text → State → Payload
  -- authority, request, snapshot hash, policy version
  authority_facts : Uuid → Uuid → Text → ℕ → Payload
  -- order, the server's amount of it
  order_amount : Text → ℤ → Payload
  -- order, the server's amount of it, the amount that was reported
  reported_amount : Text → ℤ → Text → Payload
  -- the mode that was asked for, and the mode that was used
  fell_back : PlannerMode → PlannerMode → Payload
  -- line, position, the name shown, the proposal, and what was discarded of it
  proposed_line : Uuid → ℕ → Text → ProposedLine → List DiscardedField → Payload
  -- line, position, and what was discarded, without the listing beside it
  discarded_fields : Uuid → ℕ → List DiscardedField → Payload
  -- line, position, item, reason
  stopped_line : Uuid → ℕ → Text → Option Reason → Payload

pub record AuditEvent : Type 0 where
  pub tenant_id : Uuid
  pub payment_request_id : Option Uuid
  pub payment_id : Option Uuid
  pub checkout_authority_id : Option Uuid
  pub provider_order_id : Option Uuid
  pub delegation_id : Option Uuid
  pub correlation_id : Uuid
  pub event_kind : EventKind
  pub payload : Payload
