-- ===== src/Models/Codes.antt =====
-- The reason codes and states that the program writes as texts, one data type for each family, and
-- the exceptions that carry them (delegation/chain.py, policy_engine/evaluate.py,
-- state_machine/transitions.py, api/routes/checkout_authorities.py, alembic/versions/0016_...py).
use trust_gate_merchant_copi.Base.{ℕ, Bool, ◌==◌}

-- The reasons of `DelegationRefused`.
pub data DelegationReason : Type 0 where
  budget_not_positive exceeds_policy_daily_limit exceeds_policy_payment_limit : DelegationReason
  outlives_policy parent_not_found depth_exceeded budget_exceeds_parent : DelegationReason
  budget_exhausted delegation_not_found chain_broken actor_already_holds_one : DelegationReason
  delegation_revoked delegation_expired already_revoked amount_not_positive : DelegationReason
  delegation_policy_drift amount_exceeds_hop_limit sku_out_of_scope : DelegationReason
  reference_reused spend_not_releasable : DelegationReason

-- The reasons of a policy decision.
pub data PolicyReason : Type 0 where
  policy_not_found policy_expired currency_not_allowed merchant_not_allowed : PolicyReason
  amount_exceeds_limit daily_limit_exceeded approval_required : PolicyReason

-- The `reason_code` of each `StateMachineError`.
pub data StateCode : Type 0 where
  payment_not_found illegal_state_transition capture_exceeds_authorized : StateCode
  refund_exceeds_captured approval_required_missing approval_not_found : StateCode
  approval_already_consumed approval_expired approval_policy_version_mismatch : StateCode

-- The reasons with which a checkout authority is refused.
pub data CheckoutReason : Type 0 where
  authority_not_found authority_unavailable payment_not_authorized : CheckoutReason
  authority_policy_drift catalog_snapshot_required checkout_approval_required : CheckoutReason
  chain_refused : DelegationReason → CheckoutReason

-- The event types of the provider's wire model.
pub data EventType : Type 0 where
  payment_authorized payment_captured payment_failed payment_refunded : EventType

-- What the database raises: the trigger's exceptions, a failed CHECK, a failed unique constraint.
pub data DbError : Type 0 where
  policy_not_in_tenant policy_version_mismatch root_over_daily_limit : DbError
  root_over_payment_limit root_outlives_policy parent_not_in_tenant : DbError
  parent_revoked depth_mismatch delegator_is_not_holder root_principal_changed : DbError
  parent_policy_version_changed budget_over_parent cap_over_parent : DbError
  outlives_parent scope_widens trigger_budget_exhausted : DbError
  check_violation unique_violation : DbError

-- Any text that the program reports as the reason of something.
pub data Reason : Type 0 where
  refused : DelegationReason → Reason
  policy : PolicyReason → Reason
  machine : StateCode → Reason
  checkout : CheckoutReason → Reason
  event : EventType → Reason
  requires_a_catalog_sku policy_allowed human_approval_granted : Reason
  state_transition_accepted cross_tenant_access_denied idempotency_key_replayed : Reason
  webhook_tenant_mismatch webhook_timestamp_stale webhook_duplicate_event : Reason
  catalog_item_not_available quantity_exceeds_limit : Reason
  razorpay_timestamp_missing razorpay_stale razorpay_post_dated : Reason
  razorpay_body_too_large razorpay_signature_invalid razorpay_malformed : Reason
  razorpay_ignored razorpay_order_not_found razorpay_amount_mismatch : Reason
  razorpay_payment_not_found razorpay_duplicate_event : Reason
  purchase_rejected : Reason
  order_created_at_paytm confirmed_by_paytm failed_at_paytm : Reason

-- The details of the HTTP errors of api/routes/approvals.py, api/routes/razorpay.py and
-- api/routes/merchant.py.
pub data HttpDetail : Type 0 where
  approval_not_found_detail approver_is_requester approval_not_required : HttpDetail
  open_approval_exists approval_expired_detail : HttpDetail
  razorpay_network_error razorpay_order_rejected razorpay_order_invalid : HttpDetail
  razorpay_order_not_confirmed razorpay_reconcile_failed : HttpDetail
  razorpay_receipt_search_incomplete razorpay_duplicate_orders : HttpDetail
  checkout_refused : CheckoutReason → HttpDetail
  store_not_seeded line_not_approvable approver_unavailable : HttpDetail
  line_not_payable nothing_to_confirm paytm_failed : HttpDetail
  checkout_authority_refused request_not_found payment_not_found : HttpDetail
  paytm_order_not_found : HttpDetail

-- The exceptions of the modelled code.
pub data Error : Type 0 where
  delegation_refused : DelegationReason → Error
  state_machine_error : StateCode → Error
  authority_error : CheckoutReason → Error
  database_error : DbError → Error
  http_error : HttpDetail → Error
  runtime_error : Error
  validation_error : Error
  paytm_unavailable : Error
  attribute_error : Error

-- `ck_payment_state`
pub data State : Type 0 where
  created needs_approval authorized provider_pending captured denied expired : State
  failed refunded partially_refunded cancelled : State

-- A text for each state, as a number; two states are equal if their texts are.
abbrev pub state_code : State → ℕ
state_code created = 0
state_code needs_approval = 1
state_code authorized = 2
state_code provider_pending = 3
state_code captured = 4
state_code denied = 5
state_code expired = 6
state_code failed = 7
state_code refunded = 8
state_code partially_refunded = 9
state_code cancelled = 10

abbrev pub state_eq : State → State → Bool
state_eq a b = state_code a == state_code b

-- `ck_razorpay_order_provider_state`
pub data ProviderState : Type 0 where
  pending confirmed needs_review : ProviderState

-- `ck_paytm_order_status`
pub data PaytmStatus : Type 0 where
  order_created order_pending order_success order_failed order_mismatch : PaytmStatus

-- `PlannerMode`, and `ck_basket_assistant_mode`
pub data PlannerMode : Type 0 where
  live offline compromised : PlannerMode

-- `ck_authorization_decision_value`
pub data Decision : Type 0 where
  allow deny require_approval : Decision
