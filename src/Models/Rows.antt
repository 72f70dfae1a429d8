-- ===== src/Models/Rows.antt =====
-- The rows of models/domain.py that the modelled operations read or write, and `Bounds` of
-- delegation/chain.py. Texts and UUIDs are only compared, so they are numbers; a time counts
-- microseconds from the epoch of Python's `datetime`.
use trust_gate_merchant_copi.Base.{ℕ, ◌/◌, Bool, Option, List, ℤ}
use trust_gate_merchant_copi.Models.Codes.{
  State, Decision, Reason, EventType, ProviderState, PlannerMode, PaytmStatus,
}

abbrev pub Uuid : Type 0
Uuid = ℕ

abbrev pub Text : Type 0
Text = ℕ

abbrev pub Time : Type 0
Time = ℕ

-- `datetime.date`
abbrev pub date : Time → ℕ
date t = t / 86400000000

pub record Merchant : Type 0 where
  pub id : Uuid
  pub tenant_id : Uuid
  pub name : Text
  pub is_active : Bool

-- `price_minor` and `max_quantity` are positive, by their CHECKs.
pub record CatalogItem : Type 0 where
  pub id : Uuid
  pub tenant_id : Uuid
  pub merchant_id : Uuid
  pub sku : Text
  pub name : Text
  pub price_minor : ℕ
  pub currency : Text
  pub max_quantity : ℕ
  pub active : Bool

pub record SpendingPolicy : Type 0 where
  pub id : Uuid
  pub tenant_id : Uuid
  pub version : ℕ
  pub max_amount_minor : ℤ
  pub currency : Text
  pub max_daily_spend_minor : ℤ
  pub expiry : Time
  pub approval_required_above_minor : Option ℤ

pub record PolicyMerchant : Type 0 where
  pub tenant_id : Uuid
  pub policy_id : Uuid
  pub merchant_id : Uuid

pub record Delegation : Type 0 where
  pub id : Uuid
  pub tenant_id : Uuid
  pub parent_id : Option Uuid
  pub depth : ℕ
  pub policy_id : Uuid
  pub policy_version : ℕ
  pub root_actor_id : Text
  pub delegator_actor_id : Text
  pub delegate_actor_id : Text
  pub budget_minor : ℤ
  pub allocated_minor : ℤ
  pub spent_minor : ℤ
  pub max_amount_minor : ℤ
  pub allowed_skus : List Text
  pub purpose : Text
  pub expires_at : Time
  pub revoked_at : Option Time
  pub created_at : Time

pub record DelegationSpend : Type 0 where
  pub id : Uuid
  pub tenant_id : Uuid
  pub delegation_id : Uuid
  pub reference : Uuid
  pub amount_minor : ℤ
  pub sku : Text
  pub released_at : Option Time

-- The catalog snapshot of a request: the six columns that are null together, by
-- `ck_payment_request_catalog_snapshot_complete`.
pub record Snapshot : Type 0 where
  pub catalog_item_id : Uuid
  pub catalog_sku : Text
  pub catalog_name : Text
  pub merchant_display_name : Text
  pub quantity : ℕ
  pub purpose : Text

pub record PaymentRequest : Type 0 where
  pub id : Uuid
  pub tenant_id : Uuid
  pub actor_id : Text
  pub merchant_id : Uuid
  pub snapshot : Option Snapshot
  pub source : Text
  pub delegation_id : Option Uuid
  pub request_revision : ℕ
  pub amount_minor : ℤ
  pub currency : Text
  pub order_ref : Text
  pub idempotency_key : Text
  pub created_at : Time

pub record DailySpendReservation : Type 0 where
  pub tenant_id : Uuid
  pub actor_id : Text
  pub spend_date : ℕ
  pub reserved_amount_minor : ℤ

pub record Approval : Type 0 where
  pub id : Uuid
  pub tenant_id : Uuid
  pub payment_request_id : Uuid
  pub policy_version : ℕ
  pub granted_by : Text
  pub expires_at : Time
  pub consumed_at : Option Time

pub record AuthorizationDecision : Type 0 where
  pub tenant_id : Uuid
  pub payment_request_id : Uuid
  pub decision : Decision
  pub reasons : List Reason
  pub policy_version : ℕ
  pub correlation_id : Uuid

pub record Payment : Type 0 where
  pub id : Uuid
  pub tenant_id : Uuid
  pub payment_request_id : Uuid
  pub state : State
  pub authorized_amount_minor : Option ℤ
  pub captured_amount_minor : ℤ
  pub refunded_amount_minor : ℤ

pub record CheckoutAuthority : Type 0 where
  pub id : Uuid
  pub tenant_id : Uuid
  pub payment_request_id : Uuid
  pub payment_id : Uuid
  pub approval_id : Option Uuid
  pub policy_version : ℕ
  pub snapshot_hash : Text
  pub expires_at : Time
  pub used_at : Option Time
  pub created_at : Time

-- A receipt `tg_<hex>` is written as the identifier of the authority in it.
pub record RazorpayOrder : Type 0 where
  pub id : Uuid
  pub tenant_id : Uuid
  pub checkout_authority_id : Uuid
  pub payment_id : Uuid
  pub razorpay_order_id : Option Text
  pub provider_state : ProviderState
  pub reconciled_at : Option Time
  pub receipt : Uuid
  pub amount_minor : ℤ
  pub currency : Text

pub record ProviderEvent : Type 0 where
  pub tenant_id : Uuid
  pub provider_event_id : Text
  pub event_type : EventType
  pub payment_id : Uuid
  pub processed_at : Option Time

-- `Bounds` of delegation/chain.py
pub record Bounds : Type 0 where
  pub budget_minor : ℤ
  pub max_amount_minor : ℤ
  pub allowed_skus : List Text
  pub purpose : Text
  pub expires_at : Time

-- `Basket`
pub record Basket : Type 0 where
  pub id : Uuid
  pub tenant_id : Uuid
  pub goal : Text
  pub assistant_mode : PlannerMode
  pub model : Option Text
  pub note : Text

-- A field that the planner proposed and the purchase has no place for: its name and its value.
pub record DiscardedField : Type 0 where
  pub name : Text
  pub value : Text

-- `proposed` of a line
pub record ProposedLine : Type 0 where
  pub sku : Text
  pub quantity : ℤ
  pub purpose : Text

-- `BasketLine`
pub record BasketLine : Type 0 where
  pub id : Uuid
  pub tenant_id : Uuid
  pub basket_id : Uuid
  pub position : ℕ
  pub proposed : ProposedLine
  pub discarded : List DiscardedField
  pub payment_request_id : Option Uuid
  pub rejection_reason : Option Reason

-- `PaytmOrder`
pub record PaytmOrder : Type 0 where
  pub id : Uuid
  pub tenant_id : Uuid
  pub payment_id : Uuid
  pub checkout_authority_id : Uuid
  pub order_id : Text
  pub amount_minor : ℤ
  pub status : PaytmStatus
  pub paytm_txn_id : Option Text
  pub confirmed_at : Option Time
