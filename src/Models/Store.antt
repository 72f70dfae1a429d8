-- ===== src/Models/Store.antt =====
-- The database as one record of tables, with the keys by which rows are looked up.
use trust_gate_merchant_copi.Base.{ℕ, Bool, ◌&&◌, List, ◌==◌}
use trust_gate_merchant_copi.Models.Rows.{
  Uuid, Text, Merchant, CatalogItem, SpendingPolicy, PolicyMerchant, Delegation, DelegationSpend,
  PaymentRequest, DailySpendReservation, Approval, AuthorizationDecision, Payment,
  CheckoutAuthority, RazorpayOrder, ProviderEvent, Basket, BasketLine, PaytmOrder,
}
use trust_gate_merchant_copi.Models.Audit.{AuditEvent}

pub record Db : Type 0 where
  pub tenants : List Uuid
  pub merchants : List Merchant
  pub catalog_items : List CatalogItem
  pub policies : List SpendingPolicy
  pub policy_merchants : List PolicyMerchant
  pub delegations : List Delegation
  pub delegation_spends : List DelegationSpend
  pub payment_requests : List PaymentRequest
  pub reservations : List DailySpendReservation
  pub approvals : List Approval
  pub decisions : List AuthorizationDecision
  pub payments : List Payment
  pub authorities : List CheckoutAuthority
  pub razorpay_orders : List RazorpayOrder
  pub provider_events : List ProviderEvent
  pub paytm_orders : List PaytmOrder
  pub baskets : List Basket
  pub basket_lines : List BasketLine
  pub audit_events : List AuditEvent

abbrev pub is_policy_version : Uuid → ℕ → SpendingPolicy → Bool
is_policy_version tenant version p = p.tenant_id == tenant && p.version == version

abbrev pub is_delegation : Uuid → Uuid → Delegation → Bool
is_delegation tenant i d = d.tenant_id == tenant && d.id == i

abbrev pub is_request : Uuid → Uuid → PaymentRequest → Bool
is_request tenant i r = r.tenant_id == tenant && r.id == i

abbrev pub is_payment : Uuid → Uuid → Payment → Bool
is_payment tenant i p = p.tenant_id == tenant && p.id == i

abbrev pub is_payment_of : Uuid → Uuid → Payment → Bool
is_payment_of tenant request p = p.tenant_id == tenant && p.payment_request_id == request

abbrev pub is_actor_day : Uuid → Text → ℕ → DailySpendReservation → Bool
is_actor_day tenant actor day r =
    r.tenant_id == tenant && r.actor_id == actor && r.spend_date == day
