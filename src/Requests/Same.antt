-- ===== src/Requests/Same.antt =====
-- When a request is the same as a stored one (`_same_request` of api/routes/payment_requests.py).
use trust_gate_merchant_copi.Base.{◌≡◌, refl, ap, ◌∙◌, true, Option, none, some, eq_of_parts, arith}
use trust_gate_merchant_copi.Models.{Snapshot, PaymentRequest}
use trust_gate_merchant_copi.Requests.{
  PaymentRequestCreate, CatalogPurchaseContext, Fresh, snapshot_of, source_of, same_snapshot,
  same_request,
}

-- The same actor pays the same merchant the same money for the same order, in the same purchase of
-- the catalogue, or in none, from the same source.
pub record SameRequest (fresh : Fresh) (existing : PaymentRequest) (request : PaymentRequestCreate)
    (context : Option CatalogPurchaseContext) : Type 0 where
  pub actor : existing.actor_id ≡ request.actor_id
  pub merchant : existing.merchant_id ≡ request.merchant_id
  pub amount : existing.amount_minor ≡ request.amount_minor
  pub currency : existing.currency ≡ request.currency
  pub order : existing.order_ref ≡ request.order_ref
  pub snapshot : existing.snapshot ≡ snapshot_of context
  pub source : existing.source ≡ source_of fresh context

snapshot_lem : (a b : Option Snapshot) → same_snapshot a b ≡ true → a ≡ b
snapshot_lem none none h = refl
snapshot_lem none (some b) h = absurd (cc h)
snapshot_lem (some a) none h = absurd (cc h)
snapshot_lem (some a) (some b) h =
    let item : a.catalog_item_id ≡ b.catalog_item_id = ground (arith, h) in
    let sku : a.catalog_sku ≡ b.catalog_sku = ground (arith, h) in
    let name : a.catalog_name ≡ b.catalog_name = ground (arith, h) in
    let shop : a.merchant_display_name ≡ b.merchant_display_name = ground (arith, h) in
    let pieces : a.quantity ≡ b.quantity = ground (arith, h) in
    let aim : a.purpose ≡ b.purpose = ground (arith, h) in
    λ i. some (record {
      catalog_item_id = item i;
      catalog_sku = sku i;
      catalog_name = name i;
      merchant_display_name = shop i;
      quantity = pieces i;
      purpose = aim i;
    })

same_snapshot_refl : (a : Option Snapshot) → same_snapshot a a ≡ true
same_snapshot_refl none = refl
same_snapshot_refl (some a) = ground arith

module _ (fresh : Fresh) (existing : PaymentRequest) (request : PaymentRequestCreate)
    (context : Option CatalogPurchaseContext) where
  pub same_request_sound :
      same_request fresh existing request context ≡ true
      → SameRequest fresh existing request context
  unfolding same_request
  same_request_sound h = record {
    actor = ground (arith, h);
    merchant = ground (arith, h);
    amount = eq_of_parts existing.amount_minor request.amount_minor (ground (arith, h));
    currency = ground (arith, h);
    order = ground (arith, h);
    snapshot = snapshot_lem existing.snapshot (snapshot_of context) (ground (arith, h));
    source = ground (arith, h);
  }

  pub same_request_complete :
      SameRequest fresh existing request context
      → same_request fresh existing request context ≡ true
  unfolding same_request
  same_request_complete h =
      let snapshots : same_snapshot existing.snapshot (snapshot_of context) ≡ true =
        ap (λ x. same_snapshot x (snapshot_of context)) h.snapshot
        ∙ same_snapshot_refl (snapshot_of context) in
      ground (arith, h.actor, h.merchant, h.amount, h.currency, h.order, h.source, snapshots)
