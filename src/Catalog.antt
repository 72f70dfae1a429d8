-- ===== src/Catalog.antt =====
-- api/routes/catalog_payment_requests.py: a payment request whose payment facts are the catalogue's.
pub mod Outcome
pub mod Tests
use trust_gate_merchant_copi.Base.{
  ℕ, ◌+◌, ◌*◌, Bool, ◌&&◌, Option, none, some, List, [], ◌∷◌, ltb, ◌==◌, if◌then◌else◌, ℤ, pos,
  find,
}
use trust_gate_merchant_copi.Models.{
  Uuid, Text, Reason, catalog_item_not_available, quantity_exceeds_limit, Merchant, CatalogItem,
  Snapshot, catalog_purchase_rejected, rejected, Db,
}
use trust_gate_merchant_copi.Session.{
  Action, pure, gets, modify, atomically, add_audit, ◌>>=◌, ◌>>◌,
}
use trust_gate_merchant_copi.Requests.{
  PaymentRequestCreate, CatalogPurchaseContext, Fresh, PaymentRequestDecision, Reply, decided,
  forbidden, conflict, request_event,
}
use trust_gate_merchant_copi.Requests.Create.{is_merchant, create_payment_request_for_context}

-- `CatalogPaymentRequestCreate`
pub record CatalogPaymentRequestCreate : Type 0 where
  pub sku : Text
  pub quantity : ℕ
  pub purpose : Text
  pub idempotency_key : Text

-- `CatalogPaymentRequestDecision`
pub record CatalogPaymentRequestDecision : Type 0 where
  pub decision : PaymentRequestDecision
  pub sku : Text
  pub quantity : ℕ
  pub purpose : Text
  pub merchant_display_name : Text
  pub amount_minor : ℤ
  pub currency : Text

-- The answers: 201; a rejection, 404 or 422; or the refusal of the payment request.
pub data CatalogReply : Type 0 where
  catalog_decided : CatalogPaymentRequestDecision → CatalogReply
  catalog_rejected : Reason → ℕ → CatalogReply
  not_decided : Reply → CatalogReply

abbrev pub is_active_item : Uuid → Text → CatalogItem → Bool
is_active_item tenant sku c = c.tenant_id == tenant && c.sku == sku && c.active

abbrev pub with_merchant : CatalogItem → Option Merchant → Option (CatalogItem × Merchant)
with_merchant item none = none
with_merchant item (some m) = some (item, m)

-- The join of the item with its merchant.
abbrev pub joined : Db → Option CatalogItem → Option (CatalogItem × Merchant)
joined s none = none
joined s (some item) =
    with_merchant item (find (is_merchant item.tenant_id item.merchant_id) s.merchants)

-- `_rejection`, with its audit record.
unfoldable pub reject_purchase : Fresh → Uuid → Reason → ℕ → List ℕ → Action CatalogReply
reject_purchase fresh tenant reason status facts = do
  modify (
      add_audit (
        request_event tenant none none fresh.env.new_correlation catalog_purchase_rejected
          (rejected reason facts)))
  pure (catalog_rejected reason status)

-- `f"catalog:{sku}"`: a formatted text is a number that its part determines.
abbrev pub catalog_ref : Text → Text
catalog_ref sku = 2 * sku + 1

abbrev pub derived_request : CatalogPaymentRequestCreate → Text → CatalogItem → PaymentRequestCreate
derived_request request actor item = record {
  actor_id = actor;
  merchant_id = item.merchant_id;
  amount_minor = pos (item.price_minor * request.quantity);
  currency = item.currency;
  order_ref = catalog_ref item.sku;
  idempotency_key = request.idempotency_key;
}

abbrev pub catalog_context :
    CatalogPaymentRequestCreate → Text → CatalogItem → Merchant → CatalogPurchaseContext
catalog_context request source item m = record {
  snapshot = record {
    catalog_item_id = item.id;
    catalog_sku = item.sku;
    catalog_name = item.name;
    merchant_display_name = m.name;
    quantity = request.quantity;
    purpose = request.purpose;
  };
  source = source;
}

abbrev pub catalog_answer :
    CatalogPaymentRequestCreate → CatalogItem → Merchant → Reply → CatalogReply
catalog_answer request item m (decided d) = catalog_decided (record {
  decision = d;
  sku = item.sku;
  quantity = request.quantity;
  purpose = request.purpose;
  merchant_display_name = m.name;
  amount_minor = pos (item.price_minor * request.quantity);
  currency = item.currency;
})
catalog_answer request item m forbidden = not_decided forbidden
catalog_answer request item m (conflict d) = not_decided (conflict d)

unfoldable pub purchase :
    Fresh
    → Uuid
    → CatalogPaymentRequestCreate
    → Text
    → Text
    → Option (CatalogItem × Merchant)
    → Action CatalogReply
purchase fresh tenant request actor source none =
    reject_purchase fresh tenant catalog_item_not_available 404 (request.sku ∷ [])
purchase fresh tenant request actor source (some (item, m)) =
    if ltb item.max_quantity request.quantity
    then reject_purchase fresh tenant quantity_exceeds_limit 422
        (item.sku ∷ request.quantity ∷ item.max_quantity ∷ [])
    else (do
      reply ←
          create_payment_request_for_context fresh tenant (derived_request request actor item)
            (some (catalog_context request source item m))
      pure (catalog_answer request item m reply))

-- `create_catalog_payment_request_for_source`
unfoldable pub create_catalog_payment_request_for_source :
    Fresh → Uuid → CatalogPaymentRequestCreate → Text → Text → Action CatalogReply
create_catalog_payment_request_for_source fresh tenant request actor source = atomically (do
  row ← gets (λ s. joined s (find (is_active_item tenant request.sku) s.catalog_items))
  purchase fresh tenant request actor source row)
