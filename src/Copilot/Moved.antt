-- ===== src/Copilot/Moved.antt =====
-- What a purchase came to (Copilot/Fate) still holds of the whole basket: the catalogue was the same at
-- the start, and a stored request stays to the end.
use trust_gate_merchant_copi.Base.{◌≡◌, refl, sym, ap, ◌∙◌, inl, inr, Option, none, some, find}
use trust_gate_merchant_copi.Models.{Uuid, Text, Reason, CatalogItem, PaymentRequest, Db}
use trust_gate_merchant_copi.Requests.{Fresh}
use trust_gate_merchant_copi.Requests.Stored.{HasStored}
use trust_gate_merchant_copi.Requests.Create.{is_merchant}
use trust_gate_merchant_copi.Catalog.{
  CatalogPaymentRequestCreate, is_active_item, with_merchant, joined,
}
use trust_gate_merchant_copi.Copilot.Fate.{HasFate, available}

-- The same catalogue and merchants, and a later table that has what was stored.
abbrev pub SameCatalog : Db → Db → Type 0
SameCatalog s x = (x.catalog_items ≡ s.catalog_items) × (x.merchants ≡ s.merchants)

joined_lem :
    (s x : Db) (o : Option CatalogItem) → x.merchants ≡ s.merchants → joined x o ≡ joined s o
joined_lem s x none e = refl
joined_lem s x (some item) e =
    ap (λ ms. with_merchant item (find (is_merchant item.tenant_id item.merchant_id) ms)) e

available_lem :
    (tenant : Uuid) (sku : Text) (s x : Db)
    → SameCatalog s x
    → available tenant sku x ≡ available tenant sku s
available_lem tenant sku s x same =
    joined_lem s x (find (is_active_item tenant sku) x.catalog_items) same.1
    ∙ ap (λ items. joined s (find (is_active_item tenant sku) items)) same.0

module _ (fresh : Fresh) (tenant : Uuid) (request : CatalogPaymentRequestCreate)
    (actor source : Text) (s x y t : Db) (same : SameCatalog s x)
    (later : (row : PaymentRequest)
      → HasStored tenant request.idempotency_key row y
      → HasStored tenant request.idempotency_key row t) where
  pub moved-Fate :
      (i : Option Uuid) (reason : Option Reason)
      → HasFate fresh tenant request actor source i reason x y
      → HasFate fresh tenant request actor source i reason s t
  moved-Fate i reason (inl (k, e, e', b)) = inl (
    k,
    e,
    e',
    record {
      item = b.item;
      merchant = b.merchant;
      row = b.row;
      bought = b.bought;
      offered = sym (available_lem tenant request.sku s x same) ∙ b.offered;
      allowed = b.allowed;
      stored = later b.row b.stored;
      named = b.named;
      buyer = b.buyer;
      payee = b.payee;
      amount = b.amount;
      snapshot = b.snapshot;
      of_item = b.of_item;
      pieces = b.pieces;
      purpose = b.purpose;
    },
  )
  moved-Fate i reason (inr (r, e, e', inl (q, missing))) =
      inr (r, e, e', inl (q, sym (available_lem tenant request.sku s x same) ∙ missing))
  moved-Fate i reason (inr (r, e, e', inr (inl (item, m, offered, q, many)))) = inr (
    r,
    e,
    e',
    inr (inl (item, m, sym (available_lem tenant request.sku s x same) ∙ offered, q, many)),
  )
  moved-Fate i reason (inr (r, e, e', inr (inr (item, m, row, offered, q, stored, other)))) = inr (
    r,
    e,
    e',
    inr (
        inr (
          item,
          m,
          row,
          sym (available_lem tenant request.sku s x same) ∙ offered,
          q,
          later row stored,
          other,
        )),
  )
