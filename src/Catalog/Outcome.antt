-- ===== src/Catalog/Outcome.antt =====
-- A purchase from the catalogue (api/routes/catalog_payment_requests.py) reserves the catalogue's
-- price, not one that the caller names.
use trust_gate_merchant_copi.Base.{
  ◌≡◌, refl, sym, ap, ◌∙◌, subst, inl, inr, ℕ, ◌*◌, ◌≤◌, Option, none, some, List, ltb, pos, ◌≤ℤ◌,
  arith, Bool-cases, find, find-holds,
}
use trust_gate_merchant_copi.Models.{Uuid, Text, Reason, date, Merchant, CatalogItem, Db}
use trust_gate_merchant_copi.Session.{ok}
use trust_gate_merchant_copi.Session.Returns.{bind-ok, gets-ok, modify-ok, pure-last, atomically-ok}
use trust_gate_merchant_copi.Policy.{daily_spend}
use trust_gate_merchant_copi.Requests.{Fresh, Reply, decided, forbidden, conflict, has_key}
use trust_gate_merchant_copi.Requests.Create.{is_merchant, create_payment_request_for_context}
use trust_gate_merchant_copi.Requests.Outcome.{HasOneNewest, RequestOutcome, request_outcome}
use trust_gate_merchant_copi.Catalog.{
  CatalogPaymentRequestCreate, CatalogPaymentRequestDecision, catalog_decided, is_active_item,
  with_merchant, joined, reject_purchase, catalog_ref, derived_request, catalog_context,
  catalog_answer, purchase, create_catalog_payment_request_for_source,
}

-- The item and its merchant are the tenant's, the quantity is allowed, and the request that was
-- decided is for the price of the item times the quantity.
pub record Purchased (fresh : Fresh) (tenant : Uuid) (request : CatalogPaymentRequestCreate)
    (actor source : Text) (d : CatalogPaymentRequestDecision) (s t : Db) : Type 0 where
  pub item : CatalogItem
  pub merchant : Merchant
  pub found_item : find (is_active_item tenant request.sku) s.catalog_items ≡ some item
  pub found_merchant : find (is_merchant tenant item.merchant_id) s.merchants ≡ some merchant
  pub allowed_quantity : request.quantity ≤ item.max_quantity
  pub amount : d.amount_minor ≡ pos (item.price_minor * request.quantity)
  pub outcome :
      RequestOutcome fresh tenant
        (record {
          actor_id = actor;
          merchant_id = item.merchant_id;
          amount_minor = pos (item.price_minor * request.quantity);
          currency = item.currency;
          order_ref = catalog_ref item.sku;
          idempotency_key = request.idempotency_key;
        })
        (some (catalog_context request source item merchant))
        s
        (decided d.decision)
        t

reject-refuses :
    (fresh : Fresh) (tenant : Uuid) (reason : Reason) (status : ℕ) (facts : List ℕ) (s : Db)
    {d : CatalogPaymentRequestDecision} {t : Db}
    → reject_purchase fresh tenant reason status facts s ≡ (ok (catalog_decided d), t)
    → ⊥
unfolding reject_purchase
reject-refuses fresh tenant reason status facts s h = cc ((pure-last _ _ (modify-ok _ _ s h)).0)

answer-decided :
    (request : CatalogPaymentRequestCreate) (item : CatalogItem) (m : Merchant) (reply : Reply)
    (d : CatalogPaymentRequestDecision)
    → catalog_decided d ≡ catalog_answer request item m reply
    → (reply ≡ decided d.decision) × (d.amount_minor ≡ pos (item.price_minor * request.quantity))
answer-decided request item m (decided e) d h = (cc h, cc h)
answer-decided request item m forbidden d h = absurd (cc h)
answer-decided request item m (conflict e) d h = absurd (cc h)

abbrev pair_or : CatalogItem × Merchant → Option (CatalogItem × Merchant) → CatalogItem × Merchant
pair_or d none = d
pair_or d (some p) = p

with_merchant-some :
    (s : Db) (c : CatalogItem) (o : Option Merchant) (item : CatalogItem) (m : Merchant)
    → find (is_merchant c.tenant_id c.merchant_id) s.merchants ≡ o
    → with_merchant c o ≡ some (item, m)
    → (c ≡ item) × (find (is_merchant item.tenant_id item.merchant_id) s.merchants ≡ some m)
with_merchant-some s c none item m e k = absurd (cc k)
with_merchant-some s c (some n) item m e k =
    let same_item : c ≡ item = ap (λ o. (pair_or (c, n) o).0) k in
    let same_merchant : n ≡ m = ap (λ o. (pair_or (c, n) o).1) k in
    (
      same_item,
      ap (λ (x : CatalogItem). find (is_merchant x.tenant_id x.merchant_id) s.merchants)
            (sym same_item)
          ∙ e
          ∙ ap some same_merchant,
    )

pub joined-some :
    (s : Db) (o : Option CatalogItem) (item : CatalogItem) (m : Merchant)
    → joined s o ≡ some (item, m)
    → (o ≡ some item) × (find (is_merchant item.tenant_id item.merchant_id) s.merchants ≡ some m)
joined-some s none item m h = absurd (cc h)
joined-some s (some c) item m h =
    let (same, found) = with_merchant-some s c _ item m refl h in (ap some same, found)

module _ (fresh : Fresh) (tenant : Uuid) (request : CatalogPaymentRequestCreate)
    (actor source : Text) (s : Db) (d : CatalogPaymentRequestDecision) (t : Db) where
  purchase-Purchased :
      (row : Option (CatalogItem × Merchant))
      → HasOneNewest tenant s
      → pos 0 ≤ℤ daily_spend tenant actor (date fresh.env.now) s
      → find (has_key tenant request.idempotency_key) s.payment_requests ≡ none
      → joined s (find (is_active_item tenant request.sku) s.catalog_items) ≡ row
      → purchase fresh tenant request actor source row s ≡ (ok (catalog_decided d), t)
      → Purchased fresh tenant request actor source d s t
  unfolding purchase
  purchase-Purchased none one nonneg unused e h = absurd (reject-refuses fresh tenant _ _ _ s h)
  purchase-Purchased (some (item, m)) one nonneg unused e h =
      elim (Bool-cases (ltb item.max_quantity request.quantity)) [
        | inl many ↦ absurd (reject-refuses fresh tenant _ _ _ s (rw many at h))
        | inr few ↦
            let (reply, s₁, h₁, h₂) = bind-ok _ _ s (rw few at h) in
            let (answered, same) = pure-last _ s₁ h₂ in
            let (is_decided, amount) = answer-decided request item m reply d (cc answered) in
            let (found_item, joined_merchant) = joined-some s _ item m e in
            let key = find-holds (is_active_item tenant request.sku) s.catalog_items found_item in
            let own_tenant : item.tenant_id ≡ tenant = ground arith in
            let found_merchant =
              subst (λ x. find (is_merchant x item.merchant_id) s.merchants ≡ some m) own_tenant
                joined_merchant in
            record {
              item = item;
              merchant = m;
              found_item = found_item;
              found_merchant = found_merchant;
              allowed_quantity = ground arith;
              amount = amount;
              outcome =
                  request_outcome fresh tenant (derived_request request actor item)
                    (some (catalog_context request source item m)) s m (decided d.decision) t one
                    nonneg found_merchant unused
                    (subst
                      (λ x.
                        create_payment_request_for_context fresh tenant
                          (derived_request request actor item)
                          (some (catalog_context request source item m)) s
                        ≡ (ok (decided d.decision), x))
                      (sym same)
                      (subst
                        (λ x.
                          create_payment_request_for_context fresh tenant
                            (derived_request request actor item)
                            (some (catalog_context request source item m)) s
                          ≡ (ok x, s₁))
                        is_decided h₁));
            }
      ]

  -- A purchase with a new key that is decided is of an active item of the tenant, in a quantity that
  -- the item allows, from one of the tenant's merchants; its amount is the item's price times the
  -- quantity; and either it is denied and no budget moves, or the actor's day holds exactly that
  -- amount more, within the daily limit of the newest policy. (The policy has one row for its newest
  -- version, and the day's total was at least zero.)
  pub catalog_purchase_outcome :
      HasOneNewest tenant s
      → pos 0 ≤ℤ daily_spend tenant actor (date fresh.env.now) s
      → find (has_key tenant request.idempotency_key) s.payment_requests ≡ none
      → create_catalog_payment_request_for_source fresh tenant request actor source s
        ≡ (ok (catalog_decided d), t)
      → Purchased fresh tenant request actor source d s t
  unfolding create_catalog_payment_request_for_source
  catalog_purchase_outcome one nonneg unused h =
      purchase-Purchased _ one nonneg unused refl (gets-ok _ _ s (atomically-ok _ s h))
