-- ===== src/Copilot/Fate.antt =====
-- What a purchase from the catalogue (api/routes/catalog_payment_requests.py) comes to, as a line of a
-- basket records it: a stored request for the item, or the reason why there is none.
use trust_gate_merchant_copi.Base.{
  ◌≡◌, refl, sym, ap, ◌∙◌, subst, ◌⊎◌, inl, inr, ◌*◌, ◌<◌, ◌≤◌, Option, none, some, List, ◌∷◌, ltb,
  pos, arith, find, find-holds,
}
use trust_gate_merchant_copi.Models.{
  Uuid, Text, Reason, catalog_item_not_available, quantity_exceeds_limit, purchase_rejected,
  Merchant, CatalogItem, Snapshot, PaymentRequest, Db,
}
use trust_gate_merchant_copi.Session.{ok}
use trust_gate_merchant_copi.Session.Returns.{
  if-ok, bind-ok, gets-ok, modify-ok, pure-last, atomically-ok,
}
use trust_gate_merchant_copi.Requests.{Fresh, Reply, has_key}
use trust_gate_merchant_copi.Requests.Same.{SameRequest}
use trust_gate_merchant_copi.Requests.Stored.{HasStored, RequestDone, request_done}
use trust_gate_merchant_copi.Requests.Create.{is_merchant, request_row}
use trust_gate_merchant_copi.Catalog.{
  CatalogPaymentRequestCreate, CatalogReply, is_active_item, joined, reject_purchase,
  derived_request, catalog_context, catalog_answer, purchase,
  create_catalog_payment_request_for_source,
}
use trust_gate_merchant_copi.Catalog.Outcome.{joined-some}
use trust_gate_merchant_copi.Copilot.{request_of, rejection_reason}

-- The active item of the tenant's catalogue, with its merchant.
abbrev pub available : Uuid → Text → Db → Option (CatalogItem × Merchant)
available tenant sku s = joined s (find (is_active_item tenant sku) s.catalog_items)

-- The request under the purchase's own key is the actor's, for that item of the catalogue in that
-- quantity and for that purpose, to the item's merchant and at its price.
pub record IsBought (tenant : Uuid) (request : CatalogPaymentRequestCreate) (actor : Text)
    (i : Uuid) (s t : Db) : Type 0 where
  pub item : CatalogItem
  pub merchant : Merchant
  pub row : PaymentRequest
  pub bought : Snapshot
  pub offered : available tenant request.sku s ≡ some (item, merchant)
  pub allowed : request.quantity ≤ item.max_quantity
  pub stored : HasStored tenant request.idempotency_key row t
  pub named : row.id ≡ i
  pub buyer : row.actor_id ≡ actor
  pub payee : row.merchant_id ≡ item.merchant_id
  pub amount : row.amount_minor ≡ pos (item.price_minor * request.quantity)
  pub snapshot : row.snapshot ≡ some bought
  pub of_item : bought.catalog_sku ≡ request.sku
  pub pieces : bought.quantity ≡ request.quantity
  pub purpose : bought.purpose ≡ request.purpose

-- The item is not offered; or more pieces are asked for than it allows; or a request that is stored
-- under the purchase's key is not the same as the one that the purchase comes to.
abbrev pub IsRefused :
    Fresh → Uuid → CatalogPaymentRequestCreate → Text → Text → Reason → Db → Db → Type 0
IsRefused fresh tenant request actor source reason s t =
    ((reason ≡ catalog_item_not_available) × (available tenant request.sku s ≡ none))
    ⊎ (((item : CatalogItem) × (m : Merchant) × (available tenant request.sku s ≡ some (item, m))
          × (reason ≡ quantity_exceeds_limit)
          × (item.max_quantity < request.quantity))
        ⊎ ((item : CatalogItem) × (m : Merchant) × (row : PaymentRequest) × (available tenant
                request.sku s
              ≡ some (item, m))
            × (reason ≡ purchase_rejected)
            × HasStored tenant request.idempotency_key row t
            × (¬ SameRequest fresh row (derived_request request actor item)
                (some (catalog_context request source item m)))))

-- What a line records: a request or a reason, and never both.
abbrev pub HasFate :
    Fresh
    → Uuid
    → CatalogPaymentRequestCreate
    → Text
    → Text
    → Option Uuid
    → Option Reason
    → Db
    → Db
    → Type 0
HasFate fresh tenant request actor source i reason s t =
    ((x : Uuid) × (i ≡ some x) × (reason ≡ none) × IsBought tenant request actor x s t)
    ⊎ ((r : Reason) × (i ≡ none)
        × (reason ≡ some r)
        × IsRefused fresh tenant request actor source r s t)

head_row :
    (row : PaymentRequest) (rows : List PaymentRequest)
    → find (has_key row.tenant_id row.idempotency_key) (row ∷ rows) ≡ some row
unfolding find
head_row row rows = ground arith

module _ (fresh : Fresh) (tenant : Uuid) (request : CatalogPaymentRequestCreate)
    (actor source : Text) where
  abbrev ReplyFate : CatalogReply → Db → Db → Type 0
  ReplyFate reply s t =
      HasFate fresh tenant request actor source (request_of reply) (rejection_reason reply) s t

  -- A request that is the same as the one derived from the item is for the item.
  same-IsBought :
      (item : CatalogItem) (m : Merchant) (row : PaymentRequest) (i : Uuid) (s t : Db)
      → available tenant request.sku s ≡ some (item, m)
      → item.sku ≡ request.sku
      → request.quantity ≤ item.max_quantity
      → SameRequest fresh row
          (derived_request request actor item)
          (some (catalog_context request source item m))
      → HasStored tenant request.idempotency_key row t
      → row.id ≡ i
      → IsBought tenant request actor i s t
  same-IsBought item m row i s t offered of_item allowed same stored named = record {
    item = item;
    merchant = m;
    row = row;
    bought = (catalog_context request source item m).snapshot;
    offered = offered;
    allowed = allowed;
    stored = stored;
    named = named;
    buyer = same.actor;
    payee = same.merchant;
    amount = same.amount;
    snapshot = same.snapshot;
    of_item = of_item;
    pieces = refl;
    purpose = refl;
  }

  derived-Fate :
      (item : CatalogItem) (m : Merchant) (reply : Reply) (s t : Db)
      → available tenant request.sku s ≡ some (item, m)
      → request.quantity ≤ item.max_quantity
      → RequestDone fresh tenant
          (derived_request request actor item)
          (some (catalog_context request source item m))
          reply
          s
          t
      → ReplyFate (catalog_answer request item m reply) s t
  derived-Fate item m reply s t offered allowed done =
      let (found_item, joined_merchant) = joined-some s _ item m offered in
      let key = find-holds (is_active_item tenant request.sku) s.catalog_items found_item in
      let own_tenant : item.tenant_id ≡ tenant = ground arith in
      let of_item : item.sku ≡ request.sku = ground arith in
      elim done [
        | inl (same, refused, unknown) ↦ absurd (
            cc (
              sym unknown
              ∙ subst (λ x. find (is_merchant x item.merchant_id) s.merchants ≡ some m) own_tenant
                  joined_merchant))
        | inr (inl (old, same, used, inl (equal, (shown, answered, named)))) ↦
            subst (λ r. ReplyFate (catalog_answer request item m r) s t) (sym answered)
              (inl (
                shown.payment_request_id,
                refl,
                refl,
                same-IsBought item m old _ s t offered of_item allowed equal
                    (ap (find (has_key tenant request.idempotency_key)) same ∙ used) (sym named),
              ))
        | inr (inl (old, same, used, inr (other, (shown, answered)))) ↦
            subst (λ r. ReplyFate (catalog_answer request item m r) s t) (sym answered)
              (inr (
                purchase_rejected,
                refl,
                refl,
                inr (
                    inr (
                      item,
                      m,
                      old,
                      offered,
                      refl,
                      ap (find (has_key tenant request.idempotency_key)) same ∙ used,
                      other,
                    )),
              ))
        | inr (inr (unused, (d, rows, (shown, answered, named)))) ↦
            let row =
              request_row fresh tenant (derived_request request actor item)
                (some (catalog_context request source item m)) d in
            subst (λ r. ReplyFate (catalog_answer request item m r) s t) (sym answered)
              (inl (
                shown.payment_request_id,
                refl,
                refl,
                same-IsBought item m row _ s t offered of_item allowed
                    (record {
                      actor = refl;
                      merchant = refl;
                      amount = refl;
                      currency = refl;
                      order = refl;
                      snapshot = refl;
                      source = refl;
                    })
                    (ap (find (has_key tenant request.idempotency_key)) rows
                      ∙ head_row row s.payment_requests)
                    (sym named),
              ))
      ]

  purchase-Fate :
      (row : Option (CatalogItem × Merchant)) (reply : CatalogReply) (s t : Db)
      → available tenant request.sku s ≡ row
      → purchase fresh tenant request actor source row s ≡ (ok reply, t)
      → ReplyFate reply s t
  unfolding purchase reject_purchase
  purchase-Fate none reply s t e h =
      let (replied, _) = pure-last _ _ (modify-ok _ _ s h) in
      subst (λ r. ReplyFate r s t) (sym replied)
        (inr (catalog_item_not_available, refl, refl, inl (refl, e)))
  purchase-Fate (some (item, m)) reply s t e h =
      elim (if-ok (ltb item.max_quantity request.quantity) _ _ s h) [
        | inl (many, h₁) ↦
            let (replied, _) = pure-last _ _ (modify-ok _ _ s h₁) in
            subst (λ r. ReplyFate r s t) (sym replied)
              (inr (
                quantity_exceeds_limit,
                refl,
                refl,
                inr (inl (item, m, e, refl, ground (arith, many))),
              ))
        | inr (few, h₁) ↦
            let (answer, s₁, h₂, h₃) = bind-ok _ _ s h₁ in
            let (replied, after) = pure-last _ s₁ h₃ in
            subst (λ r. ReplyFate r s t) (sym replied)
              (subst (ReplyFate (catalog_answer request item m answer) s) (sym after) (
                derived-Fate item m answer s s₁ e (ground (arith, few)) (
                  request_done fresh tenant (derived_request request actor item)
                    (some (catalog_context request source item m)) answer s s₁ h₂)))
      ]

  pub catalog-Fate :
      (reply : CatalogReply) (s t : Db)
      → create_catalog_payment_request_for_source fresh tenant request actor source s
        ≡ (ok reply, t)
      → HasFate fresh tenant request actor source (request_of reply) (rejection_reason reply) s t
  unfolding create_catalog_payment_request_for_source
  catalog-Fate reply s t h = purchase-Fate _ reply s t refl (gets-ok _ _ s (atomically-ok _ s h))
