-- ===== src/Copilot/Kept.antt =====
-- What the parts of `create_basket` (api/routes/merchant.py) keep, when audit events and the payment
-- request itself keep it.
use trust_gate_merchant_copi.Base.{
  suc, [], ◌∷◌, ℕ, Bool, true, false, Option, none, some, List, if◌then◌else◌, is_some,
}
use trust_gate_merchant_copi.Models.{
  Uuid, Text, Reason, Merchant, CatalogItem, BasketLine, AuditEvent, Db,
}
use trust_gate_merchant_copi.Session.{modify, add_audit}
use trust_gate_merchant_copi.Session.Keeps.{
  Keeps, Keeps-modify, Keeps-bind, Keeps-pure, Keeps-gets, Keeps-if, Keeps-raise_if,
  Keeps-atomically, keeps_rules,
}
use trust_gate_merchant_copi.Requests.{Fresh}
use trust_gate_merchant_copi.Requests.Create.{create_payment_request_for_context}
use trust_gate_merchant_copi.Catalog.{
  CatalogPaymentRequestCreate, CatalogReply, reject_purchase, catalog_context, derived_request,
  purchase, create_catalog_payment_request_for_source,
}
use trust_gate_merchant_copi.Copilot.{
  RawLine, LineFresh, has_fields, rejection_reason, record_proposal, insert_line, purchase_of,
  add_line, add_lines,
}

module _ (P : Db → Type 0) (audits : (e : AuditEvent) → Keeps P (modify (add_audit e)))
    (tenant : Uuid) where
  reject-Keeps :
      (fresh : Fresh) (reason : Reason) (status : ℕ) (facts : List ℕ)
      → Keeps P (reject_purchase fresh tenant reason status facts)
  unfolding reject_purchase
  reject-Keeps fresh reason status facts = search (keeps_rules, audits)

  module _ (fresh : Fresh) (request : CatalogPaymentRequestCreate) (actor source : Text)
      (requests : (item : CatalogItem) (m : Merchant)
        → Keeps P (
            create_payment_request_for_context fresh tenant
              (derived_request request actor item)
              (some (catalog_context request source item m)))) where
    purchase-Keeps :
        (row : Option (CatalogItem × Merchant))
        → Keeps P (purchase fresh tenant request actor source row)
    unfolding purchase
    purchase-Keeps none = reject-Keeps fresh _ _ _
    purchase-Keeps (some (item, m)) =
        Keeps-if _ _ _ (reject-Keeps fresh _ _ _)
          (Keeps-bind _ _ (requests item m) (λ reply. Keeps-pure _))

    pub catalog-Keeps :
        Keeps P (create_catalog_payment_request_for_source fresh tenant request actor source)
    unfolding create_catalog_payment_request_for_source
    catalog-Keeps = Keeps-atomically _ (Keeps-bind _ _ (Keeps-gets _) (λ row. purchase-Keeps row))

  -- An audit event that is written in one of two cases.
  pub audit_if-Keeps :
      (b : Bool) (e : AuditEvent) → Keeps P (modify (λ s. if b then add_audit e s else s))
  audit_if-Keeps true e = audits e
  audit_if-Keeps false e = Keeps-modify (λ s. s) (λ s h. h)

  pub proposal-Keeps :
      (basket : Uuid) (names : Text → Text) (position : ℕ) (raw : RawLine) (i : Uuid)
      (reply : CatalogReply)
      → Keeps P (record_proposal tenant basket names position raw i reply)
  unfolding record_proposal
  proposal-Keeps basket names position raw i reply = Keeps-bind _ _ (audits _) (λ _.
      Keeps-bind _ _ (audit_if-Keeps (has_fields raw.discarded) _)
        (λ _. audit_if-Keeps (is_some (rejection_reason reply)) _))

  -- The insert of a line, and the loop.
  module _
      (rows : (l : BasketLine) (s : Db)
        → P s
        → P (record s { basket_lines = l ∷ s.basket_lines })) where
    pub insert_line-Keeps : (l : BasketLine) → Keeps P (insert_line l)
    unfolding insert_line
    insert_line-Keeps l = Keeps-bind _ _ (Keeps-raise_if _ _) (λ _.
        Keeps-bind _ _ (Keeps-gets _) (λ taken. Keeps-bind _ _ (Keeps-gets _) (λ rival.
          Keeps-bind _ _ (Keeps-raise_if _ _)
            (λ _. Keeps-modify (λ s. record s { basket_lines = l ∷ s.basket_lines }) (rows l)))))

    module _ (text_length : Text → ℕ) (actor source : Text) (supply : ℕ → LineFresh)
        (purchases : (position : ℕ) (raw : RawLine)
          → Keeps P (
              create_catalog_payment_request_for_source
                (supply position).fresh
                tenant
                (purchase_of text_length actor source raw (supply position).idempotency_key)
                actor
                source))
        (basket : Uuid) (names : Text → Text) where
      pub add_line-Keeps :
          (position : ℕ) (raw : RawLine)
          → Keeps P
              (add_line text_length actor source tenant basket names position raw (supply position))
      unfolding add_line
      add_line-Keeps position raw = Keeps-bind _ _ (Keeps-raise_if _ _) (λ _.
          Keeps-bind _ _ (purchases position raw) (λ reply.
            Keeps-bind _ _ (proposal-Keeps basket names position raw _ reply)
              (λ _. insert_line-Keeps _)))

      pub add_lines-Keeps :
          (position : ℕ) (lines : List RawLine)
          → Keeps P (add_lines text_length actor source tenant basket names position lines supply)
      unfolding add_lines
      add_lines-Keeps position [] = Keeps-pure _
      add_lines-Keeps position (raw ∷ rest) =
          Keeps-bind _ _ (add_line-Keeps position raw) (λ _. add_lines-Keeps (suc position) rest)
