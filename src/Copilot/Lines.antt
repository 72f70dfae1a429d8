-- ===== src/Copilot/Lines.antt =====
-- What a basket that was created (`create_basket` of api/routes/merchant.py) has for the lines of its
-- plan.
use trust_gate_merchant_copi.Base.{
  ◌≡◌, refl, ap, ◌∙◌, subst, ℕ, suc, not, ◌&&◌, Option, some, List, [], ◌∷◌, pos_part,
}
use trust_gate_merchant_copi.Models.{Uuid, Text, PlannerMode, PaymentRequest, BasketLine, Db}
use trust_gate_merchant_copi.Session.{ok}
use trust_gate_merchant_copi.Session.Returns.{
  bind-ok, gets-ok, or_raise-ok, raise_if-ok, pure-last, atomically-ok,
}
use trust_gate_merchant_copi.Requests.Stored.{HasStored}
use trust_gate_merchant_copi.Program.Blind.{audit-Keeps, request-blind}
use trust_gate_merchant_copi.Catalog.{CatalogPaymentRequestCreate}
use trust_gate_merchant_copi.Copilot.Fate.{HasFate, catalog-Fate}
use trust_gate_merchant_copi.Copilot.Moved.{SameCatalog, moved-Fate}
use trust_gate_merchant_copi.Copilot.Rounds.{
  HasRows, HasRows-Blind, rows-audits, left_alone, inserted_lem, basket_lem, kept_by,
  SameCatalog-Blind, catalog-kept, lines-Stored, insert-Stored, proposal-Stored,
}
use trust_gate_merchant_copi.Copilot.Kept.{catalog-Keeps, audit_if-Keeps, proposal-Keeps}
use trust_gate_merchant_copi.Copilot.{
  RawLine, PlanResult, LineFresh, or_zero, is_live, request_of, rejection_reason, shown_name, kept,
  line_row, purchase_of, add_line, add_lines, fill_basket, create_basket,
}

-- The purchase that a line of the plan asks for, under the line's own key.
abbrev pub asked_for : RawLine → LineFresh → CatalogPaymentRequestCreate
asked_for raw supply = record {
  sku = raw.sku;
  quantity = pos_part (or_zero raw.quantity);
  purpose = raw.purpose;
  idempotency_key = supply.idempotency_key;
}

-- From the database `s` to `t`.
module _ (actor source : Text) (supply : ℕ → LineFresh) (s t : Db) where
  -- The row stands for the line at its place in the plan.
  pub record IsLineOf (tenant basket : Uuid) (position : ℕ) (raw : RawLine) (l : BasketLine)
      : Type 0 where
    pub of_tenant : l.tenant_id ≡ tenant
    pub of_basket : l.basket_id ≡ basket
    pub at_position : l.position ≡ position
    pub proposal : l.proposed ≡ kept raw
    pub discarded : l.discarded ≡ raw.discarded
    pub fate :
        HasFate
          (supply position).fresh
          tenant
          (asked_for raw (supply position))
          actor
          source
          l.payment_request_id
          l.rejection_reason
          s
          t

  -- The table has a row for each of the lines, in their order, after the rows that it had; and no
  -- other.
  abbrev pub HasLines : Uuid → Uuid → ℕ → List RawLine → List BasketLine → List BasketLine → Type 0
  HasLines tenant basket position [] old rows = rows ≡ old
  HasLines tenant basket position (raw ∷ rest) old rows =
      (l : BasketLine) × IsLineOf tenant basket position raw l
      × HasLines tenant basket (suc position) rest (l ∷ old) rows

module _ (text_length : Text → ℕ) (actor source : Text) (tenant : Uuid)
    (supply : ℕ → LineFresh) where
  -- One round: the row that is added, and what the purchase came to.
  line-IsLineOf :
      (basket : Uuid) (names : Text → Text) (position : ℕ) (raw : RawLine) (s x : Db) {u : Unit {0}}
      {y : Db} (t : Db)
      → SameCatalog s x
      → ((row : PaymentRequest)
          → HasStored tenant (supply position).idempotency_key row y
          → HasStored tenant (supply position).idempotency_key row t)
      → add_line text_length actor source tenant basket names position raw (supply position) x
        ≡ (ok u, y)
      → (l : BasketLine) × IsLineOf actor source supply s t tenant basket position raw l
        × (y.basket_lines ≡ l ∷ x.basket_lines)
  unfolding add_line
  line-IsLineOf basket names position raw s x t same later h =
      let own = supply position in
      let request = purchase_of text_length actor source raw own.idempotency_key in
      let (valid, h₁) = raise_if-ok _ _ _ x h in
      let (reply, x₁, h₂, h₃) = bind-ok _ _ x h₁ in
      let (u, x₂, h₄, h₅) = bind-ok _ _ x₁ h₃ in
      let row = line_row tenant basket position raw own.line_id reply in
      (
        row,
        record {
          of_tenant = refl;
          of_basket = refl;
          at_position = refl;
          proposal = refl;
          discarded = refl;
          fate =
              moved-Fate own.fresh tenant request actor source s x x₁ t same
                (λ q stored. later q (
                  kept_by (HasStored tenant own.idempotency_key q) _ x₂
                    (insert-Stored text_length actor source tenant supply own.idempotency_key q row)
                    (kept_by (HasStored tenant own.idempotency_key q) _ x₁
                      (proposal-Stored text_length actor source tenant supply own.idempotency_key q
                        basket names position raw own.line_id reply)
                      stored h₄)
                    h₅))
                (request_of reply) (rejection_reason reply)
                (catalog-Fate own.fresh tenant request actor source reply x x₁ h₂);
        },
        inserted_lem row x₂ h₅
            ∙ ap (λ rows. row ∷ rows)
                (left_alone _ x₁
                    (proposal-Keeps (HasRows x₁.basket_lines) (rows-audits x₁.basket_lines) tenant
                      basket names position raw own.line_id reply)
                    h₄
                  ∙ left_alone _ x
                      (catalog-Keeps (HasRows x.basket_lines) (rows-audits x.basket_lines) tenant
                        own.fresh request actor source
                        (λ item m.
                          request-blind (HasRows x.basket_lines) (HasRows-Blind x.basket_lines)
                            own.fresh tenant _ _))
                      h₂),
      )

  lines-HasLines :
      (basket : Uuid) (names : Text → Text) (position : ℕ) (lines : List RawLine) (s x : Db)
      {u : Unit {0}} {t : Db}
      → SameCatalog s x
      → add_lines text_length actor source tenant basket names position lines supply x ≡ (ok u, t)
      → HasLines actor source supply s t tenant basket position lines x.basket_lines t.basket_lines
  unfolding add_lines
  lines-HasLines basket names position [] s x same h =
      ap (λ (y : Db). y.basket_lines) (pure-last _ x h).1
  lines-HasLines basket names position (raw ∷ rest) s x {t = t} same h =
      let (u, x₁, h₁, h₂) = bind-ok _ _ x h in
      let key = (supply position).idempotency_key in
      let (l, line, rows) =
        line-IsLineOf basket names position raw s x t same
          (λ row stored.
            kept_by (HasStored tenant key row) _ x₁
              (lines-Stored text_length actor source tenant supply key row basket names
                (suc position) rest)
              stored h₂)
          h₁ in
      (
        l,
        line,
        subst
            (λ old.
              HasLines actor source supply s t tenant basket (suc position) rest old t.basket_lines)
            rows
            (lines-HasLines basket names (suc position) rest s x₁
              (kept_by (SameCatalog s) _ x
                (catalog-kept text_length actor source tenant supply s basket names position raw)
                same h₁)
              h₂),
      )

  filled-HasLines :
      (goal : Text) (mode : PlannerMode) (plan : PlanResult) (i : Uuid) (s : Db) {u : Unit {0}}
      {t : Db}
      → fill_basket text_length actor source tenant goal mode plan i supply s ≡ (ok u, t)
      → HasLines actor source supply s t tenant i 0 plan.lines s.basket_lines t.basket_lines
  unfolding fill_basket
  filled-HasLines goal mode plan i s {t = t} h =
      let (v, s₁, h₁, h₂) = bind-ok _ _ s h in
      let (w, s₂, h₃, h₄) = bind-ok _ _ s₁ h₂ in
      let inserted = basket_lem _ _ s h₁ in
      let first : SameCatalog s s₁ =
        (ap (λ (x : Db). x.catalog_items) inserted, ap (λ (x : Db). x.merchants) inserted) in
      let fell_back = is_live mode && not (is_live plan.mode_used) in
      let same =
        kept_by (SameCatalog s) _ s₁
          (audit_if-Keeps (SameCatalog s) (audit-Keeps (SameCatalog s) (SameCatalog-Blind s)) tenant
            fell_back _)
          first h₃ in
      subst (λ old. HasLines actor source supply s t tenant i 0 plan.lines old t.basket_lines)
        (left_alone _ s₁
            (audit_if-Keeps (HasRows s₁.basket_lines) (rows-audits s₁.basket_lines) tenant fell_back
              _)
            h₃
          ∙ ap (λ (x : Db). x.basket_lines) inserted)
        (lines-HasLines i (shown_name tenant s₂) 0 plan.lines s s₂ same (gets-ok _ _ s₂ h₄))

module _ (text_length : Text → ℕ) (actor source : Text) (store : Option Uuid)
    (supply : ℕ → LineFresh) where
  -- When a basket is created, the store was seeded, and the basket has one line for each line of the
  -- plan, in the plan's order and at its position, with what was proposed and what was discarded of
  -- it, and no other row is added to the table of lines. Each of these lines has one of two. Either
  -- it names a payment request: the one that is stored under the line's own key at the end, which is
  -- the assistant's, for the active catalogue item of that name in the proposed quantity, which the
  -- item allows, and for the proposed purpose, to the item's merchant and at the catalogue's price
  -- times the quantity. Or it has the reason why there is none: the tenant offers no such item; or
  -- more was asked for than the item allows; or a request is stored under the line's key that is not
  -- the same as the one which the purchase comes to.
  pub basket-HasLines :
      (goal : Text) (mode : PlannerMode) (plan : PlanResult) (i : Uuid) (s : Db) (u : Unit {0})
      (t : Db)
      → create_basket text_length actor source store goal mode plan i supply s ≡ (ok u, t)
      → (tenant : Uuid) × (store ≡ some tenant)
        × HasLines actor source supply s t tenant i 0 plan.lines s.basket_lines t.basket_lines
  unfolding create_basket
  basket-HasLines goal mode plan i s u t h =
      let (tenant, found, h₁) = or_raise-ok _ _ _ s (atomically-ok _ s h) in
      (tenant, found, filled-HasLines text_length actor source tenant supply goal mode plan i s h₁)
