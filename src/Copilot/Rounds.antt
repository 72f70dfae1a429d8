-- ===== src/Copilot/Rounds.antt =====
-- What the steps of a basket's loop (`create_basket` of api/routes/merchant.py) leave as it is: the rows of
-- lines, the catalogue and the stored requests.
use trust_gate_merchant_copi.Base.{◌≡◌, refl, ap, subst, ℕ, List, ◌∷◌}
use trust_gate_merchant_copi.Models.{Uuid, Text, PaymentRequest, Basket, BasketLine, AuditEvent, Db}
use trust_gate_merchant_copi.Session.{Action, ok, modify, add_audit}
use trust_gate_merchant_copi.Session.Keeps.{Keeps, Keeps-modify}
use trust_gate_merchant_copi.Session.Returns.{gets-ok, raise_if-ok, modify-last}
use trust_gate_merchant_copi.Requests.Stored.{HasStored, request-Keeps_stored}
use trust_gate_merchant_copi.Program.Blind.{Blind, audit-Keeps, request-blind}
use trust_gate_merchant_copi.Catalog.{CatalogReply, create_catalog_payment_request_for_source}
use trust_gate_merchant_copi.Copilot.Moved.{SameCatalog}
use trust_gate_merchant_copi.Copilot.Kept.{
  catalog-Keeps, proposal-Keeps, insert_line-Keeps, add_line-Keeps, add_lines-Keeps,
}
use trust_gate_merchant_copi.Copilot.{
  RawLine, LineFresh, record_proposal, insert_line, insert_basket, purchase_of, add_line, add_lines,
}

-- A table of lines that an action leaves alone.
module _ (rows : List BasketLine) where
  abbrev pub HasRows : Db → Type 0
  HasRows s = s.basket_lines ≡ rows

  pub HasRows-Blind : Blind HasRows
  HasRows-Blind = record {
    audits = λ f s h. h;
    delegations = λ f s h. h;
    spends = λ f s h. h;
    reservations = λ f s h. h;
    payments = λ f s h. h;
    requests = λ f s h. h;
    decisions = λ f s h. h;
    approvals = λ f s h. h;
    new_event = λ e s h. h;
    processed_event = λ t j now s h. h;
  }

  pub rows-audits : (e : AuditEvent) → Keeps HasRows (modify (add_audit e))
  rows-audits e = audit-Keeps HasRows HasRows-Blind e

-- What an action that returned left of the table.
pub left_alone :
    {A : Type 0} (m : Action A) (s : Db) {a : A} {t : Db}
    → Keeps (HasRows s.basket_lines) m
    → m s ≡ (ok a, t)
    → t.basket_lines ≡ s.basket_lines
left_alone m s keeps h =
    subst (λ (x : Db). x.basket_lines ≡ s.basket_lines) (λ i. (h i).1) (keeps.at s refl)

pub inserted_lem :
    (row : BasketLine) (s : Db) {u : Unit {0}} {t : Db}
    → insert_line row s ≡ (ok u, t)
    → t.basket_lines ≡ row ∷ s.basket_lines
unfolding insert_line
inserted_lem row s h =
    let (_, h₁) = raise_if-ok _ _ _ s h in
    ap (λ (x : Db). x.basket_lines)
      (modify-last _ s (raise_if-ok _ _ _ s (gets-ok _ _ s (gets-ok _ _ s h₁))).1)

pub basket_lem :
    (n : ℕ) (row : Basket) (s : Db) {u : Unit {0}} {t : Db}
    → insert_basket n row s ≡ (ok u, t)
    → t ≡ record s { baskets = row ∷ s.baskets }
unfolding insert_basket
basket_lem n row s h =
    modify-last _ s (raise_if-ok _ _ _ s (gets-ok _ _ s (raise_if-ok _ _ _ s h).1)).1

-- What a block that returned kept.
pub kept_by :
    {A : Type 0} (P : Db → Type 0) (m : Action A) (s : Db) {a : A} {t : Db}
    → Keeps P m
    → P s
    → m s ≡ (ok a, t)
    → P t
kept_by P m s keeps k h = subst P (λ i. (h i).1) (keeps.at s k)

pub SameCatalog-Blind : (s : Db) → Blind (SameCatalog s)
SameCatalog-Blind s = record {
  audits = λ f x h. h;
  delegations = λ f x h. h;
  spends = λ f x h. h;
  reservations = λ f x h. h;
  payments = λ f x h. h;
  requests = λ f x h. h;
  decisions = λ f x h. h;
  approvals = λ f x h. h;
  new_event = λ e x h. h;
  processed_event = λ u j now x h. h;
}

module _ (text_length : Text → ℕ) (actor source : Text) (tenant : Uuid)
    (supply : ℕ → LineFresh) where
  -- The catalogue stays, and so does what is stored under a key.
  pub catalog-kept :
      (s : Db) (basket : Uuid) (names : Text → Text) (position : ℕ) (raw : RawLine)
      → Keeps
          (SameCatalog s)
          (add_line text_length actor source tenant basket names position raw (supply position))
  catalog-kept s basket names position raw =
      let audits = audit-Keeps (SameCatalog s) (SameCatalog-Blind s) in
      add_line-Keeps (SameCatalog s) audits tenant (λ l x h. h) text_length actor source supply
        (λ k line.
          catalog-Keeps (SameCatalog s) audits tenant (supply k).fresh
            (purchase_of text_length actor source line (supply k).idempotency_key) actor source
            (λ item m.
              request-blind (SameCatalog s) (SameCatalog-Blind s) (supply k).fresh tenant _ _))
        basket names position raw

  module _ (key : Text) (row : PaymentRequest) where
    abbrev Stored : Db → Type 0
    Stored = HasStored tenant key row

    Stored-audits : (e : AuditEvent) → Keeps Stored (modify (add_audit e))
    Stored-audits e = Keeps-modify (add_audit e) (λ s h. h)

    Stored-purchases :
        (k : ℕ) (raw : RawLine)
        → Keeps Stored (
            create_catalog_payment_request_for_source
              (supply k).fresh
              tenant
              (purchase_of text_length actor source raw (supply k).idempotency_key)
              actor
              source)
    Stored-purchases k raw =
        catalog-Keeps Stored Stored-audits tenant (supply k).fresh
          (purchase_of text_length actor source raw (supply k).idempotency_key) actor source
          (λ item m. request-Keeps_stored tenant key row (supply k).fresh tenant _ _)

    pub lines-Stored :
        (basket : Uuid) (names : Text → Text) (position : ℕ) (lines : List RawLine)
        → Keeps Stored
            (add_lines text_length actor source tenant basket names position lines supply)
    lines-Stored basket names position lines =
        add_lines-Keeps Stored Stored-audits tenant (λ l x h. h) text_length actor source supply
          Stored-purchases basket names position lines

    pub insert-Stored : (l : BasketLine) → Keeps Stored (insert_line l)
    insert-Stored l = insert_line-Keeps Stored Stored-audits tenant (λ l x h. h) l

    pub proposal-Stored :
        (basket : Uuid) (names : Text → Text) (position : ℕ) (raw : RawLine) (i : Uuid)
        (reply : CatalogReply)
        → Keeps Stored (record_proposal tenant basket names position raw i reply)
    proposal-Stored basket names position raw i reply =
        proposal-Keeps Stored Stored-audits tenant basket names position raw i reply
