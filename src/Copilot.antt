-- ===== src/Copilot.antt =====
-- `create_basket` of api/routes/merchant.py: one goal in, a basket of decided lines out. The plan is an
-- argument, whatever made it; how the basket is shown in the answer is left out.
pub mod Kept
pub mod WithinDay
pub mod Fate
pub mod Moved
pub mod Rounds
pub mod Lines
pub mod Routes
mod Tests
use trust_gate_merchant_copi.Base.{
  ℕ, suc, Bool, true, false, not, ◌&&◌, ◌||◌, Option, none, some, List, [], ◌∷◌, ltb, leb, ◌==◌,
  if◌then◌else◌, is_some, ℤ, pos, pos_part, ltb_ℤ, find,
}
use trust_gate_merchant_copi.Models.{
  Uuid, Text, Reason, cross_tenant_access_denied, purchase_rejected, store_not_seeded, Error,
  database_error, check_violation, unique_violation, validation_error, http_error, PlannerMode,
  live, offline, compromised, Merchant, CatalogItem, Basket, DiscardedField, ProposedLine,
  BasketLine, AuditEvent, EventKind, planner_fell_back, planner_line_proposed,
  planner_fields_discarded, line_stopped, Payload, fell_back, proposed_line, discarded_fields,
  stopped_line, Db,
}
use trust_gate_merchant_copi.Session.{
  Action, pure, gets, modify, raise_if, or_raise, atomically, add_audit, ◌>>=◌, ◌>>◌,
}
use trust_gate_merchant_copi.Requests.{Fresh, decided, forbidden, conflict}
use trust_gate_merchant_copi.Catalog.{
  CatalogPaymentRequestCreate, CatalogReply, catalog_decided, catalog_rejected, not_decided,
  is_active_item, joined, create_catalog_payment_request_for_source,
}

-- `RawLine`: what is kept of a line, its texts after `str`, its quantity if it is an integer; and
-- what is discarded.
pub record RawLine : Type 0 where
  pub sku : Text
  pub quantity : Option ℤ
  pub purpose : Text
  pub discarded : List DiscardedField

-- `PlanResult`
pub record PlanResult : Type 0 where
  pub lines : List RawLine
  pub note : Text
  pub mode_used : PlannerMode
  pub model : Option Text

-- What `uuid4` and the clocks supply to one line.
pub record LineFresh : Type 0 where
  pub fresh : Fresh
  pub idempotency_key : Text
  pub line_id : Uuid

abbrev pub or_zero : Option ℤ → ℤ
or_zero none = pos 0
or_zero (some n) = n

abbrev pub kept : RawLine → ProposedLine
kept raw = record { sku = raw.sku; quantity = or_zero raw.quantity; purpose = raw.purpose }

abbrev pub is_live : PlannerMode → Bool
is_live live = true
is_live offline = false
is_live compromised = false

abbrev pub has_fields : List DiscardedField → Bool
has_fields [] = false
has_fields (f ∷ fields) = true

-- The request that the line became.
abbrev pub request_of : CatalogReply → Option Uuid
request_of (catalog_decided d) = some d.decision.payment_request_id
request_of (catalog_rejected reason status) = none
request_of (not_decided (decided d)) = some d.payment_request_id
request_of (not_decided forbidden) = none
request_of (not_decided (conflict d)) = none

-- `_rejection_reason` of a rejection: its detail, which the body of a conflict does not have.
abbrev pub rejection_reason : CatalogReply → Option Reason
rejection_reason (catalog_decided d) = none
rejection_reason (catalog_rejected reason status) = some reason
rejection_reason (not_decided (decided d)) = none
rejection_reason (not_decided forbidden) = some cross_tenant_access_denied
rejection_reason (not_decided (conflict d)) = some purchase_rejected

abbrev pub basket_event : Uuid → Uuid → EventKind → Payload → AuditEvent
basket_event tenant basket kind payload = record {
  tenant_id = tenant;
  payment_request_id = none;
  payment_id = none;
  checkout_authority_id = none;
  provider_order_id = none;
  delegation_id = none;
  correlation_id = basket;
  event_kind = kind;
  payload = payload;
}

abbrev pub name_or : Text → Option (CatalogItem × Merchant) → Text
name_or sku none = sku
name_or sku (some (item, m)) = item.name

-- `_catalogue_facts`, and the name of an item in it.
abbrev pub shown_name : Uuid → Db → Text → Text
shown_name tenant s sku = name_or sku (joined s (find (is_active_item tenant sku) s.catalog_items))

abbrev pub basket_row : Uuid → Uuid → Text → PlanResult → Basket
basket_row tenant i goal plan = record {
  id = i;
  tenant_id = tenant;
  goal = goal;
  assistant_mode = plan.mode_used;
  model = plan.model;
  note = plan.note;
}

abbrev pub line_row : Uuid → Uuid → ℕ → RawLine → Uuid → CatalogReply → BasketLine
line_row tenant basket position raw i reply = record {
  id = i;
  tenant_id = tenant;
  basket_id = basket;
  position = position;
  proposed = kept raw;
  discarded = raw.discarded;
  payment_request_id = request_of reply;
  rejection_reason = rejection_reason reply;
}

abbrev pub is_basket : Uuid → Basket → Bool
is_basket i b = b.id == i

abbrev pub is_line : Uuid → BasketLine → Bool
is_line i l = l.id == i

-- What the line was, as evidence: the proposal, what was discarded of it, and why it was stopped.
unfoldable pub record_proposal :
    Uuid → Uuid → (Text → Text) → ℕ → RawLine → Uuid → CatalogReply → Action (Unit {0})
record_proposal tenant basket names position raw i reply = do
  modify (
      add_audit (
        basket_event tenant basket planner_line_proposed
          (proposed_line i position (names raw.sku) (kept raw) raw.discarded)))
  modify (λ s.
      if has_fields raw.discarded
      then add_audit
          (basket_event tenant basket planner_fields_discarded
            (discarded_fields i position raw.discarded))
          s
      else s)
  modify (λ s.
      if is_some (rejection_reason reply)
      then add_audit
          (basket_event tenant basket line_stopped
            (stopped_line i position raw.sku (rejection_reason reply)))
          s
      else s)

abbrev pub is_line_at : Uuid → ℕ → BasketLine → Bool
is_line_at basket position l = l.basket_id == basket && l.position == position

-- `(payment_request_id IS NULL) <> (rejection_reason IS NULL)`
abbrev pub has_one_fate : BasketLine → Bool
has_one_fate l =
    if is_some l.payment_request_id
    then not (is_some l.rejection_reason)
    else is_some l.rejection_reason

-- `session.add(BasketLine(...))`, with the table's CHECK and its keys.
unfoldable pub insert_line : BasketLine → Action (Unit {0})
insert_line row = do
  raise_if (not (has_one_fate row)) (database_error check_violation)
  taken ← gets (λ s. is_some (find (is_line row.id) s.basket_lines))
  rival ← gets (λ s. is_some (find (is_line_at row.basket_id row.position) s.basket_lines))
  raise_if (taken || rival) (database_error unique_violation)
  modify (λ s. record s { basket_lines = row ∷ s.basket_lines })

-- `session.add(basket)`, with its CHECK on the length of the goal.
unfoldable pub insert_basket : ℕ → Basket → Action (Unit {0})
insert_basket goal_length row = do
  raise_if (ltb goal_length 1 || ltb 300 goal_length) (database_error check_violation)
  taken ← gets (λ s. is_some (find (is_basket row.id) s.baskets))
  raise_if taken (database_error unique_violation)
  modify (λ s. record s { baskets = row ∷ s.baskets })

-- `text_length` is `len` of a text; `actor` and `source` are the texts of the assistant.
module _ (text_length : Text → ℕ) (actor source : Text) where
  -- The constraints of the fields of `CatalogPaymentRequestCreate`.
  abbrev pub is_valid_purchase : RawLine → Bool
  is_valid_purchase raw =
      leb 1 (text_length raw.sku)
      && leb (text_length raw.sku) 64
      && ltb_ℤ (pos 0) (or_zero raw.quantity)
      && leb 1 (text_length raw.purpose)
      && leb (text_length raw.purpose) 255

  abbrev pub purchase_of : RawLine → Text → CatalogPaymentRequestCreate
  purchase_of raw key = record {
    sku = raw.sku;
    quantity = pos_part (or_zero raw.quantity);
    purpose = raw.purpose;
    idempotency_key = key;
  }

  -- One round of the loop.
  unfoldable pub add_line :
      Uuid → Uuid → (Text → Text) → ℕ → RawLine → LineFresh → Action (Unit {0})
  add_line tenant basket names position raw supply = do
    raise_if (not (is_valid_purchase raw)) validation_error
    reply ←
        create_catalog_payment_request_for_source supply.fresh tenant
          (purchase_of raw supply.idempotency_key) actor source
    record_proposal tenant basket names position raw supply.line_id reply
    insert_line (line_row tenant basket position raw supply.line_id reply)

  -- The loop over `enumerate(plan.lines)`.
  unfoldable pub add_lines :
      Uuid → Uuid → (Text → Text) → ℕ → List RawLine → (ℕ → LineFresh) → Action (Unit {0})
  add_lines tenant basket names position [] supply = pure tt
  add_lines tenant basket names position (raw ∷ rest) supply = do
    add_line tenant basket names position raw (supply position)
    add_lines tenant basket names (suc position) rest supply

  unfoldable pub fill_basket :
      Uuid → Text → PlannerMode → PlanResult → Uuid → (ℕ → LineFresh) → Action (Unit {0})
  fill_basket tenant goal mode plan i supply = do
    insert_basket (text_length goal) (basket_row tenant i goal plan)
    modify (λ s.
        if is_live mode && not (is_live plan.mode_used)
        then add_audit (basket_event tenant i planner_fell_back (fell_back mode plan.mode_used)) s
        else s)
    names ← gets (shown_name tenant)
    add_lines tenant i names 0 plan.lines supply

  -- `create_basket`; `store` is the newest seeded tenant. An exception rolls the request back
  -- (`get_session`).
  unfoldable pub create_basket :
      Option Uuid → Text → PlannerMode → PlanResult → Uuid → (ℕ → LineFresh) → Action (Unit {0})
  create_basket store goal mode plan i supply = atomically (do
    tenant ← or_raise store (http_error store_not_seeded)
    fill_basket tenant goal mode plan i supply)
