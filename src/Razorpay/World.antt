-- ===== src/Razorpay/World.antt =====
-- The server and its provider together: the order route of api/routes/razorpay.py against a provider
-- whose calls may fail at any point, and what the calls keep of the rows.
use trust_gate_merchant_copi.Base.{
  ◌≡◌, refl, sym, ap, ◌∙◌, inl, inr, ◌*◌, Bool, true, Option, none, some, List, [], ◌∷◌, map,
  is_some, ltb, ◌==◌, arith, Bool-cases, All, length, find, count_where, All-update_where,
  find-update_where,
}
use mathlib.Core.Option
use trust_gate_merchant_copi.Models.{Uuid, Text, RazorpayOrder, Db}
use trust_gate_merchant_copi.Session.{Result, ok, err}
use trust_gate_merchant_copi.Chain.Rows.{Env}
use trust_gate_merchant_copi.Checkout.{PurchaseFacts}
use trust_gate_merchant_copi.Program.{Call, run}
use trust_gate_merchant_copi.Program.Blind.{Blind}
use trust_gate_merchant_copi.Razorpay.{
  page_size, max_pages, Item, order_item, matching, find_orders_by_receipt,
}
use trust_gate_merchant_copi.Razorpay.Order.{
  CreateAnswer, post_failed, status_error, no_order_id, created_order, is_order_of, update_orders,
  Plan, plan_order, create_order,
}
use trust_gate_merchant_copi.Razorpay.Search.{pages_of, find_orders_complete}
use trust_gate_merchant_copi.Razorpay.Kept.{SameKeys}
use trust_gate_merchant_copi.Razorpay.Post.{posts}

-- An order at the provider.
pub record ProviderOrder : Type 0 where
  pub receipt : Uuid
  pub id : Text

abbrev pub item_of : ProviderOrder → Item
item_of o = order_item (some o.receipt) (some o.id)

-- The server's database, and the provider's orders, the newest first.
pub record World : Type 0 where
  pub db : Db
  pub orders : List ProviderOrder

pub data Failure : Type 0 where
  connection_lost bad_status bad_answer : Failure

-- How a POST ends: the order is made and its identifier arrives; or the call fails, whether the order
-- was made or not.
pub data Outcome : Type 0 where
  delivered : Text → Outcome
  undelivered : Option Text → Failure → Outcome

abbrev pub failed_with : Failure → CreateAnswer
failed_with connection_lost = post_failed
failed_with bad_status = status_error
failed_with bad_answer = no_order_id

abbrev pub answer_of : Outcome → CreateAnswer
answer_of (delivered i) = created_order i
answer_of (undelivered made failure) = failed_with failure

abbrev pub made_by : Outcome → Option Text
made_by (delivered i) = some i
made_by (undelivered made failure) = made

-- The POST, if the call comes to it, and its order, if one is made.
abbrev pub posted : Result Plan → Option Uuid
posted (ok plan) = posts plan
posted (err e) = none

abbrev pub add_order : Option Uuid → Option Text → List ProviderOrder → List ProviderOrder
add_order (some r) (some i) orders = record { receipt = r; id = i } ∷ orders
add_order (some r) none orders = orders
add_order none made orders = orders

abbrev pub has_receipt : Uuid → ProviderOrder → Bool
has_receipt x o = o.receipt == x

-- A call of the order route, or any other call of the server.
pub data Move : Type 0 where
  order_move : Env → Uuid → Outcome → Move
  server_move : Call → Move

module _ (digest : PurchaseFacts → Text) (tenant : Uuid) where
  unfoldable pub move : Move → World → World
  move (order_move env i outcome) w =
      let page = pages_of (map item_of w.orders) in
      record {
        db = (create_order digest env page (answer_of outcome) tenant i w.db).1;
        orders =
            add_order (posted (plan_order digest env page tenant i w.db).0) (made_by outcome)
              w.orders;
      }
  move (server_move call) w = record w { db = run digest call w.db }

  unfoldable pub moves : List Move → World → World
  moves [] w = w
  moves (m ∷ rest) w = moves rest (move m w)

-- The tenant has an order, or the intent of one, for the authority.
abbrev pub HasRow : Uuid → Uuid → Db → Type 0
HasRow tenant x s = is_some (find (is_order_of tenant x) s.razorpay_orders) ≡ true

abbrev pub IsKeyed : RazorpayOrder → Type 0
IsKeyed o = o.receipt ≡ o.checkout_authority_id

abbrev pub HasReceipts : Db → Type 0
HasReceipts s = All IsKeyed s.razorpay_orders

pub HasRow-Blind : (tenant x : Uuid) → Blind (HasRow tenant x)
HasRow-Blind tenant x = record {
  audits = λ f s h. h;
  delegations = λ f s h. h;
  spends = λ f s h. h;
  reservations = λ f s h. h;
  payments = λ f s h. h;
  requests = λ f s h. h;
  decisions = λ f s h. h;
  approvals = λ f s h. h;
  new_event = λ e s h. h;
  processed_event = λ t j now s h. h;
}

pub HasReceipts-Blind : Blind HasReceipts
HasReceipts-Blind = record {
  audits = λ f s h. h;
  delegations = λ f s h. h;
  spends = λ f s h. h;
  reservations = λ f s h. h;
  payments = λ f s h. h;
  requests = λ f s h. h;
  decisions = λ f s h. h;
  approvals = λ f s h. h;
  new_event = λ e s h. h;
  processed_event = λ t j now s h. h;
}

pub update-HasReceipts :
    (f : RazorpayOrder → RazorpayOrder) (o : RazorpayOrder) (s : Db)
    → SameKeys f
    → HasReceipts s
    → HasReceipts (update_orders f o s)
update-HasReceipts f o s keys h =
    All-update_where IsKeyed IsKeyed (is_order_of o.tenant_id o.checkout_authority_id) f
      (λ x hit k. let (_, authority, receipt) = keys x in receipt ∙ k ∙ sym authority)
      (λ x miss k. k) s.razorpay_orders h

some_lem :
    {A : Type 0} (f : A → A) (o : Option A) → is_some o ≡ true → is_some (Option.map f o) ≡ true
some_lem f none h = h
some_lem f (some a) h = refl

pub update-HasRow :
    (tenant x : Uuid) (f : RazorpayOrder → RazorpayOrder) (o : RazorpayOrder) (s : Db)
    → SameKeys f
    → HasRow tenant x s
    → HasRow tenant x (update_orders f o s)
update-HasRow tenant x f o s keys h =
    ap is_some (
      find-update_where (is_order_of o.tenant_id o.checkout_authority_id) (is_order_of tenant x) f
        (λ y. let (of_tenant, authority, _) = keys y in ground (arith, of_tenant, authority))
        s.razorpay_orders)
    ∙ some_lem _ _ h

pub insert-HasRow :
    (tenant x : Uuid) (o : RazorpayOrder) (s : Db)
    → HasRow tenant x s
    → HasRow tenant x (record s { razorpay_orders = o ∷ s.razorpay_orders })
unfolding find
insert-HasRow tenant x o s h = ground (arith, h)

-- No match means no order with the receipt.
none_of_matching :
    (x : Uuid) (orders : List ProviderOrder)
    → matching x (map item_of orders) ≡ []
    → count_where (has_receipt x) orders ≡ 0
unfolding matching count_where
none_of_matching x [] h = refl
none_of_matching x (o ∷ orders) h = elim (Bool-cases (o.receipt == x)) [
  | inl hit ↦ absurd (cc (rw hit at h))
  | inr miss ↦ rw miss (none_of_matching x orders (rw miss at h))
]

pub none_found :
    (x : Uuid) (orders : List ProviderOrder)
    → find_orders_by_receipt (pages_of (map item_of orders)) x ≡ ok []
    → count_where (has_receipt x) orders ≡ 0
none_found x orders h =
    let e = sym h ∙ find_orders_complete (map item_of orders) x in
    elim (Bool-cases (ltb (length (map item_of orders)) (max_pages * page_size))) [
      | inl few ↦ none_of_matching x orders (sym (cc (rw few at e)))
      | inr many ↦ absurd (cc (rw many at e))
    ]
