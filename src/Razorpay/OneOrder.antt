-- ===== src/Razorpay/OneOrder.antt =====
-- The provider holds at most one order for each checkout authority (api/routes/razorpay.py), however
-- often the route is called and however its calls of the provider end.
use trust_gate_merchant_copi.Base.{◌≡◌, ◌⊎◌, ℕ, ◌≤◌, none, [], map, find, count_where}
use trust_gate_merchant_copi.Models.{Uuid, Text, Db}
use trust_gate_merchant_copi.Session.{ok}
use trust_gate_merchant_copi.Session.Keeps.{Keeps}
use trust_gate_merchant_copi.Chain.Rows.{Env}
use trust_gate_merchant_copi.Checkout.{PurchaseFacts}
use trust_gate_merchant_copi.Razorpay.{PageAnswer, find_orders_by_receipt}
use trust_gate_merchant_copi.Razorpay.Order.{is_order_of, create_order}
use trust_gate_merchant_copi.Razorpay.Search.{pages_of}
use trust_gate_merchant_copi.Razorpay.World.{
  item_of, World, Outcome, answer_of, has_receipt, HasRow, HasReceipts,
}

-- A POST is for the authority of the call, whose row is there; and nothing was ordered for it before:
-- it had no row, or the search found no order.
abbrev IsFresh : (ℕ → PageAnswer) → Uuid → Uuid → Db → Type 0
IsFresh page tenant i s =
    (find (is_order_of tenant i) s.razorpay_orders ≡ none) ⊎ (find_orders_by_receipt page i ≡ ok [])

-- At most one order for each authority, and only for one that has a row.
record IsGood (tenant : Uuid) (w : World) : Type 0 where
  pub receipts : HasReceipts w.db
  pub single : (x : Uuid) → count_where (has_receipt x) w.orders ≤ 1
  pub backed : (x : Uuid) → (count_where (has_receipt x) w.orders ≡ 0) ⊎ HasRow tenant x w.db

module _ (digest : PurchaseFacts → Text) (tenant : Uuid) (env : Env) (i : Uuid) (outcome : Outcome)
    (w : World) (good : IsGood tenant w) where
  abbrev page : ℕ → PageAnswer
  page = pages_of (map item_of w.orders)

  abbrev after : Db
  after = (create_order digest env page (answer_of outcome) tenant i w.db).1
