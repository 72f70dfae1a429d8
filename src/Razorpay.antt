-- ===== src/Razorpay.antt =====
-- api/routes/razorpay.py: the search of the provider's orders for a receipt. The provider's answers
-- are arguments: what a page of orders holds, and how the creation of an order ended.
pub mod Order
pub mod Search
pub mod Kept
pub mod Post
pub mod World
pub mod OneOrder
pub mod Review
pub mod Callback
pub mod Hook
pub mod Evidence
pub mod Attempts
mod Tests
use trust_gate_merchant_copi.Base.{
  ℕ, zero, suc, ◌+◌, Bool, true, false, ◌&&◌, Option, none, some, List, [], ◌∷◌, ◌++◌, ltb, ◌==◌,
  if◌then◌else◌, length, same_id,
}
use trust_gate_merchant_copi.Models.{
  Uuid, Text, http_error, attribute_error, razorpay_network_error, razorpay_reconcile_failed,
  razorpay_receipt_search_incomplete, RazorpayOrder,
}
use trust_gate_merchant_copi.Session.{Result, ok, err}

-- `_RECEIPT_SEARCH_PAGE_SIZE`
abbrev pub page_size : ℕ
page_size = 100

-- `_RECEIPT_SEARCH_MAX_PAGES`
abbrev pub max_pages : ℕ
max_pages = 20

-- An element of `items`: an object, with its receipt and its id where they are texts, or not.
pub data Item : Type 0 where
  not_an_object : Item
  order_item : Option Uuid → Option Text → Item

-- What a GET of the orders comes to.
pub data PageAnswer : Type 0 where
  no_connection error_status not_json not_a_dict not_a_list : PageAnswer
  page_items : List Item → PageAnswer

-- The comprehension under `matches.extend`.
unfoldable pub matching : Uuid → List Item → List Text
matching receipt [] = []
matching receipt (not_an_object ∷ items) = matching receipt items
matching receipt (order_item r none ∷ items) = matching receipt items
matching receipt (order_item r (some i) ∷ items) =
    let rest = matching receipt items in if same_id r (some receipt) then i ∷ rest else rest

-- `for _ in range(_RECEIPT_SEARCH_MAX_PAGES)`: the pages that are left, how many orders were seen,
-- and the matches so far. A page that is not full is the last one.
unfoldable pub search_pages : (ℕ → PageAnswer) → Uuid → ℕ → ℕ → List Text → Result (List Text)
search_pages page receipt zero skip matches = err (http_error razorpay_receipt_search_incomplete)
search_pages page receipt (suc left) skip matches = elim (page skip) [
  | no_connection ↦ err (http_error razorpay_network_error)
  | error_status ↦ err (http_error razorpay_reconcile_failed)
  | not_json ↦ err (http_error razorpay_reconcile_failed)
  | not_a_dict ↦ err attribute_error
  | not_a_list ↦ err (http_error razorpay_reconcile_failed)
  | page_items items ↦ elim (ltb (length items) page_size) [
    | true ↦ ok (matches ++ matching receipt items)
    | false ↦ search_pages page receipt left (skip + page_size) (matches ++ matching receipt items)
  ]
]

unfoldable pub find_orders_by_receipt : (ℕ → PageAnswer) → Uuid → Result (List Text)
find_orders_by_receipt page receipt = search_pages page receipt max_pages 0 []
