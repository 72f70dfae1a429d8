-- ===== src/Copilot/Routes.antt =====
-- `approve_line`, `pay_line` and `confirm_line` of api/routes/merchant.py: the routes of one line of a
-- basket, without the rendering of their answers.
use trust_gate_merchant_copi.Base.{Bool, ◌&&◌, Option, none, some, ◌==◌, is_some, find}
use trust_gate_merchant_copi.Models.{
  Uuid, Text, paytm_unavailable, http_error, store_not_seeded, line_not_approvable,
  approver_unavailable, line_not_payable, nothing_to_confirm, paytm_failed, HttpDetail, Payment,
  PaytmOrder, BasketLine, Db,
}
use trust_gate_merchant_copi.Session.{
  Result, err, Action, pure, gets, or_raise, atomically, ◌>>=◌, ◌>>◌,
}
use trust_gate_merchant_copi.Chain.Rows.{Env}
use trust_gate_merchant_copi.Approve.{grant_approval}
use trust_gate_merchant_copi.Checkout.{PurchaseFacts}
use trust_gate_merchant_copi.Paytm.{OpenAnswer, StatusAnswer, start_payment, confirm_order}

abbrev pub is_line_of : Uuid → Uuid → BasketLine → Bool
is_line_of tenant i l = l.id == i && l.tenant_id == tenant

abbrev pub request_of_line : Option BasketLine → Option Uuid
request_of_line none = none
request_of_line (some l) = l.payment_request_id

-- The request of the line: a stopped line has none.
unfoldable pub line_or_404 : HttpDetail → Uuid → Uuid → Action Uuid
line_or_404 detail tenant i = do
  line ← gets (λ s. find (is_line_of tenant i) s.basket_lines)
  or_raise (request_of_line line) (http_error detail)

abbrev pub is_payment_for : PaytmOrder → Uuid → Payment → Bool
is_payment_for o request p = p.id == o.payment_id && p.payment_request_id == request

-- The join of an order with a payment of the request.
abbrev pub is_order_for : Uuid → Uuid → Db → PaytmOrder → Bool
is_order_for tenant request s o =
    o.tenant_id == tenant && is_some (find (is_payment_for o request) s.payments)

-- `except PaytmUnavailableError as exc`
abbrev pub as_bad_gateway : {A : Type 0} → Result A → Result A
as_bad_gateway (err paytm_unavailable) = err (http_error paytm_failed)
as_bad_gateway r = r

unfoldable pub or_bad_gateway : {A : Type 0} → Action A → Action A
or_bad_gateway m s = let (r, s') = m s in (as_bad_gateway r, s')

-- `approve_line`; `approver` is the person of the token in the environment, if there is one.
unfoldable pub approve_line : Env → Option Uuid → Option Text → Uuid → Action (Unit {0})
approve_line env store approver i = atomically (do
  tenant ← or_raise store (http_error store_not_seeded)
  request ← line_or_404 line_not_approvable tenant i
  who ← or_raise approver (http_error approver_unavailable)
  grant_approval env tenant who request
  pure tt)

unfoldable pub pay_line :
    (PurchaseFacts → Text)
    → Env
    → Env
    → Text
    → OpenAnswer
    → Option Uuid
    → Uuid
    → Action (PaytmOrder × Text)
pay_line digest issue_env env order_id answer store i = atomically (do
  tenant ← or_raise store (http_error store_not_seeded)
  request ← line_or_404 line_not_payable tenant i
  or_bad_gateway (start_payment digest issue_env env order_id answer tenant request))

-- The newest order of the request is the one that is confirmed.
unfoldable pub confirm_line : Env → StatusAnswer → Option Uuid → Uuid → Action (Unit {0})
confirm_line env answer store i = atomically (do
  tenant ← or_raise store (http_error store_not_seeded)
  request ← line_or_404 line_not_payable tenant i
  found ← gets (λ s. find (is_order_for tenant request s) s.paytm_orders)
  o ← or_raise found (http_error nothing_to_confirm)
  or_bad_gateway (confirm_order env tenant answer o.id)
  pure tt)
