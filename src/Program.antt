-- ===== src/Program.antt =====
-- The server's operations together, except those of Razorpay: what its routes do to the database, in
-- any order.
pub mod Blind
pub mod Uses
pub mod Rows
pub mod BasketLines
pub mod Authorities
mod Tests
use trust_gate_merchant_copi.Base.{ℕ, Bool, Option, List, [], ◌∷◌, ℤ}
use trust_gate_merchant_copi.Models.{
  Uuid, Text, Time, PlannerMode, State, Reason, SpendingPolicy, Bounds, Db,
}
use trust_gate_merchant_copi.Session.{atomically}
use trust_gate_merchant_copi.Chain.Rows.{Env}
use trust_gate_merchant_copi.Chain.Grant.{grant_root, grant}
use trust_gate_merchant_copi.Chain.Walk.{revoke}
use trust_gate_merchant_copi.Machine.Transition.{transition}
use trust_gate_merchant_copi.Requests.{PaymentRequestCreate, CatalogPurchaseContext, Fresh}
use trust_gate_merchant_copi.Requests.Create.{create_payment_request_for_context}
use trust_gate_merchant_copi.Approve.{grant_approval}
use trust_gate_merchant_copi.Webhook.{WebhookEvent, receive_provider_event}
use trust_gate_merchant_copi.Checkout.{PurchaseFacts, consume_checkout_authority}
use trust_gate_merchant_copi.Checkout.Issue.{issue_checkout_authority}
use trust_gate_merchant_copi.Catalog.{
  CatalogPaymentRequestCreate, create_catalog_payment_request_for_source,
}
use trust_gate_merchant_copi.Copilot.{PlanResult, LineFresh, create_basket}
use trust_gate_merchant_copi.Copilot.Routes.{approve_line, pay_line, confirm_line}
use trust_gate_merchant_copi.Paytm.{
  OpenAnswer, StatusAnswer, start_payment, confirm_order, receive_callback,
}

-- A call of a route; where the route opens no block of its own, an exception rolls the request back.
pub data Call : Type 0 where
  grant_root_call : Env → Uuid → SpendingPolicy → Text → Text → Bounds → Option Uuid → Call
  grant_call : Env → Uuid → Uuid → Text → Text → Bounds → Option Uuid → Call
  revoke_call : Env → Uuid → Uuid → Option Time → Option Uuid → Call
  request_call : Fresh → Uuid → PaymentRequestCreate → Option CatalogPurchaseContext → Call
  approve_call : Env → Uuid → Text → Uuid → Call
  webhook_call : Env → WebhookEvent → Call
  transition_call : Env → Uuid → Uuid → State → Reason → Uuid → Option Uuid → Call
  issue_call : Env → Uuid → Uuid → Call
  consume_call : Env → Uuid → Uuid → Uuid → Call
  catalog_call : Fresh → Uuid → CatalogPaymentRequestCreate → Text → Text → Call
  basket_call :
      (Text → ℕ)
      → Text
      → Text
      → Option Uuid
      → Text
      → PlannerMode
      → PlanResult
      → Uuid
      → (ℕ → LineFresh)
      → Call
  start_paytm_call : Env → Env → Text → OpenAnswer → Uuid → Uuid → Call
  confirm_paytm_call : Env → Uuid → StatusAnswer → Uuid → Call
  paytm_callback_call : Env → Uuid → StatusAnswer → Bool → Text → Call
  approve_line_call : Env → Option Uuid → Option Text → Uuid → Call
  pay_line_call : Env → Env → Text → OpenAnswer → Option Uuid → Uuid → Call
  confirm_line_call : Env → StatusAnswer → Option Uuid → Uuid → Call

module _ (digest : PurchaseFacts → Text) where
  -- The database after a call, whether it answered or raised.
  unfoldable pub run : Call → Db → Db
  run (grant_root_call env t p a b bounds c) s = (grant_root env t p a b bounds c s).1
  run (grant_call env t i a b bounds c) s = (grant env t i a b bounds c s).1
  run (revoke_call env t i at c) s = (revoke env t i at c s).1
  run (request_call fresh t r context) s =
      (create_payment_request_for_context fresh t r context s).1
  run (approve_call env t who i) s = (grant_approval env t who i s).1
  run (webhook_call env e) s = (receive_provider_event env e s).1
  run (transition_call env t i to reason c o) s = (transition env t i to reason c o s).1
  run (issue_call env t i) s = (issue_checkout_authority digest env t i s).1
  run (consume_call env t i c) s = (consume_checkout_authority digest env t i c s).1
  run (catalog_call fresh t request actor source) s =
      (create_catalog_payment_request_for_source fresh t request actor source s).1
  run (basket_call text_length actor source store goal mode plan i supply) s =
      (create_basket text_length actor source store goal mode plan i supply s).1
  run (start_paytm_call issue_env env order_id answer t i) s =
      (atomically (start_payment digest issue_env env order_id answer t i) s).1
  run (confirm_paytm_call env t answer i) s = (atomically (confirm_order env t answer i) s).1
  run (paytm_callback_call env c answer verified order_id) s =
      (atomically (receive_callback env c answer verified order_id) s).1
  run (approve_line_call env store approver i) s = (approve_line env store approver i s).1
  run (pay_line_call issue_env env order_id answer store i) s =
      (pay_line digest issue_env env order_id answer store i s).1
  run (confirm_line_call env answer store i) s = (confirm_line env answer store i s).1

  unfoldable pub run_all : List Call → Db → Db
  run_all [] s = s
  run_all (call ∷ calls) s = run_all calls (run call s)
