-- ===== src/Program/BasketLines.antt =====
-- What the routes of one line of a basket (api/routes/merchant.py) keep.
use trust_gate_merchant_copi.Base.{Option}
use trust_gate_merchant_copi.Models.{Uuid, Text, HttpDetail, Db}
use trust_gate_merchant_copi.Session.{Action}
use trust_gate_merchant_copi.Session.Keeps.{
  Keeps, Keeps-bind, Keeps-pure, Keeps-gets, Keeps-or_raise, Keeps-atomically, Keeps-map,
}
use trust_gate_merchant_copi.Chain.Rows.{Env}
use trust_gate_merchant_copi.Checkout.{PurchaseFacts}
use trust_gate_merchant_copi.Program.Blind.{Blind, approval-blind}
use trust_gate_merchant_copi.Paytm.{OpenAnswer, StatusAnswer, start_payment, confirm_order}
use trust_gate_merchant_copi.Copilot.Routes.{
  line_or_404, as_bad_gateway, or_bad_gateway, approve_line, pay_line, confirm_line,
}

module _ (P : Db → Type 0) where
  line-Keeps : (detail : HttpDetail) (tenant i : Uuid) → Keeps P (line_or_404 detail tenant i)
  unfolding line_or_404
  line-Keeps detail tenant i = Keeps-bind _ _ (Keeps-gets _) (λ line. Keeps-or_raise _ _)

  gateway-Keeps : {A : Type 0} (m : Action A) → Keeps P m → Keeps P (or_bad_gateway m)
  unfolding or_bad_gateway
  gateway-Keeps m keeps = Keeps-map as_bad_gateway m keeps

  pub approve_line-Keeps :
      Blind P
      → (env : Env) (store : Option Uuid) (approver : Option Text) (i : Uuid)
      → Keeps P (approve_line env store approver i)
  unfolding approve_line
  approve_line-Keeps blind env store approver i = Keeps-atomically _ (
      Keeps-bind _ _ (Keeps-or_raise _ _) (λ tenant.
        Keeps-bind _ _ (line-Keeps _ tenant i) (λ request.
          Keeps-bind _ _ (Keeps-or_raise _ _) (λ who.
            Keeps-bind _ _ (approval-blind P blind env tenant who request) (λ _. Keeps-pure _)))))

  pub pay_line-Keeps :
      ((digest : PurchaseFacts → Text) (issue_env env : Env) (order_id : Text) (answer : OpenAnswer)
          (tenant i : Uuid)
        → Keeps P (start_payment digest issue_env env order_id answer tenant i))
      → (digest : PurchaseFacts → Text) (issue_env env : Env) (order_id : Text)
        (answer : OpenAnswer) (store : Option Uuid) (i : Uuid)
      → Keeps P (pay_line digest issue_env env order_id answer store i)
  unfolding pay_line
  pay_line-Keeps starts digest issue_env env order_id answer store i = Keeps-atomically _ (
      Keeps-bind _ _ (Keeps-or_raise _ _) (λ tenant.
        Keeps-bind _ _ (line-Keeps _ tenant i) (λ request.
          gateway-Keeps _ (starts digest issue_env env order_id answer tenant request))))

  pub confirm_line-Keeps :
      ((env : Env) (tenant : Uuid) (answer : StatusAnswer) (i : Uuid)
        → Keeps P (confirm_order env tenant answer i))
      → (env : Env) (answer : StatusAnswer) (store : Option Uuid) (i : Uuid)
      → Keeps P (confirm_line env answer store i)
  unfolding confirm_line
  confirm_line-Keeps confirms env answer store i = Keeps-atomically _ (
      Keeps-bind _ _ (Keeps-or_raise _ _) (λ tenant.
        Keeps-bind _ _ (line-Keeps _ tenant i) (λ request. Keeps-bind _ _ (Keeps-gets _) (λ found.
          Keeps-bind _ _ (Keeps-or_raise _ _) (λ o.
            Keeps-bind _ _ (gateway-Keeps _ (confirms env tenant answer o.id))
              (λ _. Keeps-pure _))))))
