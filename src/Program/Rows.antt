-- ===== src/Program/Rows.antt =====
-- What baskets (api/routes/merchant.py) and the Paytm rail (api/routes/paytm.py) keep: whatever sees
-- neither their tables nor those of the parts that they call.
use trust_gate_merchant_copi.Base.{ℕ, Bool, not, ◌&&◌, Option, none, some, List, ◌∷◌}
use trust_gate_merchant_copi.Models.{
  Uuid, Text, Reason, PlannerMode, State, Payment, PaytmOrder, Basket, BasketLine, Db,
}
use trust_gate_merchant_copi.Session.{modify}
use trust_gate_merchant_copi.Session.Keeps.{
  Keeps, Keeps-modify, Keeps-bind, Keeps-pure, Keeps-gets, Keeps-if, Keeps-raise_if, Keeps-or_raise,
  Keeps-atomically, Keeps-map, keeps_rules,
}
use trust_gate_merchant_copi.Chain.Rows.{Env}
use trust_gate_merchant_copi.Checkout.{PurchaseFacts, consume_checkout_authority}
use trust_gate_merchant_copi.Checkout.Issue.{
  CheckoutReply, issued, rejection, issue_checkout_authority,
}
use trust_gate_merchant_copi.Razorpay.Order.{as_conflict, consume_for_order}
use trust_gate_merchant_copi.Program.Blind.{Blind, audit-Keeps, transition-blind, request-blind}
use trust_gate_merchant_copi.Copilot.{
  RawLine, PlanResult, LineFresh, is_live, insert_basket, purchase_of, add_lines, fill_basket,
  create_basket,
}
use trust_gate_merchant_copi.Copilot.Kept.{catalog-Keeps, audit_if-Keeps, add_lines-Keeps}
use trust_gate_merchant_copi.Paytm.{
  OpenAnswer, not_opened, token, TxnResult, txn_success, txn_failure, txn_other, StatusBody,
  StatusAnswer, unreachable, status_body, amount_matches, is_success, update_paytm, move_if,
  insert_paytm_order, open_transaction, issued_or_raise, start_payment, settle_status, read_status,
  ask_provider, confirm_order, callback_for, receive_callback,
}

-- `P` does not see these tables.
pub record BlindToRows (P : Db → Type 0) : Type 0 where
  pub baskets : (f : Db → List Basket) (s : Db) → P s → P (record s { baskets = f s })
  pub lines : (f : Db → List BasketLine) (s : Db) → P s → P (record s { basket_lines = f s })
  pub paytm : (f : Db → List PaytmOrder) (s : Db) → P s → P (record s { paytm_orders = f s })

module _ (P : Db → Type 0) (blind : Blind P) (rows : BlindToRows P) where
  -- Baskets
  insert_basket-Keeps : (n : ℕ) (row : Basket) → Keeps P (insert_basket n row)
  unfolding insert_basket
  insert_basket-Keeps n row = Keeps-bind _ _ (Keeps-raise_if _ _) (λ _.
      Keeps-bind _ _ (Keeps-gets _) (λ taken. Keeps-bind _ _ (Keeps-raise_if _ _) (λ _.
        Keeps-modify (λ s. record s { baskets = row ∷ s.baskets })
          (rows.baskets (λ s. row ∷ s.baskets)))))

  module _ (text_length : Text → ℕ) (actor source : Text) (supply : ℕ → LineFresh) where
    lines-Keeps :
        (tenant basket : Uuid) (names : Text → Text) (position : ℕ) (lines : List RawLine)
        → Keeps P (add_lines text_length actor source tenant basket names position lines supply)
    lines-Keeps tenant basket names position lines =
        add_lines-Keeps P (audit-Keeps P blind) tenant (λ l. rows.lines (λ s. l ∷ s.basket_lines))
          text_length actor source supply
          (λ k raw.
            catalog-Keeps P (audit-Keeps P blind) tenant (supply k).fresh
              (purchase_of text_length actor source raw (supply k).idempotency_key) actor source
              (λ item m. request-blind P blind (supply k).fresh tenant _ _))
          basket names position lines

    fill_basket-Keeps :
        (tenant : Uuid) (goal : Text) (mode : PlannerMode) (plan : PlanResult) (i : Uuid)
        → Keeps P (fill_basket text_length actor source tenant goal mode plan i supply)
    unfolding fill_basket
    fill_basket-Keeps tenant goal mode plan i = Keeps-bind _ _ (insert_basket-Keeps _ _) (λ _.
        Keeps-bind _ _
          (audit_if-Keeps P (audit-Keeps P blind) tenant
            (is_live mode && not (is_live plan.mode_used)) _)
          (λ _. Keeps-bind _ _ (Keeps-gets _) (λ names. lines-Keeps tenant i names 0 plan.lines)))

    pub basket-Keeps :
        (store : Option Uuid) (goal : Text) (mode : PlannerMode) (plan : PlanResult) (i : Uuid)
        → Keeps P (create_basket text_length actor source store goal mode plan i supply)
    unfolding create_basket
    basket-Keeps store goal mode plan i =
        Keeps-atomically _ (
          Keeps-bind _ _ (Keeps-or_raise _ _) (λ tenant. fill_basket-Keeps tenant goal mode plan i))

  -- Paytm
  update-Keeps :
      (f : PaytmOrder → PaytmOrder) (o : PaytmOrder) → Keeps P (modify (update_paytm f o))
  update-Keeps f o =
      Keeps-modify (update_paytm f o) (rows.paytm (λ s. (update_paytm f o s).paytm_orders))

  move_if-Keeps :
      (env : Env) (from : State) (p : Payment) (to : State) (reason : Reason)
      → Keeps P (move_if env from p to reason)
  unfolding move_if
  move_if-Keeps env from p to reason =
      Keeps-if _ _ _ (transition-blind P blind env _ _ to reason _ none) (Keeps-pure _)

  insert_paytm-Keeps : (o : PaytmOrder) → Keeps P (insert_paytm_order o)
  unfolding insert_paytm_order
  insert_paytm-Keeps o = Keeps-bind _ _ (Keeps-raise_if _ _) (λ _.
      Keeps-bind _ _ (Keeps-gets _) (λ taken. Keeps-bind _ _ (Keeps-gets _) (λ rival.
        Keeps-bind _ _ (Keeps-raise_if _ _) (λ _.
          Keeps-modify (λ s. record s { paytm_orders = o ∷ s.paytm_orders })
            (rows.paytm (λ s. o ∷ s.paytm_orders))))))

  open-Keeps : (answer : OpenAnswer) → Keeps P (open_transaction answer)
  unfolding open_transaction
  open-Keeps not_opened = search keeps_rules
  open-Keeps (token t) = search keeps_rules

  issued-Keeps : (reply : CheckoutReply) → Keeps P (issued_or_raise reply)
  unfolding issued_or_raise
  issued-Keeps (issued response) = search keeps_rules
  issued-Keeps (rejection reason status) = search keeps_rules

  module _
      (issues : (digest : PurchaseFacts → Text) (env : Env) (tenant i : Uuid)
        → Keeps P (issue_checkout_authority digest env tenant i))
      (consumes : (digest : PurchaseFacts → Text) (env : Env) (tenant i c : Uuid)
        → Keeps P (consume_checkout_authority digest env tenant i c)) where
    consume_for-Keeps :
        (digest : PurchaseFacts → Text) (env : Env) (tenant i : Uuid)
        → Keeps P (consume_for_order digest env tenant i)
    unfolding consume_for_order
    consume_for-Keeps digest env tenant i = Keeps-map as_conflict _ (consumes digest env tenant i _)

    pub start-Keeps :
        (digest : PurchaseFacts → Text) (issue_env env : Env) (order_id : Text)
        (answer : OpenAnswer) (tenant i : Uuid)
        → Keeps P (start_payment digest issue_env env order_id answer tenant i)
    unfolding start_payment
    start-Keeps digest issue_env env order_id answer tenant i =
        Keeps-bind _ _ (issues digest issue_env tenant i) (λ reply.
          Keeps-bind _ _ (issued-Keeps reply) (λ j.
            Keeps-bind _ _ (consume_for-Keeps digest env tenant j) (λ authority.
              Keeps-bind _ _ (Keeps-gets _) (λ found.
                Keeps-bind _ _ (Keeps-or_raise _ _) (λ request.
                  Keeps-bind _ _ (insert_paytm-Keeps _) (λ _.
                    Keeps-bind _ _ (Keeps-gets _) (λ found_payment.
                      Keeps-bind _ _ (Keeps-or_raise _ _) (λ payment.
                        Keeps-bind _ _ (move_if-Keeps env _ payment _ _) (λ _.
                          Keeps-bind _ _ (open-Keeps answer) (λ t.
                            Keeps-bind _ _ (audit-Keeps P blind _) (λ _. Keeps-pure _)))))))))))

  settle-Keeps :
      (env : Env) (tenant : Uuid) (o : PaytmOrder) (p : Payment) (body : StatusBody)
      (result : TxnResult)
      → Keeps P (settle_status env tenant o p body result)
  unfolding settle_status
  settle-Keeps env tenant o p body txn_success =
      Keeps-if (amount_matches body.reported_minor o.amount_minor) _ _
        (Keeps-bind _ _ (update-Keeps _ o) (λ _.
          Keeps-bind _ _ (move_if-Keeps env _ p _ _)
            (λ _. Keeps-bind _ _ (audit-Keeps P blind _) (λ _. Keeps-pure _))))
        (Keeps-bind _ _ (update-Keeps _ o)
          (λ _. Keeps-bind _ _ (audit-Keeps P blind _) (λ _. Keeps-pure _)))
  settle-Keeps env tenant o p body txn_failure = Keeps-bind _ _ (update-Keeps _ o) (λ _.
      Keeps-bind _ _ (move_if-Keeps env _ p _ _)
        (λ _. Keeps-bind _ _ (audit-Keeps P blind _) (λ _. Keeps-pure _)))
  settle-Keeps env tenant o p body (txn_other result) =
      Keeps-bind _ _ (update-Keeps _ o)
        (λ _. Keeps-bind _ _ (audit-Keeps P blind _) (λ _. Keeps-pure _))

  status-Keeps : (answer : StatusAnswer) → Keeps P (read_status answer)
  unfolding read_status
  status-Keeps unreachable = search keeps_rules
  status-Keeps (status_body body) = search keeps_rules

  ask-Keeps :
      (env : Env) (tenant : Uuid) (answer : StatusAnswer) (o : PaytmOrder)
      → Keeps P (ask_provider env tenant answer o)
  unfolding ask_provider
  ask-Keeps env tenant answer o = Keeps-bind _ _ (status-Keeps answer) (λ body.
      Keeps-bind _ _ (Keeps-gets _) (λ found.
        Keeps-bind _ _ (Keeps-or_raise _ _) (λ p. settle-Keeps env tenant o p body body.result)))

  pub confirm-Keeps :
      (env : Env) (tenant : Uuid) (answer : StatusAnswer) (i : Uuid)
      → Keeps P (confirm_order env tenant answer i)
  unfolding confirm_order
  confirm-Keeps env tenant answer i = Keeps-bind _ _ (Keeps-gets _) (λ found.
      Keeps-bind _ _ (Keeps-or_raise _ _)
        (λ o. Keeps-if (is_success o.status) _ _ (Keeps-pure _) (ask-Keeps env tenant answer o)))

  callback_for-Keeps :
      (env : Env) (c : Uuid) (answer : StatusAnswer) (verified : Bool) (o : Option PaytmOrder)
      → Keeps P (callback_for env c answer verified o)
  unfolding callback_for
  callback_for-Keeps env c answer verified none = Keeps-pure _
  callback_for-Keeps env c answer verified (some o) = Keeps-bind _ _ (audit-Keeps P blind _) (λ _.
      Keeps-if verified _ _
        (Keeps-bind _ _ (confirm-Keeps env o.tenant_id answer o.id) (λ _. Keeps-pure _))
        (Keeps-pure _))

  pub callback-Keeps :
      (env : Env) (c : Uuid) (answer : StatusAnswer) (verified : Bool) (order_id : Text)
      → Keeps P (receive_callback env c answer verified order_id)
  unfolding receive_callback
  callback-Keeps env c answer verified order_id =
      Keeps-bind _ _ (Keeps-gets _) (λ found. callback_for-Keeps env c answer verified found)
