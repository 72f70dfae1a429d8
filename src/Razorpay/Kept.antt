-- ===== src/Razorpay/Kept.antt =====
-- What the routes of api/routes/razorpay.py keep of the rows of `razorpay_order`: a row is never
-- removed, and its tenant, its authority and its receipt never change.
use trust_gate_merchant_copi.Base.{◌≡◌, refl, ℕ, Option, none, some, List, [], ◌∷◌, update_where}
use trust_gate_merchant_copi.Models.{
  Uuid, Text, ProviderState, pending, confirmed, needs_review, RazorpayOrder, PaymentRequest,
  CheckoutAuthority, EventKind, Payload, Db,
}
use trust_gate_merchant_copi.Session.{Result, ok, err, modify}
use trust_gate_merchant_copi.Session.Keeps.{
  Keeps, Keeps-modify, Keeps-bind, Keeps-map, Keeps-atomically, keeps_rules,
}
use trust_gate_merchant_copi.Chain.Rows.{Env}
use trust_gate_merchant_copi.Checkout.{PurchaseFacts, is_authority, use_at}
use trust_gate_merchant_copi.Program.Blind.{Blind, audit-Keeps}
use trust_gate_merchant_copi.Program.Uses.{consume-Keeps}
use trust_gate_merchant_copi.Razorpay.{PageAnswer}
use trust_gate_merchant_copi.Razorpay.Order.{
  response_if, update_orders, confirm, reconcile_matches, from_provider, Plan, answered, repost,
  first_post, retry_plan, as_conflict, intent_row, insert_intent, consume_for_order, record_intent,
  plan_for, plan_order, finish_order,
}

-- The columns that no statement changes.
abbrev pub SameKeys : (RazorpayOrder → RazorpayOrder) → Type 0
SameKeys f =
    (o : RazorpayOrder)
    → ((f o).tenant_id ≡ o.tenant_id)
      × ((f o).checkout_authority_id ≡ o.checkout_authority_id)
      × ((f o).receipt ≡ o.receipt)

-- What sees the rows alone, and is kept by updates of other columns and by new intents.
module _ (P : Db → Type 0) (blind : Blind P)
    (authorities : (f : Db → List CheckoutAuthority) (s : Db)
      → P s
      → P (record s { authorities = f s }))
    (updates : (f : RazorpayOrder → RazorpayOrder) (o : RazorpayOrder) (s : Db)
      → SameKeys f
      → P s
      → P (update_orders f o s))
    (intents : (o : RazorpayOrder) (s : Db)
      → o.receipt ≡ o.checkout_authority_id
      → P s
      → P (record s { razorpay_orders = o ∷ s.razorpay_orders })) where
  response-Keeps :
      (state : ProviderState) (i : Option Text) (o : RazorpayOrder)
      → Keeps P (response_if state i o)
  unfolding response_if
  response-Keeps confirmed (some i) o = search keeps_rules
  response-Keeps confirmed none o = search keeps_rules
  response-Keeps pending i o = search keeps_rules
  response-Keeps needs_review i o = search keeps_rules

  updates-Keeps :
      (f : RazorpayOrder → RazorpayOrder) (o : RazorpayOrder)
      → SameKeys f
      → Keeps P (modify (update_orders f o))
  updates-Keeps f o keys = Keeps-modify (update_orders f o) (λ s. updates f o s keys)

  confirm-Keeps :
      (write : Text → RazorpayOrder → RazorpayOrder) (i : Text) (o : RazorpayOrder) (c : Uuid)
      (kind : EventKind) (payload : Payload)
      → SameKeys (write i)
      → Keeps P (confirm write i o c kind payload)
  unfolding confirm
  confirm-Keeps write i o c kind payload keys = Keeps-bind _ _ (search keeps_rules) (λ _.
      Keeps-bind _ _ (search keeps_rules) (λ _.
        Keeps-bind _ _ (updates-Keeps (write i) o keys)
          (λ _. Keeps-bind _ _ (audit-Keeps P blind _) (λ _. response-Keeps _ _ _))))

  reconcile-Keeps :
      (env : Env) (o : RazorpayOrder) (matches : List Text)
      → Keeps P (reconcile_matches env o matches)
  unfolding reconcile_matches
  reconcile-Keeps env o [] = search keeps_rules
  reconcile-Keeps env o (i ∷ []) =
      Keeps-bind _ _ (confirm-Keeps _ i o _ _ _ (λ x. (refl, refl, refl))) (λ _. search keeps_rules)
  reconcile-Keeps env o (i ∷ j ∷ rest) =
      Keeps-bind _ _ (updates-Keeps _ o (λ x. (refl, refl, refl)))
        (λ _. Keeps-bind _ _ (audit-Keeps P blind _) (λ _. search keeps_rules))

  from_provider-Keeps : {A : Type 0} (r : Result A) → Keeps P (from_provider r)
  unfolding from_provider
  from_provider-Keeps (ok a) = search keeps_rules
  from_provider-Keeps (err e) = search keeps_rules

  retry-Keeps :
      (env : Env) (page : ℕ → PageAnswer) (o : RazorpayOrder) (state : ProviderState)
      → Keeps P (retry_plan env page o state)
  unfolding retry_plan
  retry-Keeps env page o confirmed = Keeps-bind _ _ (response-Keeps _ _ o) (λ _. search keeps_rules)
  retry-Keeps env page o needs_review = search keeps_rules
  retry-Keeps env page o pending =
      Keeps-bind _ _ (from_provider-Keeps _)
        (λ matches. Keeps-bind _ _ (reconcile-Keeps env o matches) (λ _. search keeps_rules))

  intents-Keeps :
      (o : RazorpayOrder) → o.receipt ≡ o.checkout_authority_id → Keeps P (insert_intent o)
  unfolding insert_intent
  intents-Keeps o keys = Keeps-bind _ _ (search keeps_rules) (λ _.
      Keeps-bind _ _ (search keeps_rules) (λ _. Keeps-bind _ _ (search keeps_rules) (λ _.
        Keeps-bind _ _ (search keeps_rules) (λ _.
          Keeps-modify (λ s. record s { razorpay_orders = o ∷ s.razorpay_orders })
            (λ s. intents o s keys)))))

  module _ (digest : PurchaseFacts → Text) where
    consume_for_order-Keeps :
        (env : Env) (tenant i : Uuid) → Keeps P (consume_for_order digest env tenant i)
    unfolding consume_for_order
    consume_for_order-Keeps env tenant i = Keeps-map as_conflict _ (
        consume-Keeps P blind
          (λ t j now. authorities (λ s. update_where (is_authority t j) (use_at now) s.authorities))
          (λ a s _. authorities (λ x. a ∷ x.authorities) s) digest env tenant i _)

    record_intent-Keeps :
        (env : Env) (tenant i : Uuid) → Keeps P (record_intent digest env tenant i)
    unfolding record_intent
    record_intent-Keeps env tenant i =
        search
          (
            keeps_rules,
            consume_for_order-Keeps,
            (λ (a : CheckoutAuthority) (q : PaymentRequest).
                intents-Keeps (intent_row env a q) refl),
            audit-Keeps P blind,
          )
          depth 16

    plan-Keeps :
        (env : Env) (page : ℕ → PageAnswer) (tenant i : Uuid) (o : Option RazorpayOrder)
        → Keeps P (plan_for digest env page tenant i o)
    unfolding plan_for
    plan-Keeps env page tenant i none = search (keeps_rules, record_intent-Keeps)
    plan-Keeps env page tenant i (some o) = search (keeps_rules, retry-Keeps)

    pub plan_order-Keeps :
        (env : Env) (page : ℕ → PageAnswer) (tenant i : Uuid)
        → Keeps P (plan_order digest env page tenant i)
    unfolding plan_order
    plan_order-Keeps env page tenant i = search (keeps_rules, plan-Keeps)

  pub finish_order-Keeps :
      (env : Env) (plan : Plan) (r : Result Text) → Keeps P (finish_order env plan r)
  unfolding finish_order
  finish_order-Keeps env (answered reply) r = search keeps_rules
  finish_order-Keeps env (repost o) r = Keeps-atomically _ (
      Keeps-bind _ _ (from_provider-Keeps r)
        (λ i. confirm-Keeps _ i o _ _ _ (λ x. (refl, refl, refl))))
  finish_order-Keeps env (first_post o) (ok i) =
      Keeps-atomically _ (confirm-Keeps _ i o _ _ _ (λ x. (refl, refl, refl)))
  finish_order-Keeps env (first_post o) (err e) = search (keeps_rules, audit-Keeps P blind)
