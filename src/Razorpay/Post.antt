-- ===== src/Razorpay/Post.antt =====
-- When `create_order` (api/routes/razorpay.py) comes to the provider's POST, and for which receipt.
use trust_gate_merchant_copi.Base.{
  ◌≡◌, refl, sym, ap, ◌∙◌, subst, ℕ, true, Option, none, some, List, [], ◌∷◌, is_some, arith, find,
  find-holds,
}
use trust_gate_merchant_copi.Models.{
  Uuid, Text, ProviderState, pending, confirmed, needs_review, RazorpayOrder, CheckoutAuthority, Db,
}
use trust_gate_merchant_copi.Session.{Result, ok, err, raise}
use trust_gate_merchant_copi.Session.Returns.{
  bind-ok, gets-ok, or_raise-ok, raise_if-ok, modify-ok, modify-last, pure-last, atomically-ok,
}
use trust_gate_merchant_copi.Chain.Rows.{Env}
use trust_gate_merchant_copi.Checkout.{PurchaseFacts, is_authority}
use trust_gate_merchant_copi.Checkout.Consume.{consume-Consumed}
use trust_gate_merchant_copi.Razorpay.{PageAnswer, find_orders_by_receipt}
use trust_gate_merchant_copi.Razorpay.Order.{
  RazorpayOrderResponse, is_order_of, reconcile_matches, from_provider, Plan, answered, repost,
  first_post, after_search, retry_plan, as_conflict, intent_row, insert_intent, consume_for_order,
  record_intent,
}

-- The receipt of the order that the plan asks the provider for.
abbrev pub posts : Plan → Option Uuid
posts (answered reply) = none
posts (repost o) = some o.receipt
posts (first_post o) = some o.receipt

from_provider-ok :
    {A : Type 0} (r : Result A) (s : Db) {a : A} {t : Db}
    → from_provider r s ≡ (ok a, t)
    → (r ≡ ok a) × (t ≡ s)
unfolding from_provider raise
from_provider-ok (ok a) s h = let (e, same) = pure-last _ s h in (ap ok (sym e), same)
from_provider-ok {A} (err e) s h = absurd (cc (ap (λ (p : Result A × Db). p.0) h))

-- Nothing is found only when nothing matches.
reconcile-none :
    (env : Env) (o : RazorpayOrder) (matches : List Text) (s : Db) {t : Db}
    → reconcile_matches env o matches s ≡ (ok none, t)
    → matches ≡ []
unfolding reconcile_matches raise
reconcile-none env o [] s h = refl
reconcile-none env o (i ∷ []) s h =
    let (_, s₁, _, h₁) = bind-ok _ _ s h in absurd (cc ((pure-last _ s₁ h₁).0))
reconcile-none env o (i ∷ j ∷ rest) s h = absurd (
    cc (
      ap (λ (p : Result (Option RazorpayOrderResponse) × Db). p.0)
        (modify-ok _ _ _ (modify-ok _ _ s h))))

after_search-posts :
    (o : RazorpayOrder) (found : Option RazorpayOrderResponse) (r : Uuid)
    → posts (after_search o found) ≡ some r
    → (found ≡ none) × (o.receipt ≡ r)
after_search-posts o none r h = (refl, cc h)
after_search-posts o (some reply) r h = absurd (cc h)

pub retry-posts :
    (env : Env) (page : ℕ → PageAnswer) (o : RazorpayOrder) (state : ProviderState) (s : Db)
    (r : Uuid) {plan : Plan} {t : Db}
    → retry_plan env page o state s ≡ (ok plan, t)
    → posts plan ≡ some r
    → (o.receipt ≡ r) × (find_orders_by_receipt page r ≡ ok [])
unfolding retry_plan raise
retry-posts env page o confirmed s r h p =
    let (reply, s₁, _, h₁) = bind-ok _ _ s h in absurd (cc (sym p ∙ ap posts (pure-last _ s₁ h₁).0))
retry-posts env page o needs_review s r h p = absurd (cc (ap (λ (x : Result Plan × Db). x.0) h))
retry-posts env page o pending s r h p =
    let (matches, s₁, h₁, h₂) = bind-ok _ _ s h in
    let (found, s₂, h₃, h₄) = bind-ok _ _ s₁ h₂ in
    let (same, key) = after_search-posts o found r (sym (ap posts (pure-last _ s₂ h₄).0) ∙ p) in
    let empty =
      reconcile-none env o matches s₁
        (subst (λ x. reconcile_matches env o matches s₁ ≡ (ok x, s₂)) same h₃) in
    (
      key,
      subst (λ x. find_orders_by_receipt page x ≡ ok []) key
          ((from_provider-ok _ s h₁).0 ∙ ap ok empty),
    )

as_conflict-ok : {A : Type 0} (r : Result A) {a : A} → as_conflict r ≡ ok a → r ≡ ok a
as_conflict-ok (ok b) h = h
as_conflict-ok (err e) h = absurd (ground arith)

inserted_first :
    (o : RazorpayOrder) (tenant i : Uuid) (s : Db) {u : Unit {0}} {t : Db}
    → o.tenant_id ≡ tenant
    → o.checkout_authority_id ≡ i
    → insert_intent o s ≡ (ok u, t)
    → is_some (find (is_order_of tenant i) t.razorpay_orders) ≡ true
unfolding insert_intent find
inserted_first o tenant i s of_tenant of_authority h =
    let (_, h₁) = raise_if-ok _ _ _ s h in
    let (_, h₂) = raise_if-ok _ _ _ s (gets-ok _ _ s (gets-ok _ _ s h₁)) in
    ap (λ (x : Db). is_some (find (is_order_of tenant i) x.razorpay_orders)) (modify-last _ s h₂)
    ∙ ground (arith, of_tenant, of_authority)

module _ (digest : PurchaseFacts → Text) (env : Env) (tenant i : Uuid) (s : Db) where
  consumed_for :
      {a : CheckoutAuthority} {t : Db}
      → consume_for_order digest env tenant i s ≡ (ok a, t)
      → (a.tenant_id ≡ tenant) × (a.id ≡ i)
  unfolding consume_for_order
  consumed_for {a} {t} h =
      let done =
        consume-Consumed digest env tenant i env.new_correlation s a t (λ j.
          (as_conflict-ok _ (ap (λ (p : Result CheckoutAuthority × Db). p.0) h) j, (h j).1)) in
      let key = find-holds (is_authority tenant i) s.authorities done.found in
      (
        ap (λ (x : CheckoutAuthority). x.tenant_id) done.answer ∙ ground arith,
        ap (λ (x : CheckoutAuthority). x.id) done.answer ∙ ground arith,
      )

  -- A new intent is for the authority of the call, and its row is there when the provider is asked.
  pub intent-recorded :
      {o : RazorpayOrder} {t : Db}
      → record_intent digest env tenant i s ≡ (ok o, t)
      → (o.receipt ≡ i) × (is_some (find (is_order_of tenant i) t.razorpay_orders) ≡ true)
  unfolding record_intent
  intent-recorded {t = t} h =
      let (a, s₁, h₁, h₂) = bind-ok _ _ s (atomically-ok _ s h) in
      let (of_tenant, of_authority) = consumed_for h₁ in
      let (q, found, h₃) = or_raise-ok _ _ _ s₁ (gets-ok _ _ s₁ h₂) in
      let (_, s₂, h₄, h₅) = bind-ok _ _ s₁ h₃ in
      let (same, after) = pure-last _ _ (modify-ok _ _ s₂ h₅) in
      (
        ap (λ (x : RazorpayOrder). x.receipt) same ∙ of_authority,
        ap (λ (x : Db). is_some (find (is_order_of tenant i) x.razorpay_orders)) after
            ∙ inserted_first (intent_row env a q) tenant i s₁ of_tenant of_authority h₄,
      )
