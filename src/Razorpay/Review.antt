-- ===== src/Razorpay/Review.antt =====
-- Several orders for one receipt (`_reconcile_intent` of api/routes/razorpay.py).
use trust_gate_merchant_copi.Base.{◌≡◌, refl, sym, ap, ◌∙◌, subst, ℕ, some, List, ◌∷◌, find}
use trust_gate_merchant_copi.Models.{
  Uuid, Text, Error, http_error, razorpay_duplicate_orders, pending, RazorpayOrder, Db,
}
use trust_gate_merchant_copi.Session.{Result, ok, err, Action, pure, raise, atomically, ◌>>=◌}
use trust_gate_merchant_copi.Session.Runs.{bind-runs, gets-runs}
use trust_gate_merchant_copi.Chain.Rows.{Env}
use trust_gate_merchant_copi.Checkout.{PurchaseFacts}
use trust_gate_merchant_copi.Razorpay.{PageAnswer, find_orders_by_receipt}
use trust_gate_merchant_copi.Razorpay.Order.{
  CreateAnswer, is_order_of, reconcile_matches, from_provider, Plan, retry_plan, plan_for,
  plan_order, create_order,
}

raises :
    {A B : Type 0} (m : Action A) (f : A → Action B) (s : Db) {e : Error}
    → (m s).0 ≡ err e
    → ((m >>= f) s).0 ≡ err e
unfolding ◌>>=◌
raises m f s h = rw h refl

rolled_back :
    {A : Type 0} (m : Action A) (s : Db) {e : Error} → (m s).0 ≡ err e → atomically m s ≡ (err e, s)
unfolding atomically
rolled_back m s h = rw h refl

stops :
    {A B : Type 0} (m : Action A) (f : A → Action B) (s : Db) {e : Error} {t : Db}
    → m s ≡ (err e, t)
    → (m >>= f) s ≡ (err e, t)
unfolding ◌>>=◌
stops m f s h = rw h refl

module _ (env : Env) (page : ℕ → PageAnswer) (o : RazorpayOrder) (a b : Text) (rest : List Text)
    (s : Db) where
  review-raises :
      (reconcile_matches env o (a ∷ b ∷ rest) s).0 ≡ err (http_error razorpay_duplicate_orders)
  unfolding reconcile_matches raise ◌>>=◌
  review-raises = refl

  searched :
      find_orders_by_receipt page o.receipt ≡ ok (a ∷ b ∷ rest)
      → from_provider (find_orders_by_receipt page o.receipt) s ≡ (ok (a ∷ b ∷ rest), s)
  unfolding from_provider pure
  searched h = rw h refl

  retry-raises :
      find_orders_by_receipt page o.receipt ≡ ok (a ∷ b ∷ rest)
      → (retry_plan env page o pending s).0 ≡ err (http_error razorpay_duplicate_orders)
  unfolding retry_plan
  retry-raises h =
      ap (λ (x : Result Plan × Db). x.0) (bind-runs _ _ s (searched h)) ∙ raises _ _ s review-raises

module _ (digest : PurchaseFacts → Text) (env : Env) (page : ℕ → PageAnswer) (answer : CreateAnswer)
    (tenant i : Uuid) (s : Db) (o : RazorpayOrder) (a b : Text) (rest : List Text) where
  -- When the search for a pending intent finds several orders, the route is refused and the database
  -- is as it was: the intent is still pending, its mark for review and the audit of it are undone.
  pub duplicates_undone :
      find (is_order_of tenant i) s.razorpay_orders ≡ some o
      → o.provider_state ≡ pending
      → find_orders_by_receipt page o.receipt ≡ ok (a ∷ b ∷ rest)
      → create_order digest env page answer tenant i s
        ≡ (err (http_error razorpay_duplicate_orders), s)
  unfolding create_order plan_order plan_for
  duplicates_undone found waits several = stops _ _ s (
      gets-runs _ _ s
      ∙ subst
          (λ x.
            plan_for digest env page tenant i x s ≡ (err (http_error razorpay_duplicate_orders), s))
          (sym found)
          (subst
            (λ x.
              atomically (retry_plan env page o x) s
              ≡ (err (http_error razorpay_duplicate_orders), s))
            (sym waits) (rolled_back _ s (retry-raises env page o a b rest s several))))
