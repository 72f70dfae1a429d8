-- ===== src/Paytm/Moves.antt =====
-- What `confirm_order` (api/routes/paytm.py) does to the payment when it returns: the provider's own
-- report is the only thing that moves it.
use trust_gate_merchant_copi.Base.{
  ◌≡◌, ◌≢◌, refl, sym, ap, ◌∙◌, subst, ◌⊎◌, inl, inr, true, false, Option, none, some, ℤ,
  eq_of_parts, if◌then◌else◌, arith, Bool-cases, find, find-holds,
}
use trust_gate_merchant_copi.Models.{
  Uuid, Text, Reason, confirmed_by_paytm, failed_at_paytm, State, provider_pending, captured,
  failed, state_eq, Error, http_error, payment_not_found, paytm_order_not_found, Payment,
  PaytmOrder, Db, is_payment,
}
use trust_gate_merchant_copi.Session.{Result, ok, pure, or_raise, Action, ◌>>=◌}
use trust_gate_merchant_copi.Session.Returns.{bind-ok, gets-ok, modify-ok, pure-last}
use trust_gate_merchant_copi.Chain.Rows.{Env}
use trust_gate_merchant_copi.Machine.Transition.{set_state}
use trust_gate_merchant_copi.Machine.Moves.{transition-moves}
use trust_gate_merchant_copi.Paytm.{
  TxnResult, txn_success, txn_failure, txn_other, StatusBody, StatusAnswer, unreachable,
  status_body, amount_matches, is_paytm_order, is_success, move_if, settle_status, read_status,
  ask_provider, confirm_order,
}

-- The payment of the order.
abbrev pub payment_of : Uuid → PaytmOrder → Db → Option Payment
payment_of tenant o s = find (is_payment tenant o.payment_id) s.payments

-- What the report says of the order: paid in full, failed, or neither.
abbrev pub ConfirmsPayment : PaytmOrder → StatusBody → Type 0
ConfirmsPayment o body = (body.result ≡ txn_success) × (body.reported_minor ≡ some o.amount_minor)

abbrev pub IsInconclusive : PaytmOrder → StatusBody → Type 0
IsInconclusive o body =
    ((body.result ≡ txn_success) × (body.reported_minor ≢ some o.amount_minor))
    ⊎ ((t : Text) × (body.result ≡ txn_other t))

-- The payment waited for the provider, and it is in the other state now, all else as it was.
abbrev pub HasMoved : Uuid → PaytmOrder → Payment → State → Db → Type 0
HasMoved tenant o p to t =
    (p.state ≡ provider_pending) × (payment_of tenant o t ≡ some (set_state to p))

-- Why a payment stays as it is.
abbrev pub IsHeld : PaytmOrder → Payment → StatusAnswer → Type 0
IsHeld o p answer =
    (p.state ≢ provider_pending)
    ⊎ ((is_success o.status ≡ true)
        ⊎ ((body : StatusBody) × (answer ≡ status_body body) × IsInconclusive o body))

abbrev pub ConfirmOutcome : Uuid → PaytmOrder → Payment → StatusAnswer → Db → Type 0
ConfirmOutcome tenant o p answer t =
    ((body : StatusBody) × (answer ≡ status_body body)
      × ConfirmsPayment o body
      × HasMoved tenant o p captured t)
    ⊎ (((body : StatusBody) × (answer ≡ status_body body)
          × (body.result ≡ txn_failure)
          × HasMoved tenant o p failed t)
        ⊎ (IsHeld o p answer × (payment_of tenant o t ≡ some p)))

state_lem : (s : State) → state_eq s provider_pending ≡ true → s ≡ provider_pending
state_lem s h = ground arith

not_state_lem : (s : State) → state_eq s provider_pending ≡ false → s ≢ provider_pending
not_state_lem s h e = cc (sym (ap (λ x. state_eq x provider_pending) e) ∙ h)

matches_lem : (n : Option ℤ) (a : ℤ) → amount_matches n a ≡ true → n ≡ some a
matches_lem none a h = absurd (cc h)
matches_lem (some n) a h = ap some (eq_of_parts n a (ground (arith, h)))

differs_lem : (n : Option ℤ) (a : ℤ) → amount_matches n a ≡ false → n ≢ some a
differs_lem n a h e = absurd (ground (arith, ap (λ x. amount_matches x a) e, h))

module _ (env : Env) (tenant : Uuid) (o : PaytmOrder) (p : Payment) (to : State)
    (reason : Reason) where
  -- A move that is asked for happens exactly when the payment waits for the provider.
  moved_lem :
      (s : Db) {u : Unit {0}} {t : Db}
      → payment_of tenant o s ≡ some p
      → move_if env provider_pending p to reason s ≡ (ok u, t)
      → HasMoved tenant o p to t ⊎ ((p.state ≢ provider_pending) × (payment_of tenant o t ≡ some p))
  unfolding move_if
  moved_lem s {t = t} found h = elim (Bool-cases (state_eq p.state provider_pending)) [
    | inl waits ↦
        let here = find-holds (is_payment tenant o.payment_id) s.payments found in
        let same_tenant : p.tenant_id ≡ tenant = ground arith in
        let same_id : p.id ≡ o.payment_id = ground arith in
        let found_by_row : find (is_payment p.tenant_id p.id) s.payments ≡ some p =
          ap (λ (k : Uuid × Uuid). find (is_payment k.0 k.1) s.payments)
            (λ i. (same_tenant i, same_id i))
          ∙ found in
        inl (
          state_lem p.state waits,
          ap (λ (k : Uuid × Uuid). find (is_payment k.0 k.1) t.payments)
                (λ i. (sym same_tenant i, sym same_id i))
              ∙ transition-moves env p.tenant_id p.id to reason env.new_correlation none s t p
                  found_by_row (rw waits at h),
        )
    | inr still ↦ inr (
      not_state_lem p.state still,
      ap (payment_of tenant o) (pure-last _ s (rw still at h)).1 ∙ found,
    )
  ]

module _ (env : Env) (tenant : Uuid) (o : PaytmOrder) (p : Payment) (answer : StatusAnswer)
    (body : StatusBody) (told : answer ≡ status_body body) where
  settle-outcome :
      (result : TxnResult) (s : Db) {o' : PaytmOrder} {t : Db}
      → body.result ≡ result
      → payment_of tenant o s ≡ some p
      → settle_status env tenant o p body result s ≡ (ok o', t)
      → ConfirmOutcome tenant o p answer t
  unfolding settle_status
  settle-outcome txn_success s {t = t} e found h =
      elim (Bool-cases (amount_matches body.reported_minor o.amount_minor)) [
        | inl same ↦
            let amount = matches_lem body.reported_minor o.amount_minor same in
            let (u, s₁, h₁, h₂) = bind-ok _ _ _ (modify-ok _ _ s (rw same at h)) in
            let after = ap (payment_of tenant o) (pure-last _ _ (modify-ok _ _ s₁ h₂)).1 in
            elim (moved_lem env tenant o p captured confirmed_by_paytm _ found h₁) [
              | inl (waited, now) ↦ inl (body, told, (e, amount), (waited, after ∙ now))
              | inr (other, now) ↦ inr (inr (inl other, after ∙ now))
            ]
        | inr other ↦
            let after =
              ap (payment_of tenant o)
                (pure-last _ _ (modify-ok _ _ _ (modify-ok _ _ s (rw other at h)))).1 in
            let differs = differs_lem body.reported_minor o.amount_minor other in
            inr (inr (inr (inr (body, told, inl (e, differs))), after ∙ found))
      ]
  settle-outcome txn_failure s {t = t} e found h =
      let (u, s₁, h₁, h₂) = bind-ok _ _ _ (modify-ok _ _ s h) in
      let after = ap (payment_of tenant o) (pure-last _ _ (modify-ok _ _ s₁ h₂)).1 in
      elim (moved_lem env tenant o p failed failed_at_paytm _ found h₁) [
        | inl (waited, now) ↦ inr (inl (body, told, e, (waited, after ∙ now)))
        | inr (other, now) ↦ inr (inr (inl other, after ∙ now))
      ]
  settle-outcome (txn_other result) s e found h = inr (
      inr (
        inr (inr (body, told, inr (result, e))),
        ap (payment_of tenant o) (pure-last _ _ (modify-ok _ _ _ (modify-ok _ _ s h))).1 ∙ found,
      ))

read_status-ok :
    (answer : StatusAnswer) (f : StatusBody → Action PaytmOrder) (s : Db) {o : PaytmOrder} {t : Db}
    → (read_status answer >>= f) s ≡ (ok o, t)
    → (body : StatusBody) × (answer ≡ status_body body) × (f body s ≡ (ok o, t))
unfolding read_status ◌>>=◌
read_status-ok unreachable f s h = absurd (cc (ap (λ (x : Result PaytmOrder × Db). x.0) h))
read_status-ok (status_body body) f s h = (body, refl, h)

some-ok :
    {A B : Type 0} (a : A) (e : Error) (f : A → Action B) (s : Db) {b : B} {t : Db}
    → (or_raise (some a) e >>= f) s ≡ (ok b, t)
    → f a s ≡ (ok b, t)
unfolding ◌>>=◌
some-ok a e f s h = h

module _ (env : Env) (tenant : Uuid) (o : PaytmOrder) (p : Payment) (answer : StatusAnswer)
    (s : Db) where
  asked-outcome :
      {o' : PaytmOrder} {t : Db}
      → payment_of tenant o s ≡ some p
      → ask_provider env tenant answer o s ≡ (ok o', t)
      → ConfirmOutcome tenant o p answer t
  unfolding ask_provider
  asked-outcome {o'} {t} found h =
      let (body, told, h₁) = read_status-ok answer _ s h in
      let h₂ =
        subst
          (λ x.
            (or_raise x (http_error payment_not_found) >>= λ q.
            settle_status env tenant o q body body.result)
              s
            ≡ (ok o', t))
          found (gets-ok _ _ s h₁) in
      settle-outcome env tenant o p answer body told body.result s refl found (
        some-ok p (http_error payment_not_found)
          (λ q. settle_status env tenant o q body body.result) s h₂)

  -- When a confirmation returns, the order's payment is captured if the provider reports success with
  -- exactly the order's amount, and failed if it reports a failure, in both cases only if the payment
  -- waited for the provider; and otherwise it is as it was: it did not wait, or the order was paid
  -- already, or the report says something else or another amount. In particular a captured payment
  -- differs from what it was in its state alone.
  pub confirm_order-outcome :
      (i : Uuid) (o' : PaytmOrder) (t : Db)
      → find (is_paytm_order tenant i) s.paytm_orders ≡ some o
      → payment_of tenant o s ≡ some p
      → confirm_order env tenant answer i s ≡ (ok o', t)
      → ConfirmOutcome tenant o p answer t
  unfolding confirm_order
  confirm_order-outcome i o' t stored found h =
      let h₁ =
        some-ok o (http_error paytm_order_not_found)
          (λ x. if is_success x.status then pure x else ask_provider env tenant answer x) s
          (subst
            (λ x.
              (or_raise x (http_error paytm_order_not_found) >>= λ y.
              if is_success y.status then pure y else ask_provider env tenant answer y)
                s
              ≡ (ok o', t))
            stored (gets-ok _ _ s h)) in
      elim (Bool-cases (is_success o.status)) [
        | inl paid ↦ inr (
            inr
              (inr (inl paid), ap (payment_of tenant o) (pure-last o s (rw paid at h₁)).1 ∙ found))
        | inr unpaid ↦ asked-outcome found (rw unpaid at h₁)
      ]
