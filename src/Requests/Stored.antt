-- ===== src/Requests/Stored.antt =====
-- What an answered request (api/routes/payment_requests.py) leaves in the table of requests.
use trust_gate_merchant_copi.Base.{
  ◌≡◌, refl, sym, ap, ◌∙◌, subst, ◌⊎◌, inl, inr, Bool-cases, Option, none, some, List, ◌∷◌, arith,
  find,
}
use trust_gate_merchant_copi.Models.{
  Uuid, Text, Merchant, PaymentRequest, AuthorizationDecision, Payment, State, Reason, Db,
}
use trust_gate_merchant_copi.Session.{ok, Action}
use trust_gate_merchant_copi.Session.Keeps.{Keeps, Keeps-atomically_ok}
use trust_gate_merchant_copi.Session.Returns.{
  if-ok, bind-ok, gets-ok, or_raise-ok, raise_if-ok, modify-ok, modify-last, pure-last,
  atomically-ok,
}
use trust_gate_merchant_copi.Policy.{PolicyDecision}
use trust_gate_merchant_copi.Chain.Walk.{active_delegation_for}
use trust_gate_merchant_copi.Chain.Rows.{Env}
use trust_gate_merchant_copi.Machine.Transition.{transition}
use trust_gate_merchant_copi.Machine.Untouched.{transition-Keeps}
use trust_gate_merchant_copi.Requests.{
  PaymentRequestCreate, CatalogPurchaseContext, Fresh, PaymentRequestDecision, Reply, decided,
  forbidden, conflict, has_key, same_request, replay,
}
use trust_gate_merchant_copi.Requests.Claiming.{BlindToBudgets, claim-Keeps}
use trust_gate_merchant_copi.Requests.Same.{SameRequest, same_request_sound, same_request_complete}
use trust_gate_merchant_copi.Requests.Create.{
  debited, request_row, record_request, record_payment, record_decision, create, create_or_replay,
  is_merchant, request_for_merchant, create_payment_request_for_context,
}

-- The table has these rows.
abbrev HasRequests : List PaymentRequest → Db → Type 0
HasRequests rows s = s.payment_requests ≡ rows

requests_budgets : (rows : List PaymentRequest) → BlindToBudgets (HasRequests rows)
requests_budgets rows = record {
  audits = λ e s h. h;
  delegations = λ f s h. h;
  spends = λ f s h. h;
  reservations = λ f s h. h;
}

left_alone :
    {A : Type 0} (m : Action A) (s : Db) {a : A} {t : Db}
    → Keeps (HasRequests s.payment_requests) m
    → m s ≡ (ok a, t)
    → t.payment_requests ≡ s.payment_requests
left_alone m s keeps h =
    subst (λ (x : Db). x.payment_requests ≡ s.payment_requests) (λ i. (h i).1) (keeps.at s refl)

transition-left :
    (env : Env) (tenant i : Uuid) (to : State) (reason : Reason) (c : Uuid) (o : Option Uuid)
    (rows : List PaymentRequest)
    → Keeps (HasRequests rows) (transition env tenant i to reason c o)
transition-left env tenant i to reason c o rows =
    transition-Keeps (HasRequests rows) (λ e s h. h) (λ f s h. h) (λ f s h. h) (λ f s h. h)
      (λ p f s h. h) (λ t j r now s h. h) env tenant i to reason c o

module _ (fresh : Fresh) (tenant : Uuid) (request : PaymentRequestCreate)
    (context : Option CatalogPurchaseContext) where
  recorded-row :
      (row : PaymentRequest) (d : Option Uuid) (s : Db) {u : Unit {0}} {t : Db}
      → record_request fresh tenant row d s ≡ (ok u, t)
      → t.payment_requests ≡ row ∷ s.payment_requests
  unfolding record_request
  recorded-row row d s h =
      let (_, h₁) = raise_if-ok _ _ _ s h in
      let (_, h₂) = raise_if-ok _ _ _ s (gets-ok _ _ s h₁) in
      ap (λ (x : Db). x.payment_requests) (modify-last _ _ (modify-ok _ _ s h₂))

  payment-left :
      (p : Payment) (d : AuthorizationDecision) (s : Db) {u : Unit {0}} {t : Db}
      → record_payment tenant p d s ≡ (ok u, t)
      → t.payment_requests ≡ s.payment_requests
  unfolding record_payment
  payment-left p d s h =
      let (_, h₁) = raise_if-ok _ _ _ s (gets-ok _ _ s (gets-ok _ _ s h)) in
      ap (λ (x : Db). x.payment_requests) (modify-last _ s h₁)

  -- The new row is on top, and the answer names it.
  abbrev IsCreated : Reply → Db → Db → Type 0
  IsCreated reply s t =
      (d : Option Uuid) × (t.payment_requests
        ≡ request_row fresh tenant request context d ∷ s.payment_requests)
      × ((shown : PaymentRequestDecision) × (reply ≡ decided shown)
          × (shown.payment_request_id ≡ fresh.request_id))

  recorded-IsCreated :
      (d : Option Uuid) (result : PolicyDecision) (reply : Reply) (s t : Db)
      → record_decision fresh tenant request context d result s ≡ (ok reply, t)
      → IsCreated reply s t
  unfolding record_decision
  recorded-IsCreated d result reply s t h =
      let (_, s₁, h₁, h₂) = bind-ok _ _ s h in
      let (_, s₂, h₃, h₄) = bind-ok _ _ s₁ h₂ in
      let (_, s₃, h₅, h₆) = bind-ok _ _ s₂ h₄ in
      let (moved, _, h₇) = or_raise-ok _ _ _ s₃ (gets-ok _ _ s₃ h₆) in
      let (replied, same) = pure-last _ s₃ h₇ in
      (
        d,
        ap (λ (x : Db). x.payment_requests) same
            ∙ left_alone _ s₂ (transition-left fresh.env tenant _ _ _ _ none s₂.payment_requests) h₅
            ∙ payment-left _ _ s₁ h₃
            ∙ recorded-row _ d s h₁,
        (_, replied, refl),
      )

  create-IsCreated :
      (reply : Reply) (s t : Db)
      → create fresh tenant request context s ≡ (ok reply, t)
      → IsCreated reply s t
  unfolding create
  create-IsCreated reply s t h =
      let held = active_delegation_for tenant request.actor_id fresh.env.now s in
      let (claim, s₁, h₁, h₂) = bind-ok _ _ s (gets-ok _ _ s (gets-ok _ _ s h)) in
      let same =
        left_alone _ s
          (claim-Keeps (HasRequests s.payment_requests) (requests_budgets s.payment_requests) fresh
            tenant request context held _ _)
          h₁ in
      let (d, rows, answer) = recorded-IsCreated (debited claim) _ reply s₁ t h₂ in
      (d, rows ∙ ap (λ xs. request_row fresh tenant request context d ∷ xs) same, answer)

  -- The stored request is the same, and the answer names it; or it is another one.
  abbrev IsReplay : PaymentRequest → Reply → Type 0
  IsReplay old reply =
      (SameRequest fresh old request context
        × ((shown : PaymentRequestDecision) × (reply ≡ decided shown)
            × (shown.payment_request_id ≡ old.id)))
      ⊎ ((¬ SameRequest fresh old request context)
          × ((shown : PaymentRequestDecision) × (reply ≡ conflict shown)))

  replayed-IsReplay :
      (old : PaymentRequest) (reply : Reply) (s t : Db)
      → replay fresh tenant request context old s ≡ (ok reply, t)
      → (t.payment_requests ≡ s.payment_requests) × IsReplay old reply
  unfolding replay
  replayed-IsReplay old reply s t h =
      let (decision, _, h₁) = or_raise-ok _ _ _ s (gets-ok _ _ s (gets-ok _ _ s h)) in
      let (payment, _, h₂) = or_raise-ok _ _ _ s h₁ in
      elim (if-ok (same_request fresh old request context) _ _ s h₂) [
        | inl (same, h₃) ↦
            let (replied, after) = pure-last _ s h₃ in
            (
              ap (λ (x : Db). x.payment_requests) after,
              inl (same_request_sound fresh old request context same, (_, replied, refl)),
            )
        | inr (other, h₃) ↦
            let (replied, after) = pure-last _ _ (modify-ok _ _ s h₃) in
            (
              ap (λ (x : Db). x.payment_requests) after,
              inr (
                (λ same. cc (other, same_request_complete fresh old request context same)),
                (_, replied),
              ),
            )
      ]

  -- How an answered request leaves the table: no row is added when the merchant is not the tenant's or
  -- the key was used; else the request's own row is.
  abbrev pub RequestDone : Reply → Db → Db → Type 0
  RequestDone reply s t =
      ((t.payment_requests ≡ s.payment_requests)
        × (reply ≡ forbidden)
        × (find (is_merchant tenant request.merchant_id) s.merchants ≡ none))
      ⊎ (((old : PaymentRequest) × (t.payment_requests ≡ s.payment_requests)
            × (find (has_key tenant request.idempotency_key) s.payment_requests ≡ some old)
            × IsReplay old reply)
          ⊎ ((find (has_key tenant request.idempotency_key) s.payment_requests ≡ none)
              × IsCreated reply s t))

  for_merchant-done :
      (m : Option Merchant) (existing : Option PaymentRequest) (reply : Reply) (s t : Db)
      → find (is_merchant tenant request.merchant_id) s.merchants ≡ m
      → find (has_key tenant request.idempotency_key) s.payment_requests ≡ existing
      → request_for_merchant fresh tenant request context m s ≡ (ok reply, t)
      → RequestDone reply s t
  unfolding request_for_merchant create_or_replay
  for_merchant-done none existing reply s t known used h =
      let (replied, after) = pure-last _ _ (modify-ok _ _ s h) in
      inl (ap (λ (x : Db). x.payment_requests) after, replied, known)
  for_merchant-done (some m) (some old) reply s t known used h =
      let h₁ =
        subst (λ o. create_or_replay fresh tenant request context o s ≡ (ok reply, t)) used
          (gets-ok _ _ s h) in
      let (same, replayed) = replayed-IsReplay old reply s t h₁ in
      inr (inl (old, same, used, replayed))
  for_merchant-done (some m) none reply s t known used h =
      let h₁ =
        subst (λ o. create_or_replay fresh tenant request context o s ≡ (ok reply, t)) used
          (gets-ok _ _ s h) in
      inr (inr (used, create-IsCreated reply s t h₁))

  pub request_done :
      (reply : Reply) (s t : Db)
      → create_payment_request_for_context fresh tenant request context s ≡ (ok reply, t)
      → RequestDone reply s t
  unfolding create_payment_request_for_context
  request_done reply s t h =
      for_merchant-done _ _ reply s t refl refl (gets-ok _ _ s (atomically-ok _ s h))

-- A stored request keeps its key, whatever requests follow.
module _ (tenant : Uuid) (key : Text) (row : PaymentRequest) where
  abbrev pub HasStored : Db → Type 0
  HasStored s = find (has_key tenant key) s.payment_requests ≡ some row

  -- A row is put on top only under a key that was not used.
  new_row :
      (a : PaymentRequest) (rows : List PaymentRequest)
      → find (has_key a.tenant_id a.idempotency_key) rows ≡ none
      → find (has_key tenant key) rows ≡ some row
      → find (has_key tenant key) (a ∷ rows) ≡ some row
  unfolding find
  new_row a rows unused h = elim (Bool-cases (has_key tenant key a)) [
    | inl hit ↦
        let same_tenant : a.tenant_id ≡ tenant = ground arith in
        let same_key : a.idempotency_key ≡ key = ground arith in
        absurd (cc (sym unused ∙ (λ j. find (has_key (same_tenant j) (same_key j)) rows) ∙ h))
    | inr miss ↦ rw miss h
  ]

  pub request-Keeps_stored :
      (fresh : Fresh) (owner : Uuid) (request : PaymentRequestCreate)
      (context : Option CatalogPurchaseContext)
      → Keeps HasStored (create_payment_request_for_context fresh owner request context)
  unfolding create_payment_request_for_context
  request-Keeps_stored fresh owner request context = Keeps-atomically_ok _ (λ s reply t h e.
      elim (request_done fresh owner request context reply s t e) [
        | inl (same, _, _) ↦ ap (find (has_key tenant key)) same ∙ h
        | inr (inl (old, same, _, _)) ↦ ap (find (has_key tenant key)) same ∙ h
        | inr (inr (unused, (d, rows, _))) ↦
            ap (find (has_key tenant key)) rows
            ∙ new_row (request_row fresh owner request context d) s.payment_requests unused h
      ])
