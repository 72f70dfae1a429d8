-- ===== src/Machine/Outcome.antt =====
-- `transition` (state_machine/transitions.py) either makes one legal change of one payment's state,
-- or raises and leaves the payments and the budgets alone.
use trust_gate_merchant_copi.Base.{
  ◌≡◌, refl, sym, ap, ◌∙◌, subst, ◌⊎◌, inl, inr, Option, none, some, List, arith, find,
  update_where,
}
use trust_gate_merchant_copi.Models.{
  Uuid, State, StateCode, Reason, Error, Payment, AuditEvent, Time, Db, is_payment,
}
use trust_gate_merchant_copi.Session.{Result, ok, err, pure, raise, add_audit}
use trust_gate_merchant_copi.Session.Keeps.{Keeps, Keeps-bind}
use trust_gate_merchant_copi.Session.Returns.{
  bind-cases, bind-ok, gets-ok, or_raise-ok, modify-ok, pure-last, atomically-ok, atomically-err,
}
use trust_gate_merchant_copi.Chain.Rows.{Env}
use trust_gate_merchant_copi.Machine.Legal.{validate_transition}
use trust_gate_merchant_copi.Machine.Transition.{
  is_open_approval, consume_at, machine_error, raise_code, guard_transition, caught, set_state,
  return_budgets, accept_transition, finish_transition, transition_block, transition,
}
use trust_gate_merchant_copi.Machine.Untouched.{
  Untouched, Untouched-refl, audit-Keeps, refuse_transition-Keeps, guard_transition-Keeps,
  return_budgets-Keeps,
}

-- The payment `i` was legally in a state from which it moved to `to`; no other payment moved.
pub record Moved (tenant i : Uuid) (to : State) (s t : Db) : Type 0 where
  pub payment : Payment
  pub found : find (is_payment tenant i) s.payments ≡ some payment
  pub valid : validate_transition payment to ≡ none
  pub payments :
      t.payments ≡ update_where (is_payment payment.tenant_id payment.id) (set_state to) s.payments

untouch_audit : (s : Db) (e : AuditEvent) (t : Db) → Untouched s t → Untouched s (add_audit e t)
untouch_audit s e t h = record {
  payments = h.payments;
  payment_requests = h.payment_requests;
  reservations = h.reservations;
  delegations = h.delegations;
  delegation_spends = h.delegation_spends;
}

untouch_approvals :
    (s : Db) (tenant i request : Uuid) (now : Time) (t : Db)
    → Untouched s t
    → Untouched s (record t {
      approvals = update_where (is_open_approval tenant i request) (consume_at now) t.approvals;
    })
untouch_approvals s tenant i request now t h = record {
  payments = h.payments;
  payment_requests = h.payment_requests;
  reservations = h.reservations;
  delegations = h.delegations;
  delegation_spends = h.delegation_spends;
}

caught-none : (r : Result (Unit {0})) → caught r ≡ ok none → r ≡ ok tt
caught-none r h = ground arith

caught-some :
    (r : Result (Unit {0})) (c : StateCode) → caught r ≡ ok (some c) → r ≡ err (machine_error c)
caught-some r c h = ground arith

pub raise_code-ok :
    (o : Option StateCode) (s : Db) {u : Unit {0}} {t : Db}
    → raise_code o s ≡ (ok u, t)
    → (o ≡ none) × (t ≡ s)
unfolding pure raise
raise_code-ok none s h = (refl, sym (ap (λ (p : Result (Unit {0}) × Db). p.1) h))
raise_code-ok (some c) s h = absurd (cc (ap (λ (p : Result (Unit {0}) × Db). p.0) h))

-- The guards passed: they returned, and what they check holds.
guard_transition-ok :
    (env : Env) (payment : Payment) (to : State) (correlation : Uuid) (o : Option Uuid) (s : Db)
    {u : Unit {0}} {t : Db}
    → guard_transition env payment to correlation o s ≡ (ok u, t)
    → validate_transition payment to ≡ none
unfolding guard_transition
guard_transition-ok env payment to correlation o s h =
    let (_, s₁, _, h₁) = bind-ok _ _ s h in (raise_code-ok _ s₁ h₁).0

guard_transition-Untouched :
    (env : Env) (payment : Payment) (to : State) (correlation : Uuid) (o : Option Uuid) (s : Db)
    → Untouched s (guard_transition env payment to correlation o s).1
guard_transition-Untouched env payment to correlation o s =
    (guard_transition-Keeps (Untouched s) (untouch_audit s) (untouch_approvals s) env payment to
        correlation o).at
      s (Untouched-refl s)

-- The state change, and what follows it.
accept_transition-ok :
    (env : Env) (payment : Payment) (to : State) (reason : Reason) (correlation : Uuid) (s : Db)
    {u : Unit {0}} {t : Db}
    → accept_transition env payment to reason correlation s ≡ (ok u, t)
    → t.payments ≡ update_where (is_payment payment.tenant_id payment.id) (set_state to) s.payments
unfolding accept_transition
accept_transition-ok env payment to reason correlation s h =
    subst HasRows (ap (λ (p : Result (Unit {0}) × Db). p.1) (modify-ok _ _ s h)) (
      (Keeps-bind _ _ budgets (λ _. audit-Keeps HasRows (λ e t h. h) _)).at
        (record s { payments = rows }) refl)
  where
    rows : List Payment
    rows = update_where (is_payment payment.tenant_id payment.id) (set_state to) s.payments

    HasRows : Db → Type 0
    HasRows t = t.payments ≡ rows

    budgets : Keeps HasRows (return_budgets env payment to correlation)
    budgets =
        return_budgets-Keeps HasRows (λ e t h. h) (λ f t h. h) (λ f t h. h) (λ f t h. h) env payment
          to correlation

module _ (env : Env) (tenant i : Uuid) (to : State) (reason : Reason) (correlation : Uuid)
    (o : Option Uuid) (s : Db) where
  -- The guards passed, and the change was made.
  pub record Accepted (t : Db) : Type 0 where
    pub payment : Payment
    pub found : find (is_payment tenant i) s.payments ≡ some payment
    pub guarded : Db
    pub passed : guard_transition env payment to correlation o s ≡ (ok tt, guarded)
    pub accepted : accept_transition env payment to reason correlation guarded ≡ (ok tt, t)

  -- The guards touched neither payments nor budgets.
  pub guarded-Untouched : (t : Db) (a : Accepted t) → Untouched s a.guarded
  guarded-Untouched t a =
      subst (Untouched s) (ap (λ (p : Result (Unit {0}) × Db). p.1) a.passed)
        (guard_transition-Untouched env a.payment to correlation o s)

  Accepted-Moved : (t : Db) → Accepted t → Moved tenant i to s t
  Accepted-Moved t a =
      let same = guarded-Untouched t a in
      record {
        payment = a.payment;
        found = a.found;
        valid = guard_transition-ok env a.payment to correlation o s a.passed;
        payments =
            accept_transition-ok env a.payment to reason correlation a.guarded a.accepted
            ∙ ap (update_where (is_payment a.payment.tenant_id a.payment.id) (set_state to))
                same.payments;
      }

  -- What the block has done once it returns.
  abbrev BlockDone : Option StateCode → Db → Type 0
  BlockDone none t = Accepted t
  BlockDone (some c) t = Untouched s t

  finish-done :
      (payment : Payment) (guarded error : Option StateCode) (s₁ : Db) {t : Db}
      → find (is_payment tenant i) s.payments ≡ some payment
      → Untouched s s₁
      → (guarded ≡ none → guard_transition env payment to correlation o s ≡ (ok tt, s₁))
      → finish_transition env payment to reason correlation guarded s₁ ≡ (ok error, t)
      → BlockDone error t
  unfolding finish_transition
  finish-done payment none error s₁ {t = t} found same passed h =
      let (_, s₂, h₁, h₂) = bind-ok _ _ s₁ h in
      let (e, q) = pure-last _ _ h₂ in
      subst (λ x. BlockDone x t) (sym e)
        (record {
          payment = payment;
          found = found;
          guarded = s₁;
          passed = passed refl;
          accepted =
              subst (λ x. accept_transition env payment to reason correlation s₁ ≡ (ok tt, x))
                (sym q) h₁;
        })
  finish-done payment (some c) error s₁ {t = t} found same passed h =
      let (_, s₂, h₁, h₂) = bind-ok _ _ s₁ h in
      let (e, q) = pure-last _ _ h₂ in
      let after =
        (refuse_transition-Keeps (Untouched s) (untouch_audit s) payment to reason correlation c).at
          s₁ same in
      subst (λ x. BlockDone x t) (sym e)
        (subst (Untouched s) (ap (λ (p : Result (Unit {0}) × Db). p.1) h₁ ∙ sym q) after)

  block-done :
      (error : Option StateCode) {t : Db}
      → transition_block env tenant i to reason correlation o s ≡ (ok error, t)
      → BlockDone error t
  unfolding transition_block
  block-done error h =
      let (payment, found, h₁) = or_raise-ok _ _ _ s (gets-ok _ _ s h) in
      let (guarded, s₁, h₂, h₃) = bind-ok _ _ s h₁ in
      finish-done payment guarded error s₁ found
        (subst (Untouched s) (ap (λ (p : Result (Option StateCode) × Db). p.1) h₂)
          (guard_transition-Untouched env payment to correlation o s))
        (λ none_raised j. (
          caught-none (guard_transition env payment to correlation o s).0
              (ap (λ (p : Result (Option StateCode) × Db). p.0) h₂ ∙ ap ok none_raised) j,
          (h₂ j).1,
        ))
        h₃

  raised :
      (error : Option StateCode) (s' : Db) {r : Result (Unit {0})} {t : Db}
      → BlockDone error s'
      → raise_code error s' ≡ (r, t)
      → ((r ≡ ok tt) × Moved tenant i to s t) ⊎ ((e : Error) × (r ≡ err e) × Untouched s t)
  unfolding pure raise
  raised none s' {t = t} d h = inl (
    sym (ap (λ (p : Result (Unit {0}) × Db). p.0) h),
    Accepted-Moved t (subst Accepted (ap (λ (p : Result (Unit {0}) × Db). p.1) h) d),
  )
  raised (some c) s' d h = inr (
    machine_error c,
    sym (ap (λ (p : Result (Unit {0}) × Db). p.0) h),
    subst (Untouched s) (ap (λ (p : Result (Unit {0}) × Db). p.1) h) d,
  )

  -- A transition either returns, and then the payment was in the tenant, the change was legal and
  -- its amounts were in order, and its state alone among the payments has changed; or it raises, and
  -- then no payment, no request and no budget has changed, whatever else it wrote.
  pub transition-outcome :
      (r : Result (Unit {0})) (t : Db)
      → transition env tenant i to reason correlation o s ≡ (r, t)
      → ((r ≡ ok tt) × Moved tenant i to s t) ⊎ ((e : Error) × (r ≡ err e) × Untouched s t)
  unfolding transition
  transition-outcome r t h = elim (bind-cases _ _ s h) [
    | inl (error, s', h₁, h₂) ↦ raised error s' (block-done error (atomically-ok _ s h₁)) h₂
    | inr (e, h₁, q) ↦
        inr (e, q, subst (Untouched s) (sym (atomically-err _ s h₁)) (Untouched-refl s))
  ]

  pub transition-Accepted :
      {u : Unit {0}} {t : Db}
      → transition env tenant i to reason correlation o s ≡ (ok u, t)
      → Accepted t
  unfolding transition
  transition-Accepted {t = t} h =
      let (error, s', h₁, h₂) = bind-ok _ _ s h in
      let (none_raised, same) = raise_code-ok error s' h₂ in
      subst Accepted (sym same)
        (subst (λ x. BlockDone x s') none_raised (block-done error (atomically-ok _ s h₁)))
