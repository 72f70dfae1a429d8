-- ===== src/Machine/Budget.antt =====
-- The budgets that `transition` returns (`_release_reserved_budget` and `_release_delegated_budget`
-- of state_machine/transitions.py).
use trust_gate_merchant_copi.Base.{
  ◌≡◌, refl, sym, ap, ◌∙◌, subst, inl, inr, Bool-cases, Bool, true, false, ◌&&◌, Option, some,
  if◌then◌else◌, pos, ◌-ℤ◌, ◌<ℤ◌, max_ℤ, find, update_where,
}
use trust_gate_merchant_copi.Models.{
  Uuid, State, created, needs_approval, authorized, provider_pending, captured, denied, expired,
  failed, refunded, partially_refunded, cancelled, Reason, date, Payment, PaymentRequest, Db,
  is_payment, is_request,
}
use trust_gate_merchant_copi.Session.{Result, ok, pure, ◌>>=◌}
use trust_gate_merchant_copi.Session.Keeps.{Keeps, Keeps-bind, Keeps-pure, Keeps-modify}
use trust_gate_merchant_copi.Session.Returns.{bind-ok, gets-ok, modify-ok, modify-last, pure-last}
use trust_gate_merchant_copi.Policy.{daily_spend}
use trust_gate_merchant_copi.Policy.Reservation.{release_floor, daily-reservations}
use trust_gate_merchant_copi.Chain.Rows.{Env}
use trust_gate_merchant_copi.Machine.Legal.{releases_budget, holds_reservation, member_state}
use trust_gate_merchant_copi.Machine.Transition.{
  set_state, release_for_request, release_reserved_budget, release_delegated_budget, return_budgets,
  accept_transition, transition,
}
use trust_gate_merchant_copi.Machine.Untouched.{audit-Keeps, release_delegated_budget-Keeps}
use trust_gate_merchant_copi.Machine.Outcome.{guarded-Untouched, transition-Accepted}

-- The change of state gives budgets back.
abbrev pub gives_back : Payment → State → Bool
gives_back p to = releases_budget to && holds_reservation p.state

-- The states in which a payment holds budgets.
pub data HoldsBudgets : State → Type 0 where
  waiting_holds : HoldsBudgets needs_approval
  authorized_holds : HoldsBudgets authorized
  pending_holds : HoldsBudgets provider_pending

-- The states that end a payment with nothing spent.
pub data NeverSpends : State → Type 0 where
  denied_spends_none : NeverSpends denied
  expired_spends_none : NeverSpends expired
  failed_spends_none : NeverSpends failed
  cancelled_spends_none : NeverSpends cancelled

holds_lem : (s : State) → holds_reservation s ≡ true → HoldsBudgets s
unfolding holds_reservation member_state
holds_lem needs_approval h = waiting_holds
holds_lem authorized h = authorized_holds
holds_lem provider_pending h = pending_holds
holds_lem created h = absurd (cc h)
holds_lem captured h = absurd (cc h)
holds_lem denied h = absurd (cc h)
holds_lem expired h = absurd (cc h)
holds_lem failed h = absurd (cc h)
holds_lem refunded h = absurd (cc h)
holds_lem partially_refunded h = absurd (cc h)
holds_lem cancelled h = absurd (cc h)

releases_lem : (s : State) → releases_budget s ≡ true → NeverSpends s
unfolding releases_budget member_state
releases_lem denied h = denied_spends_none
releases_lem expired h = expired_spends_none
releases_lem failed h = failed_spends_none
releases_lem cancelled h = cancelled_spends_none
releases_lem created h = absurd (cc h)
releases_lem needs_approval h = absurd (cc h)
releases_lem authorized h = absurd (cc h)
releases_lem provider_pending h = absurd (cc h)
releases_lem captured h = absurd (cc h)
releases_lem refunded h = absurd (cc h)
releases_lem partially_refunded h = absurd (cc h)

kept_lem :
    (p : Payment) (to : State) → ¬ (HoldsBudgets p.state × NeverSpends to) → gives_back p to ≡ false
kept_lem p to stays = elim (Bool-cases (releases_budget to)) [
  | inr r ↦ rw r refl
  | inl r ↦ elim (Bool-cases (holds_reservation p.state)) [
    | inr q ↦ rw r (rw q refl)
    | inl q ↦ absurd (stays (holds_lem p.state q, releases_lem to r))
  ]
]

-- Daily and delegated budgets are as they were.
pub record SameBudgets (s t : Db) : Type 0 where
  pub reservations : t.reservations ≡ s.reservations
  pub delegations : t.delegations ≡ s.delegations
  pub delegation_spends : t.delegation_spends ≡ s.delegation_spends

accept-SameBudgets :
    (env : Env) (p : Payment) (to : State) (reason : Reason) (correlation : Uuid) (s : Db)
    → gives_back p to ≡ false
    → SameBudgets s (accept_transition env p to reason correlation s).1
unfolding accept_transition return_budgets
accept-SameBudgets env p to reason correlation s keeps =
    (Keeps-bind _ _
        (Keeps-modify
          (λ x. record x {
            payments = update_where (is_payment p.tenant_id p.id) (set_state to) x.payments;
          })
          (λ x h. record {
            reservations = h.reservations;
            delegations = h.delegations;
            delegation_spends = h.delegation_spends;
          }))
        (λ _.
          Keeps-bind _ _
            (subst
              (λ b. Keeps (SameBudgets s) (
                if b
                then (release_reserved_budget p >>= λ _. release_delegated_budget env p correlation)
                else pure tt))
              (sym keeps) (Keeps-pure tt))
            (λ _.
              audit-Keeps (SameBudgets s)
                (λ e x h. record {
                  reservations = h.reservations;
                  delegations = h.delegations;
                  delegation_spends = h.delegation_spends;
                })
                _))).at
      s (record { reservations = refl; delegations = refl; delegation_spends = refl })

-- The daily budget comes back first; the delegated budget that follows does not touch it.
returned-daily :
    (env : Env) (p : Payment) (correlation : Uuid) (s t : Db) (request : PaymentRequest)
    → find (is_request p.tenant_id p.payment_request_id) s.payment_requests ≡ some request
    → pos 0 <ℤ request.amount_minor
    → (release_reserved_budget p >>= λ _. release_delegated_budget env p correlation) s ≡ (ok tt, t)
    → daily_spend p.tenant_id request.actor_id (date request.created_at) t
      ≡ max_ℤ
          (daily_spend p.tenant_id request.actor_id (date request.created_at) s
            -ℤ request.amount_minor)
          (pos 0)
unfolding release_reserved_budget release_for_request
returned-daily env p correlation s t request asked positive h =
    let (_, s₁, h₁, h₂) = bind-ok _ _ s h in
    let h₃ = subst (λ x. release_for_request p x s ≡ (ok tt, s₁)) asked (gets-ok _ _ s h₁) in
    let (_, s₂, h₄, h₅) = bind-ok _ _ s h₃ in
    let HasRows = λ (x : Db). x.reservations ≡ s₂.reservations in
    let kept : HasRows t = subst HasRows (ap (λ (x : Result (Unit {0}) × Db). x.1) h₂) (
      (release_delegated_budget-Keeps HasRows (λ e x k. k) (λ f x k. k) (λ f x k. k) env p
          correlation).at
        s₁ (ap (λ (x : Db). x.reservations) (pure-last _ s₂ h₅).1)) in
    daily-reservations p.tenant_id request.actor_id (date request.created_at) s₂ t kept
    ∙ release_floor p.tenant_id request.actor_id request.amount_minor (date request.created_at) s
        positive h₄

accept-returned :
    (env : Env) (p : Payment) (to : State) (reason : Reason) (correlation : Uuid) (s : Db) {t : Db}
    (request : PaymentRequest)
    → gives_back p to ≡ true
    → find (is_request p.tenant_id p.payment_request_id) s.payment_requests ≡ some request
    → pos 0 <ℤ request.amount_minor
    → accept_transition env p to reason correlation s ≡ (ok tt, t)
    → daily_spend p.tenant_id request.actor_id (date request.created_at) t
      ≡ max_ℤ
          (daily_spend p.tenant_id request.actor_id (date request.created_at) s
            -ℤ request.amount_minor)
          (pos 0)
unfolding accept_transition return_budgets
accept-returned env p to reason correlation s {t = t} request returns asked positive h =
    let s' = record s {
      payments = update_where (is_payment p.tenant_id p.id) (set_state to) s.payments;
    } in
    let (_, s₁, h₁, h₂) = bind-ok _ _ s' (modify-ok _ _ s h) in
    let returned = returned-daily env p correlation s' s₁ request asked positive (
      subst
        (λ b.
          (if b
              then (release_reserved_budget p >>= λ _. release_delegated_budget env p correlation)
              else pure tt)
            s'
          ≡ (ok tt, s₁))
        returns h₁) in
    daily-reservations p.tenant_id request.actor_id (date request.created_at) s₁ t
      (ap (λ (x : Db). x.reservations) (modify-last _ s₁ h₂))
    ∙ returned
    ∙ ap (λ n. max_ℤ (n -ℤ request.amount_minor) (pos 0))
        (daily-reservations p.tenant_id request.actor_id (date request.created_at) s s' refl)

module _ (env : Env) (tenant i : Uuid) (to : State) (reason : Reason) (correlation : Uuid)
    (o : Option Uuid) (s t : Db) (p : Payment) where
  pub kept_without_return :
      find (is_payment tenant i) s.payments ≡ some p
      → gives_back p to ≡ false
      → transition env tenant i to reason correlation o s ≡ (ok tt, t)
      → SameBudgets s t
  kept_without_return found keeps h =
      let a = transition-Accepted env tenant i to reason correlation o s h in
      let same : a.payment ≡ p = cc (sym a.found ∙ found) in
      let before = guarded-Untouched env tenant i to reason correlation o s t a in
      let after : SameBudgets a.guarded t =
        subst (SameBudgets a.guarded) (ap (λ (x : Result (Unit {0}) × Db). x.1) a.accepted) (
          accept-SameBudgets env a.payment to reason correlation a.guarded
            (ap (λ x. gives_back x to) same ∙ keeps)) in
      record {
        reservations = after.reservations ∙ before.reservations;
        delegations = after.delegations ∙ before.delegations;
        delegation_spends = after.delegation_spends ∙ before.delegation_spends;
      }

  -- An accepted change of state leaves the daily and the delegated budgets as they are, unless it
  -- leads from a state in which a payment holds them (waiting for approval, authorized or with the
  -- provider) to one that never spends them (denied, expired, failed or cancelled): in particular a
  -- capture leaves them, and so does the denial of a new payment.
  pub budgets_kept :
      find (is_payment tenant i) s.payments ≡ some p
      → ¬ (HoldsBudgets p.state × NeverSpends to)
      → transition env tenant i to reason correlation o s ≡ (ok tt, t)
      → SameBudgets s t
  budgets_kept found stays h = kept_without_return found (kept_lem p to stays) h

  -- A change of state from one that holds budgets to one that never spends them returns the
  -- request's amount to its actor, on the day that the request was made, and not below zero.
  pub budget_returned :
      (request : PaymentRequest)
      → find (is_payment tenant i) s.payments ≡ some p
      → gives_back p to ≡ true
      → find (is_request p.tenant_id p.payment_request_id) s.payment_requests ≡ some request
      → pos 0 <ℤ request.amount_minor
      → transition env tenant i to reason correlation o s ≡ (ok tt, t)
      → let day = date request.created_at in
        daily_spend p.tenant_id request.actor_id day t
        ≡ max_ℤ (daily_spend p.tenant_id request.actor_id day s -ℤ request.amount_minor) (pos 0)
  budget_returned request found returns asked positive h =
      let a = transition-Accepted env tenant i to reason correlation o s h in
      let same : a.payment ≡ p = cc (sym a.found ∙ found) in
      let before = guarded-Untouched env tenant i to reason correlation o s t a in
      accept-returned env p to reason correlation a.guarded request returns
        (ap (find (is_request p.tenant_id p.payment_request_id)) before.payment_requests ∙ asked)
        positive
        (subst (λ x. accept_transition env x to reason correlation a.guarded ≡ (ok tt, t)) same
          a.accepted)
      ∙ ap (λ n. max_ℤ (n -ℤ request.amount_minor) (pos 0))
          (daily-reservations p.tenant_id request.actor_id (date request.created_at) s a.guarded
            before.reservations)
