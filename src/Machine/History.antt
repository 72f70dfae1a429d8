-- ===== src/Machine/History.antt =====
-- Histories of calls to `transition` (state_machine/transitions.py): any payments, any target
-- states, any approvals, in any order, some of which raise.
use mathlib.Core.Option
use trust_gate_merchant_copi.Base.{
  ◌≡◌, refl, sym, ap, ◌∙◌, subst, ◌⊎◌, inl, inr, true, Option, some, List, [], ◌∷◌, if◌then◌else◌,
  arith, All, find, find-update_where, find-holds, Bool-cases,
}
use trust_gate_merchant_copi.Models.{Uuid, State, Reason, Payment, Db, is_payment}
use trust_gate_merchant_copi.Chain.Rows.{Env}
use trust_gate_merchant_copi.Machine.Transition.{set_state, transition}
use trust_gate_merchant_copi.Machine.Outcome.{Moved, transition-outcome}
use trust_gate_merchant_copi.Machine.Lifecycle.{Step, IsValid-iff}

-- One call to `transition`.
pub record Attempt : Type 0 where
  pub env : Env
  pub tenant : Uuid
  pub payment : Uuid
  pub to : State
  pub reason : Reason
  pub correlation : Uuid
  pub approval : Option Uuid

unfoldable pub try_transition : Attempt → Db → Db
try_transition a s =
    (transition a.env a.tenant a.payment a.to a.reason a.correlation a.approval s).1

unfoldable pub try_all : List Attempt → Db → Db
try_all [] s = s
try_all (a ∷ rest) s = try_all rest (try_transition a s)

-- The attempt is one on the payment `i`.
abbrev pub IsOn : Uuid → Uuid → Attempt → Type 0
IsOn tenant i a = (a.tenant ≡ tenant) × (a.payment ≡ i)

module _ (tenant i : Uuid) where
  -- What a call does to the payment `i`: nothing, or one step that the call asked for.
  abbrev StepBy : Attempt → Payment → Payment → Type 0
  StepBy a p q = (q ≡ p) ⊎ (IsOn tenant i a × Step p.state a.to × (q ≡ set_state a.to p))

  same_key :
      (a : Attempt) (p q : Payment)
      → is_payment tenant i p ≡ true
      → is_payment a.tenant a.payment q ≡ true
      → is_payment q.tenant_id q.id p ≡ true
      → IsOn tenant i a
  same_key a p q here there hit = (ground arith, ground arith)

  same_row :
      (a : Attempt) (s : Db) (p q : Payment)
      → a.tenant ≡ tenant
      → a.payment ≡ i
      → find (is_payment tenant i) s.payments ≡ some p
      → find (is_payment a.tenant a.payment) s.payments ≡ some q
      → p ≡ q
  same_row a s p q e e' found found' = cc

  Moved-step :
      (a : Attempt) (s t : Db) (p : Payment)
      → Moved a.tenant a.payment a.to s t
      → find (is_payment tenant i) s.payments ≡ some p
      → (q : Payment) × (find (is_payment tenant i) t.payments ≡ some q) × StepBy a p q
  Moved-step a s t p m found =
      let moved = is_payment m.payment.tenant_id m.payment.id in
      let after : find (is_payment tenant i) t.payments
          ≡ some (if moved p then set_state a.to p else p) =
        ap (find (is_payment tenant i)) m.payments
        ∙ find-update_where moved (is_payment tenant i) (set_state a.to) (λ x. refl) s.payments
        ∙ ap (Option.map (λ x. if moved x then set_state a.to x else x)) found in
      let here = find-holds (is_payment tenant i) s.payments found in
      let there = find-holds (is_payment a.tenant a.payment) s.payments m.found in
      elim (Bool-cases (moved p)) [
        | inl hit ↦
            let (same_tenant, same_payment) = same_key a p m.payment here there hit in
            let same : p ≡ m.payment =
              same_row a s p m.payment same_tenant same_payment found m.found in
            (
              set_state a.to p,
              after ∙ ap some (rw hit),
              inr (
                (same_tenant, same_payment),
                subst (λ (x : Payment). Step x.state a.to) (sym same)
                    ((IsValid-iff m.payment a.to).0 m.valid).step,
                refl,
              ),
            )
        | inr miss ↦ (p, after ∙ ap some (rw miss), inl refl)
      ]

  try-step :
      (a : Attempt) (s : Db) (p : Payment)
      → find (is_payment tenant i) s.payments ≡ some p
      → (q : Payment) × (find (is_payment tenant i) (try_transition a s).payments ≡ some q)
        × StepBy a p q
  unfolding try_transition
  try-step a s p found =
      elim (transition-outcome a.env a.tenant a.payment a.to a.reason a.correlation a.approval s _ _
        refl) [
          | inl (_, m) ↦ Moved-step a s _ p m found
          | inr (_, _, u) ↦ (p, ap (find (is_payment tenant i)) u.payments ∙ found, inl refl)
        ]

  -- A property of payments that every step an attempt asks for keeps, the whole history keeps.
  pub history_invariant :
      (I : Payment → Type 0) (attempts : List Attempt) (s : Db) (p : Payment)
      → All
          (λ a. (q : Payment) → IsOn tenant i a → Step q.state a.to → I q → I (set_state a.to q))
          attempts
      → find (is_payment tenant i) s.payments ≡ some p
      → I p
      → (q : Payment) × (find (is_payment tenant i) (try_all attempts s).payments ≡ some q) × I q
  unfolding try_all
  history_invariant I [] s p steps found h = (p, found, h)
  history_invariant I (a ∷ rest) s p steps found h =
      let (q, found', step) = try-step a s p found in
      history_invariant I rest (try_transition a s) q steps.1 found' (elim step [
        | inl e ↦ subst I (sym e) h
        | inr (on, legal, e) ↦ subst I (sym e) (steps.0 p on legal h)
      ])
