-- ===== src/Machine/Moves.antt =====
-- The payment that a call to `transition` (state_machine/transitions.py) moved.
use trust_gate_merchant_copi.Base.{
  ◌≡◌, refl, ap, ◌∙◌, inl, inr, Option, some, arith, find, update_where, find-update_where_self,
  find-holds,
}
use trust_gate_merchant_copi.Models.{Uuid, State, Reason, Payment, Db, is_payment}
use trust_gate_merchant_copi.Session.{ok}
use trust_gate_merchant_copi.Chain.Rows.{Env}
use trust_gate_merchant_copi.Machine.Transition.{set_state, transition}
use trust_gate_merchant_copi.Machine.Outcome.{transition-outcome}

pub transition-moves :
    (env : Env) (tenant i : Uuid) (to : State) (reason : Reason) (correlation : Uuid)
    (o : Option Uuid) (s t : Db) (p : Payment)
    → find (is_payment tenant i) s.payments ≡ some p
    → transition env tenant i to reason correlation o s ≡ (ok tt, t)
    → find (is_payment tenant i) t.payments ≡ some (set_state to p)
transition-moves env tenant i to reason correlation o s t p found h =
    elim (transition-outcome env tenant i to reason correlation o s (ok tt) t h) [
      | inl (_, m) ↦
          let here = find-holds (is_payment tenant i) s.payments m.found in
          let same_tenant : m.payment.tenant_id ≡ tenant = ground arith in
          let same_id : m.payment.id ≡ i = ground arith in
          ap (find (is_payment tenant i)) (
            m.payments ∙ (λ j.
              update_where (is_payment (same_tenant j) (same_id j)) (set_state to) s.payments))
          ∙ find-update_where_self (is_payment tenant i) (set_state to) (λ x. refl) s.payments found
      | inr (e, q, _) ↦ absurd (cc q)
    ]
