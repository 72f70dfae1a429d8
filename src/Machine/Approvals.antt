-- ===== src/Machine/Approvals.antt =====
-- The approval that a payment's authorization consumes (`_consume_approval` and `transition` of
-- state_machine/transitions.py).
use mathlib.Core.Option
use trust_gate_merchant_copi.Base.{
  ℕ, ◌<◌, ◌≡◌, refl, sym, ap, ◌∙◌, subst, true, false, ◌&&◌, Option, none, some, if◌then◌else◌,
  is_some, arith, find, find-update_where, find-holds,
}
use trust_gate_merchant_copi.Models.{
  Uuid, Time, needs_approval, authorized, state_eq, Reason, SpendingPolicy, Approval, Payment, Db,
  is_payment, Error,
}
use trust_gate_merchant_copi.Session.{Result, ok, pure, raise}
use trust_gate_merchant_copi.Session.Returns.{
  bind-ok, gets-ok, or_raise-ok, raise_if-ok, modify-ok, raise_if-last,
}
use trust_gate_merchant_copi.Policy.{newest_policy}
use trust_gate_merchant_copi.Chain.Rows.{Env}
use trust_gate_merchant_copi.Machine.Untouched.{accept_transition-Keeps}
use trust_gate_merchant_copi.Machine.Outcome.{raise_code-ok, transition-Accepted}
use trust_gate_merchant_copi.Machine.Transition.{
  is_approval, is_open_approval, consume_at, is_other_version, consume_approval,
  require_approval_id, use_approval, guard_transition, transition,
}

-- The approval `a` may be used for the payment at this moment.
pub record IsUsable (now : Time) (payment : Payment) (a : Approval) (s : Db) : Type 0 where
  pub current : SpendingPolicy
  pub request : a.payment_request_id ≡ payment.payment_request_id
  pub unconsumed : a.consumed_at ≡ none
  pub unexpired : now < a.expires_at
  pub newest : newest_policy payment.tenant_id s.policies ≡ some current
  pub version : current.version ≡ a.policy_version

-- An approval was found, and consumed.
pub record Consumed (now : Time) (payment : Payment) (i : Uuid) (s t : Db) : Type 0 where
  pub approval : Approval
  pub found : find (is_approval payment.tenant_id i) s.approvals ≡ some approval
  pub usable : IsUsable now payment approval s
  pub after : find (is_approval payment.tenant_id i) t.approvals ≡ some (consume_at now approval)

version_known :
    (o : Option SpendingPolicy) (version : ℕ)
    → is_other_version o version ≡ false
    → (p : SpendingPolicy) × (o ≡ some p) × (p.version ≡ version)
version_known none version h = absurd (cc)
version_known (some p) version h = (p, refl, ground arith)

not_some : {A : Type 0} (o : Option A) → is_some o ≡ false → o ≡ none
not_some none h = refl
not_some (some a) h = absurd (cc)

consume_approval-ok :
    (env : Env) (payment : Payment) (i : Uuid) (s : Db) {u : Unit {0}} {t : Db}
    → consume_approval env payment i s ≡ (ok u, t)
    → Consumed env.now payment i s t
unfolding consume_approval
consume_approval-ok env payment i s {t = t} h =
    let (a, found, h₁) = or_raise-ok _ _ _ s (gets-ok _ _ s h) in
    let (request, h₂) = raise_if-ok _ _ _ s h₁ in
    let (unconsumed, h₃) = raise_if-ok _ _ _ s h₂ in
    let (unexpired, h₄) = raise_if-ok _ _ _ s h₃ in
    let (other, h₅) = raise_if-ok _ _ _ s (gets-ok _ _ s h₄) in
    let (current, newest, version) =
      version_known (newest_policy payment.tenant_id s.policies) a.policy_version other in
    let (_, result) = raise_if-last _ _ _ (modify-ok _ _ s (gets-ok _ _ s h₅)) in
    let is_key = is_approval payment.tenant_id i in
    let is_open = is_open_approval payment.tenant_id i payment.payment_request_id in
    let opened : is_open a ≡ true =
      ground (arith, find-holds is_key s.approvals found, request, unconsumed) in
    record {
      approval = a;
      found = found;
      usable = record {
        current = current;
        request = ground arith;
        unconsumed = not_some a.consumed_at unconsumed;
        unexpired = ground arith;
        newest = newest;
        version = version;
      };
      after =
          ap (λ (x : Db). find is_key x.approvals) result
          ∙ find-update_where is_open is_key (consume_at env.now) (λ x. refl) s.approvals
          ∙ ap (Option.map (λ x. if is_open x then consume_at env.now x else x)) found
          ∙ ap some (rw opened);
    }

raise-ok : (e : Error) (s : Db) {u : Unit {0}} {t : Db} → raise e s ≡ (ok u, t) → ⊥
unfolding raise
raise-ok e s h = cc (ap (λ (p : Result (Unit {0}) × Db). p.0) h)

-- A payment that waits for approval is authorized only with one.
use_approval-ok :
    (env : Env) (payment : Payment) (correlation : Uuid) (o : Option Uuid) (s : Db) {u : Unit {0}}
    {t : Db}
    → require_approval_id env payment correlation o s ≡ (ok u, t)
    → (i : Uuid) × (o ≡ some i) × Consumed env.now payment i s t
unfolding require_approval_id
use_approval-ok env payment correlation none s h =
    let (_, s₁, _, h₁) = bind-ok _ _ s h in absurd (raise-ok _ s₁ h₁)
use_approval-ok env payment correlation (some i) s h =
    (i, refl, consume_approval-ok env payment i s h)

guard-consumes :
    (env : Env) (payment : Payment) (correlation : Uuid) (o : Option Uuid) (s : Db) {u : Unit {0}}
    {t : Db}
    → payment.state ≡ needs_approval
    → guard_transition env payment authorized correlation o s ≡ (ok u, t)
    → (i : Uuid) × (o ≡ some i) × Consumed env.now payment i s t
unfolding guard_transition use_approval
guard-consumes env payment correlation o s {t = t} waits h =
    let (_, s₁, h₁, h₂) = bind-ok _ _ s h in
    let asks : (state_eq payment.state needs_approval && state_eq authorized authorized) ≡ true =
      ap (λ x. state_eq x needs_approval && state_eq authorized authorized) waits in
    let (i, named, consumed) = use_approval-ok env payment correlation o s (
      subst
        (λ b.
          (if b then require_approval_id env payment correlation o else pure tt) s ≡ (ok tt, s₁))
        asks h₁) in
    (i, named, subst (Consumed env.now payment i s) (sym (raise_code-ok _ s₁ h₂).1) consumed)

-- A payment that waits for approval becomes authorized only by naming an approval of its own
-- request that is unconsumed, unexpired and granted under the tenant's newest policy version, and
-- that approval is consumed with it.
pub authorization_consumes_approval :
    (env : Env) (tenant i : Uuid) (reason : Reason) (correlation : Uuid) (o : Option Uuid)
    (s t : Db) (p : Payment)
    → find (is_payment tenant i) s.payments ≡ some p
    → p.state ≡ needs_approval
    → transition env tenant i authorized reason correlation o s ≡ (ok tt, t)
    → (approval_id : Uuid) × (o ≡ some approval_id) × Consumed env.now p approval_id s t
authorization_consumes_approval env tenant i reason correlation o s t p found waits h =
    let a = transition-Accepted env tenant i authorized reason correlation o s h in
    let same : a.payment ≡ p = cc (sym a.found ∙ found) in
    let (approval_id, named, consumed) = guard-consumes env p correlation o s waits (
      subst (λ x. guard_transition env x authorized correlation o s ≡ (ok tt, a.guarded)) same
        a.passed) in
    (
      approval_id,
      named,
      record {
        approval = consumed.approval;
        found = consumed.found;
        usable = consumed.usable;
        after =
            subst
              (λ x.
                find (is_approval p.tenant_id approval_id) x.approvals
                ≡ some (consume_at env.now consumed.approval))
              (ap (λ (x : Result (Unit {0}) × Db). x.1) a.accepted)
              ((accept_transition-Keeps
                  (λ x.
                    find (is_approval p.tenant_id approval_id) x.approvals
                    ≡ some (consume_at env.now consumed.approval))
                  (λ e x k. k) (λ f x k. k) (λ f x k. k) (λ f x k. k) (λ q f x k. k) env a.payment
                  authorized reason correlation).at
                a.guarded consumed.after);
      },
    )
