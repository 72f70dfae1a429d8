-- ===== src/Machine/Untouched.antt =====
-- What the parts of `transition` (state_machine/transitions.py) leave alone.
use trust_gate_merchant_copi.Base.{◌≡◌, refl, Bool, Option, none, some, List, update_where}
use trust_gate_merchant_copi.Models.{
  Uuid, Time, State, StateCode, Reason, Delegation, DelegationSpend, DailySpendReservation, Payment,
  PaymentRequest, AuditEvent, Db,
}
use trust_gate_merchant_copi.Session.{modify, add_audit}
use trust_gate_merchant_copi.Session.Keeps.{Keeps, Keeps-modify, Keeps-map, keeps_rules}
use trust_gate_merchant_copi.Policy.{release_daily_spend}
use trust_gate_merchant_copi.Chain.Rows.{Env, update_delegations}
use trust_gate_merchant_copi.Chain.Spend.{release}
use trust_gate_merchant_copi.Machine.Transition.{
  is_open_approval, consume_at, consume_approval, require_approval_id, use_approval, raise_code,
  guard_transition, release_for_request, release_reserved_budget, ignore_refusal,
  release_delegated_budget, return_budgets, refuse_transition, accept_transition, finish_transition,
  catch_machine, caught, transition, transition_block,
}

-- Payments, requests and budgets are as they were.
pub record Untouched (s t : Db) : Type 0 where
  pub payments : t.payments ≡ s.payments
  pub payment_requests : t.payment_requests ≡ s.payment_requests
  pub reservations : t.reservations ≡ s.reservations
  pub delegations : t.delegations ≡ s.delegations
  pub delegation_spends : t.delegation_spends ≡ s.delegation_spends

pub Untouched-refl : (s : Db) → Untouched s s
Untouched-refl s = record {
  payments = refl;
  payment_requests = refl;
  reservations = refl;
  delegations = refl;
  delegation_spends = refl;
}

module _ (P : Db → Type 0) (audits : (e : AuditEvent) (s : Db) → P s → P (add_audit e s)) where
  pub audit-Keeps : (e : AuditEvent) → Keeps P (modify (add_audit e))
  audit-Keeps e = Keeps-modify (add_audit e) (audits e)

  pub refuse_transition-Keeps :
      (payment : Payment) (to : State) (reason : Reason) (correlation : Uuid) (c : StateCode)
      → Keeps P (refuse_transition payment to reason correlation c)
  unfolding refuse_transition
  refuse_transition-Keeps payment to reason correlation c = search (keeps_rules, audit-Keeps)

  -- What a consumed approval does not change is kept by the guards.
  module _
      (approvals : (tenant i request : Uuid) (t : Time) (s : Db)
        → P s
        → P (record s {
          approvals = update_where (is_open_approval tenant i request) (consume_at t) s.approvals;
        })) where
    approvals-Keeps :
        (tenant i request : Uuid) (t : Time)
        → Keeps P (
            modify (λ s. record s {
              approvals =
                  update_where (is_open_approval tenant i request) (consume_at t) s.approvals;
            }))
    approvals-Keeps tenant i request t =
        Keeps-modify
          (λ s. record s {
            approvals = update_where (is_open_approval tenant i request) (consume_at t) s.approvals;
          })
          (approvals tenant i request t)

    consume_approval-Keeps :
        (env : Env) (payment : Payment) (i : Uuid) → Keeps P (consume_approval env payment i)
    unfolding consume_approval
    consume_approval-Keeps env payment i = search (keeps_rules, approvals-Keeps) depth 14

    require_approval_id-Keeps :
        (env : Env) (payment : Payment) (correlation : Uuid) (o : Option Uuid)
        → Keeps P (require_approval_id env payment correlation o)
    unfolding require_approval_id
    require_approval_id-Keeps env payment correlation none = search (keeps_rules, audit-Keeps)
    require_approval_id-Keeps env payment correlation (some i) =
        consume_approval-Keeps env payment i

    raise_code-Keeps : (o : Option StateCode) → Keeps P (raise_code o)
    raise_code-Keeps none = search keeps_rules
    raise_code-Keeps (some c) = search keeps_rules

    pub guard_transition-Keeps :
        (env : Env) (payment : Payment) (to : State) (correlation : Uuid) (o : Option Uuid)
        → Keeps P (guard_transition env payment to correlation o)
    unfolding guard_transition use_approval
    guard_transition-Keeps env payment to correlation o =
        search (keeps_rules, require_approval_id-Keeps, raise_code-Keeps)

-- What does not see delegated budgets is kept by their return.
module _ (P : Db → Type 0) (audits : (e : AuditEvent) (s : Db) → P s → P (add_audit e s))
    (delegations : (f : Db → List Delegation) (s : Db) → P s → P (record s { delegations = f s }))
    (spends : (f : Db → List DelegationSpend) (s : Db)
      → P s
      → P (record s { delegation_spends = f s })) where
  delegations-Keeps :
      (f : Db → List Delegation) → Keeps P (modify (λ s. record s { delegations = f s }))
  delegations-Keeps f = Keeps-modify (λ s. record s { delegations = f s }) (delegations f)

  spends-Keeps :
      (f : Db → List DelegationSpend) → Keeps P (modify (λ s. record s { delegation_spends = f s }))
  spends-Keeps f = Keeps-modify (λ s. record s { delegation_spends = f s }) (spends f)

  update_delegations-Keeps :
      (p : Delegation → Bool) (f : Delegation → Delegation) → Keeps P (update_delegations p f)
  unfolding update_delegations
  update_delegations-Keeps p f = search (keeps_rules, delegations-Keeps) depth 8

  release-Keeps :
      (env : Env) (tenant reference : Uuid) (at : Time) (correlation request : Option Uuid)
      → Keeps P (release env tenant reference at correlation request)
  unfolding release
  release-Keeps env tenant reference at correlation request =
      search (keeps_rules, audit-Keeps P audits, spends-Keeps, update_delegations-Keeps) depth 10

  pub release_delegated_budget-Keeps :
      (env : Env) (payment : Payment) (correlation : Uuid)
      → Keeps P (release_delegated_budget env payment correlation)
  unfolding release_delegated_budget
  release_delegated_budget-Keeps env payment correlation =
      Keeps-map ignore_refusal _ (release-Keeps env _ _ _ _ _)

  -- What does not see the daily budgets either.
  module _
      (reservations : (f : Db → List DailySpendReservation) (s : Db)
        → P s
        → P (record s { reservations = f s })) where
    reservations-Keeps :
        (f : Db → List DailySpendReservation)
        → Keeps P (modify (λ s. record s { reservations = f s }))
    reservations-Keeps f = Keeps-modify (λ s. record s { reservations = f s }) (reservations f)

    release_for_request-Keeps :
        (payment : Payment) (o : Option PaymentRequest) → Keeps P (release_for_request payment o)
    unfolding release_for_request release_daily_spend
    release_for_request-Keeps payment none = search keeps_rules
    release_for_request-Keeps payment (some request) =
        search (keeps_rules, reservations-Keeps) depth 8

    pub return_budgets-Keeps :
        (env : Env) (payment : Payment) (to : State) (correlation : Uuid)
        → Keeps P (return_budgets env payment to correlation)
    unfolding return_budgets release_reserved_budget
    return_budgets-Keeps env payment to correlation =
        search (keeps_rules, release_for_request-Keeps, release_delegated_budget-Keeps) depth 8

    module _
        (payments : (p : Payment → Bool) (f : Payment → Payment) (s : Db)
          → P s
          → P (record s { payments = update_where p f s.payments })) where
      payments-Keeps :
          (p : Payment → Bool) (f : Payment → Payment)
          → Keeps P (modify (λ s. record s { payments = update_where p f s.payments }))
      payments-Keeps p f =
          Keeps-modify (λ s. record s { payments = update_where p f s.payments }) (payments p f)

      pub accept_transition-Keeps :
          (env : Env) (payment : Payment) (to : State) (reason : Reason) (correlation : Uuid)
          → Keeps P (accept_transition env payment to reason correlation)
      unfolding accept_transition
      accept_transition-Keeps env payment to reason correlation =
          search (keeps_rules, payments-Keeps, return_budgets-Keeps, audit-Keeps P audits) depth 8

      -- What none of the writes of `transition` changes, `transition` keeps.
      module _
          (approvals : (tenant i request : Uuid) (t : Time) (s : Db)
            → P s
            → P (record s {
              approvals =
                  update_where (is_open_approval tenant i request) (consume_at t) s.approvals;
            })) where
        finish_transition-Keeps :
            (env : Env) (payment : Payment) (to : State) (reason : Reason) (correlation : Uuid)
            (error : Option StateCode)
            → Keeps P (finish_transition env payment to reason correlation error)
        unfolding finish_transition
        finish_transition-Keeps env payment to reason correlation none =
            search (keeps_rules, accept_transition-Keeps)
        finish_transition-Keeps env payment to reason correlation (some c) =
            search (keeps_rules, refuse_transition-Keeps P audits)

        caught-Keeps :
            (env : Env) (payment : Payment) (to : State) (correlation : Uuid) (o : Option Uuid)
            → Keeps P (catch_machine (guard_transition env payment to correlation o))
        caught-Keeps env payment to correlation o =
            Keeps-map caught _
              (guard_transition-Keeps P audits approvals env payment to correlation o)

        pub transition-Keeps :
            (env : Env) (tenant i : Uuid) (to : State) (reason : Reason) (correlation : Uuid)
            (o : Option Uuid)
            → Keeps P (transition env tenant i to reason correlation o)
        unfolding transition transition_block
        transition-Keeps env tenant i to reason correlation o =
            search
              (
                keeps_rules,
                finish_transition-Keeps,
                caught-Keeps,
                raise_code-Keeps P audits approvals,
              )
              depth 12
