-- ===== src/Requests/Record.antt =====
-- The rows and the first transition of a decided request (api/routes/payment_requests.py).
use trust_gate_merchant_copi.Base.{
  ◌≡◌, refl, sym, ap, ◌∙◌, subst, false, Option, none, some, List, ◌∷◌, arith, Bool-cases, inl, inr,
  find,
}
use trust_gate_merchant_copi.Models.{
  Uuid, State, created, Decision, PaymentRequest, AuthorizationDecision, Payment, Db, is_payment,
}
use trust_gate_merchant_copi.Session.{ok}
use trust_gate_merchant_copi.Session.Returns.{
  bind-ok, gets-ok, or_raise-ok, raise_if-ok, modify-ok, modify-last, pure-last,
}
use trust_gate_merchant_copi.Policy.{PolicyDecision}
use trust_gate_merchant_copi.Machine.Legal.{releases_budget, holds_reservation, member_state}
use trust_gate_merchant_copi.Machine.Budget.{SameBudgets, gives_back, kept_without_return}
use trust_gate_merchant_copi.Requests.{
  PaymentRequestCreate, CatalogPurchaseContext, Fresh, Reply, decided, conflict, forbidden,
}
use trust_gate_merchant_copi.Requests.Create.{
  payment_row, target_state, first_reason, record_request, record_payment, record_decision,
}

SameBudgets-trans : (s t u : Db) → SameBudgets s t → SameBudgets t u → SameBudgets s u
SameBudgets-trans s t u h k = record {
  reservations = k.reservations ∙ h.reservations;
  delegations = k.delegations ∙ h.delegations;
  delegation_spends = k.delegation_spends ∙ h.delegation_spends;
}

created_holds_nothing : (p : Payment) (to : State) → p.state ≡ created → gives_back p to ≡ false
unfolding holds_reservation member_state
created_holds_nothing p to e = elim (Bool-cases (releases_budget to)) [
  | inl r ↦ rw r (rw e refl)
  | inr r ↦ rw r refl
]

record_request-SameBudgets :
    (fresh : Fresh) (tenant : Uuid) (row : PaymentRequest) (d : Option Uuid) (s : Db) {u : Unit {0}}
    {t : Db}
    → record_request fresh tenant row d s ≡ (ok u, t)
    → SameBudgets s t
unfolding record_request
record_request-SameBudgets fresh tenant row d s h =
    let (_, h₁) = raise_if-ok _ _ _ s h in
    let (_, h₂) = raise_if-ok _ _ _ s (gets-ok _ _ s h₁) in
    let e = modify-last _ _ (modify-ok _ _ s h₂) in
    record {
      reservations = ap (λ (x : Db). x.reservations) e;
      delegations = ap (λ (x : Db). x.delegations) e;
      delegation_spends = ap (λ (x : Db). x.delegation_spends) e;
    }

record_payment-ok :
    (tenant : Uuid) (payment : Payment) (decision : AuthorizationDecision) (s : Db) {u : Unit {0}}
    {t : Db}
    → record_payment tenant payment decision s ≡ (ok u, t)
    → t ≡ record s { payments = payment ∷ s.payments; decisions = decision ∷ s.decisions }
unfolding record_payment
record_payment-ok tenant payment decision s h =
    let (_, h₁) = raise_if-ok _ _ _ s (gets-ok _ _ s (gets-ok _ _ s h)) in modify-last _ s h₁

abbrev pub decision_in : Reply → Option Decision
decision_in (decided d) = some d.decision
decision_in (conflict d) = some d.decision
decision_in forbidden = none

find-head :
    (fresh : Fresh) (tenant : Uuid) (request : PaymentRequestCreate) (d : Decision)
    (rows : List Payment)
    → find (is_payment tenant fresh.payment_id) (payment_row fresh tenant request d ∷ rows)
      ≡ some (payment_row fresh tenant request d)
unfolding find
find-head fresh tenant request d rows = ground arith

-- Recording a decision moves no budget, and answers with that decision.
pub record_decision-ok :
    (fresh : Fresh) (tenant : Uuid) (request : PaymentRequestCreate)
    (context : Option CatalogPurchaseContext) (d : Option Uuid) (result : PolicyDecision) (s : Db)
    {reply : Reply} {t : Db}
    → record_decision fresh tenant request context d result s ≡ (ok reply, t)
    → SameBudgets s t × (decision_in reply ≡ some result.decision)
unfolding record_decision
record_decision-ok fresh tenant request context d result s {t = t} h =
    let payment = payment_row fresh tenant request result.decision in
    let (_, s₁, h₁, h₂) = bind-ok _ _ s h in
    let (_, s₂, h₃, h₄) = bind-ok _ _ s₁ h₂ in
    let (_, s₃, h₅, h₆) = bind-ok _ _ s₂ h₄ in
    let (moved, _, h₇) = or_raise-ok _ _ _ s₃ (gets-ok _ _ s₃ h₆) in
    let (replied, same) = pure-last _ s₃ h₇ in
    let recorded = record_payment-ok tenant payment _ s₁ h₃ in
    let before : SameBudgets s₁ s₂ = record {
      reservations = ap (λ (x : Db). x.reservations) recorded;
      delegations = ap (λ (x : Db). x.delegations) recorded;
      delegation_spends = ap (λ (x : Db). x.delegation_spends) recorded;
    } in
    let found =
      ap (λ (x : Db). find (is_payment tenant fresh.payment_id) x.payments) recorded
      ∙ find-head fresh tenant request result.decision s₁.payments in
    let after =
      kept_without_return fresh.env tenant payment.id (target_state result.decision)
        (first_reason result.reasons) fresh.correlation_id none s₂ s₃ payment found
        (created_holds_nothing payment (target_state result.decision) refl) h₅ in
    (
      SameBudgets-trans s s₁ t (record_request-SameBudgets fresh tenant _ d s h₁)
          (SameBudgets-trans s₁ s₂ t before (subst (SameBudgets s₂) (sym same) after)),
      ap decision_in replied,
    )
