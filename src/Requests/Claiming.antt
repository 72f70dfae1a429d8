-- ===== src/Requests/Claiming.antt =====
-- What the claim of the budgets (api/routes/payment_requests.py) keeps: whatever does not see them.
use trust_gate_merchant_copi.Base.{Option, none, some, List, ℤ, ℕ}
use trust_gate_merchant_copi.Models.{
  Uuid, date, delegation_refused, Decision, allow, deny, require_approval, Delegation,
  DelegationSpend, DailySpendReservation, AuditEvent, SpendingPolicy, Db,
}
use trust_gate_merchant_copi.Session.{Result, ok, err, modify, add_audit}
use trust_gate_merchant_copi.Session.Keeps.{Keeps, Keeps-modify, Keeps-bind, keeps_rules}
use trust_gate_merchant_copi.Policy.{
  PolicyDecision, reserve_daily_spend, reserve_under, upsert_reservation,
}
use trust_gate_merchant_copi.Chain.Grants.{spend-Keeps}
use trust_gate_merchant_copi.Requests.{PaymentRequestCreate, CatalogPurchaseContext, Fresh}
use trust_gate_merchant_copi.Requests.Budgets.{
  Claim, claimed, refusal, claim_delegation, claim_body, end_claim, claim_budgets,
  claim_if_permitted,
}

-- `P` does not see the audit trail and the budgets.
pub record BlindToBudgets (P : Db → Type 0) : Type 0 where
  pub audits : (e : AuditEvent) (s : Db) → P s → P (add_audit e s)
  pub delegations : (f : Db → List Delegation) (s : Db) → P s → P (record s { delegations = f s })
  pub spends :
      (f : Db → List DelegationSpend) (s : Db) → P s → P (record s { delegation_spends = f s })
  pub reservations :
      (f : Db → List DailySpendReservation) (s : Db) → P s → P (record s { reservations = f s })

module _ (P : Db → Type 0) (w : BlindToBudgets P) (fresh : Fresh) (tenant : Uuid)
    (request : PaymentRequestCreate) (context : Option CatalogPurchaseContext) where
  reservations-Keeps :
      (f : Db → List DailySpendReservation)
      → Keeps P (modify (λ s. record s { reservations = f s }))
  reservations-Keeps f = Keeps-modify (λ s. record s { reservations = f s }) (w.reservations f)

  upsert-Keeps :
      (day : ℕ) (limit : ℤ) (o : Option DailySpendReservation)
      → Keeps P (upsert_reservation tenant request.actor_id day request.amount_minor limit o)
  unfolding upsert_reservation
  upsert-Keeps day limit none = search (keeps_rules, reservations-Keeps) depth 8
  upsert-Keeps day limit (some r) = search (keeps_rules, reservations-Keeps) depth 8

  reserve-Keeps :
      (version : ℕ)
      → Keeps P
          (reserve_daily_spend tenant request.actor_id request.amount_minor version fresh.env.now)
  unfolding reserve_daily_spend
  reserve-Keeps version = Keeps-bind _ _ (search keeps_rules) (λ o. reserve_under-Keeps o)
    where
      reserve_under-Keeps :
          (o : Option SpendingPolicy)
          → Keeps P
              (reserve_under tenant request.actor_id request.amount_minor (date fresh.env.now) o)
      reserve_under-Keeps none = search keeps_rules
      reserve_under-Keeps (some p) = search (keeps_rules, upsert-Keeps) depth 8

  claim_delegation-Keeps :
      (c : Option CatalogPurchaseContext) (o : Option Delegation)
      → Keeps P (claim_delegation fresh tenant request c o)
  unfolding claim_delegation
  claim_delegation-Keeps c none = search keeps_rules
  claim_delegation-Keeps none (some d) = search keeps_rules
  claim_delegation-Keeps (some c) (some d) =
      Keeps-bind _ _
        (spend-Keeps P w.audits w.delegations w.spends fresh.env tenant d.id request.amount_minor
          c.snapshot.catalog_sku fresh.request_id (some fresh.correlation_id))
        (λ _. search keeps_rules)

  claim_body-Keeps :
      (o : Option Delegation) (version : ℕ)
      → Keeps P (claim_body fresh tenant request context o version)
  unfolding claim_body
  claim_body-Keeps o version =
      search (keeps_rules, reserve-Keeps, claim_delegation-Keeps context) depth 8

  end_claim-keeps :
      (r : Result Claim) (after before : Db) → P after → P before → P (end_claim r after before).1
  end_claim-keeps (ok (claimed d)) after before h k = h
  end_claim-keeps (ok (refusal r)) after before h k = k
  end_claim-keeps (err (delegation_refused r)) after before h k = k
  end_claim-keeps (err e) after before h k = k

  claim_budgets-Keeps :
      (o : Option Delegation) (version : ℕ)
      → Keeps P (claim_budgets fresh tenant request context o version)
  unfolding claim_budgets
  claim_budgets-Keeps o version = record {
    at = λ s h.
        end_claim-keeps (claim_body fresh tenant request context o version s).0
          (claim_body fresh tenant request context o version s).1 s
          ((claim_body-Keeps o version).at s h) h;
  }

  pub claim-Keeps :
      (o : Option Delegation) (result : PolicyDecision) (d : Decision)
      → Keeps P (claim_if_permitted fresh tenant request context o result d)
  unfolding claim_if_permitted claim_budgets
  claim-Keeps o result deny = search keeps_rules
  claim-Keeps o result allow = claim_budgets-Keeps o result.policy_version
  claim-Keeps o result require_approval = claim_budgets-Keeps o result.policy_version
