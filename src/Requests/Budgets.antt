-- ===== src/Requests/Budgets.antt =====
-- The claim of the two budgets in one savepoint (api/routes/payment_requests.py).
use trust_gate_merchant_copi.Base.{ℕ, Option, none, some, if◌then◌else◌}
use trust_gate_merchant_copi.Models.{
  Uuid, Decision, deny, Reason, policy, daily_limit_exceeded, refused, requires_a_catalog_sku,
  delegation_refused, Delegation, Db,
}
use trust_gate_merchant_copi.Session.{Result, ok, err, Action, pure, ◌>>=◌, ◌>>◌}
use trust_gate_merchant_copi.Policy.{PolicyDecision, reserve_daily_spend}
use trust_gate_merchant_copi.Chain.Spend.{spend}
use trust_gate_merchant_copi.Requests.{PaymentRequestCreate, CatalogPurchaseContext, Fresh}

-- How the claim of the two budgets ended: with the delegation that was debited, if one was, or with
-- a `refusal`.
pub data Claim : Type 0 where
  claimed : Option Uuid → Claim
  refusal : Reason → Claim

unfoldable pub claim_delegation :
    Fresh
    → Uuid
    → PaymentRequestCreate
    → Option CatalogPurchaseContext
    → Option Delegation
    → Action Claim
claim_delegation fresh tenant request context none = pure (claimed none)
claim_delegation fresh tenant request none (some held) = pure (refusal requires_a_catalog_sku)
claim_delegation fresh tenant request (some c) (some held) = do
  spend fresh.env tenant held.id request.amount_minor c.snapshot.catalog_sku fresh.request_id
      (some fresh.correlation_id)
  pure (claimed (some held.id))

-- The body of the `try`.
unfoldable pub claim_body :
    Fresh
    → Uuid
    → PaymentRequestCreate
    → Option CatalogPurchaseContext
    → Option Delegation
    → ℕ
    → Action Claim
claim_body fresh tenant request context held version = do
  reserved ← reserve_daily_spend tenant request.actor_id request.amount_minor version fresh.env.now
  if reserved
      then claim_delegation fresh tenant request context held
      else pure (refusal (policy daily_limit_exceeded))

-- `except DelegationRefused as refused`, and the end of the savepoint: a refusal rolls it back.
abbrev pub end_claim : Result Claim → Db → Db → Result Claim × Db
end_claim (ok (claimed d)) after before = (ok (claimed d), after)
end_claim (ok (refusal r)) after before = (ok (refusal r), before)
end_claim (err (delegation_refused r)) after before = (ok (refusal (refused r)), before)
end_claim (err e) after before = (err e, before)

unfoldable pub claim_budgets :
    Fresh
    → Uuid
    → PaymentRequestCreate
    → Option CatalogPurchaseContext
    → Option Delegation
    → ℕ
    → Action Claim
claim_budgets fresh tenant request context held version s =
    let (r, s') = claim_body fresh tenant request context held version s in end_claim r s' s

-- Only a request that the policy does not deny claims budgets.
unfoldable pub claim_if_permitted :
    Fresh
    → Uuid
    → PaymentRequestCreate
    → Option CatalogPurchaseContext
    → Option Delegation
    → PolicyDecision
    → Decision
    → Action Claim
claim_if_permitted fresh tenant request context held result deny = pure (claimed none)
claim_if_permitted fresh tenant request context held result _ =
    claim_budgets fresh tenant request context held result.policy_version
