-- ===== src/Requests/Claims.antt =====
-- What the claim of the two budgets has done (api/routes/payment_requests.py): both, or neither.
use trust_gate_merchant_copi.Base.{
  ℕ, ◌≡◌, ◌≢◌, refl, sym, ap, ◌∙◌, subst, ◌⊎◌, inl, inr, true, Option, none, some, List, Bool-cases,
}
use trust_gate_merchant_copi.Models.{
  Uuid, Decision, allow, deny, require_approval, Delegation, DelegationSpend, AuditEvent, Db,
  delegation_refused, state_machine_error, authority_error, database_error, http_error,
  runtime_error, validation_error, paytm_unavailable, attribute_error,
}
use trust_gate_merchant_copi.Session.{Result, ok, err, Action, add_audit}
use trust_gate_merchant_copi.Session.Keeps.{Keeps, Keeps-bind, Keeps-pure, keeps_rules}
use trust_gate_merchant_copi.Session.Returns.{bind-ok, pure-last}
use trust_gate_merchant_copi.Chain.Grants.{spend-Keeps}
use trust_gate_merchant_copi.Policy.{PolicyDecision, reserve_daily_spend}
use trust_gate_merchant_copi.Requests.{PaymentRequestCreate, CatalogPurchaseContext, Fresh}
use trust_gate_merchant_copi.Requests.Budgets.{
  Claim, claimed, refusal, claim_delegation, claim_body, end_claim, claim_budgets,
  claim_if_permitted,
}

-- A claim that returns either refused and changed nothing, or its body returned what it claimed.
abbrev ClaimEnd : Action Claim → Db → Claim → Db → Type 0
ClaimEnd body s (claimed d) t = body s ≡ (ok (claimed d), t)
ClaimEnd body s (refusal r) t = t ≡ s

end_claim-ok :
    (r : Result Claim) (s' s : Db) (c : Claim) {t : Db}
    → end_claim r s' s ≡ (ok c, t)
    → ClaimEnd (λ _. (r, s')) s c t
end_claim-ok (ok (claimed d)) s' s (claimed e) h = h
end_claim-ok (ok (claimed d)) s' s (refusal r) h =
    absurd (cc (ap (λ (p : Result Claim × Db). p.0) h))
end_claim-ok (ok (refusal q)) s' s (claimed e) h =
    absurd (cc (ap (λ (p : Result Claim × Db). p.0) h))
end_claim-ok (ok (refusal q)) s' s (refusal r) h = sym (ap (λ (p : Result Claim × Db). p.1) h)
end_claim-ok (err (delegation_refused q)) s' s (claimed e) h =
    absurd (cc (ap (λ (p : Result Claim × Db). p.0) h))
end_claim-ok (err (delegation_refused q)) s' s (refusal r) h =
    sym (ap (λ (p : Result Claim × Db). p.1) h)
end_claim-ok (err (state_machine_error q)) s' s c h =
    absurd (cc (ap (λ (p : Result Claim × Db). p.0) h))
end_claim-ok (err (authority_error q)) s' s c h =
    absurd (cc (ap (λ (p : Result Claim × Db). p.0) h))
end_claim-ok (err (database_error q)) s' s c h = absurd (cc (ap (λ (p : Result Claim × Db). p.0) h))
end_claim-ok (err (http_error q)) s' s c h = absurd (cc (ap (λ (p : Result Claim × Db). p.0) h))
end_claim-ok (err runtime_error) s' s c h = absurd (cc (ap (λ (p : Result Claim × Db). p.0) h))
end_claim-ok (err validation_error) s' s c h = absurd (cc (ap (λ (p : Result Claim × Db). p.0) h))
end_claim-ok (err paytm_unavailable) s' s c h = absurd (cc (ap (λ (p : Result Claim × Db). p.0) h))
end_claim-ok (err attribute_error) s' s c h = absurd (cc (ap (λ (p : Result Claim × Db). p.0) h))

module _ (fresh : Fresh) (tenant : Uuid) (request : PaymentRequestCreate) where
  -- The amount was reserved for the actor's day, and nothing touched the reservation after.
  pub record Reserved (version : ℕ) (s t : Db) : Type 0 where
    pub reserved : Db
    pub reservation :
        reserve_daily_spend tenant request.actor_id request.amount_minor version fresh.env.now s
        ≡ (ok true, reserved)
    pub same : t.reservations ≡ reserved.reservations

module _ (fresh : Fresh) (tenant : Uuid) (request : PaymentRequestCreate)
    (context : Option CatalogPurchaseContext) (held : Option Delegation) where
  claim_delegation-Keeps :
      (P : Db → Type 0) (audits : (e : AuditEvent) (s : Db) → P s → P (add_audit e s))
      (delegations : (f : Db → List Delegation) (s : Db) → P s → P (record s { delegations = f s }))
      (spends : (f : Db → List DelegationSpend) (s : Db)
        → P s
        → P (record s { delegation_spends = f s }))
      (c : Option CatalogPurchaseContext) (h : Option Delegation)
      → Keeps P (claim_delegation fresh tenant request c h)
  unfolding claim_delegation
  claim_delegation-Keeps P audits delegations spends c none = search keeps_rules
  claim_delegation-Keeps P audits delegations spends none (some h) = search keeps_rules
  claim_delegation-Keeps P audits delegations spends (some c) (some h) =
      Keeps-bind _ _ (spend-Keeps P audits delegations spends fresh.env _ _ _ _ _ _)
        (λ _. Keeps-pure _)

  claim_body-ok :
      (version : ℕ) (s : Db) (d : Option Uuid) {t : Db}
      → claim_body fresh tenant request context held version s ≡ (ok (claimed d), t)
      → Reserved fresh tenant request version s t
  unfolding claim_body
  claim_body-ok version s d {t = t} h =
      let (b, s₁, h₁, h₂) = bind-ok _ _ s h in
      elim (Bool-cases b) [
        | inl e ↦
            let h₃ : claim_delegation fresh tenant request context held s₁ ≡ (ok (claimed d), t) =
              rw e at h₂ in
            record {
              reserved = s₁;
              reservation = h₁ ∙ (λ j. (ok (e j), s₁));
              same =
                  subst (λ x. x.reservations ≡ s₁.reservations)
                    (ap (λ (p : Result Claim × Db). p.1) h₃)
                    ((claim_delegation-Keeps (λ x. x.reservations ≡ s₁.reservations) (λ e x k. k)
                        (λ f x k. k) (λ f x k. k) context held).at
                      s₁ refl);
            }
        | inr e ↦ absurd (cc ((pure-last _ s₁ (rw e at h₂)).0))
      ]

  -- What a claim has done, given the decision of the policy.
  abbrev pub ClaimDone : PolicyDecision → Claim → Db → Db → Type 0
  ClaimDone result (claimed d) s t =
      ((result.decision ≡ deny) × (t ≡ s))
      ⊎ ((result.decision ≢ deny) × Reserved fresh tenant request result.policy_version s t)
  ClaimDone result (refusal r) s t = t ≡ s

  claim_budgets-done :
      (result : PolicyDecision) (c : Claim) (s : Db) {t : Db}
      → result.decision ≢ deny
      → claim_budgets fresh tenant request context held result.policy_version s ≡ (ok c, t)
      → ClaimDone result c s t
  unfolding claim_budgets
  claim_budgets-done result (claimed d) s not_denied h = inr (
    not_denied,
    claim_body-ok result.policy_version s d (
        end_claim-ok (claim_body fresh tenant request context held result.policy_version s).0
          (claim_body fresh tenant request context held result.policy_version s).1 s (claimed d) h),
  )
  claim_budgets-done result (refusal r) s not_denied h =
      end_claim-ok (claim_body fresh tenant request context held result.policy_version s).0
        (claim_body fresh tenant request context held result.policy_version s).1 s (refusal r) h

  pub claim_if_permitted-done :
      (result : PolicyDecision) (decision : Decision) (c : Claim) (s : Db) {t : Db}
      → result.decision ≡ decision
      → claim_if_permitted fresh tenant request context held result decision s ≡ (ok c, t)
      → ClaimDone result c s t
  unfolding claim_if_permitted
  claim_if_permitted-done result deny (claimed d) s e h = inl (e, (pure-last _ s h).1)
  claim_if_permitted-done result deny (refusal r) s e h = (pure-last _ s h).1
  claim_if_permitted-done result allow c s e h =
      claim_budgets-done result c s (λ denied. cc (sym e ∙ denied)) h
  claim_if_permitted-done result require_approval c s e h =
      claim_budgets-done result c s (λ denied. cc (sym e ∙ denied)) h
