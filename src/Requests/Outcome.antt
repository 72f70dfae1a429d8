-- ===== src/Requests/Outcome.antt =====
-- A new request (api/routes/payment_requests.py): a denial moves no budget, and anything else
-- reserves exactly the amount, within the day's limit.
use trust_gate_merchant_copi.Base.{
  ◌≡◌, ◌≢◌, refl, sym, ap, ◌∙◌, subst, ◌⊎◌, inl, inr, Bool, true, Option, none, some, arith, ℤ, pos,
  ◌+ℤ◌, ◌≤ℤ◌, find,
}
use trust_gate_merchant_copi.Models.{
  Uuid, Text, Time, Decision, deny, date, SpendingPolicy, Merchant, Delegation, Db,
  is_policy_version,
}
use trust_gate_merchant_copi.Session.{ok}
use trust_gate_merchant_copi.Session.Returns.{bind-ok, gets-ok, atomically-ok}
use trust_gate_merchant_copi.Policy.{
  PolicyDecision, PolicyRules, evaluate_policy_rules, newest_policy, merchant_is_allowed, rules_of,
  daily_spend, evaluate_under, evaluate_payment_request, reserve_daily_spend,
}
use trust_gate_merchant_copi.Policy.Reservation.{reserve_bounded, daily-reservations}
use trust_gate_merchant_copi.Chain.Walk.{active_delegation_for}
use trust_gate_merchant_copi.Machine.Budget.{SameBudgets}
use trust_gate_merchant_copi.Requests.{
  PaymentRequestCreate, CatalogPurchaseContext, Fresh, Reply, has_key,
}
use trust_gate_merchant_copi.Requests.Budgets.{Claim, claimed, refusal}
use trust_gate_merchant_copi.Requests.Create.{
  result_after, debited, create, create_or_replay, is_merchant, request_for_merchant,
  create_payment_request_for_context,
}
use trust_gate_merchant_copi.Requests.Claims.{Reserved, ClaimDone, claim_if_permitted-done}
use trust_gate_merchant_copi.Requests.Record.{decision_in, record_decision-ok}

-- Each version of the tenant's policy is one row (`uq_spending_policy_tenant_version`).
abbrev pub HasOneNewest : Uuid → Db → Type 0
HasOneNewest tenant s =
    (p : SpendingPolicy)
    → newest_policy tenant s.policies ≡ some p
    → find (is_policy_version tenant p.version) s.policies ≡ some p

version_lem :
    (rules : PolicyRules) (allowed : Bool) (daily amount : ℤ) (currency : Text) (now : Time)
    → (evaluate_policy_rules (some rules) allowed daily amount currency now).policy_version
      ≡ rules.version
unfolding evaluate_policy_rules
version_lem rules allowed daily amount currency now = ground arith

module _ (fresh : Fresh) (tenant : Uuid) (request : PaymentRequestCreate)
    (context : Option CatalogPurchaseContext) (s : Db) where
  abbrev pub day_total : Db → ℤ
  day_total t = daily_spend tenant request.actor_id (date fresh.env.now) t

  abbrev result : PolicyDecision
  result =
      evaluate_payment_request tenant request.actor_id request.merchant_id request.amount_minor
        request.currency fresh.env.now s

  -- The day holds the amount more, and no more than the newest policy allows.
  pub record IsReserved (t : Db) : Type 0 where
    pub rules : SpendingPolicy
    pub newest : newest_policy tenant s.policies ≡ some rules
    pub total : day_total t ≡ day_total s +ℤ request.amount_minor
    pub nonnegative : pos 0 ≤ℤ day_total t
    pub within_day : day_total t ≤ℤ rules.max_daily_spend_minor

  under-IsReserved :
      (o : Option SpendingPolicy) (t : Db)
      → let r =
          evaluate_under tenant request.actor_id request.merchant_id request.amount_minor
            request.currency fresh.env.now s o in
        newest_policy tenant s.policies ≡ o
        → HasOneNewest tenant s
        → pos 0 ≤ℤ day_total s
        → r.decision ≢ deny
        → Reserved fresh tenant request r.policy_version s t
        → IsReserved t
  unfolding evaluate_policy_rules
  under-IsReserved none t e one nonneg not_denied r = absurd (not_denied refl)
  under-IsReserved (some p) t e one nonneg not_denied r =
      let allowed = merchant_is_allowed tenant p.id request.merchant_id s in
      let version =
        version_lem (rules_of p) allowed (day_total s) request.amount_minor request.currency
          fresh.env.now in
      let bounded =
        reserve_bounded tenant request.actor_id request.amount_minor fresh.env.now p s r.reserved
          allowed (day_total s) request.currency fresh.env.now (one p e) nonneg not_denied
          (subst
            (λ v.
              reserve_daily_spend tenant request.actor_id request.amount_minor v fresh.env.now s
              ≡ (ok true, r.reserved))
            version r.reservation) in
      let same =
        daily-reservations tenant request.actor_id (date fresh.env.now) r.reserved t r.same in
      record {
        rules = p;
        newest = e;
        total = same ∙ bounded.0;
        nonnegative = subst (λ x. pos 0 ≤ℤ x) (sym same) bounded.1;
        within_day = subst (λ x. x ≤ℤ p.max_daily_spend_minor) (sym same) bounded.2;
      }

  -- How a new request ends.
  abbrev pub RequestOutcome : Reply → Db → Type 0
  RequestOutcome reply t =
      ((decision_in reply ≡ some deny) × SameBudgets s t)
      ⊎ ((d : Decision) × (decision_in reply ≡ some d) × (d ≢ deny) × IsReserved t)

  decided-outcome :
      (held : Option Delegation) (claim : Claim) (reply : Reply) (s₁ t : Db)
      → HasOneNewest tenant s
      → pos 0 ≤ℤ day_total s
      → ClaimDone fresh tenant request context held result claim s s₁
      → SameBudgets s₁ t
      → decision_in reply ≡ some (result_after result claim).decision
      → RequestOutcome reply t
  unfolding evaluate_payment_request
  decided-outcome held (refusal r) reply s₁ t one nonneg done same replied =
      inl (replied, subst (λ x. SameBudgets x t) done same)
  decided-outcome held (claimed d) reply s₁ t one nonneg (inl (denied, done)) same replied =
      inl (replied ∙ ap some denied, subst (λ x. SameBudgets x t) done same)
  decided-outcome held (claimed d) reply s₁ t one nonneg (inr (not_denied, reserved)) same replied =
      inr (
        result.decision,
        replied,
        not_denied,
        under-IsReserved (newest_policy tenant s.policies) t refl one nonneg not_denied (record {
          reserved = reserved.reserved;
          reservation = reserved.reservation;
          same = same.reservations ∙ reserved.same;
        }),
      )

  create-outcome :
      (reply : Reply) (t : Db)
      → HasOneNewest tenant s
      → pos 0 ≤ℤ day_total s
      → create fresh tenant request context s ≡ (ok reply, t)
      → RequestOutcome reply t
  unfolding create
  create-outcome reply t one nonneg h =
      let held = active_delegation_for tenant request.actor_id fresh.env.now s in
      let (claim, s₁, h₁, h₂) = bind-ok _ _ s (gets-ok _ _ s (gets-ok _ _ s h)) in
      let recorded =
        record_decision-ok fresh tenant request context (debited claim) (result_after result claim)
          s₁ h₂ in
      decided-outcome held claim reply s₁ t one nonneg
        (claim_if_permitted-done fresh tenant request context held result result.decision claim s
          refl h₁)
        recorded.0 recorded.1

  -- A request with a new key to a merchant of the tenant, once it is answered: either the answer is
  -- a denial and the daily budgets, the delegations and their spends are as they were; or it is not,
  -- and the actor's day holds exactly the amount more than it did, at least zero and within the daily
  -- limit of the tenant's newest policy. (The policy has one row for its newest version, and the
  -- day's total was at least zero.)
  pub request_outcome :
      (m : Merchant) (reply : Reply) (t : Db)
      → HasOneNewest tenant s
      → pos 0 ≤ℤ day_total s
      → find (is_merchant tenant request.merchant_id) s.merchants ≡ some m
      → find (has_key tenant request.idempotency_key) s.payment_requests ≡ none
      → create_payment_request_for_context fresh tenant request context s ≡ (ok reply, t)
      → RequestOutcome reply t
  unfolding create_payment_request_for_context request_for_merchant create_or_replay
  request_outcome m reply t one nonneg known unused h =
      let h₁ = gets-ok _ _ s (atomically-ok _ s h) in
      let h₂ = gets-ok _ _ s (
        subst (λ o. request_for_merchant fresh tenant request context o s ≡ (ok reply, t)) known
          h₁) in
      create-outcome reply t one nonneg
        (subst (λ o. create_or_replay fresh tenant request context o s ≡ (ok reply, t)) unused h₂)
