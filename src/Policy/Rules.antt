-- ===== src/Policy/Rules.antt =====
-- The decision of `evaluate_policy_rules` (policy_engine/evaluate.py), on every branch.
use trust_gate_merchant_copi.Base.{
  ◌<◌, ◌≡◌, ◌≢◌, ◌↔◌, ◌⊎◌, Bool, true, false, Option, none, some, List, [], ◌∷◌, arith, ℤ, ◌+ℤ◌,
  ◌≤ℤ◌, ◌<ℤ◌, int_laws,
}
use trust_gate_merchant_copi.Models.{
  Text, Time, allow, deny, Reason, policy, currency_not_allowed, merchant_not_allowed,
  amount_exceeds_limit, daily_limit_exceeded,
}
use trust_gate_merchant_copi.Policy.{PolicyRules, PolicyDecision, evaluate_policy_rules}

-- The amount needs no approval.
abbrev pub IsBelowThreshold : ℤ → Option ℤ → Type 0
IsBelowThreshold amount none = Unit
IsBelowThreshold amount (some threshold) = amount ≤ℤ threshold

abbrev pub Contains : Reason → List Reason → Type 0
Contains r [] = ⊥
Contains r (x ∷ xs) = (x ≡ r) ⊎ Contains r xs

-- What the policy permits, approval aside.
pub record IsPermitted (rules : PolicyRules) (allowed : Bool) (daily amount : ℤ) (currency : Text)
    (as_of : Time) : Type 0 where
  pub unexpired : as_of < rules.expiry
  pub currency_matches : currency ≡ rules.currency
  pub merchant_allowed : allowed ≡ true
  pub within_limit : amount ≤ℤ rules.max_amount_minor
  pub within_day : daily +ℤ amount ≤ℤ rules.max_daily_spend_minor

module _ (rules : PolicyRules) (allowed : Bool) (daily amount : ℤ) (currency : Text)
    (as_of : Time) where
  abbrev decided : PolicyDecision
  decided = evaluate_policy_rules (some rules) allowed daily amount currency as_of

  -- A request is denied exactly when it breaks a limit of the policy: it is not denied if and only
  -- if the policy is unexpired, the currency and the merchant are the policy's, and the amount fits
  -- the payment limit and, with what is already reserved, the daily limit.
  pub not_denied_iff :
      (decided.decision ≢ deny) ↔ IsPermitted rules allowed daily amount currency as_of
  unfolding evaluate_policy_rules
  not_denied_iff = (λ h. ground arith, λ h. ground arith)

  -- A request is allowed outright exactly when the policy permits it and its amount is not above
  -- the approval threshold, if there is one.
  pub allow_iff : (decided.decision ≡ allow) ↔ (
      IsPermitted rules allowed daily amount currency as_of
      × IsBelowThreshold amount rules.approval_required_above_minor)
  unfolding evaluate_policy_rules
  allow_iff = (λ h. ground arith, λ h. ground arith)

  -- An unexpired policy reports exactly the limits that the request breaks, each by its own reason.
  pub violations_exact :
      as_of < rules.expiry
      → (Contains (policy currency_not_allowed) decided.reasons ↔ (currency ≢ rules.currency))
        × (Contains (policy merchant_not_allowed) decided.reasons ↔ (allowed ≡ false))
        × (Contains (policy amount_exceeds_limit) decided.reasons
            ↔ (rules.max_amount_minor <ℤ amount))
        × (Contains (policy daily_limit_exceeded) decided.reasons
            ↔ (rules.max_daily_spend_minor <ℤ daily +ℤ amount))
  unfolding evaluate_policy_rules
  violations_exact h = (ground arith, ground arith, ground arith, ground arith)

IsBelowThreshold-smaller :
    (less amount : ℤ) (threshold : Option ℤ)
    → less ≤ℤ amount
    → IsBelowThreshold amount threshold
    → IsBelowThreshold less threshold
IsBelowThreshold-smaller less amount none h b = tt
IsBelowThreshold-smaller less amount (some threshold) h b = omega arith

module _ (rules : PolicyRules) (allowed : Bool) (daily less amount : ℤ) (currency : Text)
    (as_of : Time) where
  IsPermitted-smaller :
      less ≤ℤ amount
      → IsPermitted rules allowed daily amount currency as_of
      → IsPermitted rules allowed daily less currency as_of
  IsPermitted-smaller h p = record {
    unexpired = p.unexpired;
    currency_matches = p.currency_matches;
    merchant_allowed = p.merchant_allowed;
    within_limit = omega (arith, p.within_limit);
    within_day = omega (int_laws, p.within_day);
  }

  -- A smaller amount fares no worse under an unchanged policy: where an amount is not denied, a
  -- smaller one is not denied, and where it is allowed outright, so is a smaller one.
  pub smaller_amount :
      less ≤ℤ amount
      → let larger = evaluate_policy_rules (some rules) allowed daily amount currency as_of in
        let smaller = evaluate_policy_rules (some rules) allowed daily less currency as_of in
        (larger.decision ≢ deny → smaller.decision ≢ deny)
        × (larger.decision ≡ allow → smaller.decision ≡ allow)
  smaller_amount h = (
    λ d.
        (not_denied_iff rules allowed daily less currency as_of).1
          (IsPermitted-smaller h ((not_denied_iff rules allowed daily amount currency as_of).0 d)),
    λ a.
        let (permitted, below) = (allow_iff rules allowed daily amount currency as_of).0 a in
        (allow_iff rules allowed daily less currency as_of).1 (
          IsPermitted-smaller h permitted,
          IsBelowThreshold-smaller less amount rules.approval_required_above_minor h below,
        ),
  )
