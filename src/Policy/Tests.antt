-- ===== src/Policy/Tests.antt =====
-- The theorems of the policy engine at small requests.
use trust_gate_merchant_copi.Base.{
  ℕ, ◌≡◌, ◌≢◌, ◌↔◌, refl, true, false, some, arith, pos, ◌+ℤ◌, ◌-ℤ◌, ◌≤ℤ◌, ◌<ℤ◌, max_ℤ, find,
}
use trust_gate_merchant_copi.Models.{
  date, allow, deny, policy, currency_not_allowed, merchant_not_allowed, amount_exceeds_limit,
  daily_limit_exceeded, Db,
}
use trust_gate_merchant_copi.Session.{◌>>=◌}
use trust_gate_merchant_copi.Fixtures.{small_policy, policy_db}
use trust_gate_merchant_copi.Policy.{
  PolicyDecision, evaluate_policy_rules, rules_of, daily_spend, reserve_daily_spend,
  release_daily_spend,
}
use trust_gate_merchant_copi.Policy.Rules.{
  IsBelowThreshold, Contains, IsPermitted, not_denied_iff, allow_iff, violations_exact,
  smaller_amount,
}
use trust_gate_merchant_copi.Policy.Reservation.{reserve_bounded, release_floor, release-reserve}

-- A request at time 50, with 400 reserved for the day.
abbrev decision_of : ℕ → PolicyDecision
decision_of amount =
    evaluate_policy_rules (some (rules_of small_policy)) true (pos 400) (pos amount) 356 50

not_denied_iff_example :
    ((decision_of 150).decision ≢ deny)
    ↔ IsPermitted (rules_of small_policy) true (pos 400) (pos 150) 356 50
not_denied_iff_example = not_denied_iff (rules_of small_policy) true (pos 400) (pos 150) 356 50

allow_iff_example : ((decision_of 150).decision ≡ allow) ↔ (
    IsPermitted (rules_of small_policy) true (pos 400) (pos 150) 356 50
    × IsBelowThreshold (pos 150) (some (pos 200)))
allow_iff_example = allow_iff (rules_of small_policy) true (pos 400) (pos 150) 356 50

-- 700 is over both limits.
violations_exact_example :
    (Contains (policy currency_not_allowed) (decision_of 700).reasons
      ↔ (small_policy.currency ≢ small_policy.currency))
    × (Contains (policy merchant_not_allowed) (decision_of 700).reasons ↔ (true ≡ false))
    × (Contains (policy amount_exceeds_limit) (decision_of 700).reasons ↔ (pos 500 <ℤ pos 700))
    × (Contains (policy daily_limit_exceeded) (decision_of 700).reasons
        ↔ (pos 1000 <ℤ pos 400 +ℤ pos 700))
violations_exact_example =
    violations_exact (rules_of small_policy) true (pos 400) (pos 700) 356 50 (omega arith)

smaller_amount_example :
    ((decision_of 150).decision ≢ deny → (decision_of 100).decision ≢ deny)
    × ((decision_of 150).decision ≡ allow → (decision_of 100).decision ≡ allow)
smaller_amount_example =
    smaller_amount (rules_of small_policy) true (pos 400) (pos 100) (pos 150) 356 50 (omega arith)

-- The actor 31 reserves 300 on an empty day, and gives 300 back.
abbrev reserved_db : Db
reserved_db = (reserve_daily_spend 1 31 (pos 300) 3 10 policy_db).1

abbrev released_db : Db
released_db = (release_daily_spend 1 31 (pos 300) (date 10) reserved_db).1

reserve_bounded_example :
    (daily_spend 1 31 (date 10) reserved_db ≡ daily_spend 1 31 (date 10) policy_db +ℤ pos 300)
    × (pos 0 ≤ℤ daily_spend 1 31 (date 10) reserved_db)
    × (daily_spend 1 31 (date 10) reserved_db ≤ℤ pos 1000)
unfolding reserve_daily_spend find ◌>>=◌ ◌+ℤ◌ daily_spend
reserve_bounded_example =
    reserve_bounded 1 31 (pos 300) 10 small_policy policy_db reserved_db true (pos 0) 356 10 refl
      (omega arith)
      ((not_denied_iff (rules_of small_policy) true (pos 0) (pos 300) 356 10).1 (record {
        unexpired = omega arith;
        currency_matches = refl;
        merchant_allowed = refl;
        within_limit = omega arith;
        within_day = omega arith;
      }))
      refl

release_floor_example :
    daily_spend 1 31 (date 10) released_db
    ≡ max_ℤ (daily_spend 1 31 (date 10) reserved_db -ℤ pos 300) (pos 0)
unfolding release_daily_spend reserve_daily_spend find daily_spend ◌>>=◌
release_floor_example = release_floor 1 31 (pos 300) (date 10) reserved_db (omega arith) refl

release-reserve_example :
    daily_spend 1 31 (date 10) released_db ≡ daily_spend 1 31 (date 10) policy_db
unfolding release_daily_spend reserve_daily_spend find daily_spend ◌>>=◌
release-reserve_example =
    release-reserve 1 31 (pos 300) 3 10 policy_db reserved_db (omega arith) (omega arith) refl refl
