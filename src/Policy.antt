-- ===== src/Policy.antt =====
-- policy_engine/evaluate.py: the policy decision, and the reservation of an actor's daily budget.
pub mod Rules
pub mod Reservation
mod Tests
use trust_gate_merchant_copi.Base.{
  ℕ, Bool, true, false, not, ◌&&◌, ◌||◌, Option, none, some, List, [], ◌∷◌, ◌++◌, ltb, leb, ◌==◌,
  if◌then◌else◌, is_some, ℤ, pos, ◌+ℤ◌, ◌-ℤ◌, ltb_ℤ, leb_ℤ, max_ℤ, find, update_where, count_where,
}
use trust_gate_merchant_copi.Models.{
  Uuid, Text, Time, date, Decision, allow, deny, require_approval, Reason, policy, policy_not_found,
  policy_expired, currency_not_allowed, merchant_not_allowed, amount_exceeds_limit,
  daily_limit_exceeded, approval_required, database_error, check_violation, Merchant,
  SpendingPolicy, PolicyMerchant, DailySpendReservation, Db, is_policy_version, is_actor_day,
}
use trust_gate_merchant_copi.Session.{Action, pure, raise, gets, modify, raise_if, ◌>>=◌, ◌>>◌}

pub record PolicyDecision : Type 0 where
  pub decision : Decision
  pub reasons : List Reason
  pub policy_version : ℕ

pub record PolicyRules : Type 0 where
  pub version : ℕ
  pub max_amount_minor : ℤ
  pub currency : Text
  pub max_daily_spend_minor : ℤ
  pub expiry : Time
  pub approval_required_above_minor : Option ℤ

-- `if c: reasons.append(r)`
abbrev append_if : Bool → Reason → List Reason → List Reason
append_if c r reasons = if c then reasons ++ r ∷ [] else reasons

-- The four tests of an unexpired policy, in the order in which their reasons are listed.
unfoldable pub violations : PolicyRules → Bool → ℤ → ℤ → Text → List Reason
violations rules merchant_is_allowed daily_spend_minor amount_minor currency =
    let r₁ = append_if (not (currency == rules.currency)) (policy currency_not_allowed) [] in
    let r₂ = append_if (not merchant_is_allowed) (policy merchant_not_allowed) r₁ in
    let r₃ =
      append_if (ltb_ℤ rules.max_amount_minor amount_minor) (policy amount_exceeds_limit) r₂ in
    append_if (ltb_ℤ rules.max_daily_spend_minor (daily_spend_minor +ℤ amount_minor))
      (policy daily_limit_exceeded) r₃

abbrev is_above : ℤ → Option ℤ → Bool
is_above amount none = false
is_above amount (some threshold) = ltb_ℤ threshold amount

-- `if reasons`
abbrev is_empty : List Reason → Bool
is_empty [] = true
is_empty (_ ∷ _) = false

unfoldable pub evaluate_policy_rules :
    Option PolicyRules → Bool → ℤ → ℤ → Text → Time → PolicyDecision
unfolding violations
evaluate_policy_rules none _ _ _ _ _ = record {
  decision = deny;
  reasons = policy policy_not_found ∷ [];
  policy_version = 0;
}
evaluate_policy_rules (some rules) merchant_is_allowed daily_spend_minor amount_minor currency
      as_of =
    let reasons = violations rules merchant_is_allowed daily_spend_minor amount_minor currency in
    if leb rules.expiry as_of
    then record {
      decision = deny;
      reasons = policy policy_expired ∷ [];
      policy_version = rules.version;
    }
    else if not (is_empty reasons)
    then record { decision = deny; reasons = reasons; policy_version = rules.version }
    else if is_above amount_minor rules.approval_required_above_minor
    then record {
      decision = require_approval;
      reasons = policy approval_required ∷ [];
      policy_version = rules.version;
    }
    else record { decision = allow; reasons = []; policy_version = rules.version }

abbrev newer : SpendingPolicy → Option SpendingPolicy → Option SpendingPolicy
newer p none = some p
newer p (some q) = if ltb p.version q.version then some q else some p

-- SELECT ... WHERE tenant_id ORDER BY version DESC LIMIT 1
unfoldable pub newest_policy : Uuid → List SpendingPolicy → Option SpendingPolicy
newest_policy tenant [] = none
newest_policy tenant (p ∷ ps) =
    let rest = newest_policy tenant ps in if p.tenant_id == tenant then newer p rest else rest

-- The join of `PolicyMerchant` with an active `Merchant` has a row.
unfoldable pub merchant_is_allowed : Uuid → Uuid → Uuid → Db → Bool
merchant_is_allowed tenant policy_id merchant_id s = is_some (find permits s.policy_merchants)
  where
    is_active_merchant : PolicyMerchant → Merchant → Bool
    is_active_merchant pm m =
        m.id == pm.merchant_id
        && m.tenant_id == pm.tenant_id
        && m.tenant_id == tenant
        && m.is_active

    permits : PolicyMerchant → Bool
    permits pm =
        pm.tenant_id == tenant
        && pm.policy_id == policy_id
        && pm.merchant_id == merchant_id
        && is_some (find (is_active_merchant pm) s.merchants)

abbrev reserved_or_zero : Option DailySpendReservation → ℤ
reserved_or_zero none = pos 0
reserved_or_zero (some r) = r.reserved_amount_minor

-- `int(daily_spend or 0)`
unfoldable pub daily_spend : Uuid → Text → ℕ → Db → ℤ
daily_spend tenant actor day s =
    reserved_or_zero (find (is_actor_day tenant actor day) s.reservations)

abbrev pub rules_of : SpendingPolicy → PolicyRules
rules_of p = record {
  version = p.version;
  max_amount_minor = p.max_amount_minor;
  currency = p.currency;
  max_daily_spend_minor = p.max_daily_spend_minor;
  expiry = p.expiry;
  approval_required_above_minor = p.approval_required_above_minor;
}

-- The decision under the policy that was found.
abbrev pub evaluate_under :
    Uuid → Text → Uuid → ℤ → Text → Time → Db → Option SpendingPolicy → PolicyDecision
evaluate_under tenant actor merchant amount currency now s none =
    evaluate_policy_rules none false (pos 0) amount currency now
evaluate_under tenant actor merchant amount currency now s (some p) =
    evaluate_policy_rules (some (rules_of p)) (merchant_is_allowed tenant p.id merchant s)
      (daily_spend tenant actor (date now) s) amount currency now

unfoldable pub evaluate_payment_request : Uuid → Text → Uuid → ℤ → Text → Time → Db → PolicyDecision
evaluate_payment_request tenant actor merchant amount currency now s =
    evaluate_under tenant actor merchant amount currency now s (newest_policy tenant s.policies)

abbrev add_amount : ℤ → DailySpendReservation → DailySpendReservation
add_amount amount r = record r { reserved_amount_minor = r.reserved_amount_minor +ℤ amount }

-- The conditional upsert: true if a row was inserted or updated. A negative total would fail
-- `ck_daily_spend_reservation_amount_nonnegative`.
unfoldable pub upsert_reservation :
    Uuid → Text → ℕ → ℤ → ℤ → Option DailySpendReservation → Action Bool
upsert_reservation tenant actor day amount limit none = do
  raise_if (ltb_ℤ amount (pos 0)) (database_error check_violation)
  modify (λ s. record s {
    reservations =
        record {
          tenant_id = tenant;
          actor_id = actor;
          spend_date = day;
          reserved_amount_minor = amount;
        }
        ∷ s.reservations;
  })
  pure true
upsert_reservation tenant actor day amount limit (some r) =
    if leb_ℤ (r.reserved_amount_minor +ℤ amount) limit
    then (do
      raise_if (ltb_ℤ (r.reserved_amount_minor +ℤ amount) (pos 0)) (database_error check_violation)
      modify (λ s. record s {
        reservations =
            update_where (is_actor_day tenant actor day) (add_amount amount) s.reservations;
      })
      pure true)
    else pure false

unfoldable pub reserve_under : Uuid → Text → ℤ → ℕ → Option SpendingPolicy → Action Bool
unfolding upsert_reservation
reserve_under tenant actor amount day none = pure false
reserve_under tenant actor amount day (some p) = do
  row ← gets (λ s. find (is_actor_day tenant actor day) s.reservations)
  upsert_reservation tenant actor day amount p.max_daily_spend_minor row

unfoldable pub reserve_daily_spend : Uuid → Text → ℤ → ℕ → Time → Action Bool
unfolding reserve_under
reserve_daily_spend tenant actor amount version now = do
  policy_row ← gets (λ s. find (is_policy_version tenant version) s.policies)
  reserve_under tenant actor amount (date now) policy_row

abbrev give_back : ℤ → DailySpendReservation → DailySpendReservation
give_back amount r = record r {
  reserved_amount_minor = max_ℤ (r.reserved_amount_minor -ℤ amount) (pos 0);
}

unfoldable pub release_daily_spend : Uuid → Text → ℤ → ℕ → Action Bool
release_daily_spend tenant actor amount day = if leb_ℤ amount (pos 0) then pure false else do
  rows ← gets (λ s. count_where (is_actor_day tenant actor day) s.reservations)
  modify (λ s. record s {
    reservations = update_where (is_actor_day tenant actor day) (give_back amount) s.reservations;
  })
  pure (not (rows == 0))
