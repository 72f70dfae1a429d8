-- ===== src/Chain/Spend.antt =====
-- `spend` and `release` of delegation/chain.py.
use trust_gate_merchant_copi.Base.{
  ℕ, Bool, not, ◌&&◌, ◌||◌, Option, none, some, List, [], ◌∷◌, map, leb, ◌==◌, is_some, ℤ, pos,
  ◌+ℤ◌, ◌-ℤ◌, ltb_ℤ, leb_ℤ, eq_ℤ, find, update_where,
}
use trust_gate_merchant_copi.Models.{
  Uuid, Text, Time, delegation_refused, amount_not_positive, delegation_policy_drift,
  amount_exceeds_hop_limit, sku_out_of_scope, reference_reused, budget_exhausted,
  spend_not_releasable, delegation_not_found, SpendingPolicy, Delegation, DelegationSpend,
  delegation_spent, delegation_released, spent, released, is_delegation, is_policy_version,
}
use trust_gate_merchant_copi.Session.{
  Action, pure, gets, modify, raise_if, or_raise, atomically, add_audit, ◌>>=◌, ◌>>◌,
}
use trust_gate_merchant_copi.Chain.Rows.{Env, member, update_delegations, evidence}
use trust_gate_merchant_copi.Chain.Grant.{is_live_hop}
use trust_gate_merchant_copi.Chain.Walk.{locked_chain, refuse_if_not_live}

-- `chain[0].policy_version`
abbrev pub root_version : List Delegation → ℕ
root_version [] = 0
root_version (root ∷ _) = root.policy_version

-- `chain[0].root_actor_id`
abbrev pub root_actor : List Delegation → Text
root_actor [] = 0
root_actor (root ∷ _) = root.root_actor_id

-- No policy, or an expired one.
abbrev pub has_drifted : Option SpendingPolicy → Time → Bool
has_drifted none now = Bool.true
has_drifted (some p) now = leb p.expiry now

-- The loop over the chain.
unfoldable pub check_hops : List Delegation → Time → ℤ → Text → Action (Unit {0})
check_hops [] now amount sku = pure tt
check_hops (hop ∷ hops) now amount sku = do
  refuse_if_not_live hop now
  raise_if (ltb_ℤ hop.max_amount_minor amount) (delegation_refused amount_exceeds_hop_limit)
  raise_if (not (member sku hop.allowed_skus)) (delegation_refused sku_out_of_scope)
  check_hops hops now amount sku

abbrev pub is_reference : Uuid → Uuid → DelegationSpend → Bool
is_reference tenant reference r = r.tenant_id == tenant && r.reference == reference

-- The recorded spend is not the one that is asked for.
abbrev pub is_other_spend : DelegationSpend → Uuid → ℤ → Text → Bool
is_other_spend r i amount sku =
    not (r.delegation_id == i) || not (eq_ℤ r.amount_minor amount) || not (r.sku == sku)

abbrev pub can_afford : Uuid → Uuid → ℤ → Delegation → Bool
can_afford tenant i amount d =
    is_live_hop tenant i d && leb_ℤ (d.allocated_minor +ℤ d.spent_minor +ℤ amount) d.budget_minor

abbrev pub charge : ℤ → Delegation → Delegation
charge amount d = record d { spent_minor = d.spent_minor +ℤ amount }

abbrev pub spend_row : Env → Uuid → Uuid → Uuid → ℤ → Text → DelegationSpend
spend_row env tenant i reference amount sku = record {
  id = env.new_id;
  tenant_id = tenant;
  delegation_id = i;
  reference = reference;
  amount_minor = amount;
  sku = sku;
  released_at = none;
}

-- A reference that is recorded already is charged no second time; another one is recorded and
-- charged.
unfoldable pub charge_row :
    Env
    → Uuid
    → Uuid
    → ℤ
    → Text
    → Uuid
    → Option Uuid
    → List Delegation
    → Option DelegationSpend
    → Action (Unit {0})
charge_row env tenant i amount sku reference correlation chain (some existing) =
    raise_if (is_other_spend existing i amount sku) (delegation_refused reference_reused)
charge_row env tenant i amount sku reference correlation chain none = do
  modify (λ s. record s {
    delegation_spends = spend_row env tenant i reference amount sku ∷ s.delegation_spends;
  })
  rows ← update_delegations (can_afford tenant i amount) (charge amount)
  raise_if (not (rows == 1)) (delegation_refused budget_exhausted)
  modify (
      add_audit (
        evidence tenant i correlation env.new_correlation delegation_spent
          (spent reference amount sku (map (λ hop. hop.id) chain) (root_actor chain)) none))

-- The savepoint of `spend`.
unfoldable pub charge_once :
    Env → Uuid → Uuid → ℤ → Text → Uuid → Option Uuid → List Delegation → Action (Unit {0})
charge_once env tenant i amount sku reference correlation chain = atomically (do
  recorded ← gets (λ s. find (is_reference tenant reference) s.delegation_spends)
  charge_row env tenant i amount sku reference correlation chain recorded)

unfoldable pub spend : Env → Uuid → Uuid → ℤ → Text → Uuid → Option Uuid → Action (Unit {0})
spend env tenant i amount sku reference correlation = do
  raise_if (leb_ℤ amount (pos 0)) (delegation_refused amount_not_positive)
  chain ← locked_chain tenant i
  current ← gets (λ s. find (is_policy_version tenant (root_version chain)) s.policies)
  raise_if (has_drifted current env.now) (delegation_refused delegation_policy_drift)
  check_hops chain env.now amount sku
  charge_once env tenant i amount sku reference correlation chain

abbrev pub is_unreleased : Uuid → Uuid → DelegationSpend → Bool
is_unreleased tenant reference r = is_reference tenant reference r && not (is_some r.released_at)

abbrev pub release_row : Time → DelegationSpend → DelegationSpend
release_row t r = record r { released_at = some t }

abbrev pub refund : ℤ → Delegation → Delegation
refund amount d = record d { spent_minor = d.spent_minor -ℤ amount }

unfoldable pub release : Env → Uuid → Uuid → Time → Option Uuid → Option Uuid → Action (Unit {0})
release env tenant reference at correlation payment_request_id = do
  found ← gets (λ s. find (is_unreleased tenant reference) s.delegation_spends)
  row ← or_raise found (delegation_refused spend_not_releasable)
  modify (λ s. record s {
    delegation_spends =
        update_where (is_unreleased tenant reference) (release_row at) s.delegation_spends;
  })
  rows ← update_delegations (is_delegation tenant row.delegation_id) (refund row.amount_minor)
  raise_if (not (rows == 1)) (delegation_refused delegation_not_found)
  modify (
      add_audit (
        evidence tenant row.delegation_id correlation env.new_correlation delegation_released
          (released reference row.amount_minor) payment_request_id))
