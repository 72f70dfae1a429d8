-- ===== src/Chain/Grant.antt =====
-- `_make_room_for`, `grant_root` and `grant` of delegation/chain.py.
use trust_gate_merchant_copi.Base.{◌+◌, Bool, Option, none, some, ltb, pos, ltb_ℤ, leb_ℤ, find}
use trust_gate_merchant_copi.Models.{
  Uuid, Text, Time, delegation_refused, database_error, trigger_budget_exhausted,
  budget_not_positive, exceeds_policy_daily_limit, exceeds_policy_payment_limit, outlives_policy,
  parent_not_found, depth_exceeded, budget_exceeds_parent, budget_exhausted,
  actor_already_holds_one, SpendingPolicy, Delegation, Bounds, delegation_granted,
  delegation_expiry_finalized, granted, finalized, is_delegation,
}
use trust_gate_merchant_copi.Session.{
  Result, err, Action, pure, gets, modify, raise_if, or_raise, add_audit, ◌>>=◌, ◌>>◌,
}
use trust_gate_merchant_copi.Chain.Rows.{
  Env, max_depth, is_live, is_live_holder, update_delegations, insert_delegation, evidence,
}
use mathlib.Core.Bool.{◌&&◌}

abbrev pub revoke_at : Time → Delegation → Delegation
revoke_at t d = record d { revoked_at = some t }

abbrev pub is_live_hop : Uuid → Uuid → Delegation → Bool
is_live_hop tenant i d = is_delegation tenant i d && is_live d

-- The holder that `_make_room_for` found: refuse it if it has not expired, or finalize it.
unfoldable pub settle_holder :
    Env → Uuid → Text → Option Uuid → Option Delegation → Action (Unit {0})
settle_holder env tenant actor correlation none = pure tt
settle_holder env tenant actor correlation (some holder) = do
  raise_if (ltb env.now holder.expires_at) (delegation_refused actor_already_holds_one)
  update_delegations (is_live_hop tenant holder.id) (revoke_at env.db_now)
  modify (
      add_audit (
        evidence tenant holder.id correlation env.new_correlation delegation_expiry_finalized
          (finalized holder.id actor holder.expires_at) none))

unfoldable pub make_room_for : Env → Uuid → Text → Option Uuid → Action (Unit {0})
make_room_for env tenant actor correlation = do
  holder ← gets (λ s. find (is_live_holder tenant actor) s.delegations)
  settle_holder env tenant actor correlation holder

abbrev pub root_row : Env → Uuid → SpendingPolicy → Text → Text → Bounds → Delegation
root_row env tenant p principal delegate bounds = record {
  id = env.new_id;
  tenant_id = tenant;
  parent_id = none;
  depth = 0;
  policy_id = p.id;
  policy_version = p.version;
  root_actor_id = principal;
  delegator_actor_id = principal;
  delegate_actor_id = delegate;
  budget_minor = bounds.budget_minor;
  allocated_minor = pos 0;
  spent_minor = pos 0;
  max_amount_minor = bounds.max_amount_minor;
  allowed_skus = bounds.allowed_skus;
  purpose = bounds.purpose;
  expires_at = bounds.expires_at;
  revoked_at = none;
  created_at = env.db_now;
}

unfoldable pub grant_root :
    Env → Uuid → SpendingPolicy → Text → Text → Bounds → Option Uuid → Action Delegation
grant_root env tenant p principal delegate bounds correlation = do
  raise_if (leb_ℤ bounds.budget_minor (pos 0)) (delegation_refused budget_not_positive)
  raise_if (ltb_ℤ p.max_daily_spend_minor bounds.budget_minor)
      (delegation_refused exceeds_policy_daily_limit)
  raise_if (ltb_ℤ p.max_amount_minor bounds.max_amount_minor)
      (delegation_refused exceeds_policy_payment_limit)
  raise_if (ltb p.expiry bounds.expires_at) (delegation_refused outlives_policy)
  make_room_for env tenant delegate correlation
  let root = root_row env tenant p principal delegate bounds
  insert_delegation root
  modify (
      add_audit (
        evidence tenant root.id correlation env.new_correlation delegation_granted
          (granted 0 none principal none delegate bounds (some p.version)) none))
  pure root

abbrev pub child_row : Env → Uuid → Delegation → Uuid → Text → Text → Bounds → Delegation
child_row env tenant parent parent_id delegator delegate bounds = record {
  id = env.new_id;
  tenant_id = tenant;
  parent_id = some parent_id;
  depth = parent.depth + 1;
  policy_id = parent.policy_id;
  policy_version = parent.policy_version;
  root_actor_id = parent.root_actor_id;
  delegator_actor_id = delegator;
  delegate_actor_id = delegate;
  budget_minor = bounds.budget_minor;
  allocated_minor = pos 0;
  spent_minor = pos 0;
  max_amount_minor = bounds.max_amount_minor;
  allowed_skus = bounds.allowed_skus;
  purpose = bounds.purpose;
  expires_at = bounds.expires_at;
  revoked_at = none;
  created_at = env.db_now;
}

-- `except DBAPIError`: an exhausted parent becomes a refusal, any other error goes on.
abbrev pub as_refusal : {A : Type 0} → Result A → Result A
as_refusal (err (database_error trigger_budget_exhausted)) =
    err (delegation_refused budget_exhausted)
as_refusal r = r

-- The insert of a child inside its savepoint.
unfoldable pub insert_child : Delegation → Action (Unit {0})
insert_child child s = let (r, s') = insert_delegation child s in (as_refusal r, s')

unfoldable pub grant : Env → Uuid → Uuid → Text → Text → Bounds → Option Uuid → Action Delegation
grant env tenant parent_id delegator delegate bounds correlation = do
  raise_if (leb_ℤ bounds.budget_minor (pos 0)) (delegation_refused budget_not_positive)
  found ← gets (λ s. find (is_delegation tenant parent_id) s.delegations)
  parent ← or_raise found (delegation_refused parent_not_found)
  raise_if (ltb max_depth (parent.depth + 1)) (delegation_refused depth_exceeded)
  raise_if (ltb_ℤ parent.budget_minor bounds.budget_minor)
      (delegation_refused budget_exceeds_parent)
  make_room_for env tenant delegate correlation
  let child = child_row env tenant parent parent_id delegator delegate bounds
  insert_child child
  modify (
      add_audit (
        evidence tenant child.id correlation env.new_correlation delegation_granted
          (granted child.depth (some parent_id) parent.root_actor_id (some delegator) delegate
            bounds none)
          none))
  pure child
