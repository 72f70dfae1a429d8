-- ===== src/Chain/Sound.antt =====
-- What holds of the `delegation` table between any two operations of delegation/chain.py.
pub mod Update
pub mod Insert
pub mod Partition
pub mod Operations
use trust_gate_merchant_copi.Base.{
  ℕ, ◌+◌, ◌≤◌, ◌≡◌, true, Option, none, some, List, ℤ, pos, ◌≤ℤ◌, find, count_where, All,
}
use trust_gate_merchant_copi.Models.{Uuid, Delegation, is_delegation}
use trust_gate_merchant_copi.Chain.Rows.{contained_in}
use trust_gate_merchant_copi.Chain.Budget.{IsPartitioned}

-- The columns that are fixed at grant; the others are the allocation, the spending and the
-- revocation.
abbrev pub frozen : Delegation → Delegation
frozen d = record d { allocated_minor = pos 0; spent_minor = pos 0; revoked_at = none }

-- A child is bounded by its parent, and carries its parent's root and policy.
pub record Narrows (d parent : Delegation) : Type 0 where
  pub depth : d.depth ≡ parent.depth + 1
  pub delegator : d.delegator_actor_id ≡ parent.delegate_actor_id
  pub root_actor : d.root_actor_id ≡ parent.root_actor_id
  pub policy_version : d.policy_version ≡ parent.policy_version
  pub budget : d.budget_minor ≤ℤ parent.budget_minor
  pub max_amount : d.max_amount_minor ≤ℤ parent.max_amount_minor
  pub expiry : d.expires_at ≤ parent.expires_at
  pub scope : contained_in d.allowed_skus parent.allowed_skus ≡ true

abbrev pub WithinParent : List Delegation → Delegation → Option Uuid → Type 0
WithinParent rows d none = d.depth ≡ 0
WithinParent rows d (some i) =
    (parent : Delegation) × (find (is_delegation d.tenant_id i) rows ≡ some parent)
    × Narrows d (frozen parent)

-- A hop is a root, or is bounded by its parent, which is in the table.
abbrev pub Within : List Delegation → Delegation → Type 0
Within rows d = WithinParent rows (frozen d) d.parent_id

pub record IsSound (rows : List Delegation) : Type 0 where
  pub keyed : (tenant i : Uuid) → count_where (is_delegation tenant i) rows ≤ 1
  pub partitioned : IsPartitioned rows
  pub attenuated : All (Within rows) rows
