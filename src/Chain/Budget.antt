-- ===== src/Chain/Budget.antt =====
-- The partition of a hop's budget (`ck_delegation_budget_partitioned`, models/domain.py): what a hop
-- has promised downward is what its children hold, and it fits the hop's own budget.
pub mod Tree
use trust_gate_merchant_copi.Base.{
  ℕ, zero, suc, ◌≡◌, Bool, ◌&&◌, List, [], ◌∷◌, holds_id, ◌==◌, ℤ, pos, ◌+ℤ◌, ◌≤ℤ◌, sum_where, All,
}
use trust_gate_merchant_copi.Models.{Uuid, Delegation}

-- The rows whose parent is the hop `i`.
abbrev pub is_child_of : Uuid → Uuid → Delegation → Bool
is_child_of tenant i c = c.tenant_id == tenant && holds_id c.parent_id i

abbrev pub budget_of : Delegation → ℤ
budget_of d = d.budget_minor

-- One row of a partitioned table.
pub record Partition (rows : List Delegation) (d : Delegation) : Type 0 where
  pub promised : d.allocated_minor ≡ sum_where (is_child_of d.tenant_id d.id) budget_of rows
  pub allocated_nonneg : pos 0 ≤ℤ d.allocated_minor
  pub spent_nonneg : pos 0 ≤ℤ d.spent_minor
  pub fits : d.allocated_minor +ℤ d.spent_minor ≤ℤ d.budget_minor

abbrev pub IsPartitioned : List Delegation → Type 0
IsPartitioned rows = All (Partition rows) rows

-- What a hop and everything delegated below it, down to `n` levels, have spent.
unfoldable pub branch_spent : ℕ → List Delegation → Delegation → ℤ
branch_spent zero rows d = d.spent_minor
branch_spent (suc n) rows d =
    d.spent_minor +ℤ sum_where (is_child_of d.tenant_id d.id) (branch_spent n rows) rows
