-- ===== src/Chain/Budget/Tree.antt =====
-- A partitioned table bounds every branch of the tree by the budget at its top.
use trust_gate_merchant_copi.Base.{
  ℕ, zero, suc, List, ◌≤ℤ◌, int_laws, parts_of_eq, sum_mono, All, All-map,
}
use trust_gate_merchant_copi.Models.{Delegation}
use trust_gate_merchant_copi.Chain.Budget.{
  is_child_of, budget_of, Partition, IsPartitioned, branch_spent,
}

-- In a partitioned table, what a hop and everything delegated below it have spent together is at
-- most the hop's own budget, however deep and however wide the tree below it is.
pub branch-le-budget :
    (n : ℕ) (rows : List Delegation)
    → IsPartitioned rows
    → All (λ d. branch_spent n rows d ≤ℤ d.budget_minor) rows
unfolding branch_spent
branch-le-budget zero rows h =
    All-map (Partition rows) (λ d. branch_spent zero rows d ≤ℤ d.budget_minor)
      (λ d p. omega (int_laws, p.fits, p.allocated_nonneg)) rows h
branch-le-budget (suc n) rows h =
    All-map (Partition rows) (λ d. branch_spent (suc n) rows d ≤ℤ d.budget_minor)
      (λ d p. omega (
        int_laws,
        p.fits,
        parts_of_eq p.promised,
        sum_mono (is_child_of d.tenant_id d.id) (branch_spent n rows) budget_of rows
            (branch-le-budget n rows h),
      ))
      rows h
