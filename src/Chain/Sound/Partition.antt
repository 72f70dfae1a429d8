-- ===== src/Chain/Sound/Partition.antt =====
-- An insert keeps every hop's promises equal to what its children hold.
use trust_gate_merchant_copi.Base.{
  ◌≤◌, ◌≡◌, ◌≢◌, refl, sym, ap, ◌∙◌, Bool, true, false, none, some, List, ◌∷◌, arith, ℤ, pos, ◌+ℤ◌,
  ◌≤ℤ◌, int_laws, parts_of_eq, count_where, sum_where, All-map, All-zip, All-update_where,
  All-of_count, sum-update_where,
}
use trust_gate_merchant_copi.Models.{Uuid, Delegation, is_delegation}
use trust_gate_merchant_copi.Chain.Rows.{has_room, allocate}
use trust_gate_merchant_copi.Chain.Budget.{is_child_of, budget_of, Partition, IsPartitioned}
use trust_gate_merchant_copi.Chain.Insert.{after_allocation}

-- A hop that has neither promised nor spent anything, and its budget is no debt.
pub record IsUnused (d : Delegation) : Type 0 where
  pub nothing_promised : d.allocated_minor ≡ pos 0
  pub nothing_spent : d.spent_minor ≡ pos 0
  pub budget_nonneg : pos 0 ≤ℤ d.budget_minor

children_of : Delegation → List Delegation → ℤ
children_of d rows = sum_where (is_child_of d.tenant_id d.id) budget_of rows

sum_miss :
    (p : Delegation → Bool) (d : Delegation) (ds : List Delegation)
    → p d ≡ false
    → sum_where p budget_of (d ∷ ds) ≡ sum_where p budget_of ds
unfolding sum_where
sum_miss p d ds e = rw e

sum_hit :
    (p : Delegation → Bool) (d : Delegation) (ds : List Delegation)
    → p d ≡ true
    → sum_where p budget_of (d ∷ ds) ≡ d.budget_minor +ℤ sum_where p budget_of ds
unfolding sum_where
sum_hit p d ds e = rw e

-- The new row itself: nothing in the table is its child.
Partition-new :
    (new : Delegation) (rows : List Delegation)
    → IsUnused new
    → is_child_of new.tenant_id new.id new ≡ false
    → sum_where (is_child_of new.tenant_id new.id) budget_of rows ≡ pos 0
    → Partition (new ∷ rows) new
Partition-new new rows u other none_below = record {
  promised =
      u.nothing_promised
      ∙ sym (sum_miss (is_child_of new.tenant_id new.id) new rows other ∙ none_below);
  allocated_nonneg = omega (arith, parts_of_eq u.nothing_promised);
  spent_nonneg = omega (arith, parts_of_eq u.nothing_spent);
  fits =
      omega
        (int_laws, parts_of_eq u.nothing_promised, parts_of_eq u.nothing_spent, u.budget_nonneg);
}

Partition-miss :
    (rows rows' : List Delegation) (d : Delegation)
    → sum_where (is_child_of d.tenant_id d.id) budget_of rows'
      ≡ sum_where (is_child_of d.tenant_id d.id) budget_of rows
    → Partition rows d
    → Partition rows' d
Partition-miss rows rows' d e p = record {
  promised = p.promised ∙ sym e;
  allocated_nonneg = p.allocated_nonneg;
  spent_nonneg = p.spent_nonneg;
  fits = p.fits;
}

Partition-hit :
    (rows rows' : List Delegation) (d : Delegation) (budget : ℤ)
    → sum_where (is_child_of d.tenant_id d.id) budget_of rows'
      ≡ budget +ℤ sum_where (is_child_of d.tenant_id d.id) budget_of rows
    → pos 0 ≤ℤ budget
    → d.allocated_minor +ℤ d.spent_minor +ℤ budget ≤ℤ d.budget_minor
    → Partition rows d
    → Partition rows' (allocate budget d)
Partition-hit rows rows' d budget e nonneg room p = record {
  promised = omega (int_laws, parts_of_eq e, parts_of_eq p.promised);
  allocated_nonneg = omega (int_laws, p.allocated_nonneg);
  spent_nonneg = p.spent_nonneg;
  fits = omega (int_laws, room);
}

pub IsPartitioned-root :
    (new : Delegation) (rows : List Delegation)
    → IsUnused new
    → new.parent_id ≡ none
    → sum_where (is_child_of new.tenant_id new.id) budget_of rows ≡ pos 0
    → IsPartitioned rows
    → IsPartitioned (new ∷ rows)
IsPartitioned-root new rows u top none_below h = (
  Partition-new new rows u (ground arith) none_below,
  All-map (Partition rows) (Partition (new ∷ rows))
      (λ d p.
        Partition-miss rows (new ∷ rows) d
          (sum_miss (is_child_of d.tenant_id d.id) new rows (ground arith)) p)
      rows h,
)

module _ (new : Delegation) (i : Uuid) (rows : List Delegation)
    (below : new.parent_id ≡ some i) where
  abbrev rows' : List Delegation
  rows' = after_allocation new i rows

  -- `new` is a child of exactly the hops that its parent's key selects.
  child_iff_key :
      (d : Delegation) (b : Bool)
      → is_delegation new.tenant_id i d ≡ b
      → is_child_of d.tenant_id d.id new ≡ b
  child_iff_key d b e = ground arith

  same_sum :
      (tenant k : Uuid)
      → sum_where (is_child_of tenant k) budget_of rows'
        ≡ sum_where (is_child_of tenant k) budget_of rows
  same_sum tenant k =
      sum-update_where (has_room new.tenant_id i new.budget_minor) (is_child_of tenant k)
        (allocate new.budget_minor) budget_of (λ x. refl) (λ x. refl) rows

  pub IsPartitioned-child :
      IsUnused new
      → i ≢ new.id
      → count_where (is_delegation new.tenant_id i) rows ≤ 1
      → count_where (has_room new.tenant_id i new.budget_minor) rows ≢ 0
      → sum_where (is_child_of new.tenant_id new.id) budget_of rows ≡ pos 0
      → IsPartitioned rows
      → IsPartitioned (new ∷ rows')
  IsPartitioned-child u other one some_room none_below h =
      let nested =
        All-of_count (has_room new.tenant_id i new.budget_minor) (is_delegation new.tenant_id i)
          (λ x e. ground arith) rows (omega arith) in
      (
        Partition-new new rows' u (ground arith) (same_sum new.tenant_id new.id ∙ none_below),
        All-update_where
            (λ d.
              Partition rows d
              × (is_delegation new.tenant_id i d ≡ has_room new.tenant_id i new.budget_minor d))
            (Partition (new ∷ rows')) (has_room new.tenant_id i new.budget_minor)
            (allocate new.budget_minor)
            (λ d e (p, _).
              Partition-hit rows (new ∷ rows') d new.budget_minor
                (sum_hit (is_child_of d.tenant_id d.id) new rows'
                    (child_iff_key d true (ground arith))
                  ∙ ap (λ (z : ℤ). new.budget_minor +ℤ z) (same_sum d.tenant_id d.id))
                u.budget_nonneg (ground arith) p)
            (λ d e (p, q).
              Partition-miss rows (new ∷ rows') d
                (sum_miss (is_child_of d.tenant_id d.id) new rows' (child_iff_key d false (q ∙ e))
                  ∙ same_sum d.tenant_id d.id)
                p)
            rows
            (All-zip (Partition rows)
              (λ d. is_delegation new.tenant_id i d ≡ has_room new.tenant_id i new.budget_minor d)
              rows h nested),
      )
