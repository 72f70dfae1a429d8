-- ===== src/Chain/Sound/Update.antt =====
-- A statement that updates no frozen column keeps every hop within its parent, and every key.
use mathlib.Core.Option
use trust_gate_merchant_copi.Base.{
  ◌≤◌, ◌≡◌, refl, sym, ap, ◌∙◌, subst, Bool, Option, none, some, List, update_where, count_where,
  All, All-update_where, find-update_where, count-update_where, if◌then◌else◌, Bool-cases, inl, inr,
}
use trust_gate_merchant_copi.Models.{Uuid, Delegation, is_delegation}
use trust_gate_merchant_copi.Chain.Sound.{frozen, Narrows, WithinParent, Within}

module _ (p : Delegation → Bool) (f : Delegation → Delegation)
    (keep : (d : Delegation) → frozen (f d) ≡ frozen d) where
  keep_key :
      (tenant i : Uuid) (d : Delegation) → is_delegation tenant i (f d) ≡ is_delegation tenant i d
  keep_key tenant i d = ap (is_delegation tenant i) (keep d)

  keep_if : (d : Delegation) → frozen (if p d then f d else d) ≡ frozen d
  keep_if d = elim (Bool-cases (p d)) [ inl e ↦ rw e (keep d) | inr e ↦ rw e refl ]

  pub WithinParent-update_where :
      (rows : List Delegation) (d : Delegation) (o : Option Uuid)
      → WithinParent rows d o
      → WithinParent (update_where p f rows) d o
  WithinParent-update_where rows d none h = h
  WithinParent-update_where rows d (some i) (parent, found, narrows) = (
    if p parent then f parent else parent,
    find-update_where p (is_delegation d.tenant_id i) f (keep_key d.tenant_id i) rows
        ∙ ap (Option.map (λ x. if p x then f x else x)) found,
    subst (Narrows d) (sym (keep_if parent)) narrows,
  )

  pub attenuated-update_where :
      (rows : List Delegation)
      → All (Within rows) rows
      → All (Within (update_where p f rows)) (update_where p f rows)
  attenuated-update_where rows h =
      All-update_where (Within rows) (Within (update_where p f rows)) p f
        (λ d e w.
          subst (λ x. WithinParent (update_where p f rows) x x.parent_id) (sym (keep d))
            (WithinParent-update_where rows (frozen d) d.parent_id w))
        (λ d e w. WithinParent-update_where rows (frozen d) d.parent_id w) rows h

  pub keyed-update_where :
      (rows : List Delegation)
      → ((tenant i : Uuid) → count_where (is_delegation tenant i) rows ≤ 1)
      → (tenant i : Uuid) → count_where (is_delegation tenant i) (update_where p f rows) ≤ 1
  keyed-update_where rows h tenant i =
      rw (count-update_where p (is_delegation tenant i) f (keep_key tenant i) rows) (h tenant i)
