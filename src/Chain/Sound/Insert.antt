-- ===== src/Chain/Sound/Insert.antt =====
-- An insert that returns keeps the table sound.
use mathlib.Core.Option
use trust_gate_merchant_copi.Base.{
  ◌≤◌, ◌≡◌, ◌≢◌, refl, sym, ap, ◌∙◌, subst, Bool, true, false, ◌&&◌, Option, none, some, List, [],
  ◌∷◌, arith, ◌==◌, is_some, holds_id, pos, find, count_where, sum_where, All, All-map,
  find-update_where, count_of_none, sum_of_none, Bool-cases, inl, inr,
}
use trust_gate_merchant_copi.Models.{Uuid, Delegation, Db, is_delegation}
use trust_gate_merchant_copi.Chain.Rows.{
  has_room, allocate, meets_checks, child_failure, insert_delegation,
}
use trust_gate_merchant_copi.Chain.Sound.Partition.{
  IsUnused, IsPartitioned-root, IsPartitioned-child,
}
use trust_gate_merchant_copi.Chain.Sound.Update.{
  WithinParent-update_where, attenuated-update_where, keyed-update_where,
}
use trust_gate_merchant_copi.Session.{}
use trust_gate_merchant_copi.Session.Keeps.{Keeps, Keeps-atomically_ok}
use trust_gate_merchant_copi.Chain.Budget.{is_child_of, budget_of}
use trust_gate_merchant_copi.Chain.Insert.{
  is_duplicate, after_allocation, RootInserted, ChildInserted, insert_delegation-ok,
}
use trust_gate_merchant_copi.Chain.Sound.{frozen, Narrows, WithinParent, Within, IsSound}

abbrev has_id : Uuid → Delegation → Bool
has_id i d = d.id == i

find_key_of_none :
    (tenant i : Uuid) (rows : List Delegation)
    → find (has_id i) rows ≡ none
    → find (is_delegation tenant i) rows ≡ none
unfolding find
find_key_of_none tenant i [] e = refl
find_key_of_none tenant i (d ∷ ds) e = ground (arith, find_key_of_none tenant i ds)

orphan :
    (tenant i : Uuid) (rows : List Delegation)
    → find (has_id i) rows ≡ none
    → (d : Delegation) (o : Option Uuid) → (d.tenant_id == tenant && holds_id o i) ≡ true
    → WithinParent rows (frozen d) o
    → ⊥
orphan tenant i rows absent d none c w = ground arith
orphan tenant i rows absent d (some j) c (parent, found, _) =
    let same : j ≡ i = ground arith in
    let missing = find_key_of_none d.tenant_id i rows absent in
    cc (sym found ∙ ap (λ k. find (is_delegation d.tenant_id k) rows) same ∙ missing)

-- Nobody in the table has a parent that is not in the table.
no_children :
    (tenant i : Uuid) (rows : List Delegation)
    → find (has_id i) rows ≡ none
    → (some_rows : List Delegation) → All (Within rows) some_rows
    → find (is_child_of tenant i) some_rows ≡ none
unfolding find
no_children tenant i rows absent [] h = refl
no_children tenant i rows absent (d ∷ ds) h = elim (Bool-cases (is_child_of tenant i d)) [
  | inl child ↦ absurd (orphan tenant i rows absent d d.parent_id child h.0)
  | inr other ↦ rw other (no_children tenant i rows absent ds h.1)
]

is_some-false : {A : Type 0} (o : Option A) → is_some o ≡ false → o ≡ none
is_some-false none e = refl
is_some-false (some a) e = cc

id_is_free :
    (new : Delegation) (rows : List Delegation)
    → is_duplicate new rows ≡ false
    → find (has_id new.id) rows ≡ none
id_is_free new rows h = is_some-false (find (has_id new.id) rows) (ground arith)

module _ (new : Delegation) (rows : List Delegation) (free : find (has_id new.id) rows ≡ none) where
  -- A hop that was found before is found after.
  find-cons_new :
      (tenant i : Uuid) {d : Delegation}
      → find (is_delegation tenant i) rows ≡ some d
      → find (is_delegation tenant i) (new ∷ rows) ≡ some d
  unfolding find
  find-cons_new tenant i e = elim (Bool-cases (is_delegation tenant i new)) [
    | inl same ↦
        let is_new : new.id ≡ i = ground arith in
        let missing = find_key_of_none tenant new.id rows free in
        absurd (cc (sym e ∙ ap (λ k. find (is_delegation tenant k) rows) (sym is_new) ∙ missing))
    | inr other ↦ rw other e
  ]

  WithinParent-cons_new :
      (d : Delegation) (o : Option Uuid) → WithinParent rows d o → WithinParent (new ∷ rows) d o
  WithinParent-cons_new d none w = w
  WithinParent-cons_new d (some i) (parent, found, narrows) =
      (parent, find-cons_new d.tenant_id i found, narrows)

  attenuated-cons_new :
      Within rows new → All (Within rows) rows → All (Within (new ∷ rows)) (new ∷ rows)
  attenuated-cons_new w h = (
    WithinParent-cons_new (frozen new) new.parent_id w,
    All-map (Within rows) (Within (new ∷ rows)) (λ d. WithinParent-cons_new (frozen d) d.parent_id)
        rows h,
  )

  keyed-cons_new :
      ((tenant i : Uuid) → count_where (is_delegation tenant i) rows ≤ 1)
      → (tenant i : Uuid) → count_where (is_delegation tenant i) (new ∷ rows) ≤ 1
  unfolding count_where
  keyed-cons_new h tenant i = elim (Bool-cases (is_delegation tenant i new)) [
    | inl same ↦
        let is_new : new.id ≡ i = ground arith in
        let missing =
          count_of_none (is_delegation tenant new.id) rows
            (find_key_of_none tenant new.id rows free) in
        rw same
          (omega (arith, subst (λ k. count_where (is_delegation tenant k) rows ≡ 0) is_new missing))
    | inr other ↦ rw other (h tenant i)
  ]

-- The database's `delegation` table is sound.
abbrev pub HasSoundChain : Db → Type 0
HasSoundChain s = IsSound s.delegations

IsUnused-of_checks :
    (new : Delegation)
    → new.allocated_minor ≡ pos 0
    → new.spent_minor ≡ pos 0
    → meets_checks new ≡ true
    → IsUnused new
unfolding meets_checks
IsUnused-of_checks new a e h = record {
  nothing_promised = a;
  nothing_spent = e;
  budget_nonneg = ground arith;
}

Narrows-of_child :
    (new parent : Delegation)
    → child_failure new parent ≡ none
    → Narrows (frozen new) (frozen parent)
unfolding child_failure
Narrows-of_child new parent h = record {
  depth = ground arith;
  delegator = ground arith;
  root_actor = ground arith;
  policy_version = ground arith;
  budget = ground arith;
  max_amount = ground arith;
  expiry = ground arith;
  scope = ground arith;
}

nothing_below :
    (new : Delegation) (rows some_rows : List Delegation)
    → find (has_id new.id) rows ≡ none
    → All (Within rows) some_rows
    → sum_where (is_child_of new.tenant_id new.id) budget_of some_rows ≡ pos 0
nothing_below new rows some_rows free h =
    sum_of_none (is_child_of new.tenant_id new.id) budget_of some_rows
      (no_children new.tenant_id new.id rows free some_rows h)

root_is_Within :
    (new : Delegation) (rows : List Delegation)
    → new.parent_id ≡ none
    → meets_checks new ≡ true
    → Within rows new
unfolding meets_checks
root_is_Within new rows top h = subst (WithinParent rows (frozen new)) (sym top) (ground arith)

IsSound-root :
    {new : Delegation} {s s' : Db}
    → IsUnused new
    → RootInserted new s s'
    → HasSoundChain s
    → HasSoundChain s'
IsSound-root {new} {s} u r h =
    let free = id_is_free new s.delegations r.unique in
    subst HasSoundChain (sym r.result) (record {
      keyed = keyed-cons_new new s.delegations free h.keyed;
      partitioned =
          IsPartitioned-root new s.delegations u r.is_root
            (nothing_below new s.delegations s.delegations free h.attenuated) h.partitioned;
      attenuated =
          attenuated-cons_new new s.delegations free
            (root_is_Within new s.delegations r.is_root r.checked) h.attenuated;
    })

map-none : (f : Delegation → Delegation) (o : Option Delegation) → Option.map f o ≡ none → o ≡ none
map-none f none e = refl
map-none f (some d) e = cc

-- Before the insert, nobody in the table has the new key either.
free_before :
    (new : Delegation) (i : Uuid) (rows : List Delegation)
    → find (has_id new.id) (after_allocation new i rows) ≡ none
    → find (has_id new.id) rows ≡ none
free_before new i rows free = map-none _ (find (has_id new.id) rows) (
    sym (
      find-update_where (has_room new.tenant_id i new.budget_minor) (has_id new.id)
        (allocate new.budget_minor) (λ d. refl) rows)
    ∙ free)

parent_is_other :
    (new parent : Delegation) (i : Uuid) (rows : List Delegation)
    → find (is_delegation new.tenant_id i) rows ≡ some parent
    → find (has_id new.id) rows ≡ none
    → i ≢ new.id
parent_is_other new parent i rows found free same =
    let missing = find_key_of_none new.tenant_id new.id rows free in
    cc (sym found ∙ ap (λ k. find (is_delegation new.tenant_id k) rows) same ∙ missing)

IsSound-child :
    {new : Delegation} {s s' : Db}
    → IsUnused new
    → ChildInserted new s s'
    → HasSoundChain s
    → HasSoundChain s'
IsSound-child {new} {s} u r h =
    let rows = s.delegations in
    let p = has_room new.tenant_id r.i new.budget_minor in
    let f = allocate new.budget_minor in
    let rows' = after_allocation new r.i rows in
    let free' = id_is_free new rows' r.unique in
    let free = free_before new r.i rows free' in
    let inside =
      WithinParent-update_where p f (λ d. refl) rows (frozen new) (some r.i)
        (r.parent, r.found, Narrows-of_child new r.parent r.within) in
    subst HasSoundChain (sym r.result) (record {
      keyed = keyed-cons_new new rows' free' (keyed-update_where p f (λ d. refl) rows h.keyed);
      partitioned =
          IsPartitioned-child new r.i rows r.is_child u
            (parent_is_other new r.parent r.i rows r.found free) (h.keyed new.tenant_id r.i) r.room
            (nothing_below new rows rows free h.attenuated) h.partitioned;
      attenuated =
          attenuated-cons_new new rows' free'
            (subst (WithinParent rows' (frozen new)) (sym r.is_child) inside)
            (attenuated-update_where p f (λ d. refl) rows h.attenuated);
    })

-- Inserting a hop that has promised and spent nothing keeps the table sound.
pub insert-Keeps_sound :
    (new : Delegation)
    → new.allocated_minor ≡ pos 0
    → new.spent_minor ≡ pos 0
    → Keeps HasSoundChain (insert_delegation new)
unfolding insert_delegation
insert-Keeps_sound new a e = Keeps-atomically_ok _ (λ s _ t h returned.
    elim (insert_delegation-ok new s returned) [
      | inl r ↦ IsSound-root (IsUnused-of_checks new a e r.checked) r h
      | inr r ↦ IsSound-child (IsUnused-of_checks new a e r.checked) r h
    ])
