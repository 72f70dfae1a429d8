-- ===== src/Chain/Insert.antt =====
-- What the statements on the `delegation` table have done when they return: an insert with its
-- trigger (alembic/versions/0016), and an update with its CHECKs.
use trust_gate_merchant_copi.Base.{
  ℕ, ◌≡◌, refl, sym, ap, ◌∙◌, subst, ◌≢◌, ◌⊎◌, inl, inr, Bool, true, false, not, ◌&&◌, ◌||◌, Option,
  none, some, List, ◌∷◌, arith, ◌==◌, is_some, find, update_where, count_where, all_where,
}
use trust_gate_merchant_copi.Models.{Uuid, DbError, SpendingPolicy, Delegation, Db, is_delegation}
use trust_gate_merchant_copi.Session.{Result, ok, Action, pure, raise, ◌>>=◌}
use trust_gate_merchant_copi.Session.Returns.{
  bind-ok, gets-ok, or_raise-ok, raise_if-ok, modify-ok, raise_if-last, modify-last, pure-last,
  atomically-ok,
}
use trust_gate_merchant_copi.Chain.Rows.{
  is_live, meets_checks, root_failure, child_failure, raise_first, enforce_delegation_attenuation,
  has_room, allocate, is_policy, is_live_holder, insert_delegation, insert_row, update_delegations,
}

-- The rows after a child of `i` has taken its budget.
abbrev pub after_allocation : Delegation → Uuid → List Delegation → List Delegation
after_allocation new i rows =
    update_where (has_room new.tenant_id i new.budget_minor) (allocate new.budget_minor) rows

-- The unique keys of `new` are free.
abbrev pub is_duplicate : Delegation → List Delegation → Bool
is_duplicate new rows =
    is_some (find (λ d. d.id == new.id) rows)
    || (is_live new && is_some (find (is_live_holder new.tenant_id new.delegate_actor_id) rows))

not-false : {b : Bool} → not b ≡ false → b ≡ true
not-false {b} h = ground arith

nonzero : {n m : ℕ} → (n == 0) ≡ false → n ≡ m → m ≢ 0
nonzero h e z = ground arith

pub record RootInserted (new : Delegation) (s s' : Db) : Type 0 where
  pub rules : SpendingPolicy
  pub is_root : new.parent_id ≡ none
  pub found : find (is_policy new.tenant_id new.policy_id) s.policies ≡ some rules
  pub within : root_failure new rules ≡ none
  pub checked : meets_checks new ≡ true
  pub unique : is_duplicate new s.delegations ≡ false
  pub result : s' ≡ record s { delegations = new ∷ s.delegations }

pub record ChildInserted (new : Delegation) (s s' : Db) : Type 0 where
  pub i : Uuid
  pub parent : Delegation
  pub is_child : new.parent_id ≡ some i
  pub found : find (is_delegation new.tenant_id i) s.delegations ≡ some parent
  pub within : child_failure new parent ≡ none
  pub room : count_where (has_room new.tenant_id i new.budget_minor) s.delegations ≢ 0
  pub updated :
      all_where
        (has_room new.tenant_id i new.budget_minor)
        (λ d. meets_checks (allocate new.budget_minor d))
        s.delegations
      ≡ true
  pub checked : meets_checks new ≡ true
  pub unique : is_duplicate new (after_allocation new i s.delegations) ≡ false
  pub result : s' ≡ record s { delegations = new ∷ after_allocation new i s.delegations }

row_ok :
    (new : Delegation) (s : Db) {u : Unit {0}} {t : Db}
    → insert_row new s ≡ (ok u, t)
    → (meets_checks new ≡ true)
      × (is_duplicate new s.delegations ≡ false)
      × (t ≡ record s { delegations = new ∷ s.delegations })
unfolding insert_row
row_ok new s h =
    let (checked, h₁) = raise_if-ok _ _ _ s h in
    let (unique, h₂) = raise_if-ok _ _ _ s (gets-ok _ _ s (gets-ok _ _ s h₁)) in
    (not-false checked, unique, modify-last _ s h₂)

-- An UPDATE that returns has changed the selected rows, each of which meets the CHECKs.
pub update_delegations-ok :
    (p : Delegation → Bool) (f : Delegation → Delegation) (s : Db) {n : ℕ} {t : Db}
    → update_delegations p f s ≡ (ok n, t)
    → (all_where p (λ d. meets_checks (f d)) s.delegations ≡ true)
      × (n ≡ count_where p s.delegations)
      × (t ≡ record s { delegations = update_where p f s.delegations })
unfolding update_delegations
update_delegations-ok p f s h =
    let (passed, h₁) = raise_if-ok _ _ _ s (gets-ok _ _ s (gets-ok _ _ s (atomically-ok _ s h))) in
    let (n, t) = pure-last _ _ (modify-ok _ _ s h₁) in (not-false passed, n, t)

raise_first-ok :
    (o : Option DbError) (f : Unit {0} → Action (Unit {0})) (s : Db) {u : Unit {0}} {t : Db}
    → (raise_first o >>= f) s ≡ (ok u, t)
    → (o ≡ none) × (f tt s ≡ (ok u, t))
unfolding ◌>>=◌
raise_first-ok none f s h = (refl, h)
raise_first-ok (some e) f s h = absurd (cc (ap (λ (p : Result (Unit {0}) × Db). p.0) h))

raise_first-last :
    (o : Option DbError) (s : Db) {u : Unit {0}} {t : Db}
    → raise_first o s ≡ (ok u, t)
    → (o ≡ none) × (t ≡ s)
unfolding pure raise
raise_first-last none s h = (refl, sym (ap (λ (p : Result (Unit {0}) × Db). p.1) h))
raise_first-last (some e) s h = absurd (cc (ap (λ (p : Result (Unit {0}) × Db). p.0) h))

-- The body of the insert, for the parent that it was given.
insert_body : Delegation → Option Uuid → Action (Unit {0})
insert_body new o = enforce_delegation_attenuation new o >>= λ _. insert_row new

insert_body-ok :
    (new : Delegation) (o : Option Uuid) (s : Db) {u : Unit {0}} {t : Db}
    → new.parent_id ≡ o
    → insert_body new o s ≡ (ok u, t)
    → RootInserted new s t ⊎ ChildInserted new s t
unfolding insert_body enforce_delegation_attenuation
insert_body-ok new none s {t = t} top h =
    let (_, s₁, h₁, h₂) = bind-ok _ _ s h in
    let (rules, found, h₃) = or_raise-ok _ _ _ s (gets-ok _ _ s h₁) in
    let (within, same) = raise_first-last _ s h₃ in
    let (checked, unique, result) =
      row_ok new s (subst (λ x. insert_row new x ≡ (ok tt, t)) same h₂) in
    inl (record {
      rules = rules;
      is_root = top;
      found = found;
      within = within;
      checked = checked;
      unique = unique;
      result = result;
    })
insert_body-ok new (some i) s {t = t} below h =
    let (_, s₁, h₁, h₂) = bind-ok _ _ s h in
    let (parent, found, h₃) = or_raise-ok _ _ _ s (gets-ok _ _ s h₁) in
    let (within, h₄) = raise_first-ok _ _ s h₃ in
    let (n, s₂, h₅, h₆) = bind-ok _ _ s h₄ in
    let (updated, rows, after) = update_delegations-ok _ _ s h₅ in
    let (room, same) = raise_if-last _ _ s₂ h₆ in
    let (checked, unique, result) =
      row_ok new (record s { delegations = after_allocation new i s.delegations })
        (subst (λ x. insert_row new x ≡ (ok tt, t)) (same ∙ after) h₂) in
    inr (record {
      i = i;
      parent = parent;
      is_child = below;
      found = found;
      within = within;
      room = nonzero room rows;
      updated = updated;
      checked = checked;
      unique = unique;
      result = result;
    })

-- An insert that returns has added a root within its policy, or a child within its parent, whose
-- allocation it took.
pub insert_delegation-ok :
    (new : Delegation) (s : Db) {u : Unit {0}} {t : Db}
    → insert_delegation new s ≡ (ok u, t)
    → RootInserted new s t ⊎ ChildInserted new s t
unfolding insert_delegation insert_body
insert_delegation-ok new s h = insert_body-ok new new.parent_id s refl (atomically-ok _ s h)
