-- ===== src/Chain/Liveness.antt =====
-- A spend is allowed by every hop above it (`spend`, `_locked_chain` and `resolve_chain` of
-- delegation/chain.py).
use trust_gate_merchant_copi.Base.{
  ℕ, zero, suc, ◌+◌, ◌<◌, ◌≤◌, ◌≡◌, refl, sym, ap, ◌∙◌, subst, Bool, true, false, ◌&&◌, ◌||◌,
  Option, none, some, List, [], ◌∷◌, map, leb, ◌==◌, is_some, arith, Bool-cases, inl, inr, ℤ, ◌≤ℤ◌,
  find, select, All, All-find, find-holds,
}
use trust_gate_merchant_copi.Models.{Uuid, Text, Time, Delegation, Db, is_delegation}
use trust_gate_merchant_copi.Session.{Result, ok, raise}
use trust_gate_merchant_copi.Session.Returns.{
  bind-ok, gets-ok, raise_if-ok, raise_if-last, pure-last,
}
use trust_gate_merchant_copi.Chain.Rows.{Env, max_depth, member}
use trust_gate_merchant_copi.Chain.Walk.{
  walk, insert_by_depth, sort_by_depth, check_chain, resolve_chain, locked_chain,
}
use trust_gate_merchant_copi.Chain.Spend.{check_hops, spend}
use trust_gate_merchant_copi.Chain.Reads.{resolve_chain-Keeps}

-- `d` stands `n` levels above the hop `i`, by the parents that the rows name.
pub data Above (tenant : Uuid) (rows : List Delegation) : ℕ → Uuid → Delegation → Type 0 where
  here :
      {i : Uuid} {d : Delegation}
      → find (is_delegation tenant i) rows ≡ some d
      → Above tenant rows 0 i d
  up :
      {n : ℕ} {i j : Uuid} {hop d : Delegation}
      → find (is_delegation tenant i) rows ≡ some hop
      → hop.parent_id ≡ some j
      → Above tenant rows n j d
      → Above tenant rows (suc n) i d

-- The hop agrees to the spend.
pub record Agrees (now : Time) (amount : ℤ) (sku : Text) (d : Delegation) : Type 0 where
  pub unrevoked : d.revoked_at ≡ none
  pub unexpired : now < d.expires_at
  pub within_cap : amount ≤ℤ d.max_amount_minor
  pub in_scope : member sku d.allowed_skus ≡ true

abbrev ids : List Delegation → List Uuid
ids rows = map (λ d. d.id) rows

insert-member :
    (i : Uuid) (d : Delegation) (xs : List Delegation)
    → member i (ids (insert_by_depth d xs)) ≡ (i == d.id || member i (ids xs))
unfolding member insert_by_depth
insert-member i d [] = ground arith
insert-member i d (x ∷ xs) = ground (arith, insert-member i d xs)

sort-member :
    (i : Uuid) (xs : List Delegation) → member i (ids (sort_by_depth xs)) ≡ member i (ids xs)
unfolding member sort_by_depth
sort-member i [] = refl
sort-member i (x ∷ xs) =
    insert-member i x (sort_by_depth xs) ∙ ap (λ b. i == x.id || b) (sort-member i xs)

module _ (P : Delegation → Type 0) where
  All-insert :
      (d : Delegation) (xs : List Delegation) → All P (insert_by_depth d xs) → P d × All P xs
  unfolding insert_by_depth
  All-insert d [] h = h
  All-insert d (x ∷ xs) h = elim (Bool-cases (leb d.depth x.depth)) [
    | inl e ↦ rw e at h
    | inr e ↦
        let (first, rest) : P x × All P (insert_by_depth d xs) = rw e at h in
        let (p, q) = All-insert d xs rest in (p, (first, q))
  ]

  All-sort : (xs : List Delegation) → All P (sort_by_depth xs) → All P xs
  unfolding sort_by_depth
  All-sort [] h = tt
  All-sort (x ∷ xs) h = let (p, q) = All-insert x (sort_by_depth xs) h in (p, All-sort xs q)

  All-select :
      (p : Delegation → Bool) (xs : List Delegation)
      → All P (select p xs)
      → All (λ d. p d ≡ true → P d) xs
  unfolding select
  All-select p [] h = tt
  All-select p (x ∷ xs) h = elim (Bool-cases (p x)) [
    | inl e ↦
        let (first, rest) : P x × All P (select p xs) = rw e at h in
        ((λ _. first), All-select p xs rest)
    | inr e ↦ ((λ e'. absurd (cc (sym e ∙ e'))), All-select p xs (rw e at h))
  ]

-- A round of the walk, from the row that it found.
abbrev next_hops : ℕ → Uuid → List Delegation → Option Delegation → List Delegation
next_hops fuel tenant rows none = []
next_hops fuel tenant rows (some hop) = hop ∷ walk fuel tenant hop.parent_id rows

walk-found :
    (tenant : Uuid) (rows : List Delegation) (fuel : ℕ) (i : Uuid) {hop : Delegation}
    → find (is_delegation tenant i) rows ≡ some hop
    → walk (suc fuel) tenant (some i) rows ≡ hop ∷ walk fuel tenant hop.parent_id rows
unfolding walk
walk-found tenant rows fuel i found = ap (next_hops fuel tenant rows) found

walk-member :
    (tenant : Uuid) (rows : List Delegation) (fuel n : ℕ) (i : Uuid) (d : Delegation)
    → n < fuel
    → Above tenant rows n i d
    → member d.id (ids (walk fuel tenant (some i) rows)) ≡ true
unfolding member
walk-member tenant rows zero n i d below above = absurd (omega (arith, below))
walk-member tenant rows (suc fuel) zero i d below (here found) =
    ap (λ hops. member d.id (ids hops)) (walk-found tenant rows fuel i found) ∙ ground arith
walk-member tenant rows (suc fuel) (suc n) i d below (up {j = j} {hop = hop} found parent above) =
    let rest =
      subst (λ o. member d.id (ids (walk fuel tenant o rows)) ≡ true) (sym parent)
        (walk-member tenant rows fuel n j d (omega (arith, below)) above) in
    ap (λ hops. member d.id (ids hops)) (walk-found tenant rows fuel i found)
    ∙ ap (λ b. d.id == hop.id || b) rest
    ∙ ground arith

unrevoked_lem : (o : Option Time) → is_some o ≡ false → o ≡ none
unrevoked_lem none h = refl
unrevoked_lem (some t) h = absurd (cc h)

check_hops-ok :
    (chain : List Delegation) (now : Time) (amount : ℤ) (sku : Text) (s : Db) {u : Unit {0}}
    {t : Db}
    → check_hops chain now amount sku s ≡ (ok u, t)
    → All (Agrees now amount sku) chain
unfolding check_hops
check_hops-ok [] now amount sku s h = tt
check_hops-ok (d ∷ ds) now amount sku s h =
    let (_, s₁, h₁, h₂) = bind-ok _ _ s h in
    let (unrevoked, h₃) = raise_if-ok _ _ _ s h₁ in
    let (unexpired, _) = raise_if-last _ _ s h₃ in
    let (within_cap, h₄) = raise_if-ok _ _ _ s₁ h₂ in
    let (in_scope, h₅) = raise_if-ok _ _ _ s₁ h₄ in
    (
      record {
        unrevoked = unrevoked_lem d.revoked_at unrevoked;
        unexpired = ground arith;
        within_cap = ground arith;
        in_scope = ground arith;
      },
      check_hops-ok ds now amount sku s₁ h₅,
    )

check_chain-ok :
    (rows : List Delegation) (s : Db) {chain : List Delegation} {t : Db}
    → check_chain rows s ≡ (ok chain, t)
    → chain ≡ rows
unfolding check_chain raise
check_chain-ok [] s h = absurd (cc (ap (λ (p : Result (List Delegation) × Db). p.0) h))
check_chain-ok (d ∷ ds) s h =
    let (_, h₁) = raise_if-ok _ _ _ s h in
    let (_, h₂) = raise_if-ok _ _ _ s h₁ in (pure-last _ s h₂).0

-- The rows that are locked: those of the tenant that the walk found.
abbrev is_walked : Uuid → Uuid → List Delegation → Delegation → Bool
is_walked tenant i rows d =
    d.tenant_id == tenant
    && member d.id (ids (sort_by_depth (walk (max_depth + 1) tenant (some i) rows)))

locked_chain-ok :
    (tenant i : Uuid) (s : Db) {chain : List Delegation} {t : Db}
    → locked_chain tenant i s ≡ (ok chain, t)
    → chain ≡ sort_by_depth (select (is_walked tenant i s.delegations) s.delegations)
unfolding locked_chain resolve_chain
locked_chain-ok tenant i s h =
    let (walked, s₁, h₁, h₂) = bind-ok _ _ s h in
    let same : s₁ ≡ s =
      subst (λ x. x ≡ s) (ap (λ (p : Result (List Delegation) × Db). p.1) h₁)
        ((resolve_chain-Keeps (λ x. x ≡ s) tenant i).at s refl) in
    let found = check_chain-ok _ s (gets-ok _ _ s h₁) in
    (pure-last _ s₁ (gets-ok _ _ s₁ h₂)).0 ∙ (λ k.
      sort_by_depth
        (select (λ d. d.tenant_id == tenant && member d.id (ids (found k))) (same k).delegations))

-- A spend that returns was agreed to by the hop it is charged to and by every hop above it, up to the
-- eight levels that a row of the table may be below its root: none of them is revoked or expired, and
-- each allows the amount and the item. So the revocation or expiry of any one stops all spends below
-- it.
pub spend_agreed_by_chain :
    (env : Env) (tenant i : Uuid) (amount : ℤ) (sku : Text) (reference : Uuid) (c : Option Uuid)
    (s t : Db) (n : ℕ) (d : Delegation)
    → spend env tenant i amount sku reference c s ≡ (ok tt, t)
    → find (is_delegation tenant d.id) s.delegations ≡ some d
    → Above tenant s.delegations n i d
    → n ≤ max_depth
    → Agrees env.now amount sku d
unfolding spend
spend_agreed_by_chain env tenant i amount sku reference c s t n d h in_table above near =
    let (_, h₁) = raise_if-ok _ _ _ s h in
    let (chain, s₁, h₂, h₃) = bind-ok _ _ s h₁ in
    let (_, h₄) = raise_if-ok _ _ _ s₁ (gets-ok _ _ s₁ h₃) in
    let (_, s₂, h₅, _) = bind-ok _ _ s₁ h₄ in
    let agreed = check_hops-ok chain env.now amount sku s₁ h₅ in
    let P = Agrees env.now amount sku in
    let selected =
      All-sort P (select (is_walked tenant i s.delegations) s.delegations)
        (subst (All P) (locked_chain-ok tenant i s h₂) agreed) in
    let all_walked = All-select P (is_walked tenant i s.delegations) s.delegations selected in
    let own : d.tenant_id ≡ tenant =
      ground (arith, find-holds (is_delegation tenant d.id) s.delegations in_table) in
    let walked : is_walked tenant i s.delegations d ≡ true = ground (
      arith,
      own,
      sort-member d.id (walk (max_depth + 1) tenant (some i) s.delegations),
      walk-member tenant s.delegations (max_depth + 1) n i d (omega (arith, near)) above,
    ) in
    All-find (is_delegation tenant d.id) (λ x. is_walked tenant i s.delegations x ≡ true → P x)
      s.delegations all_walked in_table walked
