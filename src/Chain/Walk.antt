-- ===== src/Chain/Walk.antt =====
-- `active_delegation_for`, `resolve_chain`, `_locked_chain`, `_refuse_if_not_live`,
-- `assert_chain_live` and `revoke` of delegation/chain.py.
use trust_gate_merchant_copi.Base.{
  ℕ, zero, suc, ◌+◌, not, ◌&&◌, ◌||◌, Option, none, some, List, [], ◌∷◌, map, ltb, leb, ◌==◌,
  if◌then◌else◌, is_some, find, select, length,
}
use trust_gate_merchant_copi.Models.{
  Uuid, Text, Time, delegation_refused, delegation_not_found, chain_broken, delegation_revoked,
  delegation_expired, already_revoked, Delegation, delegation_was_revoked, revoked, Db,
  is_delegation,
}
use trust_gate_merchant_copi.Session.{
  Action, pure, raise, gets, modify, raise_if, add_audit, ◌>>=◌, ◌>>◌,
}
use trust_gate_merchant_copi.Chain.Rows.{
  Env, max_depth, is_live_holder, member, update_delegations, evidence,
}
use trust_gate_merchant_copi.Chain.Grant.{revoke_at, is_live_hop}

unfoldable pub active_delegation_for : Uuid → Text → Time → Db → Option Delegation
active_delegation_for tenant actor now s =
    find (λ d. is_live_holder tenant actor d && ltb now d.expires_at) s.delegations

-- The recursive query, from a hop towards its root. A row's depth is at most `max_depth` and one
-- more than its parent's, so `max_depth + 1` rounds reach the root.
unfoldable pub walk : ℕ → Uuid → Option Uuid → List Delegation → List Delegation
walk zero tenant key rows = []
walk (suc n) tenant none rows = []
walk (suc n) tenant (some i) rows = elim (find (is_delegation tenant i) rows) [
  | none ↦ []
  | some hop ↦ hop ∷ walk n tenant hop.parent_id rows
]

-- `sorted(rows, key=lambda hop: hop.depth)`, which is stable.
unfoldable pub insert_by_depth : Delegation → List Delegation → List Delegation
insert_by_depth d [] = d ∷ []
insert_by_depth d (x ∷ xs) =
    let rest = insert_by_depth d xs in if leb d.depth x.depth then d ∷ x ∷ xs else x ∷ rest

unfoldable pub sort_by_depth : List Delegation → List Delegation
sort_by_depth [] = []
sort_by_depth (d ∷ ds) = insert_by_depth d (sort_by_depth ds)

-- `chain[-1]`
abbrev pub last_of : Delegation → List Delegation → Delegation
last_of d [] = d
last_of d (x ∷ xs) = last_of x xs

-- The tests of a sorted chain.
unfoldable pub check_chain : List Delegation → Action (List Delegation)
check_chain [] = raise (delegation_refused delegation_not_found)
check_chain (root ∷ rest) = do
  raise_if (not (root.depth == 0) || is_some root.parent_id) (delegation_refused chain_broken)
  raise_if (not (length (root ∷ rest) == ((last_of root rest).depth + 1)))
      (delegation_refused chain_broken)
  pure (root ∷ rest)

unfoldable pub resolve_chain : Uuid → Uuid → Action (List Delegation)
resolve_chain tenant i = do
  rows ← gets (λ s. walk (max_depth + 1) tenant (some i) s.delegations)
  check_chain (sort_by_depth rows)

-- The rows are locked root first: the lock order is the depth order of the result.
unfoldable pub locked_chain : Uuid → Uuid → Action (List Delegation)
locked_chain tenant i = do
  walked ← resolve_chain tenant i
  rows ← gets (λ s.
      select (λ d. d.tenant_id == tenant && member d.id (map (λ hop. hop.id) walked)) s.delegations)
  pure (sort_by_depth rows)

abbrev pub refuse_if_not_live : Delegation → Time → Action (Unit {0})
refuse_if_not_live hop now = do
  raise_if (is_some hop.revoked_at) (delegation_refused delegation_revoked)
  raise_if (leb hop.expires_at now) (delegation_refused delegation_expired)

-- `for hop in chain`
unfoldable pub refuse_dead_hops : List Delegation → Time → Action (Unit {0})
refuse_dead_hops [] now = pure tt
refuse_dead_hops (hop ∷ hops) now = do refuse_if_not_live hop now; refuse_dead_hops hops now

unfoldable pub assert_chain_live : Uuid → Uuid → Time → Action (List Delegation)
assert_chain_live tenant i now = do
  chain ← locked_chain tenant i
  refuse_dead_hops chain now
  pure chain

abbrev or_now : Option Time → Time → Time
or_now none t = t
or_now (some t) _ = t

unfoldable pub revoke : Env → Uuid → Uuid → Option Time → Option Uuid → Action (Unit {0})
revoke env tenant i at correlation = do
  rows ← update_delegations (is_live_hop tenant i) (revoke_at (or_now at env.db_now))
  present ← gets (λ s. is_some (find (is_delegation tenant i) s.delegations))
  raise_if (not (rows == 1))
      (delegation_refused (if present then already_revoked else delegation_not_found))
  modify (
      add_audit
        (evidence tenant i correlation env.new_correlation delegation_was_revoked (revoked i) none))
