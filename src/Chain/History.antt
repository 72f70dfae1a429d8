-- ===== src/Chain/History.antt =====
-- Histories of calls into delegation/chain.py: any calls, by anyone, in any order, some of which
-- raise. A caller that catches the exception goes on from the database that the call left.
use trust_gate_merchant_copi.Base.{ℕ, Option, List, [], ◌∷◌, ℤ, ◌≤ℤ◌, All, arith, count_where}
use trust_gate_merchant_copi.Models.{Uuid, Text, Time, SpendingPolicy, Bounds, Db}
use trust_gate_merchant_copi.Chain.Rows.{Env}
use trust_gate_merchant_copi.Chain.Grant.{grant_root, grant}
use trust_gate_merchant_copi.Chain.Walk.{revoke, assert_chain_live}
use trust_gate_merchant_copi.Chain.Spend.{spend, release}
use trust_gate_merchant_copi.Chain.Reads.{assert_chain_live-Keeps}
use trust_gate_merchant_copi.Chain.Budget.{branch_spent}
use trust_gate_merchant_copi.Chain.Budget.Tree.{branch-le-budget}
use trust_gate_merchant_copi.Chain.Sound.{IsSound}
use trust_gate_merchant_copi.Chain.Sound.Insert.{HasSoundChain}
use trust_gate_merchant_copi.Chain.Sound.Operations.{
  grant_root-Keeps, grant-Keeps, revoke-Keeps, spend-Keeps, release-Keeps,
}

pub data Call : Type 0 where
  grant_root_call : Env → Uuid → SpendingPolicy → Text → Text → Bounds → Option Uuid → Call
  grant_call : Env → Uuid → Uuid → Text → Text → Bounds → Option Uuid → Call
  revoke_call : Env → Uuid → Uuid → Option Time → Option Uuid → Call
  assert_live_call : Uuid → Uuid → Time → Call
  spend_call : Env → Uuid → Uuid → ℤ → Text → Uuid → Option Uuid → Call
  release_call : Env → Uuid → Uuid → Time → Option Uuid → Option Uuid → Call

-- The database after a call.
unfoldable pub after : Call → Db → Db
after (grant_root_call env t p a b bounds c) s = (grant_root env t p a b bounds c s).1
after (grant_call env t i a b bounds c) s = (grant env t i a b bounds c s).1
after (revoke_call env t i at c) s = (revoke env t i at c s).1
after (assert_live_call t i now) s = (assert_chain_live t i now s).1
after (spend_call env t i n sku r c) s = (spend env t i n sku r c s).1
after (release_call env t r at c q) s = (release env t r at c q s).1

unfoldable pub after_all : List Call → Db → Db
after_all [] s = s
after_all (call ∷ calls) s = after_all calls (after call s)

after-keeps : (call : Call) (s : Db) → HasSoundChain s → HasSoundChain (after call s)
unfolding after
after-keeps (grant_root_call env t p a b bounds c) s h =
    (grant_root-Keeps env t p a b bounds c).at s h
after-keeps (grant_call env t i a b bounds c) s h = (grant-Keeps env t i a b bounds c).at s h
after-keeps (revoke_call env t i at c) s h = (revoke-Keeps env t i at c).at s h
after-keeps (assert_live_call t i now) s h = (assert_chain_live-Keeps HasSoundChain t i now).at s h
after-keeps (spend_call env t i n sku r c) s h = (spend-Keeps env t i n sku r c).at s h
after-keeps (release_call env t r at c q) s h = (release-Keeps env t r at c q).at s h

after_all-keeps : (calls : List Call) (s : Db) → HasSoundChain s → HasSoundChain (after_all calls s)
unfolding after_all
after_all-keeps [] s h = h
after_all-keeps (call ∷ calls) s h = after_all-keeps calls (after call s) (after-keeps call s h)

-- From a sound table, after any calls whatever, raised or not, the table is sound: no two hops share
-- a key, each hop has promised exactly the budgets of its children and its promises and spending fit
-- its budget, and each hop that is not a root is one level below its parent, cut by the parent's
-- holder, and no wider than the parent in budget, payment cap, expiry and scope.
pub history-IsSound :
    (calls : List Call) (s : Db) → IsSound s.delegations → IsSound (after_all calls s).delegations
history-IsSound calls s h = after_all-keeps calls s h

-- From a sound table, after any calls whatever, whatever a hop and all hops delegated below it (to
-- any depth `n`) have spent together is within that hop's own budget.
pub history_bounds_branches :
    (calls : List Call) (s : Db) (n : ℕ)
    → IsSound s.delegations
    → let rows = (after_all calls s).delegations in
      All (λ d. branch_spent n rows d ≤ℤ d.budget_minor) rows
history_bounds_branches calls s n h =
    branch-le-budget n (after_all calls s).delegations (after_all-keeps calls s h).partitioned

pub empty-IsSound : IsSound []
unfolding count_where
empty-IsSound = record { keyed = λ t i. omega arith; partitioned = tt; attenuated = tt }
