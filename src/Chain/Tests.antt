-- ===== src/Chain/Tests.antt =====
-- The theorems of delegation chains at a short history.
use trust_gate_merchant_copi.Base.{
  arith, Option, some, select, ◌≡◌, refl, none, List, [], ◌∷◌, ℤ, pos, ◌≤ℤ◌, ◌+ℤ◌, ◌-ℤ◌, all_where,
  All, find, update_where, count_where,
}
use trust_gate_merchant_copi.Models.{Delegation, Uuid, Text, Db, is_delegation}
use trust_gate_merchant_copi.Session.{◌>>=◌}
use trust_gate_merchant_copi.Fixtures.{small_policy, policy_db, env_of, bounds_of}
use trust_gate_merchant_copi.Chain.Rows.{
  meets_checks, update_delegations, member, contained_in, root_failure, child_failure,
  enforce_delegation_attenuation, insert_row, insert_delegation,
}
use trust_gate_merchant_copi.Chain.Grant.{
  settle_holder, make_room_for, root_row, grant_root, insert_child, grant,
}
use trust_gate_merchant_copi.Chain.Walk.{
  walk, insert_by_depth, sort_by_depth, check_chain, resolve_chain, locked_chain, refuse_dead_hops,
  assert_chain_live, revoke,
}
use trust_gate_merchant_copi.Chain.Spend.{check_hops, charge_row, charge_once, spend, release}
use trust_gate_merchant_copi.Chain.Budget.{branch_spent}
use trust_gate_merchant_copi.Chain.Sound.{IsSound}
use trust_gate_merchant_copi.Chain.Retry.{spend_charges_once}
use trust_gate_merchant_copi.Chain.Liveness.{here, up, Agrees, spend_agreed_by_chain}
use trust_gate_merchant_copi.Chain.History.{
  Call, after, grant_root_call, grant_call, revoke_call, spend_call, release_call, after_all,
  empty-IsSound, history-IsSound, history_bounds_branches,
}

-- The actor 31 grants 400 to the actor 32, who cuts 150 for 33, who spends 60 for the item 71.
abbrev calls : List Call
calls =
    grant_root_call (env_of 41) 1 small_policy 31 32 (bounds_of 400) none
    ∷ grant_call (env_of 42) 1 41 32 33 (bounds_of 150) none
    ∷ spend_call (env_of 51) 1 42 (pos 60) 71 61 none
    ∷ grant_call (env_of 43) 1 41 32 34 (bounds_of 300) none
    ∷ revoke_call (env_of 44) 1 41 none none
    ∷ []

abbrev ledger_of : List Delegation → List (ℤ × ℤ × ℤ)
ledger_of [] = []
ledger_of (d ∷ ds) = (d.budget_minor, d.allocated_minor, d.spent_minor) ∷ ledger_of ds

-- The second grant of 300 finds no room beside the first.
ledgers :
    ledger_of (after_all calls policy_db).delegations
    ≡ (pos 150, pos 0, pos 60) ∷ (pos 400, pos 150, pos 0) ∷ []
unfolding select after_all after grant_root grant revoke spend ◌>>=◌ settle_holder make_room_for
    insert_delegation insert_row insert_child enforce_delegation_attenuation root_failure
    child_failure check_hops locked_chain resolve_chain walk check_chain sort_by_depth
    insert_by_depth refuse_dead_hops assert_chain_live charge_row charge_once update_delegations
    meets_checks find update_where count_where all_where contained_in member ◌+ℤ◌ ◌-ℤ◌
ledgers = refl

history-IsSound_example : IsSound (after_all calls policy_db).delegations
history-IsSound_example = history-IsSound calls policy_db empty-IsSound

history_bounds_branches_example :
    All
      (λ d. branch_spent 3 (after_all calls policy_db).delegations d ≤ℤ d.budget_minor)
      (after_all calls policy_db).delegations
history_bounds_branches_example = history_bounds_branches calls policy_db 3 empty-IsSound

-- The hop 42 spends 60 again under the same reference, after the first spend was released.
abbrev granted_db : Db
granted_db =
    after_all
      (grant_root_call (env_of 41) 1 small_policy 31 32 (bounds_of 400) none
        ∷ grant_call (env_of 42) 1 41 32 33 (bounds_of 150) none
        ∷ [])
      policy_db

abbrev hop : Uuid
hop = 42

abbrev item : Text
item = 71

abbrev first_spent : Db
first_spent = (spend (env_of 51) 1 42 (pos 60) 71 61 none granted_db).1

abbrev between : List Call
between = release_call (env_of 52) 1 61 20 none none ∷ []

abbrev spent_again : Db
spent_again = (spend (env_of 53) 1 42 (pos 60) 71 61 none (after_all between first_spent)).1

spend_charges_once_example :
    (hop ≡ hop) × (pos 60 ≡ pos 60) × (item ≡ item) × (spent_again ≡ after_all between first_spent)
unfolding select after_all after grant_root grant revoke spend ◌>>=◌ settle_holder make_room_for
    insert_delegation insert_row insert_child enforce_delegation_attenuation root_failure
    child_failure check_hops locked_chain resolve_chain walk check_chain sort_by_depth
    insert_by_depth refuse_dead_hops assert_chain_live charge_row charge_once update_delegations
    meets_checks find update_where count_where all_where contained_in member ◌+ℤ◌ ◌-ℤ◌ release
spend_charges_once_example =
    spend_charges_once (env_of 51) 1 42 (pos 60) 71 61 none granted_db first_spent between
      (env_of 53) 42 (pos 60) 71 none spent_again refl refl

-- The spend of 33 was agreed to by the root 41, one level above its hop.
abbrev row_or : Delegation → Option Delegation → Delegation
row_or d none = d
row_or d (some x) = x

abbrev some_row : Delegation
some_row = root_row (env_of 41) 1 small_policy 31 32 (bounds_of 400)

abbrev root_hop : Delegation
root_hop = row_or some_row (find (is_delegation 1 41) granted_db.delegations)

spend_agreed_by_chain_example : Agrees 10 (pos 60) 71 root_hop
unfolding select after_all after grant_root grant revoke spend ◌>>=◌ settle_holder make_room_for
    insert_delegation insert_row insert_child enforce_delegation_attenuation root_failure
    child_failure check_hops locked_chain resolve_chain walk check_chain sort_by_depth
    insert_by_depth refuse_dead_hops assert_chain_live charge_row charge_once update_delegations
    meets_checks find update_where count_where all_where contained_in member ◌+ℤ◌ ◌-ℤ◌
spend_agreed_by_chain_example =
    spend_agreed_by_chain (env_of 51) 1 42 (pos 60) 71 61 none granted_db first_spent 1 root_hop
      refl refl (up refl refl (here refl)) (omega arith)
