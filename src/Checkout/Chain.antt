-- ===== src/Checkout/Chain.antt =====
-- Whether a chain is live depends on the table of delegations alone (`assert_chain_live` of
-- delegation/chain.py, asked by api/routes/checkout_authorities.py).
use trust_gate_merchant_copi.Base.{
  ◌≡◌, ap, Option, none, some, List, [], ◌∷◌, ◌+◌, select, map, refl, ◌&&◌, ◌==◌,
}
use trust_gate_merchant_copi.Models.{Uuid, Time, Delegation, Db}
use trust_gate_merchant_copi.Session.Agrees.{
  Agrees, Agrees-bind, Agrees-gets, Agrees-raise_if, agrees_rules,
}
use trust_gate_merchant_copi.Chain.Rows.{max_depth, member}
use trust_gate_merchant_copi.Chain.Walk.{
  walk, sort_by_depth, check_chain, resolve_chain, locked_chain, refuse_if_not_live,
  refuse_dead_hops, assert_chain_live,
}
use trust_gate_merchant_copi.Checkout.{refusal_of, chain_refusal}

abbrev SameDelegations : Db → Db → Type 0
SameDelegations s t = s.delegations ≡ t.delegations

check_chain-Agrees : (rows : List Delegation) → Agrees SameDelegations (check_chain rows)
unfolding check_chain
check_chain-Agrees [] = search agrees_rules
check_chain-Agrees (root ∷ rest) = search agrees_rules depth 8

resolve_chain-Agrees : (tenant i : Uuid) → Agrees SameDelegations (resolve_chain tenant i)
unfolding resolve_chain
resolve_chain-Agrees tenant i =
    Agrees-bind _ _ (Agrees-gets _ (λ s t h. ap (walk (max_depth + 1) tenant (some i)) h))
      (λ rows. check_chain-Agrees (sort_by_depth rows))

locked_chain-Agrees : (tenant i : Uuid) → Agrees SameDelegations (locked_chain tenant i)
unfolding locked_chain
locked_chain-Agrees tenant i = Agrees-bind _ _ (resolve_chain-Agrees tenant i) (λ walked.
    Agrees-bind _ _
      (Agrees-gets _ (λ s t h.
        ap (select (λ d. d.tenant_id == tenant && member d.id (map (λ hop. hop.id) walked))) h))
      (λ rows. search agrees_rules))

refuse_if_not_live-Agrees :
    (hop : Delegation) (now : Time) → Agrees SameDelegations (refuse_if_not_live hop now)
refuse_if_not_live-Agrees hop now = Agrees-bind _ _ (Agrees-raise_if _ _) (λ _. Agrees-raise_if _ _)

refuse_dead_hops-Agrees :
    (hops : List Delegation) (now : Time) → Agrees SameDelegations (refuse_dead_hops hops now)
unfolding refuse_dead_hops
refuse_dead_hops-Agrees [] now = search agrees_rules
refuse_dead_hops-Agrees (hop ∷ hops) now =
    Agrees-bind _ _ (refuse_if_not_live-Agrees hop now) (λ _. refuse_dead_hops-Agrees hops now)

assert_chain_live-Agrees :
    (tenant i : Uuid) (now : Time) → Agrees SameDelegations (assert_chain_live tenant i now)
unfolding assert_chain_live
assert_chain_live-Agrees tenant i now =
    Agrees-bind _ _ (locked_chain-Agrees tenant i)
      (λ chain. Agrees-bind _ _ (refuse_dead_hops-Agrees chain now) (λ _. search agrees_rules))

-- A chain that is refused in one database is refused in every other with the same delegations.
pub chain_refusal-delegations :
    (tenant : Uuid) (o : Option Uuid) (now : Time) (s t : Db)
    → s.delegations ≡ t.delegations
    → (chain_refusal tenant o now s).0 ≡ (chain_refusal tenant o now t).0
unfolding chain_refusal
chain_refusal-delegations tenant none now s t h = refl
chain_refusal-delegations tenant (some i) now s t h =
    ap refusal_of ((assert_chain_live-Agrees tenant i now).at s t h).0
