-- ===== src/Chain/Reads.antt =====
-- The walk to the root and the tests of a chain (delegation/chain.py) only read.
use trust_gate_merchant_copi.Base.{List, [], ◌∷◌, ℤ}
use trust_gate_merchant_copi.Models.{Uuid, Text, Time, Delegation, Db}
use trust_gate_merchant_copi.Session.Keeps.{Keeps, Keeps-bind, keeps_rules}
use trust_gate_merchant_copi.Chain.Walk.{
  resolve_chain, check_chain, locked_chain, refuse_dead_hops, assert_chain_live,
}
use trust_gate_merchant_copi.Chain.Spend.{check_hops}

module _ (P : Db → Type 0) where
  check_chain-Keeps : (chain : List Delegation) → Keeps P (check_chain chain)
  unfolding check_chain
  check_chain-Keeps [] = search keeps_rules
  check_chain-Keeps (d ∷ ds) = search keeps_rules

  pub resolve_chain-Keeps : (tenant i : Uuid) → Keeps P (resolve_chain tenant i)
  unfolding resolve_chain
  resolve_chain-Keeps tenant i = search (keeps_rules, check_chain-Keeps) depth 8

  pub locked_chain-Keeps : (tenant i : Uuid) → Keeps P (locked_chain tenant i)
  unfolding locked_chain resolve_chain
  locked_chain-Keeps tenant i = search (keeps_rules, check_chain-Keeps) depth 8

  refuse_dead_hops-Keeps :
      (chain : List Delegation) (now : Time) → Keeps P (refuse_dead_hops chain now)
  unfolding refuse_dead_hops
  refuse_dead_hops-Keeps [] now = search keeps_rules
  refuse_dead_hops-Keeps (d ∷ ds) now =
      Keeps-bind _ _ (Keeps-bind _ _ (search keeps_rules) (λ _. search keeps_rules))
        (λ _. refuse_dead_hops-Keeps ds now)

  pub check_hops-Keeps :
      (chain : List Delegation) (now : Time) (amount : ℤ) (sku : Text)
      → Keeps P (check_hops chain now amount sku)
  unfolding check_hops
  check_hops-Keeps [] now amount sku = search keeps_rules
  check_hops-Keeps (d ∷ ds) now amount sku =
      Keeps-bind _ _ (Keeps-bind _ _ (search keeps_rules) (λ _. search keeps_rules)) (λ _.
        Keeps-bind _ _ (search keeps_rules)
          (λ _. Keeps-bind _ _ (search keeps_rules) (λ _. check_hops-Keeps ds now amount sku)))

  pub assert_chain_live-Keeps :
      (tenant i : Uuid) (now : Time) → Keeps P (assert_chain_live tenant i now)
  unfolding assert_chain_live
  assert_chain_live-Keeps tenant i now =
      search (keeps_rules, locked_chain-Keeps, refuse_dead_hops-Keeps) depth 8
