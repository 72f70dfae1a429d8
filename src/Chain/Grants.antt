-- ===== src/Chain/Grants.antt =====
-- What the grants and the revocation (delegation/chain.py) keep: whatever does not see the rows of
-- `delegation` and the audit.
use trust_gate_merchant_copi.Base.{ℤ, Bool, Option, none, some, List, ℤ}
use trust_gate_merchant_copi.Models.{
  Uuid, Text, Time, SpendingPolicy, Delegation, DelegationSpend, Bounds, AuditEvent, DbError,
  DelegationSpend, Db,
}
use trust_gate_merchant_copi.Session.{modify, add_audit}
use trust_gate_merchant_copi.Session.Keeps.{Keeps, Keeps-modify, Keeps-map, keeps_rules}
use trust_gate_merchant_copi.Chain.Rows.{
  Env, update_delegations, insert_row, insert_delegation, enforce_delegation_attenuation,
  raise_first,
}
use trust_gate_merchant_copi.Chain.Grant.{
  settle_holder, make_room_for, grant_root, as_refusal, insert_child, grant,
}
use trust_gate_merchant_copi.Chain.Reads.{locked_chain-Keeps, check_hops-Keeps}
use trust_gate_merchant_copi.Chain.Spend.{charge_row, charge_once, spend}
use trust_gate_merchant_copi.Chain.Walk.{revoke}

-- What no call to the chain changes, if it does not see the rows of `delegation`, the audit and the
-- release of spends, and is kept by the record of a new reference.
module _ (P : Db → Type 0) (audits : (e : AuditEvent) (s : Db) → P s → P (add_audit e s))
    (delegations : (f : Db → List Delegation) (s : Db)
      → P s
      → P (record s { delegations = f s })) where
  pub audit-Keeps : (e : AuditEvent) → Keeps P (modify (add_audit e))
  audit-Keeps e = Keeps-modify (add_audit e) (audits e)

  delegations-Keeps :
      (f : Db → List Delegation) → Keeps P (modify (λ s. record s { delegations = f s }))
  delegations-Keeps f = Keeps-modify (λ s. record s { delegations = f s }) (delegations f)

  pub update_delegations-Keeps :
      (p : Delegation → Bool) (f : Delegation → Delegation) → Keeps P (update_delegations p f)
  unfolding update_delegations
  update_delegations-Keeps p f = search (keeps_rules, delegations-Keeps) depth 8

  raise_first-Keeps : (o : Option DbError) → Keeps P (raise_first o)
  raise_first-Keeps none = search keeps_rules
  raise_first-Keeps (some e) = search keeps_rules

  enforce-Keeps : (d : Delegation) (o : Option Uuid) → Keeps P (enforce_delegation_attenuation d o)
  unfolding enforce_delegation_attenuation
  enforce-Keeps d none = search (keeps_rules, raise_first-Keeps) depth 8
  enforce-Keeps d (some i) =
      search (keeps_rules, raise_first-Keeps, update_delegations-Keeps) depth 12

  insert_delegation-Keeps : (d : Delegation) → Keeps P (insert_delegation d)
  unfolding insert_delegation insert_row
  insert_delegation-Keeps d = search (keeps_rules, enforce-Keeps, delegations-Keeps) depth 12

  insert_child-Keeps : (d : Delegation) → Keeps P (insert_child d)
  unfolding insert_child
  insert_child-Keeps d = Keeps-map as_refusal _ (insert_delegation-Keeps d)

  settle_holder-Keeps :
      (env : Env) (tenant : Uuid) (actor : Text) (c : Option Uuid) (o : Option Delegation)
      → Keeps P (settle_holder env tenant actor c o)
  unfolding settle_holder
  settle_holder-Keeps env tenant actor c none = search keeps_rules
  settle_holder-Keeps env tenant actor c (some d) =
      search (keeps_rules, update_delegations-Keeps, audit-Keeps) depth 8

  make_room_for-Keeps :
      (env : Env) (tenant : Uuid) (actor : Text) (c : Option Uuid)
      → Keeps P (make_room_for env tenant actor c)
  unfolding make_room_for
  make_room_for-Keeps env tenant actor c = search (keeps_rules, settle_holder-Keeps)

  pub grant_root-Keeps :
      (env : Env) (tenant : Uuid) (p : SpendingPolicy) (principal delegate : Text) (bounds : Bounds)
      (c : Option Uuid)
      → Keeps P (grant_root env tenant p principal delegate bounds c)
  unfolding grant_root
  grant_root-Keeps env tenant p principal delegate bounds c =
      search (keeps_rules, make_room_for-Keeps, insert_delegation-Keeps, audit-Keeps) depth 12

  pub grant-Keeps :
      (env : Env) (tenant parent : Uuid) (delegator delegate : Text) (bounds : Bounds)
      (c : Option Uuid)
      → Keeps P (grant env tenant parent delegator delegate bounds c)
  unfolding grant
  grant-Keeps env tenant parent delegator delegate bounds c =
      search (keeps_rules, make_room_for-Keeps, insert_child-Keeps, audit-Keeps) depth 12

  pub revoke-Keeps :
      (env : Env) (tenant i : Uuid) (at : Option Time) (c : Option Uuid)
      → Keeps P (revoke env tenant i at c)
  unfolding revoke
  revoke-Keeps env tenant i at c =
      search (keeps_rules, update_delegations-Keeps, audit-Keeps) depth 8

  -- With the rows of `delegation_spend`, that holds of a spend too.
  module _
      (spends : (f : Db → List DelegationSpend) (s : Db)
        → P s
        → P (record s { delegation_spends = f s })) where
    spends-Keeps :
        (f : Db → List DelegationSpend)
        → Keeps P (modify (λ s. record s { delegation_spends = f s }))
    spends-Keeps f = Keeps-modify (λ s. record s { delegation_spends = f s }) (spends f)

    charge_row-Keeps :
        (env : Env) (tenant i : Uuid) (amount : ℤ) (sku : Text) (reference : Uuid) (c : Option Uuid)
        (chain : List Delegation) (recorded : Option DelegationSpend)
        → Keeps P (charge_row env tenant i amount sku reference c chain recorded)
    unfolding charge_row
    charge_row-Keeps env tenant i amount sku reference c chain none =
        search (keeps_rules, spends-Keeps, update_delegations-Keeps, audit-Keeps) depth 8
    charge_row-Keeps env tenant i amount sku reference c chain (some r) = search keeps_rules

    pub spend-Keeps :
        (env : Env) (tenant i : Uuid) (amount : ℤ) (sku : Text) (reference : Uuid) (c : Option Uuid)
        → Keeps P (spend env tenant i amount sku reference c)
    unfolding spend charge_once
    spend-Keeps env tenant i amount sku reference c =
        search (keeps_rules, locked_chain-Keeps, check_hops-Keeps, charge_row-Keeps) depth 12
