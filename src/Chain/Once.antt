-- ===== src/Chain/Once.antt =====
-- A reference is charged once (`spend` of delegation/chain.py): what is recorded under it stays,
-- whatever calls follow, and a spend that finds it recorded changes no budget.
use mathlib.Core.Option
use trust_gate_merchant_copi.Base.{
  ◌≡◌, refl, sym, ap, ◌∙◌, subst, Bool, false, Option, none, some, List, [], ◌∷◌, if◌then◌else◌,
  arith, Bool-cases, inl, inr, ℤ, find, update_where, find-update_where,
}
use trust_gate_merchant_copi.Models.{Uuid, Text, Time, Delegation, DelegationSpend, AuditEvent, Db}
use trust_gate_merchant_copi.Session.{raise_if, modify, add_audit}
use trust_gate_merchant_copi.Session.Keeps.{
  Keeps, Keeps-modify, keeps_rules, modify-then, gets-then, atomically-at,
}
use trust_gate_merchant_copi.Chain.Rows.{Env, update_delegations}
use trust_gate_merchant_copi.Chain.Spend.{
  is_reference, is_other_spend, is_unreleased, release_row, spend_row, charge_row, charge_once,
  spend, release,
}
use trust_gate_merchant_copi.Chain.Reads.{
  locked_chain-Keeps, check_hops-Keeps, assert_chain_live-Keeps,
}
use trust_gate_merchant_copi.Chain.Grants.{
  audit-Keeps, update_delegations-Keeps, grant_root-Keeps, grant-Keeps, revoke-Keeps,
}
use trust_gate_merchant_copi.Chain.History.{
  Call, grant_root_call, grant_call, revoke_call, assert_live_call, spend_call, release_call, after,
  after_all,
}

pub some-none : {A : Type 0} {o : Option A} {a : A} → o ≡ some a → o ≡ none → ⊥
some-none e e' = cc (sym e ∙ e')

module _ (tenant reference i : Uuid) (amount : ℤ) (sku : Text) where
  -- The spend is recorded under the reference, released since or not.
  pub record IsRecorded (s : Db) : Type 0 where
    pub row : DelegationSpend
    pub found : find (is_reference tenant reference) s.delegation_spends ≡ some row
    pub same : is_other_spend row i amount sku ≡ false

  -- `DelegationSpend` rows are all that counts.
  same_spends : (s t : Db) → t.delegation_spends ≡ s.delegation_spends → IsRecorded s → IsRecorded t
  same_spends s t e h = record {
    row = h.row;
    found = ap (find (is_reference tenant reference)) e ∙ h.found;
    same = h.same;
  }

  release-IsRecorded :
      (t r : Uuid) (at : Time) (s : Db)
      → IsRecorded s
      → IsRecorded (record s {
        delegation_spends = update_where (is_unreleased t r) (release_row at) s.delegation_spends;
      })
  release-IsRecorded t r at s h = record {
    row = if is_unreleased t r h.row then release_row at h.row else h.row;
    found =
        find-update_where (is_unreleased t r) (is_reference tenant reference) (release_row at)
          (λ x. refl) s.delegation_spends
        ∙ ap (Option.map (λ x. if is_unreleased t r x then release_row at x else x)) h.found;
    same = ground (arith, h.same);
  }

  insert-IsRecorded :
      (row : DelegationSpend) (s : Db)
      → find (is_reference row.tenant_id row.reference) s.delegation_spends ≡ none
      → IsRecorded s
      → IsRecorded (record s { delegation_spends = row ∷ s.delegation_spends })
  unfolding find
  insert-IsRecorded row s free h = elim (Bool-cases (is_reference tenant reference row)) [
    | inl clash ↦
        let same_tenant : row.tenant_id ≡ tenant = ground arith in
        let same_reference : row.reference ≡ reference = ground arith in
        let none_found =
          subst (λ x. find (is_reference x row.reference) s.delegation_spends ≡ none) same_tenant
            free in
        absurd (
          some-none h.found (
            subst (λ x. find (is_reference tenant x) s.delegation_spends ≡ none) same_reference
              none_found))
    | inr other ↦ record {
      row = h.row;
      found =
          ap (λ b. if b then some row else find (is_reference tenant reference) s.delegation_spends)
            other
          ∙ h.found;
      same = h.same;
    }
  ]

  audits-keep : (e : AuditEvent) (s : Db) → IsRecorded s → IsRecorded (add_audit e s)
  audits-keep e s h = same_spends s _ refl h

  delegations-keep :
      (f : Db → List Delegation) (s : Db)
      → IsRecorded s
      → IsRecorded (record s { delegations = f s })
  delegations-keep f s h = same_spends s _ refl h

  release_row-Keeps :
      (t r : Uuid) (at : Time)
      → Keeps IsRecorded (
          modify (λ s. record s {
            delegation_spends =
                update_where (is_unreleased t r) (release_row at) s.delegation_spends;
          }))
  release_row-Keeps t r at =
      Keeps-modify
        (λ s. record s {
          delegation_spends = update_where (is_unreleased t r) (release_row at) s.delegation_spends;
        })
        (release-IsRecorded t r at)

  update-Keeps :
      (p : Delegation → Bool) (f : Delegation → Delegation)
      → Keeps IsRecorded (update_delegations p f)
  update-Keeps p f = update_delegations-Keeps IsRecorded audits-keep delegations-keep p f

  event-Keeps : (e : AuditEvent) → Keeps IsRecorded (modify (add_audit e))
  event-Keeps e = audit-Keeps IsRecorded audits-keep delegations-keep e

  release-Keeps :
      (env : Env) (t r : Uuid) (at : Time) (c q : Option Uuid)
      → Keeps IsRecorded (release env t r at c q)
  unfolding release
  release-Keeps env t r at c q =
      search (keeps_rules, event-Keeps, update-Keeps, release_row-Keeps) depth 10

  charge_row-keep :
      (env : Env) (t j : Uuid) (n : ℤ) (item : Text) (r : Uuid) (c : Option Uuid)
      (chain : List Delegation) (o : Option DelegationSpend) (s : Db)
      → find (is_reference t r) s.delegation_spends ≡ o
      → IsRecorded s
      → IsRecorded (charge_row env t j n item r c chain o s).1
  unfolding charge_row raise_if
  charge_row-keep env t j n item r c chain none s free h =
      modify-then IsRecorded _ _ s (search (keeps_rules, event-Keeps, update-Keeps) depth 8)
        (insert-IsRecorded (spend_row env t j r n item) s free h)
  charge_row-keep env t j n item r c chain (some row) s e h = h

  charge_once-Keeps :
      (env : Env) (t j : Uuid) (n : ℤ) (item : Text) (r : Uuid) (c : Option Uuid)
      (chain : List Delegation)
      → Keeps IsRecorded (charge_once env t j n item r c chain)
  unfolding charge_once
  charge_once-Keeps env t j n item r c chain = record {
    at = λ s h.
        atomically-at IsRecorded _ s h
          (gets-then IsRecorded _ _ s (charge_row-keep env t j n item r c chain _ s refl h));
  }

  spend-Keeps :
      (env : Env) (t j : Uuid) (n : ℤ) (item : Text) (r : Uuid) (c : Option Uuid)
      → Keeps IsRecorded (spend env t j n item r c)
  unfolding spend
  spend-Keeps env t j n item r c =
      search (keeps_rules, locked_chain-Keeps, check_hops-Keeps, charge_once-Keeps) depth 12

  after-keeps : (call : Call) (s : Db) → IsRecorded s → IsRecorded (after call s)
  unfolding after
  after-keeps (grant_root_call env t p a b bounds c) s h =
      (grant_root-Keeps IsRecorded audits-keep delegations-keep env t p a b bounds c).at s h
  after-keeps (grant_call env t j a b bounds c) s h =
      (grant-Keeps IsRecorded audits-keep delegations-keep env t j a b bounds c).at s h
  after-keeps (revoke_call env t j at c) s h =
      (revoke-Keeps IsRecorded audits-keep delegations-keep env t j at c).at s h
  after-keeps (assert_live_call t j now) s h = (assert_chain_live-Keeps IsRecorded t j now).at s h
  after-keeps (spend_call env t j n item r c) s h = (spend-Keeps env t j n item r c).at s h
  after-keeps (release_call env t r at c q) s h = (release-Keeps env t r at c q).at s h

  pub after_all-keeps : (calls : List Call) (s : Db) → IsRecorded s → IsRecorded (after_all calls s)
  unfolding after_all
  after_all-keeps [] s h = h
  after_all-keeps (call ∷ rest) s h = after_all-keeps rest (after call s) (after-keeps call s h)
