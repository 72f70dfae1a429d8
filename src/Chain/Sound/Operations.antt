-- ===== src/Chain/Sound/Operations.antt =====
-- Every operation of delegation/chain.py keeps the table sound, whether it returns or raises.
use trust_gate_merchant_copi.Base.{
  ◌≡◌, refl, sym, ap, ◌∙◌, subst, Bool, true, Option, none, some, List, [], ◌∷◌, arith, ℤ,
  update_where, all_where, sum_where, All, All-zip, All-update_where, sum-update_where,
}
use trust_gate_merchant_copi.Models.{
  Uuid, Text, Time, SpendingPolicy, Delegation, DelegationSpend, Bounds, AuditEvent, Db,
}
use trust_gate_merchant_copi.Session.{modify, add_audit}
use trust_gate_merchant_copi.Session.Keeps.{
  Keeps, Keeps-atomically_ok, Keeps-modify, Keeps-map, keeps_rules,
}
use trust_gate_merchant_copi.Chain.Rows.{Env, meets_checks, update_delegations, insert_delegation}
use trust_gate_merchant_copi.Chain.Grant.{
  settle_holder, make_room_for, root_row, grant_root, child_row, as_refusal, insert_child, grant,
  revoke_at,
}
use trust_gate_merchant_copi.Chain.Walk.{revoke}
use trust_gate_merchant_copi.Chain.Spend.{charge, charge_row, charge_once, spend, refund, release}
use trust_gate_merchant_copi.Chain.Reads.{locked_chain-Keeps, check_hops-Keeps}
use trust_gate_merchant_copi.Chain.Budget.{is_child_of, budget_of, Partition, IsPartitioned}
use trust_gate_merchant_copi.Chain.Insert.{update_delegations-ok}
use trust_gate_merchant_copi.Chain.Sound.{frozen}
use trust_gate_merchant_copi.Chain.Sound.Update.{attenuated-update_where, keyed-update_where}
use trust_gate_merchant_copi.Chain.Sound.Insert.{HasSoundChain, insert-Keeps_sound}

-- The rows that the update touches meet the CHECKs afterwards.
all_where-All :
    (p c : Delegation → Bool) (rows : List Delegation)
    → all_where p c rows ≡ true
    → All (λ d. p d ≡ true → c d ≡ true) rows
unfolding all_where
all_where-All p c [] h = tt
all_where-All p c (d ∷ ds) h = ((λ e. ground arith), all_where-All p c ds (ground arith))

Partition-checked :
    (rows rows' : List Delegation) (d d' : Delegation)
    → frozen d' ≡ frozen d
    → d'.allocated_minor ≡ d.allocated_minor
    → meets_checks d' ≡ true
    → sum_where (is_child_of d.tenant_id d.id) budget_of rows'
      ≡ sum_where (is_child_of d.tenant_id d.id) budget_of rows
    → Partition rows d
    → Partition rows' d'
unfolding meets_checks
Partition-checked rows rows' d d' keep same checked e p = record {
  promised =
      same
      ∙ p.promised
      ∙ sym e
      ∙ ap (λ (x : Delegation). sum_where (is_child_of x.tenant_id x.id) budget_of rows')
          (sym keep);
  allocated_nonneg = ground arith;
  spent_nonneg = ground arith;
  fits = ground arith;
}

module _ (p : Delegation → Bool) (f : Delegation → Delegation)
    (keep : (d : Delegation) → frozen (f d) ≡ frozen d)
    (same : (d : Delegation) → (f d).allocated_minor ≡ d.allocated_minor) where
  IsPartitioned-update :
      (rows : List Delegation)
      → all_where p (λ d. meets_checks (f d)) rows ≡ true
      → IsPartitioned rows
      → IsPartitioned (update_where p f rows)
  IsPartitioned-update rows checked h =
      let sums = λ (d : Delegation).
        sum-update_where p (is_child_of d.tenant_id d.id) f budget_of
          (λ x. ap (is_child_of d.tenant_id d.id) (keep x)) (λ x. ap budget_of (keep x)) rows in
      All-update_where (λ d. Partition rows d × (p d ≡ true → meets_checks (f d) ≡ true))
        (Partition (update_where p f rows)) p f
        (λ d e (w, c).
          Partition-checked rows (update_where p f rows) d (f d) (keep d) (same d) (c e) (sums d) w)
        (λ d e (w, c). record {
          promised = w.promised ∙ sym (sums d);
          allocated_nonneg = w.allocated_nonneg;
          spent_nonneg = w.spent_nonneg;
          fits = w.fits;
        })
        rows
        (All-zip (Partition rows) (λ d. p d ≡ true → meets_checks (f d) ≡ true) rows h
          (all_where-All p (λ d. meets_checks (f d)) rows checked))

  -- An update of the spending or of the revocation keeps the table sound.
  pub update-Keeps_sound : Keeps HasSoundChain (update_delegations p f)
  unfolding update_delegations
  update-Keeps_sound = Keeps-atomically_ok _ (λ s _ t h returned.
      let (checked, _, result) = update_delegations-ok p f s returned in
      subst HasSoundChain (sym result) (record {
        keyed = keyed-update_where p f keep s.delegations h.keyed;
        partitioned = IsPartitioned-update s.delegations checked h.partitioned;
        attenuated = attenuated-update_where p f keep s.delegations h.attenuated;
      }))

revoke_at-Keeps :
    (p : Delegation → Bool) (t : Time) → Keeps HasSoundChain (update_delegations p (revoke_at t))
revoke_at-Keeps p t = update-Keeps_sound p (revoke_at t) (λ d. refl) (λ d. refl)

charge-Keeps :
    (p : Delegation → Bool) (n : ℤ) → Keeps HasSoundChain (update_delegations p (charge n))
charge-Keeps p n = update-Keeps_sound p (charge n) (λ d. refl) (λ d. refl)

refund-Keeps :
    (p : Delegation → Bool) (n : ℤ) → Keeps HasSoundChain (update_delegations p (refund n))
refund-Keeps p n = update-Keeps_sound p (refund n) (λ d. refl) (λ d. refl)

audit-Keeps : (e : AuditEvent) → Keeps HasSoundChain (modify (add_audit e))
audit-Keeps e = Keeps-modify (add_audit e) (λ s h. h)

spends-keep :
    (f : Db → List DelegationSpend)
    → Keeps HasSoundChain (modify (λ s. record s { delegation_spends = f s }))
spends-keep f = Keeps-modify (λ s. record s { delegation_spends = f s }) (λ s h. h)

ruleset sound_rules =
    (keeps_rules, revoke_at-Keeps, charge-Keeps, refund-Keeps, audit-Keeps, spends-keep)

settle_holder-Keeps :
    (env : Env) (tenant actor : Uuid) (correlation : Option Uuid) (holder : Option Delegation)
    → Keeps HasSoundChain (settle_holder env tenant actor correlation holder)
unfolding settle_holder
settle_holder-Keeps env tenant actor correlation none = search sound_rules
settle_holder-Keeps env tenant actor correlation (some d) = search sound_rules

make_room_for-Keeps :
    (env : Env) (tenant actor : Uuid) (correlation : Option Uuid)
    → Keeps HasSoundChain (make_room_for env tenant actor correlation)
unfolding make_room_for
make_room_for-Keeps env tenant actor correlation = search (sound_rules, settle_holder-Keeps)

root_row-Keeps :
    (env : Env) (tenant : Uuid) (p : SpendingPolicy) (principal delegate : Text) (bounds : Bounds)
    → Keeps HasSoundChain (insert_delegation (root_row env tenant p principal delegate bounds))
root_row-Keeps env tenant p principal delegate bounds = insert-Keeps_sound _ refl refl

insert_child-Keeps :
    (env : Env) (tenant : Uuid) (parent : Delegation) (i : Uuid) (delegator delegate : Text)
    (bounds : Bounds)
    → Keeps HasSoundChain (insert_child (child_row env tenant parent i delegator delegate bounds))
unfolding insert_child
insert_child-Keeps env tenant parent i delegator delegate bounds =
    Keeps-map as_refusal _ (insert-Keeps_sound _ refl refl)

pub grant_root-Keeps :
    (env : Env) (tenant : Uuid) (p : SpendingPolicy) (principal delegate : Text) (bounds : Bounds)
    (correlation : Option Uuid)
    → Keeps HasSoundChain (grant_root env tenant p principal delegate bounds correlation)
unfolding grant_root
grant_root-Keeps env tenant p principal delegate bounds correlation =
    search (sound_rules, make_room_for-Keeps, root_row-Keeps) depth 12

pub grant-Keeps :
    (env : Env) (tenant parent : Uuid) (delegator delegate : Text) (bounds : Bounds)
    (correlation : Option Uuid)
    → Keeps HasSoundChain (grant env tenant parent delegator delegate bounds correlation)
unfolding grant
grant-Keeps env tenant parent delegator delegate bounds correlation =
    search (sound_rules, make_room_for-Keeps, insert_child-Keeps) depth 12

pub revoke-Keeps :
    (env : Env) (tenant i : Uuid) (at : Option Time) (correlation : Option Uuid)
    → Keeps HasSoundChain (revoke env tenant i at correlation)
unfolding revoke
revoke-Keeps env tenant i at correlation = search sound_rules depth 8

charge_row-Keeps :
    (env : Env) (tenant i : Uuid) (amount : ℤ) (sku : Text) (reference : Uuid)
    (correlation : Option Uuid) (chain : List Delegation) (recorded : Option DelegationSpend)
    → Keeps HasSoundChain (charge_row env tenant i amount sku reference correlation chain recorded)
unfolding charge_row
charge_row-Keeps env tenant i amount sku reference correlation chain none =
    search sound_rules depth 8
charge_row-Keeps env tenant i amount sku reference correlation chain (some r) = search sound_rules

pub spend-Keeps :
    (env : Env) (tenant i : Uuid) (amount : ℤ) (sku : Text) (reference : Uuid)
    (correlation : Option Uuid)
    → Keeps HasSoundChain (spend env tenant i amount sku reference correlation)
unfolding spend charge_once
spend-Keeps env tenant i amount sku reference correlation =
    search (sound_rules, locked_chain-Keeps, check_hops-Keeps, charge_row-Keeps) depth 12

pub release-Keeps :
    (env : Env) (tenant reference : Uuid) (at : Time) (correlation request : Option Uuid)
    → Keeps HasSoundChain (release env tenant reference at correlation request)
unfolding release
release-Keeps env tenant reference at correlation request = search sound_rules depth 10
