-- ===== src/Chain/Retry.antt =====
-- A spend that is tried again (`spend` of delegation/chain.py).
use trust_gate_merchant_copi.Base.{
  ◌≡◌, refl, ap, ◌∙◌, subst, false, Option, none, some, List, ◌∷◌, arith, ℤ, find,
}
use trust_gate_merchant_copi.Models.{Uuid, Text, Delegation, DelegationSpend, Db}
use trust_gate_merchant_copi.Session.{Result, ok}
use trust_gate_merchant_copi.Session.Returns.{
  bind-ok, gets-ok, raise_if-ok, raise_if-last, modify-ok, modify-last, atomically-ok,
}
use trust_gate_merchant_copi.Chain.Rows.{Env}
use trust_gate_merchant_copi.Chain.Insert.{update_delegations-ok}
use trust_gate_merchant_copi.Chain.Spend.{
  is_reference, is_other_spend, spend_row, charge_row, charge_once, spend,
}
use trust_gate_merchant_copi.Chain.Reads.{locked_chain-Keeps, check_hops-Keeps}
use trust_gate_merchant_copi.Chain.History.{Call, after_all}
use trust_gate_merchant_copi.Chain.Once.{IsRecorded, after_all-keeps}

module _ (env : Env) (tenant i : Uuid) (amount : ℤ) (sku : Text) (reference : Uuid)
    (c : Option Uuid) where
  -- A spend that returns only read before its charge.
  spend-ok :
      (s : Db) {u : Unit {0}} {t : Db}
      → spend env tenant i amount sku reference c s ≡ (ok u, t)
      → (chain : List Delegation) × (charge_once env tenant i amount sku reference c chain s
          ≡ (ok u, t))
  unfolding spend
  spend-ok s {u = u} {t = t} h =
      let (_, h₁) = raise_if-ok _ _ _ s h in
      let (chain, s₁, h₂, h₃) = bind-ok _ _ s h₁ in
      let same₁ : s₁ ≡ s =
        subst (λ x. x ≡ s) (ap (λ (p : Result (List Delegation) × Db). p.1) h₂)
          ((locked_chain-Keeps (λ x. x ≡ s) tenant i).at s refl) in
      let (_, h₄) = raise_if-ok _ _ _ s₁ (gets-ok _ _ s₁ h₃) in
      let (_, s₂, h₅, h₆) = bind-ok _ _ s₁ h₄ in
      let same₂ : s₂ ≡ s =
        subst (λ x. x ≡ s) (ap (λ (p : Result (Unit {0}) × Db). p.1) h₅)
          ((check_hops-Keeps (λ x. x ≡ s) chain env.now amount sku).at s₁ same₁) in
      (
        chain,
        subst (λ x. charge_once env tenant i amount sku reference c chain x ≡ (ok u, t)) same₂ h₆,
      )

  -- What a charge has done once it returns, for what it found under the reference.
  abbrev Charged : Option DelegationSpend → Db → Db → Type 0
  Charged none s t =
      find (is_reference tenant reference) t.delegation_spends
      ≡ some (spend_row env tenant i reference amount sku)
  Charged (some row) s t = (is_other_spend row i amount sku ≡ false) × (t ≡ s)

  charge_row-ok :
      (chain : List Delegation) (o : Option DelegationSpend) (s : Db) {u : Unit {0}} {t : Db}
      → charge_row env tenant i amount sku reference c chain o s ≡ (ok u, t)
      → Charged o s t
  unfolding charge_row find
  charge_row-ok chain (some row) s h = raise_if-last _ _ s h
  charge_row-ok chain none s h =
      let row = spend_row env tenant i reference amount sku in
      let s₁ = record s { delegation_spends = row ∷ s.delegation_spends } in
      let (n, s₂, h₁, h₂) = bind-ok _ _ s₁ (modify-ok _ _ s h) in
      let (_, h₃) = raise_if-ok _ _ _ s₂ h₂ in
      let (_, _, updated) = update_delegations-ok _ _ s₁ h₁ in
      let rows =
        ap (λ (x : Db). x.delegation_spends) (modify-last _ s₂ h₃)
        ∙ ap (λ (x : Db). x.delegation_spends) updated in
      ap (find (is_reference tenant reference)) rows ∙ ground arith

  charge_once-ok :
      (chain : List Delegation) (s : Db) {u : Unit {0}} {t : Db}
      → charge_once env tenant i amount sku reference c chain s ≡ (ok u, t)
      → Charged (find (is_reference tenant reference) s.delegation_spends) s t
  unfolding charge_once
  charge_once-ok chain s h = charge_row-ok chain _ s (gets-ok _ _ s (atomically-ok _ s h))

  Charged-IsRecorded :
      (o : Option DelegationSpend) (s t : Db)
      → find (is_reference tenant reference) s.delegation_spends ≡ o
      → Charged o s t
      → IsRecorded tenant reference i amount sku t
  Charged-IsRecorded none s t e h = record {
    row = spend_row env tenant i reference amount sku;
    found = h;
    same = ground arith;
  }
  Charged-IsRecorded (some row) s t e (same, unchanged) = record {
    row = row;
    found = ap (λ (x : Db). find (is_reference tenant reference) x.delegation_spends) unchanged ∙ e;
    same = same;
  }

  spend-IsRecorded :
      (s t : Db)
      → spend env tenant i amount sku reference c s ≡ (ok tt, t)
      → IsRecorded tenant reference i amount sku t
  spend-IsRecorded s t h =
      let (chain, h₁) = spend-ok s h in Charged-IsRecorded _ s t refl (charge_once-ok chain s h₁)

-- Two spends that the row is not another one for are the same.
same_spend :
    (row : DelegationSpend) (i j : Uuid) (n m : ℤ) (a b : Text)
    → is_other_spend row i n a ≡ false
    → is_other_spend row j m b ≡ false
    → (j ≡ i) × (m ≡ n) × (b ≡ a)
same_spend row i j n m a b h k = (ground arith, ground arith, ground arith)

-- Spending twice under one reference charges once: after a spend that returned and any calls
-- whatever, another spend under its reference that returns is for the same hop, amount and item, and
-- changes nothing at all. (That holds too if the first spend was released in between.)
pub spend_charges_once :
    (env : Env) (tenant i : Uuid) (amount : ℤ) (sku : Text) (reference : Uuid) (c : Option Uuid)
    (s t : Db) (calls : List Call) (env' : Env) (j : Uuid) (amount' : ℤ) (sku' : Text)
    (c' : Option Uuid) (u : Db)
    → spend env tenant i amount sku reference c s ≡ (ok tt, t)
    → spend env' tenant j amount' sku' reference c' (after_all calls t) ≡ (ok tt, u)
    → (j ≡ i) × (amount' ≡ amount) × (sku' ≡ sku) × (u ≡ after_all calls t)
spend_charges_once env tenant i amount sku reference c s t calls env' j amount' sku' c' u first
      second =
    let later = after_all calls t in
    let kept =
      after_all-keeps tenant reference i amount sku calls t
        (spend-IsRecorded env tenant i amount sku reference c s t first) in
    let (chain, h) = spend-ok env' tenant j amount' sku' reference c' later second in
    let charged =
      subst (λ o. Charged env' tenant j amount' sku' reference c' o later u) kept.found
        (charge_once-ok env' tenant j amount' sku' reference c' chain later h) in
    let (p, q, r) = same_spend kept.row i j amount amount' sku sku' kept.same charged.0 in
    (p, q, r, charged.1)
