-- ===== src/Program/Authorities.antt =====
-- A checkout authority is used once (api/routes/checkout_authorities.py), whatever the server does in
-- between.
use mathlib.Core.Option
use trust_gate_merchant_copi.Base.{
  ◌≡◌, ◌≢◌, refl, sym, ap, ◌∙◌, inl, inr, true, false, some, List, [], ◌∷◌, is_some, if◌then◌else◌,
  arith, Bool-cases, find, update_where, find-update_where, find-update_where_self,
}
use trust_gate_merchant_copi.Models.{Uuid, Text, Time, CheckoutAuthority, Db}
use trust_gate_merchant_copi.Session.{ok}
use trust_gate_merchant_copi.Session.Keeps.{Keeps-atomically}
use trust_gate_merchant_copi.Chain.Rows.{Env}
use trust_gate_merchant_copi.Chain.Grants.{grant_root-Keeps, grant-Keeps, revoke-Keeps}
use trust_gate_merchant_copi.Checkout.{
  PurchaseFacts, is_authority, use_at, consume_checkout_authority,
}
use trust_gate_merchant_copi.Checkout.Consume.{consume-Consumed}
use trust_gate_merchant_copi.Program.{
  Call, grant_root_call, grant_call, revoke_call, request_call, approve_call, webhook_call,
  transition_call, issue_call, consume_call, catalog_call, basket_call, start_paytm_call,
  confirm_paytm_call, paytm_callback_call, approve_line_call, pay_line_call, confirm_line_call, run,
  run_all,
}
use trust_gate_merchant_copi.Program.Blind.{
  Blind, add_audit-keeps, audit-Keeps, transition-blind, request-blind, approval-blind,
  webhook-blind,
}
use trust_gate_merchant_copi.Program.Uses.{issue-Keeps, consume-Keeps}
use trust_gate_merchant_copi.Program.Rows.{
  BlindToRows, basket-Keeps, start-Keeps, confirm-Keeps, callback-Keeps,
}
use trust_gate_merchant_copi.Program.BasketLines.{
  approve_line-Keeps, pay_line-Keeps, confirm_line-Keeps,
}
use trust_gate_merchant_copi.Copilot.Kept.{catalog-Keeps}

-- What sees the authorities alone, and is kept by their use and by the rows that their keys allow, is
-- kept by every call.
module _ (P : Db → Type 0) (blind : Blind P)
    (uses : (t j : Uuid) (now : Time) (s : Db)
      → P s
      → P (record s { authorities = update_where (is_authority t j) (use_at now) s.authorities }))
    (inserts : (a : CheckoutAuthority) (s : Db)
      → is_some (find (is_authority a.tenant_id a.id) s.authorities) ≡ false
      → P s
      → P (record s { authorities = a ∷ s.authorities }))
    (rows : BlindToRows P) where
  module _ (digest : PurchaseFacts → Text) where
    pub run-keeps : (call : Call) (s : Db) → P s → P (run digest call s)
    unfolding run
    run-keeps (grant_root_call env t p a b bounds c) s h =
        (grant_root-Keeps P (add_audit-keeps P blind) blind.delegations env t p a b bounds c).at s h
    run-keeps (grant_call env t i a b bounds c) s h =
        (grant-Keeps P (add_audit-keeps P blind) blind.delegations env t i a b bounds c).at s h
    run-keeps (revoke_call env t i at c) s h =
        (revoke-Keeps P (add_audit-keeps P blind) blind.delegations env t i at c).at s h
    run-keeps (request_call fresh t r context) s h =
        (request-blind P blind fresh t r context).at s h
    run-keeps (approve_call env t who i) s h = (approval-blind P blind env t who i).at s h
    run-keeps (webhook_call env e) s h = (webhook-blind P blind env e).at s h
    run-keeps (transition_call env t i to reason c o) s h =
        (transition-blind P blind env t i to reason c o).at s h
    run-keeps (issue_call env t i) s h = (issue-Keeps P blind uses inserts digest env t i).at s h
    run-keeps (consume_call env t i c) s h =
        (consume-Keeps P blind uses inserts digest env t i c).at s h
    run-keeps (catalog_call fresh t request actor source) s h =
        (catalog-Keeps P (audit-Keeps P blind) t fresh request actor source
            (λ item m. request-blind P blind fresh t _ _)).at
          s h
    run-keeps (basket_call text_length actor source store goal mode plan i supply) s h =
        (basket-Keeps P blind rows text_length actor source supply store goal mode plan i).at s h
    run-keeps (start_paytm_call issue_env env order_id answer t i) s h =
        (Keeps-atomically _ (
            start-Keeps P blind rows (issue-Keeps P blind uses inserts)
              (consume-Keeps P blind uses inserts) digest issue_env env order_id answer t i)).at
          s h
    run-keeps (confirm_paytm_call env t answer i) s h =
        (Keeps-atomically _ (confirm-Keeps P blind rows env t answer i)).at s h
    run-keeps (paytm_callback_call env c answer verified order_id) s h =
        (Keeps-atomically _ (callback-Keeps P blind rows env c answer verified order_id)).at s h
    run-keeps (approve_line_call env store approver i) s h =
        (approve_line-Keeps P blind env store approver i).at s h
    run-keeps (pay_line_call issue_env env order_id answer store i) s h =
        (pay_line-Keeps P
            (start-Keeps P blind rows (issue-Keeps P blind uses inserts)
              (consume-Keeps P blind uses inserts))
            digest issue_env env order_id answer store i).at
          s h
    run-keeps (confirm_line_call env answer store i) s h =
        (confirm_line-Keeps P (confirm-Keeps P blind rows) env answer store i).at s h

    pub run_all-keeps : (calls : List Call) (s : Db) → P s → P (run_all digest calls s)
    unfolding run_all
    run_all-keeps [] s h = h
    run_all-keeps (call ∷ calls) s h = run_all-keeps calls (run digest call s) (run-keeps call s h)

insert_other :
    (tenant i : Uuid) (a : CheckoutAuthority) (rows : List CheckoutAuthority)
    {b : CheckoutAuthority}
    → is_some (find (is_authority a.tenant_id a.id) rows) ≡ false
    → find (is_authority tenant i) rows ≡ some b
    → find (is_authority tenant i) (a ∷ rows) ≡ some b
unfolding find
insert_other tenant i a rows new found = elim (Bool-cases (is_authority tenant i a)) [
  | inl hit ↦
      let same_tenant : a.tenant_id ≡ tenant = ground arith in
      let same_id : a.id ≡ i = ground arith in
      absurd (
        cc (
          sym new
          ∙ (λ j. is_some (find (is_authority (same_tenant j) (same_id j)) rows))
          ∙ ap is_some found))
  | inr miss ↦ rw miss found
]

-- The authority is in the database, and used.
pub record IsUsed (tenant i : Uuid) (s : Db) : Type 0 where
  pub authority : CheckoutAuthority
  pub found : find (is_authority tenant i) s.authorities ≡ some authority
  pub used : is_some authority.used_at ≡ true

module _ (tenant i : Uuid) where
  IsUsed-Blind : Blind (IsUsed tenant i)
  IsUsed-Blind = record {
    audits = λ f s h. record { authority = h.authority; found = h.found; used = h.used };
    delegations = λ f s h. record { authority = h.authority; found = h.found; used = h.used };
    spends = λ f s h. record { authority = h.authority; found = h.found; used = h.used };
    reservations = λ f s h. record { authority = h.authority; found = h.found; used = h.used };
    payments = λ f s h. record { authority = h.authority; found = h.found; used = h.used };
    requests = λ f s h. record { authority = h.authority; found = h.found; used = h.used };
    decisions = λ f s h. record { authority = h.authority; found = h.found; used = h.used };
    approvals = λ f s h. record { authority = h.authority; found = h.found; used = h.used };
    new_event = λ e s h. record { authority = h.authority; found = h.found; used = h.used };
    processed_event =
        λ t j now s h. record { authority = h.authority; found = h.found; used = h.used };
  }

  IsUsed-BlindToRows : BlindToRows (IsUsed tenant i)
  IsUsed-BlindToRows = record {
    baskets = λ f s h. record { authority = h.authority; found = h.found; used = h.used };
    lines = λ f s h. record { authority = h.authority; found = h.found; used = h.used };
    paytm = λ f s h. record { authority = h.authority; found = h.found; used = h.used };
  }

  use-IsUsed :
      (t j : Uuid) (now : Time) (s : Db)
      → IsUsed tenant i s
      → IsUsed tenant i
          (record s { authorities = update_where (is_authority t j) (use_at now) s.authorities })
  use-IsUsed t j now s h = record {
    authority = if is_authority t j h.authority then use_at now h.authority else h.authority;
    found =
        find-update_where (is_authority t j) (is_authority tenant i) (use_at now) (λ x. refl)
          s.authorities
        ∙ ap (Option.map (λ x. if is_authority t j x then use_at now x else x)) h.found;
    used = ground (arith, h.used);
  }

  insert-IsUsed :
      (a : CheckoutAuthority) (s : Db)
      → is_some (find (is_authority a.tenant_id a.id) s.authorities) ≡ false
      → IsUsed tenant i s
      → IsUsed tenant i (record s { authorities = a ∷ s.authorities })
  insert-IsUsed a s new h = record {
    authority = h.authority;
    found = insert_other tenant i a s.authorities new h.found;
    used = h.used;
  }

-- Once an authority has been consumed, then whatever calls follow, of those that `Call` lists, it is
-- not consumed again.
pub authority_consumed_once :
    (digest : PurchaseFacts → Text) (env : Env) (tenant i c : Uuid) (s t : Db)
    (a : CheckoutAuthority) (calls : List Call) (env' : Env) (c' : Uuid) (a' : CheckoutAuthority)
    → consume_checkout_authority digest env tenant i c s ≡ (ok a, t)
    → (consume_checkout_authority digest env' tenant i c' (run_all digest calls t)).0 ≢ ok a'
authority_consumed_once digest env tenant i c s t a calls env' c' a' h again =
    let first = consume-Consumed digest env tenant i c s a t h in
    let used : IsUsed tenant i t = record {
      authority = use_at env.now first.authority;
      found =
          ap (λ (x : Db). find (is_authority tenant i) x.authorities) first.after
          ∙ find-update_where_self (is_authority tenant i) (use_at env.now) (λ x. refl)
              s.authorities first.found;
      used = refl;
    } in
    let later = run_all digest calls t in
    let kept =
      run_all-keeps (IsUsed tenant i) (IsUsed-Blind tenant i) (use-IsUsed tenant i)
        (insert-IsUsed tenant i) (IsUsed-BlindToRows tenant i) digest calls t used in
    let second =
      consume-Consumed digest env' tenant i c' later a'
        (consume_checkout_authority digest env' tenant i c' later).1
        (λ j. (again j, (consume_checkout_authority digest env' tenant i c' later).1)) in
    let same : kept.authority ≡ second.authority = cc (sym kept.found ∙ second.found) in
    let unused = ap (λ (x : CheckoutAuthority). x.used_at) same ∙ second.unused in
    absurd (cc (sym kept.used ∙ ap is_some unused))
