-- ===== src/Program/Uses.antt =====
-- What the issue and the use of a checkout authority (api/routes/checkout_authorities.py) keep.
use trust_gate_merchant_copi.Base.{
  ◌≡◌, refl, Bool, true, false, ◌||◌, Option, none, some, ◌∷◌, ℕ, is_some, find, update_where,
}
use trust_gate_merchant_copi.Models.{
  Uuid, Text, Time, CheckoutReason, DelegationReason, SpendingPolicy, PaymentRequest,
  AuthorizationDecision, Payment, database_error, unique_violation, CheckoutAuthority, Db,
}
use trust_gate_merchant_copi.Session.{modify, raise_if, ◌>>=◌, ◌>>◌}
use trust_gate_merchant_copi.Session.Keeps.{
  Keeps, Keeps-modify, Keeps-bind, Keeps-map, keeps_rules, gets-then,
}
use trust_gate_merchant_copi.Chain.Rows.{Env}
use trust_gate_merchant_copi.Chain.Reads.{assert_chain_live-Keeps}
use trust_gate_merchant_copi.Checkout.{
  PurchaseFacts, is_authority, use_at, refusal_of, chain_refusal, raise_refusal, claim_authority,
  consume_checkout_authority,
}
use trust_gate_merchant_copi.Checkout.Issue.{
  refuse, cancel_for_chain, insert_authority, reissue, issue_or_reissue, issue_for, issue_under,
  issue_if_authorized, issue_for_request, issue_checkout_authority,
}
use trust_gate_merchant_copi.Program.Blind.{Blind, audit-Keeps, transition-blind}

-- What sees the authorities alone, and is kept by their use and by the rows that their keys allow.
module _ (P : Db → Type 0) (blind : Blind P)
    (uses : (t j : Uuid) (now : Time) (s : Db)
      → P s
      → P (record s { authorities = update_where (is_authority t j) (use_at now) s.authorities }))
    (inserts : (a : CheckoutAuthority) (s : Db)
      → is_some (find (is_authority a.tenant_id a.id) s.authorities) ≡ false
      → P s
      → P (record s { authorities = a ∷ s.authorities })) where
  refuse-Keeps :
      (env : Env) (r : PaymentRequest) (p : Option Payment) (reason : CheckoutReason)
      → Keeps P (refuse env r p reason)
  unfolding refuse
  refuse-Keeps env r p reason = search (keeps_rules, audit-Keeps P blind)

  cancel-Keeps :
      (env : Env) (r : PaymentRequest) (p : Payment) (reason : DelegationReason)
      → Keeps P (cancel_for_chain env r p reason)
  unfolding cancel_for_chain
  cancel-Keeps env r p reason =
      search (keeps_rules, audit-Keeps P blind, transition-blind P blind) depth 8

  chain_refusal-Keeps :
      (tenant : Uuid) (o : Option Uuid) (now : Time) → Keeps P (chain_refusal tenant o now)
  unfolding chain_refusal
  chain_refusal-Keeps tenant none now = record { at = λ s h. h }
  chain_refusal-Keeps tenant (some i) now =
      Keeps-map refusal_of _ (assert_chain_live-Keeps P tenant i now)

  raise_refusal-Keeps : (o : Option DelegationReason) → Keeps P (raise_refusal o)
  raise_refusal-Keeps none = search keeps_rules
  raise_refusal-Keeps (some r) = search keeps_rules

  uses-Keeps :
      (t j : Uuid) (now : Time)
      → Keeps P (
          modify (λ s. record s {
            authorities = update_where (is_authority t j) (use_at now) s.authorities;
          }))
  uses-Keeps t j now =
      Keeps-modify
        (λ s. record s { authorities = update_where (is_authority t j) (use_at now) s.authorities })
        (uses t j now)

  claim_authority-Keeps :
      (now : Time) (c : Uuid) (r : PaymentRequest) (p : Payment) (a : CheckoutAuthority)
      → Keeps P (claim_authority now c r p a)
  unfolding claim_authority
  claim_authority-Keeps now c r p a = search (keeps_rules, uses-Keeps, audit-Keeps P blind) depth 8

  -- The row is inserted only when no row has its key.
  guarded_insert :
      (a : CheckoutAuthority) (s : Db) (taken rival : Bool)
      → is_some (find (is_authority a.tenant_id a.id) s.authorities) ≡ taken
      → P s
      → P
          ((do
            raise_if (taken || rival) (database_error unique_violation)
            modify (λ x. record x { authorities = a ∷ x.authorities }))
            s).1
  unfolding ◌>>=◌
  guarded_insert a s true rival e h = h
  guarded_insert a s false true e h = h
  guarded_insert a s false false e h = inserts a s e h

  insert_authority-Keeps : (a : CheckoutAuthority) → Keeps P (insert_authority a)
  unfolding insert_authority
  insert_authority-Keeps a = Keeps-bind _ _ (search keeps_rules) (λ _. record {
    at = λ s h. gets-then P _ _ s (gets-then P _ _ s (guarded_insert a s _ _ refl h));
  })

  reissue-Keeps :
      (env : Env) (hash : Text) (version : ℕ) (a : CheckoutAuthority)
      → Keeps P (reissue env hash version a)
  unfolding reissue
  reissue-Keeps env hash version a = search keeps_rules

  issue_or_reissue-Keeps :
      (env : Env) (a : CheckoutAuthority) (o : Option CheckoutAuthority)
      → Keeps P (issue_or_reissue env a o)
  unfolding issue_or_reissue
  issue_or_reissue-Keeps env a none =
      search (keeps_rules, insert_authority-Keeps, audit-Keeps P blind) depth 8
  issue_or_reissue-Keeps env a (some existing) = reissue-Keeps env _ _ existing

  module _ (digest : PurchaseFacts → Text) where
    issue_for-Keeps :
        (env : Env) (r : PaymentRequest) (p : Payment) (d : AuthorizationDecision)
        (policy : SpendingPolicy) (o : Option DelegationReason)
        → Keeps P (issue_for digest env r p d policy o)
    unfolding issue_for
    issue_for-Keeps env r p d policy (some reason) = cancel-Keeps env r p reason
    issue_for-Keeps env r p d policy none =
        search (keeps_rules, refuse-Keeps, issue_or_reissue-Keeps) depth 8

    issue_under-Keeps :
        (env : Env) (r : PaymentRequest) (p : Payment) (d : AuthorizationDecision)
        (policy : SpendingPolicy)
        → Keeps P (issue_under digest env r p d policy)
    unfolding issue_under
    issue_under-Keeps env r p d policy =
        search (keeps_rules, refuse-Keeps, chain_refusal-Keeps, issue_for-Keeps) depth 8

    issue_if_authorized-Keeps :
        (env : Env) (r : PaymentRequest) (p : Option Payment) (d : Option AuthorizationDecision)
        (policy : Option SpendingPolicy)
        → Keeps P (issue_if_authorized digest env r p d policy)
    unfolding issue_if_authorized
    issue_if_authorized-Keeps env r none d policy = refuse-Keeps env r none _
    issue_if_authorized-Keeps env r (some p) none policy = refuse-Keeps env r (some p) _
    issue_if_authorized-Keeps env r (some p) (some d) none = refuse-Keeps env r (some p) _
    issue_if_authorized-Keeps env r (some p) (some d) (some policy) =
        search (keeps_rules, refuse-Keeps, issue_under-Keeps)

    issue_for_request-Keeps :
        (env : Env) (o : Option PaymentRequest) → Keeps P (issue_for_request digest env o)
    unfolding issue_for_request
    issue_for_request-Keeps env none = search keeps_rules
    issue_for_request-Keeps env (some r) = search (keeps_rules, issue_if_authorized-Keeps) depth 8

    pub issue-Keeps :
        (env : Env) (tenant i : Uuid) → Keeps P (issue_checkout_authority digest env tenant i)
    unfolding issue_checkout_authority
    issue-Keeps env tenant i = search (keeps_rules, issue_for_request-Keeps) depth 8

    pub consume-Keeps :
        (env : Env) (tenant i c : Uuid) → Keeps P (consume_checkout_authority digest env tenant i c)
    unfolding consume_checkout_authority
    consume-Keeps env tenant i c =
        search (keeps_rules, chain_refusal-Keeps, raise_refusal-Keeps, claim_authority-Keeps) depth
          28
