-- ===== src/Checkout/Use.antt =====
-- An authority that was just issued can be consumed (api/routes/checkout_authorities.py).
use trust_gate_merchant_copi.Base.{
  ◌≡◌, refl, sym, ap, ◌∙◌, subst, inl, inr, ◌<◌, ◌≤◌, true, false, not, Option, none, some, List,
  ◌∷◌, arith, find, find-holds, update_where, ltb,
}
use trust_gate_merchant_copi.Models.{
  Uuid, Text, Time, authorized, state_eq, SpendingPolicy, PaymentRequest, Payment,
  CheckoutAuthority, Db, is_request, is_payment, is_payment_of,
}
use trust_gate_merchant_copi.Session.{Result, ok, pure, add_audit}
use trust_gate_merchant_copi.Session.Runs.{
  bind-runs, gets-runs, or_raise-runs, raise_if-runs, modify-runs, atomically-runs,
}
use trust_gate_merchant_copi.Policy.{newest_policy}
use trust_gate_merchant_copi.Chain.Rows.{Env}
use trust_gate_merchant_copi.Approve.Grant.{HasOnePayment}
use trust_gate_merchant_copi.Checkout.{
  PurchaseFacts, is_authority, is_spent, use_at, refusal_of, chain_refusal, claim_authority,
  consumed_event, snapshot_hash, is_drifted, consume_checkout_authority,
}
use trust_gate_merchant_copi.Checkout.Issue.{
  CheckoutAuthorityResponse, issued, issued_event, is_authority_of, issue_checkout_authority,
}
use trust_gate_merchant_copi.Checkout.Consume.{HasLiveChain, chain_refusal-same}
use trust_gate_merchant_copi.Checkout.Chain.{chain_refusal-delegations}
use trust_gate_merchant_copi.Checkout.Permit.{issue-Issued}

-- Everything that `consume_checkout_authority` asks for.
pub record Usable (digest : PurchaseFacts → Text) (now : Time) (tenant i : Uuid) (s : Db)
    : Type 0 where
  pub authority : CheckoutAuthority
  pub request : PaymentRequest
  pub payment : Payment
  pub found : find (is_authority tenant i) s.authorities ≡ some authority
  pub good : is_spent now authority ≡ false
  pub found_request :
      find (is_request tenant authority.payment_request_id) s.payment_requests ≡ some request
  pub found_payment : find (is_payment tenant authority.payment_id) s.payments ≡ some payment
  pub was_authorized : state_eq payment.state authorized ≡ true
  pub current : is_drifted digest now request authority (newest_policy tenant s.policies) ≡ false
  pub live : (chain_refusal tenant request.delegation_id now s).0 ≡ ok none
  pub created : ltb now authority.created_at ≡ false

module _ (digest : PurchaseFacts → Text) (env : Env) (tenant i c : Uuid) (s : Db) where
  abbrev used_up : Usable digest env.now tenant i s → Db
  used_up u = add_audit (consumed_event u.request.id u.payment.id c u.authority) (record s {
    authorities =
        update_where (is_authority u.authority.tenant_id u.authority.id) (use_at env.now)
          s.authorities;
  })

  claim-runs :
      (u : Usable digest env.now tenant i s)
      → claim_authority env.now c u.request u.payment u.authority s
        ≡ (ok (use_at env.now u.authority), used_up u)
  unfolding claim_authority pure
  claim-runs u = raise_if-runs _ _ _ s u.created ∙ modify-runs _ _ s ∙ modify-runs _ _ _

  chain-runs :
      (u : Usable digest env.now tenant i s)
      → chain_refusal tenant u.request.delegation_id env.now s ≡ (ok none, s)
  chain-runs u j = (u.live j, chain_refusal-same tenant u.request.delegation_id env.now s j)

  Usable-is_consumed :
      (u : Usable digest env.now tenant i s)
      → consume_checkout_authority digest env tenant i c s
        ≡ (ok (use_at env.now u.authority), used_up u)
  unfolding consume_checkout_authority pure
  Usable-is_consumed u = atomically-runs _ s (
      gets-runs _ _ s
      ∙ or_raise-runs _ _ _ s u.found
      ∙ raise_if-runs _ _ _ s u.good
      ∙ gets-runs _ _ s
      ∙ gets-runs _ _ s
      ∙ gets-runs _ _ s
      ∙ or_raise-runs _ _ _ s u.found_request
      ∙ or_raise-runs _ _ _ s u.found_payment
      ∙ raise_if-runs _ _ _ s (ap not u.was_authorized)
      ∙ raise_if-runs _ _ _ s u.current
      ∙ bind-runs _ _ s (chain-runs u)
      ∙ bind-runs _ _ s {a = tt} {s' = s} refl
      ∙ claim-runs u)

live_lem :
    (tenant : Uuid) (o : Option Uuid) (now : Time) (s : Db)
    → HasLiveChain tenant o now s
    → (chain_refusal tenant o now s).0 ≡ ok none
unfolding chain_refusal
live_lem tenant none now s h = refl
live_lem tenant (some i) now s (chain, h) = ap refusal_of h

in_force_lem :
    (digest : PurchaseFacts → Text) (now : Time) (q : PaymentRequest) (a : CheckoutAuthority)
    (p : SpendingPolicy)
    → p.version ≡ a.policy_version
    → now < p.expiry
    → a.snapshot_hash ≡ snapshot_hash digest q a.policy_version
    → is_drifted digest now q a (some p) ≡ false
in_force_lem digest now q a p version later same = ground (arith, version, later, same)

good_lem :
    (now : Time) (a : CheckoutAuthority)
    → a.used_at ≡ none
    → now < a.expires_at
    → is_spent now a ≡ false
good_lem now a unused valid = ground (arith, unused, valid)

created_lem : (now at db_now : Time) → at ≡ db_now → db_now ≤ now → ltb now at ≡ false
created_lem now at db_now h k = ground (arith, h, k)

first_row :
    (a : CheckoutAuthority) (rows : List CheckoutAuthority) (tenant : Uuid)
    → a.tenant_id ≡ tenant
    → find (is_authority tenant a.id) (a ∷ rows) ≡ some a
unfolding find
first_row a rows tenant h = ground arith

abbrev issued_db : Env → CheckoutAuthority → Db → Db
issued_db env a s = add_audit (issued_event env a) (record s { authorities = a ∷ s.authorities })

-- The new authority, in the database that its issue left.
module _ (digest : PurchaseFacts → Text) (env : Env) (now : Time) (tenant : Uuid) (s : Db)
    (a : CheckoutAuthority) (request : PaymentRequest) (payment : Payment)
    (policy : SpendingPolicy) where
  new-Usable :
      a.tenant_id ≡ tenant
      → find (is_request tenant a.payment_request_id) s.payment_requests ≡ some request
      → find (is_payment tenant a.payment_id) s.payments ≡ some payment
      → payment.state ≡ authorized
      → newest_policy tenant s.policies ≡ some policy
      → is_drifted digest now request a (some policy) ≡ false
      → is_spent now a ≡ false
      → HasLiveChain tenant request.delegation_id now s
      → ltb now a.created_at ≡ false
      → Usable digest now tenant a.id (issued_db env a s)
  new-Usable own asked paid state newest current good live created = record {
    authority = a;
    request = request;
    payment = payment;
    found = first_row a s.authorities tenant own;
    good = good;
    found_request = asked;
    found_payment = paid;
    was_authorized = ground (arith, state);
    current = rw newest current;
    live =
        chain_refusal-delegations tenant request.delegation_id now (issued_db env a s) s refl
        ∙ live_lem tenant request.delegation_id now s live;
    created = created;
  }

module _ (digest : PurchaseFacts → Text) (env : Env) (tenant i : Uuid) (s : Db)
    (r : CheckoutAuthorityResponse) (t : Db) (env' : Env) (c : Uuid) where
  -- An authority that was issued for a request without one can be consumed: until it expires, not
  -- before it was created, and while the request's chain is live, the call returns. (The payment has
  -- its id for itself.)
  pub issued_is_consumed :
      issue_checkout_authority digest env tenant i s ≡ (ok (issued r), t)
      → find (is_authority_of tenant i) s.authorities ≡ none
      → HasOnePayment tenant i s
      → env.db_now ≤ env'.now
      → env'.now < r.expires_at
      → ((q : PaymentRequest)
          → find (is_request tenant i) s.payment_requests ≡ some q
          → HasLiveChain tenant q.delegation_id env'.now s)
      → (a : CheckoutAuthority) × ((consume_checkout_authority digest env' tenant
            r.checkout_authority_id c t).0
          ≡ ok a)
  issued_is_consumed h new one created valid live =
      let done = issue-Issued digest env tenant i s r t h in
      let made = done.permit in
      let a = made.authority in
      let key = find-holds (is_request tenant i) s.payment_requests done.found_request in
      let own_tenant : done.request.tenant_id ≡ tenant = ground arith in
      let own_id : done.request.id ≡ i = ground arith in
      elim made.origin [
        | inl (had, _) ↦ absurd (
            cc (
              sym had
              ∙ (λ j. find (is_authority_of (own_tenant j) (own_id j)) s.authorities)
              ∙ new))
        | inr (_, _, (of_tenant, of_request, of_payment, at), in_policy, _, same) ↦
            let valid_here : env'.now < a.expires_at =
              subst (λ n. env'.now < n)
                (ap (λ (x : CheckoutAuthorityResponse). x.expires_at) made.answer) valid in
            let later : env'.now < done.policy.expiry = omega (arith, valid_here, in_policy) in
            let own : a.tenant_id ≡ tenant = of_tenant ∙ own_tenant in
            let u =
              new-Usable digest env env'.now tenant s a done.request done.payment done.policy own
                (subst (λ x. find (is_request tenant x) s.payment_requests ≡ some done.request)
                  (sym (of_request ∙ own_id)) done.found_request)
                (subst (λ x. find (is_payment tenant x) s.payments ≡ some done.payment)
                  (sym of_payment)
                  (one done.payment (
                    (λ j. find (is_payment_of (sym own_tenant j) (sym own_id j)) s.payments)
                    ∙ done.found_payment)))
                done.was_authorized
                ((λ j. newest_policy (sym own_tenant j) s.policies) ∙ done.newest)
                (in_force_lem digest env'.now done.request a done.policy
                  (done.same_version ∙ sym made.same_version) later
                  (made.same_hash ∙ ap (snapshot_hash digest done.request) (sym made.same_version)))
                (good_lem env'.now a made.unused valid_here) (live done.request done.found_request)
                (created_lem env'.now a.created_at env.db_now at created) in
            (
              use_at env'.now u.authority,
              (λ j.
                    (consume_checkout_authority digest env' tenant
                      (made.answer j).checkout_authority_id c (same j)).0)
                  ∙ ap (λ (x : Result CheckoutAuthority × Db). x.0)
                      (Usable-is_consumed digest env' tenant a.id c (issued_db env a s) u),
            )
      ]
