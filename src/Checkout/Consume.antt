-- ===== src/Checkout/Consume.antt =====
-- What `consume_checkout_authority` (api/routes/checkout_authorities.py) has tested and done when it
-- returns.
use trust_gate_merchant_copi.Base.{
  ◌≡◌, refl, sym, ap, ◌∙◌, ◌<◌, false, not, Option, none, some, List, arith, find, update_where,
  find-holds,
}
use trust_gate_merchant_copi.Models.{
  Uuid, Text, Time, DelegationReason, authorized, state_eq, SpendingPolicy, Delegation,
  PaymentRequest, Payment, CheckoutAuthority, Db, is_request, is_payment,
}
use trust_gate_merchant_copi.Session.{Result, ok, err, add_audit, pure, raise}
use trust_gate_merchant_copi.Session.Returns.{
  bind-ok, gets-ok, or_raise-ok, raise_if-ok, modify-ok, pure-last, atomically-ok,
}
use trust_gate_merchant_copi.Policy.{newest_policy}
use trust_gate_merchant_copi.Chain.Rows.{Env}
use trust_gate_merchant_copi.Chain.Walk.{assert_chain_live}
use trust_gate_merchant_copi.Chain.Reads.{assert_chain_live-Keeps}
use trust_gate_merchant_copi.Checkout.{
  PurchaseFacts, is_authority, is_spent, use_at, refusal_of, chain_refusal, raise_refusal,
  consumed_event, claim_authority, snapshot_hash, is_drifted, consume_checkout_authority,
}

-- Every hop of the request's chain, if it has one, is live.
abbrev pub HasLiveChain : Uuid → Option Uuid → Time → Db → Type 0
HasLiveChain tenant none now s = Unit
HasLiveChain tenant (some i) now s =
    (chain : List Delegation) × ((assert_chain_live tenant i now s).0 ≡ ok chain)

-- The tests held, and the authority is marked as used; nothing else but the audit trail differs.
pub record Consumed (digest : PurchaseFacts → Text) (env : Env) (tenant i correlation : Uuid)
    (a : CheckoutAuthority) (s t : Db) : Type 0 where
  pub authority : CheckoutAuthority
  pub request : PaymentRequest
  pub payment : Payment
  pub policy : SpendingPolicy
  pub found : find (is_authority tenant i) s.authorities ≡ some authority
  pub unused : authority.used_at ≡ none
  pub unexpired : env.now < authority.expires_at
  pub found_request :
      find (is_request tenant authority.payment_request_id) s.payment_requests ≡ some request
  pub found_payment : find (is_payment tenant authority.payment_id) s.payments ≡ some payment
  pub was_authorized : payment.state ≡ authorized
  pub newest : newest_policy tenant s.policies ≡ some policy
  pub same_version : policy.version ≡ authority.policy_version
  pub in_force : env.now < policy.expiry
  pub same_purchase :
      snapshot_hash digest request authority.policy_version ≡ authority.snapshot_hash
  pub live_chain : HasLiveChain tenant request.delegation_id env.now s
  pub answer : a ≡ use_at env.now authority
  pub after :
      t
      ≡ add_audit (consumed_event request.id payment.id correlation authority) (record s {
        authorities = update_where (is_authority tenant i) (use_at env.now) s.authorities;
      })

pub chain_refusal-same :
    (tenant : Uuid) (o : Option Uuid) (now : Time) (s : Db) → (chain_refusal tenant o now s).1 ≡ s
unfolding chain_refusal
chain_refusal-same tenant none now s = refl
chain_refusal-same tenant (some i) now s =
    (assert_chain_live-Keeps (λ t. t ≡ s) tenant i now).at s refl

refusal-none :
    (r : Result (List Delegation))
    → refusal_of r ≡ ok none
    → (chain : List Delegation) × (r ≡ ok chain)
refusal-none (ok chain) h = (chain, refl)
refusal-none (err e) h = absurd (ground arith)

pub chain_refusal-none :
    (tenant : Uuid) (o : Option Uuid) (now : Time) (s : Db)
    → (chain_refusal tenant o now s).0 ≡ ok none
    → HasLiveChain tenant o now s
unfolding chain_refusal
chain_refusal-none tenant none now s h = tt
chain_refusal-none tenant (some i) now s h = refusal-none (assert_chain_live tenant i now s).0 h

not_refused :
    (o : Option DelegationReason) (s : Db) {u : Unit {0}} {t : Db}
    → raise_refusal o s ≡ (ok u, t)
    → (o ≡ none) × (t ≡ s)
unfolding pure raise
not_refused none s h = (refl, sym (ap (λ (p : Result (Unit {0}) × Db). p.1) h))
not_refused (some r) s h = absurd (cc (ap (λ (p : Result (Unit {0}) × Db). p.0) h))

claimed_lem :
    (now : Time) (correlation : Uuid) (request : PaymentRequest) (payment : Payment)
    (authority : CheckoutAuthority) (s : Db) {a : CheckoutAuthority} {t : Db}
    → claim_authority now correlation request payment authority s ≡ (ok a, t)
    → (a ≡ use_at now authority)
      × (t
          ≡ add_audit (consumed_event request.id payment.id correlation authority) (record s {
            authorities =
                update_where
                  (is_authority authority.tenant_id authority.id)
                  (use_at now)
                  s.authorities;
          }))
unfolding claim_authority
claimed_lem now correlation request payment authority s h =
    let (_, h₁) = raise_if-ok _ _ _ s h in pure-last _ _ (modify-ok _ _ _ (modify-ok _ _ s h₁))

module _ (digest : PurchaseFacts → Text) (env : Env) (tenant i correlation : Uuid) (s : Db) where
  policy_lem :
      (request : PaymentRequest) (a : CheckoutAuthority) (o : Option SpendingPolicy)
      → is_drifted digest env.now request a o ≡ false
      → (policy : SpendingPolicy) × (o ≡ some policy)
        × (policy.version ≡ a.policy_version)
        × (env.now < policy.expiry)
        × (snapshot_hash digest request a.policy_version ≡ a.snapshot_hash)
  policy_lem request a none h = absurd (cc)
  policy_lem request a (some p) h = (p, refl, ground arith, ground arith, ground arith)

  unused_lem :
      (a : CheckoutAuthority)
      → is_spent env.now a ≡ false
      → (a.used_at ≡ none) × (env.now < a.expires_at)
  unused_lem a h = (ground arith, ground arith)

  authorized_lem : (p : Payment) → not (state_eq p.state authorized) ≡ false → p.state ≡ authorized
  authorized_lem p h = ground arith

  -- An authority that is consumed was unused and unexpired, for a payment that was authorized, under
  -- the newest policy, in force and of the authority's version, for the same purchase by its hash, and
  -- with a live chain if the request was delegated; the authority is marked as used, its consumption
  -- is audited, and nothing else is written.
  pub consume-Consumed :
      (a : CheckoutAuthority) (t : Db)
      → consume_checkout_authority digest env tenant i correlation s ≡ (ok a, t)
      → Consumed digest env tenant i correlation a s t
  unfolding consume_checkout_authority
  consume-Consumed a t h =
      let (authority, found, h₁) = or_raise-ok _ _ _ s (gets-ok _ _ s (atomically-ok _ s h)) in
      let (good, h₂) = raise_if-ok _ _ _ s h₁ in
      let (request, found_request, h₃) =
        or_raise-ok _ _ _ s (gets-ok _ _ s (gets-ok _ _ s (gets-ok _ _ s h₂))) in
      let (payment, found_payment, h₄) = or_raise-ok _ _ _ s h₃ in
      let (state, h₅) = raise_if-ok _ _ _ s h₄ in
      let (current, h₆) = raise_if-ok _ _ _ s h₅ in
      let (refusal, s₁, h₇, h₈) = bind-ok _ _ s h₆ in
      let (_, s₂, h₉, h₁₀) = bind-ok _ _ s₁ h₈ in
      let (none_refused, same₂) = not_refused refusal s₁ h₉ in
      let same₁ : s₁ ≡ s =
        sym (ap (λ (p : Result (Option DelegationReason) × Db). p.1) h₇)
        ∙ chain_refusal-same tenant request.delegation_id env.now s in
      let done = claimed_lem env.now correlation request payment authority s₂ h₁₀ in
      let key = find-holds (is_authority tenant i) s.authorities found in
      let own_tenant : authority.tenant_id ≡ tenant = ground arith in
      let own_id : authority.id ≡ i = ground arith in
      let (policy, newest, same_version, in_force, same_purchase) =
        policy_lem request authority _ current in
      record {
        authority = authority;
        request = request;
        payment = payment;
        policy = policy;
        found = found;
        unused = (unused_lem authority good).0;
        unexpired = (unused_lem authority good).1;
        found_request = found_request;
        found_payment = found_payment;
        was_authorized = authorized_lem payment state;
        newest = newest;
        same_version = same_version;
        in_force = in_force;
        same_purchase = same_purchase;
        live_chain =
            chain_refusal-none tenant request.delegation_id env.now s
              (ap (λ (p : Result (Option DelegationReason) × Db). p.0) h₇ ∙ ap ok none_refused);
        answer = done.0;
        after =
            done.1
            ∙ ap
                (λ (x : Db).
                  add_audit (consumed_event request.id payment.id correlation authority) (record x {
                    authorities =
                        update_where (is_authority authority.tenant_id authority.id)
                          (use_at env.now) x.authorities;
                  }))
                (same₂ ∙ same₁)
            ∙ (λ j.
                add_audit (consumed_event request.id payment.id correlation authority) (record s {
                  authorities =
                      update_where (is_authority (own_tenant j) (own_id j)) (use_at env.now)
                        s.authorities;
                }));
      }
