-- ===== src/Checkout/Permit.antt =====
-- What `issue_checkout_authority` (api/routes/checkout_authorities.py) has tested and done when it
-- answers with an authority.
use trust_gate_merchant_copi.Base.{
  ◌≡◌, refl, sym, ap, ◌∙◌, subst, ◌⊎◌, inl, inr, ◌<◌, ◌≤◌, ◌+◌, ℕ, true, false, not, ◌&&◌, ◌||◌,
  Option, none, some, ◌∷◌, is_some, if◌then◌else◌, arith, Bool-cases, find, leb, ◌==◌,
}
use trust_gate_merchant_copi.Models.{
  Uuid, Text, Time, Decision, require_approval, DelegationReason, CheckoutReason, authorized,
  state_eq, SpendingPolicy, PaymentRequest, Approval, AuthorizationDecision, Payment,
  CheckoutAuthority, Db, is_request, is_payment_of,
}
use trust_gate_merchant_copi.Session.{Result, ok, pure, add_audit}
use trust_gate_merchant_copi.Session.Returns.{
  bind-ok, gets-ok, raise_if-ok, modify-ok, modify-last, pure-last, atomically-ok,
}
use trust_gate_merchant_copi.Policy.{newest_policy}
use trust_gate_merchant_copi.Chain.Rows.{Env}
use trust_gate_merchant_copi.Requests.{is_decision_of}
use trust_gate_merchant_copi.Checkout.{
  authority_ttl, PurchaseFacts, is_authority, is_spent, snapshot_hash,
}
use trust_gate_merchant_copi.Checkout.Issue.{
  CheckoutAuthorityResponse, issued, refuse, cancel_for_chain, last_consumed, needs_one,
  used_approval, is_authority_of, authority_row, issued_event, response_of, insert_authority,
  reissue, issue_or_reissue, issue_for, issue_under, issue_if_authorized, issue_for_request,
  issue_checkout_authority,
}
use trust_gate_merchant_copi.Checkout.Consume.{HasLiveChain, chain_refusal-same, chain_refusal-none}

-- No row had the key, or the payment, of the new authority.
abbrev pub HasFreshKey : CheckoutAuthority → Db → Type 0
HasFreshKey a s = is_some (find (is_authority a.tenant_id a.id) s.authorities) ≡ false

-- The new authority names the request and its payment.
abbrev pub IsFor : Env → PaymentRequest → Payment → CheckoutAuthority → Type 0
IsFor env request payment a =
    (a.tenant_id ≡ request.tenant_id)
    × (a.payment_request_id ≡ request.id)
    × (a.payment_id ≡ payment.id)
    × (a.created_at ≡ env.db_now)

-- The authority is the one that the request had already, and nothing is written; or it is new, valid
-- for at most the time to live and not beyond the policy, and recorded with its evidence.
abbrev pub Origin :
    Env → SpendingPolicy → PaymentRequest → Payment → CheckoutAuthority → Db → Db → Type 0
Origin env policy request payment a s t =
    ((find (is_authority_of request.tenant_id request.id) s.authorities ≡ some a) × (t ≡ s))
    ⊎ ((find (is_authority_of request.tenant_id request.id) s.authorities ≡ none)
        × HasFreshKey a s
        × IsFor env request payment a
        × (a.expires_at ≤ policy.expiry)
        × (a.expires_at ≤ env.now + authority_ttl)
        × (t ≡ add_audit (issued_event env a) (record s { authorities = a ∷ s.authorities })))

-- An authority that is good for the purchase as it stands.
pub record Permit (env : Env) (hash : Text) (version : ℕ) (policy : SpendingPolicy)
    (request : PaymentRequest) (payment : Payment) (r : CheckoutAuthorityResponse) (s t : Db)
    : Type 0 where
  pub authority : CheckoutAuthority
  pub answer : r ≡ response_of authority
  pub unused : authority.used_at ≡ none
  pub unexpired : env.now < authority.expires_at
  pub same_hash : authority.snapshot_hash ≡ hash
  pub same_version : authority.policy_version ≡ version
  pub origin : Origin env policy request payment authority s t

pub record Issued (digest : PurchaseFacts → Text) (env : Env) (tenant i : Uuid)
    (r : CheckoutAuthorityResponse) (s t : Db) : Type 0 where
  pub request : PaymentRequest
  pub payment : Payment
  pub decision : AuthorizationDecision
  pub policy : SpendingPolicy
  pub found_request : find (is_request tenant i) s.payment_requests ≡ some request
  pub found_payment : find (is_payment_of request.tenant_id request.id) s.payments ≡ some payment
  pub found_decision :
      find (is_decision_of request.tenant_id request.id) s.decisions ≡ some decision
  pub newest : newest_policy request.tenant_id s.policies ≡ some policy
  pub was_authorized : payment.state ≡ authorized
  pub same_version : policy.version ≡ decision.policy_version
  pub in_force : env.now < policy.expiry
  pub live_chain : HasLiveChain request.tenant_id request.delegation_id env.now s
  pub from_catalogue : is_some request.snapshot ≡ true
  pub approved :
      decision.decision ≡ require_approval
      → (a : Approval) × (last_consumed request.tenant_id request.id s.approvals ≡ some a)
  pub permit :
      Permit env
        (snapshot_hash digest request decision.policy_version)
        decision.policy_version
        policy
        request
        payment
        r
        s
        t

refuse-rejects :
    (env : Env) (q : PaymentRequest) (p : Option Payment) (reason : CheckoutReason) (s : Db)
    {r : CheckoutAuthorityResponse} {t : Db}
    → refuse env q p reason s ≡ (ok (issued r), t)
    → ⊥
unfolding refuse
refuse-rejects env q p reason s h = cc ((pure-last _ _ (modify-ok _ _ s h)).0)

cancel-rejects :
    (env : Env) (q : PaymentRequest) (p : Payment) (reason : DelegationReason) (s : Db)
    {r : CheckoutAuthorityResponse} {t : Db}
    → cancel_for_chain env q p reason s ≡ (ok (issued r), t)
    → ⊥
unfolding cancel_for_chain
cancel-rejects env q p reason s h =
    let (_, s₁, _, h₁) = bind-ok _ _ _ (modify-ok _ _ s h) in cc ((pure-last _ s₁ h₁).0)

authorized_lem : (p : Payment) → state_eq p.state authorized ≡ true → p.state ≡ authorized
authorized_lem p h = ground arith

same_answer :
    (a : CheckoutAuthority) (s : Db) {r : CheckoutAuthorityResponse} {t : Db}
    → pure (issued (response_of a)) s ≡ (ok (issued r), t)
    → (r ≡ response_of a) × (t ≡ s)
same_answer a s h = let (e, same) = pure-last _ s h in (cc e, same)

inserted :
    (a : CheckoutAuthority) (s : Db) {u : Unit {0}} {t : Db}
    → insert_authority a s ≡ (ok u, t)
    → HasFreshKey a s × (t ≡ record s { authorities = a ∷ s.authorities })
unfolding insert_authority
inserted a s h =
    let (_, h₁) = raise_if-ok _ _ _ s h in
    let (new, h₂) = raise_if-ok _ _ _ s (gets-ok _ _ s (gets-ok _ _ s h₁)) in
    (ground arith, modify-last _ s h₂)

reissued :
    (env : Env) (hash : Text) (version : ℕ) (policy : SpendingPolicy) (request : PaymentRequest)
    (payment : Payment) (a : CheckoutAuthority) (s : Db) {r : CheckoutAuthorityResponse} {t : Db}
    → find (is_authority_of request.tenant_id request.id) s.authorities ≡ some a
    → reissue env hash version a s ≡ (ok (issued r), t)
    → Permit env hash version policy request payment r s t
unfolding reissue
reissued env hash version policy request payment a s found h =
    elim (Bool-cases
      (is_spent env.now a || not (a.snapshot_hash == hash) || not (a.policy_version == version))) [
        | inl bad ↦ absurd (cc ((pure-last _ s (rw bad at h)).0))
        | inr good ↦
            let (answer, same) = same_answer a s (rw good at h) in
            record {
              authority = a;
              answer = answer;
              unused = ground arith;
              unexpired = ground arith;
              same_hash = ground arith;
              same_version = ground arith;
              origin = inl (found, same);
            }
      ]

expiry_lem :
    (now e : Time)
    → now < e
    → (now < (if leb e (now + authority_ttl) then e else now + authority_ttl))
      × ((if leb e (now + authority_ttl) then e else now + authority_ttl) ≤ e)
      × ((if leb e (now + authority_ttl) then e else now + authority_ttl) ≤ now + authority_ttl)
expiry_lem now e h = elim (Bool-cases (leb e (now + authority_ttl))) [
  | inl t ↦ rw t (h, omega arith, ground arith)
  | inr f ↦ rw f (omega arith, ground arith, omega arith)
]

module _ (env : Env) (policy : SpendingPolicy) (request : PaymentRequest) (payment : Payment)
    (decision : AuthorizationDecision) (approval : Option Uuid) (hash : Text) where
  permitted :
      (existing : Option CheckoutAuthority) (s : Db) {r : CheckoutAuthorityResponse} {t : Db}
      → env.now < policy.expiry
      → find (is_authority_of request.tenant_id request.id) s.authorities ≡ existing
      → issue_or_reissue env
          (authority_row env request payment policy decision approval hash)
          existing
          s
        ≡ (ok (issued r), t)
      → Permit env hash decision.policy_version policy request payment r s t
  unfolding issue_or_reissue
  permitted (some a) s later found h =
      reissued env hash decision.policy_version policy request payment a s found h
  permitted none s later found h =
      let a = authority_row env request payment policy decision approval hash in
      let (_, s₁, h₁, h₂) = bind-ok _ _ s h in
      let (fresh, same₁) = inserted a s h₁ in
      let (answer, same₂) = same_answer a _ (modify-ok _ _ s₁ h₂) in
      let (valid, in_policy, in_time) = expiry_lem env.now policy.expiry later in
      record {
        authority = a;
        answer = answer;
        unused = refl;
        unexpired = valid;
        same_hash = refl;
        same_version = refl;
        origin = inr (
          found,
          fresh,
          (refl, refl, refl, refl),
          in_policy,
          in_time,
          same₂ ∙ ap (add_audit (issued_event env a)) same₁,
        );
      }

approval_lem :
    (d : Decision) (o : Option Approval)
    → (needs_one d && not (is_some o)) ≡ false
    → d ≡ require_approval
    → (a : Approval) × (o ≡ some a)
approval_lem d none h e = absurd (ground (arith, h, e))
approval_lem d (some a) h e = (a, refl)

module _ (digest : PurchaseFacts → Text) (env : Env) (request : PaymentRequest) (payment : Payment)
    (decision : AuthorizationDecision) (policy : SpendingPolicy) (s : Db)
    (r : CheckoutAuthorityResponse) (t : Db) where
  abbrev Permitted : Type 0
  Permitted =
      (is_some request.snapshot ≡ true)
      × (decision.decision ≡ require_approval
          → (a : Approval) × (last_consumed request.tenant_id request.id s.approvals ≡ some a))
      × Permit env (snapshot_hash digest request decision.policy_version) decision.policy_version
          policy request payment r s t

  issue_for-Permitted :
      env.now < policy.expiry
      → (refusal : Option DelegationReason)
      → issue_for digest env request payment decision policy refusal s ≡ (ok (issued r), t)
      → (refusal ≡ none) × Permitted
  unfolding issue_for
  issue_for-Permitted later (some reason) h = absurd (cancel-rejects env request payment reason s h)
  issue_for-Permitted later none h = elim (Bool-cases (is_some request.snapshot)) [
    | inr missing ↦ absurd (refuse-rejects env request (some payment) _ s (rw missing at h))
    | inl whole ↦
        let h₁ = gets-ok _ _ s (gets-ok _ _ s (rw whole at h)) in
        let approval = last_consumed request.tenant_id request.id s.approvals in
        elim (Bool-cases (needs_one decision.decision && not (is_some approval))) [
          | inl missing ↦ absurd (refuse-rejects env request (some payment) _ s (rw missing at h₁))
          | inr given ↦ (
            refl,
            (
              whole,
              approval_lem decision.decision approval given,
              permitted env policy request payment decision
                  (used_approval decision.decision approval)
                  (snapshot_hash digest request decision.policy_version) _ s later refl
                  (rw given at h₁),
            ),
          )
        ]
  ]

  issue_under-Permitted :
      issue_under digest env request payment decision policy s ≡ (ok (issued r), t)
      → (policy.version ≡ decision.policy_version)
        × (env.now < policy.expiry)
        × HasLiveChain request.tenant_id request.delegation_id env.now s
        × Permitted
  unfolding issue_under
  issue_under-Permitted h =
      elim (Bool-cases
        (not (policy.version == decision.policy_version) || leb policy.expiry env.now)) [
          | inl bad ↦ absurd (refuse-rejects env request (some payment) _ s (rw bad at h))
          | inr good ↦
              let same : policy.version ≡ decision.policy_version = ground arith in
              let later : env.now < policy.expiry = ground arith in
              let (refusal, s₁, h₁, h₂) = bind-ok _ _ s (rw good at h) in
              let back : s₁ ≡ s =
                sym (ap (λ (p : Result (Option DelegationReason) × Db). p.1) h₁)
                ∙ chain_refusal-same request.tenant_id request.delegation_id env.now s in
              let (live, permit) = issue_for-Permitted later refusal (
                subst
                  (λ x.
                    issue_for digest env request payment decision policy refusal x
                    ≡ (ok (issued r), t))
                  back h₂) in
              (
                same,
                later,
                chain_refusal-none request.tenant_id request.delegation_id env.now s
                    (ap (λ (p : Result (Option DelegationReason) × Db). p.0) h₁ ∙ ap ok live),
                permit,
              )
        ]

module _ (digest : PurchaseFacts → Text) (env : Env) (tenant i : Uuid) (s : Db)
    (r : CheckoutAuthorityResponse) (t : Db) where
  authorized-Issued :
      (request : PaymentRequest) (p : Option Payment) (d : Option AuthorizationDecision)
      (o : Option SpendingPolicy)
      → find (is_request tenant i) s.payment_requests ≡ some request
      → find (is_payment_of request.tenant_id request.id) s.payments ≡ p
      → find (is_decision_of request.tenant_id request.id) s.decisions ≡ d
      → newest_policy request.tenant_id s.policies ≡ o
      → issue_if_authorized digest env request p d o s ≡ (ok (issued r), t)
      → Issued digest env tenant i r s t
  unfolding issue_if_authorized
  authorized-Issued q none d o a b c e h = absurd (refuse-rejects env q none _ s h)
  authorized-Issued q (some p) none o a b c e h = absurd (refuse-rejects env q (some p) _ s h)
  authorized-Issued q (some p) (some d) none a b c e h =
      absurd (refuse-rejects env q (some p) _ s h)
  authorized-Issued q (some p) (some d) (some policy) a b c e h =
      elim (Bool-cases (state_eq p.state authorized)) [
        | inr other ↦ absurd (refuse-rejects env q (some p) _ s (rw other at h))
        | inl same ↦
            let (version, later, live, (whole, approved, permit)) =
              issue_under-Permitted digest env q p d policy s r t (rw same at h) in
            record {
              request = q;
              payment = p;
              decision = d;
              policy = policy;
              found_request = a;
              found_payment = b;
              found_decision = c;
              newest = e;
              was_authorized = authorized_lem p same;
              same_version = version;
              in_force = later;
              live_chain = live;
              from_catalogue = whole;
              approved = approved;
              permit = permit;
            }
      ]

  request-Issued :
      (q : Option PaymentRequest)
      → find (is_request tenant i) s.payment_requests ≡ q
      → issue_for_request digest env q s ≡ (ok (issued r), t)
      → Issued digest env tenant i r s t
  unfolding issue_for_request
  request-Issued none a h = absurd (cc ((pure-last _ s h).0))
  request-Issued (some q) a h =
      authorized-Issued q _ _ _ a refl refl refl (gets-ok _ _ s (gets-ok _ _ s (gets-ok _ _ s h)))

  -- An authority is issued only for a request of the tenant that has its catalogue snapshot, whose
  -- payment is authorized, that was decided under the newest policy, in force, whose chain is live if
  -- it was delegated, and whose required approval was used; it is unused, unexpired and has the hash
  -- of this purchase; and it is either the one that the request had, with nothing written, or a new
  -- one, valid for at most the time to live and not beyond the policy.
  pub issue-Issued :
      issue_checkout_authority digest env tenant i s ≡ (ok (issued r), t)
      → Issued digest env tenant i r s t
  unfolding issue_checkout_authority
  issue-Issued h = request-Issued _ refl (gets-ok _ _ s (atomically-ok _ s h))
