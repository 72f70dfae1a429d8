-- ===== src/Checkout/Cancel.antt =====
-- A chain that died before the authority was issued takes the payment with it
-- (`issue_checkout_authority` of api/routes/checkout_authorities.py).
use trust_gate_merchant_copi.Base.{
  ◌≡◌, [], ◌∷◌, refl, sym, ◌∙◌, subst, ◌<◌, true, false, not, ◌||◌, none, some, arith, pos, ◌-ℤ◌,
  ◌<ℤ◌, max_ℤ, find, find-holds, leb, ◌==◌,
}
use trust_gate_merchant_copi.Models.{
  Uuid, Text, DelegationReason, chain_refused, refused, authorized, cancelled, state_eq, date,
  SpendingPolicy, PaymentRequest, AuthorizationDecision, Payment, Db, is_request, is_payment,
  is_payment_of,
}
use trust_gate_merchant_copi.Session.{ok, add_audit}
use trust_gate_merchant_copi.Session.Returns.{bind-ok, gets-ok, modify-ok, pure-last, atomically-ok}
use trust_gate_merchant_copi.Session.Runs.{bind-runs}
use trust_gate_merchant_copi.Policy.{newest_policy, daily_spend}
use trust_gate_merchant_copi.Chain.Rows.{Env}
use trust_gate_merchant_copi.Machine.Transition.{set_state, transition}
use trust_gate_merchant_copi.Machine.Moves.{transition-moves}
use trust_gate_merchant_copi.Machine.Legal.{releases_budget, holds_reservation}
use trust_gate_merchant_copi.Machine.Budget.{gives_back, budget_returned}
use trust_gate_merchant_copi.Requests.{is_decision_of}
use trust_gate_merchant_copi.Checkout.{PurchaseFacts, chain_refusal}
use trust_gate_merchant_copi.Checkout.Issue.{
  CheckoutReply, rejection, rejected_event, cancel_for_chain, issue_for, issue_under,
  issue_if_authorized, issue_for_request, issue_checkout_authority,
}
use trust_gate_merchant_copi.Checkout.Consume.{chain_refusal-same}

-- The payment is cancelled, and its amount is its actor's to spend again on the request's day.
pub record Cancelled (request : PaymentRequest) (payment : Payment) (s t : Db) : Type 0 where
  pub payment_cancelled :
      find (is_payment request.tenant_id payment.id) t.payments ≡ some (set_state cancelled payment)
  pub budget_back :
      pos 0 <ℤ request.amount_minor
      → daily_spend request.tenant_id request.actor_id (date request.created_at) t
        ≡ max_ℤ
            (daily_spend request.tenant_id request.actor_id (date request.created_at) s
              -ℤ request.amount_minor)
            (pos 0)

gives_lem : (p : Payment) → p.state ≡ authorized → gives_back p cancelled ≡ true
unfolding releases_budget holds_reservation
gives_lem p h = rw h refl

module _ (env : Env) (request : PaymentRequest) (payment : Payment) (reason : DelegationReason)
    (s : Db) (reply : CheckoutReply) (t : Db) where
  cancel-Cancelled :
      find (is_payment request.tenant_id payment.id) s.payments ≡ some payment
      → find (is_request payment.tenant_id payment.payment_request_id) s.payment_requests
        ≡ some request
      → payment.tenant_id ≡ request.tenant_id
      → payment.state ≡ authorized
      → cancel_for_chain env request payment reason s ≡ (ok reply, t)
      → (reply ≡ rejection (chain_refused reason) 409) × Cancelled request payment s t
  unfolding cancel_for_chain daily_spend
  cancel-Cancelled paid asked same_tenant state h =
      let before =
        add_audit
          (rejected_event request.tenant_id request.id (some payment.id) request.delegation_id
            env.new_correlation (chain_refused reason) (request.id ∷ []))
          s in
      let (_, s₁, h₁, h₂) = bind-ok _ _ before (modify-ok _ _ s h) in
      let (answer, same) = pure-last _ s₁ h₂ in
      let moved =
        subst
          (λ x.
            transition env request.tenant_id payment.id cancelled (refused reason)
              env.new_correlation none before
            ≡ (ok tt, x))
          (sym same) h₁ in
      (
        answer,
        record {
          payment_cancelled =
              transition-moves env request.tenant_id payment.id cancelled (refused reason)
                env.new_correlation none before t payment paid moved;
          budget_back = λ positive.
              subst
                (λ x.
                  daily_spend x request.actor_id (date request.created_at) t
                  ≡ max_ℤ
                      (daily_spend x request.actor_id (date request.created_at) s
                        -ℤ request.amount_minor)
                      (pos 0))
                same_tenant
                (budget_returned env request.tenant_id payment.id cancelled (refused reason)
                  env.new_correlation none before t payment request paid (gives_lem payment state)
                  asked positive moved);
        },
      )

module _ (digest : PurchaseFacts → Text) (env : Env) (tenant i : Uuid) (s : Db)
    (request : PaymentRequest) (payment : Payment) (decision : AuthorizationDecision)
    (policy : SpendingPolicy) (reason : DelegationReason) (reply : CheckoutReply) (t : Db) where
  refused_chain :
      find (is_request tenant i) s.payment_requests ≡ some request
      → find (is_payment_of request.tenant_id request.id) s.payments ≡ some payment
      → find (is_decision_of request.tenant_id request.id) s.decisions ≡ some decision
      → newest_policy request.tenant_id s.policies ≡ some policy
      → state_eq payment.state authorized ≡ true
      → (not (policy.version == decision.policy_version) || leb policy.expiry env.now) ≡ false
      → chain_refusal request.tenant_id request.delegation_id env.now s ≡ (ok (some reason), s)
      → issue_checkout_authority digest env tenant i s ≡ (ok reply, t)
      → cancel_for_chain env request payment reason s ≡ (ok reply, t)
  unfolding issue_checkout_authority issue_for_request issue_if_authorized issue_under issue_for
  refused_chain asked paid decided newest state current dead h =
      let h₁ =
        subst (λ o. issue_for_request digest env o s ≡ (ok reply, t)) asked
          (gets-ok _ _ s (atomically-ok _ s h)) in
      let h₂ =
        subst
          (λ o.
            issue_if_authorized digest env request o
              (find (is_decision_of request.tenant_id request.id) s.decisions)
              (newest_policy request.tenant_id s.policies) s
            ≡ (ok reply, t))
          paid (gets-ok _ _ s (gets-ok _ _ s (gets-ok _ _ s h₁))) in
      let h₃ =
        subst
          (λ o.
            issue_if_authorized digest env request (some payment) o
              (newest_policy request.tenant_id s.policies) s
            ≡ (ok reply, t))
          decided h₂ in
      let h₄ =
        subst
          (λ o.
            issue_if_authorized digest env request (some payment) (some decision) o s
            ≡ (ok reply, t))
          newest h₃ in
      sym (bind-runs _ _ s dead) ∙ rw current at (rw state at h₄)

  -- When the chain of a delegated request is no longer live, and all that is asked before it holds,
  -- an issue that returns is refused with the chain's reason; the payment is cancelled, and a
  -- positive amount is given back to its actor, on the day of the request and not below zero. (The
  -- payment has its id for itself, as the request has.)
  pub dead_chain_cancels :
      find (is_request tenant i) s.payment_requests ≡ some request
      → find (is_payment_of request.tenant_id request.id) s.payments ≡ some payment
      → find (is_payment request.tenant_id payment.id) s.payments ≡ some payment
      → find (is_decision_of request.tenant_id request.id) s.decisions ≡ some decision
      → newest_policy request.tenant_id s.policies ≡ some policy
      → payment.state ≡ authorized
      → policy.version ≡ decision.policy_version
      → env.now < policy.expiry
      → (chain_refusal request.tenant_id request.delegation_id env.now s).0 ≡ ok (some reason)
      → issue_checkout_authority digest env tenant i s ≡ (ok reply, t)
      → (reply ≡ rejection (chain_refused reason) 409) × Cancelled request payment s t
  dead_chain_cancels asked paid alone decided newest state version later dead h =
      let key = find-holds (is_request tenant i) s.payment_requests asked in
      let of = find-holds (is_payment_of request.tenant_id request.id) s.payments paid in
      let same_tenant : payment.tenant_id ≡ request.tenant_id = ground arith in
      let same_request : payment.payment_request_id ≡ request.id = ground arith in
      let own_tenant : request.tenant_id ≡ tenant = ground arith in
      let own_id : request.id ≡ i = ground arith in
      cancel-Cancelled env request payment reason s reply t alone
        ((λ j.
            find (is_request ((same_tenant ∙ own_tenant) j) ((same_request ∙ own_id) j))
              s.payment_requests)
          ∙ asked)
        same_tenant state
        (refused_chain asked paid decided newest (ground (arith, state))
          (ground (arith, version, later))
          (λ j. (dead j, chain_refusal-same request.tenant_id request.delegation_id env.now s j)) h)
