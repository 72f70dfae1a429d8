-- ===== src/Approve/Grant.antt =====
-- What `grant_approval` (api/routes/approvals.py) has done when it answers.
use trust_gate_merchant_copi.Base.{
  ◌≡◌, ◌≢◌, refl, sym, ap, ◌∙◌, subst, true, Option, none, some, List, ◌∷◌, arith, find,
  update_where, find-update_where_self, find-holds,
}
use trust_gate_merchant_copi.Models.{
  Uuid, Text, Time, human_approval_granted, needs_approval, authorized, SpendingPolicy,
  PaymentRequest, Approval, AuthorizationDecision, Payment, Db, is_request, is_payment,
  is_payment_of,
}
use trust_gate_merchant_copi.Session.{Result, ok, raise}
use trust_gate_merchant_copi.Session.Returns.{
  bind-ok, gets-ok, or_raise-ok, raise_if-ok, modify-ok, pure-last, atomically-ok,
}
use trust_gate_merchant_copi.Chain.Rows.{Env}
use trust_gate_merchant_copi.Machine.Transition.{is_approval, consume_at, set_state}
use trust_gate_merchant_copi.Machine.Moves.{transition-moves}
use trust_gate_merchant_copi.Machine.Approvals.{authorization_consumes_approval}
use trust_gate_merchant_copi.Approve.{
  ApprovalGrantResponse, is_waiting, policy_of, approval_row, authorize_amount, approve,
  grant_approval,
}

-- A payment's id names one payment (`uq_payment_tenant`).
abbrev pub HasOnePayment : Uuid → Uuid → Db → Type 0
HasOnePayment tenant request s =
    (p : Payment)
    → find (is_payment_of tenant request) s.payments ≡ some p
    → find (is_payment tenant p.id) s.payments ≡ some p

-- The request was reviewed by another person, and its payment is authorized for its amount.
pub record Approved (env : Env) (tenant : Uuid) (approver : Text) (request_id : Uuid) (s t : Db)
    : Type 0 where
  pub request : PaymentRequest
  pub payment : Payment
  pub approval : Approval
  pub found_request : find (is_request tenant request_id) s.payment_requests ≡ some request
  pub found_payment : find (is_payment_of tenant request.id) s.payments ≡ some payment
  pub independent : approver ≢ request.actor_id
  pub waited : payment.state ≡ needs_approval
  pub authorized_payment :
      find (is_payment tenant payment.id) t.payments
      ≡ some (set_state authorized (authorize_amount request.amount_minor payment))
  pub granted_by : approval.granted_by ≡ approver
  pub granted_for : approval.payment_request_id ≡ request.id
  pub consumed :
      find (is_approval payment.tenant_id env.new_id) t.approvals
      ≡ some (consume_at env.now approval)

waiting_lem : (p : Payment) → is_waiting p ≡ true → p.state ≡ needs_approval
waiting_lem p h = ground arith

policy_of-ok :
    (tenant : Uuid) (now : Time) (o : Option AuthorizationDecision) (s : Db)
    {d : AuthorizationDecision × SpendingPolicy} {t : Db}
    → policy_of tenant now o s ≡ (ok d, t)
    → t ≡ s
unfolding policy_of raise
policy_of-ok tenant now none s h =
    absurd (cc (ap (λ (p : Result (AuthorizationDecision × SpendingPolicy) × Db). p.0) h))
policy_of-ok tenant now (some decision) s h =
    let (rules, _, h₁) = or_raise-ok _ _ _ s (gets-ok _ _ s h) in
    let (_, h₂) = raise_if-ok _ _ _ s h₁ in (pure-last _ s h₂).1

abbrev ready : PaymentRequest → Payment → Approval → Uuid → Db → Db
ready request payment approval tenant s = record s {
  approvals = approval ∷ s.approvals;
  payments =
      update_where (is_payment tenant payment.id) (authorize_amount request.amount_minor)
        s.payments;
}

new_approval :
    (env : Env) (tenant request : Uuid) (approver : Text) (d : AuthorizationDecision)
    (rules : SpendingPolicy) (rows : List Approval)
    → find (is_approval tenant env.new_id) (approval_row env tenant request approver d rules ∷ rows)
      ≡ some (approval_row env tenant request approver d rules)
unfolding find
new_approval env tenant request approver d rules rows = ground arith

module _ (env : Env) (tenant : Uuid) (approver : Text) (request_id : Uuid) (s : Db) where
  approve-Approved :
      (request : PaymentRequest) (payment : Payment) (d : AuthorizationDecision)
      (rules : SpendingPolicy) {r : ApprovalGrantResponse} {t : Db}
      → find (is_request tenant request_id) s.payment_requests ≡ some request
      → find (is_payment_of tenant request.id) s.payments ≡ some payment
      → find (is_payment tenant payment.id) s.payments ≡ some payment
      → approver ≢ request.actor_id
      → payment.state ≡ needs_approval
      → approve env tenant request payment (approval_row env tenant request.id approver d rules) s
        ≡ (ok r, t)
      → Approved env tenant approver request_id s t
  unfolding approve
  approve-Approved request payment d rules {t = t} found_request found_payment one independent waits
        h =
      let row = approval_row env tenant request.id approver d rules in
      let before = ready request payment row tenant s in
      let after = authorize_amount request.amount_minor payment in
      let (_, s₁, h₁, h₂) = bind-ok _ _ before (modify-ok _ _ s h) in
      let same : t ≡ s₁ = (pure-last _ s₁ h₂).1 in
      let found : find (is_payment tenant payment.id) before.payments ≡ some after =
        find-update_where_self (is_payment tenant payment.id)
          (authorize_amount request.amount_minor) (λ x. refl) s.payments one in
      let (k, named, used) =
        authorization_consumes_approval env tenant payment.id human_approval_granted
          env.new_correlation (some env.new_id) before s₁ after found waits h₁ in
      let new_key : k ≡ env.new_id = cc named in
      let own_tenant : payment.tenant_id ≡ tenant =
        ground (arith, find-holds (is_payment tenant payment.id) s.payments one) in
      let granted : used.approval ≡ row = cc (
        sym used.found
        ∙ (λ j. find (is_approval (own_tenant j) (new_key j)) before.approvals)
        ∙ new_approval env tenant request.id approver d rules s.approvals) in
      record {
        request = request;
        payment = payment;
        approval = used.approval;
        found_request = found_request;
        found_payment = found_payment;
        independent = independent;
        waited = waits;
        authorized_payment =
            ap (λ (x : Db). find (is_payment tenant payment.id) x.payments) same
            ∙ transition-moves env tenant payment.id authorized human_approval_granted
                env.new_correlation (some env.new_id) before s₁ after found h₁;
        granted_by = ap (λ (x : Approval). x.granted_by) granted;
        granted_for = ap (λ (x : Approval). x.payment_request_id) granted;
        consumed =
            subst
              (λ x.
                find (is_approval payment.tenant_id x) t.approvals
                ≡ some (consume_at env.now used.approval))
              new_key
              (ap (λ (x : Db). find (is_approval payment.tenant_id k) x.approvals) same
                ∙ used.after);
      }

  -- A grant that answers was given by someone other than the requester, for a payment that waited,
  -- which is authorized now for exactly the amount that was requested; and the approval that it
  -- recorded, granted by the approver for that request, is consumed. (Payments have unique ids.)
  pub grant_authorizes :
      (r : ApprovalGrantResponse) (t : Db)
      → HasOnePayment tenant request_id s
      → grant_approval env tenant approver request_id s ≡ (ok r, t)
      → Approved env tenant approver request_id s t
  unfolding grant_approval
  grant_authorizes r t one h =
      let (request, found_request, h₁) =
        or_raise-ok _ _ _ s (gets-ok _ _ s (atomically-ok _ s h)) in
      let (other, h₂) = raise_if-ok _ _ _ s h₁ in
      let (payment, found_payment, h₃) = or_raise-ok _ _ _ s (gets-ok _ _ s h₂) in
      let (waits, h₄) = raise_if-ok _ _ _ s h₃ in
      let (_, h₅) = raise_if-ok _ _ _ s (gets-ok _ _ s h₄) in
      let (d, s₁, h₆, h₇) = bind-ok _ _ s (gets-ok _ _ s h₅) in
      let own_id : request.id ≡ request_id =
        ground
          (arith, find-holds (is_request tenant request_id) s.payment_requests found_request) in
      approve-Approved request payment d.0 d.1 found_request found_payment
        (one payment (
          subst (λ x. find (is_payment_of tenant x) s.payments ≡ some payment) own_id
            found_payment))
        (λ same. ground (arith, other)) (waiting_lem payment (ground (arith, waits)))
        (subst
          (λ x.
            approve env tenant request payment (approval_row env tenant request.id approver d.0 d.1)
              x
            ≡ (ok r, t))
          (policy_of-ok tenant env.now _ s h₆) h₇)
