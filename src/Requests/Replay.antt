-- ===== src/Requests/Replay.antt =====
-- A key that was used before (api/routes/payment_requests.py) changes nothing but the audit trail.
use trust_gate_merchant_copi.Base.{
  ◌≡◌, refl, sym, ◌∙◌, subst, ◌⊎◌, Option, none, some, if◌then◌else◌, Bool-cases, inl, inr, find,
}
use trust_gate_merchant_copi.Models.{
  Uuid, Merchant, PaymentRequest, AuthorizationDecision, Payment, AuditEvent, Db, is_payment_of,
}
use trust_gate_merchant_copi.Session.{Result, ok, Action, atomically, modify, add_audit, ◌>>=◌}
use trust_gate_merchant_copi.Session.Keeps.{
  Keeps, Keeps-modify, keeps_rules, gets-then, atomically-at,
}
use trust_gate_merchant_copi.Machine.Untouched.{Untouched, Untouched-refl}
use trust_gate_merchant_copi.Requests.{
  PaymentRequestCreate, CatalogPurchaseContext, Fresh, PaymentRequestDecision, Reply, decided,
  conflict, response, is_decision_of, same_request, has_key, replay,
}
use trust_gate_merchant_copi.Requests.Same.{SameRequest, same_request_sound, same_request_complete}
use trust_gate_merchant_copi.Requests.Create.{
  is_merchant, create_or_replay, request_for_merchant, create_payment_request_for_context,
}

-- The payments, the requests, the decisions and the budgets are as they were.
pub record SameBooks (s t : Db) : Type 0 where
  pub untouched : Untouched s t
  pub decisions : t.decisions ≡ s.decisions

pub SameBooks-refl : (s : Db) → SameBooks s s
SameBooks-refl s = record { untouched = Untouched-refl s; decisions = refl }

audit-SameBooks : (s : Db) (e : AuditEvent) (t : Db) → SameBooks s t → SameBooks s (add_audit e t)
audit-SameBooks s e t h = record {
  untouched = record {
    payments = h.untouched.payments;
    payment_requests = h.untouched.payment_requests;
    reservations = h.untouched.reservations;
    delegations = h.untouched.delegations;
    delegation_spends = h.untouched.delegation_spends;
  };
  decisions = h.decisions;
}

module _ (P : Db → Type 0) (audits : (e : AuditEvent) (s : Db) → P s → P (add_audit e s))
    (fresh : Fresh) (tenant : Uuid) (request : PaymentRequestCreate)
    (context : Option CatalogPurchaseContext) where
  event-Keeps : (e : AuditEvent) → Keeps P (modify (add_audit e))
  event-Keeps e = Keeps-modify (add_audit e) (audits e)

  pub replay-Keeps :
      (existing : PaymentRequest) → Keeps P (replay fresh tenant request context existing)
  unfolding replay
  replay-Keeps existing = search (keeps_rules, event-Keeps) depth 12

  refused-Keeps : Keeps P (request_for_merchant fresh tenant request context none)
  unfolding request_for_merchant
  refused-Keeps = search (keeps_rules, event-Keeps)

  -- With the key in use, the request for a merchant is a replay or a refusal.
  known_key-keeps :
      (m : Option Merchant) (s : Db) {existing : PaymentRequest}
      → find (has_key tenant request.idempotency_key) s.payment_requests ≡ some existing
      → P s
      → P (request_for_merchant fresh tenant request context m s).1
  unfolding request_for_merchant create_or_replay
  known_key-keeps none s e h = refused-Keeps.at s h
  known_key-keeps (some m) s {existing = existing} e h = gets-then P _ _ s (
      subst (λ o. P (create_or_replay fresh tenant request context o s).1) (sym e)
        ((replay-Keeps existing).at s h))

  pub replay-keeps :
      (s : Db) {existing : PaymentRequest}
      → find (has_key tenant request.idempotency_key) s.payment_requests ≡ some existing
      → P s
      → P (create_payment_request_for_context fresh tenant request context s).1
  unfolding create_payment_request_for_context
  replay-keeps s e h = atomically-at P _ s h (
      gets-then P _ _ s
        (known_key-keeps (find (is_merchant tenant request.merchant_id) s.merchants) s e h))

-- When the tenant has a request under the idempotency key, another request under that key, the same
-- or not, answered or raised, changes no payment, no request, no decision and no budget.
pub replay_changes_nothing :
    (fresh : Fresh) (tenant : Uuid) (request : PaymentRequestCreate)
    (context : Option CatalogPurchaseContext) (s : Db) (existing : PaymentRequest)
    → find (has_key tenant request.idempotency_key) s.payment_requests ≡ some existing
    → SameBooks s (create_payment_request_for_context fresh tenant request context s).1
replay_changes_nothing fresh tenant request context s existing e =
    replay-keeps (SameBooks s) (audit-SameBooks s) fresh tenant request context s e
      (SameBooks-refl s)

replay_value :
    (fresh : Fresh) (tenant : Uuid) (request : PaymentRequestCreate)
    (context : Option CatalogPurchaseContext) (s : Db) (existing : PaymentRequest)
    (decision : AuthorizationDecision) (payment : Payment)
    → find (is_decision_of tenant existing.id) s.decisions ≡ some decision
    → find (is_payment_of tenant existing.id) s.payments ≡ some payment
    → (replay fresh tenant request context existing s).0
      ≡ ok (
          if same_request fresh existing request context
          then decided (response existing decision payment)
          else conflict (response existing decision payment))
unfolding replay ◌>>=◌
replay_value fresh tenant request context s existing decision payment d p = rw d (
    rw p (elim (Bool-cases (same_request fresh existing request context)) [
      | inl e ↦ rw e refl
      | inr e ↦ rw e refl
    ]))

settle-value : (m : Action Reply) (s : Db) (r : Reply) → (m s).0 ≡ ok r → (atomically m s).0 ≡ ok r
unfolding atomically
settle-value m s r e = rw e refl

known_key-value :
    (fresh : Fresh) (tenant : Uuid) (request : PaymentRequestCreate)
    (context : Option CatalogPurchaseContext) (s : Db) (m : Merchant) (existing : PaymentRequest)
    (decision : AuthorizationDecision) (payment : Payment)
    → find (is_merchant tenant request.merchant_id) s.merchants ≡ some m
    → find (has_key tenant request.idempotency_key) s.payment_requests ≡ some existing
    → find (is_decision_of tenant existing.id) s.decisions ≡ some decision
    → find (is_payment_of tenant existing.id) s.payments ≡ some payment
    → (create_payment_request_for_context fresh tenant request context s).0
      ≡ ok (
          if same_request fresh existing request context
          then decided (response existing decision payment)
          else conflict (response existing decision payment))
unfolding create_payment_request_for_context request_for_merchant create_or_replay ◌>>=◌ atomically
known_key-value fresh tenant request context s m existing decision payment known used d p =
    let reply =
      if same_request fresh existing request context
      then decided (response existing decision payment)
      else conflict (response existing decision payment) in
    let answered : (request_for_merchant fresh tenant request context (some m) s).0 ≡ ok reply =
      rw used (replay_value fresh tenant request context s existing decision payment d p) in
    settle-value
      (λ x.
        request_for_merchant fresh tenant request context
          (find (is_merchant tenant request.merchant_id) x.merchants) x)
      s reply
      (subst (λ o. (request_for_merchant fresh tenant request context o s).0 ≡ ok reply) (sym known)
        answered)

-- What a used key shows: the stored decision, with the payment's current state.
abbrev pub shown : PaymentRequest → AuthorizationDecision → Payment → PaymentRequestDecision
shown existing decision payment = record {
  payment_request_id = existing.id;
  decision = decision.decision;
  reasons = decision.reasons;
  policy_version = decision.policy_version;
  correlation_id = decision.correlation_id;
  next_state = payment.state;
}

-- The answer is a decision for the same request, and a conflict for any other.
abbrev pub AnswersAgain :
    Fresh
    → PaymentRequestCreate
    → Option CatalogPurchaseContext
    → PaymentRequest
    → PaymentRequestDecision
    → Result Reply
    → Type 0
AnswersAgain fresh request context existing d r =
    (SameRequest fresh existing request context × (r ≡ ok (decided d)))
    ⊎ ((¬ SameRequest fresh existing request context) × (r ≡ ok (conflict d)))

-- A request under a used key, to a merchant of the tenant, gets the decision that is stored, with its
-- reasons, its policy version and the payment's current state. It gets them as its own decision
-- exactly when it is the same request: its actor, merchant, amount, currency, order, catalogue
-- purchase and source are those of the stored one; if any of them differs, it gets a conflict.
pub replay_answers :
    (fresh : Fresh) (tenant : Uuid) (request : PaymentRequestCreate)
    (context : Option CatalogPurchaseContext) (s : Db) (m : Merchant) (existing : PaymentRequest)
    (decision : AuthorizationDecision) (payment : Payment)
    → find (is_merchant tenant request.merchant_id) s.merchants ≡ some m
    → find (has_key tenant request.idempotency_key) s.payment_requests ≡ some existing
    → find (is_decision_of tenant existing.id) s.decisions ≡ some decision
    → find (is_payment_of tenant existing.id) s.payments ≡ some payment
    → AnswersAgain fresh request context existing
        (shown existing decision payment)
        (create_payment_request_for_context fresh tenant request context s).0
replay_answers fresh tenant request context s m existing decision payment known used d p =
    let answer =
      known_key-value fresh tenant request context s m existing decision payment known used d p in
    elim (Bool-cases (same_request fresh existing request context)) [
      | inl same ↦
          inl (same_request_sound fresh existing request context same, answer ∙ rw same refl)
      | inr other ↦ inr (
        (λ same. cc (sym other ∙ same_request_complete fresh existing request context same)),
        answer ∙ rw other refl,
      )
    ]
