-- ===== src/Razorpay/Attempts.antt =====
-- A failed attempt is evidence, not a verdict (`_RAZORPAY_RECORDED_ONLY` of api/routes/razorpay.py).
use trust_gate_merchant_copi.Base.{
  ◌≡◌, refl, sym, subst, Option, none, some, List, if◌then◌else◌, not, ◌||◌, ltb,
}
use trust_gate_merchant_copi.Models.{
  Text, payment_failed, Reason, razorpay_body_too_large, razorpay_signature_invalid, StateCode,
  Error, RazorpayOrder, Payment, ProviderEvent, AuditEvent, Db,
}
use trust_gate_merchant_copi.Session.{Result, ok, err, pure, modify, add_audit}
use trust_gate_merchant_copi.Session.Keeps.{
  Keeps, Keeps-modify, Keeps-atomically, Keeps-if, Keeps-pure, keeps_rules,
}
use trust_gate_merchant_copi.Chain.Rows.{Env}
use trust_gate_merchant_copi.Machine.Untouched.{Untouched, Untouched-refl}
use trust_gate_merchant_copi.Razorpay.Hook.{
  Setting, failed_event, handled, hook_target, PaymentEntity, RazorpayEvent, Delivery, hook_refused,
  exceeds, max_webhook_body, apply_event, record_hook, settle_error, settle_hook, try_hook,
  hook_on_payment, hook_on_order, hook_event, timely_event, parsed_event, receive_razorpay_webhook,
}

module _ (P : Db → Type 0) (audits : (e : AuditEvent) (s : Db) → P s → P (add_audit e s))
    (events : (f : Db → List ProviderEvent) (s : Db)
      → P s
      → P (record s { provider_events = f s })) where
  audit-Keeps : (e : AuditEvent) → Keeps P (modify (add_audit e))
  audit-Keeps e = Keeps-modify (add_audit e) (audits e)

  events-Keeps :
      (f : Db → List ProviderEvent) → Keeps P (modify (λ s. record s { provider_events = f s }))
  events-Keeps f = Keeps-modify (λ s. record s { provider_events = f s }) (events f)

  module _ (env : Env) (o : RazorpayOrder) (p : Payment) (entity : PaymentEntity)
      (identity : Text) where
    attempt-Keeps : Keeps P (apply_event env o p entity payment_failed (hook_target payment_failed))
    unfolding apply_event
    attempt-Keeps = audit-Keeps _

    record-Keeps : Keeps P (record_hook env o p entity payment_failed identity)
    unfolding record_hook
    record-Keeps = search (keeps_rules, events-Keeps, attempt-Keeps) depth 12

    settle_error-Keeps :
        (e : Error) (c : Option StateCode) → Keeps P (settle_error env o entity e c)
    unfolding settle_error
    settle_error-Keeps e none = search keeps_rules
    settle_error-Keeps e (some c) = search (keeps_rules, audit-Keeps)

    settle-Keeps : (r : Result (Unit {0})) → Keeps P (settle_hook env o entity identity r)
    unfolding settle_hook
    settle-Keeps (ok u) = search (keeps_rules, events-Keeps, audit-Keeps) depth 8
    settle-Keeps (err e) = settle_error-Keeps e _

    try-Keeps : Keeps P (try_hook env o p entity payment_failed identity)
    unfolding try_hook
    try-Keeps = record {
      at = λ s h.
          let (r, t) = record_hook env o p entity payment_failed identity s in
          (settle-Keeps r).at t (record-Keeps.at s h);
    }

  module _ (env : Env) (entity : PaymentEntity) (identity : Text) where
    on_payment-Keeps :
        (o : RazorpayOrder) (p : Option Payment)
        → Keeps P (hook_on_payment env o entity payment_failed identity p)
    unfolding hook_on_payment
    on_payment-Keeps o none = search keeps_rules
    on_payment-Keeps o (some p) = try-Keeps env o p entity identity

    on_order-Keeps :
        (o : Option RazorpayOrder) → Keeps P (hook_on_order env entity payment_failed identity o)
    unfolding hook_on_order
    on_order-Keeps none = search keeps_rules
    on_order-Keeps (some o) = search (keeps_rules, audit-Keeps, on_payment-Keeps) depth 8

  module _ (env : Env) (max_age : Setting) (d : Delivery) where
    event-Keeps :
        (entity : Option PaymentEntity)
        → Keeps P (hook_event env d.header_id entity (some payment_failed))
    unfolding hook_event
    event-Keeps none = search keeps_rules
    event-Keeps (some entity) = search (keeps_rules, on_order-Keeps)

    timely-Keeps :
        (e : RazorpayEvent) (rejection : Option Reason)
        → e.event ≡ failed_event
        → Keeps P (timely_event env d.header_id e rejection)
    unfolding timely_event
    timely-Keeps e (some reason) failed = search keeps_rules
    timely-Keeps e none failed =
        subst (λ x. Keeps P (hook_event env d.header_id e.payment_entity (handled x))) (sym failed)
          (event-Keeps e.payment_entity)

    parsed-Keeps :
        (o : Option RazorpayEvent)
        → ((e : RazorpayEvent) → o ≡ some e → e.event ≡ failed_event)
        → Keeps P (parsed_event env max_age d o)
    unfolding parsed_event
    parsed-Keeps none failed = search keeps_rules
    parsed-Keeps (some e) failed = timely-Keeps e _ (failed e refl)

    hook-Keeps :
        ((e : RazorpayEvent) → d.parsed ≡ some e → e.event ≡ failed_event)
        → Keeps P (receive_razorpay_webhook env max_age d)
    unfolding receive_razorpay_webhook
    hook-Keeps failed =
        let rest = parsed_event env max_age d d.parsed in
        let unsigned = pure (hook_refused razorpay_signature_invalid 400) in
        Keeps-atomically _ (
          Keeps-if (exceeds d.declared || ltb max_webhook_body d.body_length)
            (pure (hook_refused razorpay_body_too_large 413))
            (if not d.is_signed then unsigned else rest) (Keeps-pure _)
            (Keeps-if (not d.is_signed) unsigned rest (Keeps-pure _)
              (parsed-Keeps d.parsed failed)))

Untouched-audit : (s : Db) (e : AuditEvent) (t : Db) → Untouched s t → Untouched s (add_audit e t)
Untouched-audit s e t h = record {
  payments = h.payments;
  payment_requests = h.payment_requests;
  reservations = h.reservations;
  delegations = h.delegations;
  delegation_spends = h.delegation_spends;
}

Untouched-events :
    (s : Db) (f : Db → List ProviderEvent) (t : Db)
    → Untouched s t
    → Untouched s (record t { provider_events = f t })
Untouched-events s f t h = record {
  payments = h.payments;
  payment_requests = h.payment_requests;
  reservations = h.reservations;
  delegations = h.delegations;
  delegation_spends = h.delegation_spends;
}

-- A delivery that reports a failed attempt, however often and however it is answered, moves no
-- payment and gives back no budget: payments, requests, reservations and delegations are as they
-- were.
pub failed_attempt_moves_nothing :
    (env : Env) (max_age : Setting) (d : Delivery) (s : Db)
    → ((e : RazorpayEvent) → d.parsed ≡ some e → e.event ≡ failed_event)
    → Untouched s (receive_razorpay_webhook env max_age d s).1
failed_attempt_moves_nothing env max_age d s failed =
    (hook-Keeps (Untouched s) (Untouched-audit s) (Untouched-events s) env max_age d failed).at s
      (Untouched-refl s)
