-- ===== src/Razorpay/Evidence.antt =====
-- What a delivery of the provider must be before `receive_razorpay_webhook` (api/routes/razorpay.py)
-- acts on it, and what it does to the payment then.
use trust_gate_merchant_copi.Base.{
  ◌≡◌, refl, ap, ◌∙◌, subst, inl, inr, ℕ, ◌≤◌, Bool, true, false, not, ◌||◌, Option, none, some,
  if◌then◌else◌, ltb, ◌==◌, ℤ, pos, ◌-ℤ◌, ◌≤ℤ◌, ltb_ℤ, eq_ℤ, eq_of_parts, arith, Bool-cases, find,
  find-update_where_self,
}
use trust_gate_merchant_copi.Models.{
  Text, EventType, payment_captured, Reason, event, razorpay_body_too_large,
  razorpay_signature_invalid, captured, Error, StateCode, RazorpayOrder, Payment, Db, is_payment,
}
use trust_gate_merchant_copi.Session.{Result, ok, err, Action, pure, raise}
use trust_gate_merchant_copi.Session.Returns.{
  gets-ok, raise_if-ok, modify-ok, pure-last, atomically-ok,
}
use trust_gate_merchant_copi.Chain.Rows.{Env}
use trust_gate_merchant_copi.Machine.Transition.{set_state}
use trust_gate_merchant_copi.Machine.Moves.{transition-moves}
use trust_gate_merchant_copi.Razorpay.Order.{has_provider_id}
use trust_gate_merchant_copi.Razorpay.Hook.{
  max_webhook_body, future_tolerance, Setting, webhook_max_age_seconds, micros,
  webhook_timestamp_rejection, PaymentEntity, RazorpayEvent, Delivery, HookReply, hook_accepted,
  hook_refused, settle_error, machine_code, handled, hook_target, webhook_event_identity,
  capture_amount, apply_event, record_hook, settle_hook, is_integrity_error, try_hook,
  hook_on_payment, hook_on_order, hook_event, exceeds, timely_event, parsed_event,
  receive_razorpay_webhook,
}

-- The event's time is in the window.
pub record IsTimely (max_age : Setting) (created_at now : ℤ) : Type 0 where
  pub not_stale : now -ℤ micros created_at ≤ℤ micros (webhook_max_age_seconds max_age)
  pub not_post_dated : pos 0 -ℤ micros future_tolerance ≤ℤ now -ℤ micros created_at

-- A signed, well-formed and timely report on an order of ours, with its amount and its currency.
pub record Trusted (max_age : Setting) (d : Delivery) (s : Db) : Type 0 where
  pub signed : d.is_signed ≡ true
  pub small : d.body_length ≤ max_webhook_body
  pub event : RazorpayEvent
  pub parsed : d.parsed ≡ some event
  pub created_at : ℤ
  pub stamped : event.created_at ≡ some created_at
  pub timely : IsTimely max_age created_at d.unix_now
  pub entity : PaymentEntity
  pub about : event.payment_entity ≡ some entity
  pub kind : EventType
  pub acted_on : handled event.event ≡ some kind
  pub order : RazorpayOrder
  pub found_order : find (has_provider_id entity.order_id) s.razorpay_orders ≡ some order
  pub same_amount : entity.amount ≡ order.amount_minor
  pub same_currency : entity.currency ≡ order.currency
  pub payment : Payment
  pub found_payment : find (is_payment order.tenant_id order.payment_id) s.payments ≡ some payment

not_below : (a b : ℤ) → ltb_ℤ a b ≡ false → b ≤ℤ a
not_below a b h = ground (arith, h)

timely_lem :
    (max_age : Setting) (created_at : Option ℤ) (now : ℤ)
    → webhook_timestamp_rejection max_age created_at now ≡ none
    → (n : ℤ) × (created_at ≡ some n) × IsTimely max_age n now
unfolding webhook_timestamp_rejection
timely_lem max_age none now h = absurd (cc h)
timely_lem max_age (some n) now h =
    let age = now -ℤ micros n in
    let limit = micros (webhook_max_age_seconds max_age) in
    let floor = pos 0 -ℤ micros future_tolerance in
    elim (Bool-cases (ltb_ℤ limit age)) [
      | inl old ↦ absurd (cc (rw old at h))
      | inr young ↦ elim (Bool-cases (ltb_ℤ age floor)) [
        | inl ahead ↦ absurd (cc (rw ahead at (rw young at h)))
        | inr past ↦ (
          n,
          refl,
          record {
            not_stale = not_below limit age young;
            not_post_dated = not_below age floor past;
          },
        )
      ]
    ]

same_money : (a b : ℤ) (c d : Text) → (not (eq_ℤ a b) || not (c == d)) ≡ false → (a ≡ b) × (c ≡ d)
same_money a b c d h = (eq_of_parts a b (ground (arith, h)), ground (arith, h))

-- A test that refuses was passed.
passed :
    (c : Bool) (reason : Reason) (status : ℕ) (m : Action HookReply) (s : Db) {i : Text} {t : Db}
    → (if c then pure (hook_refused reason status) else m) s ≡ (ok (hook_accepted i), t)
    → (c ≡ false) × (m s ≡ (ok (hook_accepted i), t))
passed true reason status m s h = absurd (cc ((pure-last _ s h).0))
passed false reason status m s h = (refl, h)

error-refuses :
    (env : Env) (o : RazorpayOrder) (entity : PaymentEntity) (e : Error) (c : Option StateCode)
    (s : Db) {i : Text} {t : Db}
    → settle_error env o entity e c s ≡ (ok (hook_accepted i), t)
    → ⊥
unfolding settle_error raise
error-refuses env o entity e (some c) s h = cc ((pure-last _ _ (modify-ok _ _ s h)).0)
error-refuses env o entity e none s h =
    let (_, k) = passed (is_integrity_error e) _ _ (raise e) s h in
    cc (ap (λ (x : Result HookReply × Db). x.0) k)

settle-ok :
    (env : Env) (o : RazorpayOrder) (entity : PaymentEntity) (identity : Text)
    (r : Result (Unit {0})) (s : Db) {i : Text} {t : Db}
    → settle_hook env o entity identity r s ≡ (ok (hook_accepted i), t)
    → (r ≡ ok tt) × (t.payments ≡ s.payments)
unfolding settle_hook raise
settle-ok env o entity identity (ok u) s h =
    (refl, ap (λ (x : Db). x.payments) (pure-last _ _ (modify-ok _ _ _ (modify-ok _ _ s h))).1)
settle-ok env o entity identity (err e) s h =
    absurd (error-refuses env o entity e (machine_code e) s h)

-- An accepted capture leaves the payment captured, with the order's amount.
abbrev pub CapturedFor : RazorpayOrder → Payment → Db → Type 0
CapturedFor o p t =
    find (is_payment o.tenant_id o.payment_id) t.payments
    ≡ some (set_state captured (capture_amount o.amount_minor p))

module _ (env : Env) (o : RazorpayOrder) (p : Payment) (entity : PaymentEntity)
    (identity : Text) where
  applied-capture :
      (s : Db) {u : Unit {0}} {t : Db}
      → find (is_payment o.tenant_id o.payment_id) s.payments ≡ some p
      → apply_event env o p entity payment_captured (hook_target payment_captured) s ≡ (ok u, t)
      → CapturedFor o p t
  unfolding apply_event
  applied-capture s {t = t} found h =
      transition-moves env o.tenant_id o.payment_id captured (event payment_captured)
        env.new_correlation none _ t (capture_amount o.amount_minor p)
        (find-update_where_self (is_payment o.tenant_id o.payment_id)
          (capture_amount o.amount_minor) (λ x. refl) s.payments found)
        (modify-ok _ _ s h)

  recorded-capture :
      (s : Db) {u : Unit {0}} {t : Db}
      → find (is_payment o.tenant_id o.payment_id) s.payments ≡ some p
      → record_hook env o p entity payment_captured identity s ≡ (ok u, t)
      → CapturedFor o p t
  unfolding record_hook
  recorded-capture s found h =
      let (_, h₁) = raise_if-ok _ _ _ s (gets-ok _ _ s (atomically-ok _ s h)) in
      applied-capture _ found (modify-ok _ _ s h₁)

  tried-capture :
      (s : Db) {i : Text} {t : Db}
      → find (is_payment o.tenant_id o.payment_id) s.payments ≡ some p
      → try_hook env o p entity payment_captured identity s ≡ (ok (hook_accepted i), t)
      → CapturedFor o p t
  unfolding try_hook
  tried-capture s found h =
      let (r, s₁) = record_hook env o p entity payment_captured identity s in
      let (returned, same) = settle-ok env o entity identity r s₁ h in
      ap (find (is_payment o.tenant_id o.payment_id)) same
      ∙ recorded-capture s found (λ j. (returned j, s₁))

module _ (env : Env) (max_age : Setting) (d : Delivery) (s : Db) (i : Text) (t : Db) where
  -- What is known when the payment is looked up.
  record Seen (e : RazorpayEvent) (n : ℤ) (entity : PaymentEntity) (kind : EventType)
      (o : RazorpayOrder) : Type 0 where
    pub signed : d.is_signed ≡ true
    pub small : d.body_length ≤ max_webhook_body
    pub parsed : d.parsed ≡ some e
    pub stamped : e.created_at ≡ some n
    pub timely : IsTimely max_age n d.unix_now
    pub about : e.payment_entity ≡ some entity
    pub acted_on : handled e.event ≡ some kind
    pub found_order : find (has_provider_id entity.order_id) s.razorpay_orders ≡ some o
    pub same_amount : entity.amount ≡ o.amount_minor
    pub same_currency : entity.currency ≡ o.currency

  -- What is known of an accepted delivery of an event.
  abbrev pub IsEvidence : Type 0
  IsEvidence =
      (trusted : Trusted max_age d s) × (trusted.kind ≡ payment_captured
        → CapturedFor trusted.order trusted.payment t)

  on_payment-IsEvidence :
      (e : RazorpayEvent) (n : ℤ) (entity : PaymentEntity) (kind : EventType) (o : RazorpayOrder)
      (p : Option Payment)
      → Seen e n entity kind o
      → find (is_payment o.tenant_id o.payment_id) s.payments ≡ p
      → hook_on_payment env o entity kind (webhook_event_identity d.header_id kind entity.id) p s
        ≡ (ok (hook_accepted i), t)
      → IsEvidence
  unfolding hook_on_payment
  on_payment-IsEvidence e n entity kind o none seen found h = absurd (cc ((pure-last _ s h).0))
  on_payment-IsEvidence e n entity kind o (some p) seen found h = (
    record {
      signed = seen.signed;
      small = seen.small;
      event = e;
      parsed = seen.parsed;
      created_at = n;
      stamped = seen.stamped;
      timely = seen.timely;
      entity = entity;
      about = seen.about;
      kind = kind;
      acted_on = seen.acted_on;
      order = o;
      found_order = seen.found_order;
      same_amount = seen.same_amount;
      same_currency = seen.same_currency;
      payment = p;
      found_payment = found;
    },
    λ is_captured. tried-capture env o p entity _ s found (
        subst
          (λ k.
            try_hook env o p entity k (webhook_event_identity d.header_id kind entity.id) s
            ≡ (ok (hook_accepted i), t))
          is_captured h),
  )

  on_order-IsEvidence :
      (e : RazorpayEvent) (n : ℤ) (entity : PaymentEntity) (kind : EventType)
      (o : Option RazorpayOrder)
      → ((order : RazorpayOrder)
          → find (has_provider_id entity.order_id) s.razorpay_orders ≡ some order
          → entity.amount ≡ order.amount_minor
          → entity.currency ≡ order.currency
          → Seen e n entity kind order)
      → find (has_provider_id entity.order_id) s.razorpay_orders ≡ o
      → hook_on_order env entity kind (webhook_event_identity d.header_id kind entity.id) o s
        ≡ (ok (hook_accepted i), t)
      → IsEvidence
  unfolding hook_on_order
  on_order-IsEvidence e n entity kind none seen found h = absurd (cc ((pure-last _ s h).0))
  on_order-IsEvidence e n entity kind (some o) seen found h =
      elim (Bool-cases
        (not (eq_ℤ entity.amount o.amount_minor) || not (entity.currency == o.currency))) [
          | inl other ↦ absurd (cc ((pure-last _ _ (modify-ok _ _ s (rw other at h))).0))
          | inr same ↦
              let (amounts, currencies) =
                same_money entity.amount o.amount_minor entity.currency o.currency same in
              on_payment-IsEvidence e n entity kind o _ (seen o found amounts currencies) refl
                (gets-ok _ _ s (rw same at h))
        ]

  event-IsEvidence :
      (e : RazorpayEvent) (n : ℤ) (entity : Option PaymentEntity) (kind : Option EventType)
      → d.is_signed ≡ true
      → d.body_length ≤ max_webhook_body
      → d.parsed ≡ some e
      → e.created_at ≡ some n
      → IsTimely max_age n d.unix_now
      → e.payment_entity ≡ entity
      → handled e.event ≡ kind
      → hook_event env d.header_id entity kind s ≡ (ok (hook_accepted i), t)
      → IsEvidence
  unfolding hook_event
  event-IsEvidence e n none kind signed small parsed at timely about acts h =
      absurd (cc ((pure-last _ s h).0))
  event-IsEvidence e n (some entity) none signed small parsed at timely about acts h =
      absurd (cc ((pure-last _ s h).0))
  event-IsEvidence e n (some entity) (some kind) signed small parsed at timely about acts h =
      on_order-IsEvidence e n entity kind _
        (λ order found amounts currencies. record {
          signed = signed;
          small = small;
          parsed = parsed;
          stamped = at;
          timely = timely;
          about = about;
          acted_on = acts;
          found_order = found;
          same_amount = amounts;
          same_currency = currencies;
        })
        refl (gets-ok _ _ s h)

  timely-IsEvidence :
      (e : RazorpayEvent) (rejection : Option Reason)
      → d.is_signed ≡ true
      → d.body_length ≤ max_webhook_body
      → d.parsed ≡ some e
      → webhook_timestamp_rejection max_age e.created_at d.unix_now ≡ rejection
      → timely_event env d.header_id e rejection s ≡ (ok (hook_accepted i), t)
      → IsEvidence
  unfolding timely_event
  timely-IsEvidence e (some reason) signed small parsed window h = absurd (cc ((pure-last _ s h).0))
  timely-IsEvidence e none signed small parsed window h =
      let (n, at, timely) = timely_lem max_age e.created_at d.unix_now window in
      event-IsEvidence e n _ _ signed small parsed at timely refl refl h

  parsed-IsEvidence :
      (o : Option RazorpayEvent)
      → d.is_signed ≡ true
      → d.body_length ≤ max_webhook_body
      → d.parsed ≡ o
      → parsed_event env max_age d o s ≡ (ok (hook_accepted i), t)
      → IsEvidence
  unfolding parsed_event
  parsed-IsEvidence none signed small parsed h = absurd (cc ((pure-last _ s h).0))
  parsed-IsEvidence (some e) signed small parsed h =
      timely-IsEvidence e _ signed small parsed refl h

  -- A delivery that is accepted was signed, not too large and well formed, its time within the window
  -- on both sides, and it reported on an order of ours with that order's amount and currency, whose
  -- payment exists; and if it reported a capture, the payment is captured now, with exactly the
  -- amount that the order was made for.
  pub hook_accepts :
      receive_razorpay_webhook env max_age d s ≡ (ok (hook_accepted i), t) → IsEvidence
  unfolding receive_razorpay_webhook
  hook_accepts h =
      let rest = parsed_event env max_age d d.parsed in
      let (size, h₁) =
        passed (exceeds d.declared || ltb max_webhook_body d.body_length) razorpay_body_too_large
          413 (if not d.is_signed then pure (hook_refused razorpay_signature_invalid 400) else rest)
          s (atomically-ok _ s h) in
      let (unsigned, h₂) = passed (not d.is_signed) razorpay_signature_invalid 400 rest s h₁ in
      parsed-IsEvidence _ (ground (arith, unsigned)) (ground (arith, size)) refl h₂
