-- ===== src/Webhook/Once.antt =====
-- A provider's event is applied once (api/routes/webhooks.py).
use mathlib.Core.Option
use trust_gate_merchant_copi.Base.{
  ◌≡◌, ◌≢◌, refl, sym, ap, ◌∙◌, subst, true, Option, none, some, List, ◌∷◌, is_some, arith,
  Bool-cases, inl, inr, find, update_where, find-update_where,
}
use trust_gate_merchant_copi.Models.{
  Uuid, Text, Time, Reason, Error, Payment, ProviderEvent, AuditEvent, Db,
}
use trust_gate_merchant_copi.Session.{Result, ok, err, pure, raise, add_audit, ◌>>=◌}
use trust_gate_merchant_copi.Session.Keeps.{gets-then, atomically-at}
use trust_gate_merchant_copi.Session.Returns.{gets-ok, modify-ok, pure-last, atomically-ok}
use trust_gate_merchant_copi.Chain.Rows.{Env}
use trust_gate_merchant_copi.Machine.Untouched.{Untouched, Untouched-refl, transition-Keeps}
use trust_gate_merchant_copi.Checkout.{PurchaseFacts}
use trust_gate_merchant_copi.Program.{Call, run_all}
use trust_gate_merchant_copi.Program.Blind.{Blind}
use trust_gate_merchant_copi.Program.Authorities.{run_all-keeps}
use trust_gate_merchant_copi.Webhook.{
  WebhookEvent, WebhookReply, accepted, reject, event_row, record_event, caught_detail, is_event,
  process_at, reject_caught, settle_event, try_event, is_stale, event_on_payment, event_for,
  receive_provider_event,
}

-- The event is recorded.
abbrev pub HasEvent : Uuid → Text → Db → Type 0
HasEvent tenant i s = is_some (find (is_event tenant i) s.provider_events) ≡ true

-- Only the audit trail may differ.
pub record OnlyAudited (s t : Db) : Type 0 where
  pub untouched : Untouched s t
  pub provider_events : t.provider_events ≡ s.provider_events

audit-OnlyAudited :
    (s : Db) (e : AuditEvent) (t : Db) → OnlyAudited s t → OnlyAudited s (add_audit e t)
audit-OnlyAudited s e t h = record {
  untouched = record {
    payments = h.untouched.payments;
    payment_requests = h.untouched.payment_requests;
    reservations = h.untouched.reservations;
    delegations = h.untouched.delegations;
    delegation_spends = h.untouched.delegation_spends;
  };
  provider_events = h.provider_events;
}

reject-refuses :
    (env : Env) (e : WebhookEvent) (p : Option Payment) (r : Reason) (s : Db) {t : Db}
    → reject env e p r s ≡ (ok accepted, t)
    → ⊥
unfolding reject
reject-refuses env e p r s h = cc ((pure-last _ _ (modify-ok _ _ s h)).0)

reject_caught-refuses :
    (env : Env) (e : WebhookEvent) (p : Payment) (error : Error) (o : Option Reason) (s : Db)
    {t : Db}
    → reject_caught env e p error o s ≡ (ok accepted, t)
    → ⊥
unfolding raise
reject_caught-refuses env e p error none s h = cc (ap (λ (x : Result WebhookReply × Db). x.0) h)
reject_caught-refuses env e p error (some r) s h = reject-refuses env e (some p) r s h

first_event :
    (e : WebhookEvent) (rows : List ProviderEvent)
    → is_some (find (is_event e.tenant_id e.provider_event_id) (event_row e ∷ rows)) ≡ true
unfolding find
first_event e rows = ground arith

map_lem :
    {A : Type 0} (f : A → A) (o : Option A) → is_some o ≡ true → is_some (Option.map f o) ≡ true
map_lem f none h = h
map_lem f (some a) h = refl

recorded-HasEvent :
    (env : Env) (e : WebhookEvent) (s : Db) {u : Unit {0}} {t : Db}
    → record_event env e s ≡ (ok u, t)
    → HasEvent e.tenant_id e.provider_event_id t
unfolding record_event
recorded-HasEvent env e s h =
    let Has = HasEvent e.tenant_id e.provider_event_id in
    let h₁ = modify-ok _ _ s (atomically-ok _ s h) in
    subst Has (ap (λ (x : Result (Unit {0}) × Db). x.1) h₁) (
      (transition-Keeps Has (λ a x k. k) (λ f x k. k) (λ f x k. k) (λ f x k. k) (λ p f x k. k)
          (λ t i r n x k. k) env _ _ _ _ _ _).at
        _ (first_event e s.provider_events))

processed_lem :
    (e : WebhookEvent) (now : Time) (rows : List ProviderEvent)
    → is_some (find (is_event e.tenant_id e.provider_event_id) rows) ≡ true
    → is_some (
        find
          (is_event e.tenant_id e.provider_event_id)
          (update_where (is_event e.tenant_id e.provider_event_id) (process_at now) rows))
      ≡ true
processed_lem e now rows h =
    ap is_some (
      find-update_where (is_event e.tenant_id e.provider_event_id)
        (is_event e.tenant_id e.provider_event_id) (process_at now) (λ x. refl) rows)
    ∙ map_lem _ _ h

settle-HasEvent :
    (env : Env) (e : WebhookEvent) (p : Payment) (r : Result (Unit {0})) (s : Db) {t : Db}
    → (r ≡ ok tt → HasEvent e.tenant_id e.provider_event_id s)
    → settle_event env e p r s ≡ (ok accepted, t)
    → HasEvent e.tenant_id e.provider_event_id t
unfolding settle_event
settle-HasEvent env e p (ok u) s has h =
    subst (HasEvent e.tenant_id e.provider_event_id) (sym ((pure-last _ _ (modify-ok _ _ s h)).1))
      (processed_lem e env.now s.provider_events (has refl))
settle-HasEvent env e p (err error) s has h =
    absurd (reject_caught-refuses env e p error (caught_detail error) s h)

try_event-HasEvent :
    (env : Env) (e : WebhookEvent) (p : Payment) (s : Db) {t : Db}
    → try_event env e p s ≡ (ok accepted, t)
    → HasEvent e.tenant_id e.provider_event_id t
unfolding try_event
try_event-HasEvent env e p s h =
    settle-HasEvent env e p (record_event env e s).0 (record_event env e s).1
      (λ returned. recorded-HasEvent env e s (λ j. (returned j, (record_event env e s).1))) h

event_for-HasEvent :
    (env : Env) (e : WebhookEvent) (tenant : Option Uuid) (p : Option Payment) (s : Db) {t : Db}
    → event_for env e tenant p s ≡ (ok accepted, t)
    → HasEvent e.tenant_id e.provider_event_id t
unfolding event_for event_on_payment
event_for-HasEvent env e none p s h = absurd (cc ((pure-last _ s h).0))
event_for-HasEvent env e (some i) none s h = absurd (reject-refuses env e none _ s h)
event_for-HasEvent env e (some i) (some p) s {t = t} h =
    elim (Bool-cases (is_stale env.now e.occurred_at)) [
      | inl stale ↦ absurd (reject-refuses env e (some p) _ s (rw stale at h))
      | inr timely ↦
          let h₁ = gets-ok _ _ s (rw timely at h) in
          elim (Bool-cases
            (is_some (find (is_event e.tenant_id e.provider_event_id) s.provider_events))) [
              | inl known ↦ absurd (reject-refuses env e (some p) _ s (rw known at h₁))
              | inr new ↦ try_event-HasEvent env e p s (rw new at h₁)
            ]
    ]

reject-OnlyAudited :
    (env : Env) (e : WebhookEvent) (p : Option Payment) (r : Reason) (s : Db)
    → OnlyAudited s (reject env e p r s).1
unfolding reject ◌>>=◌
reject-OnlyAudited env e p r s =
    audit-OnlyAudited s _ s (record { untouched = Untouched-refl s; provider_events = refl })

module _ (env : Env) (e : WebhookEvent) (s : Db)
    (known : HasEvent e.tenant_id e.provider_event_id s) where
  known-refuses :
      (tenant : Option Uuid) (p : Option Payment) {t : Db}
      → event_for env e tenant p s ≡ (ok accepted, t)
      → ⊥
  unfolding event_for event_on_payment
  known-refuses none p h = cc ((pure-last _ s h).0)
  known-refuses (some i) none h = reject-refuses env e none _ s h
  known-refuses (some i) (some p) h = elim (Bool-cases (is_stale env.now e.occurred_at)) [
    | inl stale ↦ reject-refuses env e (some p) _ s (rw stale at h)
    | inr timely ↦ reject-refuses env e (some p) _ s (rw known at (gets-ok _ _ s (rw timely at h)))
  ]

  known-OnlyAudited :
      (tenant : Option Uuid) (p : Option Payment) → OnlyAudited s (event_for env e tenant p s).1
  unfolding event_for event_on_payment pure ◌>>=◌
  known-OnlyAudited none p = record { untouched = Untouched-refl s; provider_events = refl }
  known-OnlyAudited (some i) none = reject-OnlyAudited env e none _ s
  known-OnlyAudited (some i) (some p) = elim (Bool-cases (is_stale env.now e.occurred_at)) [
    | inl stale ↦ rw stale (reject-OnlyAudited env e (some p) _ s)
    | inr timely ↦ rw timely (rw known (reject-OnlyAudited env e (some p) _ s))
  ]

-- A recorded event stays recorded: no call removes one.
module _ (tenant : Uuid) (i : Text) where
  new-HasEvent :
      (row : ProviderEvent) (s : Db)
      → HasEvent tenant i s
      → HasEvent tenant i (record s { provider_events = row ∷ s.provider_events })
  unfolding find
  new-HasEvent row s h = ground (arith, h)

  processed-HasEvent :
      (t : Uuid) (j : Text) (now : Time) (s : Db)
      → HasEvent tenant i s
      → HasEvent tenant i (record s {
        provider_events = update_where (is_event t j) (process_at now) s.provider_events;
      })
  processed-HasEvent t j now s h =
      ap is_some (
        find-update_where (is_event t j) (is_event tenant i) (process_at now) (λ x. refl)
          s.provider_events)
      ∙ map_lem _ _ h

  HasEvent-Blind : Blind (HasEvent tenant i)
  HasEvent-Blind = record {
    audits = λ f s h. h;
    delegations = λ f s h. h;
    spends = λ f s h. h;
    reservations = λ f s h. h;
    payments = λ f s h. h;
    requests = λ f s h. h;
    decisions = λ f s h. h;
    approvals = λ f s h. h;
    new_event = new-HasEvent;
    processed_event = processed-HasEvent;
  }

  run_all-HasEvent :
      (digest : PurchaseFacts → Text) (calls : List Call) (s : Db)
      → HasEvent tenant i s
      → HasEvent tenant i (run_all digest calls s)
  run_all-HasEvent digest calls s h =
      run_all-keeps (HasEvent tenant i) HasEvent-Blind (λ t j now x k. k) (λ a x new k. k)
        (record { baskets = λ f x k. k; lines = λ f x k. k; paytm = λ f x k. k }) digest calls s h

-- An event that was accepted is never accepted again: whatever calls of those that `Call` lists
-- follow, other events among them, when it is delivered once more with its identifier and for its
-- tenant, whatever else it claims, it is not accepted, and changes no payment, no request, no budget
-- and no event.
pub event_applied_once :
    (digest : PurchaseFacts → Text) (env : Env) (e : WebhookEvent) (s t : Db) (calls : List Call)
    (env' : Env) (e' : WebhookEvent)
    → e'.tenant_id ≡ e.tenant_id
    → e'.provider_event_id ≡ e.provider_event_id
    → receive_provider_event env e s ≡ (ok accepted, t)
    → ((receive_provider_event env' e' (run_all digest calls t)).0 ≢ ok accepted)
      × OnlyAudited
          (run_all digest calls t)
          (receive_provider_event env' e' (run_all digest calls t)).1
unfolding receive_provider_event
event_applied_once digest env e s t calls env' e' same_tenant same_event h =
    let later = run_all digest calls t in
    let first =
      run_all-HasEvent e.tenant_id e.provider_event_id digest calls t
        (event_for-HasEvent env e _ _ s (gets-ok _ _ s (gets-ok _ _ s (atomically-ok _ s h)))) in
    let known : HasEvent e'.tenant_id e'.provider_event_id later =
      subst (λ x. HasEvent x e'.provider_event_id later) (sym same_tenant)
        (subst (λ x. HasEvent e.tenant_id x later) (sym same_event) first) in
    (
      λ again. known-refuses env' e' later known _ _ (
          gets-ok _ _ later (
            gets-ok _ _ later
              (atomically-ok _ later (λ j. (again j, (receive_provider_event env' e' later).1))))),
      atomically-at (OnlyAudited later) _ later
          (record { untouched = Untouched-refl later; provider_events = refl })
          (gets-then (OnlyAudited later) _ _ later
            (gets-then (OnlyAudited later) _ _ later (known-OnlyAudited env' e' later known _ _))),
    )
