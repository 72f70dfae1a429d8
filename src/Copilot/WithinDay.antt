-- ===== src/Copilot/WithinDay.antt =====
-- A basket (`create_basket` of api/routes/merchant.py) and the daily limit of the store: whatever the
-- plan proposes, the assistant's day stays within the policy.
use trust_gate_merchant_copi.Base.{
  ◌≡◌, refl, sym, ap, ◌∙◌, subst, inl, inr, ℕ, not, ◌&&◌, Option, none, some, List, pos, ◌≤ℤ◌, find,
}
use trust_gate_merchant_copi.Models.{
  Uuid, Text, date, PlannerMode, SpendingPolicy, Merchant, PaymentRequest, Basket, AuditEvent, Db,
  is_policy_version,
}
use trust_gate_merchant_copi.Session.{ok, modify, add_audit, ◌>>=◌}
use trust_gate_merchant_copi.Session.Keeps.{
  Keeps, Keeps-modify, Keeps-bind, Keeps-gets, Keeps-raise_if, Keeps-atomically,
  Keeps-atomically_ok,
}
use trust_gate_merchant_copi.Session.Returns.{gets-ok, modify-ok, pure-last, atomically-ok}
use trust_gate_merchant_copi.Policy.{newest_policy, daily_spend}
use trust_gate_merchant_copi.Policy.Reservation.{daily-reservations}
use trust_gate_merchant_copi.Requests.{
  PaymentRequestCreate, CatalogPurchaseContext, Fresh, Reply, has_key,
}
use trust_gate_merchant_copi.Requests.Create.{
  is_merchant, request_for_merchant, create_payment_request_for_context,
}
use trust_gate_merchant_copi.Requests.Replay.{replay_changes_nothing}
use trust_gate_merchant_copi.Requests.Outcome.{HasOneNewest, RequestOutcome, request_outcome}
use trust_gate_merchant_copi.Program.Blind.{Blind, request-blind}
use trust_gate_merchant_copi.Catalog.{
  CatalogPaymentRequestCreate, catalog_context, derived_request,
  create_catalog_payment_request_for_source,
}
use trust_gate_merchant_copi.Copilot.Kept.{catalog-Keeps, audit_if-Keeps, add_lines-Keeps}
use trust_gate_merchant_copi.Copilot.{
  RawLine, PlanResult, LineFresh, is_live, insert_basket, purchase_of, add_lines, fill_basket,
  create_basket,
}

-- The actor's day holds at least zero and at most the daily limit of the tenant's newest policy,
-- which is `rules` and has one row.
pub record WithinDay (tenant : Uuid) (actor : Text) (day : ℕ) (rules : SpendingPolicy) (s : Db)
    : Type 0 where
  pub one_row : HasOneNewest tenant s
  pub newest : newest_policy tenant s.policies ≡ some rules
  pub nonnegative : pos 0 ≤ℤ daily_spend tenant actor day s
  pub within : daily_spend tenant actor day s ≤ℤ rules.max_daily_spend_minor

policies-Blind : (s : Db) → Blind (λ t. t.policies ≡ s.policies)
policies-Blind s = record {
  audits = λ f t h. h;
  delegations = λ f t h. h;
  spends = λ f t h. h;
  reservations = λ f t h. h;
  payments = λ f t h. h;
  requests = λ f t h. h;
  decisions = λ f t h. h;
  approvals = λ f t h. h;
  new_event = λ e t h. h;
  processed_event = λ u j now t h. h;
}

module _ (tenant : Uuid) (actor : Text) (day : ℕ) (rules : SpendingPolicy) where
  -- The same policies, and a day that is still within.
  moved-WithinDay :
      (s t : Db)
      → t.policies ≡ s.policies
      → WithinDay tenant actor day rules s
      → pos 0 ≤ℤ daily_spend tenant actor day t
      → daily_spend tenant actor day t ≤ℤ rules.max_daily_spend_minor
      → WithinDay tenant actor day rules t
  moved-WithinDay s t same h low high = record {
    one_row =
        subst
          (λ ps.
            (p : SpendingPolicy)
            → newest_policy tenant ps ≡ some p
            → find (is_policy_version tenant p.version) ps ≡ some p)
          (sym same) h.one_row;
    newest = ap (newest_policy tenant) same ∙ h.newest;
    nonnegative = low;
    within = high;
  }

  same-WithinDay :
      (s t : Db)
      → t.policies ≡ s.policies
      → t.reservations ≡ s.reservations
      → WithinDay tenant actor day rules s
      → WithinDay tenant actor day rules t
  same-WithinDay s t policies reservations h =
      let same = daily-reservations tenant actor day s t reservations in
      moved-WithinDay s t policies h (subst (λ x. pos 0 ≤ℤ x) (sym same) h.nonnegative)
        (subst (λ x. x ≤ℤ rules.max_daily_spend_minor) (sym same) h.within)

  -- A write to other tables.
  elsewhere-Keeps :
      (f : Db → Db)
      → ((s : Db) → (f s).policies ≡ s.policies)
      → ((s : Db) → (f s).reservations ≡ s.reservations)
      → Keeps (WithinDay tenant actor day rules) (modify f)
  elsewhere-Keeps f policies reservations =
      Keeps-modify f (λ s h. same-WithinDay s (f s) (policies s) (reservations s) h)

  audit-Keeps : (e : AuditEvent) → Keeps (WithinDay tenant actor day rules) (modify (add_audit e))
  audit-Keeps e = elsewhere-Keeps (add_audit e) (λ s. refl) (λ s. refl)

-- One payment request of the actor on the day.
module _ (fresh : Fresh) (tenant : Uuid) (request : PaymentRequestCreate)
    (context : Option CatalogPurchaseContext) (rules : SpendingPolicy) where
  abbrev Within : Db → Type 0
  Within = WithinDay tenant request.actor_id (date fresh.env.now) rules

  outcome-Within :
      (s : Db) (reply : Reply) (t : Db)
      → t.policies ≡ s.policies
      → Within s
      → RequestOutcome fresh tenant request context s reply t
      → Within t
  outcome-Within s reply t policies h (inl (denied, same)) =
      same-WithinDay tenant request.actor_id (date fresh.env.now) rules s t policies
        same.reservations h
  outcome-Within s reply t policies h (inr (d, replied, not_denied, reserved)) =
      moved-WithinDay tenant request.actor_id (date fresh.env.now) rules s t policies h
        reserved.nonnegative
        (subst
          (λ (p : SpendingPolicy).
            daily_spend tenant request.actor_id (date fresh.env.now) t ≤ℤ p.max_daily_spend_minor)
          {x = reserved.rules} {y = rules} (cc (sym reserved.newest ∙ h.newest))
          reserved.within_day)

  returned-Within :
      (m : Option Merchant) (existing : Option PaymentRequest) (s : Db) (reply : Reply) (t : Db)
      → find (is_merchant tenant request.merchant_id) s.merchants ≡ m
      → find (has_key tenant request.idempotency_key) s.payment_requests ≡ existing
      → t.policies ≡ s.policies
      → Within s
      → create_payment_request_for_context fresh tenant request context s ≡ (ok reply, t)
      → Within t
  unfolding create_payment_request_for_context request_for_merchant
  returned-Within none existing s reply t known used policies h e =
      let e₁ = gets-ok _ _ s (atomically-ok _ s e) in
      let e₂ =
        subst (λ o. request_for_merchant fresh tenant request context o s ≡ (ok reply, t)) known
          e₁ in
      same-WithinDay tenant request.actor_id (date fresh.env.now) rules s t policies
        (ap (λ (x : Db). x.reservations) (pure-last _ _ (modify-ok _ _ s e₂)).1) h
  returned-Within (some m) (some old) s reply t known used policies h e =
      let kept = replay_changes_nothing fresh tenant request context s old used in
      same-WithinDay tenant request.actor_id (date fresh.env.now) rules s t policies
        (subst (λ (x : Db). x.reservations ≡ s.reservations) (λ i. (e i).1)
          kept.untouched.reservations)
        h
  returned-Within (some m) none s reply t known used policies h e =
      outcome-Within s reply t policies h (
        request_outcome fresh tenant request context s m reply t h.one_row h.nonnegative known used
          e)

  request-Keeps : Keeps Within (create_payment_request_for_context fresh tenant request context)
  unfolding create_payment_request_for_context
  request-Keeps = Keeps-atomically_ok _ (λ s reply t h e.
      returned-Within _ _ s reply t refl refl
        (subst (λ (x : Db). x.policies ≡ s.policies) (λ i. (e i).1)
          ((request-blind (λ x. x.policies ≡ s.policies) (policies-Blind s) fresh tenant request
              context).at
            s refl))
        h e)

-- A purchase, and the basket.
module _ (tenant : Uuid) (actor source : Text) (day : ℕ) (rules : SpendingPolicy) where
  today-Keeps :
      (fresh : Fresh) (request : CatalogPaymentRequestCreate)
      → date fresh.env.now ≡ day
      → Keeps
          (WithinDay tenant actor day rules)
          (create_catalog_payment_request_for_source fresh tenant request actor source)
  today-Keeps fresh request today =
      catalog-Keeps (WithinDay tenant actor day rules) (audit-Keeps tenant actor day rules) tenant
        fresh request actor source
        (λ item m.
          subst
            (λ d. Keeps (WithinDay tenant actor d rules) (
              create_payment_request_for_context fresh tenant (derived_request request actor item)
                (some (catalog_context request source item m))))
            today
            (request-Keeps fresh tenant (derived_request request actor item)
              (some (catalog_context request source item m)) rules))

  insert_basket-Keeps :
      (n : ℕ) (row : Basket) → Keeps (WithinDay tenant actor day rules) (insert_basket n row)
  unfolding insert_basket
  insert_basket-Keeps n row = Keeps-bind _ _ (Keeps-raise_if _ _) (λ _.
      Keeps-bind _ _ (Keeps-gets _) (λ taken.
        Keeps-bind _ _ (Keeps-raise_if _ _)
          (λ _. elsewhere-Keeps tenant actor day rules _ (λ s. refl) (λ s. refl))))

  module _ (text_length : Text → ℕ) (supply : ℕ → LineFresh)
      (today : (n : ℕ) → date (supply n).fresh.env.now ≡ day) where
    lines-Keeps :
        (basket : Uuid) (names : Text → Text) (position : ℕ) (lines : List RawLine)
        → Keeps
            (WithinDay tenant actor day rules)
            (add_lines text_length actor source tenant basket names position lines supply)
    lines-Keeps basket names position lines =
        add_lines-Keeps (WithinDay tenant actor day rules) (audit-Keeps tenant actor day rules)
          tenant (λ l s h. same-WithinDay tenant actor day rules s _ refl refl h) text_length actor
          source supply
          (λ k raw.
            today-Keeps (supply k).fresh
              (purchase_of text_length actor source raw (supply k).idempotency_key) (today k))
          basket names position lines

    fill_basket-Keeps :
        (goal : Text) (mode : PlannerMode) (plan : PlanResult) (i : Uuid)
        → Keeps
            (WithinDay tenant actor day rules)
            (fill_basket text_length actor source tenant goal mode plan i supply)
    unfolding fill_basket
    fill_basket-Keeps goal mode plan i = Keeps-bind _ _ (insert_basket-Keeps _ _) (λ _.
        Keeps-bind _ _
          (audit_if-Keeps (WithinDay tenant actor day rules) (audit-Keeps tenant actor day rules)
            tenant (is_live mode && not (is_live plan.mode_used)) _)
          (λ _. Keeps-bind _ _ (Keeps-gets _) (λ names. lines-Keeps i names 0 plan.lines)))

    -- Whatever the plan proposes and however the call ends, a basket leaves the assistant's day
    -- within the daily limit of the store's newest policy, if it was within before: however many
    -- lines there are, and whatever they name. (The lines are decided on one day, and the policy has
    -- one row for its newest version.)
    pub basket-WithinDay :
        (goal : Text) (mode : PlannerMode) (plan : PlanResult) (i : Uuid) (s : Db)
        → WithinDay tenant actor day rules s
        → WithinDay tenant actor day rules
            (create_basket text_length actor source (some tenant) goal mode plan i supply s).1
    unfolding create_basket ◌>>=◌
    basket-WithinDay goal mode plan i s h =
        (Keeps-atomically (fill_basket text_length actor source tenant goal mode plan i supply)
            (record { at = λ x k. (fill_basket-Keeps goal mode plan i).at x k })).at
          s h
