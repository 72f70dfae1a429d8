-- ===== src/Program/Blind.antt =====
-- A property that does not see the tables which an operation writes is kept by it: for the requests,
-- the approvals, the webhooks and the checkout authorities.
use trust_gate_merchant_copi.Base.{Option, none, some, List, ◌∷◌, update_where}
use trust_gate_merchant_copi.Models.{
  Uuid, Text, Time, Decision, State, Reason, Error, Delegation, DelegationSpend,
  DailySpendReservation, PaymentRequest, Approval, AuthorizationDecision, Payment, ProviderEvent,
  AuditEvent, Merchant, Db,
}
use trust_gate_merchant_copi.Session.{Result, ok, err, modify, add_audit}
use trust_gate_merchant_copi.Session.Keeps.{Keeps, Keeps-modify, keeps_rules}
use trust_gate_merchant_copi.Policy.{PolicyDecision}
use trust_gate_merchant_copi.Chain.Rows.{Env}
use trust_gate_merchant_copi.Machine.Transition.{transition}
use trust_gate_merchant_copi.Machine.Untouched.{transition-Keeps}
use trust_gate_merchant_copi.Requests.{PaymentRequestCreate, CatalogPurchaseContext, Fresh}
use trust_gate_merchant_copi.Requests.Budgets.{claim_if_permitted}
use trust_gate_merchant_copi.Requests.Claiming.{BlindToBudgets, claim-Keeps}
use trust_gate_merchant_copi.Requests.Create.{
  record_request, record_payment, record_decision, create, create_or_replay, request_for_merchant,
  create_payment_request_for_context,
}
use trust_gate_merchant_copi.Requests.Replay.{replay-Keeps}
use trust_gate_merchant_copi.Approve.{policy_of, approve, grant_approval}
use trust_gate_merchant_copi.Webhook.{
  WebhookEvent, is_event, process_at, reject, record_event, caught_detail, reject_caught,
  settle_event, try_event, event_on_payment, event_for, receive_provider_event,
}

-- `P` does not see these tables, and is kept by a new event of the provider and by its processing.
pub record Blind (P : Db → Type 0) : Type 0 where
  pub audits : (f : Db → List AuditEvent) (s : Db) → P s → P (record s { audit_events = f s })
  pub delegations : (f : Db → List Delegation) (s : Db) → P s → P (record s { delegations = f s })
  pub spends :
      (f : Db → List DelegationSpend) (s : Db) → P s → P (record s { delegation_spends = f s })
  pub reservations :
      (f : Db → List DailySpendReservation) (s : Db) → P s → P (record s { reservations = f s })
  pub payments : (f : Db → List Payment) (s : Db) → P s → P (record s { payments = f s })
  pub requests :
      (f : Db → List PaymentRequest) (s : Db) → P s → P (record s { payment_requests = f s })
  pub decisions :
      (f : Db → List AuthorizationDecision) (s : Db) → P s → P (record s { decisions = f s })
  pub approvals : (f : Db → List Approval) (s : Db) → P s → P (record s { approvals = f s })
  pub new_event :
      (e : ProviderEvent) (s : Db) → P s → P (record s { provider_events = e ∷ s.provider_events })
  pub processed_event :
      (tenant : Uuid) (i : Text) (now : Time) (s : Db)
      → P s
      → P (record s {
        provider_events = update_where (is_event tenant i) (process_at now) s.provider_events;
      })

module _ (P : Db → Type 0) (blind : Blind P) where
  pub add_audit-keeps : (e : AuditEvent) (s : Db) → P s → P (add_audit e s)
  add_audit-keeps e s h = blind.audits (λ x. (add_audit e x).audit_events) s h

  pub audit-Keeps : (e : AuditEvent) → Keeps P (modify (add_audit e))
  audit-Keeps e = Keeps-modify (add_audit e) (add_audit-keeps e)

  audits-Keeps :
      (f : Db → List AuditEvent) → Keeps P (modify (λ s. record s { audit_events = f s }))
  audits-Keeps f = Keeps-modify (λ s. record s { audit_events = f s }) (blind.audits f)

  requests-Keeps :
      (f : Db → List PaymentRequest) → Keeps P (modify (λ s. record s { payment_requests = f s }))
  requests-Keeps f = Keeps-modify (λ s. record s { payment_requests = f s }) (blind.requests f)

  processed-Keeps :
      (tenant : Uuid) (i : Text) (now : Time)
      → Keeps P (
          modify (λ s. record s {
            provider_events = update_where (is_event tenant i) (process_at now) s.provider_events;
          }))
  processed-Keeps tenant i now =
      Keeps-modify
        (λ s. record s {
          provider_events = update_where (is_event tenant i) (process_at now) s.provider_events;
        })
        (blind.processed_event tenant i now)

  payment_decision-Keeps :
      (p : Payment) (d : AuthorizationDecision)
      → Keeps P (modify (λ s. record s { payments = p ∷ s.payments; decisions = d ∷ s.decisions }))
  payment_decision-Keeps p d =
      Keeps-modify (λ s. record s { payments = p ∷ s.payments; decisions = d ∷ s.decisions })
        (λ s h. blind.decisions (λ t. d ∷ t.decisions) _ (blind.payments (λ t. p ∷ t.payments) s h))

  pub transition-blind :
      (env : Env) (tenant i : Uuid) (to : State) (reason : Reason) (c : Uuid) (o : Option Uuid)
      → Keeps P (transition env tenant i to reason c o)
  transition-blind env tenant i to reason c o =
      transition-Keeps P add_audit-keeps blind.delegations blind.spends blind.reservations
        (λ p f. blind.payments (λ s. update_where p f s.payments)) (λ t j r now. blind.approvals _)
        env tenant i to reason c o

  budgets : BlindToBudgets P
  budgets = record {
    audits = add_audit-keeps;
    delegations = blind.delegations;
    spends = blind.spends;
    reservations = blind.reservations;
  }

  -- Requests
  module _ (fresh : Fresh) (tenant : Uuid) (request : PaymentRequestCreate)
      (context : Option CatalogPurchaseContext) where
    claim-blind :
        (o : Option Delegation) (result : PolicyDecision) (d : Decision)
        → Keeps P (claim_if_permitted fresh tenant request context o result d)
    claim-blind o result d = claim-Keeps P budgets fresh tenant request context o result d

    record_request-blind :
        (row : PaymentRequest) (o : Option Uuid) → Keeps P (record_request fresh tenant row o)
    unfolding record_request
    record_request-blind row o = search (keeps_rules, requests-Keeps, audits-Keeps) depth 12

    record_payment-blind :
        (p : Payment) (d : AuthorizationDecision) → Keeps P (record_payment tenant p d)
    unfolding record_payment
    record_payment-blind p d = search (keeps_rules, payment_decision-Keeps) depth 12

    record_decision-blind :
        (o : Option Uuid) (result : PolicyDecision)
        → Keeps P (record_decision fresh tenant request context o result)
    unfolding record_decision
    record_decision-blind o result =
        search (keeps_rules, record_request-blind, record_payment-blind, transition-blind) depth 14

    create-blind : Keeps P (create fresh tenant request context)
    unfolding create
    create-blind = search (keeps_rules, claim-blind, record_decision-blind) depth 10

    create_or_replay-blind :
        (o : Option PaymentRequest) → Keeps P (create_or_replay fresh tenant request context o)
    unfolding create_or_replay
    create_or_replay-blind none = create-blind
    create_or_replay-blind (some e) = replay-Keeps P add_audit-keeps fresh tenant request context e

    request_for_merchant-blind :
        (o : Option Merchant) → Keeps P (request_for_merchant fresh tenant request context o)
    unfolding request_for_merchant
    request_for_merchant-blind none = search (keeps_rules, audit-Keeps)
    request_for_merchant-blind (some m) = search (keeps_rules, create_or_replay-blind)

    pub request-blind : Keeps P (create_payment_request_for_context fresh tenant request context)
    unfolding create_payment_request_for_context
    request-blind = search (keeps_rules, request_for_merchant-blind) depth 8

  -- Approvals
  grant_rows-Keeps :
      (f : Db → List Approval) (g : Db → List Payment)
      → Keeps P (modify (λ s. record s { approvals = f s; payments = g s }))
  grant_rows-Keeps f g =
      Keeps-modify (λ s. record s { approvals = f s; payments = g s })
        (λ s h. blind.approvals (λ _. f s) _ (blind.payments g s h))

  policy_of-blind :
      (tenant : Uuid) (now : Time) (o : Option AuthorizationDecision)
      → Keeps P (policy_of tenant now o)
  unfolding policy_of
  policy_of-blind tenant now none = search keeps_rules
  policy_of-blind tenant now (some d) = search keeps_rules depth 8

  approve-blind :
      (env : Env) (tenant : Uuid) (r : PaymentRequest) (p : Payment) (a : Approval)
      → Keeps P (approve env tenant r p a)
  unfolding approve
  approve-blind env tenant r p a = search (keeps_rules, grant_rows-Keeps, transition-blind) depth 8

  pub approval-blind :
      (env : Env) (tenant : Uuid) (approver : Text) (i : Uuid)
      → Keeps P (grant_approval env tenant approver i)
  unfolding grant_approval
  approval-blind env tenant approver i =
      search (keeps_rules, policy_of-blind, approve-blind) depth 24

  -- Webhooks
  event_rows-Keeps :
      (e : ProviderEvent) (g : Db → List Payment)
      → Keeps P (modify (λ s. record s { provider_events = e ∷ s.provider_events; payments = g s }))
  event_rows-Keeps e g =
      Keeps-modify (λ s. record s { provider_events = e ∷ s.provider_events; payments = g s })
        (λ s h. blind.new_event e _ (blind.payments g s h))

  reject-blind :
      (env : Env) (e : WebhookEvent) (p : Option Payment) (r : Reason) → Keeps P (reject env e p r)
  unfolding reject
  reject-blind env e p r = search (keeps_rules, audit-Keeps)

  record_event-blind : (env : Env) (e : WebhookEvent) → Keeps P (record_event env e)
  unfolding record_event
  record_event-blind env e = search (keeps_rules, event_rows-Keeps, transition-blind) depth 8

  reject_caught-blind :
      (env : Env) (e : WebhookEvent) (p : Payment) (error : Error) (o : Option Reason)
      → Keeps P (reject_caught env e p error o)
  reject_caught-blind env e p error none = search keeps_rules
  reject_caught-blind env e p error (some r) = reject-blind env e (some p) r

  settle_event-blind :
      (env : Env) (e : WebhookEvent) (p : Payment) (r : Result (Unit {0}))
      → Keeps P (settle_event env e p r)
  unfolding settle_event
  settle_event-blind env e p (ok u) = search (keeps_rules, processed-Keeps) depth 8
  settle_event-blind env e p (err error) = reject_caught-blind env e p error (caught_detail error)

  try_event-blind : (env : Env) (e : WebhookEvent) (p : Payment) → Keeps P (try_event env e p)
  unfolding try_event
  try_event-blind env e p = record {
    at = λ s h.
        (settle_event-blind env e p (record_event env e s).0).at (record_event env e s).1
          ((record_event-blind env e).at s h);
  }

  event_for-blind :
      (env : Env) (e : WebhookEvent) (o : Option Uuid) (p : Option Payment)
      → Keeps P (event_for env e o p)
  unfolding event_for event_on_payment
  event_for-blind env e none p = search keeps_rules
  event_for-blind env e (some i) none = reject-blind env e none _
  event_for-blind env e (some i) (some p) =
      search (keeps_rules, reject-blind, try_event-blind) depth 10

  pub webhook-blind : (env : Env) (e : WebhookEvent) → Keeps P (receive_provider_event env e)
  unfolding receive_provider_event
  webhook-blind env e = search (keeps_rules, event_for-blind) depth 8
