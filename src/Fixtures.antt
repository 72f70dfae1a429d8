-- ===== src/Fixtures.antt =====
-- Small rows and databases that the tests of several modules share.
use trust_gate_merchant_copi.Base.{ℕ, true, none, some, [], ◌∷◌, pos}
use trust_gate_merchant_copi.Models.{
  SpendingPolicy, Bounds, PaymentRequest, Payment, Approval, State, Db,
}
use trust_gate_merchant_copi.Chain.Rows.{Env}

abbrev pub empty_db : Db
empty_db = record {
  tenants = [];
  merchants = [];
  catalog_items = [];
  policies = [];
  policy_merchants = [];
  delegations = [];
  delegation_spends = [];
  payment_requests = [];
  reservations = [];
  approvals = [];
  decisions = [];
  payments = [];
  authorities = [];
  razorpay_orders = [];
  provider_events = [];
  paytm_orders = [];
  baskets = [];
  basket_lines = [];
  audit_events = [];
}

-- 500 for one payment, 1000 for one day, approval above 200, until 100.
abbrev pub small_policy : SpendingPolicy
small_policy = record {
  id = 11;
  tenant_id = 1;
  version = 3;
  max_amount_minor = pos 500;
  currency = 356;
  max_daily_spend_minor = pos 1000;
  expiry = 100;
  approval_required_above_minor = some (pos 200);
}

abbrev pub policy_db : Db
policy_db = record empty_db {
  tenants = 1 ∷ [];
  merchants = record { id = 21; tenant_id = 1; name = 53; is_active = true } ∷ [];
  policies = small_policy ∷ [];
  policy_merchants = record { tenant_id = 1; policy_id = 11; merchant_id = 21 } ∷ [];
}

-- A call at time 10 that creates the row `i`.
abbrev pub env_of : ℕ → Env
env_of i = record { now = 10; db_now = 10; new_id = i; new_correlation = 900 }

-- A mandate of `budget`, up to `budget` for one payment, for the items 71 and 72.
abbrev pub bounds_of : ℕ → Bounds
bounds_of budget = record {
  budget_minor = pos budget;
  max_amount_minor = pos budget;
  allowed_skus = 71 ∷ 72 ∷ [];
  purpose = 5;
  expires_at = 90;
}

-- The actor 31 asks to pay 300 for the order 62.
abbrev pub small_request : PaymentRequest
small_request = record {
  id = 61;
  tenant_id = 1;
  actor_id = 31;
  merchant_id = 21;
  snapshot = none;
  source = 63;
  delegation_id = none;
  request_revision = 1;
  amount_minor = pos 300;
  currency = 356;
  order_ref = 62;
  idempotency_key = 64;
  created_at = 10;
}

abbrev pub payment_in : State → Payment
payment_in state = record {
  id = 81;
  tenant_id = 1;
  payment_request_id = 61;
  state = state;
  authorized_amount_minor = none;
  captured_amount_minor = pos 0;
  refunded_amount_minor = pos 0;
}

-- The approval 91 of the request, until 60.
abbrev pub small_approval : Approval
small_approval = record {
  id = 91;
  tenant_id = 1;
  payment_request_id = 61;
  policy_version = 3;
  granted_by = 32;
  expires_at = 60;
  consumed_at = none;
}

-- The request with its payment, whose 300 are reserved.
abbrev pub payment_db : State → Db
payment_db state = record policy_db {
  payment_requests = small_request ∷ [];
  payments = payment_in state ∷ [];
  reservations =
      record { tenant_id = 1; actor_id = 31; spend_date = 0; reserved_amount_minor = pos 300 } ∷ [];
  approvals = small_approval ∷ [];
}
