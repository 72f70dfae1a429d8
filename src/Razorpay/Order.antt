-- ===== src/Razorpay/Order.antt =====
-- `_create_razorpay_order`, `_order_response`, `_reconcile_intent` and `create_order` of
-- api/routes/razorpay.py. The intent is committed before the provider is called, so the route is
-- three transactions around one call of the provider.
use trust_gate_merchant_copi.Base.{
  ℕ, Bool, ◌&&◌, ◌||◌, Option, none, some, List, [], ◌∷◌, ◌==◌, is_some, same_id, ℤ, pos, ltb_ℤ,
  find, update_where,
}
use trust_gate_merchant_copi.Models.{
  Uuid, Text, Time, authority_unavailable, authority_error, http_error, database_error,
  check_violation, unique_violation, razorpay_network_error, razorpay_order_rejected,
  razorpay_order_invalid, razorpay_order_not_confirmed, razorpay_duplicate_orders, checkout_refused,
  ProviderState, pending, confirmed, needs_review, RazorpayOrder, PaymentRequest, CheckoutAuthority,
  AuditEvent, EventKind, razorpay_order_intent_recorded, razorpay_order_created,
  razorpay_order_creation_failed, razorpay_order_reconciled, razorpay_order_needs_review, Payload,
  named, recovered, Db, is_request,
}
use trust_gate_merchant_copi.Session.{
  Result, ok, err, Action, pure, raise, gets, modify, raise_if, or_raise, atomically, add_audit,
  ◌>>=◌, ◌>>◌,
}
use trust_gate_merchant_copi.Chain.Rows.{Env}
use trust_gate_merchant_copi.Checkout.{PurchaseFacts, consume_checkout_authority}
use trust_gate_merchant_copi.Razorpay.{PageAnswer, find_orders_by_receipt}

-- What the POST of an order comes to.
pub data CreateAnswer : Type 0 where
  post_failed status_error no_order_id : CreateAnswer
  created_order : Text → CreateAnswer

-- `_create_razorpay_order`
unfoldable pub create_razorpay_order : CreateAnswer → Result Text
create_razorpay_order post_failed = err (http_error razorpay_network_error)
create_razorpay_order status_error = err (http_error razorpay_order_rejected)
create_razorpay_order no_order_id = err (http_error razorpay_order_invalid)
create_razorpay_order (created_order i) = ok i

-- `RazorpayOrderResponse`, without the public key
pub record RazorpayOrderResponse : Type 0 where
  pub checkout_authority_id : Uuid
  pub razorpay_order_id : Text
  pub amount_minor : ℤ
  pub currency : Text

unfoldable pub response_if :
    ProviderState → Option Text → RazorpayOrder → Action RazorpayOrderResponse
response_if confirmed (some i) o = pure (record {
  checkout_authority_id = o.checkout_authority_id;
  razorpay_order_id = i;
  amount_minor = o.amount_minor;
  currency = o.currency;
})
response_if confirmed none o = raise (http_error razorpay_order_not_confirmed)
response_if pending i o = raise (http_error razorpay_order_not_confirmed)
response_if needs_review i o = raise (http_error razorpay_order_not_confirmed)

-- `_order_response`
abbrev pub order_response : RazorpayOrder → Action RazorpayOrderResponse
order_response o = response_if o.provider_state o.razorpay_order_id o

abbrev pub is_order_of : Uuid → Uuid → RazorpayOrder → Bool
is_order_of tenant authority o = o.tenant_id == tenant && o.checkout_authority_id == authority

abbrev pub has_provider_id : Text → RazorpayOrder → Bool
has_provider_id i o = same_id o.razorpay_order_id (some i)

abbrev pub order_event : RazorpayOrder → Uuid → EventKind → Payload → AuditEvent
order_event o correlation kind payload = record {
  tenant_id = o.tenant_id;
  payment_request_id = none;
  payment_id = some o.payment_id;
  checkout_authority_id = some o.checkout_authority_id;
  provider_order_id = some o.id;
  delegation_id = none;
  correlation_id = correlation;
  event_kind = kind;
  payload = payload;
}

abbrev pub confirm_with : Text → RazorpayOrder → RazorpayOrder
confirm_with i o = record o { razorpay_order_id = some i; provider_state = confirmed }

abbrev pub reconcile_with : Time → Text → RazorpayOrder → RazorpayOrder
reconcile_with now i o = record o {
  razorpay_order_id = some i;
  provider_state = confirmed;
  reconciled_at = some now;
}

abbrev pub mark_for_review : Time → RazorpayOrder → RazorpayOrder
mark_for_review now o = record o { provider_state = needs_review; reconciled_at = some now }

abbrev pub update_orders : (RazorpayOrder → RazorpayOrder) → RazorpayOrder → Db → Db
update_orders f o s = record s {
  razorpay_orders =
      update_where (is_order_of o.tenant_id o.checkout_authority_id) f s.razorpay_orders;
}

-- The identifier is written if no row has it (`uq_razorpay_order_provider_id`).
unfoldable pub confirm :
    (Text → RazorpayOrder → RazorpayOrder)
    → Text
    → RazorpayOrder
    → Uuid
    → EventKind
    → Payload
    → Action RazorpayOrderResponse
confirm write i o correlation kind payload = do
  taken ← gets (λ s. is_some (find (has_provider_id i) s.razorpay_orders))
  raise_if taken (database_error unique_violation)
  modify (update_orders (write i) o)
  modify (add_audit (order_event o correlation kind payload))
  order_response (write i o)

-- What `_reconcile_intent` does with the matches: the order, or nothing when none exists.
unfoldable pub reconcile_matches :
    Env → RazorpayOrder → List Text → Action (Option RazorpayOrderResponse)
reconcile_matches env o [] = pure none
reconcile_matches env o (i ∷ []) = do
  reply ←
      confirm (reconcile_with env.now) i o env.new_correlation razorpay_order_reconciled
        (named (o.receipt ∷ i ∷ []))
  pure (some reply)
reconcile_matches env o (i ∷ j ∷ rest) = do
  modify (update_orders (mark_for_review env.now) o)
  modify (
      add_audit (
        order_event o env.new_correlation razorpay_order_needs_review
          (named (o.receipt ∷ i ∷ j ∷ rest))))
  raise (http_error razorpay_duplicate_orders)

-- A value or an exception of the provider's client.
unfoldable pub from_provider : {A : Type 0} → Result A → Action A
from_provider (ok a) = pure a
from_provider (err e) = raise e

-- What is left to do when the route comes to the provider's POST: nothing, the order of an intent
-- that an earlier call left, or the order of the intent that this call committed.
pub data Plan : Type 0 where
  answered : RazorpayOrderResponse → Plan
  repost : RazorpayOrder → Plan
  first_post : RazorpayOrder → Plan

abbrev pub after_search : RazorpayOrder → Option RazorpayOrderResponse → Plan
after_search o (some reply) = answered reply
after_search o none = repost o

-- An authority that has an order, or the intent of one.
unfoldable pub retry_plan : Env → (ℕ → PageAnswer) → RazorpayOrder → ProviderState → Action Plan
retry_plan env page o confirmed = do reply ← order_response o; pure (answered reply)
retry_plan env page o needs_review = raise (http_error razorpay_duplicate_orders)
retry_plan env page o pending = do
  matches ← from_provider (find_orders_by_receipt page o.receipt)
  found ← reconcile_matches env o matches
  pure (after_search o found)

-- `except CheckoutAuthorityUnavailableError as exc`
abbrev pub as_conflict : {A : Type 0} → Result A → Result A
as_conflict (err (authority_error r)) = err (http_error (checkout_refused r))
as_conflict r = r

abbrev pub intent_row : Env → CheckoutAuthority → PaymentRequest → RazorpayOrder
intent_row env authority request = record {
  id = env.new_id;
  tenant_id = authority.tenant_id;
  checkout_authority_id = authority.id;
  payment_id = authority.payment_id;
  razorpay_order_id = none;
  provider_state = pending;
  reconciled_at = none;
  receipt = authority.id;
  amount_minor = request.amount_minor;
  currency = request.currency;
}

abbrev pub has_order_id : Uuid → Uuid → RazorpayOrder → Bool
has_order_id tenant i o = o.tenant_id == tenant && o.id == i

-- `session.add(intent)`, with the table's CHECK and its keys.
unfoldable pub insert_intent : RazorpayOrder → Action (Unit {0})
insert_intent o = do
  raise_if (ltb_ℤ o.amount_minor (pos 0)) (database_error check_violation)
  taken ← gets (λ s. is_some (find (has_order_id o.tenant_id o.id) s.razorpay_orders))
  rival ←
      gets (λ s. is_some (find (is_order_of o.tenant_id o.checkout_authority_id) s.razorpay_orders))
  raise_if (taken || rival) (database_error unique_violation)
  modify (λ s. record s { razorpay_orders = o ∷ s.razorpay_orders })

module _ (digest : PurchaseFacts → Text) where
  unfoldable pub consume_for_order : Env → Uuid → Uuid → Action CheckoutAuthority
  consume_for_order env tenant i s =
      let (r, s') = consume_checkout_authority digest env tenant i env.new_correlation s in
      (as_conflict r, s')

  -- Up to the first commit: the authority is consumed, and the intent recorded.
  unfoldable pub record_intent : Env → Uuid → Uuid → Action RazorpayOrder
  record_intent env tenant i = atomically (do
    authority ← consume_for_order env tenant i
    found ← gets (λ s. find (is_request tenant authority.payment_request_id) s.payment_requests)
    request ← or_raise found (http_error (checkout_refused authority_unavailable))
    let o = intent_row env authority request
    insert_intent o
    modify (
        add_audit (
          order_event o env.new_correlation razorpay_order_intent_recorded
            (named (o.checkout_authority_id ∷ o.receipt ∷ []))))
    pure o)

  unfoldable pub plan_for :
      Env → (ℕ → PageAnswer) → Uuid → Uuid → Option RazorpayOrder → Action Plan
  plan_for env page tenant i (some existing) =
      atomically (retry_plan env page existing existing.provider_state)
  plan_for env page tenant i none = do o ← record_intent env tenant i; pure (first_post o)

  -- `create_order` up to the POST. A call that comes to it on an old intent has written nothing, so
  -- that its transaction may be cut in two here.
  unfoldable pub plan_order : Env → (ℕ → PageAnswer) → Uuid → Uuid → Action Plan
  plan_order env page tenant i = do
    existing ← gets (λ s. find (is_order_of tenant i) s.razorpay_orders)
    plan_for env page tenant i existing

-- `create_order` from the POST on. A failure for a new intent is recorded and committed before it
-- is raised.
unfoldable pub finish_order : Env → Plan → Result Text → Action RazorpayOrderResponse
finish_order env (answered reply) r = pure reply
finish_order env (repost o) r = atomically (do
  i ← from_provider r
  confirm confirm_with i o env.new_correlation razorpay_order_created
      (recovered (o.checkout_authority_id ∷ i ∷ [])))
finish_order env (first_post o) (ok i) = atomically (
    confirm confirm_with i o env.new_correlation razorpay_order_created
      (named (o.checkout_authority_id ∷ i ∷ [])))
finish_order env (first_post o) (err e) = do
  modify (
      add_audit (
        order_event o env.new_correlation razorpay_order_creation_failed
          (named (o.checkout_authority_id ∷ []))))
  raise e

-- `create_order`, with the provider's pages and its answer to a creation.
unfoldable pub create_order :
    (PurchaseFacts → Text)
    → Env
    → (ℕ → PageAnswer)
    → CreateAnswer
    → Uuid
    → Uuid
    → Action RazorpayOrderResponse
create_order digest env page answer tenant i = do
  plan ← plan_order digest env page tenant i
  finish_order env plan (create_razorpay_order answer)
