-- ===== src/Paytm.antt =====
-- api/routes/paytm.py: `start_payment`, `confirm_order` and `receive_callback`. What the rail answers is
-- an argument.
pub mod Moves
mod Tests
use trust_gate_merchant_copi.Base.{
  Bool, true, false, ◌&&◌, ◌||◌, Option, none, some, List, [], ◌∷◌, ◌==◌, if◌then◌else◌, is_some, ℤ,
  pos, leb_ℤ, eq_ℤ, find, update_where,
}
use trust_gate_merchant_copi.Models.{
  Uuid, Text, Time, Reason, order_created_at_paytm, confirmed_by_paytm, failed_at_paytm,
  checkout_authority_refused, request_not_found, payment_not_found, paytm_order_not_found, Error,
  database_error, check_violation, unique_violation, http_error, paytm_unavailable, State,
  authorized, provider_pending, captured, failed, state_eq, PaytmStatus, order_created,
  order_pending, order_success, order_failed, order_mismatch, PaymentRequest, Payment,
  CheckoutAuthority, PaytmOrder, AuditEvent, EventKind, paytm_order_created, paytm_amount_mismatch,
  paytm_status_confirmed, paytm_payment_failed, paytm_status_pending, paytm_callback_verified,
  paytm_callback_rejected, Payload, order_amount, reported_amount, named, Db, is_request,
  is_payment,
}
use trust_gate_merchant_copi.Session.{
  Action, pure, raise, gets, modify, raise_if, or_raise, atomically, add_audit, ◌>>=◌, ◌>>◌,
}
use trust_gate_merchant_copi.Chain.Rows.{Env}
use trust_gate_merchant_copi.Machine.Transition.{transition}
use trust_gate_merchant_copi.Checkout.{PurchaseFacts}
use trust_gate_merchant_copi.Checkout.Issue.{
  CheckoutReply, issued, rejection, issue_checkout_authority,
}
use trust_gate_merchant_copi.Razorpay.Order.{consume_for_order}

-- What `open_transaction` comes to: no connection or no token, or the token.
pub data OpenAnswer : Type 0 where
  not_opened : OpenAnswer
  token : Text → OpenAnswer

-- `resultStatus`
pub data TxnResult : Type 0 where
  txn_success txn_failure : TxnResult
  txn_other : Text → TxnResult

-- What `read_status` reports: the result, the text of the amount, what this text comes to in minor
-- units if it is a decimal and a whole number of them, and the transaction's identifier.
pub record StatusBody : Type 0 where
  pub result : TxnResult
  pub reported : Text
  pub reported_minor : Option ℤ
  pub txn_id : Option Text

pub data StatusAnswer : Type 0 where
  unreachable : StatusAnswer
  status_body : StatusBody → StatusAnswer

-- `amount_matches`
abbrev pub amount_matches : Option ℤ → ℤ → Bool
amount_matches none amount = false
amount_matches (some n) amount = eq_ℤ n amount

abbrev pub is_paytm_order : Uuid → Uuid → PaytmOrder → Bool
is_paytm_order tenant i o = o.id == i && o.tenant_id == tenant

abbrev pub has_paytm_id : Text → PaytmOrder → Bool
has_paytm_id i o = o.order_id == i

abbrev pub is_paytm_order_for : Uuid → Uuid → PaytmOrder → Bool
is_paytm_order_for tenant authority o =
    o.tenant_id == tenant && o.checkout_authority_id == authority

abbrev pub is_success : PaytmStatus → Bool
is_success order_success = true
is_success order_created = false
is_success order_pending = false
is_success order_failed = false
is_success order_mismatch = false

-- `_audit`
abbrev pub paytm_event : Uuid → EventKind → Uuid → Payload → AuditEvent
paytm_event tenant kind correlation payload = record {
  tenant_id = tenant;
  payment_request_id = none;
  payment_id = none;
  checkout_authority_id = none;
  provider_order_id = none;
  delegation_id = none;
  correlation_id = correlation;
  event_kind = kind;
  payload = payload;
}

abbrev pub update_paytm : (PaytmOrder → PaytmOrder) → PaytmOrder → Db → Db
update_paytm f o s = record s {
  paytm_orders = update_where (is_paytm_order o.tenant_id o.id) f s.paytm_orders;
}

abbrev pub set_status : PaytmStatus → PaytmOrder → PaytmOrder
set_status status o = record o { status = status }

abbrev pub succeed : Time → Option Text → PaytmOrder → PaytmOrder
succeed now txn o = record o { status = order_success; paytm_txn_id = txn; confirmed_at = some now }

-- `if payment.state == "...": await transition(...)`
unfoldable pub move_if : Env → State → Payment → State → Reason → Action (Unit {0})
move_if env from p to reason =
    if state_eq p.state from
    then transition env p.tenant_id p.id to reason env.new_correlation none
    else pure tt

abbrev pub order_row : Env → Text → CheckoutAuthority → PaymentRequest → PaytmOrder
order_row env order_id authority request = record {
  id = env.new_id;
  tenant_id = authority.tenant_id;
  payment_id = authority.payment_id;
  checkout_authority_id = authority.id;
  order_id = order_id;
  amount_minor = request.amount_minor;
  status = order_created;
  paytm_txn_id = none;
  confirmed_at = none;
}

-- `session.add(order)`, with the table's CHECK and its keys.
unfoldable pub insert_paytm_order : PaytmOrder → Action (Unit {0})
insert_paytm_order o = do
  raise_if (leb_ℤ o.amount_minor (pos 0)) (database_error check_violation)
  taken ← gets (λ s. is_some (find (has_paytm_id o.order_id) s.paytm_orders))
  rival ←
      gets (λ s.
        is_some (find (is_paytm_order_for o.tenant_id o.checkout_authority_id) s.paytm_orders))
  raise_if (taken || rival) (database_error unique_violation)
  modify (λ s. record s { paytm_orders = o ∷ s.paytm_orders })

-- `open_transaction`, a value or an exception.
unfoldable pub open_transaction : OpenAnswer → Action Text
open_transaction not_opened = raise paytm_unavailable
open_transaction (token t) = pure t

unfoldable pub issued_or_raise : CheckoutReply → Action Uuid
issued_or_raise (issued response) = pure response.checkout_authority_id
issued_or_raise (rejection reason status) = raise (http_error checkout_authority_refused)

-- `start_payment`; `issue_env` is the environment of the issue, `env` of what follows.
unfoldable pub start_payment :
    (PurchaseFacts → Text)
    → Env
    → Env
    → Text
    → OpenAnswer
    → Uuid
    → Uuid
    → Action (PaytmOrder × Text)
start_payment digest issue_env env order_id answer tenant request_id = do
  reply ← issue_checkout_authority digest issue_env tenant request_id
  i ← issued_or_raise reply
  authority ← consume_for_order digest env tenant i
  found ← gets (λ s. find (is_request tenant authority.payment_request_id) s.payment_requests)
  request ← or_raise found (http_error request_not_found)
  let o = order_row env order_id authority request
  insert_paytm_order o
  found_payment ← gets (λ s. find (is_payment tenant authority.payment_id) s.payments)
  payment ← or_raise found_payment (http_error payment_not_found)
  move_if env authorized payment provider_pending order_created_at_paytm
  t ← open_transaction answer
  modify (
      add_audit (
        paytm_event tenant paytm_order_created env.new_correlation
          (order_amount o.order_id o.amount_minor)))
  pure (o, t)

-- What `confirm_order` does with the report.
unfoldable pub settle_status :
    Env → Uuid → PaytmOrder → Payment → StatusBody → TxnResult → Action PaytmOrder
settle_status env tenant o p body txn_success =
    if amount_matches body.reported_minor o.amount_minor
    then (do
      modify (update_paytm (succeed env.now body.txn_id) o)
      move_if env provider_pending p captured confirmed_by_paytm
      modify (
          add_audit (
            paytm_event tenant paytm_status_confirmed env.new_correlation
              (named (o.order_id ∷ body.reported ∷ []))))
      pure (succeed env.now body.txn_id o))
    else (do
      modify (update_paytm (set_status order_mismatch) o)
      modify (
          add_audit (
            paytm_event tenant paytm_amount_mismatch env.new_correlation
              (reported_amount o.order_id o.amount_minor body.reported)))
      pure (set_status order_mismatch o))
settle_status env tenant o p body txn_failure = do
  modify (update_paytm (set_status order_failed) o)
  move_if env provider_pending p failed failed_at_paytm
  modify (
      add_audit
        (paytm_event tenant paytm_payment_failed env.new_correlation (named (o.order_id ∷ []))))
  pure (set_status order_failed o)
settle_status env tenant o p body (txn_other result) = do
  modify (update_paytm (set_status order_pending) o)
  modify (
      add_audit (
        paytm_event tenant paytm_status_pending env.new_correlation
          (named (o.order_id ∷ result ∷ []))))
  pure (set_status order_pending o)

-- `read_status`, a value or an exception.
unfoldable pub read_status : StatusAnswer → Action StatusBody
read_status unreachable = raise paytm_unavailable
read_status (status_body body) = pure body

unfoldable pub ask_provider : Env → Uuid → StatusAnswer → PaytmOrder → Action PaytmOrder
ask_provider env tenant answer o = do
  body ← read_status answer
  found ← gets (λ s. find (is_payment tenant o.payment_id) s.payments)
  p ← or_raise found (http_error payment_not_found)
  settle_status env tenant o p body body.result

-- `confirm_order` of the order with the row `i`.
unfoldable pub confirm_order : Env → Uuid → StatusAnswer → Uuid → Action PaytmOrder
confirm_order env tenant answer i = do
  found ← gets (λ s. find (is_paytm_order tenant i) s.paytm_orders)
  o ← or_raise found (http_error paytm_order_not_found)
  if is_success o.status then pure o else ask_provider env tenant answer o

abbrev pub callback_kind : Bool → EventKind
callback_kind true = paytm_callback_verified
callback_kind false = paytm_callback_rejected

-- `receive_callback` of the order that the form names; `verified` says whether the checksum holds.
unfoldable pub callback_for :
    Env → Uuid → StatusAnswer → Bool → Option PaytmOrder → Action (Unit {0})
callback_for env correlation answer verified none = pure tt
callback_for env correlation answer verified (some o) = do
  modify (
      add_audit
        (paytm_event o.tenant_id (callback_kind verified) correlation (named (o.order_id ∷ []))))
  if verified then (do confirm_order env o.tenant_id answer o.id; pure tt) else pure tt

unfoldable pub receive_callback : Env → Uuid → StatusAnswer → Bool → Text → Action (Unit {0})
receive_callback env correlation answer verified order_id = do
  found ← gets (λ s. find (has_paytm_id order_id) s.paytm_orders)
  callback_for env correlation answer verified found
