-- ===== src/Razorpay/Tests.antt =====
-- The theorems of the Razorpay routes at one authority and its order.
use trust_gate_merchant_copi.Base.{
  ◌≡◌, refl, sym, ap, true, Option, none, some, List, [], ◌∷◌, if◌then◌else◌, ltb, ◌*◌, length, pos,
  ◌-ℤ◌, find, update_where, count_where,
}
use trust_gate_merchant_copi.Models.{
  http_error, razorpay_receipt_search_incomplete, razorpay_duplicate_orders, pending, confirmed,
  provider_pending, RazorpayOrder, Db,
}
use trust_gate_merchant_copi.Session.{Result, ok, err, ◌>>=◌}
use trust_gate_merchant_copi.Fixtures.{env_of, payment_in, payment_db}
use trust_gate_merchant_copi.Machine.Legal.{
  member_state, legal_transitions, is_legal, releases_budget, holds_reservation, is_capture_state,
  refund_failure, amount_failure, validate_transition,
}
use trust_gate_merchant_copi.Machine.Transition.{
  use_approval, guard_transition, return_budgets, accept_transition, finish_transition,
  transition_block, transition,
}
use trust_gate_merchant_copi.Machine.Untouched.{Untouched}
use trust_gate_merchant_copi.Checkout.Tests.{small_digest, paid_db, issue_result}
use trust_gate_merchant_copi.Razorpay.{
  page_size, max_pages, Item, not_an_object, order_item, matching, search_pages,
  find_orders_by_receipt,
}
use trust_gate_merchant_copi.Razorpay.Order.{post_failed, create_order}
use trust_gate_merchant_copi.Razorpay.Search.{pages_of, find_orders_complete}
use trust_gate_merchant_copi.Razorpay.World.{World}
use trust_gate_merchant_copi.Razorpay.Review.{duplicates_undone}
use trust_gate_merchant_copi.Razorpay.Hook.{
  unset, webhook_max_age_seconds, webhook_timestamp_rejection, PaymentEntity, captured_event,
  failed_event, RazorpayEvent, Delivery, HookReply, webhook_event_identity, apply_event,
  record_hook, settle_hook, try_hook, hook_on_payment, hook_on_order, hook_event, timely_event,
  parsed_event, receive_razorpay_webhook,
}
use trust_gate_merchant_copi.Razorpay.Evidence.{IsEvidence, hook_accepts}
use trust_gate_merchant_copi.Razorpay.Attempts.{failed_attempt_moves_nothing}

abbrev listed : List Item
listed =
    order_item (some 96) (some 201)
    ∷ not_an_object
    ∷ order_item none (some 202)
    ∷ order_item (some 96) (some 203)
    ∷ []

find_orders_complete_example : find_orders_by_receipt (pages_of listed) 96 ≡ (
    if ltb (length listed) (max_pages * page_size)
    then ok (matching 96 listed)
    else err (http_error razorpay_receipt_search_incomplete))
find_orders_complete_example = find_orders_complete listed 96

two_matches : find_orders_by_receipt (pages_of listed) 96 ≡ ok (201 ∷ 203 ∷ [])
unfolding find_orders_by_receipt search_pages matching
two_matches = refl

-- The first POST makes the order and its answer is lost; the second call finds the order.
abbrev start : World
start = record { db = issue_result.1; orders = [] }

abbrev intent : RazorpayOrder
intent = record {
  id = 301;
  tenant_id = 1;
  checkout_authority_id = 96;
  payment_id = 81;
  razorpay_order_id = none;
  provider_state = pending;
  reconciled_at = none;
  receipt = 96;
  amount_minor = pos 300;
  currency = 356;
}

abbrev intent_db : Db
intent_db = record paid_db { razorpay_orders = intent ∷ [] }

duplicates_undone_example :
    create_order small_digest (env_of 303) (pages_of listed) post_failed 1 96 intent_db
    ≡ (err (http_error razorpay_duplicate_orders), intent_db)
unfolding find_orders_by_receipt search_pages matching find
duplicates_undone_example =
    duplicates_undone small_digest (env_of 303) (pages_of listed) post_failed 1 96 intent_db intent
      201 203 [] refl refl refl

abbrev ordered_db : Db
ordered_db = record (payment_db provider_pending) {
  payments = record (payment_in provider_pending) { authorized_amount_minor = some (pos 300) } ∷ [];
  razorpay_orders = record intent { razorpay_order_id = some 401; provider_state = confirmed } ∷ [];
}

abbrev entity : PaymentEntity
entity = record { id = 501; order_id = 401; amount = pos 300; currency = 356 }

-- The capture, reported 60 seconds later.
abbrev capture : Delivery
capture = record {
  declared = some 900;
  body_length = 900;
  is_signed = true;
  parsed = some (record {
    event = captured_event;
    payment_entity = some entity;
    created_at = some (pos 1000);
  });
  header_id = some 77;
  unix_now = pos 1060000000;
}

abbrev hooked : Result HookReply × Db
hooked = receive_razorpay_webhook (env_of 304) unset capture ordered_db

hook_accepts_example : IsEvidence (env_of 304) unset capture ordered_db 501 hooked.1
unfolding receive_razorpay_webhook parsed_event timely_event hook_event hook_on_order
    hook_on_payment try_hook record_hook apply_event settle_hook webhook_timestamp_rejection
    webhook_max_age_seconds webhook_event_identity transition transition_block guard_transition
    use_approval validate_transition is_legal member_state legal_transitions amount_failure
    refund_failure is_capture_state finish_transition accept_transition return_budgets
    releases_budget holds_reservation find update_where count_where ◌-ℤ◌ ◌>>=◌
hook_accepts_example = hook_accepts (env_of 304) unset capture ordered_db 501 hooked.1 refl

abbrev failure_event : RazorpayEvent
failure_event = record {
  event = failed_event;
  payment_entity = some entity;
  created_at = some (pos 1000);
}

abbrev failure : Delivery
failure = record capture { parsed = some failure_event }

abbrev event_or_failure : Option RazorpayEvent → RazorpayEvent
event_or_failure none = failure_event
event_or_failure (some e) = e

failed_attempt_moves_nothing_example :
    Untouched ordered_db (receive_razorpay_webhook (env_of 304) unset failure ordered_db).1
failed_attempt_moves_nothing_example =
    failed_attempt_moves_nothing (env_of 304) unset failure ordered_db
      (λ e h. ap (λ (o : Option RazorpayEvent). (event_or_failure o).event) (sym h))
