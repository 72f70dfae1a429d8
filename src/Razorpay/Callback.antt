-- ===== src/Razorpay/Callback.antt =====
-- `verify_callback` of api/routes/razorpay.py: evidence, and no state.
use trust_gate_merchant_copi.Base.{Bool, Option, none, some, [], ◌∷◌, if◌then◌else◌, find}
use trust_gate_merchant_copi.Models.{
  Text, Reason, razorpay_order_not_found, razorpay_signature_invalid, RazorpayOrder,
  razorpay_callback_rejected, razorpay_callback_verified, rejected, named,
}
use trust_gate_merchant_copi.Session.{Action, pure, gets, modify, add_audit, ◌>>=◌, ◌>>◌}
use trust_gate_merchant_copi.Chain.Rows.{Env}
use trust_gate_merchant_copi.Razorpay.Order.{has_provider_id, order_event}

-- `RazorpayCallback`; `is_signed` says whether its signature is the HMAC of its order and payment.
pub record Callback : Type 0 where
  pub razorpay_order_id : Text
  pub razorpay_payment_id : Text
  pub is_signed : Bool

-- The answers: 202, and 404 or 400 with a detail.
pub data CallbackReply : Type 0 where
  callback_verified : CallbackReply
  callback_refused : Reason → CallbackReply

unfoldable pub verify_order : Env → Callback → Option RazorpayOrder → Action CallbackReply
verify_order env callback none = pure (callback_refused razorpay_order_not_found)
verify_order env callback (some o) =
    if callback.is_signed
    then (do
      modify (
          add_audit (
            order_event o env.new_correlation razorpay_callback_verified
              (named (callback.razorpay_order_id ∷ callback.razorpay_payment_id ∷ []))))
      pure callback_verified)
    else (do
      modify (
          add_audit (
            order_event o env.new_correlation razorpay_callback_rejected
              (rejected razorpay_signature_invalid (callback.razorpay_order_id ∷ []))))
      pure (callback_refused razorpay_signature_invalid))

unfoldable pub verify_callback : Env → Callback → Action CallbackReply
verify_callback env callback = do
  order ← gets (λ s. find (has_provider_id callback.razorpay_order_id) s.razorpay_orders)
  verify_order env callback order
