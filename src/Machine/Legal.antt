-- ===== src/Machine/Legal.antt =====
-- `LEGAL_TRANSITIONS`, the two sets of states about budgets, and `validate_transition` of
-- state_machine/transitions.py.
use trust_gate_merchant_copi.Base.{
  Bool, false, not, ◌||◌, Option, none, some, List, [], ◌∷◌, if◌then◌else◌, ℤ, pos, ltb_ℤ,
}
use trust_gate_merchant_copi.Models.{
  State, created, needs_approval, authorized, provider_pending, captured, denied, expired, failed,
  refunded, partially_refunded, cancelled, state_eq, StateCode, illegal_state_transition,
  capture_exceeds_authorized, refund_exceeds_captured, Payment,
}

unfoldable pub member_state : State → List State → Bool
member_state a [] = false
member_state a (x ∷ xs) = state_eq a x || member_state a xs

unfoldable pub legal_transitions : State → List State
legal_transitions created = needs_approval ∷ authorized ∷ denied ∷ expired ∷ []
legal_transitions needs_approval = authorized ∷ denied ∷ expired ∷ []
legal_transitions authorized = provider_pending ∷ expired ∷ cancelled ∷ []
legal_transitions provider_pending = captured ∷ failed ∷ []
legal_transitions captured = refunded ∷ partially_refunded ∷ []
legal_transitions partially_refunded = partially_refunded ∷ refunded ∷ []
legal_transitions denied = []
legal_transitions expired = []
legal_transitions failed = []
legal_transitions refunded = []
legal_transitions cancelled = []

unfoldable pub is_legal : State → State → Bool
unfolding member_state legal_transitions
is_legal from to = member_state to (legal_transitions from)

-- `BUDGET_RELEASING_STATES`
unfoldable pub releases_budget : State → Bool
unfolding member_state
releases_budget s = member_state s (denied ∷ expired ∷ failed ∷ cancelled ∷ [])

-- `RESERVATION_HOLDING_STATES`
unfoldable pub holds_reservation : State → Bool
unfolding member_state
holds_reservation s = member_state s (needs_approval ∷ authorized ∷ provider_pending ∷ [])

-- `capture_states`
unfoldable pub is_capture_state : State → Bool
unfolding member_state
is_capture_state s = member_state s (captured ∷ partially_refunded ∷ refunded ∷ [])

unfoldable pub refund_failure : Payment → Option StateCode
refund_failure p =
    if ltb_ℤ p.captured_amount_minor p.refunded_amount_minor
    then some refund_exceeds_captured
    else none

unfoldable pub amount_failure : Payment → State → Option ℤ → Option StateCode
unfolding refund_failure is_capture_state
amount_failure p to none =
    if ltb_ℤ (pos 0) p.captured_amount_minor || is_capture_state p.state || is_capture_state to
    then some capture_exceeds_authorized
    else refund_failure p
amount_failure p to (some authorized_amount) =
    if ltb_ℤ authorized_amount p.captured_amount_minor
    then some capture_exceeds_authorized
    else refund_failure p

-- The code that `validate_transition` raises, if it raises.
unfoldable pub validate_transition : Payment → State → Option StateCode
unfolding is_legal amount_failure
validate_transition p to =
    if not (is_legal p.state to)
    then some illegal_state_transition
    else amount_failure p to p.authorized_amount_minor
