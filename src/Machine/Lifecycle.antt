-- ===== src/Machine/Lifecycle.antt =====
-- The lifecycle of a payment as a step relation (state_machine/transitions.py): what
-- `validate_transition` lets through, and the histories of calls to `transition`.
use trust_gate_merchant_copi.Base.{
  ◌≡◌, refl, subst, ◌↔◌, inl, inr, true, false, Option, none, some, List, [], ◌∷◌, arith, ℤ, pos,
  ◌≤ℤ◌, All, Bool-cases,
}
use trust_gate_merchant_copi.Models.{
  State, created, needs_approval, authorized, provider_pending, captured, denied, expired, failed,
  refunded, partially_refunded, cancelled, state_eq, Payment,
}
use trust_gate_merchant_copi.Machine.Legal.{
  member_state, legal_transitions, amount_failure, refund_failure, is_legal, is_capture_state,
  validate_transition,
}

-- One step of a payment's life.
pub data Step : State → State → Type 0 where
  ask_approval : Step created needs_approval
  allow_outright : Step created authorized
  grant_approval : Step needs_approval authorized
  send_to_provider : Step authorized provider_pending
  capture : Step provider_pending captured
  fail : Step provider_pending failed
  cancel : Step authorized cancelled
  deny_created : Step created denied
  deny_waiting : Step needs_approval denied
  expire_created : Step created expired
  expire_waiting : Step needs_approval expired
  expire_authorized : Step authorized expired
  refund_all : Step captured refunded
  refund_part : Step captured partially_refunded
  refund_more : Step partially_refunded partially_refunded
  refund_rest : Step partially_refunded refunded

-- The captured amount is authorized.
abbrev pub IsAuthorizedAmount : Payment → State → Option ℤ → Type 0
IsAuthorizedAmount p to none =
    (p.captured_amount_minor ≤ℤ pos 0)
    × (is_capture_state p.state ≡ false)
    × (is_capture_state to ≡ false)
IsAuthorizedAmount p to (some amount) = p.captured_amount_minor ≤ℤ amount

pub record IsValid (p : Payment) (to : State) : Type 0 where
  pub step : Step p.state to
  pub authorized_amount : IsAuthorizedAmount p to p.authorized_amount_minor
  pub refundable : p.refunded_amount_minor ≤ℤ p.captured_amount_minor

legal-Step : {a b : State} → Step a b → is_legal a b ≡ true
unfolding is_legal member_state legal_transitions
legal-Step ask_approval = refl
legal-Step allow_outright = refl
legal-Step grant_approval = refl
legal-Step send_to_provider = refl
legal-Step capture = refl
legal-Step fail = refl
legal-Step cancel = refl
legal-Step deny_created = refl
legal-Step deny_waiting = refl
legal-Step expire_created = refl
legal-Step expire_waiting = refl
legal-Step expire_authorized = refl
legal-Step refund_all = refl
legal-Step refund_part = refl
legal-Step refund_more = refl
legal-Step refund_rest = refl

state_eq_lem : (a b : State) → state_eq a b ≡ true → b ≡ a
state_eq_lem a b h = ground arith

Step-of_member :
    (a b : State) (xs : List State) → All (Step a) xs → member_state b xs ≡ true → Step a b
unfolding member_state
Step-of_member a b [] steps h = absurd (cc)
Step-of_member a b (x ∷ xs) steps h = elim (Bool-cases (state_eq b x)) [
  | inl e ↦ subst (Step a) (state_eq_lem b x e) steps.0
  | inr e ↦ Step-of_member a b xs steps.1 (ground arith)
]

All-legal : (a : State) → All (Step a) (legal_transitions a)
unfolding legal_transitions
All-legal created = (ask_approval, (allow_outright, (deny_created, (expire_created, tt))))
All-legal needs_approval = (grant_approval, (deny_waiting, (expire_waiting, tt)))
All-legal authorized = (send_to_provider, (expire_authorized, (cancel, tt)))
All-legal provider_pending = (capture, (fail, tt))
All-legal captured = (refund_all, (refund_part, tt))
All-legal partially_refunded = (refund_more, (refund_rest, tt))
All-legal denied = tt
All-legal expired = tt
All-legal failed = tt
All-legal refunded = tt
All-legal cancelled = tt

legal_Step_iff : (a b : State) → (is_legal a b ≡ true) ↔ Step a b
unfolding is_legal
legal_Step_iff a b = (Step-of_member a b (legal_transitions a) (All-legal a), legal-Step)

IsAuthorizedAmount-iff :
    (p : Payment) (to : State) (o : Option ℤ)
    → (amount_failure p to o ≡ none)
      ↔ (IsAuthorizedAmount p to o × (p.refunded_amount_minor ≤ℤ p.captured_amount_minor))
unfolding amount_failure refund_failure
IsAuthorizedAmount-iff p to none = ground arith
IsAuthorizedAmount-iff p to (some amount) = ground arith

-- A transition is let through exactly when it is a step of the lifecycle, what was captured was
-- authorized (without an authorized amount: nothing was captured and neither state is one of a
-- captured payment), and no more is refunded than was captured.
pub IsValid-iff : (p : Payment) (to : State) → (validate_transition p to ≡ none) ↔ IsValid p to
unfolding validate_transition
IsValid-iff p to = (
  λ h.
      let legal : is_legal p.state to ≡ true = ground arith in
      let amounts = (IsAuthorizedAmount-iff p to p.authorized_amount_minor).0 (ground arith) in
      record {
        step = (legal_Step_iff p.state to).0 legal;
        authorized_amount = amounts.0;
        refundable = amounts.1;
      },
  λ v. rw ((legal_Step_iff p.state to).1 v.step) (
      (IsAuthorizedAmount-iff p to p.authorized_amount_minor).1
        (v.authorized_amount, v.refundable)),
)
