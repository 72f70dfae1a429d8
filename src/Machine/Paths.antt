-- ===== src/Machine/Paths.antt =====
-- What a payment can live through, whatever calls to `transition` are made
-- (state_machine/transitions.py).
use trust_gate_merchant_copi.Base.{
  ◌≡◌, ◌≢◌, refl, sym, ap, ◌∙◌, Bool, true, false, some, List, [], ◌∷◌, All, find,
}
use trust_gate_merchant_copi.Models.{
  Uuid, State, created, needs_approval, authorized, denied, expired, failed, refunded, cancelled,
  Payment, Db, is_payment,
}
use trust_gate_merchant_copi.Machine.Transition.{set_state}
use trust_gate_merchant_copi.Machine.Lifecycle.{
  Step, ask_approval, allow_outright, grant_approval, send_to_provider, capture, fail, cancel,
  deny_created, deny_waiting, expire_created, expire_waiting, expire_authorized, refund_all,
  refund_part, refund_more, refund_rest,
}
use trust_gate_merchant_copi.Machine.History.{Attempt, IsOn, try_all, history_invariant}

-- A path of steps.
pub data Leads : State → State → Type 0 where
  stay : {a : State} → Leads a a
  then : {a b c : State} → Leads a b → Step b c → Leads a c

-- No step leaves the state.
abbrev pub is_final : State → Bool
is_final denied = true
is_final expired = true
is_final failed = true
is_final refunded = true
is_final cancelled = true
is_final _ = false

final-stuck : {a b : State} → Step a b → is_final a ≡ false
final-stuck ask_approval = refl
final-stuck allow_outright = refl
final-stuck grant_approval = refl
final-stuck send_to_provider = refl
final-stuck capture = refl
final-stuck fail = refl
final-stuck cancel = refl
final-stuck deny_created = refl
final-stuck deny_waiting = refl
final-stuck expire_created = refl
final-stuck expire_waiting = refl
final-stuck expire_authorized = refl
final-stuck refund_all = refl
final-stuck refund_part = refl
final-stuck refund_more = refl
final-stuck refund_rest = refl

-- Nothing was authorized yet.
abbrev pub is_unauthorized : State → Bool
is_unauthorized created = true
is_unauthorized needs_approval = true
is_unauthorized denied = true
is_unauthorized expired = true
is_unauthorized _ = false

unauthorized-Step :
    {a b : State} → Step a b → b ≢ authorized → is_unauthorized a ≡ true → is_unauthorized b ≡ true
unauthorized-Step ask_approval n h = refl
unauthorized-Step allow_outright n h = absurd (n refl)
unauthorized-Step grant_approval n h = absurd (n refl)
unauthorized-Step send_to_provider n h = h
unauthorized-Step capture n h = h
unauthorized-Step fail n h = h
unauthorized-Step cancel n h = h
unauthorized-Step deny_created n h = refl
unauthorized-Step deny_waiting n h = refl
unauthorized-Step expire_created n h = refl
unauthorized-Step expire_waiting n h = refl
unauthorized-Step expire_authorized n h = refl
unauthorized-Step refund_all n h = h
unauthorized-Step refund_part n h = h
unauthorized-Step refund_more n h = h
unauthorized-Step refund_rest n h = h

always : {P : Attempt → Type 0} → ((a : Attempt) → P a) → (attempts : List Attempt) → All P attempts
always h [] = tt
always h (a ∷ rest) = (h a, always h rest)

All-weaken :
    {P Q : Attempt → Type 0}
    → ((a : Attempt) → P a → Q a)
    → (attempts : List Attempt) → All P attempts
    → All Q attempts
All-weaken f [] h = tt
All-weaken f (a ∷ rest) h = (f a h.0, All-weaken f rest h.1)

-- After any list of calls to `transition`, of the server's operations this one alone, a payment is
-- still there, has changed in nothing but its state, and its state is one to which steps of the
-- lifecycle lead from where it was.
pub history_follows_lifecycle :
    (tenant i : Uuid) (attempts : List Attempt) (s : Db) (p : Payment)
    → find (is_payment tenant i) s.payments ≡ some p
    → (q : Payment) × (find (is_payment tenant i) (try_all attempts s).payments ≡ some q)
      × Leads p.state q.state
      × (q ≡ set_state q.state p)
history_follows_lifecycle tenant i attempts s p found =
    let (q, found', path) =
      history_invariant tenant i (λ q. Leads p.state q.state × (q ≡ set_state q.state p)) attempts s
        p (always (λ a q _ step (path, same). (then path step, ap (set_state a.to) same)) attempts)
        found (stay, refl) in
    (q, found', path.0, path.1)

-- A payment that is denied, expired, failed, refunded or cancelled stays as it is, whatever calls to
-- `transition` follow.
pub history_final :
    (tenant i : Uuid) (attempts : List Attempt) (s : Db) (p : Payment)
    → find (is_payment tenant i) s.payments ≡ some p
    → is_final p.state ≡ true
    → find (is_payment tenant i) (try_all attempts s).payments ≡ some p
history_final tenant i attempts s p found final =
    let (q, found', same) =
      history_invariant tenant i (λ q. q ≡ p) attempts s p
        (always
          (λ a q _ step same.
            absurd
              (cc (sym (final-stuck step) ∙ ap (λ (x : Payment). is_final x.state) same ∙ final)))
          attempts)
        found refl in
    found' ∙ ap some same

-- No calls to `transition` lead a payment past authorization unless one of them asks for that payment's
-- authorization: without it, a payment that was not authorized is created, waiting for approval,
-- denied or expired, and so was neither sent to the provider nor captured.
pub history_needs_authorization :
    (tenant i : Uuid) (attempts : List Attempt) (s : Db) (p : Payment)
    → find (is_payment tenant i) s.payments ≡ some p
    → is_unauthorized p.state ≡ true
    → All (λ a. IsOn tenant i a → a.to ≢ authorized) attempts
    → (q : Payment) × (find (is_payment tenant i) (try_all attempts s).payments ≡ some q)
      × (is_unauthorized q.state ≡ true)
history_needs_authorization tenant i attempts s p found before none_asked =
    history_invariant tenant i (λ q. is_unauthorized q.state ≡ true) attempts s p
      (All-weaken (λ a never q on step h. unauthorized-Step step (never on) h) attempts none_asked)
      found before
