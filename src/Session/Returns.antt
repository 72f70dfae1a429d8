-- ===== src/Session/Returns.antt =====
-- What is known once an action has returned: one inversion for each way to build an action.
use trust_gate_merchant_copi.Base.{
  ◌⊎◌, inl, inr, ◌≡◌, refl, sym, Bool, true, false, Option, none, some, ap, if◌then◌else◌,
}
use trust_gate_merchant_copi.Models.{Db, Error}
use trust_gate_merchant_copi.Session.{
  Result, ok, err, Action, continue, settle, pure, gets, modify, raise_if, or_raise, atomically,
  ◌>>=◌,
}

module _ {A B : Type 0} where
  continue-ok :
      (r : Result A) (f : A → Action B) (s : Db) {b : B} {t : Db}
      → continue r f s ≡ (ok b, t)
      → (a : A) × (r ≡ ok a) × (f a s ≡ (ok b, t))
  continue-ok (ok a) f s h = (a, refl, h)
  continue-ok (err e) f s h = absurd (cc (ap (λ (p : Result B × Db). p.0) h))

  pub bind-ok :
      (m : Action A) (f : A → Action B) (s : Db) {b : B} {t : Db}
      → (m >>= f) s ≡ (ok b, t)
      → (a : A) × (s' : Db) × (m s ≡ (ok a, s')) × (f a s' ≡ (ok b, t))
  unfolding ◌>>=◌
  bind-ok m f s h =
      let (a, e, k) = continue-ok (m s).0 f (m s).1 h in (a, (m s).1, (λ i. (e i, (m s).1)), k)

  pub gets-ok :
      (g : Db → A) (f : A → Action B) (s : Db) {b : B} {t : Db}
      → (gets g >>= f) s ≡ (ok b, t)
      → f (g s) s ≡ (ok b, t)
  unfolding ◌>>=◌
  gets-ok g f s h = h

  pub or_raise-ok :
      (o : Option A) (e : Error) (f : A → Action B) (s : Db) {b : B} {t : Db}
      → (or_raise o e >>= f) s ≡ (ok b, t)
      → (a : A) × (o ≡ some a) × (f a s ≡ (ok b, t))
  unfolding ◌>>=◌
  or_raise-ok none e f s h = absurd (cc (ap (λ (p : Result B × Db). p.0) h))
  or_raise-ok (some a) e f s h = (a, refl, h)

module _ {B : Type 0} where
  pub raise_if-ok :
      (c : Bool) (e : Error) (f : Unit {0} → Action B) (s : Db) {b : B} {t : Db}
      → (raise_if c e >>= f) s ≡ (ok b, t)
      → (c ≡ false) × (f tt s ≡ (ok b, t))
  unfolding ◌>>=◌
  raise_if-ok true e f s h = absurd (cc (ap (λ (p : Result B × Db). p.0) h))
  raise_if-ok false e f s h = (refl, h)

  pub modify-ok :
      (g : Db → Db) (f : Unit {0} → Action B) (s : Db) {b : B} {t : Db}
      → (modify g >>= f) s ≡ (ok b, t)
      → f tt (g s) ≡ (ok b, t)
  unfolding ◌>>=◌
  modify-ok g f s h = h

-- The last action of a block.
pub raise_if-last :
    (c : Bool) (e : Error) (s : Db) {u : Unit {0}} {t : Db}
    → raise_if c e s ≡ (ok u, t)
    → (c ≡ false) × (t ≡ s)
unfolding raise_if
raise_if-last true e s h = absurd (cc (ap (λ (p : Result (Unit {0}) × Db). p.0) h))
raise_if-last false e s h = (refl, sym (ap (λ (p : Result (Unit {0}) × Db). p.1) h))

pub modify-last : (g : Db → Db) (s : Db) {u : Unit {0}} {t : Db} → modify g s ≡ (ok u, t) → t ≡ g s
unfolding modify
modify-last g s h = sym (ap (λ (p : Result (Unit {0}) × Db). p.1) h)

module _ {A : Type 0} where
  abbrev value_or : A → Result A → A
  value_or d (ok a) = a
  value_or d (err e) = d

  pub pure-last : (a : A) (s : Db) {b : A} {t : Db} → pure a s ≡ (ok b, t) → (b ≡ a) × (t ≡ s)
  unfolding pure
  pure-last a s h =
      (sym (ap (λ (p : Result A × Db). value_or a p.0) h), sym (ap (λ (p : Result A × Db). p.1) h))

  settle-ok :
      (r : Result A) (after before : Db) {a : A} {t : Db}
      → settle r after before ≡ (ok a, t)
      → (r ≡ ok a) × (after ≡ t)
  settle-ok (ok a) after before h =
      (ap (λ (p : Result A × Db). p.0) h, ap (λ (p : Result A × Db). p.1) h)
  settle-ok (err e) after before h = absurd (cc (ap (λ (p : Result A × Db). p.0) h))

  settle-err :
      (r : Result A) (after before : Db) {e : Error} {t : Db}
      → settle r after before ≡ (err e, t)
      → t ≡ before
  settle-err (ok a) after before h = absurd (cc (ap (λ (p : Result A × Db). p.0) h))
  settle-err (err e) after before h = sym (ap (λ (p : Result A × Db). p.1) h)

  -- A block that returns has done what its body does; one that raises has done nothing.
  pub atomically-ok :
      (m : Action A) (s : Db) {a : A} {t : Db} → atomically m s ≡ (ok a, t) → m s ≡ (ok a, t)
  unfolding atomically
  atomically-ok m s h = let (p, q) = settle-ok (m s).0 (m s).1 s h in λ i. (p i, q i)

  pub atomically-err :
      (m : Action A) (s : Db) {e : Error} {t : Db} → atomically m s ≡ (err e, t) → t ≡ s
  unfolding atomically
  atomically-err m s h = settle-err (m s).0 (m s).1 s h

module _ {A B : Type 0} where
  continue-cases :
      (r : Result A) (f : A → Action B) (s : Db) {b : Result B} {t : Db}
      → continue r f s ≡ (b, t)
      → ((a : A) × (r ≡ ok a) × (f a s ≡ (b, t)))
        ⊎ ((e : Error) × (r ≡ err e) × (b ≡ err e) × (s ≡ t))
  continue-cases (ok a) f s h = inl (a, refl, h)
  continue-cases (err e) f s h =
      inr (e, refl, sym (ap (λ (p : Result B × Db). p.0) h), ap (λ (p : Result B × Db). p.1) h)

  -- A block either went past its first action, or raised there.
  pub bind-cases :
      (m : Action A) (f : A → Action B) (s : Db) {b : Result B} {t : Db}
      → (m >>= f) s ≡ (b, t)
      → ((a : A) × (s' : Db) × (m s ≡ (ok a, s')) × (f a s' ≡ (b, t)))
        ⊎ ((e : Error) × (m s ≡ (err e, t)) × (b ≡ err e))
  unfolding ◌>>=◌
  bind-cases m f s h = elim (continue-cases (m s).0 f (m s).1 h) [
    | inl (a, e, k) ↦ inl (a, (m s).1, (λ i. (e i, (m s).1)), k)
    | inr (e, p, q, r) ↦ inr (e, (λ i. (p i, r i)), q)
  ]

-- A test: which of its branches returned.
module _ {A : Type 0} where
  pub if-ok :
      (b : Bool) (m n : Action A) (s : Db) {a : A} {t : Db}
      → (if b then m else n) s ≡ (ok a, t)
      → ((b ≡ true) × (m s ≡ (ok a, t))) ⊎ ((b ≡ false) × (n s ≡ (ok a, t)))
  if-ok true m n s h = inl (refl, h)
  if-ok false m n s h = inr (refl, h)
