-- ===== src/Session/Runs.antt =====
-- How a block goes on when its first action returns: one step for each way to build an action.
use trust_gate_merchant_copi.Base.{◌≡◌, refl, Bool, false, Option, some}
use trust_gate_merchant_copi.Models.{Db, Error}
use trust_gate_merchant_copi.Session.{
  ok, Action, gets, modify, raise_if, or_raise, atomically, ◌>>=◌,
}

module _ {A B : Type 0} where
  pub bind-runs :
      (m : Action A) (f : A → Action B) (s : Db) {a : A} {s' : Db}
      → m s ≡ (ok a, s')
      → (m >>= f) s ≡ f a s'
  unfolding ◌>>=◌
  bind-runs m f s h = rw h refl

  pub gets-runs : (g : Db → A) (f : A → Action B) (s : Db) → (gets g >>= f) s ≡ f (g s) s
  unfolding ◌>>=◌
  gets-runs g f s = refl

  pub or_raise-runs :
      (o : Option A) (e : Error) (f : A → Action B) (s : Db) {a : A}
      → o ≡ some a
      → (or_raise o e >>= f) s ≡ f a s
  unfolding ◌>>=◌
  or_raise-runs o e f s h = rw h refl

module _ {B : Type 0} where
  pub raise_if-runs :
      (c : Bool) (e : Error) (f : Unit {0} → Action B) (s : Db)
      → c ≡ false
      → (raise_if c e >>= f) s ≡ f tt s
  unfolding ◌>>=◌
  raise_if-runs c e f s h = rw h refl

  pub modify-runs :
      (g : Db → Db) (f : Unit {0} → Action B) (s : Db) → (modify g >>= f) s ≡ f tt (g s)
  unfolding ◌>>=◌
  modify-runs g f s = refl

  pub atomically-runs :
      (m : Action B) (s : Db) {b : B} {t : Db} → m s ≡ (ok b, t) → atomically m s ≡ (ok b, t)
  unfolding atomically
  atomically-runs m s h = rw h refl
