-- ===== src/Session/Keeps.antt =====
-- What an action keeps true of the database, whether it returns or raises: one rule for each way to
-- build an action.
use trust_gate_merchant_copi.Base.{
  ◌≡◌, refl, sym, subst, Bool, true, false, Option, none, some, if◌then◌else◌,
}
use trust_gate_merchant_copi.Models.{Db, Error}
use trust_gate_merchant_copi.Session.{
  Result, ok, err, Action, continue, settle, pure, raise, gets, modify, raise_if, or_raise,
  atomically, ◌>>=◌,
}
use trust_gate_merchant_copi.Session.Returns.{atomically-err}

pub record Keeps {A : Type 0} (P : Db → Type 0) (m : Action A) : Type 0 where
  pub at : (s : Db) → P s → P (m s).1

settle-keeps :
    {A : Type 0} (P : Db → Type 0) (r : Result A) (after before : Db)
    → P after
    → P before
    → P (settle r after before).1
settle-keeps P (ok a) after before h k = h
settle-keeps P (err e) after before h k = k

module _ {A : Type 0} {P : Db → Type 0} where
  pub Keeps-pure : (a : A) → Keeps P (pure a)
  unfolding pure
  Keeps-pure a = record { at = λ s h. h }

  pub Keeps-raise : (e : Error) → Keeps P (raise {A = A} e)
  unfolding raise
  Keeps-raise e = record { at = λ s h. h }

  pub Keeps-gets : (f : Db → A) → Keeps P (gets f)
  unfolding gets
  Keeps-gets f = record { at = λ s h. h }

  pub Keeps-or_raise : (o : Option A) (e : Error) → Keeps P (or_raise o e)
  unfolding or_raise
  Keeps-or_raise none e = record { at = λ s h. h }
  Keeps-or_raise (some a) e = record { at = λ s h. h }

  pub Keeps-atomically : (m : Action A) → Keeps P m → Keeps P (atomically m)
  unfolding atomically
  Keeps-atomically m k = record { at = λ s h. settle-keeps P (m s).0 (m s).1 s (k.at s h) h }

  pub Keeps-if : (b : Bool) (m n : Action A) → Keeps P m → Keeps P n → Keeps P (if b then m else n)
  Keeps-if true m n km kn = km
  Keeps-if false m n km kn = kn

module _ {P : Db → Type 0} where
  pub Keeps-modify : (f : Db → Db) → ((s : Db) → P s → P (f s)) → Keeps P (modify f)
  unfolding modify
  Keeps-modify f k = record { at = k }

  pub Keeps-raise_if : (c : Bool) (e : Error) → Keeps P (raise_if c e)
  unfolding raise_if
  Keeps-raise_if c e = record { at = λ s h. h }

cases-keep :
    {A : Type 0} (P : Db → Type 0) (r : Result A) (t : Db)
    → ((a : A) → r ≡ ok a → P t)
    → ((e : Error) → r ≡ err e → P t)
    → P t
cases-keep P (ok a) t yes_case no_case = yes_case a refl
cases-keep P (err e) t yes_case no_case = no_case e refl

module _ {A : Type 0} {P : Db → Type 0} where
  -- A block keeps what it keeps whenever it returns.
  pub Keeps-atomically_ok :
      (m : Action A)
      → ((s : Db) (a : A) (t : Db) → P s → atomically m s ≡ (ok a, t) → P t)
      → Keeps P (atomically m)
  Keeps-atomically_ok m k = record {
    at = λ s h.
        let (r, t) = atomically m s in
        cases-keep P r t (λ a e. k s a t h (λ i. (e i, t)))
          (λ e q. subst P (sym (atomically-err m s (λ i. (q i, t)))) h);
  }

module _ {A B : Type 0} {P : Db → Type 0} where
  Keeps-continue :
      (r : Result A) (f : A → Action B)
      → ((a : A) → Keeps P (f a))
      → (s : Db) → P s
      → P (continue r f s).1
  Keeps-continue (ok a) f kf s h = (kf a).at s h
  Keeps-continue (err e) f kf s h = h

  pub Keeps-bind :
      (m : Action A) (f : A → Action B) → Keeps P m → ((a : A) → Keeps P (f a)) → Keeps P (m >>= f)
  unfolding ◌>>=◌
  Keeps-bind m f km kf = record { at = λ s h. Keeps-continue (m s).0 f kf (m s).1 (km.at s h) }

pub ruleset keeps_rules = (
  Keeps-pure, Keeps-raise, Keeps-gets, Keeps-or_raise, Keeps-atomically, Keeps-if, Keeps-raise_if,
  Keeps-bind,
)

-- A handler that looks only at the result.
pub Keeps-map :
    {A B : Type 0} {P : Db → Type 0} (g : Result A → Result B) (m : Action A)
    → Keeps P m
    → Keeps P (λ s. (g (m s).0, (m s).1))
Keeps-map g m k = record { at = λ s h. k.at s h }

-- At one database, where what an action keeps depends on what was read.
module _ {B : Type 0} (P : Db → Type 0) where
  pub modify-then :
      (f : Db → Db) (k : Unit {0} → Action B) (s : Db)
      → Keeps P (k tt)
      → P (f s)
      → P ((modify f >>= k) s).1
  unfolding ◌>>=◌
  modify-then f k s keeps h = keeps.at (f s) h

  pub gets-then :
      {A : Type 0} (g : Db → A) (k : A → Action B) (s : Db)
      → P (k (g s) s).1
      → P ((gets g >>= k) s).1
  unfolding ◌>>=◌
  gets-then g k s h = h

  pub atomically-at : (m : Action B) (s : Db) → P s → P (m s).1 → P (atomically m s).1
  unfolding atomically
  atomically-at m s h k = settle-keeps P (m s).0 (m s).1 s k h
