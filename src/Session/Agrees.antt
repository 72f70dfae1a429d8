-- ===== src/Session/Agrees.antt =====
-- What an action answers depends only on a part of the database: on databases that agree on it, it
-- gives the same answer, and leaves databases that agree.
use trust_gate_merchant_copi.Base.{◌≡◌, refl, ap, subst, Bool}
use trust_gate_merchant_copi.Models.{Db, Error}
use trust_gate_merchant_copi.Session.{
  Result, ok, err, Action, continue, pure, raise, gets, raise_if, ◌>>=◌,
}

pub record Agrees {A : Type 0} (R : Db → Db → Type 0) (m : Action A) : Type 0 where
  pub at : (s t : Db) → R s t → ((m s).0 ≡ (m t).0) × R (m s).1 (m t).1

module _ {A : Type 0} {R : Db → Db → Type 0} where
  pub Agrees-pure : (a : A) → Agrees R (pure a)
  unfolding pure
  Agrees-pure a = record { at = λ s t h. (refl, h) }

  pub Agrees-raise : (e : Error) → Agrees R (raise {A = A} e)
  unfolding raise
  Agrees-raise e = record { at = λ s t h. (refl, h) }

  pub Agrees-gets : (f : Db → A) → ((s t : Db) → R s t → f s ≡ f t) → Agrees R (gets f)
  unfolding gets
  Agrees-gets f same = record { at = λ s t h. (ap ok (same s t h), h) }

module _ {R : Db → Db → Type 0} where
  pub Agrees-raise_if : (c : Bool) (e : Error) → Agrees R (raise_if c e)
  unfolding raise_if
  Agrees-raise_if c e = record { at = λ s t h. (refl, h) }

module _ {A B : Type 0} {R : Db → Db → Type 0} where
  continue-Agrees :
      (r : Result A) (f : A → Action B) (s t : Db)
      → ((a : A) → Agrees R (f a))
      → R s t
      → ((continue r f s).0 ≡ (continue r f t).0) × R (continue r f s).1 (continue r f t).1
  continue-Agrees (ok a) f s t k h = (k a).at s t h
  continue-Agrees (err e) f s t k h = (refl, h)

  pub Agrees-bind :
      (m : Action A) (f : A → Action B)
      → Agrees R m
      → ((a : A) → Agrees R (f a))
      → Agrees R (m >>= f)
  unfolding ◌>>=◌
  Agrees-bind m f km kf = record {
    at = λ s t h.
        let (same, after) = km.at s t h in
        subst
          (λ r.
            ((continue (m s).0 f (m s).1).0 ≡ (continue r f (m t).1).0)
            × R (continue (m s).0 f (m s).1).1 (continue r f (m t).1).1)
          same (continue-Agrees (m s).0 f (m s).1 (m t).1 kf after);
  }

pub ruleset agrees_rules = (Agrees-pure, Agrees-raise, Agrees-raise_if, Agrees-bind)
