-- ===== src/Base/Queries.antt =====
-- How the queries of `Tables` see a table after a statement has changed it.
use trust_gate_merchant_copi.Base.Tests.{Bool-cases, if◌then◌else◌}
use trust_gate_merchant_copi.Base.Tables.{find, update_where, count_where, sum_where, All}
use trust_gate_merchant_copi.Base.Int.{ℤ, pos, ◌≤ℤ◌, int_laws}
use Prim.Native.Nat.{◌≤◌}
use mathlib.Core.Path.{◌≡◌, refl, subst, ap, ◌∙◌}
use mathlib.Core.Logic.{inl, inr}
use mathlib.Core.Bool.{Bool, true, false}
use mathlib.Core.Option
use mathlib.Core.Option.{Option, none, some}
use mathlib.Core.List.{List, [], ◌∷◌}
use native.Mathlib.Omega.{arith}

module _ {ℓ} {A : Type ℓ} (p q : A → Bool) (f : A → A) where
  -- An UPDATE that keeps the key `q` of the rows is seen through that key.
  pub find-update_where :
      ((x : A) → q (f x) ≡ q x)
      → (xs : List A)
      → find q (update_where p f xs) ≡ Option.map (λ x. if p x then f x else x) (find q xs)
  unfolding find update_where
  find-update_where keep [] = refl
  find-update_where keep (x ∷ xs) = ground (arith, keep x, find-update_where keep xs)

  -- An UPDATE of rows that are not under the key `q`, neither before nor after, is not seen.
  pub find-update_where_ne :
      ((x : A) → p x ≡ true → (q x ≡ false) × (q (f x) ≡ false))
      → (xs : List A) → find q (update_where p f xs) ≡ find q xs
  unfolding find update_where
  find-update_where_ne apart [] = refl
  find-update_where_ne apart (x ∷ xs) = elim (Bool-cases (p x)) [
    | inl e ↦ ground (arith, apart x e, find-update_where_ne apart xs)
    | inr e ↦ ground (arith, find-update_where_ne apart xs)
  ]

  pub count-update_where :
      ((x : A) → q (f x) ≡ q x)
      → (xs : List A) → count_where q (update_where p f xs) ≡ count_where q xs
  unfolding count_where update_where
  count-update_where keep [] = refl
  count-update_where keep (x ∷ xs) = ground (arith, keep x, count-update_where keep xs)

  pub sum-update_where :
      (g : A → ℤ)
      → ((x : A) → q (f x) ≡ q x)
      → ((x : A) → g (f x) ≡ g x)
      → (xs : List A) → sum_where q g (update_where p f xs) ≡ sum_where q g xs
  unfolding sum_where update_where
  sum-update_where g keep same [] = refl
  sum-update_where g keep same (x ∷ xs) =
      ground (arith, keep x, same x, sum-update_where g keep same xs)

module _ {ℓ κ λ'} {A : Type ℓ} (P : A → Type κ) (Q : A → Type λ') where
  pub All-map : ((x : A) → P x → Q x) → (xs : List A) → All P xs → All Q xs
  All-map k [] h = tt
  All-map k (x ∷ xs) h = (k x h.0, All-map k xs h.1)

  pub All-update_where :
      (p : A → Bool) (f : A → A)
      → ((x : A) → p x ≡ true → P x → Q (f x))
      → ((x : A) → p x ≡ false → P x → Q x)
      → (xs : List A) → All P xs
      → All Q (update_where p f xs)
  unfolding update_where
  All-update_where p f hit miss [] h = tt
  All-update_where p f hit miss (x ∷ xs) h = elim (Bool-cases (p x)) [
    | inl e ↦ rw e (hit x e h.0, All-update_where p f hit miss xs h.1)
    | inr e ↦ rw e (miss x e h.0, All-update_where p f hit miss xs h.1)
  ]

pub All-zip {ℓ κ λ'} :
    {A : Type ℓ} (P : A → Type κ) (Q : A → Type λ') (xs : List A)
    → All P xs
    → All Q xs
    → All (λ x. P x × Q x) xs
All-zip P Q [] h k = tt
All-zip P Q (x ∷ xs) h k = ((h.0, k.0), All-zip P Q xs h.1 k.1)

module _ {ℓ} {A : Type ℓ} (p : A → Bool) where
  pub find-holds : (xs : List A) {x : A} → find p xs ≡ some x → p x ≡ true
  unfolding find
  find-holds [] e = cc
  find-holds (x ∷ xs) e = elim (Bool-cases (p x)) [
    | inl h ↦ ground arith
    | inr h ↦ find-holds xs (ground arith)
  ]

  pub All-find {κ} : (P : A → Type κ) (xs : List A) {x : A} → All P xs → find p xs ≡ some x → P x
  unfolding find
  All-find P [] h e = absurd (cc)
  All-find P (y ∷ xs) {x} h e = elim (Bool-cases (p y)) [
    | inl t ↦ subst P (ground arith) h.0
    | inr t ↦ All-find P xs h.1 (ground arith)
  ]

  pub count_of_none : (xs : List A) → find p xs ≡ none → count_where p xs ≡ 0
  unfolding find count_where
  count_of_none [] e = refl
  count_of_none (x ∷ xs) e = ground (arith, count_of_none xs)

  sum_of_count : (g : A → ℤ) (xs : List A) → count_where p xs ≤ 0 → sum_where p g xs ≡ pos 0
  unfolding count_where sum_where
  sum_of_count g [] c = refl
  sum_of_count g (x ∷ xs) c = ground (arith, sum_of_count g xs)

  -- One row at most is selected, so a sum over the selection is that row's.
  pub sum_of_find :
      (g : A → ℤ) (xs : List A) {x : A}
      → count_where p xs ≤ 1
      → find p xs ≡ some x
      → sum_where p g xs ≡ g x
  unfolding find count_where sum_where
  sum_of_find g [] c e = absurd (cc)
  sum_of_find g (y ∷ xs) {x = x} c e = elim (Bool-cases (p y)) [
    | inl t ↦
        let here : y ≡ x = ground arith in
        let rest : sum_where p g xs ≡ pos 0 = sum_of_count g xs (ground arith) in
        rw (t, rest, ← here) (omega int_laws)
    | inr t ↦ rw t (sum_of_find g xs (ground arith) (ground arith))
  ]

  pub sum_of_none : (g : A → ℤ) (xs : List A) → find p xs ≡ none → sum_where p g xs ≡ pos 0
  unfolding find sum_where
  sum_of_none g [] e = refl
  sum_of_none g (x ∷ xs) e = ground (arith, sum_of_none g xs)

  -- A sum of smaller terms is smaller.
  pub sum_mono :
      (g h : A → ℤ) (xs : List A) → All (λ x. g x ≤ℤ h x) xs → sum_where p g xs ≤ℤ sum_where p h xs
  unfolding sum_where
  sum_mono g h [] k = omega arith
  sum_mono g h (x ∷ xs) k = elim (Bool-cases (p x)) [
    | inl t ↦ rw t (omega (int_laws, k.0, sum_mono g h xs k.1))
    | inr t ↦ rw t (sum_mono g h xs k.1)
  ]

module _ {ℓ} {A : Type ℓ} (p q : A → Bool) where
  count-le :
      ((x : A) → p x ≡ true → q x ≡ true) → (xs : List A) → count_where p xs ≤ count_where q xs
  unfolding count_where
  count-le sub [] = omega arith
  count-le sub (x ∷ xs) = elim (Bool-cases (p x)) [
    | inl t ↦ rw (t, sub x t) (omega (arith, count-le sub xs))
    | inr t ↦ ground (arith, count-le sub xs)
  ]

  -- Of two nested selections that are as large as one another, neither misses a row.
  pub All-of_count :
      ((x : A) → p x ≡ true → q x ≡ true)
      → (xs : List A) → count_where q xs ≤ count_where p xs
      → All (λ x. q x ≡ p x) xs
  unfolding count_where
  All-of_count sub [] c = tt
  All-of_count sub (x ∷ xs) c = elim (Bool-cases (p x)) [
    | inl t ↦ (rw (t, sub x t), All-of_count sub xs (ground (arith, sub x t)))
    | inr t ↦ elim (Bool-cases (q x)) [
      | inl more ↦ absurd (ground (arith, count-le sub xs))
      | inr same ↦ (rw (t, same), All-of_count sub xs (ground arith))
    ]
  ]

module _ {ℓ} {A : Type ℓ} (p : A → Bool) (f : A → A) (keep : (x : A) → p (f x) ≡ p x) where
  -- The row that an UPDATE by a key has changed, seen through that key.
  pub find-update_where_self :
      (xs : List A) {x : A} → find p xs ≡ some x → find p (update_where p f xs) ≡ some (f x)
  find-update_where_self xs {x} e =
      find-update_where p p f keep xs
      ∙ ap (Option.map (λ y. if p y then f y else y)) e
      ∙ ap some (rw (find-holds p xs e))

  pub find-update_where-none :
      (xs : List A) → find p xs ≡ none → find p (update_where p f xs) ≡ none
  find-update_where-none xs e =
      find-update_where p p f keep xs ∙ ap (Option.map (λ y. if p y then f y else y)) e
