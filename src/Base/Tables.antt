-- ===== src/Base/Tables.antt =====
-- Tables as lists of rows: SELECT, UPDATE ... WHERE with its row count, and sums over the rows
-- that a predicate selects.
use Prim.Native.Nat.{ℕ, suc}
use mathlib.Core.Bool.{Bool, true, ◌&&◌}
use mathlib.Core.Option.{Option, none, some}
use mathlib.Core.List.{List, [], ◌∷◌}
use trust_gate_merchant_copi.Base.Tests.{if◌then◌else◌}
use trust_gate_merchant_copi.Base.Int.{ℤ, pos, ◌+ℤ◌}

-- A predicate of every row.
abbrev pub All {ℓ κ} : {A : Type ℓ} → (A → Type κ) → List A → Type κ
All P [] = Unit
All P (x ∷ xs) = P x × All P xs

module _ {ℓ} {A : Type ℓ} where
  abbrev pub length : List A → ℕ
  length [] = 0
  length (x ∷ xs) = suc (length xs)

  -- The first row that satisfies the WHERE clause.
  unfoldable pub find : (A → Bool) → List A → Option A
  find p [] = none
  find p (x ∷ xs) = if p x then some x else find p xs

  -- All rows that satisfy the WHERE clause.
  unfoldable pub select : (A → Bool) → List A → List A
  select p [] = []
  select p (x ∷ xs) = let rest = select p xs in if p x then x ∷ rest else rest

  -- UPDATE ... SET f WHERE p
  unfoldable pub update_where : (A → Bool) → (A → A) → List A → List A
  update_where p f [] = []
  update_where p f (x ∷ xs) = (if p x then f x else x) ∷ update_where p f xs

  -- The row count of that statement.
  unfoldable pub count_where : (A → Bool) → List A → ℕ
  count_where p [] = 0
  count_where p (x ∷ xs) = let rest = count_where p xs in if p x then suc rest else rest

  -- SELECT sum(g) WHERE p
  unfoldable pub sum_where : (A → Bool) → (A → ℤ) → List A → ℤ
  sum_where p g [] = pos 0
  sum_where p g (x ∷ xs) = let rest = sum_where p g xs in if p x then g x +ℤ rest else rest

  -- Every row that the WHERE clause selects satisfies `c`.
  unfoldable pub all_where : (A → Bool) → (A → Bool) → List A → Bool
  all_where p c [] = true
  all_where p c (x ∷ xs) = (if p x then c x else true) && all_where p c xs
