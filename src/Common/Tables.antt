-- ===== src/Common/Tables.antt =====
-- What the data statements of SQL do to the rows of a table: SELECT, UPDATE and DELETE with a
-- condition, and the aggregates count(*) and sum.
pub mod Keys
pub mod Select
use Prim.Native.Nat.{ℕ, zero, suc, ◌+◌, ◌≤◌}
use mathlib.Core.Path.{◌≡◌, refl, ap}
use mathlib.Core.List.{List, [], ◌∷◌, ◌++◌, map}
use mathlib.Core.Bool.{◌||◌, Bool, true, false, not}
use mathlib.Core.Option.{Option, none, some}
use native.Mathlib.Omega.{arith}
use mathlib.Core.Logic.{◌⊎◌, inl, inr}
use mod_event_kafka.Common.Tests.{if◌then◌else◌, Bool-cases, if_cases}
use mod_event_kafka.Common.Lists.{length, All, Pairwise, Memᴰ, here, there}

module _ {ℓ} {A : Type ℓ} where
  -- SELECT … WHERE, all rows in the order of the table.
  abbrev pub select_where : (A → Bool) → List A → List A
  select_where p [] = []
  select_where p (x ∷ xs) = if p x then x ∷ select_where p xs else select_where p xs

  -- The first row of such a query, if any.
  abbrev pub first_where : (A → Bool) → List A → Option A
  first_where p [] = none
  first_where p (x ∷ xs) = if p x then some x else first_where p xs

  -- UPDATE … SET … WHERE; the number of changed rows is `count_where`.
  abbrev pub update_where : (A → Bool) → (A → A) → List A → List A
  update_where p f [] = []
  update_where p f (x ∷ xs) = (if p x then f x else x) ∷ update_where p f xs

  -- DELETE … WHERE.
  abbrev pub delete_where : (A → Bool) → List A → List A
  delete_where p [] = []
  delete_where p (x ∷ xs) = if p x then delete_where p xs else x ∷ delete_where p xs

  abbrev pub count_where : (A → Bool) → List A → ℕ
  count_where p [] = 0
  count_where p (x ∷ xs) = (if p x then 1 else 0) + count_where p xs

  -- Whether a row meets the condition (SELECT 1 … WHERE).
  abbrev pub any_where : (A → Bool) → List A → Bool
  any_where p [] = false
  any_where p (x ∷ xs) = p x || any_where p xs

  abbrev pub sum_of : (A → ℕ) → List A → ℕ
  sum_of f [] = 0
  sum_of f (x ∷ xs) = f x + sum_of f xs

module _ {ℓ} {A : Type ℓ} where
  pub length-update_where :
      (p : A → Bool) (f : A → A) (xs : List A) → length (update_where p f xs) ≡ length xs
  length-update_where p f [] = refl
  length-update_where p f (x ∷ xs) = ap suc (length-update_where p f xs)

  pub length-delete_where-le : (p : A → Bool) (xs : List A) → length (delete_where p xs) ≤ length xs
  length-delete_where-le p [] = omega arith
  length-delete_where-le p (x ∷ xs) = ground (arith, length-delete_where-le p xs)

  pub sum_of-delete_where-le :
      (g : A → ℕ) (p : A → Bool) (xs : List A) → sum_of g (delete_where p xs) ≤ sum_of g xs
  sum_of-delete_where-le g p [] = omega arith
  sum_of-delete_where-le g p (x ∷ xs) = ground (arith, sum_of-delete_where-le g p xs)

  -- A condition that no row meets changes nothing.
  pub update_where_none :
      (p : A → Bool) (f : A → A) (xs : List A) → count_where p xs ≡ 0 → update_where p f xs ≡ xs
  update_where_none p f [] h = refl
  update_where_none p f (x ∷ xs) h = ground (arith, update_where_none p f xs)

  pub first_where_sound :
      (p : A → Bool) (xs : List A) (x : A) → first_where p xs ≡ some x → Memᴰ x xs × (p x ≡ true)
  first_where_sound p [] x h = cc
  first_where_sound p (y ∷ ys) x h = elim (Bool-cases (p y)) [
    | inl e ↦ let same : y ≡ x = ground arith in (rw same here, rw (← same) e)
    | inr e ↦ let (m, q) = first_where_sound p ys x (ground arith) in (there m, q)
  ]

module _ {ℓ κ} {A : Type ℓ} (P : A → Type κ) where
  pub All-update_where :
      (p : A → Bool) (f : A → A) (xs : List A)
      → ((x : A) → p x ≡ true → P x → P (f x))
      → All P xs
      → All P (update_where p f xs)
  All-update_where p f [] k h = tt
  All-update_where p f (x ∷ xs) k h =
      (if_cases P (p x) (λ e. k x e h.0) (λ e. h.0), All-update_where p f xs k h.1)

  pub All-delete_where : (p : A → Bool) (xs : List A) → All P xs → All P (delete_where p xs)
  All-delete_where p [] h = tt
  All-delete_where p (x ∷ xs) h =
      let rest = All-delete_where p xs h.1 in if_cases (All P) (p x) (λ e. rest) (λ e. (h.0, rest))
