-- ===== src/Common/Tables/Keys.antt =====
-- Rows found by key, and tables whose rows differ pairwise, under UPDATE, DELETE and INSERT.
use Prim.Native.Nat.{◌≤◌}
use mathlib.Core.Path.{◌≡◌, refl}
use mathlib.Core.Logic.{◌⊎◌, inl, inr}
use mathlib.Core.List.{List, [], ◌∷◌, ◌++◌}
use mathlib.Core.Bool.{Bool, true, false}
use mathlib.Core.Option.{none, some}
use native.Mathlib.Omega.{arith}
use mod_event_kafka.Common.Tests.{if◌then◌else◌, Bool-cases, if_cases}
use mod_event_kafka.Common.Lists.{All, Pairwise, Memᴰ, here, there, All-Mem, All-mono}
use mod_event_kafka.Common.Tables.{
  first_where, update_where, delete_where, any_where, count_where, All-update_where,
  All-delete_where,
}

module _ {ℓ} {A : Type ℓ} where
  pub first_where-update_where :
      (p q : A → Bool) (f : A → A) (xs : List A) (x : A)
      → ((y : A) → p (f y) ≡ p y)
      → first_where p xs ≡ some x
      → first_where p (update_where q f xs) ≡ some (if q x then f x else x)
  first_where-update_where p q f [] x k h = cc
  first_where-update_where p q f (y ∷ ys) x k h =
      ground (arith, k y, first_where-update_where p q f ys x k)

  pub first_where-update_where-none :
      (p q : A → Bool) (f : A → A) (xs : List A)
      → ((y : A) → p (f y) ≡ p y)
      → first_where p xs ≡ none
      → first_where p (update_where q f xs) ≡ none
  first_where-update_where-none p q f [] k h = refl
  first_where-update_where-none p q f (y ∷ ys) k h =
      ground (arith, k y, first_where-update_where-none p q f ys k)

  pub first_where-append :
      (p : A → Bool) (xs ys : List A) (x : A)
      → first_where p xs ≡ some x
      → first_where p (xs ++ ys) ≡ some x
  first_where-append p [] ys x h = cc
  first_where-append p (y ∷ xs) ys x h = ground (arith, first_where-append p xs ys x)

  pub first_where-append_none :
      (p : A → Bool) (xs ys : List A)
      → first_where p xs ≡ none
      → first_where p (xs ++ ys) ≡ first_where p ys
  first_where-append_none p [] ys h = refl
  first_where-append_none p (y ∷ xs) ys h = ground (arith, first_where-append_none p xs ys)

  -- A failed search is a fact about every row.
  pub first_where-none :
      (p : A → Bool) (xs : List A) → first_where p xs ≡ none → All (λ x. p x ≡ false) xs
  first_where-none p [] h = tt
  first_where-none p (x ∷ xs) h = ground (arith, first_where-none p xs)

  pub any_where-false :
      (p : A → Bool) (xs : List A) → any_where p xs ≡ false → All (λ x. p x ≡ false) xs
  any_where-false p [] h = tt
  any_where-false p (x ∷ xs) h = ground (arith, any_where-false p xs)

  pub count_where-pos :
      (p : A → Bool) (xs : List A) → 1 ≤ count_where p xs → (x : A) × Memᴰ x xs × (p x ≡ true)
  count_where-pos p [] h = absurd (omega arith)
  count_where-pos p (x ∷ xs) h = elim (Bool-cases (p x)) [
    | inl e ↦ (x, here, e)
    | inr e ↦ let (y, m, q) = count_where-pos p xs (ground arith) in (y, there m, q)
  ]

module _ {ℓ κ} {A : Type ℓ} (P : A → Type κ) where
  -- What the kept rows satisfy, given that they do not meet the condition.
  pub All-delete_where_ne :
      (p : A → Bool) (xs : List A) → All (λ x. p x ≡ false → P x) xs → All P (delete_where p xs)
  All-delete_where_ne p [] h = tt
  All-delete_where_ne p (x ∷ xs) h =
      let rest = All-delete_where_ne p xs h.1 in
      if_cases (All P) (p x) (λ e. rest) (λ e. (h.0 e, rest))

module _ {ℓ κ μ} {A : Type ℓ} (P : A → Type κ) (Q : A → Type μ) where
  pub All-update_where_to :
      (p : A → Bool) (f : A → A) (xs : List A)
      → ((x : A) → P x → Q (if p x then f x else x))
      → All P xs
      → All Q (update_where p f xs)
  All-update_where_to p f [] k h = tt
  All-update_where_to p f (x ∷ xs) k h = (k x h.0, All-update_where_to p f xs k h.1)

  pub All-both : (xs : List A) → All P xs → All Q xs → All (λ x. P x × Q x) xs
  All-both [] h k = tt
  All-both (x ∷ xs) h k = ((h.0, k.0), All-both xs h.1 k.1)

module _ {ℓ κ} {A : Type ℓ} (R : A → A → Type κ) where
  pub Pairwise-update_where :
      (p : A → Bool) (f : A → A) (xs : List A)
      → ((x y : A) → R x y → R (f x) y)
      → ((x y : A) → R x y → R x (f y))
      → Pairwise R xs
      → Pairwise R (update_where p f xs)
  Pairwise-update_where p f [] l r h = tt
  Pairwise-update_where p f (x ∷ xs) l r h =
      let base : All (R x) (update_where p f xs) =
        All-update_where (R x) p f xs (λ y _ k. r x y k) h.0 in
      (
        if_cases (λ z. All (R z) (update_where p f xs)) (p x)
            (λ e. All-mono (R x) (R (f x)) (update_where p f xs) (λ y k. l x y k) base) (λ e. base),
        Pairwise-update_where p f xs l r h.1,
      )

  pub Pairwise-delete_where :
      (p : A → Bool) (xs : List A) → Pairwise R xs → Pairwise R (delete_where p xs)
  Pairwise-delete_where p [] h = tt
  Pairwise-delete_where p (x ∷ xs) h =
      let rest = Pairwise-delete_where p xs h.1 in
      if_cases (Pairwise R) (p x) (λ e. rest) (λ e. (All-delete_where (R x) p xs h.0, rest))

  -- A row is the given one or is related to it.
  pub Pairwise-Mem :
      (xs : List A) (a : A)
      → ((x y : A) → R x y → R y x)
      → Memᴰ a xs
      → Pairwise R xs
      → All (λ x. (x ≡ a) ⊎ R a x) xs
  Pairwise-Mem [] a s m h = elim m [ ]
  Pairwise-Mem (a' ∷ xs) a s here h = (inl refl, All-mono (R a') _ xs (λ x k. inr k) h.0)
  Pairwise-Mem (x ∷ xs) a s (there m) h =
      (inr (s x a (All-Mem (R x) xs m h.0)), Pairwise-Mem xs a s m h.1)

-- A condition that at most one row can meet, since the rows that meet it are not related.
module _ {ℓ κ} {A : Type ℓ} (R : A → A → Type κ) (p : A → Bool) where
  count_where_zero : (xs : List A) → All (λ x. p x ≡ false) xs → count_where p xs ≡ 0
  count_where_zero [] h = refl
  count_where_zero (x ∷ xs) h = ground (arith, count_where_zero xs h.1)

  none_after :
      (x : A) (xs : List A)
      → ((y : A) → p y ≡ true → R x y → ⊥)
      → All (R x) xs
      → count_where p xs ≡ 0
  none_after x [] k h = refl
  none_after x (y ∷ ys) k h = elim (Bool-cases (p y)) [
    | inl e ↦ absurd (k y e h.0)
    | inr e ↦ rw e (omega (arith, none_after x ys k h.1))
  ]

  pub count_where-le-one :
      (xs : List A)
      → ((x y : A) → p x ≡ true → p y ≡ true → R x y → ⊥)
      → Pairwise R xs
      → count_where p xs ≤ 1
  count_where-le-one [] k h = omega arith
  count_where-le-one (x ∷ xs) k h = elim (Bool-cases (p x)) [
    | inl e ↦ rw e (omega (arith, none_after x xs (λ y q r. k x y e q r) h.0))
    | inr e ↦ rw e (omega (arith, count_where-le-one xs k h.1))
  ]

  pub count_where-Mem : (a : A) (xs : List A) → Memᴰ a xs → p a ≡ true → 1 ≤ count_where p xs
  count_where-Mem a [] m e = elim m [ ]
  count_where-Mem a (a' ∷ xs) here e = rw e (omega arith)
  count_where-Mem a (x ∷ xs) (there m) e = omega (arith, count_where-Mem a xs m e)

  -- The only row that meets the condition is the first one.
  pub first_where-only :
      (a : A) (xs : List A)
      → ((x y : A) → p x ≡ true → p y ≡ true → R x y → ⊥)
      → Memᴰ a xs
      → p a ≡ true
      → Pairwise R xs
      → first_where p xs ≡ some a
  first_where-only a [] k m e h = elim m [ ]
  first_where-only a (a' ∷ xs) k here e h = rw e
  first_where-only a (x ∷ xs) k (there m) e h = elim (Bool-cases (p x)) [
    | inl q ↦ absurd (k x a q e (All-Mem (R x) xs m h.0))
    | inr q ↦ rw q (first_where-only a xs k m e h.1)
  ]
