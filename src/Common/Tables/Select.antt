-- ===== src/Common/Tables/Select.antt =====
-- The rows that a query selects, after an UPDATE, a DELETE or an INSERT.
use mathlib.Core.Path.{◌≡◌, refl}
use mathlib.Core.List.{List, [], ◌∷◌, ◌++◌, map}
use mathlib.Core.Bool.{Bool, true, false}
use native.Mathlib.Omega.{arith}
use mod_event_kafka.Common.Tests.{if_cases}
use mod_event_kafka.Common.Lists.{All, Pairwise, Memᴰ, here, there}
use mod_event_kafka.Common.Tables.{select_where, update_where, delete_where}

module _ {ℓ κ} {A : Type ℓ} {B : Type κ} (P : A → Bool) (g : A → B) where
  -- A change that the query and the column do not see.
  pub select_where-update_where :
      (p : A → Bool) (f : A → A) (xs : List A)
      → ((x : A) → P (f x) ≡ P x)
      → ((x : A) → g (f x) ≡ g x)
      → map g (select_where P (update_where p f xs)) ≡ map g (select_where P xs)
  select_where-update_where p f [] h k = refl
  select_where-update_where p f (x ∷ xs) h k =
      ground (arith, h x, k x, select_where-update_where p f xs h k)

  -- A DELETE after an UPDATE that neither the query, the column nor the DELETE sees.
  pub column-delete_where :
      (q p : A → Bool) (f : A → A) (xs : List A)
      → ((x : A) → P (f x) ≡ P x)
      → ((x : A) → q (f x) ≡ q x)
      → ((x : A) → g (f x) ≡ g x)
      → map g (select_where P (delete_where q (update_where p f xs)))
        ≡ map g (delete_where q (select_where P xs))
  column-delete_where q p f [] h j k = refl
  column-delete_where q p f (x ∷ xs) h j k =
      ground (arith, h x, j x, k x, column-delete_where q p f xs h j k)

module _ {ℓ} {A : Type ℓ} (P : A → Bool) where
  pub select_where-delete_where :
      (q : A → Bool) (xs : List A)
      → select_where P (delete_where q xs) ≡ delete_where q (select_where P xs)
  select_where-delete_where q [] = refl
  select_where-delete_where q (x ∷ xs) = ground (arith, select_where-delete_where q xs)

  pub delete_where_none : (xs : List A) → All (λ x. P x ≡ false) xs → delete_where P xs ≡ xs
  delete_where_none [] h = refl
  delete_where_none (x ∷ xs) h = ground (arith, delete_where_none xs h.1)

  pub select_where-append :
      (xs ys : List A) → select_where P (xs ++ ys) ≡ select_where P xs ++ select_where P ys
  select_where-append [] ys = refl
  select_where-append (x ∷ xs) ys = ground (arith, select_where-append xs ys)

  pub All-select_where {κ} : (Q : A → Type κ) (xs : List A) → All Q xs → All Q (select_where P xs)
  All-select_where Q [] h = tt
  All-select_where Q (x ∷ xs) h =
      let rest = All-select_where Q xs h.1 in if_cases (All Q) (P x) (λ e. (h.0, rest)) (λ e. rest)

  pub All-selected : (xs : List A) → All (λ x. P x ≡ true) (select_where P xs)
  All-selected [] = tt
  All-selected (x ∷ xs) =
      let rest = All-selected xs in if_cases (All _) (P x) (λ e. (e, rest)) (λ e. rest)

  pub Pairwise-select_where {κ} :
      (R : A → A → Type κ) (xs : List A) → Pairwise R xs → Pairwise R (select_where P xs)
  Pairwise-select_where R [] h = tt
  Pairwise-select_where R (x ∷ xs) h =
      let rest = Pairwise-select_where R xs h.1 in
      if_cases (Pairwise R) (P x) (λ e. (All-select_where (R x) xs h.0, rest)) (λ e. rest)

  pub Memᴰ-select_where :
      (a : A) (xs : List A) → P a ≡ true → Memᴰ a xs → Memᴰ a (select_where P xs)
  Memᴰ-select_where a [] h m = elim m [ ]
  Memᴰ-select_where a (a' ∷ xs) h here = rw h here
  Memᴰ-select_where a (x ∷ xs) h (there m) =
      let rest = Memᴰ-select_where a xs h m in if_cases (Memᴰ a) (P x) (λ e. there rest) (λ e. rest)
