-- ===== src/Common/Lists.antt =====
-- Lists measured by native numbers, predicates on all entries, and membership as data.
use Prim.Native.Nat.{ℕ, zero, suc, ◌+◌}
use mathlib.Core.Path.{◌≡◌, sym, ap, ◌∙◌}
use mathlib.Core.List.{List, [], ◌∷◌, ◌++◌, map, append_assoc, reverse, reverse-append}
use native.Mathlib.Omega.{arith}

module _ {ℓ} {A : Type ℓ} where
  abbrev pub length : List A → ℕ
  length [] = 0
  length (x ∷ xs) = suc (length xs)

  abbrev pub take : ℕ → List A → List A
  take zero xs = []
  take (suc n) [] = []
  take (suc n) (x ∷ xs) = x ∷ take n xs

  -- Membership with its position, to be matched.
  pub data Memᴰ (a : A) : List A → Type ℓ where
    here : {xs : List A} → Memᴰ a (a ∷ xs)
    there : {x : A} {xs : List A} → Memᴰ a xs → Memᴰ a (x ∷ xs)

  abbrev pub All {κ} : (A → Type κ) → List A → Type κ
  All P [] = Unit
  All P (x ∷ xs) = P x × All P xs

  -- Every entry is related to each later one.
  abbrev pub Pairwise {κ} : (A → A → Type κ) → List A → Type κ
  Pairwise R [] = Unit
  Pairwise R (x ∷ xs) = All (R x) xs × Pairwise R xs

module _ {ℓ} {A : Type ℓ} where
  pub length-append : (xs ys : List A) → length (xs ++ ys) ≡ length xs + length ys
  length-append [] ys = omega arith
  length-append (x ∷ xs) ys = omega (arith, length-append xs ys)

  pub All-append {κ} : (P : A → Type κ) (xs ys : List A) → All P xs → All P ys → All P (xs ++ ys)
  All-append P [] ys hx hy = hy
  All-append P (x ∷ xs) ys hx hy = (hx.0, All-append P xs ys hx.1 hy)

  pub All-mono {κ μ} :
      (P : A → Type κ) (Q : A → Type μ) (xs : List A) → ((x : A) → P x → Q x) → All P xs → All Q xs
  All-mono P Q [] f h = tt
  All-mono P Q (x ∷ xs) f h = (f x h.0, All-mono P Q xs f h.1)

  pub All-Mem {κ} : (P : A → Type κ) {a : A} (xs : List A) → Memᴰ a xs → All P xs → P a
  All-Mem P [] m h = elim m [ ]
  All-Mem P (x ∷ xs) here h = h.0
  All-Mem P (x ∷ xs) (there m) h = All-Mem P xs m h.1

  pub Pairwise-snoc {κ} :
      (R : A → A → Type κ) (xs : List A) (y : A)
      → Pairwise R xs
      → All (λ x. R x y) xs
      → Pairwise R (xs ++ y ∷ [])
  Pairwise-snoc R [] y h k = (tt, tt)
  Pairwise-snoc R (x ∷ xs) y h k =
      (All-append (R x) xs (y ∷ []) h.0 (k.0, tt), Pairwise-snoc R xs y h.1 k.1)

module _ {ℓ} {A : Type ℓ} where
  pub All-members : (xs : List A) → All (λ x. Memᴰ x xs) xs
  All-members [] = tt
  All-members (x ∷ xs) = (here, All-mono _ _ xs (λ y m. there m) (All-members xs))

  pub All-map {κ μ} :
      {B : Type κ} (P : B → Type μ) (f : A → B) (xs : List A)
      → All (λ x. P (f x)) xs
      → All P (map f xs)
  All-map P f [] h = tt
  All-map P f (x ∷ xs) h = (h.0, All-map P f xs h.1)

  pub Memᴰ-append_left : (a : A) (xs ys : List A) → Memᴰ a xs → Memᴰ a (xs ++ ys)
  Memᴰ-append_left a [] ys m = elim m [ ]
  Memᴰ-append_left a (a' ∷ xs) ys here = here
  Memᴰ-append_left a (x ∷ xs) ys (there m) = there (Memᴰ-append_left a xs ys m)

pub Memᴰ-append_right {ℓ} : {A : Type ℓ} (a : A) (xs ys : List A) → Memᴰ a ys → Memᴰ a (xs ++ ys)
Memᴰ-append_right a [] ys m = m
Memᴰ-append_right a (x ∷ xs) ys m = there (Memᴰ-append_right a xs ys m)

pub Memᴰ-map {ℓ κ} :
    {A : Type ℓ} {B : Type κ} (f : A → B) (a : A) (xs : List A) → Memᴰ a xs → Memᴰ (f a) (map f xs)
Memᴰ-map f a [] m = elim m [ ]
Memᴰ-map f a (a' ∷ xs) here = here
Memᴰ-map f a (x ∷ xs) (there m) = there (Memᴰ-map f a xs m)

pub All-reverse {ℓ κ} : {A : Type ℓ} (P : A → Type κ) (xs : List A) → All P xs → All P (reverse xs)
unfolding reverse
All-reverse P [] h = tt
All-reverse P (x ∷ xs) h =
    rw (reverse-append (x ∷ []) xs)
      (All-append P (reverse xs) (x ∷ []) (All-reverse P xs h.1) (h.0, tt))

-- Two steps of a queue are one.
pub append_steps {ℓ} :
    {A : Type ℓ} (out w w1 into outs w' ins : List A)
    → out ++ w1 ≡ w ++ into
    → outs ++ w' ≡ w1 ++ ins
    → (out ++ outs) ++ w' ≡ w ++ (into ++ ins)
append_steps out w w1 into outs w' ins h k =
    append_assoc out outs w'
    ∙ ap (λ l. out ++ l) k
    ∙ sym (append_assoc out w1 ins)
    ∙ ap (λ l. l ++ ins) h
    ∙ append_assoc w into ins
