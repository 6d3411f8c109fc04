-- ===== src/Outbox/Queries/Sorting.antt =====
-- What ORDER BY and LIMIT keep of the rows they are given.
use mod_event_kafka.Common.{
  ℕ, zero, suc, Bool, List, [], ◌∷◌, if_cases, take, All, Pairwise, ℤ, pos, negsuc,
}
use mod_event_kafka.Outbox.Schema.{Row}
use mod_event_kafka.Outbox.Queries.{insert_by, sort_by, limit_to}

module _ (before : Row → Row → Bool) where
  pub All-insert_by {κ} :
      (P : Row → Type κ) (x : Row) (ys : List Row) → P x → All P ys → All P (insert_by before x ys)
  unfolding insert_by
  All-insert_by P x [] h k = (h, tt)
  All-insert_by P x (y ∷ ys) h k =
      if_cases (All P) (before y x) (λ _. (k.0, All-insert_by P x ys h k.1)) (λ _. (h, k))

  pub All-sort_by {κ} : (P : Row → Type κ) (xs : List Row) → All P xs → All P (sort_by before xs)
  unfolding sort_by
  All-sort_by P [] h = tt
  All-sort_by P (x ∷ xs) h = All-insert_by P x _ h.0 (All-sort_by P xs h.1)

  module _ {κ} (R : Row → Row → Type κ) (s : (x y : Row) → R x y → R y x) where
    Pairwise-insert_by :
        (x : Row) (ys : List Row)
        → All (R x) ys
        → Pairwise R ys
        → Pairwise R (insert_by before x ys)
    unfolding insert_by
    Pairwise-insert_by x [] h k = (tt, tt)
    Pairwise-insert_by x (y ∷ ys) h k =
        if_cases (Pairwise R) (before y x)
          (λ _. (All-insert_by (R y) x ys (s x y h.0) k.0, Pairwise-insert_by x ys h.1 k.1))
          (λ _. (h, k))

    pub Pairwise-sort_by : (xs : List Row) → Pairwise R xs → Pairwise R (sort_by before xs)
    unfolding sort_by
    Pairwise-sort_by [] h = tt
    Pairwise-sort_by (x ∷ xs) h =
        Pairwise-insert_by x _ (All-sort_by (R x) xs h.0) (Pairwise-sort_by xs h.1)

All-take {ℓ κ} : {A : Type ℓ} (P : A → Type κ) (n : ℕ) (xs : List A) → All P xs → All P (take n xs)
All-take P zero xs h = tt
All-take P (suc n) [] h = tt
All-take P (suc n) (x ∷ xs) h = (h.0, All-take P n xs h.1)

Pairwise-take {ℓ κ} :
    {A : Type ℓ} (R : A → A → Type κ) (n : ℕ) (xs : List A) → Pairwise R xs → Pairwise R (take n xs)
Pairwise-take R zero xs h = tt
Pairwise-take R (suc n) [] h = tt
Pairwise-take R (suc n) (x ∷ xs) h = (All-take (R x) n xs h.0, Pairwise-take R n xs h.1)

pub All-limit_to {κ} : (P : Row → Type κ) (z : ℤ) (xs : List Row) → All P xs → All P (limit_to z xs)
All-limit_to P (pos n) xs h = All-take P n xs h
All-limit_to P (negsuc n) xs h = h

pub Pairwise-limit_to {κ} :
    (R : Row → Row → Type κ) (z : ℤ) (xs : List Row) → Pairwise R xs → Pairwise R (limit_to z xs)
Pairwise-limit_to R (pos n) xs h = Pairwise-take R n xs h
Pairwise-limit_to R (negsuc n) xs h = h
