-- ===== src/Outbox/EventId/Uniqueness.antt =====
-- Which draws an event id tells apart.
use mod_event_kafka.Common.{
  ℕ, zero, suc, ◌+◌, ◌/◌, ◌%◌, ◌^◌, ◌<◌, String, len, ◌≡◌, refl, sym, ap, ◌∙◌, List, [], ◌∷◌, arith,
  text_append, text_eq, All, Bool-cases, inl, inr, ◌==◌, ==_iff, subst, ◌≤◌, if◌then◌else◌,
}
use text.Mathlib.TextLemmas.{append_cancel_left, nil-append}
use text.Mathlib.TextPositions.{len-append, slice-append_left}
use Prim.Native.String.{◌++◌, slice}
use mod_event_kafka.Outbox.EventId.{
  digits, nth_or, low, high, hex, time_low, time_mid, time_high, clock_part, node_part,
  make_event_id,
}

len-text_append : (s t : String) → len (text_append s t) ≡ len s + len t
unfolding text_append
len-text_append s t = len-append s t

len-nth_or :
    (d : String) (xs : List String) (n : ℕ)
    → len d ≡ 1
    → All (λ x. len x ≡ 1) xs
    → len (nth_or d xs n) ≡ 1
len-nth_or d [] n h k = h
len-nth_or d (x ∷ xs) zero h k = k.0
len-nth_or d (x ∷ xs) (suc n) h k = len-nth_or d xs n h k.1

digits-len : All (λ x. len x ≡ 1) digits
digits-len = (
  refl,
  (
    refl,
    (
      refl,
      (
        refl,
        (
          refl,
          (
            refl,
            (refl, (refl, (refl, (refl, (refl, (refl, (refl, (refl, (refl, (refl, tt)))))))))),
          ),
        ),
      ),
    ),
  ),
)

len-low : (w n : ℕ) → len (low w n) ≡ w
unfolding low
len-low zero n = refl
len-low (suc w) n =
    len-text_append (low w (n / 16)) (nth_or "0" digits (n % 16))
    ∙ omega (arith, len-low w (n / 16), len-nth_or "0" digits (n % 16) refl digits-len)

-- Two texts that part at the same place agree on both sides of it.
append-parts :
    (s t s' t' : String)
    → len s ≡ len s'
    → text_append s t ≡ text_append s' t'
    → (s ≡ s') × (t ≡ t')
unfolding text_append
append-parts s t s' t' h e =
    let first : s ≡ s' =
      sym (slice-append_left s t)
      ∙ ap (λ x. slice x 0 (len s)) e
      ∙ ap (λ n. slice (s' ++ t') 0 n) h
      ∙ slice-append_left s' t' in
    let whole : s' ++ t ≡ s' ++ t' = ap (λ x. x ++ t) (sym first) ∙ e in
    (first, append_cancel_left s' t t' whole)

abbrev value_of : String → ℕ
value_of s = position digits 0
  where
    position : List String → ℕ → ℕ
    position [] n = 0
    position (d ∷ ds) n = let later = position ds (n + 1) in if text_eq s d then n else later

-- The numbers from k on, m of them.
abbrev numbers_from : ℕ → ℕ → List ℕ
numbers_from k zero = []
numbers_from k (suc m) = k ∷ numbers_from (k + 1) m

All-numbers_from : (P : ℕ → Type 0) (k m n : ℕ) → All P (numbers_from k m) → k ≤ n → n < k + m → P n
All-numbers_from P k zero n h low high = absurd (omega arith)
All-numbers_from P k (suc m) n h low high = elim (Bool-cases (k == n)) [
  | inl e ↦ let same : k ≡ n = ground (arith, ==_iff k n) in subst P same h.0
  | inr e ↦ All-numbers_from P (k + 1) m n h.1 (ground (arith, ==_iff k n)) (omega arith)
]

digit-value : (n : ℕ) → n < 16 → value_of (nth_or "0" digits n) ≡ n
unfolding text_eq
digit-value n h =
    All-numbers_from (λ k. value_of (nth_or "0" digits k) ≡ k) 0 16 n
      (
        refl,
        (
          refl,
          (
            refl,
            (
              refl,
              (
                refl,
                (
                  refl,
                  (
                    refl,
                    (refl, (refl, (refl, (refl, (refl, (refl, (refl, (refl, (refl, tt))))))))),
                  ),
                ),
              ),
            ),
          ),
        ),
      )
      (omega arith) h

-- A number below 16^w can be read back from its w digits.
low-injective : (w n m : ℕ) → n < 16 ^ w → m < 16 ^ w → low w n ≡ low w m → n ≡ m
unfolding low
low-injective zero n m h k e = omega arith
low-injective (suc w) n m h k e =
    let (high, low) =
      append-parts (low w (n / 16)) (nth_or "0" digits (n % 16)) (low w (m / 16))
        (nth_or "0" digits (m % 16)) (len-low w (n / 16) ∙ sym (len-low w (m / 16))) e in
    let same : n / 16 ≡ m / 16 =
      low-injective w (n / 16) (m / 16) (omega arith) (omega arith) high in
    let last : n % 16 ≡ m % 16 =
      sym (digit-value (n % 16) (omega arith))
      ∙ ap value_of low
      ∙ digit-value (m % 16) (omega arith) in
    omega arith

same-len : (w n m : ℕ) → len (low w n) ≡ len (low w m)
same-len w n m = len-low w n ∙ sym (len-low w m)

-- A number below 16^w is printed with its w digits and no more.
hex-low : (w n : ℕ) → n / 16 ^ w ≡ 0 → hex w n ≡ low w n
unfolding hex high text_append
hex-low w n h = rw h (nil-append (low w n))

-- Every part of an id is below the power of 16 that its width allows.
make_event_id-low :
    (a b : ℕ)
    → make_event_id a b
      ≡ text_append (low 8 (time_low a)) (
          text_append "-" (
            text_append (low 4 (time_mid a)) (
              text_append "-4" (
                text_append (low 3 (time_high a)) (
                  text_append "-" (
                    text_append
                      (low 4 (clock_part b))
                      (text_append "-" (low 12 (node_part b)))))))))
unfolding make_event_id
make_event_id-low a b =
    rw
      (
        hex-low 8 (time_low a) (omega arith),
        hex-low 4 (time_mid a) (omega arith),
        hex-low 3 (time_high a) (omega arith),
        hex-low 4 (clock_part b) (omega arith),
        hex-low 12 (node_part b) (omega arith),
      )
      refl

-- Two draws of the generator give the same id only if the first agree in the upper 48 of their 64
-- bits and in the lowest 12, and the second in the lowest 62: 122 bits in all.
pub make_event_id-injective :
    (a b a' b' : ℕ)
    → make_event_id a b ≡ make_event_id a' b'
    → (a / 2 ^ 16 % 2 ^ 48 ≡ a' / 2 ^ 16 % 2 ^ 48)
      × (a % 2 ^ 12 ≡ a' % 2 ^ 12)
      × (b % 2 ^ 62 ≡ b' % 2 ^ 62)
make_event_id-injective a b a' b' e =
    let printed = sym (make_event_id-low a b) ∙ e ∙ make_event_id-low a' b' in
    let (e1, r1) =
      append-parts (low 8 (time_low a)) _ (low 8 (time_low a')) _ (same-len 8 _ _) printed in
    let r2 = (append-parts "-" _ "-" _ refl r1).1 in
    let (e3, r3) =
      append-parts (low 4 (time_mid a)) _ (low 4 (time_mid a')) _ (same-len 4 _ _) r2 in
    let r4 = (append-parts "-4" _ "-4" _ refl r3).1 in
    let (e5, r5) =
      append-parts (low 3 (time_high a)) _ (low 3 (time_high a')) _ (same-len 3 _ _) r4 in
    let r6 = (append-parts "-" _ "-" _ refl r5).1 in
    let (e7, r7) =
      append-parts (low 4 (clock_part b)) _ (low 4 (clock_part b')) _ (same-len 4 _ _) r6 in
    let e8 = (append-parts "-" _ "-" _ refl r7).1 in
    let h1 = low-injective 8 (time_low a) (time_low a') (omega arith) (omega arith) e1 in
    let h3 = low-injective 4 (time_mid a) (time_mid a') (omega arith) (omega arith) e3 in
    let h5 = low-injective 3 (time_high a) (time_high a') (omega arith) (omega arith) e5 in
    let h7 = low-injective 4 (clock_part b) (clock_part b') (omega arith) (omega arith) e7 in
    let h8 = low-injective 12 (node_part b) (node_part b') (omega arith) (omega arith) e8 in
    (omega (arith, h1, h3), h5, omega (arith, h7, h8))

joined : (s t : String) {m n : ℕ} → len s ≡ m → len t ≡ n → len (text_append s t) ≡ m + n
joined s t {m} {n} h k = len-text_append s t ∙ ap (λ x. x + len t) h ∙ ap (λ x. m + x) k

-- An id has 36 characters, so that it and its end fill the buffer of snprintf and no more: every part
-- of it fits the width that its format gives as the least one.
pub len-make_event_id : (a b : ℕ) → len (make_event_id a b) ≡ 36
len-make_event_id a b =
    ap len (make_event_id-low a b)
    ∙ joined (low 8 (time_low a)) _ (len-low 8 _) (
        joined "-" _ refl (
          joined (low 4 (time_mid a)) _ (len-low 4 _) (
            joined "-4" _ refl (
              joined (low 3 (time_high a)) _ (len-low 3 _) (
                joined "-" _ refl (
                  joined (low 4 (clock_part b)) _ (len-low 4 _)
                    (joined "-" (low 12 (node_part b)) refl (len-low 12 _))))))))
