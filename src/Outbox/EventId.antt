-- ===== src/Outbox/EventId.antt =====
-- make_event_id of src/kafka_outbox.cpp: the text of two random numbers.
pub mod Uniqueness
mod Tests
use mod_event_kafka.Common.{
  ℕ, zero, suc, ◌+◌, ◌-◌, ◌*◌, ◌/◌, ◌%◌, ◌^◌, ◌<◌, String, len, ◌≡◌, refl, ap, ◌∙◌, List, [], ◌∷◌,
  arith, text_append, ◌==◌, if◌then◌else◌,
}

abbrev pub digits : List String
digits =
    "0" ∷ "1" ∷ "2" ∷ "3" ∷ "4" ∷ "5" ∷ "6" ∷ "7" ∷ "8" ∷ "9" ∷ "a" ∷ "b" ∷ "c" ∷ "d" ∷ "e" ∷ "f"
    ∷ []

abbrev pub nth_or : String → List String → ℕ → String
nth_or d [] n = d
nth_or d (x ∷ xs) zero = x
nth_or d (x ∷ xs) (suc n) = nth_or d xs n

-- The w lowest digits of a number.
unfoldable pub low : ℕ → ℕ → String
unfolding text_append
low zero n = ""
low (suc w) n = text_append (low w (n / 16)) (nth_or "0" digits (n % 16))

-- The digits of a number without leading zeros, at most so many.
unfoldable pub high : ℕ → ℕ → String
unfolding text_append
high zero n = ""
high (suc k) n =
    let rest = high k (n / 16) in
    if n == 0 then "" else text_append rest (nth_or "0" digits (n % 16))

-- `%0wx` and `%0wllx`: at least w digits, and more if the number has more, which are 16 at most.
unfoldable pub hex : ℕ → ℕ → String
unfolding text_append low high
hex w n = text_append (high 16 (n / 16 ^ w)) (low w n)

-- The arguments of snprintf, from the draws a and b of the generator. The shifts are divisions, the
-- masks remainders, and 0x8000 is added to a number below it.
abbrev pub time_low : ℕ → ℕ
time_low a = a / 2 ^ 32 % 2 ^ 32

abbrev pub time_mid : ℕ → ℕ
time_mid a = a / 2 ^ 16 % 2 ^ 16

abbrev pub time_high : ℕ → ℕ
time_high a = a % 2 ^ 12

abbrev pub clock_part : ℕ → ℕ
clock_part b = 32768 + b / 2 ^ 48 % 2 ^ 14

abbrev pub node_part : ℕ → ℕ
node_part b = b % 2 ^ 48

unfoldable pub make_event_id : ℕ → ℕ → String
unfolding text_append hex
make_event_id a b = text_append (hex 8 (time_low a)) (
    text_append "-" (
      text_append (hex 4 (time_mid a)) (
        text_append "-4" (
          text_append (hex 3 (time_high a)) (
            text_append "-"
              (text_append (hex 4 (clock_part b)) (text_append "-" (hex 12 (node_part b)))))))))
