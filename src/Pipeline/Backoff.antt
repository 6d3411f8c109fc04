-- ===== src/Pipeline/Backoff.antt =====
-- attempt_backoff_ms of src/kafka_pipeline.cpp.
use mod_event_kafka.Common.{
  ℕ, zero, suc, ◌+◌, ◌-◌, ◌*◌, ◌%◌, ◌^◌, ◌≤◌, ◌<◌, min, ◌≡◌, refl, Bool, true, false, ◌&&◌, arith,
  ltb, if◌then◌else◌, ℤ, pos, negsuc, pos_part,
}

-- `x < y` on int.
abbrev pub int_lt : ℤ → ℤ → Bool
int_lt (pos m) (pos n) = ltb m n
int_lt (pos m) (negsuc n) = false
int_lt (negsuc m) (pos n) = true
int_lt (negsuc m) (negsuc n) = ltb n m

-- The loop from `i` on; its counter stops at 8, so 7 rounds from 1 are enough.
unfoldable pub doubled : ℕ → ℤ → ℕ → ℕ → ℕ
doubled zero attempts i base = base
doubled (suc rounds) attempts i base =
    let rest = doubled rounds attempts (i + 1) (base * 2) in
    if int_lt (pos i) attempts && ltb i 8 then rest else base

-- The delay before the next try; `wall` is the clock that the jitter is taken from.
unfoldable pub attempt_backoff_ms : ℤ → ℕ → ℕ
unfolding doubled
attempt_backoff_ms attempts wall =
    let base = doubled 7 attempts 1 200 in (if ltb 30000 base then 30000 else base) + wall % 97

doubled_lem : (n : ℕ) → doubled 7 (pos n) 1 200 ≡ 200 * 2 ^ min (n - 1) 7
unfolding doubled
doubled_lem zero = refl
doubled_lem (suc zero) = refl
doubled_lem (suc (suc zero)) = refl
doubled_lem (suc (suc (suc zero))) = refl
doubled_lem (suc (suc (suc (suc zero)))) = refl
doubled_lem (suc (suc (suc (suc (suc zero))))) = refl
doubled_lem (suc (suc (suc (suc (suc (suc zero)))))) = refl
doubled_lem (suc (suc (suc (suc (suc (suc (suc zero))))))) = refl
doubled_lem (suc (suc (suc (suc (suc (suc (suc (suc n)))))))) =
    let most : min (suc (suc (suc (suc (suc (suc (suc (suc n))))))) - 1) 7 ≡ 7 = omega arith in
    rw most (ground arith)

doubled_stops : (k : ℕ) (attempts : ℤ) (base : ℕ) → doubled k attempts 8 base ≡ base
unfolding doubled
doubled_stops zero attempts base = refl
doubled_stops (suc k) attempts base = ground arith

-- More rounds than 7 change nothing.
doubled_enough : (k : ℕ) (attempts : ℤ) → doubled (k + 7) attempts 1 200 ≡ doubled 7 attempts 1 200
unfolding doubled
doubled_enough k attempts =
    let seven : k + 7 ≡ suc (suc (suc (suc (suc (suc (suc k)))))) = omega arith in
    rw (seven, doubled_stops k attempts 25600) refl

doubled_negative : (n : ℕ) → doubled 7 (negsuc n) 1 200 ≡ 200
unfolding doubled
doubled_negative n = refl

doubled_bound : (attempts : ℤ) → doubled 7 attempts 1 200 ≤ 25600
unfolding doubled
doubled_bound attempts = ground arith

doubled_cases : (attempts : ℤ) → doubled 7 attempts 1 200 ≡ 200 * 2 ^ min (pos_part attempts - 1) 7
doubled_cases (pos n) = doubled_lem n
doubled_cases (negsuc n) = doubled_negative n

-- The delay is 200 ms doubled for each try after the first, up to seven times, with a jitter below
-- 97 ms; so it is below the 30 s of the source's limit, and more rounds of the loop change nothing.
pub attempt_backoff_lem :
    (attempts : ℤ) (wall : ℕ)
    → (attempt_backoff_ms attempts wall ≡ 200 * 2 ^ min (pos_part attempts - 1) 7 + wall % 97)
      × (attempt_backoff_ms attempts wall < 30000)
      × ((k : ℕ) → doubled (k + 7) attempts 1 200 ≡ doubled 7 attempts 1 200)
unfolding attempt_backoff_ms
attempt_backoff_lem attempts wall =
    let small = doubled_bound attempts in
    let rest : wall % 97 < 97 = omega arith in
    (ground (arith, doubled_cases attempts), ground arith, λ k. doubled_enough k attempts)
