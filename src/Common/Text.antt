-- ===== src/Common/Text.antt =====
-- Equality and emptiness of texts (std::string and SQLite's TEXT).
use Prim.Native.Nat.{ℕ}
use Prim.Native.String.{String, ◌++◌, len, slice}
use mathlib.Core.Path.{◌≡◌}
use mathlib.Core.Logic.{◌↔◌, ◌≢◌}
use mathlib.Core.Bool.{Bool, true, false}
use native.Mathlib.Omega.{arith}
use text.Mathlib.Text.{◌==◌, starts_with}
use text.Mathlib.TextEquality.{eq_iff}

unfoldable pub text_eq : String → String → Bool
text_eq s t = s == t

unfoldable pub is_empty : String → Bool
is_empty s = s == ""

pub text_eq_iff : (s t : String) → (text_eq s t ≡ true) ↔ (s ≡ t)
unfolding text_eq
text_eq_iff s t = eq_iff s t

pub text_eq_self : (s : String) → text_eq s s ≡ true
text_eq_self s = (text_eq_iff s s).1 (λ i. s)

pub text_eq_ne : (s t : String) → s ≢ t → text_eq s t ≡ false
text_eq_ne s t h = ground (arith, text_eq_iff s t)

pub text_eq_comm : (s t : String) → text_eq s t ≡ text_eq t s
text_eq_comm s t = ground (arith, text_eq_iff s t, text_eq_iff t s, text_eq_self s)

pub is_empty_iff : (s : String) → (is_empty s ≡ true) ↔ (s ≡ "")
unfolding is_empty
is_empty_iff s = eq_iff s ""

unfoldable pub text_append : String → String → String
text_append s t = s ++ t

-- `s.rfind(t, 0) == 0`
unfoldable pub text_starts_with : String → String → Bool
text_starts_with s t = starts_with s t

-- `s + n` of a pointer to the first character.
unfoldable pub text_drop : ℕ → String → String
text_drop n s = slice s n (len s)
