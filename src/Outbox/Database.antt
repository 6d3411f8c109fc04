-- ===== src/Outbox/Database.antt =====
-- The database file behind the outbox, and the statements that `Outbox::open` runs on it.
use mod_event_kafka.Common.{ℕ, String, Bool, Option, none, some, List, [], ◌∷◌, if◌then◌else◌, ℤ}
use mod_event_kafka.Outbox.Schema.{Row, CallStream, RetiredCall}
use mod_event_kafka.Outbox.Engine.{Faults}

-- The database file. `has_table` says whether the table outbox exists, the next two whether it has
-- the columns that later versions added; the rows of a missing table or the values of a missing
-- column are not read. A missing table of the other three is empty; `turn` is the row of
-- order_scheduler, `write_ahead` whether the journal mode in the header is WAL.
pub record Database : Type 0 where
  pub has_table : Bool
  pub has_call_seq : Bool
  pub has_eligible_at_ms : Bool
  pub user_version : ℤ
  pub rows : List Row
  pub streams : List CallStream
  pub retired : List RetiredCall
  pub turn : Option ℕ
  pub write_ahead : Bool

-- What a part of open leaves: its result, or an exception.
pub data Result {ℓ} (A : Type ℓ) : Type ℓ where
  finished : A → Faults → Database → Result A
  broke : String → Faults → Database → Result A

abbrev pub Db {ℓ} : Type ℓ → Type ℓ
Db A = Faults → Database → Result A

abbrev pub follow {ℓ κ} : {A : Type ℓ} {B : Type κ} → Result A → (A → Db B) → Result B
follow (finished a fs f) k = k a fs f
follow (broke e fs f) k = broke e fs f

infixl 5 ◌>>=◌ ◌>>◌
unfoldable pub ◌>>=◌ {ℓ κ} : {A : Type ℓ} {B : Type κ} → Db A → (A → Db B) → Db B
◌>>=◌ m k fs f = follow (m fs f) k

unfoldable pub ◌>>◌ {ℓ} : {B : Type ℓ} → Db (Unit {0}) → Db B → Db B
unfolding ◌>>=◌
◌>>◌ m k = m >>= λ _. k

unfoldable pub give {ℓ} : {A : Type ℓ} → A → Db A
give a fs f = finished a fs f

-- A statement that the engine may refuse, for the reason at the head of the faults or for one of
-- its own (`none` of the function).
abbrev pub settle : Option Database → Faults → Database → Result (Unit {0})
settle (some f') fs f = finished tt fs f'
settle none fs f = broke "UNIQUE constraint failed" fs f

unfoldable pub constrained : (Database → Option Database) → Db (Unit {0})
constrained g [] f = settle (g f) [] f
constrained g (none ∷ fs) f = settle (g f) fs f
constrained g (some e ∷ fs) f = broke e fs f

unfoldable pub execute : (Database → Database) → Db (Unit {0})
unfolding constrained
execute g = constrained (λ f. some (g f))

-- A SELECT or a PRAGMA that is read.
unfoldable pub query {ℓ} : {A : Type ℓ} → (Database → A) → Db A
unfolding ◌>>=◌ ◌>>◌ give execute
query g = do execute (λ f. f); λ fs f. finished (g f) fs f

-- `if (…) throw std::runtime_error(e)`
unfoldable pub refuse_if : Bool → String → Db (Unit {0})
refuse_if b e fs f = if b then broke e fs f else finished tt fs f
