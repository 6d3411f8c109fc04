-- ===== src/Outbox/Engine.antt =====
-- The engine behind the outbox: `Statement`, `Transaction` and `sql` of src/kafka_outbox.cpp.
-- SQLite itself is not modelled: a list of faults, a parameter of every call, says which
-- statements it refuses and with what message; a statement past the end of the list succeeds.
pub mod Steady
pub mod Rules
use mod_event_kafka.Common.{ℕ, String, Option, none, some, List, [], ◌∷◌, if◌then◌else◌}
use mod_event_kafka.Outbox.Schema.{Store}

-- `some e`: the next statement fails with the message e and changes nothing.
abbrev pub Faults : Type 0
Faults = List (Option String)

-- A call that returns, or that ends in an exception. The store and the remaining faults stay.
pub data Outcome {ℓ} (A : Type ℓ) : Type ℓ where
  done : A → Faults → Store → Outcome A
  thrown : String → Faults → Store → Outcome A

abbrev pub Sql {ℓ} : Type ℓ → Type ℓ
Sql A = Faults → Store → Outcome A

abbrev pub continue {ℓ κ} : {A : Type ℓ} {B : Type κ} → Outcome A → (A → Sql B) → Outcome B
continue (done a fs d) k = k a fs d
continue (thrown e fs d) k = thrown e fs d

-- The store that a call leaves behind, whether it returns or throws.
abbrev pub store_of {ℓ} : {A : Type ℓ} → Outcome A → Store
store_of (done a fs d) = d
store_of (thrown e fs d) = d

infixl 5 ◌>>=◌ ◌>>◌
unfoldable pub ◌>>=◌ {ℓ κ} : {A : Type ℓ} {B : Type κ} → Sql A → (A → Sql B) → Sql B
◌>>=◌ m k fs d = continue (m fs d) k

unfoldable pub ◌>>◌ {ℓ} : {B : Type ℓ} → Sql (Unit {0}) → Sql B → Sql B
unfolding ◌>>=◌
◌>>◌ m k = m >>= λ _. k

unfoldable pub return {ℓ} : {A : Type ℓ} → A → Sql A
return a fs d = done a fs d

-- `throw std::runtime_error(e)`
unfoldable pub raise {ℓ} : {A : Type ℓ} → String → Sql A
raise e fs d = thrown e fs d

unfoldable pub skip : Sql (Unit {0})
skip fs d = done tt fs d

-- What a statement does when the engine runs it: a result and a store, or the refusal of a
-- constraint.
pub data Reply {ℓ} (A : Type ℓ) : Type ℓ where
  reply : A → Store → Reply A
  refused : String → Reply A

abbrev pub deliver {ℓ} : {A : Type ℓ} → Reply A → Sql A
deliver (reply a d') fs d = done a fs d'
deliver (refused e) fs d = thrown e fs d

abbrev pub attempt {ℓ} : {A : Type ℓ} → (Store → Reply A) → Sql A
attempt q [] d = deliver (q d) [] d
attempt q (none ∷ fs) d = deliver (q d) fs d
attempt q (some e ∷ fs) d = thrown e fs d

-- A `Statement` that is prepared, bound and stepped; its constructor refuses a closed database.
unfoldable pub statement {ℓ} : {A : Type ℓ} → (Store → Reply A) → Sql A
statement q fs d = if d.is_open then attempt q fs d else thrown "db closed" fs d

-- A SELECT.
unfoldable pub select {ℓ} : {A : Type ℓ} → (Store → A) → Sql A
unfolding statement
select q = statement (λ d. reply (q d) d)

-- An INSERT, UPDATE or DELETE that no constraint refuses.
unfoldable pub change : (Store → Store) → Sql (Unit {0})
unfolding statement
change f = statement (λ d. reply tt (f d))

-- An UPDATE whose `sqlite3_changes` is read: the store after it, and the number of changed rows.
unfoldable pub change_counted : (Store → ℕ) → (Store → Store) → Sql ℕ
unfolding statement
change_counted n f = statement (λ d. reply (n d) (f d))

-- A BEGIN IMMEDIATE or COMMIT: no effect of its own on the tables.
unfoldable pub control : Sql (Unit {0})
unfolding change
control = change (λ d. d)

-- `~Transaction`: what was not committed is rolled back.
abbrev pub roll_back {ℓ} : {A : Type ℓ} → Store → Outcome A → Outcome A
roll_back d (done a fs d') = done a fs d'
roll_back d (thrown e fs d') = thrown e fs d

-- BEGIN, the body and COMMIT, in order.
unfoldable pub bracket {ℓ} : {A : Type ℓ} → Sql A → Sql A
unfolding control ◌>>=◌ ◌>>◌ return
bracket body = do control; a ← body; control; return a

-- `Transaction tx(db); … tx.commit();`
unfoldable pub transaction {ℓ} : {A : Type ℓ} → Sql A → Sql A
unfolding bracket
transaction body fs d = roll_back d (bracket body fs d)
