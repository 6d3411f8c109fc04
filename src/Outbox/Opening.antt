-- ===== src/Outbox/Opening.antt =====
-- `Outbox::open` and `Outbox::close` (src/kafka_outbox.cpp): the database file as it is found, its
-- upgrade to the schema of this program, and the checks that refuse it.
pub mod Rules
mod Tests
pub mod Refusal
pub mod Reopening
pub mod Soundness
use mod_event_kafka.Common.{
  ℕ, String, Bool, true, false, not, ◌&&◌, ◌||◌, Option, none, some, List, [], ◌∷◌, map,
  if◌then◌else◌, ltb, leb, ◌==◌, ℤ, pos, negsuc, count_where, update_where, any_where, length, max,
}
use mod_event_kafka.Outbox.Schema.{
  Row, CallStream, RetiredCall, Store, is_ungrouped, is_call, find_stream, is_head,
}
use mod_event_kafka.Outbox.Engine.{Faults}
use mod_event_kafka.Outbox.Transitions.{is_null}
use mod_event_kafka.Outbox.Admission.{same_slot}
use mod_event_kafka.Outbox.Database.{
  Database, Db, Result, broke, constrained, execute, finished, follow, give, query, refuse_if,
  settle, ◌>>=◌, ◌>>◌,
}

unfoldable pub execute_if : Bool → (Database → Database) → Db (Unit {0})
unfolding execute
execute_if b g = if b then execute g else λ fs f. finished tt fs f

abbrev pub is_newer : ℤ → Bool
is_newer (pos n) = ltb 5 n
is_newer (negsuc n) = false

-- PRAGMA table_info(outbox), if there is a table.
unfoldable pub read_columns : Bool → Db (Bool × Bool)
unfolding give query
read_columns has_table =
    if has_table then query (λ f. (f.has_call_seq, f.has_eligible_at_ms)) else give (false, false)

unfoldable pub check_legacy : Bool → Bool → Db (Unit {0})
unfolding ◌>>=◌ give query refuse_if
check_legacy has_table has_seq =
    if has_table && not has_seq
    then (do
      n ← query (λ f. length f.rows)
      refuse_if (not (n == 0))
          "legacy nonempty outbox: reconcile/backup before upgrade; no sequence inferred")
    else give tt

-- CREATE TABLE IF NOT EXISTS outbox
abbrev pub create_outbox : Database → Database
create_outbox f =
    if f.has_table
    then f
    else record f { has_table = true; has_call_seq = true; has_eligible_at_ms = true; rows = [] }

-- ALTER TABLE outbox ADD COLUMN: the new column is NULL in every row.
abbrev pub add_call_seq : Database → Database
add_call_seq f = record f {
  has_call_seq = true;
  rows = map (λ (r : Row). record r { call_seq = none }) f.rows;
}

abbrev pub add_eligible : Database → Database
add_eligible f = record f {
  has_eligible_at_ms = true;
  rows = map (λ (r : Row). record r { eligible_at_ms = none }) f.rows;
}

-- CREATE UNIQUE INDEX fails on rows that share topic, call and sequence.
unfoldable pub has_twins : List Row → Bool
has_twins [] = false
has_twins (r ∷ rows) = any_where (same_slot r) rows || has_twins rows

-- COALESCE(MAX(last_served_ms),0)
unfoldable pub last_turn : List CallStream → ℕ
last_turn [] = 0
last_turn (s ∷ ss) = max s.last_served_ms (last_turn ss)

abbrev pub turn_of : List CallStream → Option ℕ → ℕ
turn_of ss none = last_turn ss
turn_of ss (some n) = n

-- The indexes and the row of order_scheduler.
abbrev pub create_rest : Database → Option Database
create_rest f =
    if has_twins f.rows then none else some (record f { turn = some (turn_of f.streams f.turn) })

abbrev pub is_found : Option CallStream → Bool
is_found none = false
is_found (some s) = true

abbrev pub has_cursor : List CallStream → String → String → Bool
has_cursor ss t u = is_found (find_stream t u ss)

-- A row of a call without a sequence or without its cursor.
abbrev pub is_orphan : List CallStream → Row → Bool
is_orphan ss r =
    not (is_ungrouped r) && (is_null r.call_seq || not (has_cursor ss r.topic r.call_uuid))

abbrev pub is_active : List CallStream → RetiredCall → Bool
is_active ss c = has_cursor ss c.topic c.call_uuid

abbrev pub needs_stamp : List CallStream → Row → Bool
needs_stamp ss r = is_null r.eligible_at_ms && is_head ss r

abbrev pub stamp_age : Row → Row
stamp_age r = record r { eligible_at_ms = some r.created_at_ms }

-- Stamp deliverable age only for rows that are already the head or ungrouped; user_version=5.
abbrev pub stamp_heads : Database → Database
stamp_heads f = record f {
  rows = update_where (needs_stamp f.streams) stamp_age f.rows;
  user_version = pos 5;
}

-- From the checks of the new schema on.
unfoldable pub check_and_stamp : Db (Unit {0})
unfolding ◌>>=◌ ◌>>◌ query refuse_if execute
check_and_stamp = do
  orphans ← query (λ f. count_where (is_orphan f.streams) f.rows)
  refuse_if (not (orphans == 0)) "corrupt ordered outbox/cursor"
  clashes ← query (λ f. count_where (is_active f.streams) f.retired)
  refuse_if (not (clashes == 0)) "retired call still has active cursor"
  execute stamp_heads

-- What open does between BEGIN and COMMIT.
unfoldable pub upgrade : Bool → Bool → Bool → Db (Unit {0})
unfolding ◌>>=◌ ◌>>◌ execute execute_if constrained check_and_stamp
upgrade has_table has_seq has_eligible = do
  execute create_outbox
  execute_if (has_table && not has_seq) add_call_seq
  execute_if (has_table && not has_eligible) add_eligible
  constrained create_rest
  check_and_stamp

-- The destructor of an uncommitted Transaction.
abbrev pub undo : Database → Result (Unit {0}) → Result (Unit {0})
undo f (finished a fs f') = finished a fs f'
undo f (broke e fs f') = broke e fs f

unfoldable pub in_transaction : Db (Unit {0}) → Db (Unit {0})
unfolding ◌>>=◌ ◌>>◌ execute
in_transaction body fs f = undo f ((do execute (λ x. x); body; execute (λ x. x)) fs f)

-- `PRAGMA journal_mode=WAL`, which is outside the transaction; the `PRAGMA synchronous=FULL` after it
-- is of the connection only.
abbrev pub write_ahead_log : Database → Database
write_ahead_log f = record f { write_ahead = true }

unfoldable pub open_database : Db (Unit {0})
unfolding ◌>>=◌ ◌>>◌ query read_columns check_legacy refuse_if execute in_transaction upgrade
open_database = do
  has_table ← query (λ f. f.has_table)
  columns ← read_columns has_table
  check_legacy has_table columns.0
  version ← query (λ f. f.user_version)
  refuse_if (is_newer version) "unsupported outbox schema version"
  execute write_ahead_log
  execute (λ f. f)
  in_transaction (upgrade has_table columns.0 columns.1)

-- `Outbox::Impl`, with the file behind it: `is_open` is whether db is set, `holds_lock` whether the
-- lock file is held.
pub record Handle : Type 0 where
  pub max_rows : ℕ
  pub max_bytes : ℕ
  pub is_open : Bool
  pub holds_lock : Bool
  pub database : Database

-- What the operating system answers: whether the lock file is opened and locked, and whether
-- sqlite3_open succeeds.
pub record Host : Type 0 where
  pub lock_granted : Bool
  pub file_opens : Bool

unfoldable pub close_outbox : Handle → Handle
close_outbox h = record h { is_open = false; holds_lock = false }

-- `none` for true, or the `err` of a refusal. The catch closes the database and the lock.
abbrev pub conclude_open : Handle → Result (Unit {0}) → Option String × Handle
conclude_open h (finished a fs f) =
    (none, record h { is_open = true; holds_lock = true; database = f })
conclude_open h (broke e fs f) = (some e, close_outbox (record h { database = f }))

unfoldable pub open_outbox : Host → Faults → Handle → Option String × Handle
unfolding close_outbox open_database
open_outbox host fs h =
    if h.is_open
    then (none, h)
    else if not host.lock_granted
    then (some "outbox already owned or lock unavailable", close_outbox h)
    else if not host.file_opens
    then (some "outbox open failed", close_outbox h)
    else conclude_open h (open_database fs h.database)

-- The outbox that the other operations work on.
abbrev pub store_of_handle : Handle → Store
store_of_handle h = record {
  max_rows = h.max_rows;
  max_bytes = h.max_bytes;
  is_open = h.is_open;
  rows = h.database.rows;
  streams = h.database.streams;
  retired = h.database.retired;
  turn = turn_of [] h.database.turn;
}

-- The file that they leave behind, under the schema of this program.
abbrev pub database_of : Store → Database
database_of d = record {
  has_table = true;
  has_call_seq = true;
  has_eligible_at_ms = true;
  user_version = pos 5;
  rows = d.rows;
  streams = d.streams;
  retired = d.retired;
  turn = some d.turn;
  write_ahead = true;
}

abbrev pub handle_of : Store → Handle
handle_of d = record {
  max_rows = d.max_rows;
  max_bytes = d.max_bytes;
  is_open = d.is_open;
  holds_lock = d.is_open;
  database = database_of d;
}
