-- ===== src/Outbox/Fifo.antt =====
-- A call whose events all ask for an admission sequence is a first-in first-out queue.
pub mod Settling
pub mod Admitting
pub mod Queue
pub mod Head
use mod_event_kafka.Common.{
  ℕ, zero, suc, ◌+◌, ◌-◌, ◌*◌, ◌/◌, ◌%◌, ◌^◌, ◌≤◌, ◌<◌, min, max, String, len, ◌≡◌, refl, sym, ap,
  ◌∙◌, subst, ◌≢◌, ◌↔◌, ◌⊎◌, inl, inr, Bool, true, false, not, ◌&&◌, ◌||◌, Option, none, some, List,
  [], ◌∷◌, ◌++◌, map, arith, ltb, leb, ◌==◌, if◌then◌else◌, ltb→lt, leb→le, ==_iff, ==_self,
  Bool-cases, Option-cases, &&_parts, if_cases, length, take, Memᴰ, here, there, All, Pairwise,
  length-append, All-append, All-mono, All-Mem, Pairwise-snoc, select_where, first_where,
  update_where, delete_where, count_where, any_where, sum_of, length-update_where,
  length-delete_where-le, sum_of-delete_where-le, update_where_none, first_where_sound,
  All-update_where, All-delete_where, text_eq, is_empty, text_eq_iff, text_eq_self, text_eq_ne,
  text_eq_comm, is_empty_iff, ℤ, pos, negsuc, pos_part, to_int32, to_int32_small,
}
use mod_event_kafka.Outbox.Schema.{
  OutboxState, pending, in_flight, dead, OutboxRecord, Row, OrderMode, admission, source,
  CallStream, RetiredCall, Store, int64_max, state_eq, mode_eq, is_ungrouped, is_call, find_stream,
  at_cursor, is_head,
}
use mod_event_kafka.Outbox.Engine.{
  Faults, Outcome, done, thrown, Sql, ◌>>=◌, ◌>>◌, return, raise, skip, Reply, reply, refused,
  deliver, attempt, statement, select, change, change_counted, control, bracket, transaction,
  roll_back, continue, store_of,
}
use mod_event_kafka.Outbox.History.{in_call_of, record_of}
use mod_event_kafka.Outbox.History.Order.{cursor, numbers}
use mod_event_kafka.Outbox.History.Streams.{admit_count}

-- The rows of a call, in the order of the table.
abbrev pub rows_of : String → String → Store → List Row
rows_of t u d = select_where (in_call_of t u) d.rows

-- The call's queue: the events that wait, oldest first.
abbrev pub waiting : String → String → Store → List String
waiting t u d = map (λ r. r.event_id) (rows_of t u d)

abbrev pub waiting_seqs : String → String → Store → List (Option ℕ)
waiting_seqs t u d = map (λ r. r.call_seq) (rows_of t u d)

-- The waiting rows carry every sequence from the cursor to the last one admitted.
pub record Contiguous (t u : String) (d : Store) : Type 0 where
  pub ordered : cursor t u d ≤ admit_count t u d.streams
  pub waits : waiting_seqs t u d ≡ numbers (cursor t u d) (admit_count t u d.streams - cursor t u d)

-- The event that an acknowledgement takes from the call's queue, and that an admission adds to it.
abbrev pub taken : String → String → Option Row → List String
taken t u none = []
taken t u (some r) = if in_call_of t u r then r.event_id ∷ [] else []

abbrev pub added : String → String → Option OutboxRecord → List String
added t u none = []
added t u (some rec) = if record_of t u rec then rec.event_id ∷ [] else []

-- One step of the queue: what leaves at the front, and what comes at the back.
abbrev pub Flows : String → String → Option Row → Option OutboxRecord → Store → Store → Type 0
Flows t u o x d d' = taken t u o ++ waiting t u d' ≡ waiting t u d ++ added t u x
