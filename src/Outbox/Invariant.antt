-- ===== src/Outbox/Invariant.antt =====
-- The well-formedness of the outbox: what a row of a call owes to the call's cursor.
pub mod Rows
pub mod Claims
pub mod Acks
pub mod Admissions
use mod_event_kafka.Common.{
  ℕ, zero, suc, ◌+◌, ◌-◌, ◌*◌, ◌/◌, ◌%◌, ◌^◌, ◌≤◌, ◌<◌, min, max, String, len, ◌≡◌, refl, sym, ap,
  ◌∙◌, subst, ◌≢◌, ◌↔◌, ◌⊎◌, inl, inr, Bool, true, false, not, ◌&&◌, ◌||◌, Option, none, some, List,
  [], ◌∷◌, ◌++◌, map, arith, ltb, leb, ◌==◌, if◌then◌else◌, ltb→lt, leb→le, ==_iff, ==_self,
  Bool-cases, Option-cases, &&_parts, if_cases, length, take, Memᴰ, here, there, All, Pairwise,
  length-append, All-append, All-mono, All-Mem, Pairwise-snoc, select_where, first_where,
  update_where, delete_where, count_where, any_where, sum_of, length-update_where,
  length-delete_where-le, sum_of-delete_where-le, update_where_none, first_where_sound,
  All-update_where, All-delete_where, text_eq, is_empty, text_eq_iff, text_eq_self, text_eq_ne,
  is_empty_iff, ℤ, pos, negsuc, pos_part, to_int32, to_int32_small,
}
use mod_event_kafka.Outbox.Schema.{
  OutboxState, pending, in_flight, dead, OutboxRecord, Row, OrderMode, admission, source,
  CallStream, RetiredCall, Store, int64_max, state_eq, mode_eq, is_ungrouped, is_call, find_stream,
  at_cursor, is_head,
}
use mod_event_kafka.Outbox.Engine.{
  Faults, Outcome, done, thrown, Sql, ◌>>=◌, ◌>>◌, return, raise, skip, Reply, reply, refused,
  deliver, attempt, statement, select, change, change_counted, control, bracket, transaction,
  roll_back, continue,
}
use mod_event_kafka.Outbox.Admission.{same_slot}
use mod_event_kafka.Outbox.Transitions.{is_null}

-- A row of a call: it waits at or behind the cursor, only the head is in flight, the time from
-- which its age counts is set exactly at the head, and its Kafka key is the call's.
pub record InCall (s : CallStream) (n : ℕ) (r : Row) : Type 0 where
  pub named : is_empty r.call_uuid ≡ false
  pub seq : r.call_seq ≡ some n
  pub low : s.next_seq ≤ n
  pub high : n < s.admit_seq
  pub flying : state_eq r.state in_flight ≡ true → n ≡ s.next_seq
  pub stamp : is_null r.eligible_at_ms ≡ not (n == s.next_seq)
  pub key : r.msg_key ≡ s.msg_key

pub data RowOk (ss : List CallStream) (r : Row) : Type 0 where
  loose :
      is_empty r.call_uuid ≡ true
      → r.call_seq ≡ none
      → is_null r.eligible_at_ms ≡ false
      → RowOk ss r
  in_call :
      (s : CallStream) (n : ℕ)
      → find_stream r.topic r.call_uuid ss ≡ some s
      → InCall s n r
      → RowOk ss r

pub record StreamOk (s : CallStream) : Type 0 where
  pub ordered : s.next_seq ≤ s.admit_seq
  pub bounded : s.admit_seq ≤ int64_max
  pub named : is_empty s.call_uuid ≡ false
  pub keyed : is_empty s.msg_key ≡ false

abbrev pub DistinctId : Row → Row → Type 0
DistinctId a b = text_eq a.event_id b.event_id ≡ false

abbrev pub DistinctSlot : Row → Row → Type 0
DistinctSlot a b = same_slot a b ≡ false

abbrev pub DistinctCall : CallStream → CallStream → Type 0
DistinctCall a b = is_call a.topic a.call_uuid b ≡ false

-- The tables are keyed as their schema says, every row is in order with its cursor, and the
-- counters fit their columns.
pub record IsValid (d : Store) : Type 0 where
  pub rows_ok : All (RowOk d.streams) d.rows
  pub ids : Pairwise DistinctId d.rows
  pub slots : Pairwise DistinctSlot d.rows
  pub streams_ok : All StreamOk d.streams
  pub calls : Pairwise DistinctCall d.streams
  pub turns : d.turn ≤ int64_max
