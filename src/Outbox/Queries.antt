-- ===== src/Outbox/Queries.antt =====
-- The reads of src/kafka_outbox.cpp: record, fetch_due, get, stats and oldest_pending_age_ms.
pub mod Due
pub mod Fairness
pub mod Sorting
pub mod Counts
use mod_event_kafka.Common.{
  ℕ, zero, suc, ◌+◌, ◌-◌, ◌*◌, ◌/◌, ◌%◌, ◌^◌, ◌≤◌, ◌<◌, min, max, String, len, ◌≡◌, refl, sym, ap,
  ◌∙◌, subst, ◌≢◌, ◌↔◌, ◌⊎◌, inl, inr, Bool, true, false, not, ◌&&◌, ◌||◌, Option, none, some, List,
  [], ◌∷◌, ◌++◌, map, arith, ltb, leb, ◌==◌, if◌then◌else◌, ltb→lt, leb→le, ==_iff, ==_self,
  Bool-cases, Option-cases, &&_parts, if_cases, length, take, Memᴰ, here, there, All, Pairwise,
  length-append, All-append, All-mono, All-Mem, Pairwise-snoc, select_where, first_where,
  update_where, delete_where, count_where, any_where, sum_of, length-update_where,
  length-delete_where-le, sum_of-delete_where-le, update_where_none, first_where_sound,
  All-update_where, All-delete_where, text_eq, is_empty, text_eq_iff, text_eq_self, text_eq_ne,
  text_eq_comm, is_empty_iff, ℤ, pos, negsuc, pos_part, to_int32, to_int32_small,
}
use mod_event_kafka.Outbox.Schema.{
  OutboxState, pending, in_flight, dead, OutboxRecord, Row, OrderMode, admission, source,
  CallStream, RetiredCall, Store, int64_max, state_eq, mode_eq, is_ungrouped, is_call, find_stream,
  at_cursor, is_head,
}
use mod_event_kafka.Outbox.Engine.{
  Faults, Outcome, done, thrown, Sql, ◌>>=◌, ◌>>◌, return, raise, skip, Reply, reply, refused,
  deliver, attempt, statement, select, change, change_counted, control, bracket, transaction,
  roll_back, continue, store_of,
}
use mod_event_kafka.Outbox.Admission.{payload_bytes}
use mod_event_kafka.Outbox.Transitions.{has_id}

abbrev pub seq_or_minus_one : Option ℕ → ℤ
seq_or_minus_one none = negsuc 0
seq_or_minus_one (some n) = pos n

-- `record(Statement&)`.
unfoldable pub to_record : Row → OutboxRecord
unfolding to_int32
to_record r = record {
  event_id = r.event_id;
  topic = r.topic;
  msg_key = r.msg_key;
  payload = r.payload;
  state = r.state;
  attempts = to_int32 r.attempts;
  next_attempt_at_ms = r.next_attempt_at_ms;
  last_error = r.last_error;
  created_at_ms = r.created_at_ms;
  updated_at_ms = r.updated_at_ms;
  call_uuid = r.call_uuid;
  call_seq = seq_or_minus_one r.call_seq;
}

-- The WHERE of fetch_due.
unfoldable pub is_due : ℕ → List CallStream → Row → Bool
unfolding is_head
is_due now ss r = state_eq r.state pending && leb r.next_attempt_at_ms now && is_head ss r

abbrev served_of : Option CallStream → ℕ
served_of none = 0
served_of (some s) = s.last_served_ms

-- `COALESCE(s.last_served_ms,0)` after the LEFT JOIN.
unfoldable pub last_served : List CallStream → Row → ℕ
last_served ss r = served_of (find_stream r.topic r.call_uuid ss)

-- Strictly earlier by COALESCE(s.last_served_ms,0), o.created_at_ms; ties keep the order of rowid.
unfoldable pub is_before : List CallStream → Row → Row → Bool
unfolding last_served
is_before ss a b =
    ltb (last_served ss a) (last_served ss b)
    || (last_served ss a == last_served ss b && ltb a.created_at_ms b.created_at_ms)

unfoldable pub insert_by : (Row → Row → Bool) → Row → List Row → List Row
insert_by before x [] = x ∷ []
insert_by before x (y ∷ ys) = if before y x then y ∷ insert_by before x ys else x ∷ y ∷ ys

-- ORDER BY, as a stable sort.
unfoldable pub sort_by : (Row → Row → Bool) → List Row → List Row
unfolding insert_by
sort_by before [] = []
sort_by before (x ∷ xs) = insert_by before x (sort_by before xs)

-- LIMIT; a negative limit is none.
abbrev pub limit_to : ℤ → List Row → List Row
limit_to (pos n) rows = take n rows
limit_to (negsuc n) rows = rows

unfoldable pub due_rows : ℕ → ℤ → Store → List Row
unfolding is_due is_before sort_by
due_rows now limit d =
    limit_to limit (sort_by (is_before d.streams) (select_where (is_due now d.streams) d.rows))

unfoldable pub fetch_due : ℕ → ℤ → Sql (List OutboxRecord)
unfolding select return due_rows to_record
fetch_due now limit fs d =
    if d.is_open then select (λ x. map to_record (due_rows now limit x)) fs d else return [] fs d

abbrev pub map_option {ℓ κ} : {A : Type ℓ} {B : Type κ} → (A → B) → Option A → Option B
map_option f none = none
map_option f (some a) = some (f a)

unfoldable pub get : String → Sql (Option OutboxRecord)
unfolding select return to_record
get id fs d =
    if d.is_open
    then select (λ x. map_option to_record (first_where (has_id id) x.rows)) fs d
    else return none fs d

pub record OutboxStats : Type 0 where
  pub pending_rows : ℕ
  pub in_flight_rows : ℕ
  pub dead_rows : ℕ
  pub total_bytes : ℕ

abbrev in_state : OutboxState → Row → Bool
in_state st r = state_eq r.state st

-- One group of `GROUP BY state`: its count(*) and its sum(length(payload)).
unfoldable pub group_count : OutboxState → List Row → ℕ
group_count st rows = count_where (in_state st) rows

unfoldable pub group_bytes : OutboxState → List Row → ℕ
group_bytes st rows = payload_bytes (select_where (in_state st) rows)

unfoldable pub stats_of : List Row → OutboxStats
unfolding group_count group_bytes
stats_of rows = record {
  pending_rows = group_count pending rows;
  in_flight_rows = group_count in_flight rows;
  dead_rows = group_count dead rows;
  total_bytes = group_bytes pending rows + group_bytes in_flight rows + group_bytes dead rows;
}

unfoldable pub stats : Sql OutboxStats
unfolding select return stats_of
stats fs d = if d.is_open then select (λ x. stats_of x.rows) fs d else return (stats_of []) fs d

abbrev least : ℕ → Option ℕ → ℕ
least n none = n
least n (some m) = min n m

-- min(created_at_ms) over the pending rows; NULL if there is none.
unfoldable pub oldest_pending : List Row → Option ℕ
oldest_pending [] = none
oldest_pending (r ∷ rs) =
    let rest = oldest_pending rs in
    if in_state pending r then some (least r.created_at_ms rest) else rest

-- `max(0, now - oldest)`.
abbrev pub age_at : ℕ → Option ℕ → ℕ
age_at now none = 0
age_at now (some t) = now - t

unfoldable pub oldest_pending_age_ms : ℕ → Sql ℕ
unfolding select return oldest_pending
oldest_pending_age_ms now fs d =
    if d.is_open then select (λ x. age_at now (oldest_pending x.rows)) fs d else return 0 fs d
