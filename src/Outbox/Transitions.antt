-- ===== src/Outbox/Transitions.antt =====
-- The state changes of a stored event in src/kafka_outbox.cpp: mark_in_flight, mark_acked,
-- mark_retry, mark_dead, retry_dead, requeue_in_flight and expire_ttl. Each argument `now` is a
-- reading of wall_now_ms().
pub mod Effects
use mod_event_kafka.Common.{
  ℕ, ◌+◌, ◌-◌, String, Bool, true, false, ◌&&◌, ◌||◌, Option, none, some, List, ltb, ◌==◌,
  if◌then◌else◌, first_where, update_where, delete_where, count_where, text_eq, ℤ, pos_part,
}
use mod_event_kafka.Outbox.Schema.{
  OutboxState, pending, in_flight, dead, Row, CallStream, Store, int64_max, state_eq, is_ungrouped,
  is_call, is_head,
}
use mod_event_kafka.Outbox.Engine.{
  Sql, ◌>>=◌, ◌>>◌, return, raise, skip, select, change, change_counted, transaction,
}

abbrev pub has_id : String → Row → Bool
has_id id r = text_eq r.event_id id

-- An UPDATE or DELETE that must change exactly one row.
unfoldable pub require_one : ℕ → String → Sql (Unit {0})
unfolding raise skip
require_one n e = if n == 1 then skip else raise e

unfoldable pub is_claimable : String → List CallStream → Row → Bool
unfolding is_head
is_claimable id ss r = has_id id r && state_eq r.state pending && is_head ss r

abbrev pub claim : ℕ → Row → Row
claim now r = record r { state = in_flight; attempts = r.attempts + 1; updated_at_ms = now }

unfoldable pub claim_row : ℕ → String → Store → Store
unfolding is_claimable
claim_row now id d = record d { rows = update_where (is_claimable id d.streams) (claim now) d.rows }

-- UPDATE order_scheduler SET turn=turn+1 WHERE id=1 AND turn<9223372036854775807
unfoldable pub tick : Store → Store
tick d = record d { turn = if ltb d.turn int64_max then d.turn + 1 else d.turn }

abbrev pub serve_call : ℕ → Option Row → List CallStream → List CallStream
serve_call turn none ss = ss
serve_call turn (some r) ss =
    update_where (is_call r.topic r.call_uuid) (λ s. record s { last_served_ms = turn }) ss

-- UPDATE call_streams SET last_served_ms=(SELECT turn …) WHERE (topic,call_uuid)=(SELECT …)
unfoldable pub serve : String → Store → Store
serve id d = record d { streams = serve_call d.turn (first_where (has_id id) d.rows) d.streams }

unfoldable pub claim_body : ℕ → String → Sql (Unit {0})
unfolding ◌>>=◌ ◌>>◌ change change_counted require_one claim_row tick serve
claim_body now id = do
  claimed ← change_counted (λ d. count_where (is_claimable id d.streams) d.rows) (claim_row now id)
  require_one claimed "not a pending call head"
  ticked ← change_counted (λ d. if ltb d.turn int64_max then 1 else 0) tick
  require_one ticked "scheduler turn exhausted"
  change (serve id)

unfoldable pub mark_in_flight : ℕ → String → Sql (Unit {0})
unfolding transaction claim_body
mark_in_flight now id = transaction (claim_body now id)

unfoldable pub is_in_flight : String → Row → Bool
is_in_flight id r = has_id id r && state_eq r.state in_flight

-- `sqlite3_column_int64` reads a NULL as 0.
abbrev pub integer : Option ℕ → ℕ
integer none = 0
integer (some n) = n

unfoldable pub is_cursor : Row → CallStream → Bool
is_cursor r s = is_call r.topic r.call_uuid s && (s.next_seq == integer r.call_seq)

-- UPDATE call_streams SET next_seq=next_seq+1 WHERE topic=? AND call_uuid=? AND next_seq=?
unfoldable pub advance : Row → Store → Store
unfolding is_cursor
advance r d = record d {
  streams = update_where (is_cursor r) (λ s. record s { next_seq = s.next_seq + 1 }) d.streams;
}

abbrev pub has_seq : ℕ → Option ℕ → Bool
has_seq n none = false
has_seq n (some m) = m == n

abbrev pub is_null : Option ℕ → Bool
is_null none = true
is_null (some n) = false

unfoldable pub is_successor : Row → Row → Bool
is_successor r x =
    text_eq x.topic r.topic
    && text_eq x.call_uuid r.call_uuid
    && has_seq (integer r.call_seq + 1) x.call_seq
    && is_null x.eligible_at_ms

-- UPDATE outbox SET eligible_at_ms=? WHERE topic=? AND call_uuid=? AND call_seq=? AND …
unfoldable pub promote : ℕ → Row → Store → Store
unfolding is_successor
promote now r d = record d {
  rows = update_where (is_successor r) (λ x. record x { eligible_at_ms = some now }) d.rows;
}

unfoldable pub advance_call : ℕ → Row → Sql (Unit {0})
unfolding ◌>>=◌ ◌>>◌ change change_counted require_one skip is_cursor advance promote
advance_call now r = if is_ungrouped r then skip else do
  moved ← change_counted (λ d. count_where (is_cursor r) d.streams) (advance r)
  require_one moved "ACK is not the call head"
  change (promote now r)

unfoldable pub delete_row : String → Store → Store
delete_row id d = record d { rows = delete_where (has_id id) d.rows }

unfoldable pub settle_ack : ℕ → String → Option Row → Sql (Unit {0})
unfolding ◌>>◌ change raise advance_call delete_row
settle_ack now id none = raise "ACK for non-in-flight event"
settle_ack now id (some r) = do advance_call now r; change (delete_row id)

unfoldable pub ack_body : ℕ → String → Sql (Unit {0})
unfolding ◌>>=◌ select settle_ack is_in_flight
ack_body now id = do
  head ← select (λ d. first_where (is_in_flight id) d.rows)
  settle_ack now id head

unfoldable pub mark_acked : ℕ → String → Sql (Unit {0})
unfolding transaction ack_body
mark_acked now id = transaction (ack_body now id)

-- One UPDATE of the table `outbox`, committed by itself.
unfoldable pub update_rows : (List CallStream → Row → Bool) → (Row → Row) → Sql ℕ
unfolding change_counted
update_rows p f =
    change_counted (λ d. count_where (p d.streams) d.rows)
      (λ d. record d { rows = update_where (p d.streams) f d.rows })

abbrev pub back_off : ℕ → String → ℕ → Row → Row
back_off next error now r = record r {
  state = pending;
  next_attempt_at_ms = next;
  last_error = error;
  updated_at_ms = now;
}

unfoldable pub mark_retry : ℕ → String → ℕ → String → Sql (Unit {0})
unfolding ◌>>=◌ update_rows require_one is_in_flight
mark_retry now id next error = do
  n ← update_rows (λ _. is_in_flight id) (back_off next error now)
  require_one n "retry for non-in-flight event"

-- `state IN ('pending','in_flight')`
abbrev pub is_live : OutboxState → Bool
is_live s = state_eq s pending || state_eq s in_flight

unfoldable pub is_live_id : String → Row → Bool
is_live_id id r = has_id id r && is_live r.state

abbrev pub bury : String → ℕ → Row → Row
bury error now r = record r { state = dead; last_error = error; updated_at_ms = now }

unfoldable pub mark_dead : ℕ → String → String → Sql (Unit {0})
unfolding ◌>>=◌ update_rows require_one is_live_id
mark_dead now id error = do
  n ← update_rows (λ _. is_live_id id) (bury error now)
  require_one n "dead transition has no live row"

unfoldable pub is_dead : String → Row → Bool
is_dead id r = has_id id r && state_eq r.state dead

-- The two bindings of wall_now_ms() are two readings.
abbrev pub revive : ℕ → ℕ → Row → Row
revive due now r = record r {
  state = pending;
  next_attempt_at_ms = due;
  updated_at_ms = now;
  last_error = "";
}

unfoldable pub retry_dead : ℕ → ℕ → String → Sql (Unit {0})
unfolding ◌>>=◌ update_rows require_one is_dead
retry_dead due now id = do
  n ← update_rows (λ _. is_dead id) (revive due now)
  require_one n "no dead row to retry"

abbrev pub requeue : ℕ → ℕ → Row → Row
requeue due now r = record r { state = pending; next_attempt_at_ms = due; updated_at_ms = now }

unfoldable pub requeue_in_flight : ℕ → ℕ → Sql (Unit {0})
unfolding ◌>>=◌ update_rows skip
requeue_in_flight due now = do
  n ← update_rows (λ _ r. state_eq r.state in_flight) (requeue due now)
  skip

-- `eligible_at_ms IS NOT NULL AND (now - eligible_at_ms) > ttl`; an age below 0 exceeds no ttl.
abbrev pub is_older : ℕ → ℕ → Option ℕ → Bool
is_older now ttl none = false
is_older now ttl (some t) = ltb ttl (now - t)

unfoldable pub is_expired : ℕ → ℕ → List CallStream → Row → Bool
unfolding is_head
is_expired now ttl ss r =
    state_eq r.state pending && is_older now ttl r.eligible_at_ms && is_head ss r

abbrev pub expire : ℕ → Row → Row
expire now r = record r { state = dead; last_error = "expired_ttl"; updated_at_ms = now }

-- The number of rows updated; a `ttl` of 0 or less disables expiry.
unfoldable pub expire_ttl : ℕ → ℤ → Sql ℕ
unfolding update_rows return is_expired
expire_ttl now ttl =
    if pos_part ttl == 0 then return 0 else update_rows (is_expired now (pos_part ttl)) (expire now)
