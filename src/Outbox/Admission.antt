-- ===== src/Outbox/Admission.antt =====
-- `Outbox::insert_pending` of src/kafka_outbox.cpp, statement by statement.
pub mod Effects
pub mod Calm
use mod_event_kafka.Common.{
  ℕ, ◌+◌, max, len, Bool, true, false, ◌&&◌, ◌||◌, Option, none, some, List, [], ◌∷◌, ◌++◌, ltb,
  leb, ◌==◌, if◌then◌else◌, length, update_where, delete_where, any_where, sum_of, text_eq,
  is_empty, ℤ, pos, negsuc, pos_part,
}
use mod_event_kafka.Outbox.Schema.{
  pending, dead, OutboxRecord, Row, OrderMode, admission, source, CallStream, Store, int64_max,
  state_eq, mode_eq, is_ungrouped, is_call, find_stream,
}
use mod_event_kafka.Outbox.Engine.{
  Sql, ◌>>=◌, ◌>>◌, return, raise, skip, reply, refused, statement, select, change, transaction,
}

abbrev pub payload_bytes : List Row → ℕ
payload_bytes rows = sum_of (λ r. len r.payload) rows

-- `q.integer(0) >= max_rows || q.integer(1) + payload.size() > max_bytes`
unfoldable pub over_capacity : OutboxRecord → Store → Bool
over_capacity rec d =
    leb d.max_rows (length d.rows) || ltb d.max_bytes (payload_bytes d.rows + len rec.payload)

abbrev pub is_reclaimable : Row → Bool
is_reclaimable r = state_eq r.state dead && text_eq r.last_error "expired_ttl" && is_ungrouped r

-- DELETE FROM outbox WHERE state='dead' AND last_error='expired_ttl' AND …
unfoldable pub reclaim_expired : Store → Store
reclaim_expired d = record d { rows = delete_where is_reclaimable d.rows }

unfoldable pub is_retired : OutboxRecord → Store → Bool
is_retired rec d =
    any_where (λ c. text_eq c.topic rec.topic && text_eq c.call_uuid rec.call_uuid) d.retired

unfoldable pub refuse_retired : OutboxRecord → Sql (Unit {0})
unfolding ◌>>=◌ select raise skip is_retired
refuse_retired rec = if is_empty rec.call_uuid then skip else do
  found ← select (is_retired rec)
  if found then raise "call explicitly retired; reuse/late admission rejected" else skip

unfoldable pub make_room : OutboxRecord → Sql (Unit {0})
unfolding ◌>>=◌ ◌>>◌ select change raise skip over_capacity reclaim_expired
make_room rec = do
  full ← select (over_capacity rec)
  if full then change reclaim_expired else skip
  still_full ← select (over_capacity rec)
  if still_full then raise "outbox capacity exceeded" else skip

abbrev pub mode_of : ℤ → OrderMode
mode_of (pos n) = source
mode_of (negsuc n) = admission

-- The sequence that an open call gives a record, and whether it is the call's head.
abbrev pub next_sequence : ℤ → CallStream → Sql (ℕ × Bool)
next_sequence (negsuc _) s = return (s.admit_seq, s.admit_seq == s.next_seq)
next_sequence (pos n) s =
    if ltb n s.next_seq
    then raise "source sequence already acknowledged"
    else return (n, n == s.next_seq)

unfoldable pub continue_call : OutboxRecord → CallStream → Sql (ℕ × Bool)
unfolding raise return
continue_call rec s =
    if text_eq s.msg_key rec.msg_key && mode_eq s.mode (mode_of rec.call_seq)
    then next_sequence rec.call_seq s
    else raise "call key/order mode changed"

-- The columns that INSERT INTO call_streams leaves out default to 0.
abbrev pub new_stream : OutboxRecord → CallStream
new_stream rec = record {
  topic = rec.topic;
  call_uuid = rec.call_uuid;
  msg_key = rec.msg_key;
  mode = mode_of rec.call_seq;
  next_seq = 0;
  admit_seq = 0;
  last_served_ms = 0;
}

unfoldable pub create_stream : OutboxRecord → Store → Store
create_stream rec d = record d { streams = d.streams ++ new_stream rec ∷ [] }

unfoldable pub begin_call : OutboxRecord → Sql (ℕ × Bool)
unfolding ◌>>=◌ ◌>>◌ select change raise skip return create_stream
begin_call rec = do
  full ← select (λ d. leb d.max_rows (length d.streams))
  if full
      then raise
          "stream capacity exceeded; inspect capacity; raise limit or explicitly retire proven closed calls"
      else skip
  change (create_stream rec)
  return (pos_part rec.call_seq, pos_part rec.call_seq == 0)

unfoldable pub find_or_begin : OutboxRecord → Option CallStream → Sql (ℕ × Bool)
unfolding continue_call begin_call
find_or_begin rec (some s) = continue_call rec s
find_or_begin rec none = begin_call rec

-- UPDATE call_streams SET admit_seq=MAX(admit_seq,seq+1) WHERE topic=? AND call_uuid=?
unfoldable pub raise_admit : OutboxRecord → ℕ → Store → Store
raise_admit rec seq d = record d {
  streams =
      update_where (is_call rec.topic rec.call_uuid)
        (λ s. record s { admit_seq = max s.admit_seq (seq + 1) }) d.streams;
}

-- The branch `!rec.call_uuid.empty()`.
unfoldable pub order_in_call : OutboxRecord → Sql (Option ℕ × Bool)
unfolding ◌>>=◌ ◌>>◌ select change raise skip return find_or_begin raise_admit
order_in_call rec = do
  found ← select (λ d. find_stream rec.topic rec.call_uuid d.streams)
  (seq, is_next) ← find_or_begin rec found
  if seq == int64_max then raise "source sequence out of range" else skip
  change (raise_admit rec seq)
  return (some seq, is_next)

abbrev pub no_sequence : ℤ → Sql (Option ℕ × Bool)
no_sequence (negsuc _) = return (none, true)
no_sequence (pos n) = raise "source sequence requires call_uuid"

-- The column `call_seq` of the new row, and `deliverable_now`.
unfoldable pub assign_sequence : OutboxRecord → Sql (Option ℕ × Bool)
unfolding order_in_call raise return
assign_sequence rec =
    if is_empty rec.call_uuid
    then no_sequence rec.call_seq
    else if is_empty rec.msg_key
    then raise "ordered call requires nonempty key"
    else order_in_call rec

-- `x ? x : y` on a time.
abbrev pub or_else : ℕ → ℕ → ℕ
or_else x y = if x == 0 then y else x

abbrev pub new_row : OutboxRecord → ℕ → Option ℕ → Bool → Row
new_row rec wall seq is_next =
    let now = or_else rec.created_at_ms wall in
    record {
      event_id = rec.event_id;
      topic = rec.topic;
      msg_key = rec.msg_key;
      payload = rec.payload;
      state = pending;
      attempts = 0;
      next_attempt_at_ms = or_else rec.next_attempt_at_ms now;
      last_error = "";
      created_at_ms = now;
      updated_at_ms = now;
      call_uuid = rec.call_uuid;
      call_seq = seq;
      eligible_at_ms = if is_next then some now else none;
    }

abbrev pub seq_eq : Option ℕ → Option ℕ → Bool
seq_eq (some m) (some n) = m == n
seq_eq _ _ = false

-- The unique index on (topic, call_uuid, call_seq), in which NULLs are distinct.
unfoldable pub same_slot : Row → Row → Bool
same_slot r x =
    text_eq r.topic x.topic && text_eq r.call_uuid x.call_uuid && seq_eq r.call_seq x.call_seq

unfoldable pub conflicts : Row → Row → Bool
unfolding same_slot
conflicts r x = text_eq r.event_id x.event_id || same_slot r x

-- INSERT INTO outbox, under its primary key and its unique index.
unfoldable pub insert_row : Row → Sql (Unit {0})
unfolding statement conflicts
insert_row r = statement λ d.
    if any_where (conflicts r) d.rows
    then refused "UNIQUE constraint failed"
    else reply tt (record d { rows = d.rows ++ r ∷ [] })

-- `*assigned_sequence`: -1 for an ungrouped record.
abbrev pub assigned : Option ℕ → ℤ
assigned none = negsuc 0
assigned (some n) = pos n

-- `wall` is what wall_now_ms() reads. The result is the assigned sequence.
unfoldable pub insert_body : OutboxRecord → ℕ → Sql ℤ
unfolding ◌>>=◌ ◌>>◌ return refuse_retired make_room assign_sequence insert_row
insert_body rec wall = do
  refuse_retired rec
  make_room rec
  (seq, is_next) ← assign_sequence rec
  insert_row (new_row rec wall seq is_next)
  return (assigned seq)

unfoldable pub insert_pending : OutboxRecord → ℕ → Sql ℤ
unfolding transaction insert_body
insert_pending rec wall = transaction (insert_body rec wall)
