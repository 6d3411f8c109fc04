-- ===== src/Outbox/Invariant/Admissions.antt =====
-- An admission keeps the outbox well formed: the new row gets a free place behind the cursor.
use mod_event_kafka.Common.{
  ℕ, ◌+◌, ◌≤◌, ◌<◌, max, String, ◌≡◌, refl, sym, ◌∙◌, Bool, true, false, not, Option, none, some,
  [], ◌∷◌, ◌++◌, arith, ◌==◌, if◌then◌else◌, if_cases, All, All-append, All-mono, All-Mem,
  Pairwise-snoc, any_where, first_where_sound, All-update_where, is_empty, text_eq_self, ℤ, pos,
  negsuc, pos_part,
}
use mod_event_kafka.Outbox.Schema.{
  OutboxRecord, Row, CallStream, Store, int64_max, is_call, find_stream,
}
use mod_event_kafka.Outbox.Engine.{Faults, store_of}
use mod_event_kafka.Common.Tables.Keys.{
  first_where-update_where, first_where-append_none, first_where-none, any_where-false,
  Pairwise-update_where,
}
use mod_event_kafka.Outbox.Engine.Rules.{transaction_rule}
use mod_event_kafka.Outbox.Admission.{
  over_capacity, is_reclaimable, new_stream, create_stream, raise_admit, new_row, conflicts,
  insert_body, insert_pending,
}
use mod_event_kafka.Outbox.Admission.Effects.{
  room, Chosen, Opened, found, created, Ordered, ordered, Assigned, loose, in_call, Admitted,
  insert_pending-done,
}
use mod_event_kafka.Outbox.Transitions.{is_null}
use mod_event_kafka.Outbox.Invariant.{
  RowOk, StreamOk, DistinctId, DistinctSlot, DistinctCall, IsValid,
}
use mod_event_kafka.Outbox.Invariant.Rows.{
  RowOk-extend, Extends-update_where, Extends-append, find_stream-named, is_call_self,
  DistinctId-sym, DistinctCall-sym, DistinctSlot-sym,
}
use mod_event_kafka.Outbox.Invariant.Acks.{delete_where-IsValid}

room-IsValid : (rec : OutboxRecord) (d : Store) → IsValid d → IsValid (room rec d)
unfolding room
room-IsValid rec d v =
    if_cases IsValid (over_capacity rec d) (λ _. delete_where-IsValid is_reclaimable d v) (λ _. v)

-- A stream of the table satisfies what all of them do.
stream_of :
    (t u : String) (s : CallStream) (d : Store)
    → IsValid d
    → find_stream t u d.streams ≡ some s
    → StreamOk s
stream_of t u s d v h =
    All-Mem StreamOk d.streams (first_where_sound (is_call t u) d.streams s h).0 v.streams_ok

create_stream-IsValid :
    (rec : OutboxRecord) (d : Store)
    → is_empty rec.call_uuid ≡ false
    → is_empty rec.msg_key ≡ false
    → find_stream rec.topic rec.call_uuid d.streams ≡ none
    → IsValid d
    → IsValid (create_stream rec d)
unfolding create_stream
create_stream-IsValid rec d u k none_found v = record {
  rows_ok =
      All-mono _ _ d.rows
        (λ r h. RowOk-extend d.streams _ r (Extends-append d.streams (new_stream rec ∷ [])) h)
        v.rows_ok;
  ids = v.ids;
  slots = v.slots;
  streams_ok =
      All-append StreamOk d.streams (new_stream rec ∷ []) v.streams_ok
        (record { ordered = omega arith; bounded = omega arith; named = u; keyed = k }, tt);
  calls = Pairwise-snoc DistinctCall d.streams (new_stream rec) v.calls (
      All-mono _ _ d.streams (λ s h. DistinctCall-sym (new_stream rec) s h)
        (first_where-none (is_call rec.topic rec.call_uuid) d.streams none_found));
  turns = v.turns;
}

raise_admit-IsValid :
    (rec : OutboxRecord) (n : ℕ) (d : Store)
    → n < int64_max
    → IsValid d
    → IsValid (raise_admit rec n d)
unfolding raise_admit
raise_admit-IsValid rec n d small v = record {
  rows_ok =
      All-mono _ _ d.rows
        (λ r h.
          RowOk-extend d.streams _ r
            (Extends-update_where (is_call rec.topic rec.call_uuid)
              (λ s. record s { admit_seq = max s.admit_seq (n + 1) }) d.streams
              (λ s. (refl, refl, refl, refl, omega arith)))
            h)
        v.rows_ok;
  ids = v.ids;
  slots = v.slots;
  streams_ok =
      All-update_where StreamOk (is_call rec.topic rec.call_uuid) _ d.streams
        (λ s _ k. record {
          ordered = omega (arith, k.ordered);
          bounded = omega (arith, k.bounded);
          named = k.named;
          keyed = k.keyed;
        })
        v.streams_ok;
  calls =
      Pairwise-update_where DistinctCall (is_call rec.topic rec.call_uuid) _ d.streams (λ x y h. h)
        (λ x y h. h) v.calls;
  turns = v.turns;
}

-- Where an admission may insert: a valid store in which the row's place is in order.
insert-IsValid :
    (r : Row) (d : Store)
    → any_where (conflicts r) d.rows ≡ false
    → RowOk d.streams r
    → IsValid d
    → IsValid (record d { rows = d.rows ++ r ∷ [] })
unfolding conflicts
insert-IsValid r d fresh ok v = record {
  rows_ok = All-append (RowOk d.streams) d.rows (r ∷ []) v.rows_ok (ok, tt);
  ids =
      Pairwise-snoc DistinctId d.rows r v.ids
        (All-mono _ _ d.rows (λ x h. DistinctId-sym r x (ground arith)) apart);
  slots =
      Pairwise-snoc DistinctSlot d.rows r v.slots
        (All-mono _ _ d.rows (λ x h. DistinctSlot-sym r x (ground arith)) apart);
  streams_ok = v.streams_ok;
  calls = v.calls;
  turns = v.turns;
}
  where
    apart : All (λ x. conflicts r x ≡ false) d.rows
    apart = any_where-false (conflicts r) d.rows fresh

pub Opened-found :
    (rec : OutboxRecord) (d : Store) (s : CallStream) (d1 : Store)
    → Opened rec d s d1
    → find_stream rec.topic rec.call_uuid d1.streams ≡ some s
unfolding create_stream
Opened-found rec d _ _ (found s f key mode) = f
Opened-found rec d _ _ (created f small) =
    first_where-append_none (is_call rec.topic rec.call_uuid) d.streams (new_stream rec ∷ []) f
    ∙ rw (text_eq_self rec.topic, text_eq_self rec.call_uuid)

-- The stream that an admission opened: it is in the table, in order, and has the record's key.
opened_lem :
    (rec : OutboxRecord) (d : Store) (s : CallStream) (d1 : Store)
    → is_empty rec.call_uuid ≡ false
    → is_empty rec.msg_key ≡ false
    → IsValid d
    → Opened rec d s d1
    → IsValid d1
      × (find_stream rec.topic rec.call_uuid d1.streams ≡ some s)
      × (s.msg_key ≡ rec.msg_key)
opened_lem rec d _ _ u k v (found s f key mode) = (v, f, key)
opened_lem rec d _ _ u k v (created f small) =
    (create_stream-IsValid rec d u k f v, Opened-found rec d _ _ (created f small), refl)

-- Every int64_t sequence that a caller can hand in.
abbrev pub FitsInt64 : OutboxRecord → Type 0
FitsInt64 rec = pos_part rec.call_seq ≤ int64_max

Chosen-bounds :
    (z : ℤ) (s : CallStream) (n : ℕ)
    → pos_part z ≤ int64_max
    → StreamOk s
    → Chosen z s n
    → (s.next_seq ≤ n) × (n ≤ int64_max)
Chosen-bounds (negsuc a) s n h k c = omega (arith, k.ordered, k.bounded)
Chosen-bounds (pos a) s n h k c = omega arith

stamp_lem : (b : Bool) (now : ℕ) → is_null (if b then some now else none) ≡ not b
stamp_lem true now = refl
stamp_lem false now = refl

Ordered-IsValid :
    (rec : OutboxRecord) (wall n : ℕ) (b : Bool) (d d2 : Store)
    → FitsInt64 rec
    → is_empty rec.call_uuid ≡ false
    → is_empty rec.msg_key ≡ false
    → IsValid d
    → Ordered rec d n b d2
    → IsValid d2 × RowOk d2.streams (new_row rec wall (some n) b)
unfolding raise_admit
Ordered-IsValid rec wall n b d d2 fits u k v (ordered s d1 o c next m e) =
    let (v1, f, key) = opened_lem rec d s d1 u k v o in
    let ok = stream_of rec.topic rec.call_uuid s d1 v1 f in
    let (low, high) = Chosen-bounds rec.call_seq s n fits ok c in
    let small : n < int64_max = omega arith in
    let (t, w) = find_stream-named rec.topic rec.call_uuid d1.streams s f in
    let hit : is_call rec.topic rec.call_uuid s ≡ true = rw (← t, ← w) (is_call_self s) in
    let raised =
      first_where-update_where (is_call rec.topic rec.call_uuid) (is_call rec.topic rec.call_uuid)
        (λ x. record x { admit_seq = max x.admit_seq (n + 1) }) d1.streams s (λ y. refl) f in
    rw e (
      raise_admit-IsValid rec n d1 small v1,
      RowOk.in_call (record s { admit_seq = max s.admit_seq (n + 1) }) n (rw hit at raised)
          (record {
            named = u;
            seq = refl;
            low = low;
            high = omega arith;
            flying = λ q. cc;
            stamp = rw next (stamp_lem (n == s.next_seq) _);
            key = sym key;
          }),
    )

Admitted-IsValid :
    (rec : OutboxRecord) (wall : ℕ) (d : Store) (a : ℤ) (d' : Store)
    → FitsInt64 rec
    → IsValid d
    → Admitted rec wall d a d'
    → IsValid d'
Admitted-IsValid rec wall d a d' fits v ad =
    let (v1, ok) = go ad.seq ad.is_next ad.before ad.placed in
    rw ad.after (insert-IsValid (new_row rec wall ad.seq ad.is_next) ad.before ad.fresh ok v1)
  where
    go :
        (q : Option ℕ) (b : Bool) (d1 : Store)
        → Assigned rec (room rec d) q b d1
        → IsValid d1 × RowOk d1.streams (new_row rec wall q b)
    go _ _ _ (loose u) = (room-IsValid rec d v, RowOk.loose u refl refl)
    go _ _ _ (in_call {n} {b} {d'} u k o) =
        Ordered-IsValid rec wall n b (room rec d) d' fits u k (room-IsValid rec d v) o

-- An admission keeps the outbox well formed, whatever the engine refuses.
pub insert_pending-IsValid :
    (rec : OutboxRecord) (wall : ℕ) (fs : Faults) (d : Store)
    → FitsInt64 rec
    → IsValid d
    → IsValid (store_of (insert_pending rec wall fs d))
unfolding insert_pending
insert_pending-IsValid rec wall fs d fits v =
    transaction_rule IsValid (insert_body rec wall) fs d v (λ a fs' d' h.
      Admitted-IsValid rec wall d a d' fits v (insert_pending-done rec wall fs d a fs' d' h))
