-- ===== src/Outbox/Invariant/Rows.antt =====
-- Rows and streams that keep their places: changes of a row's state, and of what a stream counts.
use mod_event_kafka.Common.{
  ℕ, ◌≤◌, String, ◌≡◌, refl, Bool, true, false, some, List, ◌++◌, arith, if◌then◌else◌, &&_parts,
  update_where, first_where_sound, All-update_where, text_eq_iff, text_eq_self, text_eq_comm,
}
use mod_event_kafka.Outbox.Schema.{
  OutboxState, in_flight, Row, CallStream, Store, state_eq, is_call, find_stream,
}
use mod_event_kafka.Common.Tables.Keys.{
  first_where-update_where, first_where-append, Pairwise-update_where,
}
use mod_event_kafka.Outbox.Admission.{same_slot}
use mod_event_kafka.Outbox.Invariant.{
  RowOk, loose, in_call, DistinctId, DistinctSlot, DistinctCall, IsValid,
}

-- A row that leaves flight, or stays out of it, keeps its place.
pub RowOk-rest :
    (ss : List CallStream) (r : Row) (st : OutboxState) (next updated : ℕ) (error : String)
    → state_eq st in_flight ≡ false
    → RowOk ss r
    → RowOk ss (record r {
      state = st;
      next_attempt_at_ms = next;
      last_error = error;
      updated_at_ms = updated;
    })
RowOk-rest ss r st next updated error h (loose u q e) = loose u q e
RowOk-rest ss r st next updated error h (in_call s n f c) = in_call s n f (record {
  named = c.named;
  seq = c.seq;
  low = c.low;
  high = c.high;
  flying = λ k. cc;
  stamp = c.stamp;
  key = c.key;
})

-- Every stream of the first list is in the second, with the cursor, the key and the mode it had.
abbrev pub Extends : List CallStream → List CallStream → Type 0
Extends ss ss' =
    (t u : String) (s : CallStream)
    → find_stream t u ss ≡ some s
    → (s' : CallStream) × (find_stream t u ss' ≡ some s')
      × (s'.next_seq ≡ s.next_seq)
      × (s'.msg_key ≡ s.msg_key)
      × (s.admit_seq ≤ s'.admit_seq)

pub RowOk-extend : (ss ss' : List CallStream) (r : Row) → Extends ss ss' → RowOk ss r → RowOk ss' r
RowOk-extend ss ss' r x (loose u q e) = loose u q e
RowOk-extend ss ss' r x (in_call s n f c) =
    let (s', f', next, key, admit) = x r.topic r.call_uuid s f in
    in_call s' n f' (record {
      named = c.named;
      seq = c.seq;
      low = omega arith;
      high = omega arith;
      flying = λ k. omega (arith, c.flying k);
      stamp = rw next c.stamp;
      key = rw key c.key;
    })

-- An UPDATE of streams that keeps names, cursors and keys, and lowers no admission count.
pub Extends-update_where :
    (q : CallStream → Bool) (f : CallStream → CallStream) (ss : List CallStream)
    → ((s : CallStream)
        → ((f s).topic ≡ s.topic)
          × ((f s).call_uuid ≡ s.call_uuid)
          × ((f s).next_seq ≡ s.next_seq)
          × ((f s).msg_key ≡ s.msg_key)
          × (s.admit_seq ≤ (f s).admit_seq))
    → Extends ss (update_where q f ss)
Extends-update_where q f ss k t u s e = (
  if q s then f s else s,
  first_where-update_where (is_call t u) q f ss s (λ y. ground (arith, k y)) e,
  ground (arith, k s),
  ground (arith, k s),
  ground (arith, k s),
)

pub Extends-append : (ss ts : List CallStream) → Extends ss (ss ++ ts)
Extends-append ss ts t u s e =
    (s, first_where-append (is_call t u) ss ts s e, refl, refl, omega arith)

-- An UPDATE of rows that keeps ids and places is checked row by row.
module _ (p : List CallStream → Row → Bool) (f : Row → Row)
    (keeps : (r : Row)
      → ((f r).event_id ≡ r.event_id)
        × ((f r).topic ≡ r.topic)
        × ((f r).call_uuid ≡ r.call_uuid)
        × ((f r).call_seq ≡ r.call_seq)) where
  pub update_rows-IsValid :
      (d : Store)
      → ((r : Row) → p d.streams r ≡ true → RowOk d.streams r → RowOk d.streams (f r))
      → IsValid d
      → IsValid (record d { rows = update_where (p d.streams) f d.rows })
  unfolding same_slot
  update_rows-IsValid d ok v = record {
    rows_ok = All-update_where (RowOk d.streams) (p d.streams) f d.rows ok v.rows_ok;
    ids =
        Pairwise-update_where DistinctId (p d.streams) f d.rows (λ x y h. rw (keeps x).0 h)
          (λ x y h. rw (keeps y).0 h) v.ids;
    slots =
        Pairwise-update_where DistinctSlot (p d.streams) f d.rows (λ x y h. ground (arith, keeps x))
          (λ x y h. ground (arith, keeps y)) v.slots;
    streams_ok = v.streams_ok;
    calls = v.calls;
    turns = v.turns;
  }

-- A stream that is found by a call's key has that key.
pub find_stream-named :
    (t u : String) (ss : List CallStream) (s : CallStream)
    → find_stream t u ss ≡ some s
    → (s.topic ≡ t) × (s.call_uuid ≡ u)
find_stream-named t u ss s h =
    let hit = (first_where_sound (is_call t u) ss s h).1 in
    let (a, b) = &&_parts _ _ hit in ((text_eq_iff s.topic t).0 a, (text_eq_iff s.call_uuid u).0 b)

pub is_call_self : (s : CallStream) → is_call s.topic s.call_uuid s ≡ true
is_call_self s = rw (text_eq_self s.topic, text_eq_self s.call_uuid)

pub DistinctId-sym : (a b : Row) → DistinctId a b → DistinctId b a
DistinctId-sym a b h = rw (text_eq_comm b.event_id a.event_id) h

pub DistinctCall-sym : (a b : CallStream) → DistinctCall a b → DistinctCall b a
DistinctCall-sym a b h = rw (text_eq_comm a.topic b.topic, text_eq_comm a.call_uuid b.call_uuid) h

pub DistinctSlot-sym : (a b : Row) → DistinctSlot a b → DistinctSlot b a
unfolding same_slot
DistinctSlot-sym a b h =
    ground (arith, text_eq_comm a.topic b.topic, text_eq_comm a.call_uuid b.call_uuid)
