-- ===== src/Outbox/Invariant/Acks.antt =====
-- An acknowledgement moves the cursor of the call by one and keeps the outbox well formed.
use mod_event_kafka.Common.{
  ℕ, ◌+◌, String, ◌≡◌, refl, sym, ◌∙◌, ◌≢◌, ◌⊎◌, inl, inr, Bool, true, false, ◌&&◌, some, List,
  arith, if◌then◌else◌, Bool-cases, &&_parts, Memᴰ, All, All-Mem, first_where, delete_where,
  first_where_sound, All-delete_where, text_eq, text_eq_iff,
}
use mod_event_kafka.Outbox.Schema.{
  in_flight, Row, CallStream, Store, state_eq, is_call, find_stream,
}
use mod_event_kafka.Outbox.Engine.{Faults, store_of}
use mod_event_kafka.Common.Tables.Keys.{
  first_where-update_where, All-update_where_to, All-both, All-delete_where_ne,
  Pairwise-update_where, Pairwise-delete_where, Pairwise-Mem,
}
use mod_event_kafka.Outbox.Engine.Rules.{transaction_rule}
use mod_event_kafka.Outbox.Admission.{same_slot}
use mod_event_kafka.Outbox.Transitions.{
  has_id, is_in_flight, is_cursor, advance, is_successor, promote, delete_row, ack_body, mark_acked,
}
use mod_event_kafka.Outbox.Transitions.Effects.{mark_acked-done, acked}
use mod_event_kafka.Outbox.Invariant.Rows.{
  find_stream-named, is_call_self, DistinctCall-sym, DistinctSlot-sym,
}
use mod_event_kafka.Outbox.Invariant.{
  InCall, RowOk, loose, in_call, StreamOk, DistinctId, DistinctSlot, DistinctCall, IsValid,
}

-- The cursor of another call is not the acknowledged row's.
pub other_cursor :
    (r : Row) (t u : String) (ss : List CallStream) (s : CallStream)
    → text_eq t r.topic && text_eq u r.call_uuid ≡ false
    → find_stream t u ss ≡ some s
    → is_cursor r s ≡ false
unfolding is_cursor
other_cursor r t u ss s other f = let (a, b) = find_stream-named t u ss s f in rw (a, b, other)

abbrev pub next_cursor : CallStream → CallStream
next_cursor x = record x { next_seq = x.next_seq + 1 }

module _ (now : ℕ) (id : String) (r : Row) (s : CallStream) (n : ℕ) (d : Store)
    (at : find_stream r.topic r.call_uuid d.streams ≡ some s) (c : InCall s n r)
    (head : n ≡ s.next_seq) where
  abbrev promoted : Row → Row
  promoted x = if is_successor r x then record x { eligible_at_ms = some now } else x

  -- A row of the same call that is not the acknowledged one stands behind it.
  InCall-behind :
      (x : Row) (m : ℕ)
      → text_eq x.topic r.topic ≡ true
      → text_eq x.call_uuid r.call_uuid ≡ true
      → m ≢ n
      → InCall s m x
      → InCall (next_cursor s) m (promoted x)
  unfolding is_successor
  InCall-behind x m t u apart k = record {
    named = ground (arith, k.named);
    seq = ground (arith, k.seq);
    low = omega (arith, k.low);
    high = k.high;
    flying = λ w. absurd (apart (k.flying (ground arith) ∙ sym head));
    stamp = ground (arith, k.stamp, k.seq, k.low, c.seq);
    key = ground (arith, k.key);
  }

  pub cursor_of_call : is_cursor r s ≡ true
  unfolding is_cursor
  cursor_of_call =
      let (t, u) = find_stream-named r.topic r.call_uuid d.streams s at in
      ground (arith, c.seq, is_call_self s)

  pub found_after :
      (t u : String) (s' : CallStream)
      → find_stream t u d.streams ≡ some s'
      → find_stream t u (advance r d).streams ≡ some (if is_cursor r s' then next_cursor s' else s')
  unfolding advance
  found_after t u s' f =
      first_where-update_where (is_call t u) (is_cursor r) next_cursor d.streams s' (λ y. refl) f

  promoted_names :
      (x : Row)
      → ((promoted x).topic ≡ x.topic)
        × ((promoted x).call_uuid ≡ x.call_uuid)
        × ((promoted x).event_id ≡ x.event_id)
  promoted_names x = ground arith

  -- A row of the same call.
  RowOk-same :
      (x : Row) (s' : CallStream) (m : ℕ)
      → text_eq x.topic r.topic ≡ true
      → text_eq x.call_uuid r.call_uuid ≡ true
      → same_slot r x ≡ false
      → find_stream x.topic x.call_uuid d.streams ≡ some s'
      → InCall s' m x
      → RowOk (advance r d).streams (promoted x)
  unfolding same_slot is_successor
  RowOk-same x s' m t u apart f k =
      let topic : x.topic ≡ r.topic = (text_eq_iff x.topic r.topic).0 t in
      let call : x.call_uuid ≡ r.call_uuid = (text_eq_iff x.call_uuid r.call_uuid).0 u in
      let found : find_stream r.topic r.call_uuid d.streams ≡ some s' = rw (← topic, ← call) f in
      let same : s' ≡ s = cc in
      let ne : m ≢ n =
        ground
          (arith, text_eq_iff r.topic x.topic, text_eq_iff r.call_uuid x.call_uuid, c.seq, k.seq) in
      let after = found_after x.topic x.call_uuid s' f in
      let moved : is_cursor r s' ≡ true = rw same cursor_of_call in
      let stream : find_stream x.topic x.call_uuid (advance r d).streams ≡ some (next_cursor s) =
        rw (moved, same) at after in
      in_call (next_cursor s) m (rw ((promoted_names x).0, (promoted_names x).1) stream)
        (InCall-behind x m t u ne (rw (← same) k))

  -- A row of another call does not see the change.
  RowOk-other :
      (x : Row) (s' : CallStream) (m : ℕ)
      → text_eq x.topic r.topic && text_eq x.call_uuid r.call_uuid ≡ false
      → find_stream x.topic x.call_uuid d.streams ≡ some s'
      → InCall s' m x
      → RowOk (advance r d).streams (promoted x)
  unfolding is_successor is_cursor
  RowOk-other x s' m other f k =
      let kept : promoted x ≡ x = ground arith in
      let still : is_cursor r s' ≡ false =
        other_cursor r x.topic x.call_uuid d.streams s' other f in
      rw kept (in_call s' m (rw still at (found_after x.topic x.call_uuid s' f)) k)

  RowOk-acked :
      (x : Row)
      → same_slot r x ≡ false
      → RowOk d.streams x
      → RowOk (advance r d).streams (promoted x)
  unfolding is_successor
  RowOk-acked x apart (loose u q e) =
      let kept : promoted x ≡ x = ground arith in rw kept (loose u q e)
  RowOk-acked x apart (in_call s' m f k) = elim (Bool-cases (text_eq x.topic r.topic)) [
    | inl t ↦ elim (Bool-cases (text_eq x.call_uuid r.call_uuid)) [
      | inl u ↦ RowOk-same x s' m t u apart f k
      | inr u ↦ RowOk-other x s' m (rw (t, u)) f k
    ]
    | inr t ↦ RowOk-other x s' m (rw t) f k
  ]

  module _ (v : IsValid d) (mine : Memᴰ r d.rows) (named : has_id id r ≡ true) where
    rows_acked :
        All (RowOk (advance r d).streams) (delete_row id (promote now r (advance r d))).rows
    unfolding advance promote delete_row same_slot
    rows_acked = All-delete_where_ne (RowOk (advance r d).streams) (has_id id) _ (
        All-update_where_to (λ x. RowOk d.streams x × ((x ≡ r) ⊎ DistinctSlot r x))
          (λ y. has_id id y ≡ false → RowOk (advance r d).streams y) (is_successor r)
          (λ x. record x { eligible_at_ms = some now }) d.rows
          (λ x h other. elim h.1 [
            | inl e ↦ cc (rw ((promoted_names x).2, e, named) at other)
            | inr apart ↦ RowOk-acked x apart h.0
          ])
          (All-both (RowOk d.streams) _ d.rows v.rows_ok
            (Pairwise-Mem DistinctSlot d.rows r DistinctSlot-sym mine v.slots)))

    stream_acked :
        (x : CallStream)
        → StreamOk x × ((x ≡ s) ⊎ DistinctCall s x)
        → StreamOk (if is_cursor r x then next_cursor x else x)
    unfolding is_cursor
    stream_acked x (k, inl e) = record {
      ordered = ground (arith, k.ordered, c.low, c.high, c.seq);
      bounded = ground (arith, k.bounded);
      named = ground (arith, k.named);
      keyed = ground (arith, k.keyed);
    }
    stream_acked x (k, inr e) =
        let (t, u) = find_stream-named r.topic r.call_uuid d.streams s at in
        let still : is_cursor r x ≡ false = ground (arith, e) in ground (arith, k, still)

    streams_acked : All StreamOk (advance r d).streams
    unfolding advance is_cursor
    streams_acked =
        All-update_where_to (λ x. StreamOk x × ((x ≡ s) ⊎ DistinctCall s x)) StreamOk (is_cursor r)
          next_cursor d.streams (λ x h. stream_acked x h)
          (All-both StreamOk _ d.streams v.streams_ok (
            Pairwise-Mem DistinctCall d.streams s DistinctCall-sym
              (first_where_sound (is_call r.topic r.call_uuid) d.streams s at).0 v.calls))

    acked-in_call-IsValid : IsValid (delete_row id (promote now r (advance r d)))
    unfolding delete_row promote advance same_slot
    acked-in_call-IsValid = record {
      rows_ok = rows_acked;
      ids = Pairwise-delete_where DistinctId (has_id id) _ (
          Pairwise-update_where DistinctId (is_successor r) _ d.rows (λ x y h. h) (λ x y h. h)
            v.ids);
      slots = Pairwise-delete_where DistinctSlot (has_id id) _ (
          Pairwise-update_where DistinctSlot (is_successor r) _ d.rows (λ x y h. h) (λ x y h. h)
            v.slots);
      streams_ok = streams_acked;
      calls =
          Pairwise-update_where DistinctCall (is_cursor r) _ d.streams (λ x y h. h) (λ x y h. h)
            v.calls;
      turns = v.turns;
    }

pub delete_where-IsValid :
    (p : Row → Bool) (d : Store) → IsValid d → IsValid (record d { rows = delete_where p d.rows })
delete_where-IsValid p d v = record {
  rows_ok = All-delete_where (RowOk d.streams) p d.rows v.rows_ok;
  ids = Pairwise-delete_where DistinctId p d.rows v.ids;
  slots = Pairwise-delete_where DistinctSlot p d.rows v.slots;
  streams_ok = v.streams_ok;
  calls = v.calls;
  turns = v.turns;
}

-- The acknowledged row, whichever it is.
acked-IsValid :
    (now : ℕ) (id : String) (r : Row) (d : Store)
    → first_where (is_in_flight id) d.rows ≡ some r
    → IsValid d
    → IsValid (acked now id r d)
unfolding acked is_in_flight
acked-IsValid now id r d h v =
    let (mine, hit) = first_where_sound (is_in_flight id) d.rows r h in
    let (named, flying) = &&_parts _ _ hit in
    go (All-Mem (RowOk d.streams) d.rows mine v.rows_ok) mine named flying
  where
    go :
        RowOk d.streams r
        → Memᴰ r d.rows
        → has_id id r ≡ true
        → state_eq r.state in_flight ≡ true
        → IsValid (acked now id r d)
    go (loose u q e) mine named flying = rw u (delete_where-IsValid (has_id id) d v)
    go (in_call s n f c) mine named flying =
        rw c.named (acked-in_call-IsValid now id r s n d f c (c.flying flying) v mine named)

-- An acknowledgement keeps the outbox well formed, whatever the engine refuses.
pub mark_acked-IsValid :
    (now : ℕ) (id : String) (fs : Faults) (d : Store)
    → IsValid d
    → IsValid (store_of (mark_acked now id fs d))
unfolding mark_acked
mark_acked-IsValid now id fs d v = transaction_rule IsValid (ack_body now id) fs d v λ a fs' d' h.
    let (r, found, _, e) = mark_acked-done now id fs d fs' d' h in
    rw e (acked-IsValid now id r d found v)
