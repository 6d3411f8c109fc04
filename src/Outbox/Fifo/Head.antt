-- ===== src/Outbox/Fifo/Head.antt =====
-- Only the oldest waiting event of a call can be claimed.
use mod_event_kafka.Common.{
  ℕ, String, ◌≡◌, refl, sym, ap, ◌∙◌, ◌⊎◌, inl, inr, true, false, some, none, List, ◌∷◌, map, arith,
  &&_parts, Memᴰ, All-Mem, All-mono, All-map, All-members, subst, Option, is_empty, text_eq_iff,
  text_eq_self,
}
use mod_event_kafka.Common.Tables.Keys.{All-both, Pairwise-Mem, count_where-pos}
use mod_event_kafka.Common.Tables.Select.{All-select_where, All-selected, Memᴰ-select_where}
use mod_event_kafka.Outbox.Schema.{Row, CallStream, Store, find_stream, is_head, at_cursor}
use mod_event_kafka.Outbox.Engine.{Faults, done}
use mod_event_kafka.Outbox.Transitions.{is_claimable, mark_in_flight}
use mod_event_kafka.Outbox.Transitions.Effects.{mark_in_flight-done}
use mod_event_kafka.Outbox.Invariant.{IsValid, DistinctId, DistinctSlot}
use mod_event_kafka.Outbox.Invariant.Rows.{DistinctId-sym, DistinctSlot-sym}
use mod_event_kafka.Outbox.History.{in_call_of}
use mod_event_kafka.Outbox.History.Order.{cursor}
use mod_event_kafka.Outbox.Fifo.{rows_of, waiting, Contiguous}
use mod_event_kafka.Outbox.Fifo.Settling.{front}

-- The event is the oldest that waits.
abbrev pub First : String → List String → Type 0
First id ids = (rest : List String) × (ids ≡ id ∷ rest)

at_cursor-parts :
    (n : Option ℕ) (o : Option CallStream)
    → at_cursor n o ≡ true
    → (s : CallStream) × (o ≡ some s) × (n ≡ some s.next_seq)
at_cursor-parts none none h = cc
at_cursor-parts none (some s) h = cc
at_cursor-parts (some n) none h = cc
at_cursor-parts (some n) (some s) h = (s, refl, ground arith)

only_cursor :
    (r : Row) (ss : List CallStream)
    → is_empty r.call_uuid ≡ false
    → is_head ss r ≡ true
    → at_cursor r.call_seq (find_stream r.topic r.call_uuid ss) ≡ true
unfolding is_head
only_cursor r ss named h = rw named at h

module _ (t u : String) (nonempty : is_empty u ≡ false) where
  at_cursor-seq :
      (r : Row) (ss : List CallStream)
      → in_call_of t u r ≡ true
      → is_head ss r ≡ true
      → (s : CallStream) × (find_stream t u ss ≡ some s) × (r.call_seq ≡ some s.next_seq)
  unfolding is_head
  at_cursor-seq r ss mine h =
      let (topic, call) = &&_parts _ _ mine in
      let same_topic : r.topic ≡ t = (text_eq_iff r.topic t).0 topic in
      let same_call : r.call_uuid ≡ u = (text_eq_iff r.call_uuid u).0 call in
      at_cursor-parts r.call_seq (find_stream t u ss)
        (rw (← same_topic, ← same_call) (only_cursor r ss (rw same_call nonempty) h))

  -- A row of the call that may be sent is the first of those that wait.
  is_head-First :
      (d : Store) (r : Row)
      → IsValid d
      → Contiguous t u d
      → Memᴰ r d.rows
      → in_call_of t u r ≡ true
      → is_head d.streams r ≡ true
      → First r.event_id (waiting t u d)
  is_head-First d r v q m mine h =
      let (s, found, at) = at_cursor-seq r d.streams mine h in
      let seq : r.call_seq ≡ some (cursor t u d) = rw found at in
      let (rest, split, _, _) =
        front t u r.event_id r d v m (text_eq_self r.event_id) (rows_of t u d) (cursor t u d) _ mine
          seq (Memᴰ-select_where (in_call_of t u) r d.rows mine m) q.waits
          (All-both _ _ (rows_of t u d)
            (All-select_where (in_call_of t u) _ d.rows
              (Pairwise-Mem DistinctSlot d.rows r DistinctSlot-sym m v.slots))
            (All-selected (in_call_of t u) d.rows)) in
      (map (λ x. x.event_id) rest, ap (map (λ x. x.event_id)) split)

  -- The events that wait, as rows.
  waiting-row :
      (id : String) (d : Store)
      → Memᴰ id (waiting t u d)
      → (r : Row) × Memᴰ r d.rows × (in_call_of t u r ≡ true) × (r.event_id ≡ id)
  waiting-row id d m =
      All-Mem (λ e. (r : Row) × Memᴰ r d.rows × (in_call_of t u r ≡ true) × (r.event_id ≡ e))
        (waiting t u d) m
        (All-map _ (λ r. r.event_id) (rows_of t u d)
          (All-mono (λ r. Memᴰ r d.rows × (in_call_of t u r ≡ true)) _ (rows_of t u d)
            (λ r h. (r, h.0, h.1, refl))
            (All-both _ _ (rows_of t u d)
              (All-select_where (in_call_of t u) _ d.rows (All-members d.rows))
              (All-selected (in_call_of t u) d.rows))))

  -- Rows with the same id are the same.
  same_id :
      (d : Store) (x y : Row)
      → IsValid d
      → Memᴰ x d.rows
      → Memᴰ y d.rows
      → x.event_id ≡ y.event_id
      → x ≡ y
  same_id d x y v m n e =
      elim (All-Mem (λ z. (z ≡ y) ⊎ DistinctId y z) d.rows m
        (Pairwise-Mem DistinctId d.rows y DistinctId-sym n v.ids)) [
          | inl same ↦ same
          | inr apart ↦ cc ((text_eq_iff y.event_id x.event_id).1 (sym e), apart)
        ]

  -- A claim of a waiting event of the call that returns has claimed the oldest, and it still waits
  -- to be acknowledged, as do the others.
  pub mark_in_flight-First :
      (now : ℕ) (id : String) (fs : Faults) (d : Store) (fs' : Faults) (d' : Store)
      → mark_in_flight now id fs d ≡ done tt fs' d'
      → IsValid d
      → Contiguous t u d
      → Memᴰ id (waiting t u d)
      → First id (waiting t u d)
  unfolding is_claimable
  mark_in_flight-First now id fs d fs' d' h v q m =
      let (one, _, _) = mark_in_flight-done now id fs d fs' d' h in
      let (x, stored, may) =
        count_where-pos (is_claimable id d.streams) d.rows (omega (arith, one)) in
      let (y, kept, mine, named) = waiting-row id d m in
      let (parts, head) = &&_parts _ _ may in
      let hit : x.event_id ≡ id = (text_eq_iff x.event_id id).0 (&&_parts _ _ parts).0 in
      let same : x ≡ y = same_id d x y v stored kept (hit ∙ sym named) in
      rw (← named)
        (is_head-First d y v q kept mine (subst (λ z. is_head d.streams z ≡ true) same head))
