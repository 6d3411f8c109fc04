-- ===== src/Outbox/Invariant/Claims.antt =====
-- The transitions of src/kafka_outbox.cpp but the acknowledgement keep the outbox well formed.
use mod_event_kafka.Common.{
  ℕ, String, ◌≡◌, refl, ap, inl, inr, Bool, true, some, List, arith, ◌==◌, Option-cases, if_cases,
  All-mono, first_where, update_where, count_where, All-update_where, ℤ, pos_part,
}
use mod_event_kafka.Outbox.Schema.{
  pending, in_flight, dead, Row, CallStream, Store, state_eq, is_call, at_cursor,
}
use mod_event_kafka.Outbox.Engine.{
  Faults, Outcome, done, thrown, Sql, ◌>>=◌, raise, skip, reply, continue, store_of,
}
use mod_event_kafka.Common.Tables.Keys.{Pairwise-update_where}
use mod_event_kafka.Outbox.Engine.Rules.{transaction_rule, statement_rule}
use mod_event_kafka.Outbox.Transitions.{
  has_id, require_one, is_claimable, claim, claim_row, tick, serve, claim_body, mark_in_flight,
  is_in_flight, update_rows, back_off, mark_retry, is_live_id, bury, mark_dead, is_dead, revive,
  retry_dead, requeue, requeue_in_flight, is_expired, expire, expire_ttl,
}
use mod_event_kafka.Outbox.Transitions.Effects.{mark_in_flight-done}
use mod_event_kafka.Outbox.Invariant.{RowOk, loose, in_call, StreamOk, DistinctCall, IsValid}
use mod_event_kafka.Outbox.Invariant.Rows.{
  RowOk-rest, RowOk-extend, Extends-update_where, update_rows-IsValid,
}

-- A claimed row of a call was its head.
RowOk-claim :
    (ss : List CallStream) (now : ℕ) (id : String) (r : Row)
    → is_claimable id ss r ≡ true
    → RowOk ss r
    → RowOk ss (claim now r)
unfolding is_claimable
RowOk-claim ss now id r h (loose u q e) = loose u q e
RowOk-claim ss now id r h (in_call s n f c) = in_call s n f (record {
  named = c.named;
  seq = c.seq;
  low = c.low;
  high = c.high;
  flying = λ k. ground (arith, ap (at_cursor (some n)) f);
  stamp = c.stamp;
  key = c.key;
})

claim_row-IsValid : (now : ℕ) (id : String) (d : Store) → IsValid d → IsValid (claim_row now id d)
unfolding claim_row
claim_row-IsValid now id d v =
    update_rows-IsValid (is_claimable id) (claim now) (λ r. (refl, refl, refl, refl)) d
      (λ r h k. RowOk-claim d.streams now id r h k) v

-- An UPDATE of streams that keeps their names and counts, as Extends-update_where wants it.
streams-IsValid :
    (q : CallStream → Bool) (turn : ℕ) (d : Store)
    → IsValid d
    → IsValid
        (record d { streams = update_where q (λ s. record s { last_served_ms = turn }) d.streams })
streams-IsValid q turn d v = record {
  rows_ok =
      All-mono _ _ d.rows
        (λ r k.
          RowOk-extend d.streams _ r
            (Extends-update_where q (λ s. record s { last_served_ms = turn }) d.streams
              (λ s. (refl, refl, refl, refl, omega arith)))
            k)
        v.rows_ok;
  ids = v.ids;
  slots = v.slots;
  streams_ok =
      All-update_where StreamOk q _ d.streams
        (λ s _ k. record {
          ordered = k.ordered;
          bounded = k.bounded;
          named = k.named;
          keyed = k.keyed;
        })
        v.streams_ok;
  calls = Pairwise-update_where DistinctCall q _ d.streams (λ x y h. h) (λ x y h. h) v.calls;
  turns = v.turns;
}

serve-IsValid : (id : String) (d : Store) → IsValid d → IsValid (serve id d)
unfolding serve
serve-IsValid id d v = elim (Option-cases (first_where (has_id id) d.rows)) [
  | inl e ↦ rw (e, serve) v
  | inr (r, e) ↦ rw (e, serve) (streams-IsValid (is_call r.topic r.call_uuid) d.turn d v)
]

tick-IsValid : (d : Store) → IsValid d → IsValid (tick d)
unfolding tick
tick-IsValid d v = record {
  rows_ok = v.rows_ok;
  ids = v.ids;
  slots = v.slots;
  streams_ok = v.streams_ok;
  calls = v.calls;
  turns = ground (arith, v.turns);
}

-- A claim keeps the outbox well formed, whatever the engine refuses.
pub mark_in_flight-IsValid :
    (now : ℕ) (id : String) (fs : Faults) (d : Store)
    → IsValid d
    → IsValid (store_of (mark_in_flight now id fs d))
unfolding mark_in_flight
mark_in_flight-IsValid now id fs d v =
    transaction_rule IsValid (claim_body now id) fs d v λ a fs' d' h.
      rw (mark_in_flight-done now id fs d fs' d' h).2
        (serve-IsValid id _ (tick-IsValid _ (claim_row-IsValid now id d v)))

-- One UPDATE of rows, followed by the check of the number of rows.
module _ (p : List CallStream → Row → Bool) (f : Row → Row)
    (keeps : (r : Row)
      → ((f r).event_id ≡ r.event_id)
        × ((f r).topic ≡ r.topic)
        × ((f r).call_uuid ≡ r.call_uuid)
        × ((f r).call_seq ≡ r.call_seq))
    (ok : (ss : List CallStream) (r : Row) → RowOk ss r → RowOk ss (f r)) where
  update-IsValid : (fs : Faults) (d : Store) → IsValid d → IsValid (store_of (update_rows p f fs d))
  unfolding update_rows
  update-IsValid fs d v =
      statement_rule IsValid
        (λ x.
          reply (count_where (p x.streams) x.rows)
            (record x { rows = update_where (p x.streams) f x.rows }))
        fs d v
        (λ n d' h.
          let made : IsValid (record d { rows = update_where (p d.streams) f d.rows }) =
            update_rows-IsValid p f keeps d (λ r _ k. ok d.streams r k) v in
          let same : record d { rows = update_where (p d.streams) f d.rows } ≡ d' = cc in
          rw (← same) made)

  checked-IsValid :
      (e : String) (fs : Faults) (d : Store)
      → IsValid d
      → IsValid (store_of (◌>>=◌ (update_rows p f) (λ n. require_one n e) fs d))
  unfolding ◌>>=◌ require_one raise skip
  checked-IsValid e fs d v = go (update_rows p f fs d) (update-IsValid fs d v)
    where
      go :
          (o : Outcome ℕ)
          → IsValid (store_of o)
          → IsValid (store_of (continue o (λ n. require_one n e)))
      go (done n fs1 d1) k =
          if_cases {A = Sql (Unit {0})} (λ m. IsValid (store_of (m fs1 d1))) (n == 1) (λ _. k)
            (λ _. k)
      go (thrown x fs1 d1) k = k

pub mark_retry-IsValid :
    (now : ℕ) (id : String) (next : ℕ) (error : String) (fs : Faults) (d : Store)
    → IsValid d
    → IsValid (store_of (mark_retry now id next error fs d))
unfolding mark_retry
mark_retry-IsValid now id next error fs d v =
    checked-IsValid (λ _. is_in_flight id) (back_off next error now) (λ r. (refl, refl, refl, refl))
      (λ ss r k. RowOk-rest ss r pending next now error refl k) _ fs d v

pub mark_dead-IsValid :
    (now : ℕ) (id error : String) (fs : Faults) (d : Store)
    → IsValid d
    → IsValid (store_of (mark_dead now id error fs d))
unfolding mark_dead
mark_dead-IsValid now id error fs d v =
    checked-IsValid (λ _. is_live_id id) (bury error now) (λ r. (refl, refl, refl, refl))
      (λ ss r k. RowOk-rest ss r dead r.next_attempt_at_ms now error refl k) _ fs d v

pub retry_dead-IsValid :
    (due now : ℕ) (id : String) (fs : Faults) (d : Store)
    → IsValid d
    → IsValid (store_of (retry_dead due now id fs d))
unfolding retry_dead
retry_dead-IsValid due now id fs d v =
    checked-IsValid (λ _. is_dead id) (revive due now) (λ r. (refl, refl, refl, refl))
      (λ ss r k. RowOk-rest ss r pending due now "" refl k) _ fs d v

pub requeue_in_flight-IsValid :
    (due now : ℕ) (fs : Faults) (d : Store)
    → IsValid d
    → IsValid (store_of (requeue_in_flight due now fs d))
unfolding requeue_in_flight
requeue_in_flight-IsValid due now fs d v = go (update_rows _ _ fs d) (
    update-IsValid (λ _ r. state_eq r.state in_flight) (requeue due now)
      (λ r. (refl, refl, refl, refl))
      (λ ss r k. RowOk-rest ss r pending due now r.last_error refl k) fs d v)
  where
    go : (o : Outcome ℕ) → IsValid (store_of o) → IsValid (store_of (continue o (λ n. skip)))
    go (done n fs1 d1) k = k
    go (thrown x fs1 d1) k = k

pub expire_ttl-IsValid :
    (now : ℕ) (ttl : ℤ) (fs : Faults) (d : Store)
    → IsValid d
    → IsValid (store_of (expire_ttl now ttl fs d))
unfolding expire_ttl
expire_ttl-IsValid now ttl fs d v =
    if_cases {A = Sql ℕ} (λ m. IsValid (store_of (m fs d))) (pos_part ttl == 0) (λ _. v)
      (λ _.
        update-IsValid (is_expired now (pos_part ttl)) (expire now) (λ r. (refl, refl, refl, refl))
          (λ ss r k. RowOk-rest ss r dead r.next_attempt_at_ms now "expired_ttl" refl k) fs d v)
