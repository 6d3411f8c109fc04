-- ===== src/Outbox/Transitions/Effects.antt =====
-- What a transition that returns has done to the store, under any faults.
use mod_event_kafka.Common.{
  ℕ, ◌<◌, String, ◌≡◌, ◌⊎◌, true, Option, none, some, arith, if◌then◌else◌, first_where,
  count_where,
}
use mod_event_kafka.Outbox.Schema.{Row, Store, int64_max, is_ungrouped}
use mod_event_kafka.Outbox.Engine.{Faults, done, raise, skip}
use mod_event_kafka.Outbox.Engine.Steady.{Steady, Steady-raise, Steady-skip, Steady-if, steady}
use mod_event_kafka.Outbox.Transitions.{
  require_one, is_claimable, claim_row, tick, serve, claim_body, mark_in_flight, is_in_flight,
  is_cursor, advance, promote, advance_call, delete_row, settle_ack, ack_body, mark_acked,
}

Steady-require_one : (n : ℕ) (e : String) → Steady (require_one n e)
unfolding require_one
Steady-require_one n e = Steady-if _ skip (raise e) Steady-skip (Steady-raise e)

Steady-mark_in_flight : (now : ℕ) (id : String) → Steady (mark_in_flight now id)
unfolding mark_in_flight claim_body
Steady-mark_in_flight now id = search (steady, Steady-require_one) depth 9

-- A claim that returns has found one sendable row, and the turn was not exhausted.
pub mark_in_flight-done :
    (now : ℕ) (id : String) (fs : Faults) (d : Store) (fs' : Faults) (d' : Store)
    → mark_in_flight now id fs d ≡ done tt fs' d'
    → (count_where (is_claimable id d.streams) d.rows ≡ 1)
      × (d.turn < int64_max)
      × (d' ≡ serve id (tick (claim_row now id d)))
unfolding mark_in_flight
mark_in_flight-done now id fs d fs' d' h =
    let calm = (Steady-mark_in_flight now id).calm fs d tt fs' d' h in ground arith

Steady-advance_call : (now : ℕ) (r : Row) → Steady (advance_call now r)
unfolding advance_call
Steady-advance_call now r =
    Steady-if (is_ungrouped r) skip _ Steady-skip (search (steady, Steady-require_one) depth 9)

Steady-settle_ack : (now : ℕ) (id : String) (o : Option Row) → Steady (settle_ack now id o)
unfolding settle_ack
Steady-settle_ack now id none = Steady-raise _
Steady-settle_ack now id (some r) = search (steady, Steady-advance_call)

Steady-mark_acked : (now : ℕ) (id : String) → Steady (mark_acked now id)
unfolding mark_acked ack_body
Steady-mark_acked now id = search (steady, Steady-settle_ack) depth 9

-- The store after the acknowledgement of the row r.
unfoldable pub acked : ℕ → String → Row → Store → Store
unfolding advance promote delete_row
acked now id r d =
    if is_ungrouped r then delete_row id d else delete_row id (promote now r (advance r d))

-- An acknowledgement that returns has found an in-flight row; a grouped one was the call's head.
pub mark_acked-done :
    (now : ℕ) (id : String) (fs : Faults) (d : Store) (fs' : Faults) (d' : Store)
    → mark_acked now id fs d ≡ done tt fs' d'
    → (r : Row) × (first_where (is_in_flight id) d.rows ≡ some r)
      × ((is_ungrouped r ≡ true) ⊎ (count_where (is_cursor r) d.streams ≡ 1))
      × (d' ≡ acked now id r d)
unfolding mark_acked acked
mark_acked-done now id fs d fs' d' h =
    let calm = (Steady-mark_acked now id).calm fs d tt fs' d' h in ground arith
