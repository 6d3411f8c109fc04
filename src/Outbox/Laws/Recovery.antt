-- ===== src/Outbox/Laws/Recovery.antt =====
-- What a restart does: requeue_in_flight, which KafkaPipeline::start calls first.
use mod_event_kafka.Common.{
  ℕ, ◌+◌, ◌≡◌, refl, sym, subst, if◌then◌else◌, true, List, [], ◌∷◌, map, arith, update_where,
}
use mod_event_kafka.Outbox.Schema.{OutboxState, pending, in_flight, dead, Row, Store, state_eq}
use mod_event_kafka.Outbox.Engine.{done}
use mod_event_kafka.Outbox.Transitions.{requeue, requeue_in_flight}
use mod_event_kafka.Outbox.Queries.{group_count}

-- A row of the table before and after: one in flight is pending, due at a new time and otherwise the
-- same; a pending or a dead one is the same.
pub data RequeuedRow (r : Row) : Row → Type 0 where
  waited : r.state ≡ pending → RequeuedRow r r
  died : r.state ≡ dead → RequeuedRow r r
  flew :
      (due now : ℕ)
      → r.state ≡ in_flight
      → RequeuedRow r (record r { state = pending; next_attempt_at_ms = due; updated_at_ms = now })

abbrev pub RequeuedRows : List Row → List Row → Type 0
RequeuedRows [] [] = Unit
RequeuedRows [] (r' ∷ rows') = ⊥
RequeuedRows (r ∷ rows) [] = ⊥
RequeuedRows (r ∷ rows) (r' ∷ rows') = RequeuedRow r r' × RequeuedRows rows rows'

-- Row by row, those in flight wait again and the others are the same; so the totals are.
pub record Requeued (rows rows' : List Row) : Type 0 where
  pub each : RequeuedRows rows rows'
  none_in_flight : group_count in_flight rows' ≡ 0
  pub waiting : group_count pending rows' ≡ group_count pending rows + group_count in_flight rows
  pub buried : group_count dead rows' ≡ group_count dead rows
  pub ids : map (λ r. r.event_id) rows' ≡ map (λ r. r.event_id) rows

one_requeued :
    (due now : ℕ) (r : Row) (st : OutboxState)
    → r.state ≡ st
    → RequeuedRow r (if state_eq r.state in_flight then requeue due now r else r)
one_requeued due now r pending e =
    subst (λ x. RequeuedRow r (if state_eq x in_flight then requeue due now r else r)) (sym e)
      (waited e)
one_requeued due now r in_flight e =
    subst (λ x. RequeuedRow r (if state_eq x in_flight then requeue due now r else r)) (sym e)
      (flew due now e)
one_requeued due now r dead e =
    subst (λ x. RequeuedRow r (if state_eq x in_flight then requeue due now r else r)) (sym e)
      (died e)

requeue-Requeued :
    (due now : ℕ) (rows : List Row)
    → Requeued rows (update_where (λ r. state_eq r.state in_flight) (requeue due now) rows)
unfolding group_count
requeue-Requeued due now [] = record {
  each = tt;
  none_in_flight = refl;
  waiting = refl;
  buried = refl;
  ids = refl;
}
requeue-Requeued due now (r ∷ rows) = go r.state refl (requeue-Requeued due now rows)
  where
    go :
        (st : OutboxState)
        → r.state ≡ st
        → Requeued rows (update_where (λ r. state_eq r.state in_flight) (requeue due now) rows)
        → Requeued
            (r ∷ rows)
            (update_where (λ r. state_eq r.state in_flight) (requeue due now) (r ∷ rows))
    go pending e h = record {
      each = (one_requeued due now r r.state refl, h.each);
      none_in_flight = ground (arith, h.none_in_flight);
      waiting = ground (arith, h.waiting);
      buried = ground (arith, h.buried);
      ids = ground (arith, h.ids);
    }
    go in_flight e h = record {
      each = (one_requeued due now r r.state refl, h.each);
      none_in_flight = ground (arith, h.none_in_flight);
      waiting = ground (arith, h.waiting);
      buried = ground (arith, h.buried);
      ids = ground (arith, h.ids);
    }
    go dead e h = record {
      each = (one_requeued due now r r.state refl, h.each);
      none_in_flight = ground (arith, h.none_in_flight);
      waiting = ground (arith, h.waiting);
      buried = ground (arith, h.buried);
      ids = ground (arith, h.ids);
    }

pub requeue_in_flight-Requeued :
    (due now : ℕ) (d : Store)
    → d.is_open ≡ true
    → (rows : List Row) × (requeue_in_flight due now [] d ≡ done tt [] (record d { rows = rows }))
      × Requeued d.rows rows
unfolding requeue_in_flight
requeue_in_flight-Requeued due now d o = (
  update_where (λ r. state_eq r.state in_flight) (requeue due now) d.rows,
  ground arith,
  requeue-Requeued due now d.rows,
)
