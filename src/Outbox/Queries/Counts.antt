-- ===== src/Outbox/Queries/Counts.antt =====
-- The totals that stats reports are those of the whole table.
use mod_event_kafka.Common.{◌+◌, ◌≡◌, refl, List, [], ◌∷◌, arith, length}
use mod_event_kafka.Outbox.Schema.{OutboxState, pending, in_flight, dead, Row}
use mod_event_kafka.Outbox.Admission.{payload_bytes}
use mod_event_kafka.Outbox.Queries.{stats_of}

-- The three groups count every row once, and their bytes are the bytes that the capacity check sums.
pub stats_of-totals :
    (rows : List Row)
    → ((stats_of rows).pending_rows + (stats_of rows).in_flight_rows + (stats_of rows).dead_rows
        ≡ length rows)
      × ((stats_of rows).total_bytes ≡ payload_bytes rows)
unfolding stats_of
stats_of-totals [] = (omega arith, omega arith)
stats_of-totals (r ∷ rows) = go r.state refl (stats_of-totals rows)
  where
    go :
        (st : OutboxState)
        → r.state ≡ st
        → ((stats_of rows).pending_rows + (stats_of rows).in_flight_rows + (stats_of rows).dead_rows
            ≡ length rows)
          × ((stats_of rows).total_bytes ≡ payload_bytes rows)
        → ((stats_of (r ∷ rows)).pending_rows
              + (stats_of (r ∷ rows)).in_flight_rows
              + (stats_of (r ∷ rows)).dead_rows
            ≡ length (r ∷ rows))
          × ((stats_of (r ∷ rows)).total_bytes ≡ payload_bytes (r ∷ rows))
    go pending e h = ground arith
    go in_flight e h = ground arith
    go dead e h = ground arith
