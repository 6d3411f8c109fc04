-- ===== src/Pipeline/System/Safety.antt =====
-- What holds of the outbox whatever the threads of the pipeline do.
use mod_event_kafka.Common.{ℕ, List, [], ◌∷◌, All, Pairwise, ◌≤◌, pos_part}
use mod_event_kafka.Outbox.Schema.{int64_max}
use mod_event_kafka.Outbox.Invariant.{IsValid}
use mod_event_kafka.Outbox.History.{inserts}
use mod_event_kafka.Outbox.History.Validity.{after-IsValid}
use mod_event_kafka.Outbox.Reach.{Serving, Serving-InRange, Reaches-IsValid}
use mod_event_kafka.Outbox.Laws.Exclusion.{InFlightTogether, IsValid-apart}
use mod_event_kafka.Pipeline.State.{Step}
use mod_event_kafka.Pipeline.Calls.{Event, Enqueued, record_of_event}
use mod_event_kafka.Pipeline.Worker.Serving.{worker_step-Served}
use mod_event_kafka.Pipeline.System.{
  System, Action, enqueues, works, stops, requests_rebuild, answered, act, act_all,
}
use mod_event_kafka.Pipeline.System.Entry.{Entry, admits, turns_away, enqueue-Entry}

-- The sequence that an event is handed in with is an int64_t.
abbrev pub FitsEvent : Action → Type 0
FitsEvent (enqueues ev wall fs) = pos_part ev.source_sequence ≤ int64_max
FitsEvent _ = Unit

answered-IsValid :
    (ev : Event) (wall : ℕ) (s : System) (o : Step Enqueued)
    → Entry ev wall s.pipeline o
    → pos_part ev.source_sequence ≤ int64_max
    → IsValid s.pipeline.outbox
    → IsValid (answered ev s o).pipeline.outbox
answered-IsValid ev wall s _ (turns_away id err fs' p' same) fits v = rw same.0 v
answered-IsValid ev wall s _ (admits id seq fs fs' p' ok o c m) fits v = rw o (
    after-IsValid (inserts (record_of_event s.pipeline.cfg.topic ev) wall) fs s.pipeline.outbox fits
      v)

act-IsValid :
    (a : Action) (s : System)
    → FitsEvent a
    → IsValid s.pipeline.outbox
    → IsValid (act a s).pipeline.outbox
unfolding act
act-IsValid (enqueues ev wall fs) s fits v =
    answered-IsValid ev wall s _ (enqueue-Entry ev wall fs s.pipeline) fits v
act-IsValid (works w fs) s fits v =
    Reaches-IsValid Serving Serving-InRange (worker_step-Served w fs s.worker s.pipeline).calls v
act-IsValid stops s fits v = v
act-IsValid requests_rebuild s fits v = v

act_all-IsValid :
    (actions : List Action) (s : System)
    → All FitsEvent actions
    → IsValid s.pipeline.outbox
    → IsValid (act_all actions s).pipeline.outbox
unfolding act_all
act_all-IsValid [] s fits v = v
act_all-IsValid (a ∷ actions) s fits v =
    act_all-IsValid actions (act a s) fits.1 (act-IsValid a s fits.0 v)

-- Whatever sequence of events with int64_t sequences, of steps of the worker, of stops and of
-- requests to rebuild the producer runs on a well-formed outbox, no two events of one call are in
-- flight together, whichever statements the engine refuses, whatever librdkafka answers, and
-- whichever delivery reports come.
pub act_all-one_in_flight :
    (actions : List Action) (s : System)
    → All FitsEvent actions
    → IsValid s.pipeline.outbox
    → Pairwise (λ a b. ¬ InFlightTogether a b) (act_all actions s).pipeline.outbox.rows
act_all-one_in_flight actions s fits v =
    IsValid-apart (act_all actions s).pipeline.outbox (act_all-IsValid actions s fits v)
