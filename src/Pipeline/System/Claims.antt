-- ===== src/Pipeline/System/Claims.antt =====
-- What the worker holds in its hands: an event that it is about to send is in flight.
use mod_event_kafka.Common.{
  ℕ, String, ◌≡◌, refl, inl, inr, true, not, ◌||◌, List, [], ◌∷◌, if_cases,
}
use mod_event_kafka.Outbox.Schema.{OutboxRecord, Store}
use mod_event_kafka.Outbox.Engine.{Faults, Outcome, done, thrown}
use mod_event_kafka.Outbox.Transitions.{mark_in_flight}
use mod_event_kafka.Outbox.Reach.Flying.{
  is_flying, mark_in_flight-is_flying, insert_pending-is_flying,
}
use mod_event_kafka.Outbox.History.{inserts, after}
use mod_event_kafka.Pipeline.State.{
  KafkaPipeline, Step, returned, escaped, Act, proceed, ◌>>=◌, ◌>>◌, return, observe, modify,
  on_outbox,
}
use mod_event_kafka.Pipeline.Failure.{Report, reported}
use mod_event_kafka.Pipeline.Calls.{enqueue, Event, Enqueued, record_of_event, is_error}
use mod_event_kafka.Pipeline.Enqueuing.{insert_pending_cases}
use mod_event_kafka.Pipeline.Producer.{message_of, produce_ready, produce_record}
use mod_event_kafka.Pipeline.Worker.{
  to_loop, World, Worker, loop_head, rebuilding, expiring, fetching, sending, producing, settling,
  reporting, ended, aborted, send_next, claim_next, produce_next, after_produce, advance_worker,
  handled, caught_by_loop, worker_step,
}
use mod_event_kafka.Pipeline.Worker.Leads.{Leads, settle_next-Leading, fetch-Leading}
use mod_event_kafka.Pipeline.Worker.Idle.{
  Idle, Aside, dispatch-Idle, handled-Idle, advance_worker-Idle,
}
use mod_event_kafka.Pipeline.System.{
  System, Action, enqueues, works, stops, requests_rebuild, answered, act, act_all,
}
use mod_event_kafka.Pipeline.System.Entry.{Entry, admits, turns_away, enqueue-Entry}

-- An event in the worker's hands is in flight.
abbrev pub InHand : Worker → Store → Type 0
InHand (producing rec rest) d = is_flying rec.event_id d ≡ true
InHand (settling rec why rest) d = is_flying rec.event_id d ≡ true
InHand _ d = Unit

abbrev Free : Worker → Type 0
Free s = (d : Store) → InHand s d

-- So it is after a step that returns.
abbrev Held : Step Worker → Type 0
Held (returned s fs p) = InHand s p.outbox
Held (escaped e fs p) = Unit

Free-Held : (o : Step Worker) → Leads Free o → Held o
Free-Held (returned s fs p) h = h p.outbox
Free-Held (escaped e fs p) h = tt

Idle-InHand : (s : Worker) (d : Store) → Idle s → InHand s d
Idle-InHand loop_head d h = tt
Idle-InHand rebuilding d h = tt
Idle-InHand expiring d h = tt
Idle-InHand (fetching now) d h = tt
Idle-InHand (sending due) d h = tt
Idle-InHand (producing rec rest) d h = absurd h
Idle-InHand (settling rec why rest) d h = absurd h
Idle-InHand (reporting reports next) d h = tt
Idle-InHand ended d h = tt
Idle-InHand aborted d h = tt

Idle-Held : (o : Step Worker) → Leads Idle o → Held o
Idle-Held (returned s fs p) h = Idle-InHand s p.outbox h
Idle-Held (escaped e fs p) h = tt

Aside-Held :
    (w : World) (s : Worker) (fs : Faults) (p : KafkaPipeline)
    → Aside s
    → Held (advance_worker w s fs p)
Aside-Held w s fs p h = Idle-Held (advance_worker w s fs p) (advance_worker-Idle w s fs p h)

claim_next-Held :
    (w : World) (rec : OutboxRecord) (rest : List OutboxRecord) (fs : Faults) (p : KafkaPipeline)
    → Held (claim_next w rec rest fs p)
unfolding claim_next ◌>>=◌ ◌>>◌ on_outbox reported return
claim_next-Held w rec rest fs p = claimed (mark_in_flight w.now rec.event_id fs p.outbox) refl
  where
    claimed :
        (o : Outcome (Unit {0}))
        → mark_in_flight w.now rec.event_id fs p.outbox ≡ o
        → Held (claim_next w rec rest fs p)
    claimed (done a fs' d') e =
        rw e (mark_in_flight-is_flying w.now rec.event_id fs p.outbox fs' d' e)
    claimed (thrown x fs' d') e = rw e tt

send_next-Held :
    (w : World) (due : List OutboxRecord) (fs : Faults) (p : KafkaPipeline)
    → Held (send_next w due fs p)
unfolding send_next observe
send_next-Held w [] fs p = Idle-InHand _ p.outbox (dispatch-Idle w to_loop p)
send_next-Held w (rec ∷ rest) fs p =
    if_cases Held (not p.running || p.rebuild_requested)
      (λ _. Idle-InHand _ p.outbox (dispatch-Idle w to_loop p))
      (λ _. claim_next-Held w rec rest fs p)

produce_next-Held :
    (w : World) (rec : OutboxRecord) (rest : List OutboxRecord) (fs : Faults) (p : KafkaPipeline)
    → is_flying rec.event_id p.outbox ≡ true
    → Held (produce_next w rec rest fs p)
unfolding produce_next produce_record produce_ready after_produce ◌>>=◌ ◌>>◌ modify return
produce_next-Held w rec rest fs p h =
    if_cases (λ (o : Step (Report (Unit {0}))). Held (proceed o (after_produce rec rest)))
      (not p.producer) (λ _. h)
      (λ _.
        if_cases (λ (m : Act (Report (Unit {0}))). Held (proceed (m fs p) (after_produce rec rest)))
          (is_error (w.kafka.producev (message_of p.cfg.topic rec))) (λ _. h) (λ _. tt))

advance_worker-Held :
    (w : World) (s : Worker) (fs : Faults) (p : KafkaPipeline)
    → InHand s p.outbox
    → Held (advance_worker w s fs p)
unfolding advance_worker return
advance_worker-Held w (fetching now) fs p h =
    Free-Held _ ((fetch-Leading Free now (λ due d. tt)).lead fs p)
advance_worker-Held w (sending due) fs p h = send_next-Held w due fs p
advance_worker-Held w (producing rec rest) fs p h = produce_next-Held w rec rest fs p h
advance_worker-Held w (settling rec why rest) fs p h =
    Free-Held _ ((settle_next-Leading Free w rec why rest (λ d. tt)).lead fs p)
advance_worker-Held w loop_head fs p h = Aside-Held w loop_head fs p tt
advance_worker-Held w rebuilding fs p h = Aside-Held w rebuilding fs p tt
advance_worker-Held w expiring fs p h = Aside-Held w expiring fs p tt
advance_worker-Held w (reporting reports next) fs p h =
    Aside-Held w (reporting reports next) fs p tt
advance_worker-Held w ended fs p h = Aside-Held w ended fs p tt
advance_worker-Held w aborted fs p h = Aside-Held w aborted fs p tt

caught_by_loop-InHand :
    (w : World) (s : Worker) (o : Step Worker)
    → Held o
    → InHand (caught_by_loop w s o).0 (caught_by_loop w s o).1.outbox
caught_by_loop-InHand w s (returned s' fs p) h = h
caught_by_loop-InHand w s (escaped e fs p) h =
    Idle-InHand _ (handled w s p).1.outbox (handled-Idle w s p)

worker_step-InHand :
    (w : World) (fs : Faults) (s : Worker) (p : KafkaPipeline)
    → InHand s p.outbox
    → InHand (worker_step w fs (s, p)).0 (worker_step w fs (s, p)).1.outbox
unfolding worker_step
worker_step-InHand w fs s p h =
    caught_by_loop-InHand w s (advance_worker w s fs p) (advance_worker-Held w s fs p h)

-- An admission, made or refused, leaves what is in hand.
admission-is_flying :
    (id : String) (rec : OutboxRecord) (wall : ℕ) (fs : Faults) (d : Store)
    → is_flying id d ≡ true
    → is_flying id (after (inserts rec wall) fs d) ≡ true
unfolding after
admission-is_flying id rec wall fs d h = elim (insert_pending_cases rec wall fs d) [
  | inl (a, fs', d', e) ↦ rw e (insert_pending-is_flying id rec wall fs d a fs' d' e h)
  | inr (x, fs', e) ↦ rw e h
]

admission-InHand :
    (s : Worker) (rec : OutboxRecord) (wall : ℕ) (fs : Faults) (d : Store)
    → InHand s d
    → InHand s (after (inserts rec wall) fs d)
admission-InHand (producing held rest) rec wall fs d h =
    admission-is_flying held.event_id rec wall fs d h
admission-InHand (settling held why rest) rec wall fs d h =
    admission-is_flying held.event_id rec wall fs d h
admission-InHand loop_head rec wall fs d h = tt
admission-InHand rebuilding rec wall fs d h = tt
admission-InHand expiring rec wall fs d h = tt
admission-InHand (fetching now) rec wall fs d h = tt
admission-InHand (sending due) rec wall fs d h = tt
admission-InHand (reporting reports next) rec wall fs d h = tt
admission-InHand ended rec wall fs d h = tt
admission-InHand aborted rec wall fs d h = tt

answered-InHand :
    (ev : Event) (wall : ℕ) (s : System) (o : Step Enqueued)
    → Entry ev wall s.pipeline o
    → InHand s.worker s.pipeline.outbox
    → InHand s.worker (answered ev s o).pipeline.outbox
answered-InHand ev wall s _ (turns_away id err fs' p' same) h = rw same.0 h
answered-InHand ev wall s _ (admits id seq fs fs' p' kept o c m) h = rw o (
    admission-InHand s.worker (record_of_event s.pipeline.cfg.topic ev) wall fs s.pipeline.outbox h)

answered-worker :
    (ev : Event) (s : System) (o : Step Enqueued)
    → InHand s.worker (answered ev s o).pipeline.outbox
    → InHand (answered ev s o).worker (answered ev s o).pipeline.outbox
answered-worker ev s (returned r fs p) h = h
answered-worker ev s (escaped e fs p) h = h

act-InHand :
    (a : Action) (s : System)
    → InHand s.worker s.pipeline.outbox
    → InHand (act a s).worker (act a s).pipeline.outbox
unfolding act
act-InHand (enqueues ev wall fs) s h =
    answered-worker ev s (enqueue ev wall fs s.pipeline)
      (answered-InHand ev wall s _ (enqueue-Entry ev wall fs s.pipeline) h)
act-InHand (works w fs) s h = worker_step-InHand w fs s.worker s.pipeline h
act-InHand stops s h = h
act-InHand requests_rebuild s h = h

-- Whatever actions follow each other, from a state where this is so (such as one where the worker
-- stands at the head of its loop): if the worker is about to hand an event to librdkafka, or to
-- settle its refusal, the event is in flight in the outbox, so it has been claimed, and neither an
-- expiry nor another thread has taken it back.
pub act_all-InHand :
    (actions : List Action) (s : System)
    → InHand s.worker s.pipeline.outbox
    → InHand (act_all actions s).worker (act_all actions s).pipeline.outbox
unfolding act_all
act_all-InHand [] s h = h
act_all-InHand (a ∷ actions) s h = act_all-InHand actions (act a s) (act-InHand a s h)
