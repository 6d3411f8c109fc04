-- ===== src/Pipeline/Worker/Contents.antt =====
-- The contents of the stored events, through the outbox and the hands of the worker.
use mod_event_kafka.Common.{
  ℕ, String, ◌≡◌, refl, not, ◌||◌, List, [], ◌∷◌, if_cases, Memᴰ, All, All-mono, All-Mem, pos, ◌∙◌,
}
use mod_event_kafka.Outbox.Schema.{OutboxRecord, Row, Store}
use mod_event_kafka.Outbox.Engine.{Faults, Outcome, done, thrown}
use mod_event_kafka.Outbox.Queries.{fetch_due, to_record}
use mod_event_kafka.Outbox.Queries.Due.{fetch_due-stored}
use mod_event_kafka.Outbox.History.Effects.{KeepsPlace}
use mod_event_kafka.Outbox.History.Contents.{after-rows}
use mod_event_kafka.Outbox.Reach.{Reaches, stays, call, Serving}
use mod_event_kafka.Outbox.Reach.Steps.{accepted-none}
use mod_event_kafka.Pipeline.State.{
  KafkaPipeline, Step, returned, escaped, ◌>>=◌, return, on_outbox, observe,
}
use mod_event_kafka.Pipeline.Calls.{Event, is_error}
use mod_event_kafka.Pipeline.Producer.{message_of}
use mod_event_kafka.Pipeline.Worker.{
  World, Worker, loop_head, rebuilding, expiring, fetching, sending, producing, settling, reporting,
  ended, aborted, fetch, send_next, to_loop, advance_worker, caught_by_loop, worker_step,
}
use mod_event_kafka.Pipeline.Worker.Leads.{
  Leads, claim_next-Leading, produce_next-Leading, settle_next-Leading,
}
use mod_event_kafka.Pipeline.Worker.Idle.{
  Idle, Aside, dispatch-Idle, handled-Idle, advance_worker-Idle,
}
use mod_event_kafka.Pipeline.Worker.Handing.{handed}

-- A record with the identity and the contents of an event.
pub record Carries (t : String) (ev : Event) (rec : OutboxRecord) : Type 0 where
  pub id : rec.event_id ≡ ev.event_id
  pub topic : rec.topic ≡ t
  pub key : rec.msg_key ≡ ev.msg_key
  pub payload : rec.payload ≡ ev.payload
  pub call : rec.call_uuid ≡ ev.call_uuid

module _ (t : String) where
  -- It comes from one of the events.
  abbrev pub FromEvents : List Event → OutboxRecord → Type 0
  FromEvents evs rec = (ev : Event) × Memᴰ ev evs × Carries t ev rec

  -- The events that the worker holds come from the given ones.
  abbrev pub Holding : List Event → Worker → Type 0
  Holding evs (sending due) = All (FromEvents evs) due
  Holding evs (producing rec rest) = FromEvents evs rec × All (FromEvents evs) rest
  Holding evs (settling rec why rest) = All (FromEvents evs) rest
  Holding evs _ = Unit

  module _ (evs : List Event) where
    pub kept-FromEvents :
        (f : Row → Row)
        → KeepsPlace f
        → (r : Row) → FromEvents evs (to_record r)
        → FromEvents evs (to_record (f r))
    unfolding to_record
    kept-FromEvents f k r (ev, m, h) = (
      ev,
      m,
      record {
        id = k.event_id r ∙ h.id;
        topic = k.topic r ∙ h.topic;
        key = k.msg_key r ∙ h.key;
        payload = k.payload r ∙ h.payload;
        call = k.call_uuid r ∙ h.call;
      },
    )

    pub Reaches-rows :
        {d d' : Store}
        → Reaches Serving d d'
        → All (λ r. FromEvents evs (to_record r)) d.rows
        → All (λ r. FromEvents evs (to_record r)) d'.rows
    Reaches-rows stays h = h
    Reaches-rows (call {d1} {d2} k c fs p e) h = rw e (
        after-rows (λ r. FromEvents evs (to_record r)) kept-FromEvents c fs d1
          (λ rec wall seq is_next accepts. cc (accepted-none c fs d1 p, accepts))
          (Reaches-rows k h))

    Idle-Holding : (s : Worker) → Idle s → Holding evs s
    Idle-Holding loop_head h = tt
    Idle-Holding rebuilding h = tt
    Idle-Holding expiring h = tt
    Idle-Holding (fetching now) h = tt
    Idle-Holding (sending due) h = absurd h
    Idle-Holding (producing rec rest) h = absurd h
    Idle-Holding (settling rec why rest) h = absurd h
    Idle-Holding (reporting reports next) h = tt
    Idle-Holding ended h = tt
    Idle-Holding aborted h = tt

    fetch-Holding :
        (now : ℕ) (fs : Faults) (p : KafkaPipeline)
        → All (λ r. FromEvents evs (to_record r)) p.outbox.rows
        → Leads (Holding evs) (fetch now fs p)
    unfolding fetch ◌>>=◌ on_outbox return
    fetch-Holding now fs p h = read (fetch_due now (pos 32) fs p.outbox) refl
      where
        read :
            (o : Outcome (List OutboxRecord))
            → fetch_due now (pos 32) fs p.outbox ≡ o
            → Leads (Holding evs) (fetch now fs p)
        read (done recs fs' d') e = rw e (
            All-mono _ (FromEvents evs) recs
              (λ rec k. rw k.2 (All-Mem (λ r. FromEvents evs (to_record r)) p.outbox.rows k.1 h))
              (fetch_due-stored now (pos 32) fs p.outbox recs fs' d' e).1)
        read (thrown x fs' d') e = rw e tt

    send_next-Holding :
        (w : World) (due : List OutboxRecord) (fs : Faults) (p : KafkaPipeline)
        → All (FromEvents evs) due
        → Leads (Holding evs) (send_next w due fs p)
    unfolding send_next observe
    send_next-Holding w [] fs p h = Idle-Holding _ (dispatch-Idle w to_loop p)
    send_next-Holding w (rec ∷ rest) fs p h =
        if_cases (Leads (Holding evs)) (not p.running || p.rebuild_requested)
          (λ _. Idle-Holding _ (dispatch-Idle w to_loop p))
          (λ _. (claim_next-Leading (Holding evs) w rec rest h).lead fs p)

    Idle-Leads : (o : Step Worker) → Leads Idle o → Leads (Holding evs) o
    Idle-Leads (returned s fs p) h = Idle-Holding s h
    Idle-Leads (escaped e fs p) h = tt

    Aside-Holding :
        (w : World) (s : Worker) (fs : Faults) (p : KafkaPipeline)
        → Aside s
        → Leads (Holding evs) (advance_worker w s fs p)
    Aside-Holding w s fs p h = Idle-Leads (advance_worker w s fs p) (advance_worker-Idle w s fs p h)

    advance_worker-Holding :
        (w : World) (s : Worker) (fs : Faults) (p : KafkaPipeline)
        → All (λ r. FromEvents evs (to_record r)) p.outbox.rows
        → Holding evs s
        → Leads (Holding evs) (advance_worker w s fs p)
    unfolding advance_worker
    advance_worker-Holding w (fetching now) fs p rows h = fetch-Holding now fs p rows
    advance_worker-Holding w (sending due) fs p rows h = send_next-Holding w due fs p h
    advance_worker-Holding w (producing rec rest) fs p rows h =
        (produce_next-Leading (Holding evs) w rec rest h.1 (λ err. h.1)).lead fs p
    advance_worker-Holding w (settling rec why rest) fs p rows h =
        (settle_next-Leading (Holding evs) w rec why rest h).lead fs p
    advance_worker-Holding w loop_head fs p rows h = Aside-Holding w loop_head fs p tt
    advance_worker-Holding w rebuilding fs p rows h = Aside-Holding w rebuilding fs p tt
    advance_worker-Holding w expiring fs p rows h = Aside-Holding w expiring fs p tt
    advance_worker-Holding w (reporting reports next) fs p rows h =
        Aside-Holding w (reporting reports next) fs p tt
    advance_worker-Holding w ended fs p rows h = Aside-Holding w ended fs p tt
    advance_worker-Holding w aborted fs p rows h = Aside-Holding w aborted fs p tt

    caught_by_loop-Holding :
        (w : World) (s : Worker) (o : Step Worker)
        → Leads (Holding evs) o
        → Holding evs (caught_by_loop w s o).0
    caught_by_loop-Holding w s (returned s' fs p) h = h
    caught_by_loop-Holding w s (escaped e fs p) h = Idle-Holding _ (handled-Idle w s p)

    pub worker_step-Holding :
        (w : World) (fs : Faults) (s : Worker) (p : KafkaPipeline)
        → All (λ r. FromEvents evs (to_record r)) p.outbox.rows
        → Holding evs s
        → Holding evs (worker_step w fs (s, p)).0
    unfolding worker_step
    worker_step-Holding w fs s p rows h =
        caught_by_loop-Holding w s (advance_worker w s fs p)
          (advance_worker-Holding w s fs p rows h)

    pub handed-FromEvents :
        (w : World) (s : Worker) (p : KafkaPipeline)
        → Holding evs s
        → All (FromEvents evs) (handed w s p)
    handed-FromEvents w (producing rec rest) p h =
        if_cases (All (FromEvents evs)) (not p.producer) (λ _. tt)
          (λ _.
            if_cases (All (FromEvents evs))
              (is_error (w.kafka.producev (message_of p.cfg.topic rec))) (λ _. tt) (λ _. (h.0, tt)))
    handed-FromEvents w s p h = tt
