-- ===== src/Pipeline/System/Genuine.antt =====
-- Where the messages come from: each is an event as it was stored.
use mod_event_kafka.Common.{
  ℕ, String, ◌≡◌, refl, Option, List, [], ◌∷◌, ◌++◌, map, Memᴰ, All, All-mono, All-map, All-append,
  All-reverse, Bool, here, Memᴰ-append_right, Memᴰ-append_left, subst, ap,
}
use mathlib.Core.List.{reverse}
use mod_event_kafka.Outbox.Schema.{OutboxRecord}
use mod_event_kafka.Outbox.Engine.{Faults}
use mod_event_kafka.Outbox.Admission.{new_row}
use mod_event_kafka.Outbox.Queries.{to_record}
use mod_event_kafka.Outbox.History.{inserts}
use mod_event_kafka.Outbox.History.Contents.{after-rows}
use mod_event_kafka.Pipeline.State.{Message, Step}
use mod_event_kafka.Pipeline.Calls.{Event, Enqueued, record_of_event}
use mod_event_kafka.Pipeline.Producer.{key_of, message_of}
use mod_event_kafka.Pipeline.Worker.{
  World, Worker, loop_head, rebuilding, expiring, fetching, sending, producing, settling, reporting,
  ended, aborted,
}
use mod_event_kafka.Pipeline.Worker.Serving.{worker_step-Served}
use mod_event_kafka.Pipeline.Worker.Handing.{handed, worker_step-produced}
use mod_event_kafka.Pipeline.Worker.Contents.{
  FromEvents, Holding, kept-FromEvents, Reaches-rows, worker_step-Holding, handed-FromEvents,
}
use mod_event_kafka.Pipeline.System.{
  System, Action, enqueues, works, stops, requests_rebuild, answered, act, act_all,
}
use mod_event_kafka.Pipeline.System.Entry.{Entry, admits, turns_away, enqueue-Entry}

-- A message with the identity and the contents of an event.
pub record Tells (t : String) (ev : Event) (msg : Message) : Type 0 where
  pub id : msg.event_id ≡ ev.event_id
  pub topic : msg.topic ≡ t
  pub key : msg.key ≡ key_of ev.msg_key
  pub payload : msg.payload ≡ ev.payload

module _ (t : String) where
  -- It tells of one of the events.
  abbrev pub ToldBy : List Event → Message → Type 0
  ToldBy evs msg = (ev : Event) × Memᴰ ev evs × Tells t ev msg

  -- All that the system holds or has sent are stored events.
  pub record Genuine (s : System) : Type 0 where
    pub topic : s.pipeline.cfg.topic ≡ t
    pub rows : All (λ r. FromEvents t s.stored_events (to_record r)) s.pipeline.outbox.rows
    pub hands : Holding t s.stored_events s.worker
    pub messages : All (ToldBy s.stored_events) s.pipeline.produced

  message_of-ToldBy :
      (evs : List Event) (rec : OutboxRecord) → FromEvents t evs rec → ToldBy evs (message_of t rec)
  unfolding message_of
  message_of-ToldBy evs rec (ev, m, h) =
      (ev, m, record { id = h.id; topic = refl; key = ap key_of h.key; payload = h.payload })

  more-FromEvents :
      (evs more : List Event) (rec : OutboxRecord)
      → FromEvents t evs rec
      → FromEvents t (evs ++ more) rec
  more-FromEvents evs more rec (ev, m, h) = (ev, Memᴰ-append_left ev evs more m, h)

  more-ToldBy : (evs more : List Event) (msg : Message) → ToldBy evs msg → ToldBy (evs ++ more) msg
  more-ToldBy evs more msg (ev, m, h) = (ev, Memᴰ-append_left ev evs more m, h)

  more-Holding : (evs more : List Event) (s : Worker) → Holding t evs s → Holding t (evs ++ more) s
  more-Holding evs more (sending due) h = All-mono _ _ due (more-FromEvents evs more) h
  more-Holding evs more (producing rec rest) h =
      (more-FromEvents evs more rec h.0, All-mono _ _ rest (more-FromEvents evs more) h.1)
  more-Holding evs more (settling rec why rest) h = All-mono _ _ rest (more-FromEvents evs more) h
  more-Holding evs more loop_head h = tt
  more-Holding evs more rebuilding h = tt
  more-Holding evs more expiring h = tt
  more-Holding evs more (fetching now) h = tt
  more-Holding evs more (reporting reports next) h = tt
  more-Holding evs more ended h = tt
  more-Holding evs more aborted h = tt

  told :
      (evs : List Event) (topic : String) (recs : List OutboxRecord) (before : List Message)
      → topic ≡ t
      → All (FromEvents t evs) recs
      → All (ToldBy evs) before
      → All (ToldBy evs) (reverse (map (message_of topic) recs) ++ before)
  told evs topic recs before e h k = rw e (
      All-append (ToldBy evs) (reverse (map (message_of t) recs)) before
        (All-reverse (ToldBy evs) (map (message_of t) recs)
          (All-map (ToldBy evs) (message_of t) recs (All-mono _ _ recs (message_of-ToldBy evs) h)))
        k)

  works-Genuine : (w : World) (fs : Faults) (s : System) → Genuine s → Genuine (act (works w fs) s)
  unfolding act
  works-Genuine w fs s g =
      let step = worker_step-Served w fs s.worker s.pipeline in
      record {
        topic = rw step.config g.topic;
        rows = Reaches-rows t s.stored_events step.calls g.rows;
        hands = worker_step-Holding t s.stored_events w fs s.worker s.pipeline g.rows g.hands;
        messages = rw (worker_step-produced w fs s.worker s.pipeline) (
            told s.stored_events s.pipeline.cfg.topic (handed w s.worker s.pipeline)
              s.pipeline.produced g.topic
              (handed-FromEvents t s.stored_events w s.worker s.pipeline g.hands) g.messages);
      }

  -- The row of an event that has just been stored.
  new_row-FromEvents :
      (evs : List Event) (ev : Event) (topic : String) (wall : ℕ) (seq : Option ℕ) (is_next : Bool)
      → topic ≡ t
      → FromEvents t
          (evs ++ ev ∷ [])
          (to_record (new_row (record_of_event topic ev) wall seq is_next))
  unfolding to_record
  new_row-FromEvents evs ev topic wall seq is_next e = (
    ev,
    Memᴰ-append_right ev evs (ev ∷ []) here,
    record { id = refl; topic = e; key = refl; payload = refl; call = refl },
  )

  answered-Genuine :
      (ev : Event) (wall : ℕ) (s : System) (o : Step Enqueued)
      → Entry ev wall s.pipeline o
      → Genuine s
      → Genuine (answered ev s o)
  answered-Genuine ev wall s _ (turns_away id err fs' p' same) g = record {
    topic = rw same.1 g.topic;
    rows = rw same.0 g.rows;
    hands = g.hands;
    messages = rw same.3 g.messages;
  }
  answered-Genuine ev wall s _ (admits id seq fs fs' p' ok o c m) g = record {
    topic = rw c g.topic;
    rows = rw o (
        after-rows _ (kept-FromEvents t (s.stored_events ++ ev ∷ []))
          (inserts (record_of_event s.pipeline.cfg.topic ev) wall) fs s.pipeline.outbox
          (λ rec now seq is_next accepts.
            let same : record_of_event s.pipeline.cfg.topic ev ≡ rec = cc in
            subst
              (λ x.
                FromEvents t (s.stored_events ++ ev ∷ []) (to_record (new_row x now seq is_next)))
              same
              (new_row-FromEvents s.stored_events ev s.pipeline.cfg.topic now seq is_next g.topic))
          (All-mono _ _ s.pipeline.outbox.rows
            (λ r h. more-FromEvents s.stored_events (ev ∷ []) (to_record r) h) g.rows));
    hands = more-Holding s.stored_events (ev ∷ []) s.worker g.hands;
    messages =
        rw m (All-mono _ _ s.pipeline.produced (more-ToldBy s.stored_events (ev ∷ [])) g.messages);
  }

  act-Genuine : (a : Action) (s : System) → Genuine s → Genuine (act a s)
  unfolding act
  act-Genuine (enqueues ev wall fs) s g =
      answered-Genuine ev wall s _ (enqueue-Entry ev wall fs s.pipeline) g
  act-Genuine (works w fs) s g = works-Genuine w fs s g
  act-Genuine stops s g = record {
    topic = g.topic;
    rows = g.rows;
    hands = g.hands;
    messages = g.messages;
  }
  act-Genuine requests_rebuild s g = record {
    topic = g.topic;
    rows = g.rows;
    hands = g.hands;
    messages = g.messages;
  }

  -- Whatever sequence of enqueued events, of steps of the worker, of stops and of requests to
  -- rebuild the producer runs, from a state where this is so: every message that librdkafka has
  -- accepted has the id, topic, key and payload of an event that enqueue has reported as stored,
  -- and so have the rows of the outbox and the fetched events in the worker's hands, with its call.
  -- Nothing is made up, mixed or altered.
  pub act_all-Genuine :
      (actions : List Action) (s : System) → Genuine s → Genuine (act_all actions s)
  unfolding act_all
  act_all-Genuine [] s g = g
  act_all-Genuine (a ∷ actions) s g = act_all-Genuine actions (act a s) (act-Genuine a s g)
