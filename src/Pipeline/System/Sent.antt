-- ===== src/Pipeline/System/Sent.antt =====
-- What librdkafka has been handed, and in which order.
use mod_event_kafka.Common.{
  ℕ, String, ◌≡◌, refl, sym, ap, ◌∙◌, false, List, [], ◌∷◌, ◌++◌, map, All, is_empty, subst,
}
use mathlib.Core.List.{append-nil, append_assoc, map-append, reverse, reverse-append}
use mod_event_kafka.Outbox.Schema.{OutboxRecord, Store}
use mod_event_kafka.Outbox.Engine.{Faults}
use mod_event_kafka.Outbox.Invariant.{IsValid}
use mod_event_kafka.Outbox.History.{inserts, after, acknowledged}
use mod_event_kafka.Outbox.Fifo.{waiting, Contiguous}
use mod_event_kafka.Outbox.Fifo.Queue.{after-Flows}
use mod_event_kafka.Outbox.Fifo.Admitting.{AsksAdmission}
use mod_event_kafka.Pipeline.State.{Message, Step}
use mod_event_kafka.Pipeline.Calls.{Event, Enqueued, record_of_event}
use mod_event_kafka.Pipeline.Producer.{message_of}
use mod_event_kafka.Pipeline.Worker.{Worker}
use mod_event_kafka.Pipeline.Worker.Handing.{handed, worker_step-produced}
use mod_event_kafka.Pipeline.Worker.Hands.{Hands, Hands-append, worker_step-Hands}
use mod_event_kafka.Pipeline.System.{
  System, Action, enqueues, works, stops, requests_rebuild, answered, act, act_all,
}
use mod_event_kafka.Pipeline.System.Entry.{Entry, admits, turns_away, enqueue-Entry}
use mod_event_kafka.Pipeline.System.Queue.{Unnumbered, events_of, events_of-append, act-Queues}
use mod_event_kafka.Pipeline.System.Stutters.{
  Stutters, over, Stutters-front, queue_steps, sent_of, sent_of-append, handed-Stutters,
}

abbrev pub handed_by : Action → System → List OutboxRecord
handed_by (works w fs) s = handed w s.worker s.pipeline
handed_by (enqueues ev wall fs) s = []
handed_by stops s = []
handed_by requests_rebuild s = []

-- All events handed over by a run, the first first.
unfoldable pub sent : List Action → System → List OutboxRecord
sent [] s = []
sent (a ∷ actions) s = handed_by a s ++ sent actions (act a s)

answered-produced :
    (ev : Event) (wall : ℕ) (s : System) (o : Step Enqueued)
    → Entry ev wall s.pipeline o
    → (answered ev s o).pipeline.produced ≡ s.pipeline.produced
answered-produced ev wall s _ (turns_away id err fs' p' same) = same.3
answered-produced ev wall s _ (admits id seq fs fs' p' ok o c m) = m

act-produced :
    (a : Action) (s : System)
    → (act a s).pipeline.produced
      ≡ reverse (map (message_of s.pipeline.cfg.topic) (handed_by a s)) ++ s.pipeline.produced
unfolding act reverse
act-produced (enqueues ev wall fs) s =
    answered-produced ev wall s _ (enqueue-Entry ev wall fs s.pipeline)
act-produced (works w fs) s = worker_step-produced w fs s.worker s.pipeline
act-produced stops s = refl
act-produced requests_rebuild s = refl

-- What two runs hand over, one after the other, the newest first.
messages-append :
    (t : String) (xs ys : List OutboxRecord) (before : List Message)
    → reverse (map (message_of t) ys) ++ (reverse (map (message_of t) xs) ++ before)
      ≡ reverse (map (message_of t) (xs ++ ys)) ++ before
messages-append t xs ys before =
    sym (append_assoc (reverse (map (message_of t) ys)) (reverse (map (message_of t) xs)) before)
    ∙ ap (λ l. l ++ before)
        (sym (reverse-append (map (message_of t) xs) (map (message_of t) ys))
          ∙ ap reverse (sym (map-append (message_of t) xs ys)))

module _ (t u : String) where
  handed_by-Stutters :
      (a : Action) (s : System) (l q : List String)
      → Hands t u s.worker s.pipeline.outbox
      → Stutters l (waiting t u s.pipeline.outbox ++ q)
      → Stutters (sent_of t u (handed_by a s) ++ l) (waiting t u s.pipeline.outbox ++ q)
  handed_by-Stutters (works w fs) s l q hands h =
      handed-Stutters t u w s.worker s.pipeline l q hands h
  handed_by-Stutters (enqueues ev wall fs) s l q hands h = h
  handed_by-Stutters stops s l q hands h = h
  handed_by-Stutters requests_rebuild s l q hands h = h

  module _ (nonempty : is_empty u ≡ false) where
    -- An admission adds to the queue at the back.
    admission-Hands :
        (s : Worker) (rec : OutboxRecord) (wall : ℕ) (fs : Faults) (d : Store)
        → AsksAdmission rec.call_seq
        → IsValid d
        → Contiguous t u d
        → Hands t u s d
        → Hands t u s (after (inserts rec wall) fs d)
    unfolding acknowledged
    admission-Hands s rec wall fs d asks v q h =
        let (_, flow) = after-Flows t u nonempty (inserts rec wall) fs d v (λ _. asks) q in
        Hands-append t u d (after (inserts rec wall) fs d) _ flow s h

    answered-Hands :
        (ev : Event) (wall : ℕ) (s : System) (o : Step Enqueued)
        → Entry ev wall s.pipeline o
        → AsksAdmission ev.source_sequence
        → IsValid s.pipeline.outbox
        → Contiguous t u s.pipeline.outbox
        → Hands t u s.worker s.pipeline.outbox
        → Hands t u (answered ev s o).worker (answered ev s o).pipeline.outbox
    answered-Hands ev wall s _ (turns_away id err fs' p' same) asks v q h = rw same.0 h
    answered-Hands ev wall s _ (admits id seq fs fs' p' ok o c m) asks v q h = rw o (
        admission-Hands s.worker (record_of_event s.pipeline.cfg.topic ev) wall fs s.pipeline.outbox
          asks v q h)

    act-Hands :
        (a : Action) (s : System)
        → Unnumbered a
        → IsValid s.pipeline.outbox
        → Contiguous t u s.pipeline.outbox
        → Hands t u s.worker s.pipeline.outbox
        → Hands t u (act a s).worker (act a s).pipeline.outbox
    unfolding act
    act-Hands (enqueues ev wall fs) s asks v q h =
        answered-Hands ev wall s _ (enqueue-Entry ev wall fs s.pipeline) asks v q h
    act-Hands (works w fs) s asks v q h =
        worker_step-Hands t u nonempty w fs s.worker s.pipeline v q h
    act-Hands stops s asks v q h = h
    act-Hands requests_rebuild s asks v q h = h

  -- A part of a run, which hands over `recs` and stores `fresh`: `order` says that what is sent later
  -- in the order of the queue that it leaves can follow what it sends itself.
  pub record Run (recs : List OutboxRecord) (s s' : System) : Type 0 where
    pub valid : IsValid s'.pipeline.outbox
    pub queue : Contiguous t u s'.pipeline.outbox
    pub topic : s'.pipeline.cfg.topic ≡ t
    pub hands : Hands t u s'.worker s'.pipeline.outbox
    pub fresh : List Event
    pub noted : s'.stored_events ≡ s.stored_events ++ fresh
    pub messages : s'.pipeline.produced ≡ reverse (map (message_of t) recs) ++ s.pipeline.produced
    pub order :
        (l q : List String)
        → Stutters l (waiting t u s'.pipeline.outbox ++ q)
        → Stutters
            (sent_of t u recs ++ l)
            (waiting t u s.pipeline.outbox ++ (events_of u fresh ++ q))

  pub Run-trans :
      (xs ys : List OutboxRecord) (a b c : System) → Run xs a b → Run ys b c → Run (xs ++ ys) a c
  Run-trans xs ys a b c h k = record {
    valid = k.valid;
    queue = k.queue;
    topic = k.topic;
    hands = k.hands;
    fresh = h.fresh ++ k.fresh;
    noted = k.noted ∙ ap (λ l. l ++ k.fresh) h.noted ∙ append_assoc a.stored_events h.fresh k.fresh;
    messages =
        k.messages
        ∙ ap (λ l. reverse (map (message_of t) ys) ++ l) h.messages
        ∙ messages-append t xs ys a.pipeline.produced;
    order = λ l q hl.
        rw
          (
            sent_of-append t u xs ys,
            append_assoc (sent_of t u xs) (sent_of t u ys) l,
            events_of-append u h.fresh k.fresh,
            append_assoc (events_of u h.fresh) (events_of u k.fresh) q,
          )
          (h.order (sent_of t u ys ++ l) (events_of u k.fresh ++ q) (k.order l q hl));
  }

  -- What a run hands to librdkafka: `fresh` are the events stored meanwhile.
  pub record Sends (recs : List OutboxRecord) (s s' : System) : Type 0 where
    pub fresh : List Event
    pub noted : s'.stored_events ≡ s.stored_events ++ fresh
    pub messages : s'.pipeline.produced ≡ reverse (map (message_of t) recs) ++ s.pipeline.produced
    pub order : Stutters (sent_of t u recs) (waiting t u s.pipeline.outbox ++ events_of u fresh)

  pub Run-Sends : (recs : List OutboxRecord) (s s' : System) → Run recs s s' → Sends recs s s'
  Run-Sends recs s s' h = record {
    fresh = h.fresh;
    noted = h.noted;
    messages = h.messages;
    order =
        rw (← append-nil (sent_of t u recs), ← append-nil (events_of u h.fresh))
          (h.order [] [] over);
  }

  module _ (nonempty : is_empty u ≡ false) where
    act-Run :
        (a : Action) (s : System)
        → Unnumbered a
        → s.pipeline.cfg.topic ≡ t
        → IsValid s.pipeline.outbox
        → Contiguous t u s.pipeline.outbox
        → Hands t u s.worker s.pipeline.outbox
        → Run (handed_by a s) s (act a s)
    act-Run a s asks topic v q h =
        let step = act-Queues t u nonempty a s asks topic v q in
        record {
          valid = step.valid;
          queue = step.queue;
          topic = step.topic;
          hands = act-Hands nonempty a s asks v q h;
          fresh = step.fresh;
          noted = step.noted;
          messages =
              subst
                (λ x.
                  (act a s).pipeline.produced
                  ≡ reverse (map (message_of x) (handed_by a s)) ++ s.pipeline.produced)
                topic (act-produced a s);
          order = λ l more hl. handed_by-Stutters a s l (events_of u step.fresh ++ more) h (
              subst (Stutters l) (queue_steps step.gone _ _ _ more step.order)
                (Stutters-front step.gone hl));
        }

    pub stays-Run :
        (s : System)
        → s.pipeline.cfg.topic ≡ t
        → IsValid s.pipeline.outbox
        → Contiguous t u s.pipeline.outbox
        → Hands t u s.worker s.pipeline.outbox
        → Run [] s s
    stays-Run s topic v q h = record {
      valid = v;
      queue = q;
      topic = topic;
      hands = h;
      fresh = [];
      noted = sym (append-nil s.stored_events);
      messages = refl;
      order = λ l more hl. hl;
    }

    pub act_all-Run :
        (actions : List Action) (s : System)
        → All Unnumbered actions
        → s.pipeline.cfg.topic ≡ t
        → IsValid s.pipeline.outbox
        → Contiguous t u s.pipeline.outbox
        → Hands t u s.worker s.pipeline.outbox
        → Run (sent actions s) s (act_all actions s)
    unfolding act_all sent
    act_all-Run [] s asks topic v q h = stays-Run s topic v q h
    act_all-Run (a ∷ actions) s asks topic v q h =
        let step = act-Run a s asks.0 topic v q h in
        Run-trans (handed_by a s) (sent actions (act a s)) s (act a s) _ step
          (act_all-Run actions (act a s) asks.1 step.topic step.valid step.queue step.hands)

    -- Whatever sequence of events handed in without a sequence of their own, of steps of the
    -- worker, of stops and of requests to rebuild the producer runs on a well-formed outbox where
    -- the call's queue is contiguous, from a state where the fetched events in the worker's hands
    -- wait in it and the claimed one is its oldest (such as one where the worker stands at the
    -- head of its loop): librdkafka has accepted exactly the messages of the events `sent` by the
    -- run, and those of the call are of events that waited at the start or have been stored
    -- since, in the order of the queue: an event may be sent again before a later one is, some
    -- events may not be sent (yet, or at all), and none is sent after a later one.
    pub act_all-Sends :
        (actions : List Action) (s : System)
        → All Unnumbered actions
        → s.pipeline.cfg.topic ≡ t
        → IsValid s.pipeline.outbox
        → Contiguous t u s.pipeline.outbox
        → Hands t u s.worker s.pipeline.outbox
        → Sends (sent actions s) s (act_all actions s)
    act_all-Sends actions s asks topic v q h =
        Run-Sends (sent actions s) s _ (act_all-Run actions s asks topic v q h)
