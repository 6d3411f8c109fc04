-- ===== src/Pipeline/Lifecycle/Lifetimes.antt =====
-- The pipeline over several lifetimes of the process: each runs for a while and ends, by stop or by a
-- kill, and the next one starts over the file that it leaves. A kill leaves what has been committed.
use mod_event_kafka.Common.{
  ℕ, String, ◌≡◌, refl, sym, ◌∙◌, true, false, Option, none, some, List, [], ◌∷◌, ◌++◌, All,
  All-mono, is_empty,
}
use mathlib.Core.List.{append-nil}
use mod_event_kafka.Outbox.Schema.{OutboxRecord, Row, Store}
use mod_event_kafka.Outbox.Engine.{done, store_of}
use mod_event_kafka.Outbox.Transitions.{requeue_in_flight}
use mod_event_kafka.Outbox.Opening.{handle_of, close_outbox}
use mod_event_kafka.Outbox.Invariant.{IsValid}
use mod_event_kafka.Outbox.History.{requeues, after}
use mod_event_kafka.Outbox.History.Retired.{Unretired}
use mod_event_kafka.Outbox.Fifo.{Contiguous}
use mod_event_kafka.Outbox.Reach.{stays, call}
use mod_event_kafka.Outbox.Reach.Standing.{Stands, Reaches-Stands}
use mod_event_kafka.Pipeline.State.{KafkaPipeline}
use mod_event_kafka.Pipeline.Worker.{Worker, ended}
use mod_event_kafka.Pipeline.Worker.Hands.{Hands}
use mod_event_kafka.Pipeline.Lifecycle.{Instance, Startup, start, taken_down}
use mod_event_kafka.Pipeline.Lifecycle.Restart.{Fair, resumed, start-resumed}
use mod_event_kafka.Pipeline.System.{System, Action, act_all}
use mod_event_kafka.Pipeline.System.Queue.{Unnumbered}
use mod_event_kafka.Pipeline.System.Sent.{
  sent, Run, Run-trans, act_all-Run, stays-Run, Sends, Run-Sends,
}
use mod_event_kafka.Pipeline.System.Kept.{act_all-Kept}

-- The object of a running system.
abbrev pub instance_of : System → Instance
instance_of s = record {
  pipeline = s.pipeline;
  file = close_outbox (handle_of s.pipeline.outbox);
  worker = some s.worker;
}

abbrev pub place_of : Option Worker → Worker
place_of none = ended
place_of (some w) = w

abbrev pub system_of : System → Instance → System
system_of s i = record s { pipeline = i.pipeline; worker = place_of i.worker }

-- The end of a process and the start of the next one.
unfoldable pub restarted : Startup → System → System
unfolding start taken_down
restarted up s = system_of s (start up (taken_down (instance_of s))).1

-- One process, and what the next one meets when it starts.
pub record Lifetime : Type 0 where
  pub actions : List Action
  pub startup : Startup

abbrev pub live : Lifetime → System → System
live l s = restarted l.startup (act_all l.actions s)

unfoldable pub live_all : List Lifetime → System → System
live_all [] s = s
live_all (l ∷ lives) s = live_all lives (live l s)

-- The events handed to librdkafka meanwhile.
unfoldable pub sent_live : List Lifetime → System → List OutboxRecord
sent_live [] s = []
sent_live (l ∷ lives) s = sent l.actions s ++ sent_live lives (live l s)

-- The events are handed in without a sequence of their own, and the next start is not refused.
abbrev pub Ordinary : KafkaPipeline → Lifetime → Type 0
Ordinary p l = All Unnumbered l.actions × Fair l.startup p

-- What a restart needs and leaves.
pub record Durable (s : System) : Type 0 where
  pub opened : s.pipeline.outbox.is_open ≡ true
  pub unretired : Unretired s.pipeline.outbox

restarted-resumed :
    (up : Startup) (s : System)
    → Fair up s.pipeline
    → Durable s
    → IsValid s.pipeline.outbox
    → (rows : List Row) × (restarted up s ≡ system_of s (resumed (instance_of s) rows))
      × (requeue_in_flight up.clock.due up.clock.update [] s.pipeline.outbox
          ≡ done tt [] (record s.pipeline.outbox { rows = rows }))
unfolding restarted
restarted-resumed up s fair durable v =
    let (rows, e, k, _) =
      start-resumed up (instance_of s) fair durable.opened v durable.unretired in
    (rows, rw e refl, k)

pub Fair-config : (up : Startup) (p p' : KafkaPipeline) → p'.cfg ≡ p.cfg → Fair up p → Fair up p'
Fair-config up p p' e fair = record {
  lock = fair.lock;
  file = fair.file;
  opening = fair.opening;
  calls = fair.calls;
  producer = rw e fair.producer;
}

module _ (t u : String) (nonempty : is_empty u ≡ false) where
  resumed-Stands :
      (due now : ℕ) (d : Store) (rows : List Row)
      → requeue_in_flight due now [] d ≡ done tt [] (record d { rows = rows })
      → IsValid d
      → Contiguous t u d
      → Stands t u d (record d { rows = rows })
  unfolding after
  resumed-Stands due now d rows e v q =
      let left : record d { rows = rows } ≡ store_of (requeue_in_flight due now [] d) = rw e refl in
      Reaches-Stands t u nonempty (call stays (requeues due now) [] tt left) v q

  resumed-Run :
      (s : System) (rows : List Row)
      → s.pipeline.cfg.topic ≡ t
      → Stands t u s.pipeline.outbox (record s.pipeline.outbox { rows = rows })
      → Run t u [] s (system_of s (resumed (instance_of s) rows))
  resumed-Run s rows topic h = record {
    valid = h.valid;
    queue = h.queue;
    topic = topic;
    hands = tt;
    fresh = [];
    noted = sym (append-nil s.stored_events);
    messages = refl;
    order = λ l q hl. rw h.same at hl;
  }

  -- A restart hands over nothing, and keeps the queue of the call.
  restarted-Run :
      (up : Startup) (s : System)
      → Fair up s.pipeline
      → Durable s
      → s.pipeline.cfg.topic ≡ t
      → IsValid s.pipeline.outbox
      → Contiguous t u s.pipeline.outbox
      → Run t u [] s (restarted up s)
        × Durable (restarted up s)
        × ((restarted up s).pipeline.cfg ≡ s.pipeline.cfg)
  restarted-Run up s fair durable topic v q =
      let (rows, e, k) = restarted-resumed up s fair durable v in
      rw e (
        resumed-Run s rows topic
            (resumed-Stands up.clock.due up.clock.update s.pipeline.outbox rows k v q),
        record { opened = durable.opened; unretired = durable.unretired },
        refl,
      )

  live_all-Run :
      (lives : List Lifetime) (s : System)
      → All (Ordinary s.pipeline) lives
      → Durable s
      → s.pipeline.cfg.topic ≡ t
      → IsValid s.pipeline.outbox
      → Contiguous t u s.pipeline.outbox
      → Hands t u s.worker s.pipeline.outbox
      → Run t u (sent_live lives s) s (live_all lives s)
  unfolding live_all sent_live
  live_all-Run [] s asks durable topic v q h = stays-Run t u nonempty s topic v q h
  live_all-Run (l ∷ lives) s asks durable topic v q h =
      let run = act_all-Run t u nonempty l.actions s asks.0.0 topic v q h in
      let kept = act_all-Kept l.actions s in
      let s1 = act_all l.actions s in
      let durable1 : Durable s1 = record {
        opened = kept.store.opened ∙ durable.opened;
        unretired = kept.store.unretired durable.unretired;
      } in
      let (again, durable2, config) =
        restarted-Run l.startup s1
          (Fair-config l.startup s.pipeline s1.pipeline kept.config asks.0.1) durable1 run.topic
          run.valid run.queue in
      let rest =
        live_all-Run lives (live l s)
          (All-mono (Ordinary s.pipeline) (Ordinary (live l s).pipeline) lives
            (λ x o. (
              o.0,
              Fair-config x.startup s.pipeline (live l s).pipeline (config ∙ kept.config) o.1,
            ))
            asks.1)
          durable2 again.topic again.valid again.queue again.hands in
      Run-trans t u (sent l.actions s) (sent_live lives (live l s)) s s1 _ run
        (Run-trans t u [] (sent_live lives (live l s)) s1 (live l s) _ again rest)

  -- Over any number of lifetimes of the process, each of any sequence of events handed in without
  -- a sequence of their own, of steps of the worker, of stops and of requests to rebuild the
  -- producer, ended at any point between two of them and followed by a start that is not refused,
  -- from an open and well-formed outbox where the call's queue is contiguous and no retired call
  -- has a cursor: librdkafka has accepted exactly the messages of the events `sent_live`, and
  -- those of the call are of events that waited at the start or have been stored since, in the
  -- order of the queue: an event may be sent again before a later one is, some events may not be
  -- sent (yet, or at all), and none is sent after a later one, whichever process sends it.
  pub live_all-Sends :
      (lives : List Lifetime) (s : System)
      → All (Ordinary s.pipeline) lives
      → Durable s
      → s.pipeline.cfg.topic ≡ t
      → IsValid s.pipeline.outbox
      → Contiguous t u s.pipeline.outbox
      → Hands t u s.worker s.pipeline.outbox
      → Sends t u (sent_live lives s) s (live_all lives s)
  live_all-Sends lives s asks durable topic v q h =
      Run-Sends t u (sent_live lives s) s _ (live_all-Run lives s asks durable topic v q h)
