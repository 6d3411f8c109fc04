-- ===== src/Pipeline/System/Kept.antt =====
-- What a run of the pipeline keeps: its configuration, the open outbox, and that no retired call has
-- a cursor.
use mod_event_kafka.Common.{ℕ, ◌≡◌, refl, ◌∙◌, List, [], ◌∷◌}
use mod_event_kafka.Outbox.Schema.{Store}
use mod_event_kafka.Outbox.Engine.{Faults}
use mod_event_kafka.Outbox.History.{Call, inserts, after}
use mod_event_kafka.Outbox.History.Fixed.{after-fixed}
use mod_event_kafka.Outbox.History.Retired.{Unretired, after-Unretired}
use mod_event_kafka.Outbox.Reach.{Reaches, stays, call, Serving}
use mod_event_kafka.Pipeline.State.{Step}
use mod_event_kafka.Pipeline.Calls.{Event, Enqueued, record_of_event}
use mod_event_kafka.Pipeline.Worker.Serving.{worker_step-Served}
use mod_event_kafka.Pipeline.System.{
  System, Action, enqueues, works, stops, requests_rebuild, answered, act, act_all,
}
use mod_event_kafka.Pipeline.System.Entry.{Entry, admits, turns_away, enqueue-Entry}

-- The store is as open as before, and retired calls go on without a cursor.
pub record KeptStore (d d' : Store) : Type 0 where
  pub opened : d'.is_open ≡ d.is_open
  pub unretired : Unretired d → Unretired d'

call-KeptStore : (c : Call) (fs : Faults) (d : Store) → KeptStore d (after c fs d)
call-KeptStore c fs d = record {
  opened = after-fixed (λ (x : Store). x.is_open) (λ x rows ss n. refl) c fs d;
  unretired = after-Unretired c fs d;
}

Reaches-KeptStore : (P : Call → Type 0) {d d' : Store} → Reaches P d d' → KeptStore d d'
Reaches-KeptStore P stays = record { opened = refl; unretired = λ h. h }
Reaches-KeptStore P (call {d1} {d2} k c fs p e) =
    let before = Reaches-KeptStore P k in
    let step = call-KeptStore c fs d1 in
    rw e (record {
      opened = step.opened ∙ before.opened;
      unretired = λ h. step.unretired (before.unretired h);
    })

pub record Kept (s s' : System) : Type 0 where
  pub config : s'.pipeline.cfg ≡ s.pipeline.cfg
  pub store : KeptStore s.pipeline.outbox s'.pipeline.outbox

answered-Kept :
    (ev : Event) (wall : ℕ) (s : System) (o : Step Enqueued)
    → Entry ev wall s.pipeline o
    → Kept s (answered ev s o)
answered-Kept ev wall s _ (turns_away id err fs' p' same) = record {
  config = same.1;
  store = rw same.0 (record { opened = refl; unretired = λ h. h });
}
answered-Kept ev wall s _ (admits id seq fs fs' p' ok o c m) = record {
  config = c;
  store = rw o (
      call-KeptStore (inserts (record_of_event s.pipeline.cfg.topic ev) wall) fs s.pipeline.outbox);
}

act-Kept : (a : Action) (s : System) → Kept s (act a s)
unfolding act
act-Kept (enqueues ev wall fs) s = answered-Kept ev wall s _ (enqueue-Entry ev wall fs s.pipeline)
act-Kept (works w fs) s =
    let step = worker_step-Served w fs s.worker s.pipeline in
    record { config = step.config; store = Reaches-KeptStore Serving step.calls }
act-Kept stops s = record { config = refl; store = record { opened = refl; unretired = λ h. h } }
act-Kept requests_rebuild s = record {
  config = refl;
  store = record { opened = refl; unretired = λ h. h };
}

pub act_all-Kept : (actions : List Action) (s : System) → Kept s (act_all actions s)
unfolding act_all
act_all-Kept [] s = record { config = refl; store = record { opened = refl; unretired = λ h. h } }
act_all-Kept (a ∷ actions) s =
    let step = act-Kept a s in
    let rest = act_all-Kept actions (act a s) in
    record {
      config = rest.config ∙ step.config;
      store = record {
        opened = rest.store.opened ∙ step.store.opened;
        unretired = λ h. rest.store.unretired (step.store.unretired h);
      };
    }
