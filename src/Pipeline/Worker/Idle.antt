-- ===== src/Pipeline/Worker/Idle.antt =====
-- Where the worker holds no event: the places that most of its steps lead to.
use mod_event_kafka.Common.{not, [], ◌∷◌, if_cases}
use mod_event_kafka.Outbox.Engine.{Faults}
use mod_event_kafka.Pipeline.State.{KafkaPipeline, ◌>>=◌, ◌>>◌, return, observe, modify}
use mod_event_kafka.Pipeline.Worker.{
  Next, to_exit, to_loop, to_rebuild, World, Worker, loop_head, rebuilding, expiring, fetching,
  sending, producing, settling, reporting, ended, aborted, after_reports, dispatch, at_head,
  at_expiry, advance_worker, handled,
}
use mod_event_kafka.Pipeline.Worker.Leads.{
  Leads, reported-Leading, report_next-Leading, expire_old-Leading, rebuild-Leading,
}

-- The worker holds no fetched event.
abbrev pub Idle : Worker → Type 0
Idle (sending due) = ⊥
Idle (producing rec rest) = ⊥
Idle (settling rec why rest) = ⊥
Idle _ = Unit

-- A place whose step leads to such a place.
abbrev pub Aside : Worker → Type 0
Aside (fetching now) = ⊥
Aside (sending due) = ⊥
Aside (producing rec rest) = ⊥
Aside (settling rec why rest) = ⊥
Aside _ = Unit

after_reports-Idle : (next : Next) → Idle (after_reports next)
after_reports-Idle to_rebuild = tt
after_reports-Idle to_loop = tt
after_reports-Idle to_exit = tt

pub dispatch-Idle : (w : World) (next : Next) (p : KafkaPipeline) → Idle (dispatch w next p)
dispatch-Idle w next p = if_cases Idle p.producer (λ _. tt) (λ _. after_reports-Idle next)

at_head-Idle : (w : World) (fs : Faults) (p : KafkaPipeline) → Leads Idle (at_head w fs p)
unfolding at_head observe modify ◌>>◌ ◌>>=◌
at_head-Idle w fs p =
    if_cases (Leads Idle) (not p.running) (λ _. dispatch-Idle w to_exit p)
      (λ _. if_cases (Leads Idle) p.rebuild_requested (λ _. dispatch-Idle w to_rebuild p) (λ _. tt))

at_expiry-Idle : (w : World) (fs : Faults) (p : KafkaPipeline) → Leads Idle (at_expiry w fs p)
unfolding at_expiry observe
at_expiry-Idle w fs p =
    if_cases (Leads Idle) (not p.running) (λ _. dispatch-Idle w to_exit p)
      (λ _. (expire_old-Leading Idle w tt).lead fs p)

pub handled-Idle : (w : World) (s : Worker) (p : KafkaPipeline) → Idle (handled w s p).0
handled-Idle w loop_head p = dispatch-Idle w to_exit p
handled-Idle w rebuilding p = dispatch-Idle w to_exit p
handled-Idle w expiring p = dispatch-Idle w to_exit p
handled-Idle w (fetching now) p = dispatch-Idle w to_exit p
handled-Idle w (sending due) p = dispatch-Idle w to_exit p
handled-Idle w (producing rec rest) p = dispatch-Idle w to_exit p
handled-Idle w (settling rec why rest) p = dispatch-Idle w to_exit p
handled-Idle w (reporting reports to_rebuild) p = dispatch-Idle w to_exit p
handled-Idle w (reporting reports to_loop) p = dispatch-Idle w to_exit p
handled-Idle w (reporting reports to_exit) p = tt
handled-Idle w ended p = dispatch-Idle w to_exit p
handled-Idle w aborted p = dispatch-Idle w to_exit p

pub advance_worker-Idle :
    (w : World) (s : Worker) (fs : Faults) (p : KafkaPipeline)
    → Aside s
    → Leads Idle (advance_worker w s fs p)
unfolding advance_worker return
advance_worker-Idle w loop_head fs p h = at_head-Idle w fs p
advance_worker-Idle w rebuilding fs p h = (rebuild-Leading Idle w tt).lead fs p
advance_worker-Idle w expiring fs p h = at_expiry-Idle w fs p
advance_worker-Idle w (reporting [] next) fs p h =
    (reported-Leading Idle w next (after_reports-Idle next)).lead fs p
advance_worker-Idle w (reporting (d ∷ reports) next) fs p h =
    (report_next-Leading Idle w d reports next tt).lead fs p
advance_worker-Idle w ended fs p h = tt
advance_worker-Idle w aborted fs p h = tt
advance_worker-Idle w (fetching now) fs p h = absurd h
advance_worker-Idle w (sending due) fs p h = absurd h
advance_worker-Idle w (producing rec rest) fs p h = absurd h
advance_worker-Idle w (settling rec why rest) fs p h = absurd h
