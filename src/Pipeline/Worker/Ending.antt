-- ===== src/Pipeline/Worker/Ending.antt =====
-- What the join of KafkaPipeline::stop waits for: once `running_` is false, the worker takes no more
-- steps after finitely many, since it has returned or been aborted.
pub mod Aborting
pub mod Places
use mod_event_kafka.Common.{
  ℕ, zero, suc, ◌+◌, String, ◌≡◌, refl, ◌∙◌, Bool, true, false, not, ◌&&◌, ◌||◌, Option, none, some,
  List, [], ◌∷◌, if◌then◌else◌, if_cases, arith, ℤ, pos,
}
use mod_event_kafka.Outbox.Schema.{OutboxRecord}
use mod_event_kafka.Outbox.Engine.{Faults}
use mod_event_kafka.Pipeline.State.{
  KafkaPipeline, Step, Act, returned, escaped, proceed, ◌>>=◌, ◌>>◌, return, observe, modify,
  on_outbox,
}
use mod_event_kafka.Outbox.Transitions.{requeue_in_flight}
use mod_event_kafka.Outbox.Queries.{fetch_due}
use mod_event_kafka.Pipeline.Producer.{create_producer, produce_record}
use mod_event_kafka.Pipeline.Failure.{
  reported, Report, ok, failed, SendFailureResult, to_retry, to_dead, not_settled,
}
use mod_event_kafka.Pipeline.Calls.{count_settled, on_delivery}
use mod_event_kafka.Pipeline.Serving.{Served}
use mod_event_kafka.Pipeline.Worker.{
  after_reports, Delivery, World, Next, to_exit, to_loop, to_rebuild, Worker, loop_head, rebuilding,
  expiring, fetching, sending, producing, settling, reporting, ended, aborted, count_produced,
  count_refused, drop_producer, count_rebuild, dispatch, or_raise, at_head, at_expiry, send_next,
  fetch, claim_next, after_produce, after_settle, settle_next, rebuild, expire_old, produce_next,
  report_next, advance_worker, handled, caught_by_loop, worker_step,
}
use mod_event_kafka.Pipeline.Worker.Serving.{worker_step-Served}
use mod_event_kafka.Pipeline.Worker.Leads.{Leads, Leading, reported-Leading, report_next-Leading}

-- What the worker meets, step by step.
abbrev pub Course : Type 0
Course = ℕ → World × Faults

unfoldable pub run_worker : Course → ℕ → Worker × KafkaPipeline → Worker × KafkaPipeline
unfolding worker_step
run_worker course zero s = s
run_worker course (suc n) s =
    let rest = run_worker (λ k. course (suc k)) n in rest (worker_step (course 0).0 (course 0).1 s)

-- It takes no more steps.
abbrev pub has_ended : Worker → Bool
has_ended ended = true
has_ended aborted = true
has_ended _ = false

-- The worker ends on a course from a state.
abbrev pub Ends : Worker × KafkaPipeline → Type 0
Ends s = (course : Course) → (n : ℕ) × (has_ended (run_worker course n s).0 ≡ true)

one_more :
    (s : Worker × KafkaPipeline) → ((w : World) (fs : Faults) → Ends (worker_step w fs s)) → Ends s
unfolding run_worker
one_more s h course = let (n, e) = h (course 0).0 (course 0).1 (λ k. course (suc k)) in (suc n, e)

-- The worker ends from here in every pipeline that has stopped.
abbrev pub EndsStopped : Worker → Type 0
EndsStopped s = (p : KafkaPipeline) → p.running ≡ false → Ends (s, p)

caught_by_loop-Ends :
    (w : World) (s : Worker) (o : Step Worker)
    → Leads EndsStopped o
    → ((p : KafkaPipeline) → EndsStopped (handled w s p).0)
    → (caught_by_loop w s o).1.running ≡ false
    → Ends (caught_by_loop w s o)
caught_by_loop-Ends w s (returned s' fs p) h k r = h p r
caught_by_loop-Ends w s (escaped e fs p) h k r = k p (handled w s p).1 r

pub by_step :
    (s : Worker)
    → ((w : World) (fs : Faults) (p : KafkaPipeline)
        → p.running ≡ false
        → Leads EndsStopped (advance_worker w s fs p))
    → ((w : World) (p : KafkaPipeline) → EndsStopped (handled w s p).0)
    → EndsStopped s
unfolding worker_step
by_step s h k p r =
    one_more (s, p)
      (λ w fs.
        caught_by_loop-Ends w s (advance_worker w s fs p) (h w fs p r) (k w)
          ((worker_step-Served w fs s p).stopped r))

pub ended-Ends : EndsStopped ended
unfolding run_worker
ended-Ends p r course = (0, refl)

pub aborted-Ends : EndsStopped aborted
unfolding run_worker
aborted-Ends p r course = (0, refl)

-- The reports of one poll or flush, dispatched one by one.
pub reports-Ends :
    (next : Next)
    → EndsStopped (after_reports next)
    → ((reports : List Delivery) (w : World) (p : KafkaPipeline)
        → EndsStopped (handled w (reporting reports next) p).0)
    → (reports : List Delivery) → EndsStopped (reporting reports next)
unfolding advance_worker
reports-Ends next h k [] =
    by_step (reporting [] next) (λ w fs p r. (reported-Leading EndsStopped w next h).lead fs p)
      (k [])
reports-Ends next h k (d ∷ reports) =
    let rest = reports-Ends next h k reports in
    by_step (reporting (d ∷ reports) next)
      (λ w fs p r. (report_next-Leading EndsStopped w d reports next rest).lead fs p)
      (k (d ∷ reports))

pub last_reports-Ends : (reports : List Delivery) → EndsStopped (reporting reports to_exit)
last_reports-Ends reports = reports-Ends to_exit ended-Ends (λ reports w p. aborted-Ends) reports

pub exit-Ends : (w : World) (p : KafkaPipeline) → EndsStopped (dispatch w to_exit p)
exit-Ends w p = if_cases EndsStopped p.producer (λ _. last_reports-Ends w.reports) (λ _. ended-Ends)

pub head-Ends : EndsStopped loop_head
unfolding advance_worker at_head observe
head-Ends = by_step loop_head (λ w fs p r. rw r (exit-Ends w p)) exit-Ends
