-- ===== src/Pipeline/Worker/Ending/Places.antt =====
-- From each place of worker_loop, a worker whose pipeline has stopped comes to its end.
use mod_event_kafka.Common.{
  ℕ, String, ◌≡◌, refl, ◌⊎◌, inl, inr, true, false, List, [], ◌∷◌, if_cases,
}
use mod_event_kafka.Outbox.Schema.{OutboxRecord}
use mod_event_kafka.Pipeline.State.{KafkaPipeline, observe}
use mod_event_kafka.Pipeline.Worker.{
  Delivery, World, to_exit, to_loop, to_rebuild, Worker, loop_head, rebuilding, expiring, fetching,
  sending, producing, settling, reporting, ended, aborted, dispatch, at_expiry, send_next,
  advance_worker,
}
use mod_event_kafka.Pipeline.Worker.Ending.{
  Course, run_worker, has_ended, EndsStopped, reports-Ends, by_step, ended-Ends, aborted-Ends,
  last_reports-Ends, exit-Ends, head-Ends,
}
use mod_event_kafka.Pipeline.Worker.Ending.Aborting.{Flushed, aborted-Flushed}
use mod_event_kafka.Pipeline.Worker.Leads.{
  settle_next-Leading, produce_next-Leading, fetch-Leading, rebuild-Leading,
}

expiring-Ends : EndsStopped expiring
unfolding advance_worker at_expiry observe
expiring-Ends = by_step expiring (λ w fs p r. rw r (exit-Ends w p)) exit-Ends

loop_reports-Ends : (reports : List Delivery) → EndsStopped (reporting reports to_loop)
loop_reports-Ends = reports-Ends to_loop head-Ends (λ reports. exit-Ends)

loop-Ends : (w : World) (p : KafkaPipeline) → EndsStopped (dispatch w to_loop p)
loop-Ends w p = if_cases EndsStopped p.producer (λ _. loop_reports-Ends w.reports) (λ _. head-Ends)

sending-Ends : (due : List OutboxRecord) → EndsStopped (sending due)
unfolding advance_worker send_next observe
sending-Ends [] = by_step (sending []) (λ w fs p r. loop-Ends w p) exit-Ends
sending-Ends (rec ∷ rest) =
    by_step (sending (rec ∷ rest)) (λ w fs p r. rw r (loop-Ends w p)) exit-Ends

settling-Ends :
    (rec : OutboxRecord) (why : String) (rest : List OutboxRecord)
    → EndsStopped (settling rec why rest)
unfolding advance_worker
settling-Ends rec why rest =
    by_step (settling rec why rest)
      (λ w fs p r. (settle_next-Leading EndsStopped w rec why rest (sending-Ends rest)).lead fs p)
      exit-Ends

producing-Ends : (rec : OutboxRecord) (rest : List OutboxRecord) → EndsStopped (producing rec rest)
unfolding advance_worker
producing-Ends rec rest =
    by_step (producing rec rest)
      (λ w fs p r.
        (produce_next-Leading EndsStopped w rec rest (sending-Ends rest)
            (λ err. settling-Ends rec err rest)).lead
          fs p)
      exit-Ends

fetching-Ends : (now : ℕ) → EndsStopped (fetching now)
unfolding advance_worker
fetching-Ends now =
    by_step (fetching now) (λ w fs p r. (fetch-Leading EndsStopped now sending-Ends).lead fs p)
      exit-Ends

rebuilding-Ends : EndsStopped rebuilding
unfolding advance_worker
rebuilding-Ends =
    by_step rebuilding (λ w fs p r. (rebuild-Leading EndsStopped w expiring-Ends).lead fs p)
      exit-Ends

rebuild_reports-Ends : (reports : List Delivery) → EndsStopped (reporting reports to_rebuild)
rebuild_reports-Ends = reports-Ends to_rebuild rebuilding-Ends (λ reports. exit-Ends)

every-Ends : (s : Worker) → EndsStopped s
every-Ends loop_head = head-Ends
every-Ends rebuilding = rebuilding-Ends
every-Ends expiring = expiring-Ends
every-Ends (fetching now) = fetching-Ends now
every-Ends (sending due) = sending-Ends due
every-Ends (producing rec rest) = producing-Ends rec rest
every-Ends (settling rec why rest) = settling-Ends rec why rest
every-Ends (reporting reports to_rebuild) = rebuild_reports-Ends reports
every-Ends (reporting reports to_loop) = loop_reports-Ends reports
every-Ends (reporting reports to_exit) = last_reports-Ends reports
every-Ends ended = ended-Ends
every-Ends aborted = aborted-Ends

ended_or_aborted : (s : Worker) → has_ended s ≡ true → (s ≡ ended) ⊎ (s ≡ aborted)
ended_or_aborted ended h = inl refl
ended_or_aborted aborted h = inr refl
ended_or_aborted loop_head h = cc
ended_or_aborted rebuilding h = cc
ended_or_aborted expiring h = cc
ended_or_aborted (fetching now) h = cc
ended_or_aborted (sending due) h = cc
ended_or_aborted (producing rec rest) h = cc
ended_or_aborted (settling rec why rest) h = cc
ended_or_aborted (reporting reports next) h = cc

-- The end of a worker after n steps: it has returned, so that it can be joined, or an exception has left
-- it, which terminates the process.
abbrev pub Ended : Course → ℕ → Worker × KafkaPipeline → Type 0
Ended course n s =
    ((run_worker course n s).0 ≡ ended)
    ⊎ (((run_worker course n s).0 ≡ aborted) × Flushed course n s)

Ended-cases :
    (course : Course) (n : ℕ) (s : Worker × KafkaPipeline)
    → ((run_worker course n s).0 ≡ ended) ⊎ ((run_worker course n s).0 ≡ aborted)
    → Ended course n s
Ended-cases course n s (inl e) = inl e
Ended-cases course n s (inr e) = inr (e, aborted-Flushed course n s e)

-- Once running_ is false, the worker comes to its end after finitely many steps, wherever it is in its
-- loop and whatever it meets on the way, each poll and flush dispatching finitely many reports: it
-- returns, so that it can be joined, or an exception leaves it, which terminates the process. In the
-- second case it was aborted before, or it has been dispatching the reports of its last flush, which
-- is outside the try block.
pub run_worker-ends :
    (s : Worker) (p : KafkaPipeline) (course : Course)
    → p.running ≡ false
    → (n : ℕ) × Ended course n (s, p)
run_worker-ends s p course stopped =
    let (n, e) = every-Ends s p stopped course in
    (n, Ended-cases course n (s, p) (ended_or_aborted _ e))
