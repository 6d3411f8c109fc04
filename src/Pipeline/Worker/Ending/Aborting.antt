-- ===== src/Pipeline/Worker/Ending/Aborting.antt =====
-- Which exceptions leave worker_loop: those of the last flush, which is outside its try block.
use mod_event_kafka.Common.{
  ℕ, zero, suc, ◌<◌, ◌≡◌, refl, ◌⊎◌, inl, inr, not, ◌||◌, List, [], ◌∷◌, if_cases, arith, subst,
}
use mod_event_kafka.Outbox.Schema.{OutboxRecord}
use mod_event_kafka.Outbox.Engine.{Faults}
use mod_event_kafka.Pipeline.State.{
  KafkaPipeline, Step, returned, escaped, ◌>>=◌, ◌>>◌, return, observe, modify,
}
use mod_event_kafka.Pipeline.Worker.{
  Delivery, Next, to_exit, to_loop, to_rebuild, World, Worker, loop_head, rebuilding, expiring,
  fetching, sending, producing, settling, reporting, ended, aborted, after_reports, dispatch,
  at_head, at_expiry, send_next, advance_worker, handled, caught_by_loop, worker_step,
}
use mod_event_kafka.Pipeline.Worker.Leads.{
  Leads, reported-Leading, report_next-Leading, settle_next-Leading, produce_next-Leading,
  fetch-Leading, claim_next-Leading, expire_old-Leading, rebuild-Leading,
}
use mod_event_kafka.Pipeline.Worker.Ending.{Course, run_worker}

abbrev Sound : Worker → Type 0
Sound aborted = ⊥
Sound _ = Unit

after_reports-Sound : (next : Next) → Sound (after_reports next)
after_reports-Sound to_rebuild = tt
after_reports-Sound to_loop = tt
after_reports-Sound to_exit = tt

dispatch-Sound : (w : World) (next : Next) (p : KafkaPipeline) → Sound (dispatch w next p)
dispatch-Sound w next p = if_cases Sound p.producer (λ _. tt) (λ _. after_reports-Sound next)

at_head-Sound : (w : World) (fs : Faults) (p : KafkaPipeline) → Leads Sound (at_head w fs p)
unfolding at_head observe modify ◌>>◌ ◌>>=◌
at_head-Sound w fs p =
    if_cases (Leads Sound) (not p.running) (λ _. dispatch-Sound w to_exit p)
      (λ _.
        if_cases (Leads Sound) p.rebuild_requested (λ _. dispatch-Sound w to_rebuild p) (λ _. tt))

at_expiry-Sound : (w : World) (fs : Faults) (p : KafkaPipeline) → Leads Sound (at_expiry w fs p)
unfolding at_expiry observe
at_expiry-Sound w fs p =
    if_cases (Leads Sound) (not p.running) (λ _. dispatch-Sound w to_exit p)
      (λ _. (expire_old-Leading Sound w tt).lead fs p)

send_next-Sound :
    (w : World) (due : List OutboxRecord) (fs : Faults) (p : KafkaPipeline)
    → Leads Sound (send_next w due fs p)
unfolding send_next observe
send_next-Sound w [] fs p = dispatch-Sound w to_loop p
send_next-Sound w (rec ∷ rest) fs p =
    if_cases (Leads Sound) (not p.running || p.rebuild_requested) (λ _. dispatch-Sound w to_loop p)
      (λ _. (claim_next-Leading Sound w rec rest tt).lead fs p)

-- The places from which an exception may leave the thread, or has left it.
abbrev pub Last : Worker → Type 0
Last s = (s ≡ aborted) ⊎ ((reports : List Delivery) × (s ≡ reporting reports to_exit))

advance_worker-Sound :
    (w : World) (s : Worker) (fs : Faults) (p : KafkaPipeline)
    → Leads Sound (advance_worker w s fs p) ⊎ Last s
unfolding advance_worker return
advance_worker-Sound w loop_head fs p = inl (at_head-Sound w fs p)
advance_worker-Sound w rebuilding fs p = inl ((rebuild-Leading Sound w tt).lead fs p)
advance_worker-Sound w expiring fs p = inl (at_expiry-Sound w fs p)
advance_worker-Sound w (fetching now) fs p = inl ((fetch-Leading Sound now (λ due. tt)).lead fs p)
advance_worker-Sound w (sending due) fs p = inl (send_next-Sound w due fs p)
advance_worker-Sound w (producing rec rest) fs p =
    inl ((produce_next-Leading Sound w rec rest tt (λ err. tt)).lead fs p)
advance_worker-Sound w (settling rec why rest) fs p =
    inl ((settle_next-Leading Sound w rec why rest tt).lead fs p)
advance_worker-Sound w (reporting [] next) fs p =
    inl ((reported-Leading Sound w next (after_reports-Sound next)).lead fs p)
advance_worker-Sound w (reporting (d ∷ reports) next) fs p =
    inl ((report_next-Leading Sound w d reports next tt).lead fs p)
advance_worker-Sound w ended fs p = inl tt
advance_worker-Sound w aborted fs p = inr (inl refl)

handled-Sound : (w : World) (s : Worker) (p : KafkaPipeline) → Sound (handled w s p).0 ⊎ Last s
handled-Sound w loop_head p = inl (dispatch-Sound w to_exit p)
handled-Sound w rebuilding p = inl (dispatch-Sound w to_exit p)
handled-Sound w expiring p = inl (dispatch-Sound w to_exit p)
handled-Sound w (fetching now) p = inl (dispatch-Sound w to_exit p)
handled-Sound w (sending due) p = inl (dispatch-Sound w to_exit p)
handled-Sound w (producing rec rest) p = inl (dispatch-Sound w to_exit p)
handled-Sound w (settling rec why rest) p = inl (dispatch-Sound w to_exit p)
handled-Sound w (reporting reports to_rebuild) p = inl (dispatch-Sound w to_exit p)
handled-Sound w (reporting reports to_loop) p = inl (dispatch-Sound w to_exit p)
handled-Sound w (reporting reports to_exit) p = inr (inr (reports, refl))
handled-Sound w ended p = inl (dispatch-Sound w to_exit p)
handled-Sound w aborted p = inr (inl refl)

caught_by_loop-Sound :
    (w : World) (s : Worker) (o : Step Worker)
    → Leads Sound o ⊎ Last s
    → Sound (caught_by_loop w s o).0 ⊎ Last s
caught_by_loop-Sound w s (returned s' fs p) h = h
caught_by_loop-Sound w s (escaped e fs p) h = handled-Sound w s p

worker_step-Sound :
    (w : World) (fs : Faults) (s : Worker) (p : KafkaPipeline)
    → Sound (worker_step w fs (s, p)).0 ⊎ Last s
unfolding worker_step
worker_step-Sound w fs s p =
    caught_by_loop-Sound w s (advance_worker w s fs p) (advance_worker-Sound w s fs p)

-- The worker was aborted from the start, or has been in its last flush on the way.
abbrev pub Flushed : Course → ℕ → Worker × KafkaPipeline → Type 0
Flushed course n s =
    (s.0 ≡ aborted)
    ⊎ ((k : ℕ) × (reports : List Delivery) × (k < n)
        × ((run_worker course k s).0 ≡ reporting reports to_exit))

step-Flushed :
    (course : Course) (n : ℕ) (s : Worker) (p : KafkaPipeline)
    → Last s
    → Flushed course (suc n) (s, p)
unfolding run_worker
step-Flushed course n s p (inl e) = inl e
step-Flushed course n s p (inr (reports, e)) = inr (0, reports, omega arith, e)

later-Flushed :
    (course : Course) (n : ℕ) (s : Worker) (p : KafkaPipeline)
    → Flushed (λ k. course (suc k)) n (worker_step (course 0).0 (course 0).1 (s, p))
    → Flushed course (suc n) (s, p)
unfolding run_worker
later-Flushed course n s p (inr (k, reports, lt, e)) = inr (suc k, reports, omega (arith, lt), e)
later-Flushed course n s p (inl e) = elim (worker_step-Sound (course 0).0 (course 0).1 s p) [
  | inl sound ↦ absurd (subst Sound e sound)
  | inr last ↦ step-Flushed course n s p last
]

-- A worker that has been aborted has been in its last flush.
pub aborted-Flushed :
    (course : Course) (n : ℕ) (s : Worker × KafkaPipeline)
    → (run_worker course n s).0 ≡ aborted
    → Flushed course n s
unfolding run_worker
aborted-Flushed course zero s e = inl e
aborted-Flushed course (suc n) (s, p) e =
    later-Flushed course n s p
      (aborted-Flushed (λ k. course (suc k)) n (worker_step (course 0).0 (course 0).1 (s, p)) e)
