-- ===== src/Pipeline/Worker/Hands.antt =====
-- The fetched events in the worker's hands, seen from the queue of a call: each still waits there,
-- and the one that is about to be sent is the oldest.
use mod_event_kafka.Common.{
  ℕ, String, ◌≡◌, refl, false, not, ◌||◌, List, [], ◌∷◌, ◌++◌, is_empty, if_cases, Memᴰ, All,
  All-mono, Memᴰ-append_left, Memᴰ-map, ap, pos, text_eq_self, ◌∙◌, true, text_starts_with,
}
use mod_event_kafka.Common.Tables.Select.{Memᴰ-select_where}
use mod_event_kafka.Outbox.Schema.{OutboxRecord, Row, Store}
use mod_event_kafka.Outbox.Engine.{Faults, Outcome, done, thrown, store_of}
use mod_event_kafka.Outbox.Transitions.{mark_in_flight}
use mod_event_kafka.Outbox.Queries.{fetch_due, to_record}
use mod_event_kafka.Outbox.Queries.Due.{fetch_due-stored}
use mod_event_kafka.Outbox.Invariant.{IsValid}
use mod_event_kafka.Outbox.History.{in_call_of}
use mod_event_kafka.Outbox.Fifo.{rows_of, waiting, Contiguous}
use mod_event_kafka.Outbox.Reach.{Settling}
use mod_event_kafka.Outbox.Reach.Standing.{Stands, Reaches-Stands, mark_in_flight-Stands}
use mod_event_kafka.Pipeline.Producer.{message_of, produce_ready, produce_record}
use mod_event_kafka.Pipeline.Calls.{is_error}
use mod_event_kafka.Pipeline.Serving.{Calling-settle_send_failure}
use mod_event_kafka.Outbox.Fifo.Head.{First, mark_in_flight-First}
use mod_event_kafka.Pipeline.State.{
  KafkaPipeline, Step, returned, escaped, proceed, Act, ◌>>=◌, ◌>>◌, return, modify, on_outbox,
  with_outbox, observe,
}
use mod_event_kafka.Pipeline.Failure.{
  Report, reported, SendFailureResult, to_retry, to_dead, not_settled,
}
use mod_event_kafka.Pipeline.Worker.{
  World, Worker, loop_head, rebuilding, expiring, fetching, sending, producing, settling, reporting,
  ended, aborted, fetch, claim_next, to_loop, send_next, produce_next, after_produce, after_settle,
  settle_next, advance_worker, handled, caught_by_loop, worker_step,
}
use mod_event_kafka.Pipeline.Worker.Leads.{Leads}
use mod_event_kafka.Pipeline.Worker.Idle.{
  Idle, Aside, dispatch-Idle, handled-Idle, advance_worker-Idle,
}

module _ (t u : String) where
  -- If the event is of the call, it waits in its queue.
  abbrev pub Present : Store → OutboxRecord → Type 0
  Present d rec = rec.topic ≡ t → rec.call_uuid ≡ u → Memᴰ rec.event_id (waiting t u d)

  -- If the event is of the call, it is the oldest in its queue.
  abbrev pub AtFront : Store → OutboxRecord → Type 0
  AtFront d rec = rec.topic ≡ t → rec.call_uuid ≡ u → First rec.event_id (waiting t u d)

  abbrev pub Hands : Worker → Store → Type 0
  Hands (sending due) d = All (Present d) due
  Hands (producing rec rest) d = AtFront d rec × All (Present d) rest
  Hands (settling rec why rest) d = All (Present d) rest
  Hands _ d = Unit

  -- An event of the table is present.
  stored-Present : (d : Store) (r : Row) → Memᴰ r d.rows → Present d (to_record r)
  unfolding to_record
  stored-Present d r m topic call =
      let mine : in_call_of t u r ≡ true = rw (topic, call, text_eq_self t, text_eq_self u) refl in
      Memᴰ-map (λ x. x.event_id) r (rows_of t u d)
        (Memᴰ-select_where (in_call_of t u) r d.rows mine m)

  -- What keeps the queue, or adds to it at the back, keeps the events in hand.
  Present-append :
      (d d' : Store) (more : List String)
      → waiting t u d' ≡ waiting t u d ++ more
      → (rec : OutboxRecord) → Present d rec
      → Present d' rec
  Present-append d d' more e rec h topic call =
      rw e (Memᴰ-append_left rec.event_id (waiting t u d) more (h topic call))

  Present-same :
      (d d' : Store)
      → waiting t u d' ≡ waiting t u d
      → (rec : OutboxRecord) → Present d rec
      → Present d' rec
  Present-same d d' e rec h topic call = rw e (h topic call)

  AtFront-append :
      (d d' : Store) (more : List String)
      → waiting t u d' ≡ waiting t u d ++ more
      → (rec : OutboxRecord) → AtFront d rec
      → AtFront d' rec
  AtFront-append d d' more e rec h topic call =
      let (rest, first) = h topic call in (rest ++ more, e ∙ ap (λ l. l ++ more) first)

  pub Hands-append :
      (d d' : Store) (more : List String)
      → waiting t u d' ≡ waiting t u d ++ more
      → (s : Worker) → Hands s d
      → Hands s d'
  Hands-append d d' more e (sending due) h = All-mono _ _ due (Present-append d d' more e) h
  Hands-append d d' more e (producing rec rest) h =
      (AtFront-append d d' more e rec h.0, All-mono _ _ rest (Present-append d d' more e) h.1)
  Hands-append d d' more e (settling rec why rest) h =
      All-mono _ _ rest (Present-append d d' more e) h
  Hands-append d d' more e loop_head h = tt
  Hands-append d d' more e rebuilding h = tt
  Hands-append d d' more e expiring h = tt
  Hands-append d d' more e (fetching now) h = tt
  Hands-append d d' more e (reporting reports next) h = tt
  Hands-append d d' more e ended h = tt
  Hands-append d d' more e aborted h = tt

  Idle-Hands : (s : Worker) (d : Store) → Idle s → Hands s d
  Idle-Hands loop_head d h = tt
  Idle-Hands rebuilding d h = tt
  Idle-Hands expiring d h = tt
  Idle-Hands (fetching now) d h = tt
  Idle-Hands (sending due) d h = absurd h
  Idle-Hands (producing rec rest) d h = absurd h
  Idle-Hands (settling rec why rest) d h = absurd h
  Idle-Hands (reporting reports next) d h = tt
  Idle-Hands ended d h = tt
  Idle-Hands aborted d h = tt

  -- So it is after a step that returns.
  abbrev Keeps : Step Worker → Type 0
  Keeps (returned s fs p) = Hands s p.outbox
  Keeps (escaped e fs p) = Unit

  Idle-Keeps : (o : Step Worker) → Leads Idle o → Keeps o
  Idle-Keeps (returned s fs p) h = Idle-Hands s p.outbox h
  Idle-Keeps (escaped e fs p) h = tt

  Aside-Keeps :
      (w : World) (s : Worker) (fs : Faults) (p : KafkaPipeline)
      → Aside s
      → Keeps (advance_worker w s fs p)
  Aside-Keeps w s fs p h = Idle-Keeps (advance_worker w s fs p) (advance_worker-Idle w s fs p h)

  fetch-Keeps : (now : ℕ) (fs : Faults) (p : KafkaPipeline) → Keeps (fetch now fs p)
  unfolding fetch ◌>>=◌ on_outbox return
  fetch-Keeps now fs p = read (fetch_due now (pos 32) fs p.outbox) refl
    where
      read :
          (o : Outcome (List OutboxRecord))
          → fetch_due now (pos 32) fs p.outbox ≡ o
          → Keeps (fetch now fs p)
      read (done recs fs' d') e =
          let (same, rows) = fetch_due-stored now (pos 32) fs p.outbox recs fs' d' e in
          rw (e, same)
            (All-mono _ (Present p.outbox) recs (λ rec h. rw h.2 (stored-Present p.outbox h.0 h.1))
              rows)
      read (thrown x fs' d') e = rw e tt

  module _ (nonempty : is_empty u ≡ false) where
    claim_next-Keeps :
        (w : World) (rec : OutboxRecord) (rest : List OutboxRecord) (fs : Faults)
        (p : KafkaPipeline)
        → IsValid p.outbox
        → Contiguous t u p.outbox
        → Present p.outbox rec
        → All (Present p.outbox) rest
        → Keeps (claim_next w rec rest fs p)
    unfolding claim_next ◌>>=◌ ◌>>◌ on_outbox reported return
    claim_next-Keeps w rec rest fs p v q h hs =
        claimed (mark_in_flight w.now rec.event_id fs p.outbox) refl
      where
        claimed :
            (o : Outcome (Unit {0}))
            → mark_in_flight w.now rec.event_id fs p.outbox ≡ o
            → Keeps (claim_next w rec rest fs p)
        claimed (done a fs' d') e =
            let kept =
              mark_in_flight-Stands t u nonempty w.now rec.event_id fs p.outbox fs' d' e v q in
            rw e (
              λ topic call. rw kept.same (
                  mark_in_flight-First t u nonempty w.now rec.event_id fs p.outbox fs' d' e v q
                    (h topic call)),
              All-mono _ _ rest (Present-same p.outbox d' kept.same) hs,
            )
        claimed (thrown x fs' d') e = rw e tt

    send_next-Keeps :
        (w : World) (due : List OutboxRecord) (fs : Faults) (p : KafkaPipeline)
        → IsValid p.outbox
        → Contiguous t u p.outbox
        → All (Present p.outbox) due
        → Keeps (send_next w due fs p)
    unfolding send_next observe
    send_next-Keeps w [] fs p v q h = Idle-Hands _ p.outbox (dispatch-Idle w to_loop p)
    send_next-Keeps w (rec ∷ rest) fs p v q h =
        if_cases Keeps (not p.running || p.rebuild_requested)
          (λ _. Idle-Hands _ p.outbox (dispatch-Idle w to_loop p))
          (λ _. claim_next-Keeps w rec rest fs p v q h.0 h.1)

    produce_next-Keeps :
        (w : World) (rec : OutboxRecord) (rest : List OutboxRecord) (fs : Faults)
        (p : KafkaPipeline)
        → All (Present p.outbox) rest
        → Keeps (produce_next w rec rest fs p)
    unfolding produce_next produce_record produce_ready after_produce ◌>>=◌ ◌>>◌ modify return
    produce_next-Keeps w rec rest fs p h =
        if_cases (λ (o : Step (Report (Unit {0}))). Keeps (proceed o (after_produce rec rest)))
          (not p.producer) (λ _. h)
          (λ _.
            if_cases
              (λ (m : Act (Report (Unit {0}))). Keeps (proceed (m fs p) (after_produce rec rest)))
              (is_error (w.kafka.producev (message_of p.cfg.topic rec))) (λ _. h) (λ _. h))

    after_settle-Keeps :
        (rest : List OutboxRecord) (r : SendFailureResult) (fs : Faults) (p : KafkaPipeline)
        → All (Present p.outbox) rest
        → Keeps (after_settle rest r fs p)
    unfolding after_settle ◌>>◌ ◌>>=◌ modify return
    after_settle-Keeps rest to_retry fs p h = h
    after_settle-Keeps rest to_dead fs p h = h
    after_settle-Keeps rest (not_settled err) fs p h = tt

    settled-Keeps :
        (rest : List OutboxRecord) (p : KafkaPipeline) (o : Outcome SendFailureResult)
        → Stands t u p.outbox (store_of o)
        → All (Present p.outbox) rest
        → Keeps (proceed (with_outbox p o) (after_settle rest))
    settled-Keeps rest p (done r fs d') k h =
        after_settle-Keeps rest r fs (record p { outbox = d' })
          (All-mono _ _ rest (Present-same p.outbox d' k.same) h)
    settled-Keeps rest p (thrown x fs d') k h = tt

    settle_next-Keeps :
        (w : World) (rec : OutboxRecord) (why : String) (rest : List OutboxRecord) (fs : Faults)
        (p : KafkaPipeline)
        → IsValid p.outbox
        → Contiguous t u p.outbox
        → All (Present p.outbox) rest
        → Keeps (settle_next w rec why rest fs p)
    unfolding settle_next ◌>>=◌ on_outbox
    settle_next-Keeps w rec why rest fs p v q h =
        let reached =
          (Calling-settle_send_failure Settling (λ _ _ _ _. tt) (λ _ _ _. tt)
              p.cfg.max_attempts_before_dead rec.event_id why (text_starts_with why "PERMANENT:")
              w.clock).reach
            fs p.outbox in
        settled-Keeps rest p _ (Reaches-Stands t u nonempty reached v q) h

    advance_worker-Keeps :
        (w : World) (s : Worker) (fs : Faults) (p : KafkaPipeline)
        → IsValid p.outbox
        → Contiguous t u p.outbox
        → Hands s p.outbox
        → Keeps (advance_worker w s fs p)
    unfolding advance_worker
    advance_worker-Keeps w (fetching now) fs p v q h = fetch-Keeps now fs p
    advance_worker-Keeps w (sending due) fs p v q h = send_next-Keeps w due fs p v q h
    advance_worker-Keeps w (producing rec rest) fs p v q h = produce_next-Keeps w rec rest fs p h.1
    advance_worker-Keeps w (settling rec why rest) fs p v q h =
        settle_next-Keeps w rec why rest fs p v q h
    advance_worker-Keeps w loop_head fs p v q h = Aside-Keeps w loop_head fs p tt
    advance_worker-Keeps w rebuilding fs p v q h = Aside-Keeps w rebuilding fs p tt
    advance_worker-Keeps w expiring fs p v q h = Aside-Keeps w expiring fs p tt
    advance_worker-Keeps w (reporting reports next) fs p v q h =
        Aside-Keeps w (reporting reports next) fs p tt
    advance_worker-Keeps w ended fs p v q h = Aside-Keeps w ended fs p tt
    advance_worker-Keeps w aborted fs p v q h = Aside-Keeps w aborted fs p tt

    caught_by_loop-Hands :
        (w : World) (s : Worker) (o : Step Worker)
        → Keeps o
        → Hands (caught_by_loop w s o).0 (caught_by_loop w s o).1.outbox
    caught_by_loop-Hands w s (returned s' fs p) h = h
    caught_by_loop-Hands w s (escaped e fs p) h =
        Idle-Hands _ (handled w s p).1.outbox (handled-Idle w s p)

    -- A step of the worker keeps its hands in order.
    pub worker_step-Hands :
        (w : World) (fs : Faults) (s : Worker) (p : KafkaPipeline)
        → IsValid p.outbox
        → Contiguous t u p.outbox
        → Hands s p.outbox
        → Hands (worker_step w fs (s, p)).0 (worker_step w fs (s, p)).1.outbox
    unfolding worker_step
    worker_step-Hands w fs s p v q h =
        caught_by_loop-Hands w s (advance_worker w s fs p) (advance_worker-Keeps w s fs p v q h)
