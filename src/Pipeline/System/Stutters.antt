-- ===== src/Pipeline/System/Stutters.antt =====
-- A list of sent events that follows a queue: in its order, with repetitions and gaps.
use mod_event_kafka.Common.{
  String, ◌≡◌, sym, ap, ◌∙◌, inl, inr, not, List, [], ◌∷◌, ◌++◌, map, if_cases, Bool-cases,
  &&_parts, select_where, text_eq_iff,
}
use mathlib.Core.List.{append_assoc, map-append}
use mod_event_kafka.Common.Tables.Select.{select_where-append}
use mod_event_kafka.Outbox.Schema.{OutboxRecord}
use mod_event_kafka.Outbox.History.{record_of}
use mod_event_kafka.Outbox.Fifo.{waiting}
use mod_event_kafka.Outbox.Fifo.Head.{First}
use mod_event_kafka.Pipeline.State.{KafkaPipeline}
use mod_event_kafka.Pipeline.Calls.{is_error}
use mod_event_kafka.Pipeline.Producer.{message_of}
use mod_event_kafka.Pipeline.Worker.{World, Worker, producing}
use mod_event_kafka.Pipeline.Worker.Handing.{handed}
use mod_event_kafka.Pipeline.Worker.Hands.{Hands}

-- The list repeats entries of the other one, in their order: each as often as it likes before the
-- next, and not every entry has to occur.
pub data Stutters : List String → List String → Type 0 where
  over : {q : List String} → Stutters [] q
  again : {x : String} {l q : List String} → Stutters l (x ∷ q) → Stutters (x ∷ l) (x ∷ q)
  passed : {x : String} {l q : List String} → Stutters l q → Stutters l (x ∷ q)

pub Stutters-front :
    {l q : List String} (gone : List String) → Stutters l q → Stutters l (gone ++ q)
Stutters-front [] h = h
Stutters-front (x ∷ gone) h = passed (Stutters-front gone h)

pub queue_steps :
    (gone w' w into more : List String)
    → gone ++ w' ≡ w ++ into
    → gone ++ (w' ++ more) ≡ w ++ (into ++ more)
queue_steps gone w' w into more h =
    sym (append_assoc gone w' more) ∙ ap (λ l. l ++ more) h ∙ append_assoc w into more

-- The handed events of a call.
abbrev pub sent_of : String → String → List OutboxRecord → List String
sent_of t u recs = map (λ rec. rec.event_id) (select_where (record_of t u) recs)

pub sent_of-append :
    (t u : String) (xs ys : List OutboxRecord)
    → sent_of t u (xs ++ ys) ≡ sent_of t u xs ++ sent_of t u ys
sent_of-append t u xs ys =
    ap (map (λ rec. rec.event_id)) (select_where-append (record_of t u) xs ys)
    ∙ map-append (λ rec. rec.event_id) (select_where (record_of t u) xs)
        (select_where (record_of t u) ys)

module _ (t u : String) where
  -- An event that is handed over is the oldest of its call.
  one-Stutters :
      (rec : OutboxRecord) (l w q : List String)
      → (rec.topic ≡ t → rec.call_uuid ≡ u → First rec.event_id w)
      → Stutters l (w ++ q)
      → Stutters (sent_of t u (rec ∷ []) ++ l) (w ++ q)
  one-Stutters rec l w q first h = elim (Bool-cases (record_of t u rec)) [
    | inr other ↦ rw other h
    | inl mine ↦
        let (topic, call) = &&_parts _ _ mine in
        let (rest, front) =
          first ((text_eq_iff rec.topic t).0 topic) ((text_eq_iff rec.call_uuid u).0 call) in
        rw mine (rw front (again (rw front at h)))
  ]

  pub handed-Stutters :
      (w : World) (s : Worker) (p : KafkaPipeline) (l q : List String)
      → Hands t u s p.outbox
      → Stutters l (waiting t u p.outbox ++ q)
      → Stutters (sent_of t u (handed w s p) ++ l) (waiting t u p.outbox ++ q)
  handed-Stutters w (producing rec rest) p l q hands h =
      if_cases (λ x. Stutters (sent_of t u x ++ l) (waiting t u p.outbox ++ q)) (not p.producer)
        (λ _. h)
        (λ _.
          if_cases (λ x. Stutters (sent_of t u x ++ l) (waiting t u p.outbox ++ q))
            (is_error (w.kafka.producev (message_of p.cfg.topic rec))) (λ _. h)
            (λ _. one-Stutters rec l (waiting t u p.outbox) q hands.0 h))
  handed-Stutters w s p l q hands h = h
