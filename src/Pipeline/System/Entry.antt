-- ===== src/Pipeline/System/Entry.antt =====
-- What enqueue does to the outbox: one admission, or nothing.
use mod_event_kafka.Common.{ℕ, String, ◌≡◌, refl, inl, inr, some, ℤ, if_cases, not}
use mod_event_kafka.Outbox.Schema.{OutboxRecord, Store}
use mod_event_kafka.Outbox.Engine.{Faults, done}
use mod_event_kafka.Outbox.Admission.{insert_pending}
use mod_event_kafka.Outbox.History.{inserts, after, accepted}
use mod_event_kafka.Pipeline.Failure.{reported}
use mod_event_kafka.Pipeline.State.{
  KafkaPipeline, Step, returned, ◌>>=◌, ◌>>◌, return, modify, on_outbox,
}
use mod_event_kafka.Pipeline.Calls.{
  Enqueued, stored, rejected, Event, record_of_event, lacks_sequence, conclude, commit_event,
  enqueue,
}
use mod_event_kafka.Pipeline.Enqueuing.{insert_pending_cases}
use mod_event_kafka.Pipeline.Serving.{Untouched}

pub data Entry (ev : Event) (wall : ℕ) (p : KafkaPipeline) : Step Enqueued → Type 0 where
  admits :
      (id : String) (seq : ℤ) (fs fs' : Faults) (p' : KafkaPipeline)
      → accepted (inserts (record_of_event p.cfg.topic ev) wall) fs p.outbox
        ≡ some (record_of_event p.cfg.topic ev)
      → p'.outbox ≡ after (inserts (record_of_event p.cfg.topic ev) wall) fs p.outbox
      → p'.cfg ≡ p.cfg
      → p'.produced ≡ p.produced
      → Entry ev wall p (returned (stored id seq) fs' p')
  turns_away :
      (id err : String) (fs' : Faults) (p' : KafkaPipeline)
      → Untouched p p'
      → Entry ev wall p (returned (rejected id err) fs' p')

accepted-inserts :
    (rec : OutboxRecord) (wall : ℕ) (fs : Faults) (d : Store) {a : ℤ} {fs' : Faults} {d' : Store}
    → insert_pending rec wall fs d ≡ done a fs' d'
    → accepted (inserts rec wall) fs d ≡ some rec
unfolding accepted
accepted-inserts rec wall fs d e = rw e refl

after-inserts :
    (rec : OutboxRecord) (wall : ℕ) (fs : Faults) (d : Store) {a : ℤ} {fs' : Faults} {d' : Store}
    → insert_pending rec wall fs d ≡ done a fs' d'
    → d' ≡ after (inserts rec wall) fs d
unfolding after
after-inserts rec wall fs d e = rw e refl

commit_event-Entry :
    (ev : Event) (wall : ℕ) (fs : Faults) (p : KafkaPipeline)
    → Entry ev wall p (commit_event ev wall fs p)
unfolding commit_event ◌>>=◌ ◌>>◌ on_outbox reported conclude modify return
commit_event-Entry ev wall fs p =
    elim (insert_pending_cases (record_of_event p.cfg.topic ev) wall fs p.outbox) [
      | inl (a, fs', d', e) ↦ rw e (
          admits ev.event_id a fs fs' _ (accepted-inserts _ wall fs p.outbox e)
            (after-inserts _ wall fs p.outbox e) refl refl)
      | inr (x, fs', e) ↦ rw e (turns_away ev.event_id x fs' _ (refl, refl, (λ e. e), refl))
    ]

pub enqueue-Entry :
    (ev : Event) (wall : ℕ) (fs : Faults) (p : KafkaPipeline)
    → Entry ev wall p (enqueue ev wall fs p)
unfolding enqueue return
enqueue-Entry ev wall fs p =
    if_cases (Entry ev wall p) (not p.accept)
      (λ a. turns_away _ _ fs p (refl, refl, (λ e. e), refl))
      (λ a.
        if_cases (Entry ev wall p) (lacks_sequence p ev)
          (λ l. turns_away _ _ fs p (refl, refl, (λ e. e), refl))
          (λ l. commit_event-Entry ev wall fs p))
