-- ===== src/Pipeline/Enqueuing.antt =====
-- What enqueue promises its caller.
use mod_event_kafka.Common.{
  ℕ, String, ◌≡◌, refl, ◌∙◌, ◌⊎◌, inl, inr, true, false, List, [], ◌∷◌, ◌++◌, arith, ℤ, Bool-cases,
  Memᴰ, here, there,
}
use mod_event_kafka.Outbox.Schema.{pending, OutboxRecord, Row, Store}
use mod_event_kafka.Outbox.Engine.{Faults, done, thrown}
use mod_event_kafka.Outbox.Engine.Rules.{transaction_cases}
use mod_event_kafka.Outbox.Admission.{insert_body, insert_pending, new_row}
use mod_event_kafka.Outbox.Admission.Effects.{insert_pending-done}
use mod_event_kafka.Pipeline.Failure.{reported}
use mod_event_kafka.Pipeline.State.{KafkaPipeline, returned, ◌>>=◌, ◌>>◌, return, modify, on_outbox}
use mod_event_kafka.Pipeline.Calls.{
  Enqueued, stored, rejected, Event, record_of_event, lacks_sequence, count_enqueued,
  count_rejected, conclude, commit_event, enqueue,
}

Mem-snoc {ℓ} : {A : Type ℓ} (xs : List A) (a : A) → Memᴰ a (xs ++ a ∷ [])
Mem-snoc [] a = here
Mem-snoc (x ∷ xs) a = there (Mem-snoc xs a)

-- A row that holds an event, waiting to be sent.
pub record Holds (t : String) (ev : Event) (r : Row) : Type 0 where
  pub id : r.event_id ≡ ev.event_id
  pub topic : r.topic ≡ t
  pub key : r.msg_key ≡ ev.msg_key
  pub payload : r.payload ≡ ev.payload
  pub call : r.call_uuid ≡ ev.call_uuid
  pub waits : r.state ≡ pending

-- An event that is reported as stored is in the table; one that is not has changed nothing there.
abbrev pub Answered : KafkaPipeline → Event → Enqueued → KafkaPipeline → Type 0
Answered p ev (stored id seq) p' =
    (id ≡ ev.event_id) × (r : Row) × Memᴰ r p'.outbox.rows × Holds p.cfg.topic ev r
Answered p ev (rejected id err) p' = p'.outbox ≡ p.outbox

pub insert_pending_cases :
    (rec : OutboxRecord) (wall : ℕ) (fs : Faults) (d : Store)
    → ((a : ℤ) × (fs' : Faults) × (d' : Store) × (insert_pending rec wall fs d ≡ done a fs' d'))
      ⊎ ((e : String) × (fs' : Faults) × (insert_pending rec wall fs d ≡ thrown e fs' d))
unfolding insert_pending
insert_pending_cases rec wall fs d = transaction_cases (insert_body rec wall) fs d

commit_event_lem :
    (ev : Event) (wall : ℕ) (fs : Faults) (p : KafkaPipeline)
    → (answer : Enqueued) × (fs' : Faults) × (p' : KafkaPipeline) × (commit_event ev wall fs p
        ≡ returned answer fs' p')
      × Answered p ev answer p'
unfolding commit_event ◌>>=◌ ◌>>◌ on_outbox reported conclude modify return
commit_event_lem ev wall fs p =
    elim (insert_pending_cases (record_of_event p.cfg.topic ev) wall fs p.outbox) [
      | inl (a, fs', d', e) ↦
          let ad =
            insert_pending-done (record_of_event p.cfg.topic ev) wall fs p.outbox a fs' d' e in
          let row = new_row (record_of_event p.cfg.topic ev) wall ad.seq ad.is_next in
          let mem : Memᴰ row d'.rows = rw ad.after (Mem-snoc ad.before.rows row) in
          (
            stored ev.event_id a,
            fs',
            count_enqueued (record p { outbox = d' }),
            rw e refl,
            (
              refl,
              row,
              mem,
              record {
                id = refl;
                topic = refl;
                key = refl;
                payload = refl;
                call = refl;
                waits = refl;
              },
            ),
          )
      | inr (x, fs', e) ↦ (rejected ev.event_id x, fs', count_rejected p, rw e refl, refl)
    ]

enqueue-commits :
    (ev : Event) (wall : ℕ) (fs : Faults) (p : KafkaPipeline)
    → p.accept ≡ true
    → lacks_sequence p ev ≡ false
    → enqueue ev wall fs p ≡ commit_event ev wall fs p
unfolding enqueue
enqueue-commits ev wall fs p a l = ground (arith, a, l)

-- enqueue always returns. If it says that the event is stored, the outbox holds a pending row with
-- the id, topic, key, payload and call of the event; if not, the outbox is as before.
pub enqueue_lem :
    (ev : Event) (wall : ℕ) (fs : Faults) (p : KafkaPipeline)
    → (answer : Enqueued) × (fs' : Faults) × (p' : KafkaPipeline) × (enqueue ev wall fs p
        ≡ returned answer fs' p')
      × Answered p ev answer p'
unfolding enqueue return
enqueue_lem ev wall fs p = elim (Bool-cases p.accept) [
  | inr a ↦ (rejected "" "pipeline not accepting", fs, p, rw a refl, refl)
  | inl a ↦ elim (Bool-cases (lacks_sequence p ev)) [
    | inl l ↦ (
      rejected "" "contiguous per-call source sequence required (starts at zero)",
      fs,
      p,
      rw (a, l) refl,
      refl,
    )
    | inr l ↦
        let (answer, fs', p', e, h) = commit_event_lem ev wall fs p in
        (answer, fs', p', enqueue-commits ev wall fs p a l ∙ e, h)
  ]
]
