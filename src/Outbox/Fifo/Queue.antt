-- ===== src/Outbox/Fifo/Queue.antt =====
-- Over a whole history: what a call's consumers see first is what its producers put in first.
use mod_event_kafka.Common.{
  append_steps, ℕ, String, ◌≡◌, refl, sym, true, false, Option, none, some, List, [], ◌∷◌, ◌++◌,
  map, arith, All, select_where, is_empty,
}
use mod_event_kafka.Outbox.Schema.{OutboxRecord, Row, Store}
use mod_event_kafka.Outbox.Engine.{Faults, Outcome, done, thrown}
use mathlib.Core.List.{append-nil}
use mod_event_kafka.Outbox.Invariant.{IsValid}
use mod_event_kafka.Outbox.History.{
  Call, inserts, after, History, run, acknowledged, accepted, acked_rows, accepted_records,
  in_call_of, record_of, cons_some, empty_store, when_done,
}
use mod_event_kafka.Outbox.Admission.{insert_pending}
use mod_event_kafka.Outbox.History.Effects.{
  Effect, idle, restated, claimed, settled, admitted, after-Effect,
}
use mod_event_kafka.Outbox.History.Validity.{AllInRange, after-IsValid}
use mod_event_kafka.Outbox.Fifo.{waiting, Contiguous, taken, added, Flows}
use mod_event_kafka.Outbox.Fifo.Settling.{restated-Flows, claimed-Flows, settled-Flows}
use mod_event_kafka.Outbox.Fifo.Admitting.{AsksAdmission, Admitted-Flows}

-- The records of a call that a history hands in all ask for an admission sequence.
abbrev pub Admits : String → String → Call → Type 0
Admits t u (inserts rec wall) = record_of t u rec ≡ true → AsksAdmission rec.call_seq
Admits t u _ = Unit

abbrev AdmitsSome : String → String → Option OutboxRecord → Type 0
AdmitsSome t u none = Unit
AdmitsSome t u (some rec) = record_of t u rec ≡ true → AsksAdmission rec.call_seq

module _ (t u : String) (nonempty : is_empty u ≡ false) where
  Effect-Flows :
      (d d' : Store) (o : Option Row) (x : Option OutboxRecord)
      → IsValid d
      → AdmitsSome t u x
      → Contiguous t u d
      → Effect d o x d'
      → Contiguous t u d' × Flows t u o x d d'
  Effect-Flows d _ _ _ v a q idle = (q, sym (append-nil (waiting t u d)))
  Effect-Flows d d' _ _ v a q (restated p f k e) = rw e (restated-Flows t u d p f k q)
  Effect-Flows d d' _ _ v a q (claimed now id small e) = rw e (claimed-Flows t u now id d q)
  Effect-Flows d d' _ _ v a q (settled now id r h e) =
      rw e (settled-Flows t u now id r d nonempty h v q)
  Effect-Flows d d' _ _ v a q (admitted rec wall n ad) =
      Admitted-Flows t u nonempty rec wall n d d' a q ad

when_done_admits {ℓ} :
    {A : Type ℓ} (t u : String) (o : Outcome A) (rec : OutboxRecord)
    → (record_of t u rec ≡ true → AsksAdmission rec.call_seq)
    → AdmitsSome t u (when_done o (some rec))
when_done_admits t u (done a fs d) rec h = h
when_done_admits t u (thrown e fs d) rec h = tt

accepted-Admits :
    (t u : String) (c : Call) (fs : Faults) (d : Store)
    → Admits t u c
    → AdmitsSome t u (accepted c fs d)
unfolding accepted
accepted-Admits t u (inserts rec wall) fs d h =
    when_done_admits t u (insert_pending rec wall fs d) rec h
accepted-Admits t u _ fs d h = tt

-- One call of the outbox moves the queue of each call by what it acknowledges and accepts.
pub after-Flows :
    (t u : String)
    → is_empty u ≡ false
    → (c : Call) (fs : Faults) (d : Store) → IsValid d
    → Admits t u c
    → Contiguous t u d
    → Contiguous t u (after c fs d)
      × Flows t u (acknowledged c fs d) (accepted c fs d) d (after c fs d)
after-Flows t u nonempty c fs d v a q =
    Effect-Flows t u nonempty d (after c fs d) (acknowledged c fs d) (accepted c fs d) v
      (accepted-Admits t u c fs d a) q (after-Effect c fs d)

-- The events of a call among the rows acknowledged, and among the records accepted.
abbrev pub acked_ids : String → String → List Row → List String
acked_ids t u rows = map (λ r. r.event_id) (select_where (in_call_of t u) rows)

abbrev pub accepted_ids : String → String → List OutboxRecord → List String
accepted_ids t u recs = map (λ r. r.event_id) (select_where (record_of t u) recs)

acked_ids-cons_some :
    (t u : String) (o : Option Row) (rows : List Row)
    → acked_ids t u (cons_some o rows) ≡ taken t u o ++ acked_ids t u rows
acked_ids-cons_some t u none rows = refl
acked_ids-cons_some t u (some r) rows = ground arith

accepted_ids-cons_some :
    (t u : String) (x : Option OutboxRecord) (recs : List OutboxRecord)
    → accepted_ids t u (cons_some x recs) ≡ added t u x ++ accepted_ids t u recs
accepted_ids-cons_some t u none recs = refl
accepted_ids-cons_some t u (some r) recs = ground arith

-- Under any history with int64_t sequences and any faults, on a well-formed outbox where the waiting
-- rows of a call carry every sequence from its cursor to its last admission: if every record of the
-- call asks for an admission sequence, the call's acknowledged events followed by those that still
-- wait are the events that waited at the start followed by those accepted since, in the same order.
-- So none is lost, doubled or overtaken.
pub acked-accepted_in_order :
    (t u : String) (h : History) (d : Store)
    → is_empty u ≡ false
    → AllInRange h
    → All (λ c. Admits t u c.0) h
    → IsValid d
    → Contiguous t u d
    → acked_ids t u (acked_rows h d) ++ waiting t u (run h d)
      ≡ waiting t u d ++ accepted_ids t u (accepted_records h d)
unfolding acked_rows accepted_records run
acked-accepted_in_order t u [] d nonempty fits asks v q = sym (append-nil (waiting t u d))
acked-accepted_in_order t u (c ∷ h) d nonempty fits asks v q =
    let (q1, flow) = after-Flows t u nonempty c.0 c.1 d v asks.0 q in
    let rest =
      acked-accepted_in_order t u h (after c.0 c.1 d) nonempty fits.1 asks.1
        (after-IsValid c.0 c.1 d fits.0 v) q1 in
    rw
      (
        acked_ids-cons_some t u (acknowledged c.0 c.1 d),
        accepted_ids-cons_some t u (accepted c.0 c.1 d),
      )
      (append_steps (taken t u (acknowledged c.0 c.1 d)) (waiting t u d) _
        (added t u (accepted c.0 c.1 d)) _ _ _ flow rest)

pub empty-Contiguous : (t u : String) (rows bytes : ℕ) → Contiguous t u (empty_store rows bytes)
empty-Contiguous t u rows bytes = record { ordered = omega arith; waits = refl }
