-- ===== src/Outbox/Fifo/Admitting.antt =====
-- An admission puts its event at the end of its call's queue, and changes no other queue.
use mod_event_kafka.Common.{
  ℕ, zero, suc, ◌+◌, ◌-◌, String, ◌≡◌, refl, sym, ap, ◌∙◌, inl, inr, Bool, true, false, Option,
  none, some, [], ◌∷◌, ◌++◌, map, arith, if◌then◌else◌, Bool-cases, &&_parts, if_cases, All-mono,
  select_where, delete_where, text_eq, is_empty, text_eq_iff, ℤ, pos, negsuc,
}
use mod_event_kafka.Outbox.Schema.{OutboxRecord, Row, CallStream, Store, find_stream}
use mod_event_kafka.Common.Tables.Select.{
  select_where-delete_where, delete_where_none, select_where-append, All-selected,
}
use mathlib.Core.List.{append-nil, map-append}
use mod_event_kafka.Outbox.Admission.{over_capacity, is_reclaimable, reclaim_expired, new_row}
use mod_event_kafka.Outbox.Admission.Effects.{
  Assigned-rows, room, Chosen, ordered, Assigned, loose, in_call, Admitted,
}
use mod_event_kafka.Outbox.Invariant.Admissions.{Opened-found}
use mod_event_kafka.Outbox.History.{in_call_of, record_of}
use mod_event_kafka.Outbox.History.Order.{cursor, numbers, cursor-Admitted}
use mod_event_kafka.Outbox.History.Streams.{admit_count, admit-Opened, admit_other, admit_own}
use mod_event_kafka.Outbox.Fifo.Settling.{numbers_eq}
use mod_event_kafka.Outbox.Fifo.{rows_of, waiting_seqs, Contiguous, Flows}

-- The record asks for the next admission sequence.
abbrev pub AsksAdmission : ℤ → Type 0
AsksAdmission (negsuc n) = Unit
AsksAdmission (pos n) = ⊥

numbers-snoc : (c k : ℕ) → numbers c k ++ some (c + k) ∷ [] ≡ numbers c (k + 1)
numbers-snoc c zero = let e : c + 0 ≡ c = omega arith in rw e
numbers-snoc c (suc k) =
    let e : suc k + 1 ≡ suc (k + 1) = omega arith in
    let f : c + suc k ≡ c + 1 + k = omega arith in
    rw (e, f) (ap (◌∷◌ (some c)) (numbers-snoc (c + 1) k))

Chosen-admit : (z : ℤ) (s : CallStream) (n : ℕ) → AsksAdmission z → Chosen z s n → n ≡ s.admit_seq
Chosen-admit (negsuc k) s n a c = c
Chosen-admit (pos k) s n a c = absurd a

same_empty : (s t : String) → text_eq s t ≡ true → is_empty s ≡ is_empty t
same_empty s t h = ap is_empty ((text_eq_iff s t).0 h)

module _ (t u : String) (nonempty : is_empty u ≡ false) where
  -- The reclaimed rows are of no call.
  rows_of-room : (rec : OutboxRecord) (d : Store) → rows_of t u (room rec d) ≡ rows_of t u d
  unfolding room reclaim_expired
  rows_of-room rec d =
      let kept : delete_where is_reclaimable (rows_of t u d) ≡ rows_of t u d =
        delete_where_none is_reclaimable _ (
          All-mono (λ x. in_call_of t u x ≡ true) _ _
            (λ x h. ground (arith, text_eq_iff x.call_uuid u))
            (All-selected (in_call_of t u) d.rows)) in
      if_cases {A = Store} (λ x. rows_of t u x ≡ rows_of t u d) (over_capacity rec d)
        (λ _. select_where-delete_where (in_call_of t u) is_reclaimable d.rows ∙ kept) (λ _. refl)

  room-streams : (rec : OutboxRecord) (d : Store) → (room rec d).streams ≡ d.streams
  unfolding room reclaim_expired
  room-streams rec d = ground arith

  -- An admission elsewhere does not count for the call.
  Assigned-other :
      (rec : OutboxRecord) (d : Store) (q : Option ℕ) (b : Bool) (d1 : Store)
      → record_of t u rec ≡ false
      → Assigned rec d q b d1
      → admit_count t u d1.streams ≡ admit_count t u d.streams
  Assigned-other rec d _ _ _ other (loose e) = refl
  Assigned-other rec d _ _ _ other (in_call {n} {b} {d'} e k (ordered s d1 o c next m same)) =
      rw same (admit_other t u rec n d1 other ∙ admit-Opened t u rec d d1 s o)

  -- An admission to the call takes its count as the sequence and raises it by one.
  Assigned-own :
      (rec : OutboxRecord) (d : Store) (q : Option ℕ) (b : Bool) (d1 : Store)
      → record_of t u rec ≡ true
      → AsksAdmission rec.call_seq
      → Assigned rec d q b d1
      → (q ≡ some (admit_count t u d.streams))
        × (admit_count t u d1.streams ≡ admit_count t u d.streams + 1)
  Assigned-own rec d _ _ _ own asks (loose e) =
      let e2 : is_empty rec.call_uuid ≡ is_empty u =
        same_empty rec.call_uuid u (&&_parts _ _ own).1 in
      absurd (cc (sym e ∙ e2 ∙ nonempty))
  Assigned-own rec d _ _ _ own asks (in_call {n} {b} {d'} e k (ordered s d1 o c next m same)) =
      let (x, y) = &&_parts _ _ own in
      let topic : rec.topic ≡ t = (text_eq_iff rec.topic t).0 x in
      let call : rec.call_uuid ≡ u = (text_eq_iff rec.call_uuid u).0 y in
      let here : find_stream t u d1.streams ≡ some s =
        rw (topic, call) at (Opened-found rec d s d1 o) in
      let was : s.admit_seq ≡ admit_count t u d.streams =
        rw here at (admit-Opened t u rec d d1 s o) in
      let taken_seq : n ≡ s.admit_seq = Chosen-admit rec.call_seq s n asks c in
      let raised = admit_own t u rec n d1 s topic call here in
      (ap some (taken_seq ∙ was), rw same (omega (arith, raised, taken_seq, was)))

  pub Admitted-Flows :
      (rec : OutboxRecord) (wall : ℕ) (a : ℤ) (d d' : Store)
      → (record_of t u rec ≡ true → AsksAdmission rec.call_seq)
      → Contiguous t u d
      → Admitted rec wall d a d'
      → Contiguous t u d' × Flows t u none (some rec) d d'
  Admitted-Flows rec wall a d d' asks q ad = elim (Bool-cases (record_of t u rec)) [
    | inl own ↦
        let (at, more) =
          Assigned-own rec (room rec d) ad.seq ad.is_next ad.before own (asks own) ad.placed in
        let grown : rows_of t u d' ≡ rows_of t u d ++ new ∷ [] = rw own at rows in
        let number : ad.seq ≡ some (cursor t u d + (admit_count t u d.streams - cursor t u d)) =
          at ∙ ap some (omega (arith, roomed, q.ordered)) in
        let count : admit_count t u d'.streams ≡ admit_count t u d.streams + 1 =
          omega (arith, stored, more, roomed) in
        let longer : waiting_seqs t u d ++ ad.seq ∷ []
            ≡ numbers (cursor t u d) (admit_count t u d.streams - cursor t u d + 1) =
          rw (q.waits, number)
            (numbers-snoc (cursor t u d) (admit_count t u d.streams - cursor t u d)) in
        (
          record {
            ordered = omega (arith, moved, count, q.ordered);
            waits =
                ap (map (λ r. r.call_seq)) grown
                ∙ map-append (λ r. r.call_seq) (rows_of t u d) (new ∷ [])
                ∙ longer
                ∙ numbers_eq _ _ _ _ (sym moved) (omega (arith, moved, count, q.ordered));
          },
          rw own (
              ap (map (λ r. r.event_id)) grown
              ∙ map-append (λ r. r.event_id) (rows_of t u d) (new ∷ [])),
        )
    | inr other ↦
        let kept : rows_of t u d' ≡ rows_of t u d = (rw other at rows) ∙ append-nil _ in
        let count : admit_count t u d'.streams ≡ admit_count t u d.streams =
          stored
          ∙ Assigned-other rec (room rec d) ad.seq ad.is_next ad.before other ad.placed
          ∙ roomed in
        (
          record {
            ordered = omega (arith, moved, count, q.ordered);
            waits =
                ap (map (λ r. r.call_seq)) kept
                ∙ q.waits
                ∙ numbers_eq _ _ _ _ (sym moved) (omega (arith, moved, count));
          },
          rw other (ap (map (λ r. r.event_id)) kept ∙ sym (append-nil _)),
        )
  ]
    where
      new : Row
      new = new_row rec wall ad.seq ad.is_next

      rows : rows_of t u d' ≡ rows_of t u d ++ (if record_of t u rec then new ∷ [] else [])
      rows =
          ap (λ x. rows_of t u x) ad.after
          ∙ select_where-append (in_call_of t u) ad.before.rows (new ∷ [])
          ∙ ap
              (λ l. select_where (in_call_of t u) l ++ (if record_of t u rec then new ∷ [] else []))
              (Assigned-rows rec (room rec d) ad.seq ad.is_next ad.before ad.placed)
          ∙ ap (λ l. l ++ (if record_of t u rec then new ∷ [] else [])) (rows_of-room rec d)

      moved : cursor t u d' ≡ cursor t u d
      moved = cursor-Admitted t u rec wall a d d' ad

      stored : admit_count t u d'.streams ≡ admit_count t u ad.before.streams
      stored = ap (λ x. admit_count t u x.streams) ad.after

      roomed : admit_count t u (room rec d).streams ≡ admit_count t u d.streams
      roomed = ap (admit_count t u) (room-streams rec d)
