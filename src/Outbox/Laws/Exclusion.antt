-- ===== src/Outbox/Laws/Exclusion.antt =====
-- One event of a call at a time.
use mod_event_kafka.Common.{
  ◌≡◌, refl, sym, ap, ◌∙◌, false, List, [], ◌∷◌, arith, All, All-mono, Pairwise, is_empty,
  text_eq_iff, ==_self, some,
}
use mod_event_kafka.Common.Tables.Keys.{All-both}
use mod_event_kafka.Outbox.Schema.{in_flight, Row, CallStream, Store, find_stream}
use mod_event_kafka.Outbox.Admission.{same_slot}
use mod_event_kafka.Outbox.Invariant.{IsValid, RowOk, loose, in_call, DistinctSlot}
use mod_event_kafka.Outbox.History.{History, run}
use mod_event_kafka.Outbox.History.Validity.{AllInRange, run-IsValid}
use mod_event_kafka.Outbox.Queries.Due.{SameCall}

-- Two rows of one call, both in flight.
abbrev pub InFlightTogether : Row → Row → Type 0
InFlightTogether a b = SameCall a b × (a.state ≡ in_flight) × (b.state ≡ in_flight)

flying_at :
    (ss : List CallStream) (a : Row)
    → RowOk ss a
    → is_empty a.call_uuid ≡ false
    → a.state ≡ in_flight
    → (s : CallStream) × (find_stream a.topic a.call_uuid ss ≡ some s)
      × (a.call_seq ≡ some s.next_seq)
flying_at ss a (loose e q k) named w = cc
flying_at ss a (in_call s n at c) named w = (s, at, c.seq ∙ ap some (c.flying (rw w refl)))

apart :
    (ss : List CallStream) (a b : Row)
    → RowOk ss a
    → RowOk ss b
    → DistinctSlot a b
    → ¬ InFlightTogether a b
unfolding same_slot
apart ss a b ok_a ok_b distinct ((t, u, named), fa, fb) =
    let (s, at, seq) = flying_at ss a ok_a named fa in
    let (s', at', seq') = flying_at ss b ok_b (ap is_empty (sym u) ∙ named) fb in
    let there : find_stream a.topic a.call_uuid ss ≡ some s' = rw (t, u) at' in
    let one : s ≡ s' = cc in
    let same : b.call_seq ≡ a.call_seq = seq' ∙ ap (λ x. some x.next_seq) (sym one) ∙ sym seq in
    ground
      (arith, text_eq_iff a.topic b.topic, text_eq_iff a.call_uuid b.call_uuid, ==_self s.next_seq)

Pairwise-apart :
    (ss : List CallStream) (rows : List Row)
    → All (RowOk ss) rows
    → Pairwise DistinctSlot rows
    → Pairwise (λ a b. ¬ InFlightTogether a b) rows
Pairwise-apart ss [] h k = tt
Pairwise-apart ss (a ∷ rows) h k = (
  All-mono (λ b. RowOk ss b × DistinctSlot a b) _ rows (λ b p. apart ss a b h.0 p.0 p.1)
      (All-both _ _ rows h.1 k.0),
  Pairwise-apart ss rows h.1 k.1,
)

pub IsValid-apart : (d : Store) → IsValid d → Pairwise (λ a b. ¬ InFlightTogether a b) d.rows
IsValid-apart d v = Pairwise-apart d.streams d.rows v.rows_ok v.slots

-- After any history of calls with int64_t sequences, whatever the engine refuses during it, no two
-- rows of one call of a once well-formed outbox are in flight together.
pub one_in_flight :
    (h : History) (d : Store)
    → AllInRange h
    → IsValid d
    → Pairwise (λ a b. ¬ InFlightTogether a b) (run h d).rows
one_in_flight h d r v = IsValid-apart (run h d) (run-IsValid h d r v)
