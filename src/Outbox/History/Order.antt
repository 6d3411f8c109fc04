-- ===== src/Outbox/History/Order.antt =====
-- The acknowledged events of a call are its sequence numbers in order, with no gap.
use mod_event_kafka.Common.{
  ℕ, zero, suc, ◌+◌, max, String, ◌≡◌, refl, ap, ◌∙◌, inl, inr, Bool, true, false, Option, none,
  some, List, [], ◌∷◌, ◌++◌, map, arith, Bool-cases, Option-cases, &&_parts, length, All-Mem,
  select_where, first_where, update_where, first_where_sound, is_empty, text_eq_iff, text_eq_comm,
  ℤ,
}
use mod_event_kafka.Outbox.Schema.{
  in_flight, OutboxRecord, Row, CallStream, Store, state_eq, is_call, find_stream,
}
use mod_event_kafka.Common.Tables.Keys.{
  first_where-update_where, first_where-update_where-none, first_where-append,
  first_where-append_none,
}
use mod_event_kafka.Outbox.Admission.{new_stream, create_stream, raise_admit, reclaim_expired}
use mod_event_kafka.Outbox.Admission.Effects.{
  room, Opened, found, created, ordered, Assigned, loose, in_call, Admitted,
}
use mod_event_kafka.Outbox.Transitions.{
  has_id, is_in_flight, is_cursor, advance, promote, delete_row, claim_row, tick, serve, serve_call,
}
use mod_event_kafka.Outbox.Transitions.Effects.{acked}
use mod_event_kafka.Outbox.Invariant.{RowOk, IsValid}
use mod_event_kafka.Outbox.Invariant.Acks.{cursor_of_call, found_after, other_cursor, next_cursor}
use mod_event_kafka.Outbox.History.{
  after, History, run, acknowledged, acked_rows, in_call_of, cons_some,
}
use mod_event_kafka.Outbox.History.Effects.{
  Effect, idle, restated, claimed, settled, admitted, after-Effect,
}
use mod_event_kafka.Outbox.History.Validity.{AllInRange, after-IsValid}

abbrev pub next_of : Option CallStream → ℕ
next_of none = 0
next_of (some s) = s.next_seq

-- The sequence that the call may send next.
abbrev pub cursor : String → String → Store → ℕ
cursor t u d = next_of (find_stream t u d.streams)

-- What a step does to the cursor of a call, by the row that it acknowledges.
pub data Moves (t u : String) (c c' : ℕ) : Option Row → Type 0 where
  stays : c' ≡ c → Moves t u c c' none
  stays_other : (r : Row) → in_call_of t u r ≡ false → c' ≡ c → Moves t u c c' (some r)
  moves :
      (r : Row)
      → in_call_of t u r ≡ true
      → r.call_seq ≡ some c
      → c' ≡ c + 1
      → Moves t u c c' (some r)

module _ (t u : String) where
  -- An UPDATE of streams that keeps names and cursors.
  cursor-update :
      (q : CallStream → Bool) (f : CallStream → CallStream) (ss : List CallStream)
      → ((s : CallStream) → is_call t u (f s) ≡ is_call t u s)
      → ((s : CallStream) → (f s).next_seq ≡ s.next_seq)
      → next_of (find_stream t u (update_where q f ss)) ≡ next_of (find_stream t u ss)
  cursor-update q f ss named kept = elim (Option-cases (find_stream t u ss)) [
    | inl e ↦ rw (e, first_where-update_where-none (is_call t u) q f ss named e)
    | inr (s, e) ↦
        rw (e, first_where-update_where (is_call t u) q f ss s named e) (ground (arith, kept s))
  ]

  cursor-append :
      (rec : OutboxRecord) (ss : List CallStream)
      → next_of (find_stream t u (ss ++ new_stream rec ∷ [])) ≡ next_of (find_stream t u ss)
  cursor-append rec ss = elim (Option-cases (find_stream t u ss)) [
    | inl e ↦
        rw (e, first_where-append_none (is_call t u) ss (new_stream rec ∷ []) e) (ground arith)
    | inr (s, e) ↦ rw (e, first_where-append (is_call t u) ss (new_stream rec ∷ []) s e)
  ]

  cursor-serve : (id : String) (d : Store) → cursor t u (serve id d) ≡ cursor t u d
  unfolding serve
  cursor-serve id d = go (first_where (has_id id) d.rows)
    where
      go :
          (o : Option Row)
          → next_of (find_stream t u (serve_call d.turn o d.streams)) ≡ cursor t u d
      go none = refl
      go (some r) =
          cursor-update (is_call r.topic r.call_uuid) (λ s. record s { last_served_ms = d.turn })
            d.streams (λ s. refl) (λ s. refl)

  pub cursor-claim :
      (now : ℕ) (id : String) (d : Store)
      → cursor t u (serve id (tick (claim_row now id d))) ≡ cursor t u d
  unfolding tick claim_row
  cursor-claim now id d = cursor-serve id _

  cursor-Opened :
      (rec : OutboxRecord) (d d1 : Store) (s : CallStream)
      → Opened rec d s d1
      → cursor t u d1 ≡ cursor t u d
  unfolding create_stream
  cursor-Opened rec _ d1 _ (found s f key mode) = refl
  cursor-Opened rec d _ _ (created f small) = cursor-append rec d.streams

  cursor-Assigned :
      (rec : OutboxRecord) (d d1 : Store) (q : Option ℕ) (b : Bool)
      → Assigned rec d q b d1
      → cursor t u d1 ≡ cursor t u d
  unfolding raise_admit
  cursor-Assigned rec _ _ _ _ (loose e) = refl
  cursor-Assigned rec d _ _ _ (in_call {n} {b} {d'} e k (ordered s d1 o c next m same)) = rw same (
      cursor-update (is_call rec.topic rec.call_uuid)
        (λ x. record x { admit_seq = max x.admit_seq (n + 1) }) d1.streams (λ x. refl) (λ x. refl)
      ∙ cursor-Opened rec d d1 s o)

  pub cursor-Admitted :
      (rec : OutboxRecord) (wall : ℕ) (a : ℤ) (d d' : Store)
      → Admitted rec wall d a d'
      → cursor t u d' ≡ cursor t u d
  unfolding room reclaim_expired
  cursor-Admitted rec wall a d d' ad =
      rw ad.after
        (cursor-Assigned rec (room rec d) ad.before ad.seq ad.is_next ad.placed ∙ ground arith)

  acked_loose :
      (now : ℕ) (id : String) (r : Row) (d : Store)
      → is_empty r.call_uuid ≡ true
      → cursor t u (acked now id r d) ≡ cursor t u d
  unfolding acked delete_row
  acked_loose now id r d e = rw e

  acked_call :
      (now : ℕ) (id : String) (r : Row) (d : Store)
      → is_empty r.call_uuid ≡ false
      → cursor t u (acked now id r d) ≡ cursor t u (advance r d)
  unfolding acked delete_row promote
  acked_call now id r d e = rw e

  other_loose :
      (r : Row) → is_empty u ≡ false → is_empty r.call_uuid ≡ true → in_call_of t u r ≡ false
  other_loose r named e = ground (arith, text_eq_iff r.call_uuid u)

  cursor_other :
      (r : Row) (d : Store) → in_call_of t u r ≡ false → cursor t u (advance r d) ≡ cursor t u d
  unfolding advance
  cursor_other r d other = elim (Option-cases (find_stream t u d.streams)) [
    | inl e ↦ rw (
      e,
      first_where-update_where-none (is_call t u) (is_cursor r) next_cursor d.streams (λ s. refl) e,
    )
    | inr (s, e) ↦
        let apart : is_cursor r s ≡ false =
          other_cursor r t u d.streams s
            (rw (text_eq_comm t r.topic, text_eq_comm u r.call_uuid) other) e in
        let after =
          first_where-update_where (is_call t u) (is_cursor r) next_cursor d.streams s (λ y. refl)
            e in
        rw (e, after, apart)
  ]

  -- Only an acknowledgement of the call moves its cursor, from the acknowledged sequence to the next.
  pub cursor-acked :
      (now : ℕ) (id : String) (r : Row) (d : Store)
      → is_empty u ≡ false
      → first_where (is_in_flight id) d.rows ≡ some r
      → IsValid d
      → Moves t u (cursor t u d) (cursor t u (acked now id r d)) (some r)
  unfolding is_in_flight
  cursor-acked now id r d named h v =
      let (mine, hit) = first_where_sound (is_in_flight id) d.rows r h in
      go (All-Mem (RowOk d.streams) d.rows mine v.rows_ok) (&&_parts _ _ hit).1
    where
      go :
          RowOk d.streams r
          → state_eq r.state in_flight ≡ true
          → Moves t u (cursor t u d) (cursor t u (acked now id r d)) (some r)
      go (RowOk.loose e q k) flying =
          stays_other r (other_loose r named e) (acked_loose now id r d e)
      go (RowOk.in_call s n f c) flying = elim (Bool-cases (in_call_of t u r)) [
        | inl mine ↦
            let (a, b) = &&_parts _ _ mine in
            let here : find_stream t u d.streams ≡ some s =
              rw ((text_eq_iff r.topic t).0 a, (text_eq_iff r.call_uuid u).0 b) at f in
            let moved = found_after now id r s n d f c (c.flying flying) t u s here in
            let hit = cursor_of_call now id r s n d f c (c.flying flying) in
            moves r mine (rw (here, c.seq) (ap some (c.flying flying)))
              (rw (acked_call now id r d c.named, moved, hit, here))
        | inr other ↦ stays_other r other (acked_call now id r d c.named ∙ cursor_other r d other)
      ]

  Effect-Moves :
      (d d' : Store) (o : Option Row) (x : Option OutboxRecord)
      → is_empty u ≡ false
      → IsValid d
      → Effect d o x d'
      → Moves t u (cursor t u d) (cursor t u d') o
  Effect-Moves d _ _ _ named v idle = stays refl
  Effect-Moves d d' _ _ named v (restated p f k e) = stays (rw e)
  Effect-Moves d d' _ _ named v (claimed now id small e) = stays (rw e (cursor-claim now id d))
  Effect-Moves d d' _ _ named v (settled now id r h e) = rw e (cursor-acked now id r d named h v)
  Effect-Moves d d' _ _ named v (admitted rec wall a ad) =
      stays (cursor-Admitted rec wall a d d' ad)

-- k sequence numbers from n on.
abbrev pub numbers : ℕ → ℕ → List (Option ℕ)
numbers n zero = []
numbers n (suc k) = some n ∷ numbers (n + 1) k

-- The rows of a call that a history acknowledges.
abbrev pub acked_of : String → String → History → Store → List Row
acked_of t u h d = select_where (in_call_of t u) (acked_rows h d)

abbrev seqs : List Row → List (Option ℕ)
seqs rows = map (λ r. r.call_seq) rows

abbrev InOrder : String → String → ℕ → ℕ → List Row → Type 0
InOrder t u c c' rows =
    (seqs (select_where (in_call_of t u) rows)
      ≡ numbers c (length (select_where (in_call_of t u) rows)))
    × (c' ≡ c + length (select_where (in_call_of t u) rows))

InOrder-cons :
    (t u : String) (c c1 c' : ℕ) (o : Option Row) (rows : List Row)
    → Moves t u c c1 o
    → InOrder t u c1 c' rows
    → InOrder t u c c' (cons_some o rows)
InOrder-cons t u c c1 c' _ rows (stays e) h = rw (← e) h
InOrder-cons t u c c1 c' _ rows (stays_other r other e) h = rw (other, ← e) h
InOrder-cons t u c c1 c' _ rows (moves r mine at e) h =
    rw (mine, at) (rw (h.0, e), rw (h.1, e) (omega arith))

-- Under any history with int64_t sequences and any faults, on a well-formed outbox, the acknowledged
-- events of a call carry the sequence numbers that follow its cursor, one by one and in order, and
-- the cursor ends behind the last of them.
pub acked_of-in_order :
    (t u : String) (h : History) (d : Store)
    → is_empty u ≡ false
    → AllInRange h
    → IsValid d
    → (map (λ r. r.call_seq) (acked_of t u h d)
        ≡ numbers (cursor t u d) (length (acked_of t u h d)))
      × (cursor t u (run h d) ≡ cursor t u d + length (acked_of t u h d))
unfolding acked_rows run
acked_of-in_order t u [] d named fits v = (refl, omega arith)
acked_of-in_order t u (c ∷ h) d named fits v =
    InOrder-cons t u _ _ _ (acknowledged c.0 c.1 d) _
      (Effect-Moves t u d _ _ _ named v (after-Effect c.0 c.1 d))
      (acked_of-in_order t u h (after c.0 c.1 d) named fits.1 (after-IsValid c.0 c.1 d fits.0 v))
