-- ===== src/Outbox/History/Streams.antt =====
-- The admission count of a call under each effect: it rises with the call's own admissions only.
use mod_event_kafka.Common.{
  ℕ, ◌+◌, max, String, ◌≡◌, refl, inl, inr, Bool, true, false, ◌&&◌, Option, none, some, List, [],
  ◌∷◌, ◌++◌, arith, ltb, if◌then◌else◌, Option-cases, first_where, update_where, text_eq,
  text_eq_self, text_eq_comm,
}
use mod_event_kafka.Outbox.Schema.{
  OutboxRecord, Row, CallStream, Store, int64_max, is_call, find_stream,
}
use mod_event_kafka.Common.Tables.Keys.{
  first_where-update_where, first_where-update_where-none, first_where-append,
  first_where-append_none,
}
use mod_event_kafka.Outbox.Admission.{new_stream, create_stream, raise_admit}
use mod_event_kafka.Outbox.Admission.Effects.{Opened, found, created}
use mod_event_kafka.Outbox.Transitions.{
  has_id, is_cursor, advance, claim_row, tick, serve, serve_call,
}
use mod_event_kafka.Outbox.Invariant.Acks.{next_cursor}
use mod_event_kafka.Outbox.Invariant.Rows.{find_stream-named}

abbrev pub admit_of : Option CallStream → ℕ
admit_of none = 0
admit_of (some s) = s.admit_seq

-- The number of records that the call has admitted.
abbrev pub admit_count : String → String → List CallStream → ℕ
admit_count t u ss = admit_of (find_stream t u ss)

module _ (t u : String) where
  admit-update :
      (q : CallStream → Bool) (f : CallStream → CallStream) (ss : List CallStream)
      → ((s : CallStream) → is_call t u (f s) ≡ is_call t u s)
      → ((s : CallStream) → (f s).admit_seq ≡ s.admit_seq)
      → admit_count t u (update_where q f ss) ≡ admit_count t u ss
  admit-update q f ss named kept = elim (Option-cases (find_stream t u ss)) [
    | inl e ↦ rw (e, first_where-update_where-none (is_call t u) q f ss named e)
    | inr (s, e) ↦
        rw (e, first_where-update_where (is_call t u) q f ss s named e) (ground (arith, kept s))
  ]

  admit-append :
      (rec : OutboxRecord) (ss : List CallStream)
      → admit_count t u (ss ++ new_stream rec ∷ []) ≡ admit_count t u ss
  admit-append rec ss = elim (Option-cases (find_stream t u ss)) [
    | inl e ↦
        rw (e, first_where-append_none (is_call t u) ss (new_stream rec ∷ []) e) (ground arith)
    | inr (s, e) ↦ rw (e, first_where-append (is_call t u) ss (new_stream rec ∷ []) s e)
  ]

  pub admit-advance :
      (r : Row) (d : Store) → admit_count t u (advance r d).streams ≡ admit_count t u d.streams
  unfolding advance
  admit-advance r d = admit-update (is_cursor r) next_cursor d.streams (λ s. refl) (λ s. refl)

  pub admit-claim :
      (now : ℕ) (id : String) (d : Store)
      → admit_count t u (serve id (tick (claim_row now id d))).streams ≡ admit_count t u d.streams
  unfolding serve tick claim_row
  admit-claim now id d = go (first_where (has_id id) _)
    where
      go :
          (o : Option Row)
          → admit_count t u
              (serve_call (if ltb d.turn int64_max then d.turn + 1 else d.turn) o d.streams)
            ≡ admit_count t u d.streams
      go none = refl
      go (some r) = admit-update (is_call r.topic r.call_uuid) _ d.streams (λ s. refl) (λ s. refl)

  pub admit-Opened :
      (rec : OutboxRecord) (d d1 : Store) (s : CallStream)
      → Opened rec d s d1
      → admit_count t u d1.streams ≡ admit_count t u d.streams
  unfolding create_stream
  admit-Opened rec _ d1 _ (found s f key mode) = refl
  admit-Opened rec d _ _ (created f small) = admit-append rec d.streams

  -- An admission to another call.
  pub admit_other :
      (rec : OutboxRecord) (n : ℕ) (d : Store)
      → text_eq rec.topic t && text_eq rec.call_uuid u ≡ false
      → admit_count t u (raise_admit rec n d).streams ≡ admit_count t u d.streams
  unfolding raise_admit
  admit_other rec n d other = elim (Option-cases (find_stream t u d.streams)) [
    | inl e ↦ rw (
      e,
      first_where-update_where-none (is_call t u) (is_call rec.topic rec.call_uuid)
          (λ x. record x { admit_seq = max x.admit_seq (n + 1) }) d.streams (λ s. refl) e,
    )
    | inr (s, e) ↦
        let (a, b) = find_stream-named t u d.streams s e in
        let apart : is_call rec.topic rec.call_uuid s ≡ false =
          rw (a, b, text_eq_comm t rec.topic, text_eq_comm u rec.call_uuid) other in
        let after =
          first_where-update_where (is_call t u) (is_call rec.topic rec.call_uuid)
            (λ x. record x { admit_seq = max x.admit_seq (n + 1) }) d.streams s (λ y. refl) e in
        rw (e, after, apart)
  ]

  -- An admission to the call itself.
  pub admit_own :
      (rec : OutboxRecord) (n : ℕ) (d : Store) (s : CallStream)
      → rec.topic ≡ t
      → rec.call_uuid ≡ u
      → find_stream t u d.streams ≡ some s
      → admit_count t u (raise_admit rec n d).streams ≡ max s.admit_seq (n + 1)
  unfolding raise_admit
  admit_own rec n d s a b e =
      let (x, y) = find_stream-named t u d.streams s e in
      let hit : is_call rec.topic rec.call_uuid s ≡ true =
        rw (x, y, a, b, text_eq_self t, text_eq_self u) in
      let after =
        first_where-update_where (is_call t u) (is_call rec.topic rec.call_uuid)
          (λ x. record x { admit_seq = max x.admit_seq (n + 1) }) d.streams s (λ y. refl) e in
      rw (after, hit)
