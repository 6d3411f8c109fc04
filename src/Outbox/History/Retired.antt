-- ===== src/Outbox/History/Retired.antt =====
-- A retired call never gets a cursor again.
use mod_event_kafka.Common.{
  ℕ, ◌+◌, String, ◌≡◌, refl, ◌∙◌, ◌⊎◌, inl, inr, Bool, true, false, Option, none, some, List, [],
  ◌∷◌, ◌++◌, arith, ltb, if◌then◌else◌, if_cases, first_where, update_where, text_eq_comm, is_empty,
  All, All-mono, All-Mem, All-members, ℤ,
}
use mod_event_kafka.Common.Tables.Keys.{any_where-false, All-both}
use mod_event_kafka.Outbox.Schema.{
  OutboxRecord, Row, CallStream, RetiredCall, Store, int64_max, is_call, is_ungrouped,
}
use mod_event_kafka.Outbox.Engine.{Faults}
use mod_event_kafka.Outbox.Admission.{
  new_stream, create_stream, raise_admit, is_retired, reclaim_expired, over_capacity,
}
use mod_event_kafka.Outbox.Admission.Effects.{
  room, Opened, found, created, ordered, Assigned, loose, in_call, Admitted,
}
use mod_event_kafka.Outbox.Transitions.{
  has_id, is_cursor, advance, promote, delete_row, claim_row, tick, serve, serve_call,
}
use mod_event_kafka.Outbox.Transitions.Effects.{acked}
use mod_event_kafka.Outbox.Opening.{is_active}
use mod_event_kafka.Outbox.Invariant.Acks.{next_cursor}
use mod_event_kafka.Outbox.History.{Call, after, History, run}
use mod_event_kafka.Outbox.History.Fixed.{room-fixed, Assigned-fixed, acked-fixed}
use mod_event_kafka.Outbox.History.Effects.{
  Effect, idle, restated, claimed, settled, admitted, after-Effect,
}

abbrev retired_calls : Store → List RetiredCall
retired_calls d = d.retired

-- No retired call has a cursor.
abbrev pub Unretired : Store → Type 0
Unretired d = All (λ c. is_active d.streams c ≡ false) d.retired

module _ (c : RetiredCall) where
  -- An UPDATE of streams that keeps their names.
  active-update :
      (q : CallStream → Bool) (f : CallStream → CallStream) (ss : List CallStream)
      → ((s : CallStream) → (f s).topic ≡ s.topic)
      → ((s : CallStream) → (f s).call_uuid ≡ s.call_uuid)
      → is_active (update_where q f ss) c ≡ is_active ss c
  active-update q f [] named called = refl
  active-update q f (x ∷ ss) named called =
      ground (arith, named x, called x, active-update q f ss named called)

  active-append :
      (ss : List CallStream) (x : CallStream)
      → is_call c.topic c.call_uuid x ≡ false
      → is_active ss c ≡ false
      → is_active (ss ++ x ∷ []) c ≡ false
  active-append [] x other h = rw other refl
  active-append (y ∷ ss) x other h = ground (arith, active-append ss x other)

  serve-active :
      (now : ℕ) (id : String) (d : Store)
      → is_active (serve id (tick (claim_row now id d))).streams c ≡ is_active d.streams c
  unfolding serve tick claim_row
  serve-active now id d = go (first_where (has_id id) _)
    where
      go :
          (o : Option Row)
          → is_active
              (serve_call (if ltb d.turn int64_max then d.turn + 1 else d.turn) o d.streams)
              c
            ≡ is_active d.streams c
      go none = refl
      go (some r) = active-update (is_call r.topic r.call_uuid) _ d.streams (λ s. refl) (λ s. refl)

  acked-active :
      (now : ℕ) (id : String) (r : Row) (d : Store)
      → is_active (acked now id r d).streams c ≡ is_active d.streams c
  unfolding acked delete_row promote advance
  acked-active now id r d =
      if_cases {A = Store} (λ x. is_active x.streams c ≡ is_active d.streams c) (is_ungrouped r)
        (λ _. refl) (λ _. active-update (is_cursor r) next_cursor d.streams (λ s. refl) (λ s. refl))

  raise-active :
      (rec : OutboxRecord) (n : ℕ) (d : Store)
      → is_active (raise_admit rec n d).streams c ≡ is_active d.streams c
  unfolding raise_admit
  raise-active rec n d =
      active-update (is_call rec.topic rec.call_uuid) _ d.streams (λ s. refl) (λ s. refl)

  -- A call that is not this one.
  abbrev Other : OutboxRecord → Type 0
  Other rec = is_call c.topic c.call_uuid (new_stream rec) ≡ false

  Opened-active :
      (rec : OutboxRecord) (d d1 : Store) (s : CallStream)
      → Opened rec d s d1
      → Other rec
      → is_active d.streams c ≡ false
      → is_active d1.streams c ≡ false
  unfolding create_stream
  Opened-active rec d _ s (found _ e key mode) other h = h
  Opened-active rec d _ _ (created e small) other h =
      active-append d.streams (new_stream rec) other h

  Assigned-active :
      (rec : OutboxRecord) (d : Store) (q : Option ℕ) (b : Bool) (d1 : Store)
      → Assigned rec d q b d1
      → (is_empty rec.call_uuid ≡ false → Other rec)
      → is_active d.streams c ≡ false
      → is_active d1.streams c ≡ false
  Assigned-active rec d _ _ _ (loose e) other h = h
  Assigned-active rec d _ _ _ (in_call e k (ordered s d1 o chosen next small same)) other h =
      rw (same, raise-active rec _ d1) (Opened-active rec d d1 s o (other e) h)

-- Making room touches rows only.
room-streams : (rec : OutboxRecord) (d : Store) → (room rec d).streams ≡ d.streams
unfolding room reclaim_expired
room-streams rec d =
    if_cases {A = Store} (λ x. x.streams ≡ d.streams) (over_capacity rec d) (λ _. refl) (λ _. refl)

-- A record that is let in is of no retired call.
others :
    (rec : OutboxRecord) (d : Store)
    → (is_empty rec.call_uuid ≡ true) ⊎ (is_retired rec d ≡ false)
    → is_empty rec.call_uuid ≡ false
    → All (λ c. Other c rec) d.retired
unfolding is_retired
others rec d (inl e) named = cc
others rec d (inr e) named =
    All-mono _ _ d.retired
      (λ c h. rw (text_eq_comm rec.topic c.topic, text_eq_comm rec.call_uuid c.call_uuid) h)
      (any_where-false _ d.retired e)

Admitted-Unretired :
    (rec : OutboxRecord) (wall : ℕ) (a : ℤ) (d d' : Store)
    → Admitted rec wall d a d'
    → Unretired d
    → Unretired d'
Admitted-Unretired rec wall a d d' ad h =
    rw
      (
        ad.after,
        Assigned-fixed retired_calls (λ x rows ss n. refl) rec (room rec d) _ _ _ ad.placed,
        room-fixed retired_calls (λ x rows ss n. refl) rec d,
      )
      (All-mono _ _ d.retired
        (λ c k.
          Assigned-active c rec (room rec d) _ _ _ ad.placed
            (λ named. All-Mem (λ x. Other x rec) d.retired k.0 (others rec d ad.active named))
            (rw (room-streams rec d) k.1))
        (All-both _ _ d.retired (All-members d.retired) h))

Effect-Unretired :
    {d d' : Store} {o : Option Row} {x : Option OutboxRecord}
    → Effect d o x d'
    → Unretired d
    → Unretired d'
unfolding claim_row tick serve
Effect-Unretired idle h = h
Effect-Unretired (restated p f k e) h = rw e h
Effect-Unretired {d} (claimed now id small e) h =
    rw e (All-mono _ _ d.retired (λ c k. serve-active c now id d ∙ k) h)
Effect-Unretired {d} (settled now id r hit e) h =
    rw (e, acked-fixed retired_calls (λ x rows ss n. refl) now id r d)
      (All-mono _ _ d.retired (λ c k. acked-active c now id r d ∙ k) h)
Effect-Unretired (admitted rec wall a ad) h = Admitted-Unretired rec wall a _ _ ad h

-- Any call, under any faults: if no retired call has a cursor before, none has one afterwards.
pub after-Unretired : (c : Call) (fs : Faults) (d : Store) → Unretired d → Unretired (after c fs d)
after-Unretired c fs d h = Effect-Unretired (after-Effect c fs d) h

-- Any history of calls, under any statement failures, that starts where no retired call has a cursor
-- ends so: a call that has been retired is never opened again, whatever events it is offered.
pub run-Unretired : (h : History) (d : Store) → Unretired d → Unretired (run h d)
unfolding run
run-Unretired [] d none_held = none_held
run-Unretired (c ∷ h) d none_held =
    run-Unretired h (after c.0 c.1 d) (after-Unretired c.0 c.1 d none_held)
