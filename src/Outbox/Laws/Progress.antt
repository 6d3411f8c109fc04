-- ===== src/Outbox/Laws/Progress.antt =====
-- Claims and acknowledgements that must succeed: no fault, and the preconditions of the source hold.
use mod_event_kafka.Common.{
  ℕ, ◌<◌, ◌≡◌, refl, ◌⊎◌, inl, inr, Bool, true, ◌&&◌, some, List, [], ◌∷◌, arith, Memᴰ, here, there,
  All-mono, All-Mem, first_where, update_where, count_where, first_where_sound, text_eq_iff,
  text_eq_self,
}
use mod_event_kafka.Outbox.Schema.{
  pending, in_flight, Row, CallStream, Store, int64_max, state_eq, is_ungrouped, is_call, is_head,
}
use mod_event_kafka.Outbox.Engine.{done, ◌>>◌}
use mod_event_kafka.Common.Tables.Keys.{count_where-le-one, count_where-Mem, first_where-only}
use mod_event_kafka.Outbox.Transitions.{
  has_id, claim_body, mark_in_flight, is_in_flight, mark_acked, is_claimable, claim, claim_row,
  tick, serve, is_cursor,
}
use mod_event_kafka.Outbox.Invariant.{IsValid, DistinctId, RowOk, loose, in_call, DistinctCall}
use mod_event_kafka.Outbox.Transitions.Effects.{acked}
use mod_event_kafka.Outbox.Invariant.Claims.{mark_in_flight-IsValid}
use mod_event_kafka.Outbox.Invariant.Acks.{cursor_of_call}

module _ (b : Row → Bool) (d : Store) (v : IsValid d) (r : Row) (m : Memᴰ r d.rows)
    (e : b r ≡ true) where
  here_only :
      (x y : Row)
      → has_id r.event_id x && b x ≡ true
      → has_id r.event_id y && b y ≡ true
      → DistinctId x y
      → ⊥
  here_only x y e k n = ground (
    arith,
    text_eq_iff x.event_id r.event_id,
    text_eq_iff y.event_id r.event_id,
    text_eq_self r.event_id,
  )

  meets : has_id r.event_id r && b r ≡ true
  meets = rw (text_eq_self r.event_id, e) refl

  pub only_row : count_where (λ x. has_id r.event_id x && b x) d.rows ≡ 1
  only_row =
      let low = count_where-Mem DistinctId (λ x. has_id r.event_id x && b x) r d.rows m meets in
      let high =
        count_where-le-one DistinctId (λ x. has_id r.event_id x && b x) d.rows here_only v.ids in
      omega arith

  pub first_row : first_where (λ x. has_id r.event_id x && b x) d.rows ≡ some r
  first_row =
      first_where-only DistinctId (λ x. has_id r.event_id x && b x) r d.rows here_only m meets v.ids

mark_in_flight-returns :
    (now : ℕ) (d : Store) (r : Row)
    → IsValid d
    → d.is_open ≡ true
    → d.turn < int64_max
    → Memᴰ r d.rows
    → r.state ≡ pending
    → is_head d.streams r ≡ true
    → mark_in_flight now r.event_id [] d
      ≡ done tt [] (serve r.event_id (tick (claim_row now r.event_id d)))
unfolding mark_in_flight claim_body claim_row tick is_claimable
mark_in_flight-returns now d r v o t m w e =
    let one =
      only_row (λ x. state_eq x.state pending && is_head d.streams x) d v r m (rw (w, e) refl) in
    ground arith

-- One stream stands at the cursor of a row in flight, unless the row has no call.
CursorOf : Store → Row → Type 0
CursorOf d r =
    state_eq r.state in_flight ≡ true
    → (is_ungrouped r ≡ true) ⊎ (count_where (is_cursor r) d.streams ≡ 1)

one_call :
    (x : Row) (a b : CallStream)
    → is_cursor x a ≡ true
    → is_cursor x b ≡ true
    → DistinctCall a b
    → ⊥
unfolding is_cursor
one_call x a b e k n = ground (
  arith,
  text_eq_iff a.topic x.topic,
  text_eq_iff b.topic x.topic,
  text_eq_iff b.topic a.topic,
  text_eq_iff a.call_uuid x.call_uuid,
  text_eq_iff b.call_uuid x.call_uuid,
  text_eq_iff b.call_uuid a.call_uuid,
)

RowOk-CursorOf : (d : Store) (x : Row) → IsValid d → RowOk d.streams x → CursorOf d x
unfolding is_cursor CursorOf
RowOk-CursorOf d x v (loose e q k) w = inl e
RowOk-CursorOf d x v (in_call s n at c) w = inr (
    let (m, named) = first_where_sound (is_call x.topic x.call_uuid) d.streams s at in
    let low =
      count_where-Mem DistinctCall (is_cursor x) s d.streams m
        (cursor_of_call 0 "" x s n d at c (c.flying w)) in
    let high =
      count_where-le-one DistinctCall (is_cursor x) d.streams (λ a b. one_call x a b) v.calls in
    omega arith)

mark_acked-returns :
    (now : ℕ) (d : Store) (r : Row)
    → IsValid d
    → d.is_open ≡ true
    → Memᴰ r d.rows
    → r.state ≡ in_flight
    → mark_acked now r.event_id [] d ≡ done tt [] (acked now r.event_id r d)
unfolding mark_acked acked is_in_flight CursorOf
mark_acked-returns now d r v o m w =
    let first = first_row (λ x. state_eq x.state in_flight) d v r m (rw w refl) in
    let cursor =
      All-Mem (CursorOf d) d.rows m
        (All-mono (RowOk d.streams) (CursorOf d) d.rows (λ x. RowOk-CursorOf d x v) v.rows_ok) in
    let ready = cursor (rw w refl) in ground arith

Mem-update_where {ℓ} :
    {A : Type ℓ} (p : A → Bool) (f : A → A) (a : A) (xs : List A)
    → Memᴰ a xs
    → p a ≡ true
    → Memᴰ (f a) (update_where p f xs)
Mem-update_where p f a [] m e = elim m [ ]
Mem-update_where p f a (a' ∷ xs) here e = rw e here
Mem-update_where p f a (x ∷ xs) (there m) e = there (Mem-update_where p f a xs m e)

-- With no fault, a pending row of a well-formed open outbox that is ungrouped or stands at its call's
-- cursor is claimed and then acknowledged, if a scheduler turn is left; the store is the one that the
-- two changes give.
pub claims-acks-return :
    (now later : ℕ) (d : Store) (r : Row)
    → IsValid d
    → d.is_open ≡ true
    → d.turn < int64_max
    → Memᴰ r d.rows
    → r.state ≡ pending
    → is_head d.streams r ≡ true
    → ◌>>◌ (mark_in_flight now r.event_id) (mark_acked later r.event_id) [] d
      ≡ done tt [] (
          acked later r.event_id
            (claim now r)
            (serve r.event_id (tick (claim_row now r.event_id d))))
unfolding ◌>>◌ claim_row tick serve is_claimable
claims-acks-return now later d r v o t m w e =
    let first = mark_in_flight-returns now d r v o t m w e in
    let d1 : Store = serve r.event_id (tick (claim_row now r.event_id d)) in
    let v1 : IsValid d1 = rw first at (mark_in_flight-IsValid now r.event_id [] d v) in
    let m1 : Memᴰ (claim now r) d1.rows =
      Mem-update_where (is_claimable r.event_id d.streams) (claim now) r d.rows m
        (rw (text_eq_self r.event_id, w, e) refl) in
    rw first (mark_acked-returns later d1 (claim now r) v1 o m1 refl)
