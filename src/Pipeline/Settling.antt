-- ===== src/Pipeline/Settling.antt =====
-- What the settlement of a failed send does to the outbox.
use mod_event_kafka.Common.{
  ℕ, ◌+◌, ◌≤◌, ◌↔◌, pos, negsuc, false, String, ◌≡◌, refl, ◌∙◌, ◌⊎◌, inl, inr, Bool, true, ◌&&◌,
  some, List, [], ◌∷◌, arith, Memᴰ, update_where, text_eq_self, text_eq_iff, ℤ, Bool-cases, All,
  All-mono, text_eq_comm,
}
use mod_event_kafka.Common.Tables.Keys.{Pairwise-Mem, first_where-only}
use mod_event_kafka.Outbox.Schema.{dead, pending, in_flight, Row, Store, state_eq}
use mod_event_kafka.Outbox.Engine.{done, return}
use mod_event_kafka.Outbox.Transitions.{
  has_id, is_in_flight, back_off, mark_retry, is_live, is_live_id, bury, mark_dead,
}
use mod_event_kafka.Outbox.Invariant.{IsValid, DistinctId}
use mod_event_kafka.Outbox.Queries.{get, to_record}
use mod_event_kafka.Outbox.Laws.Progress.{only_row}
use mod_event_kafka.Pipeline.Backoff.{int_lt, attempt_backoff_ms}
use mod_event_kafka.Pipeline.Failure.{
  reported, SendFailureResult, to_retry, to_dead, Clock, is_final, settle_current, give_up,
  try_again, settle_send_failure,
}

-- `m ≤ n` on int.
abbrev pub IntLe : ℤ → ℤ → Type 0
IntLe (pos m) (pos n) = m ≤ n
IntLe (pos m) (negsuc n) = ⊥
IntLe (negsuc m) (pos n) = Unit
IntLe (negsuc m) (negsuc n) = n ≤ m

not_lt_iff : (m n : ℤ) → (int_lt n m ≡ false) ↔ IntLe m n
not_lt_iff (pos m) (pos n) = ground arith
not_lt_iff (pos m) (negsuc n) = ground arith
not_lt_iff (negsuc m) (pos n) = ground arith
not_lt_iff (negsuc m) (negsuc n) = ground arith

-- The send of a row is given up: the error is permanent, or the tries have reached the limit.
abbrev pub GivesUp : ℤ → Bool → Row → Type 0
GivesUp max_attempts permanent r = (permanent ≡ true) ⊎ IntLe max_attempts (to_record r).attempts

is_final-GivesUp :
    (max_attempts : ℤ) (permanent : Bool) (r : Row)
    → (is_final max_attempts permanent (to_record r) ≡ true) ↔ GivesUp max_attempts permanent r
is_final-GivesUp max_attempts true r = ((λ e. inl refl), (λ h. refl))
is_final-GivesUp max_attempts false r =
    let (to, back) = not_lt_iff max_attempts (to_record r).attempts in
    ((λ e. inr (to (ground arith))), by_limit back)
  where
    by_limit :
        (IntLe max_attempts (to_record r).attempts
          → int_lt (to_record r).attempts max_attempts ≡ false)
        → (false ≡ true) ⊎ IntLe max_attempts (to_record r).attempts
        → is_final max_attempts false (to_record r) ≡ true
    by_limit back (inl e) = cc
    by_limit back (inr h) = rw (back h) refl

-- What a settlement of its failed send makes of a row that is given up, or due again at `next`.
abbrev pub settled_row : Bool → String → ℕ → ℕ → Row → Row
settled_row true error next now r = record r {
  state = dead;
  last_error = error;
  updated_at_ms = now;
}
settled_row false error next now r = record r {
  state = pending;
  next_attempt_at_ms = next;
  last_error = error;
  updated_at_ms = now;
}

abbrev pub verdict : Bool → SendFailureResult
verdict true = to_dead
verdict false = to_retry

update_where_same {ℓ} :
    {A : Type ℓ} (p q : A → Bool) (f g : A → A) (xs : List A)
    → ((x : A) → f x ≡ g x)
    → All (λ x. p x ≡ q x) xs
    → update_where p f xs ≡ update_where q g xs
update_where_same p q f g [] e h = refl
update_where_same p q f g (x ∷ xs) e h =
    ground (arith, e x, h.0, update_where_same p q f g xs e h.1)

module _ (d : Store) (v : IsValid d) (o : d.is_open ≡ true) (r : Row) (m : Memᴰ r d.rows) where
  -- A condition that the row meets picks it out, as its id does.
  picks :
      (b : Row → Bool)
      → b r ≡ true
      → All (λ x. has_id r.event_id x && b x ≡ has_id r.event_id x) d.rows
  picks b e =
      All-mono (λ x. (x ≡ r) ⊎ DistinctId r x) _ d.rows (λ x h. same x h)
        (Pairwise-Mem DistinctId d.rows r (λ x y k. text_eq_comm y.event_id x.event_id ∙ k) m v.ids)
    where
      same : (x : Row) → (x ≡ r) ⊎ DistinctId r x → has_id r.event_id x && b x ≡ has_id r.event_id x
      same x (inl h) = rw (h, e) (ground arith)
      same x (inr h) = ground (arith, text_eq_comm x.event_id r.event_id)

  get-found : get r.event_id [] d ≡ done (some (to_record r)) [] d
  unfolding get
  get-found =
      let first =
        first_where-only DistinctId (has_id r.event_id) r d.rows
          (λ x y e k n. ground (
            arith,
            text_eq_iff x.event_id r.event_id,
            text_eq_iff y.event_id r.event_id,
            text_eq_self r.event_id,
          ))
          m (text_eq_self r.event_id) v.ids in
      ground arith

  mark_dead-found :
      (now : ℕ) (error : String)
      → is_live r.state ≡ true
      → mark_dead now r.event_id error [] d
        ≡ done tt [] (record d { rows = update_where (has_id r.event_id) (bury error now) d.rows })
  unfolding mark_dead is_live_id
  mark_dead-found now error e =
      let one = only_row (λ x. is_live x.state) d v r m e in
      let same =
        update_where_same (is_live_id r.event_id) (has_id r.event_id) (bury error now)
          (bury error now) d.rows (λ x. refl) (picks (λ x. is_live x.state) e) in
      rw (← same) (ground arith)

  mark_retry-found :
      (now next : ℕ) (error : String)
      → r.state ≡ in_flight
      → mark_retry now r.event_id next error [] d
        ≡ done tt []
            (record d { rows = update_where (has_id r.event_id) (back_off next error now) d.rows })
  unfolding mark_retry is_in_flight
  mark_retry-found now next error e =
      let one = only_row (λ x. state_eq x.state in_flight) d v r m (rw e refl) in
      let same =
        update_where_same (is_in_flight r.event_id) (has_id r.event_id) (back_off next error now)
          (back_off next error now) d.rows (λ x. refl)
          (picks (λ x. state_eq x.state in_flight) (rw e refl)) in
      rw (← same) (ground arith)

-- With no fault, the failed send of a row in flight of a well-formed open outbox is settled: the row
-- is dead if and only if the error is permanent or its tries have reached the limit, and waits for
-- its next try otherwise, after the backoff; no other row changes, and no cursor.
pub settle_send_failure_lem :
    (max_attempts : ℤ) (error : String) (permanent : Bool) (clock : Clock) (d : Store) (r : Row)
    → IsValid d
    → d.is_open ≡ true
    → Memᴰ r d.rows
    → r.state ≡ in_flight
    → (given_up : Bool) × ((given_up ≡ true) ↔ GivesUp max_attempts permanent r)
      × (settle_send_failure max_attempts r.event_id error permanent clock [] d
          ≡ done (verdict given_up) [] (record d {
            rows =
                update_where
                  (has_id r.event_id)
                  (settled_row given_up error
                    (clock.due + attempt_backoff_ms (to_record r).attempts clock.jitter)
                    clock.update)
                  d.rows;
          }))
unfolding settle_send_failure settle_current give_up try_again reported to_record return
settle_send_failure_lem max_attempts error permanent clock d r v o m w =
    let limit = is_final-GivesUp max_attempts permanent r in
    elim (Bool-cases (is_final max_attempts permanent (to_record r))) [
      | inl e ↦
          let found = get-found d v o r m in
          let buried = mark_dead-found d v o r m clock.update error (rw w refl) in
          (true, ((λ x. limit.0 e), (λ h. refl)), rw (found, w, e, buried) refl)
      | inr e ↦
          let found = get-found d v o r m in
          let next = clock.due + attempt_backoff_ms (to_record r).attempts clock.jitter in
          let backed = mark_retry-found d v o r m clock.update next error w in
          (false, ((λ x. cc), (λ h. let up = limit.1 h in cc)), rw (found, w, e, backed) refl)
    ]
