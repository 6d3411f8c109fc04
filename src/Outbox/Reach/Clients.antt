-- ===== src/Outbox/Reach/Clients.antt =====
-- Which calls the parts of a client make.
use mod_event_kafka.Common.{
  ℕ, String, ◌≡◌, refl, Bool, true, false, [], none, if◌then◌else◌, first_where, if_cases, map, ℤ,
}
use mod_event_kafka.Outbox.Schema.{Store}
use mod_event_kafka.Outbox.Engine.{
  Outcome, done, thrown, Sql, ◌>>=◌, return, select, reply, continue, store_of,
}
use mod_event_kafka.Outbox.Engine.Rules.{statement_rule}
use mod_event_kafka.Outbox.Transitions.{
  has_id, mark_in_flight, mark_acked, mark_retry, mark_dead, requeue_in_flight, expire_ttl,
}
use mod_event_kafka.Outbox.Queries.{get, fetch_due, map_option, to_record, due_rows}
use mod_event_kafka.Outbox.History.{Call, claims, acks, retries, kills, requeues, expires, after}
use mod_event_kafka.Outbox.Reach.{Reaches, stays, call, Reaches-trans, Calling, Serving}

module _ (P : Call → Type 0) where
  continue-reach {ℓ κ} :
      {A : Type ℓ} {B : Type κ} (o : Outcome A) (k : A → Sql B) (d : Store)
      → Reaches P d (store_of o)
      → ((a : A) → Calling P (k a))
      → Reaches P d (store_of (continue o k))
  continue-reach (done a fs d1) k d h hk = Reaches-trans P h ((hk a).reach fs d1)
  continue-reach (thrown e fs d1) k d h hk = h

  pub Calling->>= {ℓ κ} :
      {A : Type ℓ} {B : Type κ} (m : Sql A) (k : A → Sql B)
      → Calling P m
      → ((a : A) → Calling P (k a))
      → Calling P (m >>= k)
  unfolding ◌>>=◌
  Calling->>= m k hm hk = record { reach = λ fs d. continue-reach (m fs d) k d (hm.reach fs d) hk }

  pub Calling-return {ℓ} : {A : Type ℓ} (a : A) → Calling P (return a)
  unfolding return
  Calling-return a = record { reach = λ fs d. stays }

  pub Calling-if {ℓ} :
      {A : Type ℓ} (b : Bool) (m n : Sql A)
      → Calling P m
      → Calling P n
      → Calling P (if b then m else n)
  Calling-if true m n hm hn = hm
  Calling-if false m n hm hn = hn

  -- A query, which leaves the store as it is.
  Calling-query {ℓ} :
      {A : Type ℓ} (q : Store → A) (a : A)
      → Calling P (λ fs d. if d.is_open then select q fs d else return a fs d)
  unfolding select return
  Calling-query {A} q a = record {
    reach = λ fs d.
        if_cases {A = Outcome A} (λ o. Reaches P d (store_of o)) d.is_open
          (λ e.
            statement_rule (Reaches P d) (λ x. reply (q x) x) fs d stays
              (λ b d' r. let same : d ≡ d' = cc in rw (← same) stays))
          (λ e. stays);
  }

pub Calling-get : (P : Call → Type 0) (id : String) → Calling P (get id)
unfolding get
Calling-get P id = Calling-query P (λ x. map_option to_record (first_where (has_id id) x.rows)) none

pub Calling-fetch_due : (P : Call → Type 0) (now : ℕ) (limit : ℤ) → Calling P (fetch_due now limit)
unfolding fetch_due
Calling-fetch_due P now limit = Calling-query P (λ x. map to_record (due_rows now limit x)) []

pub Calling-mark_in_flight : (now : ℕ) (id : String) → Calling Serving (mark_in_flight now id)
unfolding after
Calling-mark_in_flight now id = record { reach = λ fs d. call stays (claims now id) fs tt refl }

pub Calling-mark_acked : (now : ℕ) (id : String) → Calling Serving (mark_acked now id)
unfolding after
Calling-mark_acked now id = record { reach = λ fs d. call stays (acks now id) fs tt refl }

pub Calling-mark_retry :
    (P : Call → Type 0) (now : ℕ) (id : String) (next : ℕ) (error : String)
    → P (retries now id next error)
    → Calling P (mark_retry now id next error)
unfolding after
Calling-mark_retry P now id next error h = record {
  reach = λ fs d. call stays (retries now id next error) fs h refl;
}

pub Calling-mark_dead :
    (P : Call → Type 0) (now : ℕ) (id error : String)
    → P (kills now id error)
    → Calling P (mark_dead now id error)
unfolding after
Calling-mark_dead P now id error h = record {
  reach = λ fs d. call stays (kills now id error) fs h refl;
}

pub Calling-requeue_in_flight : (due now : ℕ) → Calling Serving (requeue_in_flight due now)
unfolding after
Calling-requeue_in_flight due now = record {
  reach = λ fs d. call stays (requeues due now) fs tt refl;
}

pub Calling-expire_ttl : (now : ℕ) (ttl : ℤ) → Calling Serving (expire_ttl now ttl)
unfolding after
Calling-expire_ttl now ttl = record { reach = λ fs d. call stays (expires now ttl) fs tt refl }
