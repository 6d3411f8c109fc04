-- ===== src/Outbox/Reach/Standing.antt =====
-- What calls that neither admit nor acknowledge leave as it is: the queue of every call.
use mod_event_kafka.Common.{ℕ, String, ◌≡◌, refl, ◌∙◌, false, is_empty, none}
use mod_event_kafka.Outbox.Schema.{Store}
use mod_event_kafka.Outbox.Engine.{Faults, done, store_of}
use mod_event_kafka.Outbox.Transitions.{mark_in_flight}
use mod_event_kafka.Outbox.Invariant.{IsValid}
use mod_event_kafka.Outbox.History.{
  Call, inserts, claims, acks, retries, kills, revives, requeues, expires, after, acknowledged,
}
use mod_event_kafka.Outbox.History.Validity.{after-IsValid}
use mod_event_kafka.Outbox.Fifo.{waiting, Contiguous}
use mod_event_kafka.Outbox.Reach.{Reaches, stays, call, Serving, Serving-InRange, Settling}
use mod_event_kafka.Outbox.Reach.Steps.{call-front}

Settling-Serving : (c : Call) → Settling c → Serving c
Settling-Serving (inserts rec wall) p = p
Settling-Serving (acks now id) p = tt
Settling-Serving (claims now id) p = tt
Settling-Serving (retries now id next error) p = tt
Settling-Serving (kills now id error) p = tt
Settling-Serving (revives due now id) p = tt
Settling-Serving (requeues due now) p = tt
Settling-Serving (expires now ttl) p = tt

acknowledged-none : (c : Call) (fs : Faults) (d : Store) → Settling c → acknowledged c fs d ≡ none
unfolding acknowledged
acknowledged-none (acks now id) fs d p = absurd p
acknowledged-none (inserts rec wall) fs d p = refl
acknowledged-none (claims now id) fs d p = refl
acknowledged-none (retries now id next error) fs d p = refl
acknowledged-none (kills now id error) fs d p = refl
acknowledged-none (revives due now id) fs d p = refl
acknowledged-none (requeues due now) fs d p = refl
acknowledged-none (expires now ttl) fs d p = refl

-- The queue of the call after such calls, which is the one before.
pub record Stands (t u : String) (d d' : Store) : Type 0 where
  pub valid : IsValid d'
  pub queue : Contiguous t u d'
  pub same : waiting t u d' ≡ waiting t u d

module _ (t u : String) (nonempty : is_empty u ≡ false) where
  call-Stands :
      (c : Call) (fs : Faults) (d : Store)
      → Settling c
      → IsValid d
      → Contiguous t u d
      → Stands t u d (after c fs d)
  call-Stands c fs d p v q =
      let (kept, front) = call-front t u nonempty c fs d (Settling-Serving c p) v q in
      record {
        valid = after-IsValid c fs d (Serving-InRange c (Settling-Serving c p)) v;
        queue = kept;
        same = rw (acknowledged-none c fs d p) at front;
      }

  pub Reaches-Stands :
      {d d' : Store} → Reaches Settling d d' → IsValid d → Contiguous t u d → Stands t u d d'
  Reaches-Stands stays v q = record { valid = v; queue = q; same = refl }
  Reaches-Stands (call {d1} {d2} k c fs p e) v q =
      let h = Reaches-Stands k v q in
      let g = call-Stands c fs d1 p h.valid h.queue in
      rw e (record { valid = g.valid; queue = g.queue; same = g.same ∙ h.same })

  -- A claim that returns leaves the queue as it is.
  pub mark_in_flight-Stands :
      (now : ℕ) (id : String) (fs : Faults) (d : Store) (fs' : Faults) (d' : Store)
      → mark_in_flight now id fs d ≡ done tt fs' d'
      → IsValid d
      → Contiguous t u d
      → Stands t u d d'
  unfolding after
  mark_in_flight-Stands now id fs d fs' d' h v q =
      let left : store_of (mark_in_flight now id fs d) ≡ d' = rw h refl in
      rw left at (call-Stands (claims now id) fs d tt v q)
