-- ===== src/Outbox/Reach/Steps.antt =====
-- What calls that admit no event do to the queue of a call: events leave at the front.
use mod_event_kafka.Common.{String, ◌≡◌, refl, ap, ◌∙◌, false, List, [], ◌++◌, is_empty, none}
use mod_event_kafka.Outbox.Schema.{Store}
use mod_event_kafka.Outbox.Engine.{Faults}
use mod_event_kafka.Outbox.Invariant.{IsValid}
use mod_event_kafka.Outbox.History.{
  Call, inserts, claims, acks, retries, kills, revives, requeues, expires, after, acknowledged,
  accepted,
}
use mod_event_kafka.Outbox.History.Validity.{after-IsValid}
use mod_event_kafka.Outbox.Fifo.{waiting, Contiguous, taken}
use mod_event_kafka.Outbox.Fifo.Queue.{Admits, after-Flows}
use mod_event_kafka.Outbox.Reach.{Reaches, stays, call, Serving, Serving-InRange}
use mathlib.Core.List.{append-nil, append_assoc}

-- The queue of a call in a well-formed store, and the events that have left it since, at its front.
pub record Drains (t u : String) (d d' : Store) : Type 0 where
  pub valid : IsValid d'
  pub queue : Contiguous t u d'
  pub gone : List String
  pub front : gone ++ waiting t u d' ≡ waiting t u d

pub accepted-none : (c : Call) (fs : Faults) (d : Store) → Serving c → accepted c fs d ≡ none
unfolding accepted
accepted-none (inserts rec wall) fs d p = elim p [ ]
accepted-none (claims now id) fs d p = refl
accepted-none (acks now id) fs d p = refl
accepted-none (retries now id next error) fs d p = refl
accepted-none (kills now id error) fs d p = refl
accepted-none (revives due now id) fs d p = refl
accepted-none (requeues due now) fs d p = refl
accepted-none (expires now ttl) fs d p = refl

module _ (t u : String) (nonempty : is_empty u ≡ false) where
  Serving-Admits : (c : Call) → Serving c → Admits t u c
  Serving-Admits (inserts rec wall) p = elim p [ ]
  Serving-Admits (claims now id) p = tt
  Serving-Admits (acks now id) p = tt
  Serving-Admits (retries now id next error) p = tt
  Serving-Admits (kills now id error) p = tt
  Serving-Admits (revives due now id) p = tt
  Serving-Admits (requeues due now) p = tt
  Serving-Admits (expires now ttl) p = tt

  -- One such call takes from the queue what it acknowledges.
  pub call-front :
      (c : Call) (fs : Faults) (d : Store)
      → Serving c
      → IsValid d
      → Contiguous t u d
      → Contiguous t u (after c fs d)
        × (taken t u (acknowledged c fs d) ++ waiting t u (after c fs d) ≡ waiting t u d)
  call-front c fs d p v q =
      let (kept, flow) = after-Flows t u nonempty c fs d v (Serving-Admits c p) q in
      (kept, (rw (accepted-none c fs d p) at flow) ∙ append-nil (waiting t u d))

  call-Drains :
      (c : Call) (fs : Faults) (d : Store)
      → Serving c
      → IsValid d
      → Contiguous t u d
      → Drains t u d (after c fs d)
  call-Drains c fs d p v q =
      let (kept, front) = call-front c fs d p v q in
      record {
        valid = after-IsValid c fs d (Serving-InRange c p) v;
        queue = kept;
        gone = taken t u (acknowledged c fs d);
        front = front;
      }

  Drains-trans : (a b c : Store) → Drains t u a b → Drains t u b c → Drains t u a c
  Drains-trans a b c h k = record {
    valid = k.valid;
    queue = k.queue;
    gone = h.gone ++ k.gone;
    front = append_assoc h.gone k.gone (waiting t u c) ∙ ap (λ l. h.gone ++ l) k.front ∙ h.front;
  }

  pub Reaches-Drains :
      {d d' : Store} → Reaches Serving d d' → IsValid d → Contiguous t u d → Drains t u d d'
  Reaches-Drains stays v q = record { valid = v; queue = q; gone = []; front = refl }
  Reaches-Drains (call {d1} {d2} k c fs p e) v q =
      let h = Reaches-Drains k v q in
      rw e (Drains-trans _ d1 _ h (call-Drains c fs d1 p h.valid h.queue))
