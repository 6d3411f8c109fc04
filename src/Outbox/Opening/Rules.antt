-- ===== src/Outbox/Opening/Rules.antt =====
-- Reasoning about the steps of open: what holds after a step that returns, and what a step that
-- throws leaves.
use mod_event_kafka.Common.{
  Option-cases, inl, inr, String, ◌≡◌, refl, Bool, true, false, Option, none, some, [], ◌∷◌,
}
use mod_event_kafka.Outbox.Engine.{Faults}
use mod_event_kafka.Outbox.Database.{
  Database, Result, finished, broke, Db, follow, ◌>>=◌, ◌>>◌, settle, constrained, execute, query,
  refuse_if,
}
use mod_event_kafka.Outbox.Opening.{undo, in_transaction}

-- Q holds of the result and of the file, and of nothing if the step has thrown.
abbrev pub After {ℓ} : {A : Type ℓ} → (A → Database → Type 0) → Result A → Type 0
After Q (finished a fs f) = Q a f
After Q (broke e fs f) = Unit

-- From a file with P, the step reaches Q if it returns.
pub record Ensures {ℓ} {A : Type ℓ} (P : Database → Type 0) (m : Db A) (Q : A → Database → Type 0)
    : Type ℓ where
  pub ensure : (fs : Faults) (f : Database) → P f → After Q (m fs f)

follow-After {ℓ κ} :
    {A : Type ℓ} {B : Type κ} (Q : A → Database → Type 0) (R : B → Database → Type 0) (o : Result A)
    (k : A → Db B)
    → After Q o
    → ((a : A) → Ensures (Q a) (k a) R)
    → After R (follow o k)
follow-After Q R (finished a fs f) k h hk = (hk a).ensure fs f h
follow-After Q R (broke e fs f) k h hk = tt

pub Ensures->>= {ℓ κ} :
    {A : Type ℓ} {B : Type κ} (P : Database → Type 0) (Q : A → Database → Type 0)
    (R : B → Database → Type 0) (m : Db A) (k : A → Db B)
    → Ensures P m Q
    → ((a : A) → Ensures (Q a) (k a) R)
    → Ensures P (m >>= k) R
unfolding ◌>>=◌
Ensures->>= P Q R m k h hk = record {
  ensure = λ fs f p. follow-After Q R (m fs f) k (h.ensure fs f p) hk;
}

pub Ensures->> {ℓ} :
    {B : Type ℓ} (P Q : Database → Type 0) (R : B → Database → Type 0) (m : Db (Unit {0}))
    (k : Db B)
    → Ensures P m (λ _. Q)
    → Ensures Q k R
    → Ensures P (m >> k) R
unfolding ◌>>◌
Ensures->> P Q R m k h hk = Ensures->>= P (λ _. Q) R m (λ _. k) h (λ _. hk)

settle-After :
    (P Q : Database → Type 0) (g : Database → Option Database) (fs : Faults) (f : Database)
    → ((f f' : Database) → P f → g f ≡ some f' → Q f')
    → P f
    → After (λ _. Q) (settle (g f) fs f)
settle-After P Q g fs f h p = elim (Option-cases (g f)) [
  | inl e ↦ rw e tt
  | inr (f', e) ↦ rw e (h f f' p e)
]

Ensures-constrained :
    (P Q : Database → Type 0) (g : Database → Option Database)
    → ((f f' : Database) → P f → g f ≡ some f' → Q f')
    → Ensures P (constrained g) (λ _. Q)
unfolding constrained
Ensures-constrained P Q g h = record { ensure = refusable }
  where
    refusable : (fs : Faults) (f : Database) → P f → After (λ _. Q) (constrained g fs f)
    refusable [] f p = settle-After P Q g [] f h p
    refusable (none ∷ fs) f p = settle-After P Q g fs f h p
    refusable (some e ∷ fs) f p = tt

pub Ensures-execute :
    (P Q : Database → Type 0) (g : Database → Database)
    → ((f : Database) → P f → Q (g f))
    → Ensures P (execute g) (λ _. Q)
unfolding execute
Ensures-execute P Q g h =
    Ensures-constrained P Q (λ f. some (g f))
      (λ f f' p e. let same : g f ≡ f' = cc in rw (← same) (h f p))

pub Ensures-query {ℓ} :
    {A : Type ℓ} (P : Database → Type 0) (Q : A → Database → Type 0) (g : Database → A)
    → ((f : Database) → P f → Q (g f) f)
    → Ensures P (query g) Q
unfolding query
Ensures-query P Q g h =
    Ensures->> P P Q (execute (λ f. f)) _ (Ensures-execute P P (λ f. f) (λ f p. p))
      (record { ensure = λ fs f p. h f p })

pub Ensures-refuse_if :
    (P : Database → Type 0) (b : Bool) (e : String)
    → Ensures P (refuse_if b e) (λ _ f. P f × (b ≡ false))
unfolding refuse_if
Ensures-refuse_if P true e = record { ensure = λ fs f p. tt }
Ensures-refuse_if P false e = record { ensure = λ fs f p. (p, refl) }

undo-After :
    (Q : Database → Type 0) (f : Database) (o : Result (Unit {0}))
    → After (λ _. Q) o
    → After (λ _. Q) (undo f o)
undo-After Q f (finished a fs f') h = h
undo-After Q f (broke e fs f') h = tt

pub Ensures-in_transaction :
    (P Q : Database → Type 0) (body : Db (Unit {0}))
    → Ensures P body (λ _. Q)
    → Ensures P (in_transaction body) (λ _. Q)
unfolding in_transaction
Ensures-in_transaction P Q body h = record {
  ensure = λ fs f p. undo-After Q f _ (
      (Ensures->> P P (λ _. Q) (execute (λ x. x)) _ (Ensures-execute P P (λ x. x) (λ f p. p))
          (Ensures->> P Q (λ _. Q) body (execute (λ x. x)) h
            (Ensures-execute Q Q (λ x. x) (λ f p. p)))).ensure
        fs f p);
}
