-- ===== src/Outbox/Engine/Rules.antt =====
-- How a call ends: a transaction or a statement that throws has changed nothing.
use mod_event_kafka.Common.{
  String, ◌≡◌, refl, ap, ◌∙◌, ◌⊎◌, inl, inr, none, some, [], ◌∷◌, if_cases,
}
use mod_event_kafka.Outbox.Schema.{Store}
use mod_event_kafka.Outbox.Engine.{
  Faults, Outcome, done, thrown, Sql, Reply, reply, refused, deliver, attempt, statement, bracket,
  transaction, roll_back, store_of,
}

roll_back-thrown {ℓ} :
    {A : Type ℓ} (o : Outcome A) (d : Store) (e : String) (fs' : Faults) (d' : Store)
    → roll_back d o ≡ thrown e fs' d'
    → d' ≡ d
roll_back-thrown (done x f y) d e fs' d' h = cc
roll_back-thrown (thrown x f y) d e fs' d' h = cc

outcome_rule {ℓ κ} :
    {A : Type ℓ} (P : Store → Type κ) (o : Outcome A)
    → ((a : A) (fs' : Faults) (d' : Store) → o ≡ done a fs' d' → P d')
    → ((e : String) (fs' : Faults) (d' : Store) → o ≡ thrown e fs' d' → P d')
    → P (store_of o)
outcome_rule P (done a fs d) f g = f a fs d refl
outcome_rule P (thrown e fs d) f g = g e fs d refl

-- A transaction that throws leaves the store as it was, whatever its body had done.
transaction-thrown {ℓ} :
    {A : Type ℓ} (m : Sql A) (fs : Faults) (d : Store) (e : String) (fs' : Faults) (d' : Store)
    → transaction m fs d ≡ thrown e fs' d'
    → d' ≡ d
unfolding transaction
transaction-thrown m fs d e fs' d' h = roll_back-thrown (bracket m fs d) d e fs' d' h

-- A property of the store holds after a transaction if it held before and holds where it returns.
pub transaction_rule {ℓ κ} :
    {A : Type ℓ} (P : Store → Type κ) (m : Sql A) (fs : Faults) (d : Store)
    → P d
    → ((a : A) (fs' : Faults) (d' : Store) → transaction m fs d ≡ done a fs' d' → P d')
    → P (store_of (transaction m fs d))
transaction_rule P m fs d h k =
    outcome_rule P (transaction m fs d) k
      (λ e fs' d' t. rw (transaction-thrown m fs d e fs' d' t) h)

outcome_cases {ℓ} :
    {A : Type ℓ} (o : Outcome A)
    → ((a : A) × (fs : Faults) × (d : Store) × (o ≡ done a fs d))
      ⊎ ((e : String) × (fs : Faults) × (d : Store) × (o ≡ thrown e fs d))
outcome_cases (done a fs d) = inl (a, fs, d, refl)
outcome_cases (thrown e fs d) = inr (e, fs, d, refl)

-- A transaction returns, or throws in the store that it began with.
pub transaction_cases {ℓ} :
    {A : Type ℓ} (m : Sql A) (fs : Faults) (d : Store)
    → ((a : A) × (fs' : Faults) × (d' : Store) × (transaction m fs d ≡ done a fs' d'))
      ⊎ ((e : String) × (fs' : Faults) × (transaction m fs d ≡ thrown e fs' d))
transaction_cases m fs d = elim (outcome_cases (transaction m fs d)) [
  | inl ok ↦ inl ok
  | inr (e, fs', d', h) ↦
      let same : d' ≡ d = transaction-thrown m fs d e fs' d' h in
      inr (e, fs', h ∙ ap (thrown e fs') same)
]

deliver_rule {ℓ κ} :
    {A : Type ℓ} (P : Store → Type κ) (r : Reply A) (fs : Faults) (d : Store)
    → P d
    → ((a : A) (d' : Store) → r ≡ reply a d' → P d')
    → P (store_of (deliver r fs d))
deliver_rule P (reply a d') fs d h k = k a d' refl
deliver_rule P (refused e) fs d h k = h

attempt_rule {ℓ κ} :
    {A : Type ℓ} (P : Store → Type κ) (q : Store → Reply A) (fs : Faults) (d : Store)
    → P d
    → ((a : A) (d' : Store) → q d ≡ reply a d' → P d')
    → P (store_of (attempt q fs d))
attempt_rule P q [] d h k = deliver_rule P (q d) [] d h k
attempt_rule P q (none ∷ fs) d h k = deliver_rule P (q d) fs d h k
attempt_rule P q (some e ∷ fs) d h k = h

-- The same for a statement that commits by itself.
pub statement_rule {ℓ κ} :
    {A : Type ℓ} (P : Store → Type κ) (q : Store → Reply A) (fs : Faults) (d : Store)
    → P d
    → ((a : A) (d' : Store) → q d ≡ reply a d' → P d')
    → P (store_of (statement q fs d))
unfolding statement
statement_rule {A} P q fs d h k =
    if_cases {A = Outcome A} (λ o. P (store_of o)) d.is_open (λ e. attempt_rule P q fs d h k)
      (λ e. h)
