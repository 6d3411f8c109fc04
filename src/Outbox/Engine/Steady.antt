-- ===== src/Outbox/Engine/Steady.antt =====
-- Faults only stop: a call that returns under some faults returns the same result and the same
-- store when the engine runs every statement.
use mod_event_kafka.Common.{
  ℕ, String, ◌≡◌, refl, ◌∙◌, Bool, true, false, none, some, [], ◌∷◌, arith, if◌then◌else◌,
}
use mod_event_kafka.Outbox.Schema.{Store}
use mod_event_kafka.Outbox.Engine.{
  Faults, Outcome, done, thrown, Sql, ◌>>=◌, ◌>>◌, return, raise, skip, Reply, reply, refused,
  deliver, attempt, statement, select, change, change_counted, control, bracket, transaction,
  roll_back, continue,
}

pub record Steady {ℓ} {A : Type ℓ} (m : Sql A) : Type ℓ where
  pub calm :
      (fs : Faults) (d : Store) (a : A) (fs' : Faults) (d' : Store)
      → m fs d ≡ done a fs' d'
      → m [] d ≡ done a [] d'

-- What a finished outcome holds.
abbrev result_of {ℓ} : {A : Type ℓ} → A → Outcome A → A
result_of x (done a fs d) = a
result_of x (thrown e fs d) = x

continue-done {ℓ κ} :
    {A : Type ℓ} {B : Type κ} (o : Outcome A) (k : A → Sql B) (b : B) (fs' : Faults) (d' : Store)
    → continue o k ≡ done b fs' d'
    → (a : A) × (fs : Faults) × (d : Store) × (o ≡ done a fs d) × (k a fs d ≡ done b fs' d')
continue-done (done a fs d) k b fs' d' h = (a, fs, d, refl, h)
continue-done (thrown e fs d) k b fs' d' h = cc

-- Inversion of a sequence that returns.
>>=-done {ℓ κ} :
    {A : Type ℓ} {B : Type κ} (m : Sql A) (k : A → Sql B) (fs : Faults) (d : Store) (b : B)
    (fs' : Faults) (d' : Store)
    → ◌>>=◌ m k fs d ≡ done b fs' d'
    → (a : A) × (fs1 : Faults) × (d1 : Store) × (m fs d ≡ done a fs1 d1)
      × (k a fs1 d1 ≡ done b fs' d')
unfolding ◌>>=◌
>>=-done m k fs d b fs' d' h = continue-done (m fs d) k b fs' d' h

pub Steady->>= {ℓ κ} :
    {A : Type ℓ} {B : Type κ} (m : Sql A) (k : A → Sql B)
    → Steady m
    → ((a : A) → Steady (k a))
    → Steady (m >>= k)
unfolding ◌>>=◌
Steady->>= m k hm hk = record {
  calm = λ fs d b fs' d' h.
      let (a, fs1, d1, e1, e2) = continue-done (m fs d) k b fs' d' h in
      rw (hm.calm fs d a fs1 d1 e1) ((hk a).calm fs1 d1 b fs' d' e2);
}

pub Steady->> {ℓ} :
    {B : Type ℓ} (m : Sql (Unit {0})) (k : Sql B) → Steady m → Steady k → Steady (m >> k)
unfolding ◌>>◌
Steady->> m k hm hk = Steady->>= m (λ _. k) hm (λ _. hk)

-- Inversion of a sequence that returns with no fault in sight.
pub continue-calm {ℓ κ} :
    {A : Type ℓ} {B : Type κ} (m : Sql A) (k : A → Sql B) (d : Store) (b : B) (d' : Store)
    → Steady m
    → ((a : A) → Steady (k a))
    → continue (m [] d) k ≡ done b [] d'
    → (a : A) × (d1 : Store) × (m [] d ≡ done a [] d1) × (k a [] d1 ≡ done b [] d')
continue-calm m k d b d' hm hk h =
    let (a, fs1, d1, e1, e2) = continue-done (m [] d) k b [] d' h in
    (a, d1, hm.calm [] d a fs1 d1 e1, (hk a).calm fs1 d1 b [] d' e2)

pub Steady-return {ℓ} : {A : Type ℓ} (a : A) → Steady (return a)
unfolding return
Steady-return a = record { calm = λ fs d b fs' d' h. cc }

pub Steady-skip : Steady skip
unfolding skip
Steady-skip = record { calm = λ fs d b fs' d' h. cc }

pub Steady-raise {ℓ} : {A : Type ℓ} (e : String) → Steady (raise {A = A} e)
unfolding raise
Steady-raise e = record { calm = λ fs d b fs' d' h. cc }

deliver-calm {ℓ} :
    {A : Type ℓ} (r : Reply A) (fs : Faults) (d : Store) (a : A) (fs' : Faults) (d' : Store)
    → deliver r fs d ≡ done a fs' d'
    → deliver r [] d ≡ done a [] d'
deliver-calm (reply x y) fs d a fs' d' h = cc
deliver-calm (refused e) fs d a fs' d' h = cc

attempt-calm {ℓ} :
    {A : Type ℓ} (q : Store → Reply A) (fs : Faults) (d : Store) (a : A) (fs' : Faults) (d' : Store)
    → attempt q fs d ≡ done a fs' d'
    → attempt q [] d ≡ done a [] d'
attempt-calm q [] d a fs' d' h = deliver-calm (q d) [] d a fs' d' h
attempt-calm q (none ∷ fs) d a fs' d' h = deliver-calm (q d) fs d a fs' d' h
attempt-calm q (some e ∷ fs) d a fs' d' h = cc

gate_calm {ℓ} :
    {A : Type ℓ} (b : Bool) (q : Store → Reply A) (fs : Faults) (d : Store) (a : A) (fs' : Faults)
    (d' : Store)
    → (if b then attempt q fs d else thrown "db closed" fs d) ≡ done a fs' d'
    → (if b then attempt q [] d else thrown "db closed" [] d) ≡ done a [] d'
gate_calm true q fs d a fs' d' h = attempt-calm q fs d a fs' d' h
gate_calm false q fs d a fs' d' h = cc

pub Steady-statement {ℓ} : {A : Type ℓ} (q : Store → Reply A) → Steady (statement q)
unfolding statement
Steady-statement q = record { calm = λ fs d a fs' d' h. gate_calm d.is_open q fs d a fs' d' h }

pub Steady-select {ℓ} : {A : Type ℓ} (q : Store → A) → Steady (select q)
unfolding select
Steady-select q = Steady-statement (λ d. reply (q d) d)

pub Steady-change : (f : Store → Store) → Steady (change f)
unfolding change
Steady-change f = Steady-statement (λ d. reply tt (f d))

pub Steady-change_counted : (n : Store → ℕ) (f : Store → Store) → Steady (change_counted n f)
unfolding change_counted
Steady-change_counted n f = Steady-statement (λ d. reply (n d) (f d))

Steady-control : Steady control
unfolding control
Steady-control = Steady-change (λ d. d)

pub Steady-if {ℓ} :
    {A : Type ℓ} (c : Bool) (m n : Sql A) → Steady m → Steady n → Steady (if c then m else n)
Steady-if true m n hm hn = hm
Steady-if false m n hm hn = hn

roll_back-done {ℓ} :
    {A : Type ℓ} (o : Outcome A) (d : Store) (a : A) (fs' : Faults) (d' : Store)
    → roll_back d o ≡ done a fs' d'
    → o ≡ done a fs' d'
roll_back-done (done x f y) d a fs' d' h = h
roll_back-done (thrown e f y) d a fs' d' h = cc

pub Steady-transaction {ℓ} : {A : Type ℓ} (m : Sql A) → Steady m → Steady (transaction m)
unfolding transaction bracket
Steady-transaction m hm = record {
  calm =
      λ fs d a fs' d' h. rw (all.calm fs d a fs' d' (roll_back-done (bracket m fs d) d a fs' d' h));
}
  where
    all : Steady (bracket m)
    all =
        Steady->> control _ Steady-control
          (Steady->>= m _ hm (λ a. Steady->> control _ Steady-control (Steady-return a)))

-- Inversion of a statement that returns.
pub statement-done {ℓ} :
    {A : Type ℓ} (q : Store → Reply A) (fs : Faults) (d : Store) (a : A) (fs' : Faults) (d' : Store)
    → statement q fs d ≡ done a fs' d'
    → (d.is_open ≡ true) × (q d ≡ reply a d')
unfolding statement
statement-done q fs d a fs' d' h =
    let calm = (Steady-statement q).calm fs d a fs' d' h in ground arith

control-done :
    (fs : Faults) (d : Store) (a : Unit {0}) (fs' : Faults) (d' : Store)
    → control fs d ≡ done a fs' d'
    → d' ≡ d
unfolding control
control-done fs d a fs' d' h = cc (statement-done (λ d. reply tt d) fs d a fs' d' h).1

-- What a transaction that returns has done is what its body does when nothing fails.
pub transaction-calm {ℓ} :
    {A : Type ℓ} (m : Sql A) (fs : Faults) (d : Store) (a : A) (fs' : Faults) (d' : Store)
    → Steady m
    → transaction m fs d ≡ done a fs' d'
    → m [] d ≡ done a [] d'
unfolding transaction bracket
transaction-calm m fs d a fs' d' hm h =
    let (u, f1, d1, e1, k1) =
      continue-done (control fs d) _ a fs' d' (roll_back-done (bracket m fs d) d a fs' d' h) in
    let (b, f2, d2, e2, k2) = continue-done (m f1 d1) _ a fs' d' k1 in
    let (v, f3, d3, e3, k3) = continue-done (control f2 d2) _ a fs' d' k2 in
    let before : d1 ≡ d = control-done fs d u f1 d1 e1 in
    let after : d3 ≡ d2 = control-done f2 d2 v f3 d3 e3 in
    let body : m [] d1 ≡ done b [] d2 = hm.calm f1 d1 b f2 d2 e2 in rw (← before) (body ∙ cc)

pub ruleset steady = (
  Steady->>=, Steady->>, Steady-return, Steady-skip, Steady-raise, Steady-statement, Steady-select,
  Steady-change, Steady-change_counted, Steady-if, Steady-transaction,
)
