-- ===== src/Outbox/Opening/Refusal.antt =====
-- What a refused open leaves: the data of the file as they were.
use mod_event_kafka.Common.{
  String, ◌≡◌, refl, if_cases, Bool, true, false, not, ◌&&◌, ◌⊎◌, inl, inr, Option, none, some, [],
  ◌∷◌,
}
use mod_event_kafka.Outbox.Engine.{Faults}
use mod_event_kafka.Outbox.Database.{
  Database, Result, finished, broke, Db, follow, ◌>>=◌, ◌>>◌, give, constrained, execute, query,
  refuse_if,
}
use mod_event_kafka.Outbox.Opening.{
  undo, read_columns, check_legacy, in_transaction, write_ahead_log, open_database, is_newer,
  Handle, Host, close_outbox, conclude_open, open_outbox,
}

-- The file is as it was, but that its journal mode may have become WAL.
abbrev pub SameData : Database → Database → Type 0
SameData f f' = (f' ≡ f) ⊎ (f' ≡ record f { write_ahead = true })

-- A step that leaves the file as it was, or does so at least if it throws.
abbrev Still {ℓ} : {A : Type ℓ} → Database → Result A → Type 0
Still f (finished a fs f') = f' ≡ f
Still f (broke e fs f') = f' ≡ f

abbrev Undone {ℓ} : {A : Type ℓ} → Database → Result A → Type 0
Undone f (finished a fs f') = Unit
Undone f (broke e fs f') = SameData f f'

record Reads {ℓ} {A : Type ℓ} (m : Db A) : Type ℓ where
  read : (fs : Faults) (f : Database) → Still f (m fs f)

record Undoes {ℓ} {A : Type ℓ} (m : Db A) : Type ℓ where
  undone : (fs : Faults) (f : Database) → Undone f (m fs f)

follow-Still {ℓ κ} :
    {A : Type ℓ} {B : Type κ} (f : Database) (o : Result A) (k : A → Db B)
    → Still f o
    → ((a : A) → Reads (k a))
    → Still f (follow o k)
follow-Still f (finished a fs f') k h hk = rw⁻¹ h ((hk a).read fs f')
follow-Still f (broke e fs f') k h hk = h

follow-Undone {ℓ κ} :
    {A : Type ℓ} {B : Type κ} (f : Database) (o : Result A) (k : A → Db B)
    → Still f o
    → ((a : A) → Undoes (k a))
    → Undone f (follow o k)
follow-Undone f (finished a fs f') k h hk = rw⁻¹ h ((hk a).undone fs f')
follow-Undone f (broke e fs f') k h hk = inl h

Reads->>= {ℓ κ} :
    {A : Type ℓ} {B : Type κ} (m : Db A) (k : A → Db B)
    → Reads m
    → ((a : A) → Reads (k a))
    → Reads (m >>= k)
unfolding ◌>>=◌
Reads->>= m k h hk = record { read = λ fs f. follow-Still f (m fs f) k (h.read fs f) hk }

Undoes->>= {ℓ κ} :
    {A : Type ℓ} {B : Type κ} (m : Db A) (k : A → Db B)
    → Reads m
    → ((a : A) → Undoes (k a))
    → Undoes (m >>= k)
unfolding ◌>>=◌
Undoes->>= m k h hk = record { undone = λ fs f. follow-Undone f (m fs f) k (h.read fs f) hk }

Undoes->> {ℓ} : {B : Type ℓ} (m : Db (Unit {0})) (k : Db B) → Reads m → Undoes k → Undoes (m >> k)
unfolding ◌>>◌
Undoes->> m k h hk = Undoes->>= m (λ _. k) h (λ _. hk)

Reads-nothing : Reads (execute (λ f. f))
unfolding execute constrained
Reads-nothing = record { read = nothing }
  where
    nothing : (fs : Faults) (f : Database) → Still f (execute (λ f. f) fs f)
    nothing [] f = refl
    nothing (none ∷ fs) f = refl
    nothing (some e ∷ fs) f = refl

Reads-query {ℓ} : {A : Type ℓ} (g : Database → A) → Reads (query g)
unfolding query ◌>>◌
Reads-query g = Reads->>= (execute (λ f. f)) _ Reads-nothing (λ _. record { read = λ fs f. refl })

Reads-refuse_if : (b : Bool) (e : String) → Reads (refuse_if b e)
unfolding refuse_if
Reads-refuse_if b e = record {
  read = λ fs f. if_cases {A = Result (Unit {0})} (Still f) b (λ _. refl) (λ _. refl);
}

Reads-give {ℓ} : {A : Type ℓ} (a : A) → Reads (give a)
unfolding give
Reads-give a = record { read = λ fs f. refl }

Reads-read_columns : (b : Bool) → Reads (read_columns b)
unfolding read_columns
Reads-read_columns b = if_cases Reads b (λ _. Reads-query _) (λ _. Reads-give _)

Reads-check_legacy : (b c : Bool) → Reads (check_legacy b c)
unfolding check_legacy
Reads-check_legacy b c =
    if_cases Reads (b && not c) (λ _. Reads->>= _ _ (Reads-query _) (λ n. Reads-refuse_if _ _))
      (λ _. Reads-give tt)

undo-Undone : (f : Database) (o : Result (Unit {0})) → Undone f (undo f o)
undo-Undone f (finished a fs f') = tt
undo-Undone f (broke e fs f') = inl refl

Undoes-in_transaction : (body : Db (Unit {0})) → Undoes (in_transaction body)
unfolding in_transaction
Undoes-in_transaction body = record { undone = λ fs f. undo-Undone f _ }

-- A transaction after the change of the journal mode.
logged-Undone : (f : Database) (o : Result (Unit {0})) → Undone (write_ahead_log f) o → Undone f o
logged-Undone f (finished a fs f') h = tt
logged-Undone f (broke e fs f') (inl h) = inr h
logged-Undone f (broke e fs f') (inr h) = inr h

Undoes-logged : (m : Db (Unit {0})) → Undoes m → Undoes (execute write_ahead_log >> m)
unfolding execute constrained ◌>>=◌ ◌>>◌
Undoes-logged m h = record { undone = logged }
  where
    logged : (fs : Faults) (f : Database) → Undone f ((execute write_ahead_log >> m) fs f)
    logged [] f = logged-Undone f _ (h.undone [] (write_ahead_log f))
    logged (none ∷ fs) f = logged-Undone f _ (h.undone fs (write_ahead_log f))
    logged (some e ∷ fs) f = inl refl

Undoes-open_database : Undoes open_database
unfolding open_database
Undoes-open_database = Undoes->>= _ _ (Reads-query (λ f. f.has_table)) (λ has_table.
    Undoes->>= _ _ (Reads-read_columns has_table) (λ columns.
      Undoes->> _ _ (Reads-check_legacy has_table columns.0) (
        Undoes->>= _ _ (Reads-query (λ f. f.user_version)) (λ version.
          Undoes->> _ _ (Reads-refuse_if (is_newer version) _)
            (Undoes-logged _ (Undoes->> _ _ Reads-nothing (Undoes-in_transaction _)))))))

-- What a refusal leaves.
abbrev pub Refused : Database → Option String × Handle → Type 0
Refused f (none, h) = Unit
Refused f (some e, h) = SameData f h.database × (h.is_open ≡ false) × (h.holds_lock ≡ false)

conclude_open-Refused :
    (h : Handle) (o : Result (Unit {0}))
    → Undone h.database o
    → Refused h.database (conclude_open h o)
unfolding close_outbox
conclude_open-Refused h (finished a fs f) u = tt
conclude_open-Refused h (broke e fs f) u = (u, refl, refl)

-- If open returns false, at whatever check or statement, the database file is as it was, in its
-- schema, its version and all its tables, but that its journal mode may have become WAL; and the
-- outbox is closed and holds no lock.
pub open_outbox-Refused :
    (host : Host) (fs : Faults) (h : Handle) → Refused h.database (open_outbox host fs h)
unfolding open_outbox close_outbox
open_outbox-Refused host fs h =
    if_cases (Refused h.database) h.is_open (λ _. tt)
      (λ _.
        if_cases (Refused h.database) (not host.lock_granted) (λ _. (inl refl, refl, refl))
          (λ _.
            if_cases (Refused h.database) (not host.file_opens) (λ _. (inl refl, refl, refl))
              (λ _.
                conclude_open-Refused h (open_database fs h.database)
                  (Undoes-open_database.undone fs h.database))))
