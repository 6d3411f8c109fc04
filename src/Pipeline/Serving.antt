-- ===== src/Pipeline/Serving.antt =====
-- Every call that the worker and its callbacks make of the outbox serves events: none admits any.
use mod_event_kafka.Common.{
  ℕ, String, ◌≡◌, refl, ◌∙◌, Bool, true, false, Option, none, some, if◌then◌else◌, if_cases, ℤ,
}
use mod_event_kafka.Outbox.Schema.{Store, OutboxRecord}
use mod_event_kafka.Outbox.Engine.{Faults, Outcome, done, thrown, Sql, store_of}
use mod_event_kafka.Outbox.Reach.{Reaches, stays, Reaches-trans, Calling, Serving}
use mod_event_kafka.Outbox.Reach.Clients.{
  Calling->>=, Calling-return, Calling-if, Calling-get, Calling-mark_acked, Calling-mark_retry,
  Calling-mark_dead,
}
use mod_event_kafka.Outbox.History.{Call, retries, kills}
use mod_event_kafka.Outbox.Transitions.{mark_acked, mark_retry, mark_dead}
use mod_event_kafka.Outbox.Queries.{get}
use mod_event_kafka.Pipeline.Failure.{
  Report, ok, failed, caught, reported, SendFailureResult, to_retry, to_dead, not_settled, Clock,
  give_up, try_again, settle_current, settle_send_failure,
}
use mod_event_kafka.Pipeline.State.{
  KafkaPipeline, Step, returned, escaped, Act, proceed, ◌>>=◌, ◌>>◌, return, modify, observe,
  on_outbox, with_outbox,
}
use mod_event_kafka.Pipeline.Calls.{
  RespErr, is_error, note_failure, count_settled, is_settled, is_permanent_error, count_acked,
  conclude_ack, failed_delivery, acked_delivery, halt, report_delivery, on_delivery,
}

module _ (P : Call → Type 0) where
  caught-reach {ℓ} :
      {A : Type ℓ} (o : Outcome A) (d : Store)
      → Reaches P d (store_of o)
      → Reaches P d (store_of (caught o))
  caught-reach (done a fs d1) d h = h
  caught-reach (thrown e fs d1) d h = h

  pub Calling-reported {ℓ} : {A : Type ℓ} (m : Sql A) → Calling P m → Calling P (reported m)
  unfolding reported
  Calling-reported m h = record { reach = λ fs d. caught-reach (m fs d) d (h.reach fs d) }

  module _
      (retried : (now : ℕ) (id : String) (next : ℕ) (error : String)
        → P (retries now id next error))
      (killed : (now : ℕ) (id error : String) → P (kills now id error)) where
    Calling-settle_current :
        (max_attempts : ℤ) (id error : String) (permanent : Bool) (clock : Clock)
        (o : Option OutboxRecord)
        → Calling P (settle_current max_attempts id error permanent clock o)
    unfolding settle_current give_up try_again
    Calling-settle_current max_attempts id error permanent clock none = Calling-return P _
    Calling-settle_current max_attempts id error permanent clock (some cur) =
        Calling-if P _ _ _ (Calling-return P _) (
          Calling-if P _ _ _
            (Calling->>= P (reported (mark_dead clock.update id error)) _
              (Calling-reported _ (Calling-mark_dead P clock.update id error (killed _ _ _)))
              (λ r. Calling-return P _))
            (Calling->>= P (reported (mark_retry clock.update id _ error)) _
              (Calling-reported _ (Calling-mark_retry P clock.update id _ error (retried _ _ _ _)))
              (λ r. Calling-return P _)))

    -- A settlement only retries or kills.
    pub Calling-settle_send_failure :
        (max_attempts : ℤ) (id error : String) (permanent : Bool) (clock : Clock)
        → Calling P (settle_send_failure max_attempts id error permanent clock)
    unfolding settle_send_failure
    Calling-settle_send_failure max_attempts id error permanent clock =
        Calling->>= P (get id) _ (Calling-get P id)
          (λ cur. Calling-settle_current max_attempts id error permanent clock cur)

abbrev pub pipeline_of {ℓ} : {A : Type ℓ} → Step A → KafkaPipeline
pipeline_of (returned a fs p) = p
pipeline_of (escaped e fs p) = p

-- What such calls lead to, under the same configuration; a pipeline that has stopped stays so, and
-- librdkafka has accepted something only if `sends` says that it may.
pub record Served (sends : Bool) (p p' : KafkaPipeline) : Type 0 where
  pub calls : Reaches Serving p.outbox p'.outbox
  pub config : p'.cfg ≡ p.cfg
  pub stopped : p.running ≡ false → p'.running ≡ false
  pub unsent : sends ≡ false → p'.produced ≡ p.produced

-- The same outbox and the same configuration, no start, and nothing sent.
abbrev pub Untouched : KafkaPipeline → KafkaPipeline → Type 0
Untouched p p' =
    (p'.outbox ≡ p.outbox)
    × (p'.cfg ≡ p.cfg)
    × (p.running ≡ false → p'.running ≡ false)
    × (p'.produced ≡ p.produced)

-- A part of the pipeline that calls the outbox only so, whether it returns or throws.
pub record Serves {ℓ} (sends : Bool) {A : Type ℓ} (m : Act A) : Type ℓ where
  pub serving : (fs : Faults) (p : KafkaPipeline) → Served sends p (pipeline_of (m fs p))

count_settled-Untouched :
    (r : SendFailureResult) (p : KafkaPipeline) → Untouched p (count_settled r p)
count_settled-Untouched to_retry p = (refl, refl, (λ e. e), refl)
count_settled-Untouched to_dead p = (refl, refl, (λ e. e), refl)
count_settled-Untouched (not_settled e) p = (refl, refl, (λ e. e), refl)

module _ {sends : Bool} where
  pub Served-self : (p : KafkaPipeline) → Served sends p p
  Served-self p = record { calls = stays; config = refl; stopped = λ e. e; unsent = λ e. refl }

  pub Served-trans :
      (p q r : KafkaPipeline) → Served sends p q → Served sends q r → Served sends p r
  Served-trans p q r h k = record {
    calls = Reaches-trans Serving h.calls k.calls;
    config = k.config ∙ h.config;
    stopped = λ e. k.stopped (h.stopped e);
    unsent = λ e. k.unsent e ∙ h.unsent e;
  }

  pub Untouched-Served : (p p' : KafkaPipeline) → Untouched p p' → Served sends p p'
  Untouched-Served p p' (e, c, h, k) = record {
    calls = rw e stays;
    config = c;
    stopped = h;
    unsent = λ _. k;
  }

  proceed-Served {ℓ κ} :
      {A : Type ℓ} {B : Type κ} (o : Step A) (k : A → Act B) (q : KafkaPipeline)
      → Served sends q (pipeline_of o)
      → ((a : A) → Serves sends (k a))
      → Served sends q (pipeline_of (proceed o k))
  proceed-Served (returned a fs p) k q h hk = Served-trans q p _ h ((hk a).serving fs p)
  proceed-Served (escaped e fs p) k q h hk = h

  pub Serves->>= {ℓ κ} :
      {A : Type ℓ} {B : Type κ} (m : Act A) (k : A → Act B)
      → Serves sends m
      → ((a : A) → Serves sends (k a))
      → Serves sends (m >>= k)
  unfolding ◌>>=◌
  Serves->>= m k hm hk = record {
    serving = λ fs p. proceed-Served (m fs p) k p (hm.serving fs p) hk;
  }

  pub Serves->> {ℓ} :
      {B : Type ℓ} (m : Act (Unit {0})) (k : Act B)
      → Serves sends m
      → Serves sends k
      → Serves sends (m >> k)
  unfolding ◌>>◌
  Serves->> m k hm hk = Serves->>= m (λ _. k) hm (λ _. hk)

  pub Serves-return {ℓ} : {A : Type ℓ} (a : A) → Serves sends (return a)
  unfolding return
  Serves-return a = record { serving = λ fs p. Served-self p }

  pub Serves-observe {ℓ} : {A : Type ℓ} (f : KafkaPipeline → A) → Serves sends (observe f)
  unfolding observe
  Serves-observe f = record { serving = λ fs p. Served-self p }

  pub Serves-modify :
      (f : KafkaPipeline → KafkaPipeline)
      → ((p : KafkaPipeline) → Untouched p (f p))
      → Serves sends (modify f)
  unfolding modify
  Serves-modify f h = record { serving = λ fs p. Untouched-Served p (f p) (h p) }

  with_outbox-Served {ℓ} :
      {A : Type ℓ} (p : KafkaPipeline) (o : Outcome A)
      → Reaches Serving p.outbox (store_of o)
      → Served sends p (pipeline_of (with_outbox p o))
  with_outbox-Served p (done a fs d) h = record {
    calls = h;
    config = refl;
    stopped = λ e. e;
    unsent = λ e. refl;
  }
  with_outbox-Served p (thrown e fs d) h = record {
    calls = h;
    config = refl;
    stopped = λ e. e;
    unsent = λ e. refl;
  }

  pub Serves-on_outbox {ℓ} :
      {A : Type ℓ} (m : KafkaPipeline → Sql A)
      → ((p : KafkaPipeline) → Calling Serving (m p))
      → Serves sends (on_outbox m)
  unfolding on_outbox
  Serves-on_outbox m h = record {
    serving = λ fs p. with_outbox-Served p (m p fs p.outbox) ((h p).reach fs p.outbox);
  }

  pub Serves-if {ℓ} :
      {A : Type ℓ} (b : Bool) (m n : Act A)
      → Serves sends m
      → Serves sends n
      → Serves sends (if b then m else n)
  Serves-if true m n hm hn = hm
  Serves-if false m n hm hn = hn

  -- A choice that the state makes.
  pub Serves-choice {ℓ} :
      {A : Type ℓ} (b : KafkaPipeline → Bool) (m n : Act A)
      → Serves sends m
      → Serves sends n
      → Serves sends (λ fs p. if b p then m fs p else n fs p)
  Serves-choice {A} b m n hm hn = record {
    serving = λ fs p.
        if_cases {A = Step A} (λ o. Served sends p (pipeline_of o)) (b p) (λ e. hm.serving fs p)
          (λ e. hn.serving fs p);
  }

  Serves-conclude_ack : (r : Report (Unit {0})) → Serves sends (conclude_ack r)
  unfolding conclude_ack
  Serves-conclude_ack (ok u) =
      Serves->> (modify count_acked) _
        (Serves-modify count_acked (λ p. (refl, refl, (λ e. e), refl))) (Serves-return true)
  Serves-conclude_ack (failed e) = Serves-return false

  Serves-failed_delivery :
      (err2str : RespErr → String) (e : RespErr) (clock : Clock) (id : String)
      → Serves sends (failed_delivery err2str e clock id)
  unfolding failed_delivery
  Serves-failed_delivery err2str e clock id =
      Serves->> _ _ (Serves-modify (note_failure e) (λ p. (refl, refl, (λ e. e), refl))) (
        Serves->>= _ _
          (Serves-on_outbox _ (λ p.
            Calling-settle_send_failure Serving (λ _ _ _ _. tt) (λ _ _ _. tt)
              p.cfg.max_attempts_before_dead id (err2str e) (is_permanent_error e) clock))
          (λ r.
            Serves->> _ _ (Serves-modify (count_settled r) (count_settled-Untouched r))
              (Serves-return (is_settled r))))

  Serves-acked_delivery : (now : ℕ) (id : String) → Serves sends (acked_delivery now id)
  unfolding acked_delivery
  Serves-acked_delivery now id =
      Serves->>= _ _
        (Serves-on_outbox _
          (λ p. Calling-reported Serving (mark_acked now id) (Calling-mark_acked now id)))
        Serves-conclude_ack

  Serves-report_delivery :
      (err2str : RespErr → String) (e : RespErr) (clock : Clock) (id : String)
      → Serves sends (report_delivery err2str e clock id)
  unfolding report_delivery
  Serves-report_delivery err2str e clock id =
      Serves->>= _ _
        (Serves-if (is_error e) _ _ (Serves-failed_delivery err2str e clock id)
          (Serves-acked_delivery clock.update id))
        (λ sure.
          Serves-if sure _ _ (Serves-return tt)
            (Serves-modify halt (λ p. (refl, refl, (λ e. refl), refl))))

  pub Serves-on_delivery :
      (err2str : RespErr → String) (e : RespErr) (clock : Clock) (o : Option String)
      → Serves sends (on_delivery err2str e clock o)
  unfolding on_delivery
  Serves-on_delivery err2str e clock none = Serves-return tt
  Serves-on_delivery err2str e clock (some id) = Serves-report_delivery err2str e clock id
