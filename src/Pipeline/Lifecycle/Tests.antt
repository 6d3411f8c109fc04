-- ===== src/Pipeline/Lifecycle/Tests.antt =====
-- A restart on a concrete outbox.
use mod_event_kafka.Common.{refl, true, none, List, [], ◌∷◌, is_empty}
use mod_event_kafka.Pipeline.Tests.{clock, pipeline, sent}
use mod_event_kafka.Pipeline.System.Tests.{kafka, start as begin, day, asks}
use mod_event_kafka.Pipeline.Producer.{create_result, settings, set_all, security_protocol_of}
use mod_event_kafka.Outbox.Opening.{handle_of}
use mod_event_kafka.Outbox.History.Validity.{empty-IsValid}
use mod_event_kafka.Outbox.Fifo.Queue.{empty-Contiguous}
use mod_event_kafka.Pipeline.System.Sent.{Sends}
use mod_event_kafka.Pipeline.Lifecycle.Lifetimes.{
  Fair-config, Lifetime, live_all, sent_live, live_all-Sends,
}
use mod_event_kafka.Pipeline.Lifecycle.{Instance, Startup, start}
use mod_event_kafka.Pipeline.Lifecycle.Restart.{Fair}

abbrev startup : Startup
startup = record {
  host = record { lock_granted = true; file_opens = true };
  opening_faults = [];
  faults = [];
  clock = clock;
  kafka = kafka;
}

abbrev running_instance : Instance
running_instance = record { pipeline = pipeline; file = handle_of sent; worker = none }

fair : Fair startup pipeline
unfolding create_result settings set_all security_protocol_of is_empty
fair = record { lock = refl; file = refl; opening = refl; calls = refl; producer = refl }

-- Two processes, one after the other, over the same file.
abbrev lives : List Lifetime
lives =
    record { actions = day; startup = startup } ∷ record { actions = day; startup = startup } ∷ []

granted : Fair startup begin.pipeline
granted = Fair-config startup pipeline begin.pipeline refl fair

live_all-Sends_example : Sends "cdr" "c1" (sent_live lives begin) begin (live_all lives begin)
unfolding is_empty
live_all-Sends_example =
    live_all-Sends "cdr" "c1" refl lives begin ((asks, granted), ((asks, granted), tt))
      (record { opened = refl; unretired = tt }) refl (empty-IsValid 10 1000)
      (empty-Contiguous "cdr" "c1" 10 1000) tt
