-- ===== src/Tests/Polling.antt =====
-- apps/worker/main.py: a stream of two events, of which the second fails.
use taboot.Prelude.{
  ℕ, Text, codes, ◌≡◌, refl, Option, none, some, List, [], ◌∷◌, map, length, ◌==◌, if◌then◌else◌,
}
use taboot.Python.{Kind, Exn, Outcome, ok, raised, Exec}
use taboot.Worker.Polling.{EventConsumer, ExtractionWorker, process_stream_events}
use taboot.Worker.Polling.Acknowledged.{extract_each, process_stream_events_acks}

abbrev broken : Exn
broken = record { kind = Kind.runtime_error; message = codes "broken" }

abbrev events : List (Text × ℕ)
events = (codes "1-0", 1) ∷ (codes "2-0", 2) ∷ []

-- The state is the log of what was done.
abbrev execute : ℕ → Exec (List ℕ) (Unit {0})
execute i log = (if i == 2 then raised broken else ok tt, i ∷ log)

abbrev consumer : EventConsumer (List ℕ)
consumer = record { read = λ log. (ok events, log); ack = λ ids log. (ok tt, length ids ∷ log) }

abbrev worker : ExtractionWorker (List ℕ)
worker = record {
  blpop = λ log. (ok none, log);
  extract_use_case = some execute;
  event_consumer = some consumer;
}

abbrev loads : Text → Outcome (Option Text)
loads t = ok (some t)

abbrev parse_uuid : Text → Outcome ℕ
parse_uuid t = ok (length t)

process_stream_events_acks_example :
    process_stream_events loads parse_uuid worker events []
    ≡ consumer.ack
        (map (λ e. e.0) events)
        (extract_each loads parse_uuid worker execute refl events [])
process_stream_events_acks_example =
    process_stream_events_acks loads parse_uuid worker execute refl consumer refl events []
