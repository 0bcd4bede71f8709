-- ===== src/Worker/Polling/Acknowledged.antt =====
-- What a poll does with the events that it reads, and that it never raises.
use taboot.Prelude.{
  ℕ, Text, ◌≡◌, refl, ◌∙◌, Option, some, List, [], ◌∷◌, ◌++◌, map, append-nil, append_assoc,
}
use taboot.Python.{Outcome, ok, raised, Exec, pure, try_else, settle, ◌>>=◌, ◌>>◌}
use taboot.Worker.Polling.{
  ExtractionWorker, EventConsumer, process_event, process_events, process_stream_events, poll_once,
}

module _ {S : Type 0} (loads : Text → Outcome (Option Text)) (parse_uuid : Text → Outcome ℕ)
    (worker : ExtractionWorker S) (execute : ℕ → Exec S (Unit {0}))
    (works : worker.extract_use_case ≡ some execute) where
  -- The use case on each event's document in turn, whether it raises or not.
  abbrev pub extract_each : List (Text × ℕ) → S → S
  extract_each [] s = s
  extract_each ((message_id, doc_id) ∷ events) s = extract_each events (execute doc_id s).1

  swallowed : (r : Outcome (Unit {0}) × S) → settle r pure (λ e. pure tt) ≡ (ok tt, r.1)
  swallowed (ok a, s) = refl
  swallowed (raised e, s) = refl

  process_event_runs :
      (doc_id : ℕ) (s : S)
      → process_event loads parse_uuid worker doc_id s ≡ (ok tt, (execute doc_id s).1)
  unfolding process_event try_else
  process_event_runs doc_id s = rw works (swallowed (execute doc_id s))

  process_events_runs :
      (events : List (Text × ℕ)) (ids : List Text) (s : S)
      → process_events loads parse_uuid worker events ids s
        ≡ (ok (ids ++ map (λ e. e.0) events), extract_each events s)
  unfolding process_events ◌>>◌
  process_events_runs [] ids s = rw append-nil refl
  process_events_runs ((m, i) ∷ events) ids s =
      rw (process_event_runs i s)
        (process_events_runs events (ids ++ m ∷ []) (execute i s).1 ∙ simp (append_assoc))

  -- The worker that has a use case and reads a stream runs the use case on the document of each
  -- event, in order, and then acknowledges all of them at once, those whose extraction raised
  -- included.
  pub process_stream_events_acks :
      (consumer : EventConsumer S)
      → worker.event_consumer ≡ some consumer
      → (events : List (Text × ℕ)) (s : S)
      → process_stream_events loads parse_uuid worker events s
        ≡ consumer.ack (map (λ e. e.0) events) (extract_each events s)
  unfolding process_stream_events ◌>>=◌
  process_stream_events_acks consumer reads events s =
      rw (process_events_runs events [] s, reads) refl

returns :
    {S : Type 0} (r : Outcome (Unit {0}) × S)
    → (t : S) × (settle r pure (λ e. pure tt) ≡ (ok tt, t))
returns (ok a, s) = (s, refl)
returns (raised e, s) = (s, refl)

-- A poll returns, whatever Redis, the parsers and the use case raise.
pub poll_once_returns :
    {S : Type 0} (loads : Text → Outcome (Option Text)) (parse_uuid : Text → Outcome ℕ)
    (worker : ExtractionWorker S) (s : S)
    → (t : S) × (poll_once loads parse_uuid worker s ≡ (ok tt, t))
unfolding poll_once try_else
poll_once_returns loads parse_uuid worker s = returns _
