-- ===== src/Worker/Polling.antt =====
-- apps/worker/main.py: `ExtractionWorker.poll_once` and `_process_stream_events`. Redis, its
-- streams, JSON and the parsing of a UUID are parameters. `S` is what they and the use case change.
pub mod Acknowledged
use taboot.Prelude.{ℕ, Text, Option, none, some, List, [], ◌∷◌, ◌++◌, is_empty, if◌then◌else◌}
use taboot.Python.{
  Outcome, ok, raised, Exec, pure, raise, lift, try_except, is_value_error, ◌>>=◌, ◌>>◌,
}

-- `RedisDocumentEventConsumer`: an event has its message's id and the document's.
pub record EventConsumer (S : Type 0) : Type 0 where
  pub read : Exec S (List (Text × ℕ))
  pub ack : List Text → Exec S (Unit {0})

pub record ExtractionWorker (S : Type 0) : Type 0 where
  -- BLPOP of the queue, with its timeout
  pub blpop : Exec S (Option Text)
  pub extract_use_case : Option (ℕ → Exec S (Unit {0}))
  pub event_consumer : Option (EventConsumer S)

-- `loads` is `json.loads(job_data).get("doc_id")`, `parse_uuid` is `UUID(doc_id)`.
module _ {S : Type 0} (loads : Text → Outcome (Option Text)) (parse_uuid : Text → Outcome ℕ)
    (worker : ExtractionWorker S) where
  abbrev extract_with : Option (ℕ → Exec S (Unit {0})) → ℕ → Exec S (Unit {0})
  extract_with none doc_id = pure tt
  extract_with (some use_case) doc_id = use_case doc_id

  -- The body of the loop over events.
  pub process_event : ℕ → Exec S (Unit {0})
  process_event doc_id = try_except (extract_with worker.extract_use_case doc_id) (λ e. pure tt)

  pub process_events : List (Text × ℕ) → List Text → Exec S (List Text)
  process_events [] ack_ids = pure ack_ids
  process_events ((message_id, doc_id) ∷ events) ack_ids =
      process_event doc_id >> process_events events (ack_ids ++ message_id ∷ [])

  abbrev ack_with : Option (EventConsumer S) → List Text → Exec S (Unit {0})
  ack_with none ack_ids = pure tt
  ack_with (some consumer) ack_ids = consumer.ack ack_ids

  pub process_stream_events : List (Text × ℕ) → Exec S (Unit {0})
  process_stream_events events = process_events events [] >>= ack_with worker.event_consumer

  abbrev extract_parsed : Outcome ℕ → Exec S (Unit {0})
  extract_parsed (ok uuid) = extract_with worker.extract_use_case uuid
  extract_parsed (raised e) = if is_value_error e.kind then pure tt else raise e

  abbrev extract_named : Option Text → Exec S (Unit {0})
  extract_named none = pure tt
  extract_named (some doc_id) =
      if is_empty doc_id then pure tt else extract_parsed (parse_uuid doc_id)

  -- A job of the queue; an exception of any class ends it alone.
  pub process_job : Text → Exec S (Unit {0})
  process_job job_data = try_except (lift (loads job_data) >>= extract_named) (λ e. pure tt)

  abbrev process_result : Option Text → Exec S (Unit {0})
  process_result none = pure tt
  process_result (some job_data) = process_job job_data

  abbrev poll_queue : Exec S (Unit {0})
  poll_queue = worker.blpop >>= process_result

  abbrev poll : Option (EventConsumer S) → Exec S (Unit {0})
  poll none = poll_queue
  poll (some consumer) = do
    events ← consumer.read
    if is_empty events then poll_queue else process_stream_events events

  pub poll_once : Exec S (Unit {0})
  poll_once = try_except (poll worker.event_consumer) (λ e. pure tt)
