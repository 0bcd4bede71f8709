-- ===== src/Common/Dlq.antt =====
-- packages/common/dlq.py: `DeadLetterQueue`. A method sends one command to Redis, so one that fails
-- to reach it changes nothing; here the commands reach it. `dumps` is `json.dumps`.
pub mod Retries
use taboot.Prelude.{
  ℕ, zero, suc, ◌+◌, ◌*◌, ◌/◌, ◌^◌, Text, codes, Bool, Option, none, some, List, [], ◌∷◌, ltb, ◌==◌,
  text_eq, if◌then◌else◌,
}

-- The hash `retry_counts`, and what was pushed on the lists, the latest first.
pub record Redis : Type 0 where
  pub retry_counts : List (ℕ × ℕ)
  pub queues : List (Text × Text)

pub record DeadLetterQueue : Type 0 where
  pub max_retries : ℕ
  pub base_delay_seconds : ℕ

-- HINCRBY retry_counts <job> 1, HGET and HDEL
unfoldable pub hincr : ℕ → List (ℕ × ℕ) → List (ℕ × ℕ)
hincr job [] = (job, 1) ∷ []
hincr job ((j, n) ∷ rest) = if j == job then (j, n + 1) ∷ rest else (j, n) ∷ hincr job rest

unfoldable pub hget : ℕ → List (ℕ × ℕ) → Option ℕ
hget job [] = none
hget job ((j, n) ∷ rest) = if j == job then some n else hget job rest

unfoldable pub hdel : ℕ → List (ℕ × ℕ) → List (ℕ × ℕ)
hdel job [] = []
hdel job ((j, n) ∷ rest) = if j == job then hdel job rest else (j, n) ∷ hdel job rest

-- `{**entry, key: value}`: a key that is there keeps its place.
unfoldable pub put : Text → Text → List (Text × Text) → List (Text × Text)
put key value [] = (key, value) ∷ []
put key value ((k, v) ∷ rest) =
    if text_eq k key then (key, value) ∷ rest else (k, v) ∷ put key value rest

abbrev or_zero : Option ℕ → ℕ
or_zero none = 0
or_zero (some n) = n

module _ (dumps : List (Text × Text) → Text) where
  pub send_to_dlq : List (Text × Text) → Text → Text → Text → Redis → Redis
  unfolding put
  send_to_dlq job_data error failed_at queue_name r = record r {
    queues =
        (queue_name, dumps (put (codes "failed_at") failed_at (put (codes "error") error job_data)))
        ∷ r.queues;
  }

pub increment_retry_count : ℕ → Redis → Option ℕ × Redis
increment_retry_count job r =
    let counts = hincr job r.retry_counts in (hget job counts, record r { retry_counts = counts })

pub get_retry_count : ℕ → Redis → ℕ
get_retry_count job r = or_zero (hget job r.retry_counts)

pub should_retry : DeadLetterQueue → ℕ → Redis → Bool
should_retry dlq job r = ltb (get_retry_count job r) dlq.max_retries

-- `int(base * 2 ** (retry_count - 1))`: at 0 the power is the float 0.5.
pub calculate_backoff_delay : DeadLetterQueue → ℕ → ℕ
calculate_backoff_delay dlq zero = dlq.base_delay_seconds / 2
calculate_backoff_delay dlq (suc n) = dlq.base_delay_seconds * 2 ^ n

pub clear_retry_count : ℕ → Redis → Redis
clear_retry_count job r = record r { retry_counts = hdel job r.retry_counts }
