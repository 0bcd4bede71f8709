-- ===== src/Common/Dlq/Retries.antt =====
-- How often a job is tried.
use taboot.Prelude.{
  ℕ, zero, suc, ◌+◌, ◌*◌, ◌^◌, ◌≡◌, refl, ap, ◌∙◌, Text, Option, none, some, List, [], ◌∷◌, ltb,
  ◌==◌, if◌then◌else◌, arith,
}
use native.Mathlib.Nat.{two-pow-succ, mul-add}
use taboot.Common.Dlq.{
  Redis, DeadLetterQueue, hincr, hget, hdel, increment_retry_count, get_retry_count, should_retry,
  calculate_backoff_delay, clear_retry_count,
}

-- What the worker reports of jobs.
pub data Event : Type 0 where
  failed succeeded : ℕ → Event

abbrev pub handle : Event → Redis → Redis
handle (Event.failed job) r = (increment_retry_count job r).1
handle (Event.succeeded job) r = clear_retry_count job r

-- The events in order.
abbrev pub handle_all : List Event → Redis → Redis
handle_all [] r = r
handle_all (e ∷ es) r = handle_all es (handle e r)

-- How often the job failed since it last succeeded, where it had failed `n` times.
abbrev pub failures_from : ℕ → ℕ → List Event → ℕ
failures_from job n [] = n
failures_from job n (Event.failed j ∷ es) =
    if j == job then failures_from job (n + 1) es else failures_from job n es
failures_from job n (Event.succeeded j ∷ es) =
    if j == job then failures_from job 0 es else failures_from job n es

abbrev counted : Option ℕ → ℕ
counted none = 0
counted (some n) = n

hget-hincr :
    (job j : ℕ) (rows : List (ℕ × ℕ))
    → hget job (hincr j rows)
      ≡ (if j == job then some (counted (hget job rows) + 1) else hget job rows)
unfolding hget hincr
hget-hincr job j [] = ground arith
hget-hincr job j ((k, n) ∷ rows) = ground (arith, hget-hincr job j rows)

hget-hdel :
    (job j : ℕ) (rows : List (ℕ × ℕ))
    → hget job (hdel j rows) ≡ (if j == job then none else hget job rows)
unfolding hget hdel
hget-hdel job j [] = ground arith
hget-hdel job j ((k, n) ∷ rows) = ground (arith, hget-hdel job j rows)

get_retry_count-increment :
    (job j : ℕ) (r : Redis)
    → get_retry_count job (increment_retry_count j r).1
      ≡ (if j == job then get_retry_count job r + 1 else get_retry_count job r)
unfolding get_retry_count increment_retry_count
get_retry_count-increment job j r = rw (hget-hincr job j r.retry_counts) (ground arith)

get_retry_count-clear :
    (job j : ℕ) (r : Redis)
    → get_retry_count job (clear_retry_count j r) ≡ (if j == job then 0 else get_retry_count job r)
unfolding get_retry_count clear_retry_count
get_retry_count-clear job j r = rw (hget-hdel job j r.retry_counts) (ground arith)

get_retry_count-handle_all :
    (job : ℕ) (es : List Event) (r : Redis)
    → get_retry_count job (handle_all es r) ≡ failures_from job (get_retry_count job r) es
get_retry_count-handle_all job [] r = refl
get_retry_count-handle_all job (Event.failed j ∷ es) r =
    get_retry_count-handle_all job es (increment_retry_count j r).1
    ∙ rw (get_retry_count-increment job j r) (ground arith)
get_retry_count-handle_all job (Event.succeeded j ∷ es) r =
    get_retry_count-handle_all job es (clear_retry_count j r)
    ∙ rw (get_retry_count-clear job j r) (ground arith)

-- After any events of any jobs, the count of a job is how often it failed since it last succeeded,
-- and it is tried again while that is below the limit.
pub should_retry_lem :
    (dlq : DeadLetterQueue) (job : ℕ) (es : List Event) (queues : List (Text × Text))
    → let r : Redis = handle_all es (record { retry_counts = []; queues = queues }) in
      (get_retry_count job r ≡ failures_from job 0 es)
      × (should_retry dlq job r ≡ ltb (failures_from job 0 es) dlq.max_retries)
unfolding should_retry get_retry_count hget
should_retry_lem dlq job es queues =
    let e = get_retry_count-handle_all job es (record { retry_counts = []; queues = queues }) in
    (e, ap (λ n. ltb n dlq.max_retries) e)

-- What the retries from the first to the `n`th wait together.
pub total_delay : DeadLetterQueue → ℕ → ℕ
total_delay dlq zero = 0
total_delay dlq (suc n) = total_delay dlq n + calculate_backoff_delay dlq (suc n)

-- The waits of the first `n` retries come to the base delay times one less than the `n`th power of
-- two.
pub total_delay_lem :
    (dlq : DeadLetterQueue) (n : ℕ)
    → total_delay dlq n + dlq.base_delay_seconds ≡ dlq.base_delay_seconds * 2 ^ n
unfolding total_delay calculate_backoff_delay
total_delay_lem dlq zero = omega arith
total_delay_lem dlq (suc n) =
    let twice : dlq.base_delay_seconds * 2 ^ suc n
        ≡ dlq.base_delay_seconds * 2 ^ n + dlq.base_delay_seconds * 2 ^ n =
      rw (two-pow-succ n) (mul-add dlq.base_delay_seconds (2 ^ n) (2 ^ n)) in
    omega (arith, total_delay_lem dlq n, twice)
