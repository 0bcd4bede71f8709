-- ===== src/Ingest/JobStore/Reads.antt =====
-- What is read back of a job that was created or updated.
use taboot.Prelude.{
  ℕ, ◌≡◌, refl, inl, inr, true, false, ◌&&◌, Option, none, some, List, [], ◌∷◌, ◌++◌, Bool-cases,
  arith, ◌==◌, ==_sound, text_eq, if◌then◌else◌,
}
use mathlib.Core.Option
use taboot.Python.{ok, raised}
use taboot.Schemas.{IngestionJob, SourceType, JobState, source_value, job_state_value}
use taboot.Ingest.JobStore.{
  JobRow, stored_errors, source_types, job_states, member, passes_checks, job_row, find_row, create,
  job_of, get_by_id, set_progress, set_rows, rows_pass, update, check_violation,
}

-- Each member of an enum is found again by its value.
pub member-source_value :
    (s : SourceType) → member source_value source_types (source_value s) ≡ ok s
unfolding member text_eq
member-source_value SourceType.web = refl
member-source_value SourceType.github = refl
member-source_value SourceType.reddit = refl
member-source_value SourceType.youtube = refl
member-source_value SourceType.gmail = refl
member-source_value SourceType.elasticsearch = refl
member-source_value SourceType.docker_compose = refl
member-source_value SourceType.swag = refl
member-source_value SourceType.tailscale = refl
member-source_value SourceType.unifi = refl
member-source_value SourceType.ai_session = refl

pub member-job_state_value :
    (s : JobState) → member job_state_value job_states (job_state_value s) ≡ ok s
unfolding member text_eq
member-job_state_value JobState.pending = refl
member-job_state_value JobState.running = refl
member-job_state_value JobState.completed = refl
member-job_state_value JobState.failed = refl

pub find_row-append :
    (i : ℕ) (rows : List JobRow) (row : JobRow)
    → find_row i rows ≡ none
    → find_row i (rows ++ row ∷ []) ≡ (if row.job_id == i then some row else none)
unfolding find_row
find_row-append i [] row h = refl
find_row-append i (r ∷ rows) row h = ground (arith, find_row-append i rows row)

find_row-append_old :
    (i : ℕ) (rows : List JobRow) (row : JobRow)
    → (row.job_id == i) ≡ false
    → find_row i (rows ++ row ∷ []) ≡ find_row i rows
unfolding find_row
find_row-append_old i [] row h = ground arith
find_row-append_old i (r ∷ rows) row h = ground (arith, find_row-append_old i rows row)

pub find_row-set_rows :
    (job : IngestionJob) (i : ℕ) (rows : List JobRow)
    → find_row i (set_rows job rows) ≡ (
        if i == job.job_id
        then Option.map (set_progress job) (find_row i rows)
        else find_row i rows)
unfolding find_row set_rows
find_row-set_rows job i [] = ground arith
find_row-set_rows job i (r ∷ rows) = ground (arith, find_row-set_rows job i rows)

-- A job as it is read: without an empty error log.
abbrev pub as_read : IngestionJob → IngestionJob
as_read job = record job { errors = stored_errors job.errors }

pub job_of-job_row : (job : IngestionJob) → job_of (job_row job) ≡ ok (as_read job)
job_of-job_row job =
    rw (member-source_value job.source_type) (rw (member-job_state_value job.state))

-- What an update of `old` by `job` makes.
abbrev pub progressed : IngestionJob → IngestionJob → IngestionJob
progressed old job = record old {
  state = job.state;
  started_at = job.started_at;
  completed_at = job.completed_at;
  pages_processed = job.pages_processed;
  chunks_created = job.chunks_created;
  errors = job.errors;
}

-- Creating a job under an id that has no row, whose timestamps are in order, succeeds; then the job is
-- read back by its id, but for an empty error log, which is read as none, and every other id reads
-- as before.
pub get_by_id-create :
    (job : IngestionJob) (rows : List JobRow) (i : ℕ)
    → find_row job.job_id rows ≡ none
    → passes_checks (job_row job) ≡ true
    → let (r, after) = create job rows in
      (r ≡ ok tt)
      × ((get_by_id i after).0
          ≡ (if job.job_id == i then ok (some (as_read job)) else (get_by_id i rows).0))
unfolding create get_by_id
get_by_id-create job rows i new valid = rw new (
    rw valid (
      refl,
      elim (Bool-cases (job.job_id == i)) [
        | inl same ↦
            let e : job.job_id ≡ i = ==_sound job.job_id i same in
            let gone : find_row i rows ≡ none = rw e at new in
            rw (same, find_row-append i rows (job_row job) gone) (rw same (rw (job_of-job_row job)))
        | inr other ↦ rw (other, find_row-append_old i rows (job_row job) other)
      ],
    ))

-- The key of the table.
abbrev pub IsKeyed : List JobRow → Type 0
IsKeyed [] = Unit
IsKeyed (row ∷ rows) = (find_row row.job_id rows ≡ none) × IsKeyed rows

rows_pass-absent :
    (job : IngestionJob) (rows : List JobRow)
    → find_row job.job_id rows ≡ none
    → rows_pass job rows ≡ true
unfolding rows_pass find_row
rows_pass-absent job [] h = refl
rows_pass-absent job (row ∷ rows) h = elim (Bool-cases (row.job_id == job.job_id)) [
  | inl same ↦ absurd (ground arith)
  | inr other ↦ rw other (rows_pass-absent job rows (rw other at h))
]

-- An update meets the one row of its key.
pub rows_pass-keyed :
    (job : IngestionJob) (rows : List JobRow) (row : JobRow)
    → IsKeyed rows
    → find_row job.job_id rows ≡ some row
    → passes_checks (set_progress job row) ≡ true
    → rows_pass job rows ≡ true
unfolding rows_pass find_row
rows_pass-keyed job [] row keyed h valid = absurd (ground arith)
rows_pass-keyed job (r ∷ rows) row (new, keyed) h valid =
    elim (Bool-cases (r.job_id == job.job_id)) [
      | inl same ↦
          let e : r.job_id ≡ job.job_id = ==_sound r.job_id job.job_id same in
          let k : ◌≡◌ {A = Option JobRow} (some r) (some row) = rw same at h in
          let gone : find_row job.job_id rows ≡ none = rw e at new in
          let here : passes_checks (set_progress job r) ≡ true = cc in
          rw same (rw here (rows_pass-absent job rows gone))
      | inr other ↦ rw other (rows_pass-keyed job rows row keyed (rw other at h) valid)
    ]

pub get_by_id-set_rows :
    (job old : IngestionJob) (rows : List JobRow) (i : ℕ)
    → find_row i rows ≡ some (job_row old)
    → (i == job.job_id) ≡ true
    → (get_by_id i (set_rows job rows)).0 ≡ ok (some (as_read (progressed old job)))
unfolding get_by_id
get_by_id-set_rows job old rows i found same =
    rw (find_row-set_rows job i rows)
      (rw same (rw found (rw (job_of-job_row (progressed old job)))))

-- Updating the row of a job, where what is written passes the checks of the table, succeeds; then the
-- id reads as the job that was stored with the progress of the new one, and every other id as
-- before. Where something written does not pass, the update raises and the table stays.
pub get_by_id-update :
    (job old : IngestionJob) (rows : List JobRow) (i : ℕ)
    → find_row job.job_id rows ≡ some (job_row old)
    → let (r, after) = update job rows in
      (r ≡ (if rows_pass job rows then ok tt else raised check_violation))
      × ((get_by_id i after).0 ≡ (
          if rows_pass job rows && i == job.job_id
          then ok (some (as_read (progressed old job)))
          else (get_by_id i rows).0))
unfolding update get_by_id
get_by_id-update job old rows i there = elim (Bool-cases (rows_pass job rows)) [
  | inr refused ↦ rw refused (refl, refl)
  | inl valid ↦ rw valid (
    refl,
    elim (Bool-cases (i == job.job_id)) [
      | inr other ↦ rw (other, find_row-set_rows job i rows) (rw other)
      | inl same ↦
          let e : i ≡ job.job_id = ==_sound i job.job_id same in
          let found : find_row i rows ≡ some (job_row old) = rw e there in
          rw same (get_by_id-set_rows job old rows i found same)
    ],
  )
]

pub IsKeyed-append :
    (rows : List JobRow) (row : JobRow)
    → IsKeyed rows
    → find_row row.job_id rows ≡ none
    → IsKeyed (rows ++ row ∷ [])
unfolding find_row
IsKeyed-append [] row keyed new = (refl, tt)
IsKeyed-append (r ∷ rows) row (own, keyed) new = elim (Bool-cases (r.job_id == row.job_id)) [
  | inl same ↦ absurd (ground arith)
  | inr other ↦ (
    rw (find_row-append r.job_id rows row own) (ground arith),
    IsKeyed-append rows row keyed (rw other at new),
  )
]
