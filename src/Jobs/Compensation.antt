-- ===== src/Jobs/Compensation.antt =====
-- `CompensationWorker` (apps/api/src/services/compensation.worker.ts): the meetings that are deleted
-- when a booking failed after they were made. The jitter, below the given bound, and the outcome of
-- Zoom's request, an error message or none, are arguments.
pub mod Laws
use booking_zoom_connect.Prelude.{
  ℕ, suc, String, Bool, true, false, ◌&&◌, Option, none, some, List, [], ◌∷◌, ◌+◌, ◌*◌, ◌/◌, ◌%◌,
  ◌^◌, min, leb, ◌==◌, str_eq, if◌then◌else◌, find_first, find_many, update_many, take,
}
use booking_zoom_connect.Jobs.Webhook.{JobStatus, pending, processing, done, failed, job_status_eq}

-- The payload with its meeting id, where it is a text that is not blank.
pub record CompensationJob : Type 0 where
  pub id : ℕ
  pub status : JobStatus
  pub reason : String
  pub meeting_id : Option String
  pub attempts : ℕ
  pub next_run_at : Option ℕ
  pub last_error : Option String

abbrev pub max_attempts : ℕ
max_attempts = 10

abbrev pub max_backoff_ms : ℕ
max_backoff_ms = 60 * 60 * 1000

abbrev pub base_backoff_ms : ℕ
base_backoff_ms = 30_000

unfoldable pub base_delay : ℕ → ℕ
base_delay attempts = min max_backoff_ms (base_backoff_ms * 2 ^ attempts)

-- `Math.min(5_000, Math.floor(baseDelay * 0.2))`
unfoldable pub jitter_bound : ℕ → ℕ
jitter_bound attempts = min 5000 (base_delay attempts / 5)

-- `computeBackoffMs`
unfoldable pub backoff_ms : ℕ → ℕ → ℕ
backoff_ms jitter attempts = min max_backoff_ms (base_delay attempts + jitter)

abbrev pub is_ready_at : ℕ → Option ℕ → Bool
is_ready_at now none = true
is_ready_at now (some t) = leb t now

-- The `WHERE` of the tick's query.
unfoldable pub is_ready : ℕ → CompensationJob → Bool
is_ready now j = job_status_eq j.status pending && is_ready_at now j.next_run_at

abbrev pub take_up : CompensationJob → CompensationJob
take_up j = record j { status = processing }

abbrev pub complete : CompensationJob → CompensationJob
complete j = record j { status = done; last_error = none; next_run_at = none }

-- The write of `retryOrFail`.
unfoldable pub retry_or_fail : ℕ → ℕ → String → CompensationJob → CompensationJob
retry_or_fail now jitter e j =
    if leb max_attempts (suc j.attempts)
    then record j {
      status = failed;
      attempts = suc j.attempts;
      last_error = some e;
      next_run_at = none;
    }
    else record j {
      status = pending;
      attempts = suc j.attempts;
      last_error = some e;
      next_run_at = some (now + backoff_ms jitter (suc j.attempts));
    }

abbrev deleted : (String → Option String) → Option String → Option String
deleted zoom none = some "compensation payload missing zoom_meeting_id"
deleted zoom (some id) = zoom id

-- What the `try` block throws, or none; `zoom` is the outcome of `deleteMeeting`.
unfoldable pub attempt : (String → Option String) → CompensationJob → Option String
attempt zoom j =
    if str_eq j.reason "graph_failed_after_zoom"
    then deleted zoom j.meeting_id
    else some "unsupported compensation reason"

abbrev settled : ℕ → ℕ → Option String → CompensationJob → CompensationJob
settled now jitter none j = complete j
settled now jitter (some e) j = retry_or_fail now jitter e j

-- `processJob` on the row of the job, which is claimed only while it is pending.
unfoldable pub process_job : ℕ → ℕ → (String → Option String) → CompensationJob → CompensationJob
process_job now jitter zoom j =
    if job_status_eq j.status pending then settled now jitter (attempt zoom j) (take_up j) else j

abbrev has_job_id : ℕ → CompensationJob → Bool
has_job_id id j = j.id == id

unfoldable pub process_each :
    ℕ
    → ℕ
    → (String → Option String)
    → List CompensationJob
    → List CompensationJob
    → List CompensationJob
process_each now jitter zoom [] jobs = jobs
process_each now jitter zoom (r ∷ ready) jobs =
    process_each now jitter zoom ready
      (update_many (has_job_id r.id) (process_job now jitter zoom) jobs)

-- `tick`; `by_created_at` is the database's `ORDER BY`.
unfoldable pub tick :
    ℕ
    → ℕ
    → (String → Option String)
    → (List CompensationJob → List CompensationJob)
    → List CompensationJob
    → List CompensationJob
tick now jitter zoom by_created_at jobs =
    process_each now jitter zoom (take 20 (by_created_at (find_many (is_ready now) jobs))) jobs
