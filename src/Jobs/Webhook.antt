-- ===== src/Jobs/Webhook.antt =====
-- `WebhookWorker` (apps/api/src/services/webhook.worker.ts): the claim of due jobs for the queue, and
-- the processing of one job. The reconciliation that a job runs is given by its outcome: an error
-- message, or none. The audit log is not modelled.
pub mod Laws
use booking_zoom_connect.Prelude.{
  ℕ, suc, String, Bool, true, false, not, ◌&&◌, ◌||◌, Option, none, some, List, [], ◌∷◌, ◌+◌, ◌-◌,
  ◌*◌, ◌^◌, min, ltb, leb, ◌==◌, if◌then◌else◌, find_many, update_many, take, In,
}

pub data JobStatus : Type 0 where
  pending processing done failed : JobStatus

abbrev pub job_status_eq : JobStatus → JobStatus → Bool
job_status_eq pending pending = true
job_status_eq processing processing = true
job_status_eq done done = true
job_status_eq failed failed = true
job_status_eq _ _ = false

pub record WebhookJob : Type 0 where
  pub id : ℕ
  pub status : JobStatus
  pub attempts : ℕ
  pub next_run_at_utc : ℕ
  pub processing_started_at_utc : Option ℕ
  pub last_error : Option String

abbrev pub max_attempts : ℕ
max_attempts = 5

-- STALE_MINUTES, in milliseconds.
abbrev pub stale_ms : ℕ
stale_ms = 5 * 60_000

-- Not claimed, or claimed more than five minutes ago; the difference is moved to the left.
abbrev pub is_unclaimed : ℕ → Option ℕ → Bool
is_unclaimed now none = true
is_unclaimed now (some started) = ltb (started + stale_ms) now

-- The `where` of `enqueueDueJobs`.
unfoldable pub is_due : ℕ → WebhookJob → Bool
is_due now j =
    job_status_eq j.status pending
    && ltb j.attempts max_attempts
    && leb j.next_run_at_utc now
    && is_unclaimed now j.processing_started_at_utc

-- The `where` of the claim.
abbrev pub is_claimable : ℕ → ℕ → WebhookJob → Bool
is_claimable now id j =
    j.id == id && job_status_eq j.status pending && is_unclaimed now j.processing_started_at_utc

abbrev pub claim : ℕ → WebhookJob → WebhookJob
claim now j = record j { processing_started_at_utc = some now }

abbrev pub release : WebhookJob → WebhookJob
release j = record j { processing_started_at_utc = none }

abbrev pub is_stale : ℕ → Option ℕ → Bool
is_stale now none = true
is_stale now (some started) = leb (started + stale_ms) now

-- What `processItem` finds out about a job before it starts on it.
pub data Verdict : Type 0 where
  skip put_back start : Verdict

unfoldable pub judge : ℕ → WebhookJob → Verdict
judge now j =
    if job_status_eq j.status done || job_status_eq j.status failed
    then skip
    else if ltb now j.next_run_at_utc
    then put_back
    else if job_status_eq j.status processing && not (is_stale now j.processing_started_at_utc)
    then skip
    else start

abbrev pub started : ℕ → WebhookJob → WebhookJob
started now j = record j {
  status = processing;
  attempts = suc j.attempts;
  last_error = none;
  processing_started_at_utc = some now;
}

-- `Math.min(60_000, 1000 * 2 ** (attempts - 1))`
unfoldable pub delay_ms : ℕ → ℕ
delay_ms attempts = min 60_000 (1000 * 2 ^ (attempts - 1))

-- The end of an attempt: the outcome of the reconciliation is an error or none.
unfoldable pub finished : ℕ → Option String → WebhookJob → WebhookJob
finished now none j = record j { status = done; processing_started_at_utc = none }
finished now (some e) j =
    if leb max_attempts j.attempts
    then record j { status = failed; last_error = some e; processing_started_at_utc = none }
    else record j {
      status = pending;
      last_error = some e;
      next_run_at_utc = now + delay_ms j.attempts;
      processing_started_at_utc = none;
    }

abbrev judged : ℕ → Option String → Verdict → WebhookJob → WebhookJob
judged now outcome skip j = j
judged now outcome put_back j = release j
judged now outcome start j = finished now outcome (started now j)

-- `processItem` on the row of the job.
unfoldable pub process_job : ℕ → Option String → WebhookJob → WebhookJob
process_job now outcome j = judged now outcome (judge now j) j

abbrev has_job_id : ℕ → WebhookJob → Bool
has_job_id id j = j.id == id

-- `processItem` on the table; without a row of that id nothing happens.
unfoldable pub process_item : ℕ → (ℕ → Option String) → ℕ → List WebhookJob → List WebhookJob
process_item now outcome id = update_many (has_job_id id) (process_job now (outcome id))

-- One due job: the claim, and its release when the queue refuses the job.
unfoldable pub enqueue_one : ℕ → (ℕ → Bool) → ℕ → List WebhookJob → List WebhookJob
enqueue_one now accepts id jobs =
    let claimed = update_many (is_claimable now id) (claim now) jobs in
    if accepts id then claimed else update_many (has_job_id id) release claimed

abbrev enqueue_each : ℕ → (ℕ → Bool) → List WebhookJob → List WebhookJob → List WebhookJob
enqueue_each now accepts [] jobs = jobs
enqueue_each now accepts (d ∷ due) jobs =
    enqueue_each now accepts due (enqueue_one now accepts d.id jobs)

-- `enqueueDueJobs`; `by_next_run` is the database's `orderBy`.
unfoldable pub due_jobs :
    ℕ → (List WebhookJob → List WebhookJob) → List WebhookJob → List WebhookJob
due_jobs now by_next_run jobs = take 25 (by_next_run (find_many (is_due now) jobs))

unfoldable pub enqueue_due_jobs :
    ℕ → (List WebhookJob → List WebhookJob) → (ℕ → Bool) → List WebhookJob → List WebhookJob
enqueue_due_jobs now by_next_run accepts jobs =
    enqueue_each now accepts (due_jobs now by_next_run jobs) jobs
