-- ===== src/Jobs/Webhook/Laws.antt =====
-- About `WebhookWorker` (apps/api/src/services/webhook.worker.ts): attempts, delays and claims.
use booking_zoom_connect.Prelude.{
  ℕ, zero, suc, String, ◌≡◌, ◌≢◌, true, false, none, some, List, In, arith, ◌+◌, ◌-◌, ◌≤◌, ◌<◌, ◌^◌,
  find_many, find_many-test, take-In, Option, ◌⊎◌,
}
use booking_zoom_connect.Jobs.Webhook.{
  WebhookJob, pending, processing, done, failed, max_attempts, judge, delay_ms, finished,
  process_job, is_due, due_jobs, claim, stale_ms, is_claimable,
}

-- A pending job has attempts left, and no job has had more than the most.
pub record IsBounded (j : WebhookJob) : Type 0 where
  pub at_most : j.attempts ≤ max_attempts
  pub pending_left : j.status ≡ pending → j.attempts < max_attempts
  pub never_left_over : j.status ≢ processing

-- Take a job with at most five attempts, with fewer if it is pending, that is not `processing`. After
-- it was processed the same holds of it, whatever the time and the outcome.
pub webhook_job-IsBounded :
    (now : ℕ) (outcome : Option String) (j : WebhookJob)
    → IsBounded j
    → IsBounded (process_job now outcome j)
unfolding process_job judge finished
webhook_job-IsBounded now none j b = record {
  at_most = ground (arith, b.at_most, b.pending_left, b.never_left_over);
  pending_left = ground (arith, b.at_most, b.pending_left, b.never_left_over);
  never_left_over = ground (arith, b.at_most, b.pending_left, b.never_left_over);
}
webhook_job-IsBounded now (some e) j b = record {
  at_most = ground (arith, b.at_most, b.pending_left, b.never_left_over);
  pending_left = ground (arith, b.at_most, b.pending_left, b.never_left_over);
  never_left_over = ground (arith, b.at_most, b.pending_left, b.never_left_over);
}

-- The job after `n` attempts that all fail, each at the time that the one before has set.
unfoldable pub retried : String → ℕ → WebhookJob → WebhookJob
retried e zero j = j
retried e (suc n) j = retried e n (process_job j.next_run_at_utc (some e) j)

-- An attempt that fails uses up an attempt, and the last one fails the job.
attempt_fails :
    (e : String) (j : WebhookJob)
    → j.status ≡ pending
    → ((suc j.attempts < max_attempts)
        × ((process_job j.next_run_at_utc (some e) j).status ≡ pending)
        × ((process_job j.next_run_at_utc (some e) j).attempts ≡ suc j.attempts))
      ⊎ ((max_attempts ≤ suc j.attempts)
          × ((process_job j.next_run_at_utc (some e) j).status ≡ failed))
unfolding process_job judge finished
attempt_fails e j p = ground arith

-- A pending job that fails at every attempt, each made at the time the one before has set, is
-- `failed` after as many attempts as it had left.
pub webhook_gives_up :
    (e : String) (n : ℕ) (j : WebhookJob)
    → j.status ≡ pending
    → j.attempts + suc n ≡ max_attempts
    → (retried e (suc n) j).status ≡ failed
unfolding retried
webhook_gives_up e zero j p h = ground (arith, attempt_fails e j p)
webhook_gives_up e (suc n) j p h =
    ground
      (arith, attempt_fails e j p, webhook_gives_up e n (process_job j.next_run_at_utc (some e) j))

-- A job that is done or failed is not touched again.
pub settled_stays :
    (now : ℕ) (outcome : Option String) (j : WebhookJob)
    → (j.status ≡ done) ⊎ (j.status ≡ failed)
    → process_job now outcome j ≡ j
unfolding process_job judge
settled_stays now outcome j s = ground arith

pow_pos : (n : ℕ) → 1 ≤ 2 ^ n
pow_pos zero = omega arith
pow_pos (suc n) = omega (arith, pow_pos n)

-- A job is put off by a second at least and a minute at most.
pub delay-bounds : (n : ℕ) → (1000 ≤ delay_ms n) × (delay_ms n ≤ 60_000)
unfolding delay_ms
delay-bounds n = ground (arith, pow_pos (n - 1))

-- A job that is claimed for the queue is not due again within five minutes.
pub claimed_not_due :
    (now later : ℕ) (j : WebhookJob) → later ≤ now + stale_ms → is_due later (claim now j) ≡ false
unfolding is_due
claimed_not_due now later j soon = ground arith

-- A due job is claimable at the same instant: it is pending and unclaimed.
pub due_claimable :
    (now : ℕ) (j : WebhookJob) → is_due now j ≡ true → is_claimable now j.id j ≡ true
unfolding is_due
due_claimable now j due = ground arith

-- The jobs that `enqueueDueJobs` takes are all pending, if the database's order gives only rows that it
-- was given. So a job left `processing` is not among them at any time.
pub processing_never_due :
    (now : ℕ) (order : List WebhookJob → List WebhookJob) (jobs : List WebhookJob) (j : WebhookJob)
    → ((l : List WebhookJob) (x : WebhookJob) → In x (order l) → In x l)
    → In j (due_jobs now order jobs)
    → j.status ≡ pending
unfolding due_jobs is_due
processing_never_due now order jobs j reorders m = ground (
  arith,
  find_many-test (is_due now) jobs j (reorders (find_many (is_due now) jobs) j (take-In 25 _ j m)),
)
