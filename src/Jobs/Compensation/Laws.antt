-- ===== src/Jobs/Compensation/Laws.antt =====
-- About `CompensationWorker` (apps/api/src/services/compensation.worker.ts): attempts and delays.
use booking_zoom_connect.Prelude.{
  ℕ, zero, suc, String, ◌≡◌, ◌≢◌, some, List, [], ◌∷◌, In, arith, ◌+◌, ◌≤◌, ◌<◌, ◌^◌, Option, ◌⊎◌,
  inl, inr, In-update_many,
}
use booking_zoom_connect.Jobs.Webhook.{pending, processing, failed}
use booking_zoom_connect.Jobs.Compensation.{
  CompensationJob, max_attempts, base_delay, jitter_bound, backoff_ms, retry_or_fail, attempt,
  process_job, process_each, tick,
}

pow_pos : (n : ℕ) → 1 ≤ 2 ^ n
pow_pos zero = omega arith
pow_pos (suc n) = omega (arith, pow_pos n)

-- After the first failure and later the backoff is at least a minute and at most an hour, and with
-- a jitter within its bound never more than five seconds above the delay without it.
pub backoff-bounds :
    (jitter n : ℕ)
    → jitter ≤ jitter_bound (suc n)
    → (60_000 ≤ backoff_ms jitter (suc n))
      × (backoff_ms jitter (suc n) ≤ 3_600_000)
      × (base_delay (suc n) ≤ backoff_ms jitter (suc n))
      × (backoff_ms jitter (suc n) ≤ base_delay (suc n) + 5000)
unfolding backoff_ms base_delay jitter_bound
backoff-bounds jitter n h = ground (arith, pow_pos n)

-- A job has had at most ten attempts, a pending one has some left, and none is left `processing`.
pub record IsBounded (j : CompensationJob) : Type 0 where
  pub at_most : j.attempts ≤ max_attempts
  pub pending_left : j.status ≡ pending → j.attempts < max_attempts
  pub never_left_over : j.status ≢ processing

pub compensate-IsBounded :
    (now jitter : ℕ) (zoom : String → Option String) (j : CompensationJob)
    → IsBounded j
    → IsBounded (process_job now jitter zoom j)
unfolding process_job retry_or_fail
compensate-IsBounded now jitter zoom j b = record {
  at_most = ground (arith, b.at_most, b.pending_left, b.never_left_over);
  pending_left = ground (arith, b.at_most, b.pending_left, b.never_left_over);
  never_left_over = ground (arith, b.at_most, b.pending_left, b.never_left_over);
}

abbrev AllBounded : List CompensationJob → Type 0
AllBounded jobs = (j : CompensationJob) → In j jobs → IsBounded j

process_each-IsBounded :
    (now jitter : ℕ) (zoom : String → Option String) (ready jobs : List CompensationJob)
    → AllBounded jobs
    → AllBounded (process_each now jitter zoom ready jobs)
unfolding process_each
process_each-IsBounded now jitter zoom [] jobs b = b
process_each-IsBounded now jitter zoom (r ∷ ready) jobs b =
    process_each-IsBounded now jitter zoom ready _ (λ j m.
      elim (In-update_many _ (process_job now jitter zoom) jobs j m) [
        | inl (old, _) ↦ b j old
        | inr (i, old, _, e) ↦ rw e (compensate-IsBounded now jitter zoom i (b i old))
      ])

-- If every job of the table has at most ten attempts, fewer if it is pending, and none is
-- `processing`, then the same holds after a tick, whatever the time, the jitter, Zoom's answers and
-- the order of the jobs.
pub tick-IsBounded :
    (now jitter : ℕ) (zoom : String → Option String)
    (order : List CompensationJob → List CompensationJob) (jobs : List CompensationJob)
    → ((j : CompensationJob) → In j jobs → IsBounded j)
    → (j : CompensationJob) → In j (tick now jitter zoom order jobs)
    → IsBounded j
unfolding tick
tick-IsBounded now jitter zoom order jobs b = process_each-IsBounded now jitter zoom _ jobs b

-- The job after `n` attempts; `now` and `jitter` give the instant and the jitter of each.
unfoldable pub tried_again :
    (ℕ → ℕ) → (ℕ → ℕ) → (String → Option String) → ℕ → CompensationJob → CompensationJob
tried_again now jitter zoom zero j = j
tried_again now jitter zoom (suc n) j =
    tried_again now jitter zoom n (process_job (now n) (jitter n) zoom j)

attempt_fails :
    (now jitter : ℕ) (zoom : String → Option String) (e : String) (j : CompensationJob)
    → attempt zoom j ≡ some e
    → j.status ≡ pending
    → ((suc j.attempts < max_attempts)
        × ((process_job now jitter zoom j).status ≡ pending)
        × ((process_job now jitter zoom j).attempts ≡ suc j.attempts)
        × (attempt zoom (process_job now jitter zoom j) ≡ some e))
      ⊎ ((max_attempts ≤ suc j.attempts) × ((process_job now jitter zoom j).status ≡ failed))
unfolding process_job retry_or_fail attempt
attempt_fails now jitter zoom e j bad p = ground arith

-- A pending job whose attempt always fails is `failed` after as many attempts as it had left.
pub compensation_gives_up :
    (now jitter : ℕ → ℕ) (zoom : String → Option String) (e : String) (n : ℕ) (j : CompensationJob)
    → attempt zoom j ≡ some e
    → j.status ≡ pending
    → j.attempts + suc n ≡ max_attempts
    → (tried_again now jitter zoom (suc n) j).status ≡ failed
unfolding tried_again
compensation_gives_up now jitter zoom e zero j bad p h =
    ground (arith, attempt_fails (now 0) (jitter 0) zoom e j bad p)
compensation_gives_up now jitter zoom e (suc n) j bad p h = ground (
  arith,
  attempt_fails (now (suc n)) (jitter (suc n)) zoom e j bad p,
  compensation_gives_up now jitter zoom e n (process_job (now (suc n)) (jitter (suc n)) zoom j),
)
