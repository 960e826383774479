-- ===== src/Extraction.antt =====
-- src/extraction_worker.rs, and `enqueue_extraction_job` of src/memory/extraction.rs: the outbox of
-- extraction jobs. The table `extraction_jobs` is the list of its rows; its `id` is a primary key,
-- and the CHECK on `status` makes that column one of four values. Time is in seconds.
use aeon_iq_temp.Common.{
  ℕ, suc, ◌+◌, ◌-◌, ◌*◌, ◌^◌, min, Bool, true, false, not, ◌&&◌, List, [], ◌∷◌, map, Option, none,
  some, Text, codes, any, find, filter, length, ltb, leb, ◌==◌, if◌then◌else◌, Result, ok, err,
}
pub mod Rows
pub mod Claims
pub mod Drains
pub mod Outbox
pub mod Sound
pub mod Held
pub mod Finishes
pub mod Budget
pub mod Settled

pub data JobStatus : Type 0 where
  pending in_progress done failed : JobStatus

pub record ExtractionJob : Type 0 where
  pub id : ℕ
  pub agent_id : Text
  pub session_id : Option Text
  pub payload : Text
  pub status : JobStatus
  pub attempts : ℕ
  pub next_attempt_at : ℕ
  pub last_error : Option Text
  pub created_at : ℕ
  pub updated_at : ℕ

pub record ExtractionOutboxConfig : Type 0 where
  pub max_attempts : ℕ
  pub backoff_base_secs : ℕ

pub data JobError : Type 0 where
  backend : JobError
  duplicate_id : JobError
  panicked : JobError

abbrev pub claim_batch_size : ℕ
claim_batch_size = 10

-- `INSERT … 'pending', NOW()`: `id` is what `gen_random_uuid()` gives.
abbrev pub new_job : ℕ → ℕ → Text → Option Text → Text → ExtractionJob
new_job now id agent_id session_id payload = record {
  id = id;
  agent_id = agent_id;
  session_id = session_id;
  payload = payload;
  status = pending;
  attempts = 0;
  next_attempt_at = now;
  last_error = none;
  created_at = now;
  updated_at = now;
}

unfoldable pub enqueue_extraction_job :
    Bool
    → ℕ
    → ℕ
    → Text
    → Option Text
    → Text
    → List ExtractionJob
    → List ExtractionJob × Result JobError ℕ
enqueue_extraction_job reachable now id agent_id session_id payload jobs =
    if not reachable
    then (jobs, err backend)
    else if any (λ j. j.id == id) jobs
    then (jobs, err duplicate_id)
    else (new_job now id agent_id session_id payload ∷ jobs, ok id)

abbrev pub is_pending : JobStatus → Bool
is_pending pending = true
is_pending _ = false

-- `status = 'pending' AND next_attempt_at <= NOW()`, and not locked by another worker
unfoldable pub is_due : ℕ → List ℕ → ExtractionJob → Bool
is_due now locked j =
    is_pending j.status && leb j.next_attempt_at now && not (any (λ l. l == j.id) locked)

-- `ORDER BY next_attempt_at`
unfoldable pub insert_by_time : ExtractionJob → List ExtractionJob → List ExtractionJob
insert_by_time j [] = j ∷ []
insert_by_time j (k ∷ ks) =
    let rest = insert_by_time j ks in
    if ltb k.next_attempt_at j.next_attempt_at then k ∷ rest else j ∷ k ∷ ks

unfoldable pub by_time : List ExtractionJob → List ExtractionJob
unfolding insert_by_time
by_time [] = []
by_time (j ∷ js) = insert_by_time j (by_time js)

-- `LIMIT $1`
abbrev pub take {ℓ} : {A : Type ℓ} → ℕ → List A → List A
take n [] = []
take n (x ∷ xs) = let rest = take (n - 1) xs in if leb n 0 then [] else x ∷ rest

abbrev pub has_id : ℕ → List ExtractionJob → Bool
has_id id jobs = any (λ j. j.id == id) jobs

-- the inner `SELECT`
unfoldable pub chosen : ℕ → List ℕ → ℕ → List ExtractionJob → List ExtractionJob
unfolding by_time is_due
chosen now locked batch_size jobs = take batch_size (by_time (filter (is_due now locked) jobs))

-- the `SET` list of the outer `UPDATE`
unfoldable pub claimed : ℕ → ExtractionJob → ExtractionJob
claimed now j = record j { status = in_progress; attempts = j.attempts + 1; updated_at = now }

abbrev pub claim_row : ℕ → List ExtractionJob → ExtractionJob → ExtractionJob
unfolding claimed
claim_row now picked j = if has_id j.id picked then claimed now j else j

-- What the environment decides while jobs are claimed: whether the statement reached the database,
-- the database's clock, and the rows that other workers have locked.
pub record Claim : Type 0 where
  pub reachable : Bool
  pub now : ℕ
  pub locked : List ℕ

unfoldable pub claim_due_jobs :
    Claim → ℕ → List ExtractionJob → List ExtractionJob × Result JobError (List ExtractionJob)
unfolding chosen claimed
claim_due_jobs c batch_size jobs =
    if c.reachable
    then (let picked = chosen c.now c.locked batch_size jobs in
        (
          map (claim_row c.now picked) jobs,
          ok (map (claimed c.now) (filter (λ j. has_id j.id picked) jobs)),
        ))
    else (jobs, err backend)

-- `payload` decoded, the session looked up, and the extraction run
pub record Runner : Type 0 where
  pub decodes : Text → Bool
  pub run_extraction_payload : Text → Text → Text → Result Text (Unit {0})

run_session : Runner → ExtractionJob → Option Text → Result Text (Unit {0})
run_session r job none = err (codes "missing session_id")
run_session r job (some session_id) = r.run_extraction_payload job.agent_id session_id job.payload

unfoldable pub execute_extraction_job : Runner → ExtractionJob → Result Text (Unit {0})
unfolding run_session
execute_extraction_job r job =
    if r.decodes job.payload
    then run_session r job job.session_id
    else err (codes "invalid extraction payload")

-- the most seconds that `ChronoDuration::seconds` takes: `i64::MAX` milliseconds
abbrev pub max_duration_secs : ℕ
max_duration_secs = 9223372036854775

-- `none` is a panic of the crate chrono; both `u64` operations saturate.
unfoldable pub backoff_after_attempt : ℕ → ℕ → Option ℕ
backoff_after_attempt attempts base_secs =
    let multiplier = 2 ^ min (attempts - 1) 30 in
    let seconds = min (min (base_secs * multiplier) (2 ^ 64 - 1)) (2 ^ 63 - 1) in
    if leb seconds max_duration_secs then some seconds else none

-- What the clocks say while a job is finished: `NOW()` of the database, `Utc::now()` of the worker,
-- and the last instant of `DateTime<Utc>`.
pub record Clock : Type 0 where
  pub now : ℕ
  pub utc : ℕ
  pub max_utc : ℕ

-- `Utc::now() + duration`, which panics after the last instant
abbrev pub add_to_utc : Clock → Option ℕ → Option ℕ
add_to_utc clock none = none
add_to_utc clock (some seconds) =
    if leb (clock.utc + seconds) clock.max_utc then some (clock.utc + seconds) else none

abbrev pub on_id : ℕ → (ExtractionJob → ExtractionJob) → ExtractionJob → ExtractionJob
on_id id f j = if j.id == id then f j else j

unfoldable pub mark_done : ℕ → ExtractionJob → ExtractionJob
mark_done now j = record j { status = done; last_error = none; updated_at = now }

unfoldable pub mark_retry : ℕ → ℕ → Text → ExtractionJob → ExtractionJob
mark_retry now next_attempt_at last_error j = record j {
  status = pending;
  next_attempt_at = next_attempt_at;
  last_error = some last_error;
  updated_at = now;
}

unfoldable pub mark_failed : ℕ → Text → ExtractionJob → ExtractionJob
mark_failed now last_error j = record j {
  status = failed;
  last_error = some last_error;
  updated_at = now;
}

abbrev pub retry_update : ℕ → Text → Option ℕ → Option (ExtractionJob → ExtractionJob)
retry_update now e none = none
retry_update now e (some next_attempt_at) = some (mark_retry now next_attempt_at e)

-- The update that `finish_job` makes of the row of the job, `none` where it panics before it.
unfoldable pub finish_update :
    ExtractionOutboxConfig
    → Clock
    → ExtractionJob
    → Result Text (Unit {0})
    → Option (ExtractionJob → ExtractionJob)
unfolding mark_done mark_retry mark_failed backoff_after_attempt
finish_update config clock job (ok _) = some (mark_done clock.now)
finish_update config clock job (err e) =
    if ltb job.attempts config.max_attempts
    then retry_update clock.now e
        (add_to_utc clock (backoff_after_attempt job.attempts config.backoff_base_secs))
    else some (mark_failed clock.now e)

abbrev pub send :
    Bool
    → ℕ
    → List ExtractionJob
    → Option (ExtractionJob → ExtractionJob)
    → List ExtractionJob × Result JobError (Unit {0})
send reachable id jobs none = (jobs, err panicked)
send reachable id jobs (some f) =
    if reachable then (map (on_id id f) jobs, ok tt) else (jobs, err backend)

unfoldable pub finish_job :
    Bool
    → ExtractionOutboxConfig
    → Clock
    → ExtractionJob
    → Result Text (Unit {0})
    → List ExtractionJob
    → List ExtractionJob × Result JobError (Unit {0})
unfolding finish_update
finish_job reachable config clock job result jobs =
    send reachable job.id jobs (finish_update config clock job result)

-- What the environment decides while a job is worked on.
pub record Work : Type 0 where
  pub runner : Runner
  pub clock : Clock
  pub update_ok : Bool

abbrev pub is_panic : Result JobError (Unit {0}) → Bool
is_panic (err panicked) = true
is_panic _ = false

-- The loop over the claimed jobs: a failed update is logged and passed over, a panic ends the task.
unfoldable pub finish_all :
    ExtractionOutboxConfig
    → (ExtractionJob → Work)
    → List ExtractionJob
    → List ExtractionJob
    → List ExtractionJob × Result JobError (Unit {0})
unfolding finish_job execute_extraction_job
finish_all config work [] jobs = (jobs, ok tt)
finish_all config work (job ∷ rest) jobs =
    let w = work job in
    let finished =
      finish_job w.update_ok config w.clock job (execute_extraction_job w.runner job) jobs in
    let later = finish_all config work rest finished.0 in
    if is_panic finished.1 then (finished.0, err panicked) else later

-- `Ok(processed)` after the loop
abbrev pub reported :
    ℕ → List ExtractionJob × Result JobError (Unit {0}) → List ExtractionJob × Result JobError ℕ
reported processed (jobs, ok _) = (jobs, ok processed)
reported processed (jobs, err e) = (jobs, err e)

unfoldable pub drain_claimed :
    ExtractionOutboxConfig
    → (ExtractionJob → Work)
    → List ExtractionJob × Result JobError (List ExtractionJob)
    → List ExtractionJob × Result JobError ℕ
unfolding finish_all
drain_claimed config work (jobs, err e) = (jobs, err e)
drain_claimed config work (jobs, ok claims) =
    reported (length claims) (finish_all config work claims jobs)

unfoldable pub drain_due_jobs :
    ExtractionOutboxConfig
    → Claim
    → (ExtractionJob → Work)
    → List ExtractionJob
    → List ExtractionJob × Result JobError ℕ
unfolding claim_due_jobs drain_claimed
drain_due_jobs config c work jobs =
    drain_claimed config work (claim_due_jobs c claim_batch_size jobs)
