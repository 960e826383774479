-- ===== src/Tests/Outbox.antt =====
-- Runs of the extraction outbox, src/extraction_worker.rs, at concrete inputs.
use aeon_iq_temp.Common.{
  arith, ℕ, ◌^◌, ◌-◌, length, filter, ◌≤◌, max, true, false, List, [], ◌∷◌, some, none, codes, ok,
  err, ◌≡◌, refl,
}
use aeon_iq_temp.Extraction.{
  Clock, ExtractionJob, ExtractionOutboxConfig, Claim, Runner, Work, in_progress, panicked, new_job,
  has_id, is_pending, is_due, chosen, claim_batch_size, drain_due_jobs, enqueue_extraction_job,
  claim_due_jobs,
}
use aeon_iq_temp.Extraction.Rows.{job_of, on_job, IsKeyed}
use aeon_iq_temp.Extraction.Claims.{attempt_row}
use aeon_iq_temp.Extraction.Drains.{InRange, drain_due_jobs_lem}
use aeon_iq_temp.Extraction.Outbox.{
  Event, enqueued, claim, finished, empty, handle, after, times_handed,
}
use aeon_iq_temp.Extraction.Sound.{IsWithinBudget}
use aeon_iq_temp.Extraction.Finishes.{workers_exclusive}
use aeon_iq_temp.Extraction.Budget.{attempts_in, times_handed_bounded}
use aeon_iq_temp.Extraction.Settled.{IsDecided, lost_update_strands, finish_decides}

abbrev config : ExtractionOutboxConfig
config = record { max_attempts = 2; backoff_base_secs = 2 }

abbrev at_ten : Claim
at_ten = record { reachable = true; now = 10; locked = [] }

-- the database's clock, one second ahead of the worker's
abbrev at : ℕ → Clock
at t = record { now = t; utc = t - 1; max_utc = 8000000000000 }

abbrev runner : Runner
runner = record { decodes = λ _. true; run_extraction_payload = λ _ _ _. err (codes "upstream") }

abbrev work : ExtractionJob → Work
work job = record { runner = runner; clock = at 11; update_ok = true }

abbrev two_jobs : List ExtractionJob
two_jobs =
    new_job 9 1 (codes "a") (some (codes "s")) (codes "{}")
    ∷ new_job 20 2 (codes "b") (some (codes "s")) (codes "{}")
    ∷ []

abbrev two_jobs-IsKeyed : IsKeyed two_jobs
two_jobs-IsKeyed = (refl, (refl, tt))

in_range : InRange config work
in_range job = (omega arith, omega arith)

drain_due_jobs_lem_example :
    let picked = chosen 10 [] claim_batch_size two_jobs in
    let worked_on = filter (λ j. has_id j.id picked) two_jobs in
    ((q : ℕ)
      → job_of q (drain_due_jobs config at_ten work two_jobs).0
        ≡ on_job (attempt_row config at_ten work picked) (job_of q two_jobs))
    × ((q : ℕ) (j : ExtractionJob)
        → job_of q two_jobs ≡ some j
        → has_id q picked ≡ true
        → is_due 10 [] j ≡ true)
    × ((drain_due_jobs config at_ten work two_jobs).1 ≡ ok (length worked_on))
    × (length worked_on ≤ claim_batch_size)
drain_due_jobs_lem_example =
    drain_due_jobs_lem config work at_ten two_jobs two_jobs-IsKeyed in_range refl

one_reported : (drain_due_jobs config at_ten work two_jobs).1 ≡ ok 1
unfolding drain_due_jobs
one_reported = refl

-- A job is enqueued and claimed, fails, and is claimed again.
abbrev history : List Event
history =
    enqueued true 9 1 (codes "a") (some (codes "s")) (codes "{}")
    ∷ claim at_ten 10
    ∷ finished 1 true (at 10) (err (codes "upstream"))
    ∷ claim (record { reachable = true; now = 12; locked = [] }) 10
    ∷ []

workers_exclusive_example :
    let s = after config history empty in
    IsKeyed s.in_flight
    × ((q : ℕ) (j : ExtractionJob)
        → job_of q s.in_flight ≡ some j
        → (job_of q s.jobs ≡ some j) × (j.status ≡ in_progress))
    × ((q : ℕ) (j : ExtractionJob) → job_of q s.jobs ≡ some j → IsWithinBudget config j)
workers_exclusive_example = workers_exclusive config history

times_handed_bounded_example :
    (times_handed config 1 history empty ≤ max 1 2)
    × (attempts_in (job_of 1 (after config history empty).jobs)
        ≡ times_handed config 1 history empty)
times_handed_bounded_example = times_handed_bounded config history 1

abbrev held_job : ExtractionJob
held_job = record {
  id = 1;
  agent_id = codes "a";
  session_id = some (codes "s");
  payload = codes "{}";
  status = in_progress;
  attempts = 2;
  next_attempt_at = 11;
  last_error = some (codes "upstream");
  created_at = 9;
  updated_at = 12;
}

held_job_flies : job_of 1 (after config history empty).in_flight ≡ some held_job
unfolding after handle claim_due_jobs enqueue_extraction_job aeon_iq_temp.Extraction.finish_job
    aeon_iq_temp.Extraction.backoff_after_attempt
held_job_flies = refl

lost_update_strands_example :
    (job_of 1
        (after config
          (claim at_ten 10 ∷ [])
          (handle config (finished 1 false (at 13) (ok tt)) (after config history empty))).jobs
      ≡ some held_job)
    × (held_job.status ≡ in_progress)
lost_update_strands_example =
    lost_update_strands config history (claim at_ten 10 ∷ []) 1 (at 13) (ok tt) held_job
      held_job_flies

-- The wait of this base does not fit: the finish panics, and the drain with it.
abbrev long_config : ExtractionOutboxConfig
long_config = record { max_attempts = 2; backoff_base_secs = 2 ^ 53 }

drain_panics : (drain_due_jobs long_config at_ten work two_jobs).1 ≡ err panicked
unfolding drain_due_jobs aeon_iq_temp.Extraction.backoff_after_attempt
drain_panics = refl

-- The first attempt, which fails and is due again two seconds after the worker's own time.
abbrev first_claim : List Event
first_claim = enqueued true 9 1 (codes "a") (some (codes "s")) (codes "{}") ∷ claim at_ten 10 ∷ []

abbrev first_job : ExtractionJob
first_job = record held_job {
  attempts = 1;
  next_attempt_at = 9;
  last_error = none;
  updated_at = 10;
}

first_job_flies : job_of 1 (after config first_claim empty).in_flight ≡ some first_job
unfolding after handle claim_due_jobs enqueue_extraction_job
first_job_flies = refl

finish_decides_example :
    let s' =
      handle config
        (finished 1 true (at 13) (err (codes "upstream")))
        (after config first_claim empty) in
    (k : ExtractionJob) × (job_of 1 s'.jobs ≡ some k)
    × IsDecided config (at 13) (err (codes "upstream")) first_job k
    × (is_pending k.status ≡ false
        → (later : List Event) → job_of 1 (after config later s').jobs ≡ some k)
finish_decides_example =
    finish_decides config first_claim 1 (at 13) (err (codes "upstream")) first_job first_job_flies
