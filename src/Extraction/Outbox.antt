-- ===== src/Extraction/Outbox.antt =====
-- The outbox of src/extraction_worker.rs with any number of workers on it: the table, the jobs that
-- some worker has claimed and not yet finished, and a history of enqueues, claims and finishes. A
-- worker that crashes with a job in hand is a finish whose update does not reach the database; a
-- finish that panics takes the job out of its worker's hands too.
use aeon_iq_temp.Common.{
  ℕ, ◌+◌, Bool, not, List, [], ◌∷◌, ◌++◌, Option, none, some, Result, ok, err, Text, filter, ◌==◌,
  if◌then◌else◌,
}
use aeon_iq_temp.Extraction.{
  ExtractionJob, ExtractionOutboxConfig, JobError, Claim, Clock, has_id, claim_due_jobs,
  enqueue_extraction_job, finish_job,
}
use aeon_iq_temp.Extraction.Rows.{job_of}

pub record Outbox : Type 0 where
  pub jobs : List ExtractionJob
  pub in_flight : List ExtractionJob

pub data Event : Type 0 where
  enqueued : Bool → ℕ → ℕ → Text → Option Text → Text → Event
  claim : Claim → ℕ → Event
  finished : ℕ → Bool → Clock → Result Text (Unit {0}) → Event

abbrev pub empty : Outbox
empty = record { jobs = []; in_flight = [] }

abbrev pub handed_out : Result JobError (List ExtractionJob) → List ExtractionJob
handed_out (ok claims) = claims
handed_out (err e) = []

abbrev pub without : ℕ → List ExtractionJob → List ExtractionJob
without q jobs = filter (λ j. not (j.id == q)) jobs

unfoldable pub finish_held :
    ExtractionOutboxConfig
    → Bool
    → Clock
    → Result Text (Unit {0})
    → Option ExtractionJob
    → Outbox
    → Outbox
finish_held config reachable clock result none s = s
finish_held config reachable clock result (some job) s = record {
  jobs = (finish_job reachable config clock job result s.jobs).0;
  in_flight = without job.id s.in_flight;
}

unfoldable pub handle : ExtractionOutboxConfig → Event → Outbox → Outbox
unfolding finish_held
handle config (enqueued reachable now id agent_id session_id payload) s = record s {
  jobs = (enqueue_extraction_job reachable now id agent_id session_id payload s.jobs).0;
}
handle config (claim c batch_size) s =
    let (jobs, claims) = claim_due_jobs c batch_size s.jobs in
    record { jobs = jobs; in_flight = handed_out claims ++ s.in_flight }
handle config (finished q reachable clock result) s =
    finish_held config reachable clock result (job_of q s.in_flight) s

-- The events from the first on.
unfoldable pub after : ExtractionOutboxConfig → List Event → Outbox → Outbox
unfolding handle
after config [] s = s
after config (e ∷ events) s = after config events (handle config e s)

abbrev pub handed_by : ℕ → Event → Outbox → ℕ
handed_by q (claim c batch_size) s =
    if has_id q (handed_out (claim_due_jobs c batch_size s.jobs).1) then 1 else 0
handed_by q _ s = 0

-- How often the events hand the job of an id to a worker.
unfoldable pub times_handed : ExtractionOutboxConfig → ℕ → List Event → Outbox → ℕ
unfolding handle
times_handed config q [] s = 0
times_handed config q (e ∷ events) s =
    handed_by q e s + times_handed config q events (handle config e s)
