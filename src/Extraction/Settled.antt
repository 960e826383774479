-- ===== src/Extraction/Settled.antt =====
-- The rows of src/extraction_worker.rs that nothing changes any more: those that are not pending and
-- that no worker has in hand.
use mathlib.Core.Path.{ap₂}
use aeon_iq_temp.Common.{
  ℕ, ◌+◌, ◌-◌, ◌*◌, ◌^◌, min, ◌⊎◌, none, leb, leb→le, if◌then◌else◌, ◌<◌, ◌≤◌, Bool, true, false,
  not, ◌||◌, List, [], ◌∷◌, map, Option, some, Text, filter, Result, ok, err, ltb, ◌==◌, Bool-cases,
  Option-cases, inl, inr, ◌≡◌, refl, sym, ap, ◌∙◌, arith, ==_iff, ==_refl, if_true, if_false,
}
use aeon_iq_temp.Extraction.{
  Clock, max_duration_secs, backoff_after_attempt, add_to_utc, retry_update, ExtractionJob,
  ExtractionOutboxConfig, pending, in_progress, done, failed, is_pending, has_id, chosen, claimed,
  claim_row, claim_due_jobs, enqueue_extraction_job, finish_update, finish_job, mark_done,
  mark_retry, mark_failed,
}
use aeon_iq_temp.Extraction.Rows.{
  job_of, on_job, job_of-map, filter-fresh, job_of-id, job_of-has_id,
}
use aeon_iq_temp.Extraction.Claims.{claim_row-id, update_row, finished_by, finish_job-map}
use aeon_iq_temp.Extraction.Outbox.{
  Outbox, Event, enqueued, claim, finished, empty, without, finish_held, handle, after,
}
use aeon_iq_temp.Extraction.Sound.{has_id-append, IsSound}
use aeon_iq_temp.Extraction.Held.{in_progress_stays}
use aeon_iq_temp.Extraction.Finishes.{
  finished_row, finished_other, job_of-finished, handle-IsSound, after-IsSound, empty-IsSound,
}
use aeon_iq_temp.Extraction.Budget.{not_handed}

enqueue_keeps :
    (reachable : Bool) (now id : ℕ) (agent_id : Text) (session_id : Option Text) (payload : Text)
    (jobs : List ExtractionJob) (q : ℕ) (j : ExtractionJob)
    → job_of q jobs ≡ some j
    → job_of q (enqueue_extraction_job reachable now id agent_id session_id payload jobs).0 ≡ some j
unfolding enqueue_extraction_job
enqueue_keeps reachable now id agent_id session_id payload jobs q j here =
    elim (Bool-cases reachable) [
      | inr down ↦ rw down here
      | inl up ↦ elim (Bool-cases (has_id id jobs)) [
        | inl taken ↦ rw (up, taken) here
        | inr fresh ↦
            rw (up, fresh)
              (elim (Bool-cases (id == q)) [
                | inr other ↦ if_false _ _ other ∙ here
                | inl same ↦ absurd (
                    let e = ap (λ n. has_id n jobs) ((==_iff id q).0 same) in
                    let known = job_of-has_id q jobs j here in cc)
              ])
      ]
    ]

settled_step :
    (config : ExtractionOutboxConfig) (e : Event) (s : Outbox) (q : ℕ) (j : ExtractionJob)
    → IsSound config s
    → job_of q s.jobs ≡ some j
    → is_pending j.status ≡ false
    → has_id q s.in_flight ≡ false
    → (job_of q (handle config e s).jobs ≡ some j)
      × (has_id q (handle config e s).in_flight ≡ false)
unfolding handle finish_held claim_due_jobs claim_row
settled_step config (enqueued reachable now id agent_id session_id payload) s q j sound here idle
      grounded =
    (enqueue_keeps reachable now id agent_id session_id payload s.jobs q j here, grounded)
settled_step config (claim c batch_size) s q j sound here idle grounded =
    let picked = chosen c.now c.locked batch_size s.jobs in
    let spared = in_progress_stays config c batch_size q s j sound.keyed here idle in
    let own : has_id j.id picked ≡ false =
      ap (λ n. has_id n picked) (job_of-id q s.jobs j here) ∙ spared in
    elim (Bool-cases c.reachable) [
      | inr down ↦ rw down (here, grounded)
      | inl up ↦ rw up (
        job_of-map (claim_row c.now picked) s.jobs q (λ i. claim_row-id c.now picked i)
            ∙ ap (on_job (claim_row c.now picked)) here
            ∙ ap some (if_false (claimed c.now j) j own),
        has_id-append q (map (claimed c.now) (filter (λ k. has_id k.id picked) s.jobs)) s.in_flight
            ∙ ap₂ (◌||◌) (not_handed c.now q picked s.jobs (λ _ _. spared)) grounded,
      )
    ]
settled_step config (finished p reachable clock r) s q j sound here idle grounded =
    elim (Option-cases (job_of p s.in_flight)) [
      | inl gone ↦ rw gone (here, grounded)
      | inr (job, hit) ↦
          let key = job_of-id p s.in_flight job hit in
          let apart : (j.id == job.id) ≡ false = elim (Bool-cases (j.id == job.id)) [
            | inr differ ↦ differ
            | inl same ↦ absurd (
                let e = sym (job_of-id q s.jobs j here) ∙ (==_iff j.id job.id).0 same ∙ key in
                let flying = job_of-has_id p s.in_flight job hit in
                let e' = ap (λ n. has_id n s.in_flight) e in cc)
          ] in
          rw hit (
            job_of-finished config reachable clock r job q s.jobs
                ∙ ap (on_job (finished_row config reachable clock r job)) here
                ∙ ap some (finished_other config reachable clock r job j apart),
            filter-fresh (λ i. not (i.id == job.id)) q s.in_flight grounded,
          )
    ]

settled :
    (config : ExtractionOutboxConfig) (events : List Event) (s : Outbox) (q : ℕ) (j : ExtractionJob)
    → IsSound config s
    → job_of q s.jobs ≡ some j
    → is_pending j.status ≡ false
    → has_id q s.in_flight ≡ false
    → job_of q (after config events s).jobs ≡ some j
unfolding after
settled config [] s q j sound here idle grounded = here
settled config (e ∷ events) s q j sound here idle grounded =
    let (here', grounded') = settled_step config e s q j sound here idle grounded in
    settled config events (handle config e s) q j (handle-IsSound config e s sound) here' idle
      grounded'

without_it : (q : ℕ) (jobs : List ExtractionJob) → has_id q (without q jobs) ≡ false
without_it q [] = refl
without_it q (j ∷ jobs) = ground (arith, without_it q jobs)

finish_lost :
    (config : ExtractionOutboxConfig) (clock : Clock) (job : ExtractionJob)
    (r : Result Text (Unit {0})) (jobs : List ExtractionJob) (q : ℕ)
    → job_of q (finish_job false config clock job r jobs).0 ≡ job_of q jobs
finish_lost config clock job r jobs q = ap (job_of q) (finish_job-map false config clock job r jobs)

-- A job that a worker holds, after any history, and whose update does not reach the database, or
-- whose worker is gone, keeps its `in_progress` row unchanged whatever happens afterwards: no worker
-- is ever handed it again.
pub lost_update_strands :
    (config : ExtractionOutboxConfig) (before later : List Event) (q : ℕ) (clock : Clock)
    (r : Result Text (Unit {0})) (j : ExtractionJob)
    → job_of q (after config before empty).in_flight ≡ some j
    → (job_of q
          (after config later
            (handle config (finished q false clock r) (after config before empty))).jobs
        ≡ some j)
      × (j.status ≡ in_progress)
unfolding handle finish_held
lost_update_strands config before later q clock r j hit =
    let s = after config before empty in
    let sound = after-IsSound config before empty (empty-IsSound config) in
    let (here, busy) = sound.held q j hit in
    let s' = handle config (finished q false clock r) s in
    let jobs_same : job_of q s'.jobs ≡ some j =
      rw hit (finish_lost config clock j r s.jobs q ∙ here) in
    let grounded : has_id q s'.in_flight ≡ false = rw hit (
      ap (λ n. has_id q (without n s.in_flight)) (job_of-id q s.in_flight j hit)
      ∙ without_it q s.in_flight) in
    (
      settled config later s' q j (handle-IsSound config (finished q false clock r) s sound)
          jobs_same (ap is_pending busy) grounded,
      busy,
    )

-- The seconds that a retry waits: the base, doubled for each attempt after the first, at most thirty
-- times.
abbrev pub wait : ExtractionOutboxConfig → ExtractionJob → ℕ
wait config j = config.backoff_base_secs * 2 ^ min (j.attempts - 1) 30

-- The four ways in which an attempt that ran as `r` leaves the row `j` as `k`.
pub data IsDecided (config : ExtractionOutboxConfig) (clock : Clock) (r : Result Text (Unit {0}))
    (j k : ExtractionJob) : Type 0 where
  succeeded : r ≡ ok tt → k.status ≡ done → k.last_error ≡ none → IsDecided config clock r j k
  gave_up :
      (e : Text)
      → r ≡ err e
      → k.status ≡ failed
      → k.last_error ≡ some e
      → config.max_attempts ≤ j.attempts
      → IsDecided config clock r j k
  retries :
      (e : Text)
      → r ≡ err e
      → k.status ≡ pending
      → k.last_error ≡ some e
      → k.next_attempt_at ≡ clock.utc + wait config j
      → j.attempts < config.max_attempts
      → IsDecided config clock r j k
  out_of_range :
      (e : Text)
      → r ≡ err e
      → k ≡ j
      → (max_duration_secs < wait config j) ⊎ (clock.max_utc < clock.utc + wait config j)
      → j.attempts < config.max_attempts
      → IsDecided config clock r j k

own_row :
    (config : ExtractionOutboxConfig) (clock : Clock) (r : Result Text (Unit {0}))
    (j : ExtractionJob)
    → finished_row config true clock r j j ≡ finished_by config clock j r j
unfolding finished_row
own_row config clock r j = if_true _ _ (==_refl j.id)

abbrev saturated : ℕ → ℕ
saturated w = min (min w (2 ^ 64 - 1)) (2 ^ 63 - 1)

saturated_same : (w : ℕ) → leb (saturated w) max_duration_secs ≡ true → saturated w ≡ w
saturated_same w h = omega (arith, leb→le (saturated w) max_duration_secs h)

saturated_long : (w : ℕ) → leb (saturated w) max_duration_secs ≡ false → max_duration_secs < w
saturated_long w h = let long : max_duration_secs < saturated w = ground arith in omega arith

module _ (config : ExtractionOutboxConfig) (clock : Clock) (e : Text) (j : ExtractionJob) where
  retry-IsDecided :
      (t : Bool)
      → leb (clock.utc + wait config j) clock.max_utc ≡ t
      → j.attempts < config.max_attempts
      → IsDecided config clock (err e) j (
          update_row
            (retry_update clock.now e (if t then some (clock.utc + wait config j) else none))
            j)
  unfolding mark_retry
  retry-IsDecided true h more = retries e refl refl refl refl more
  retry-IsDecided false h more = out_of_range e refl refl (inr (ground arith)) more

  failed-IsDecided :
      j.attempts < config.max_attempts
      → IsDecided config clock (err e) j (
          update_row
            (retry_update clock.now e
              (add_to_utc clock (backoff_after_attempt j.attempts config.backoff_base_secs)))
            j)
  unfolding backoff_after_attempt
  failed-IsDecided more = elim (Bool-cases (leb (saturated (wait config j)) max_duration_secs)) [
    | inr long ↦ rw long (out_of_range e refl refl (inl (saturated_long (wait config j) long)) more)
    | inl fits ↦
        rw (fits, saturated_same (wait config j) fits)
          (retry-IsDecided (leb (clock.utc + wait config j) clock.max_utc) refl more)
  ]

update-IsDecided :
    (config : ExtractionOutboxConfig) (clock : Clock) (r : Result Text (Unit {0}))
    (j : ExtractionJob)
    → IsDecided config clock r j (finished_by config clock j r j)
unfolding finished_by finish_update mark_done mark_failed
update-IsDecided config clock (ok tt) j = succeeded refl refl refl
update-IsDecided config clock (err e) j = elim (Bool-cases (ltb j.attempts config.max_attempts)) [
  | inl more ↦ rw more (failed-IsDecided config clock e j (ground arith))
  | inr spent ↦ rw spent (gave_up e refl refl refl (ground arith))
]

-- A job that a worker holds, after any history, and whose update reaches the database, is decided
-- there: done and without an error, if it ran without one; failed with the error, if it did not and
-- its attempts are used up; else pending with the error, and due at the worker's time plus the base
-- of the backoff doubled for each attempt after the first, at most thirty times. Where the crate
-- chrono does not take that wait or has no such time, the worker panics and the row stays as it
-- was. A row that is not pending then never changes again.
pub finish_decides :
    (config : ExtractionOutboxConfig) (before : List Event) (q : ℕ) (clock : Clock)
    (r : Result Text (Unit {0})) (j : ExtractionJob)
    → job_of q (after config before empty).in_flight ≡ some j
    → let s' = handle config (finished q true clock r) (after config before empty) in
      (k : ExtractionJob) × (job_of q s'.jobs ≡ some k)
      × IsDecided config clock r j k
      × (is_pending k.status ≡ false
          → (later : List Event) → job_of q (after config later s').jobs ≡ some k)
unfolding handle finish_held
finish_decides config before q clock r j hit =
    let s = after config before empty in
    let sound = after-IsSound config before empty (empty-IsSound config) in
    let (here, busy) = sound.held q j hit in
    let s' = handle config (finished q true clock r) s in
    let k = finished_by config clock j r j in
    let row : job_of q s'.jobs ≡ some k = rw hit (
      job_of-finished config true clock r j q s.jobs
      ∙ ap (on_job (finished_row config true clock r j)) here
      ∙ ap some (own_row config clock r j)) in
    let grounded : has_id q s'.in_flight ≡ false = rw hit (
      ap (λ n. has_id q (without n s.in_flight)) (job_of-id q s.in_flight j hit)
      ∙ without_it q s.in_flight) in
    (
      k,
      row,
      update-IsDecided config clock r j,
      λ idle later.
          settled config later s' q k (handle-IsSound config (finished q true clock r) s sound) row
            idle grounded,
    )
