-- ===== src/Extraction/Finishes.antt =====
-- A finish of src/extraction_worker.rs keeps the invariant of the outbox, and so do all histories.
use mathlib.Core.Path.{subst}
use aeon_iq_temp.Common.{
  ℕ, Bool, true, false, Option, none, not, List, [], ◌∷◌, some, Text, Result, ok, err, ltb, ◌==◌,
  if◌then◌else◌, Bool-cases, Option-cases, inl, inr, ◌≡◌, refl, sym, ap, ◌∙◌, arith, ==_iff,
  ==_refl, if_true, if_false,
}
use aeon_iq_temp.Extraction.{
  ExtractionJob, ExtractionOutboxConfig, in_progress, on_id, finish_update, finish_job, mark_done,
  mark_retry, mark_failed, Clock, add_to_utc, backoff_after_attempt, retry_update,
}
use aeon_iq_temp.Extraction.Rows.{
  job_of, on_job, IsKeyed, job_of-map, map-IsKeyed, filter-IsKeyed, job_of-id,
}
use aeon_iq_temp.Extraction.Claims.{update_row, finished_by, finish_job-map, on_id-id}
use aeon_iq_temp.Extraction.Outbox.{
  Outbox, Event, enqueued, claim, finished, empty, without, finish_held, handle, after,
}
use aeon_iq_temp.Extraction.Sound.{job_of-filter, IsWithinBudget, IsSound, enqueue-IsSound}
use aeon_iq_temp.Extraction.Held.{claim-IsSound}

module _ (config : ExtractionOutboxConfig) (reachable : Bool) (clock : Clock)
    (r : Result Text (Unit {0})) (job : ExtractionJob) where
  unfoldable pub finished_row : ExtractionJob → ExtractionJob
  finished_row j = if reachable then on_id job.id (finished_by config clock job r) j else j

  pub job_of-finished :
      (q : ℕ) (jobs : List ExtractionJob)
      → job_of q (finish_job reachable config clock job r jobs).0
        ≡ on_job finished_row (job_of q jobs)
  unfolding finished_row
  job_of-finished q jobs =
      ap (job_of q) (finish_job-map reachable config clock job r jobs)
      ∙ elim (Bool-cases reachable) [
        | inl up ↦ rw up (
            job_of-map (on_id job.id (finished_by config clock job r)) jobs q
              (λ j. on_id-id config clock job r j))
        | inr down ↦ rw down (elim (Option-cases (job_of q jobs)) [
          | inl gone ↦ rw gone refl
          | inr (j, here) ↦ here ∙ sym (ap (on_job (λ i. i)) here)
        ])
      ]

  finished_keyed :
      (jobs : List ExtractionJob)
      → IsKeyed jobs
      → IsKeyed (finish_job reachable config clock job r jobs).0
  finished_keyed jobs keyed =
      subst IsKeyed (sym (finish_job-map reachable config clock job r jobs))
        (elim (Bool-cases reachable) [
          | inl up ↦ rw up (
              map-IsKeyed (on_id job.id (finished_by config clock job r)) jobs
                (λ j. on_id-id config clock job r j) keyed)
          | inr down ↦ rw down keyed
        ])

  pub finished_other : (j : ExtractionJob) → (j.id == job.id) ≡ false → finished_row j ≡ j
  unfolding finished_row
  finished_other j other = elim (Bool-cases reachable) [
    | inl up ↦ if_true _ _ up ∙ if_false _ _ other
    | inr down ↦ if_false _ _ down
  ]

  update_budget :
      (r : Result Text (Unit {0}))
      → IsWithinBudget config job
      → IsWithinBudget config (finished_by config clock job r job)
  unfolding finished_by finish_update mark_done mark_retry mark_failed
  update_budget (ok u) fits = (fits.0, λ e. absurd (cc))
  update_budget (err e) fits = elim (Bool-cases (ltb job.attempts config.max_attempts)) [
    | inl more ↦ rw more (
        retried more
          (add_to_utc clock (backoff_after_attempt job.attempts config.backoff_base_secs)))
    | inr spent ↦ rw spent (fits.0, λ e. absurd (cc))
  ]
    where
      retried :
          ltb job.attempts config.max_attempts ≡ true
          → (t : Option ℕ) → IsWithinBudget config (update_row (retry_update clock.now e t) job)
      retried more none = fits
      retried more (some t) = (fits.0, λ _. ground arith)

  finished_budget : IsWithinBudget config job → IsWithinBudget config (finished_row job)
  unfolding finished_row
  finished_budget fits = elim (Bool-cases reachable) [
    | inl up ↦
        subst (λ i. IsWithinBudget config i) (sym (if_true _ _ up ∙ if_true _ _ (==_refl job.id)))
          (update_budget r fits)
    | inr down ↦ subst (λ i. IsWithinBudget config i) (sym (if_false _ _ down)) fits
  ]

  module _ (s : Outbox) (sound : IsSound config s)
      (hit : job_of job.id s.in_flight ≡ some job) where
    flying_still :
        (q : ℕ) (j : ExtractionJob)
        → job_of q (without job.id s.in_flight) ≡ some j
        → ((q == job.id) ≡ false) × (job_of q s.in_flight ≡ some j)
    flying_still q j h =
        let look = job_of-filter (λ n. not (n == job.id)) q s.in_flight in
        elim (Bool-cases (q == job.id)) [
          | inl same ↦ absurd (let e = sym h ∙ look ∙ if_false _ _ (ap not same) in cc)
          | inr other ↦ (other, sym (if_true _ _ (ap not other)) ∙ sym look ∙ h)
        ]

    finish-IsSound : IsSound config (record {
      jobs = (finish_job reachable config clock job r s.jobs).0;
      in_flight = without job.id s.in_flight;
    })
    finish-IsSound = record {
      keyed = finished_keyed s.jobs sound.keyed;
      keyed_flight = filter-IsKeyed (λ j. not (j.id == job.id)) s.in_flight sound.keyed_flight;
      held = λ q j h.
          let (other, flying) = flying_still q j h in
          let (here, busy) = sound.held q j flying in
          let apart : (j.id == job.id) ≡ false =
            ap (λ n. n == job.id) (job_of-id q s.jobs j here) ∙ other in
          (
            job_of-finished q s.jobs
                ∙ ap (on_job finished_row) here
                ∙ ap some (finished_other j apart),
            busy,
          );
      budget = λ q j h. elim (Option-cases (job_of q s.jobs)) [
        | inl gone ↦
            absurd (let e = sym h ∙ job_of-finished q s.jobs ∙ ap (on_job finished_row) gone in cc)
        | inr (k, here) ↦
            let is_j : finished_row k ≡ j =
              let e = sym h ∙ job_of-finished q s.jobs ∙ ap (on_job finished_row) here in cc in
            subst (λ i. IsWithinBudget config i) is_j (row_budget q k here)
      ];
    }
      where
        row_budget :
            (q : ℕ) (k : ExtractionJob)
            → job_of q s.jobs ≡ some k
            → IsWithinBudget config (finished_row k)
        row_budget q k here = elim (Bool-cases (k.id == job.id)) [
          | inr other ↦
              subst (λ i. IsWithinBudget config i) (sym (finished_other k other))
                (sound.budget q k here)
          | inl same ↦
              let key = sym (job_of-id q s.jobs k here) ∙ (==_iff k.id job.id).0 same in
              let (own, _) = sound.held job.id job hit in
              let mine : k ≡ job = let e = sym here ∙ ap (λ n. job_of n s.jobs) key ∙ own in cc in
              subst (λ i. IsWithinBudget config (finished_row i)) (sym mine)
                (finished_budget (sound.budget job.id job own))
        ]

finished-IsSound :
    (config : ExtractionOutboxConfig) (q : ℕ) (reachable : Bool) (clock : Clock)
    (r : Result Text (Unit {0})) (s : Outbox)
    → IsSound config s
    → IsSound config (handle config (finished q reachable clock r) s)
unfolding handle finish_held
finished-IsSound config q reachable clock r s sound = elim (Option-cases (job_of q s.in_flight)) [
  | inl gone ↦ rw gone sound
  | inr (job, hit) ↦
      let own : job_of job.id s.in_flight ≡ some job =
        ap (λ n. job_of n s.in_flight) (job_of-id q s.in_flight job hit) ∙ hit in
      subst (λ o. IsSound config (finish_held config reachable clock r o s)) (sym hit)
        (finish-IsSound config reachable clock r job s sound own)
]

pub handle-IsSound :
    (config : ExtractionOutboxConfig) (e : Event) (s : Outbox)
    → IsSound config s
    → IsSound config (handle config e s)
handle-IsSound config (enqueued reachable now id agent_id session_id payload) s sound =
    enqueue-IsSound config reachable now id agent_id session_id payload s sound
handle-IsSound config (claim c batch_size) s sound = claim-IsSound config c batch_size s sound
handle-IsSound config (finished q reachable clock r) s sound =
    finished-IsSound config q reachable clock r s sound

pub after-IsSound :
    (config : ExtractionOutboxConfig) (events : List Event) (s : Outbox)
    → IsSound config s
    → IsSound config (after config events s)
unfolding after
after-IsSound config [] s sound = sound
after-IsSound config (e ∷ events) s sound =
    after-IsSound config events (handle config e s) (handle-IsSound config e s sound)

pub empty-IsSound : (config : ExtractionOutboxConfig) → IsSound config empty
empty-IsSound config = record {
  keyed = tt;
  keyed_flight = tt;
  held = λ q j h. absurd (cc);
  budget = λ q j h. absurd (cc);
}

-- After any history of enqueues, claims by any number of workers, and finishes, some of them lost,
-- no id is in flight twice, and a job in flight is exactly the row of its id and `in_progress`. No
-- row has had more attempts than `max_attempts`, counted as one where that is zero, and a pending
-- row has had fewer.
pub workers_exclusive :
    (config : ExtractionOutboxConfig) (events : List Event)
    → let s = after config events empty in
      IsKeyed s.in_flight
      × ((q : ℕ) (j : ExtractionJob)
          → job_of q s.in_flight ≡ some j
          → (job_of q s.jobs ≡ some j) × (j.status ≡ in_progress))
      × ((q : ℕ) (j : ExtractionJob) → job_of q s.jobs ≡ some j → IsWithinBudget config j)
workers_exclusive config events =
    let sound = after-IsSound config events empty (empty-IsSound config) in
    (sound.keyed_flight, sound.held, sound.budget)
