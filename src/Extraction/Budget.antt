-- ===== src/Extraction/Budget.antt =====
-- What becomes of a job of src/extraction_worker.rs in the long run: how often it is handed out, and
-- that its row counts it.
use mathlib.Core.Path.{ap₂, subst}
use aeon_iq_temp.Common.{
  ℕ, ◌+◌, ◌≤◌, max, Bool, true, false, List, [], ◌∷◌, map, Option, none, some, Text, filter,
  any-find, Result, ◌==◌, if◌then◌else◌, Bool-cases, Option-cases, inl, inr, ◌≡◌, refl, sym, ap,
  ◌∙◌, arith, ==_iff, if_true, if_false,
}
use aeon_iq_temp.Extraction.{
  Clock, ExtractionJob, ExtractionOutboxConfig, has_id, chosen, claimed, claim_row, Claim,
  claim_due_jobs, enqueue_extraction_job,
}
use aeon_iq_temp.Extraction.Rows.{job_of, on_job, job_of-map, job_of-id, job_of-has_id}
use aeon_iq_temp.Extraction.Claims.{claim_row-id, finished_by-keeps}
use aeon_iq_temp.Extraction.Outbox.{
  Outbox, Event, enqueued, claim, finished, empty, handed_out, finish_held, handle, after,
  handed_by, times_handed,
}
use aeon_iq_temp.Extraction.Sound.{claims_hit, job_of-filter, missing}
use aeon_iq_temp.Extraction.Finishes.{finished_row, job_of-finished, after-IsSound, empty-IsSound}

abbrev pub attempts_in : Option ExtractionJob → ℕ
attempts_in none = 0
attempts_in (some j) = j.attempts

attempts_mapped :
    (f : ExtractionJob → ExtractionJob) (o : Option ExtractionJob)
    → ((j : ExtractionJob) → (f j).attempts ≡ j.attempts)
    → attempts_in (on_job f o) ≡ attempts_in o
attempts_mapped f none same = refl
attempts_mapped f (some j) same = same j

enqueue_attempts :
    (reachable : Bool) (now id : ℕ) (agent_id : Text) (session_id : Option Text) (payload : Text)
    (jobs : List ExtractionJob) (q : ℕ)
    → attempts_in
        (job_of q (enqueue_extraction_job reachable now id agent_id session_id payload jobs).0)
      ≡ attempts_in (job_of q jobs)
unfolding enqueue_extraction_job
enqueue_attempts reachable now id agent_id session_id payload jobs q = elim (Bool-cases reachable) [
  | inr down ↦ rw down refl
  | inl up ↦ elim (Bool-cases (has_id id jobs)) [
    | inl taken ↦ rw (up, taken) refl
    | inr fresh ↦
        rw (up, fresh)
          (elim (Bool-cases (id == q)) [
            | inr other ↦ rw other refl
            | inl same ↦
                let gone =
                  missing q jobs (ap (λ n. has_id n jobs) (sym ((==_iff id q).0 same)) ∙ fresh) in
                rw (same, gone) refl
          ])
  ]
]

zero_plus : (n : ℕ) → n ≡ 0 + n
zero_plus n = omega arith

suc_one : (n : ℕ) → n + 1 ≡ 1 + n
suc_one n = omega arith

handed_hit :
    (now q : ℕ) (picked jobs : List ExtractionJob) (j : ExtractionJob)
    → job_of q jobs ≡ some j
    → has_id q picked ≡ true
    → has_id q (map (claimed now) (filter (λ k. has_id k.id picked) jobs)) ≡ true
unfolding claimed
handed_hit now q picked jobs j here hit =
    job_of-has_id q (map (claimed now) (filter (λ k. has_id k.id picked) jobs)) (claimed now j) (
      job_of-map (claimed now) (filter (λ k. has_id k.id picked) jobs) q (λ k. refl)
      ∙ ap (on_job (claimed now))
          (job_of-filter (λ n. has_id n picked) q jobs ∙ if_true _ _ hit ∙ here))

pub not_handed :
    (now q : ℕ) (picked jobs : List ExtractionJob)
    → ((j : ExtractionJob) → job_of q jobs ≡ some j → has_id q picked ≡ false)
    → has_id q (map (claimed now) (filter (λ k. has_id k.id picked) jobs)) ≡ false
not_handed now q picked jobs spared =
    let claims = map (claimed now) (filter (λ k. has_id k.id picked) jobs) in
    elim (Bool-cases (has_id q claims)) [
      | inr miss ↦ miss
      | inl hit ↦
          let (k, found_k) = any-find (λ j. j.id == q) claims hit in
          let (j, here, was_picked, _) = claims_hit now q picked jobs k found_k in
          absurd (let e = sym was_picked ∙ spared j here in cc)
    ]

picked_attempts :
    (now : ℕ) (picked : List ExtractionJob) (q : ℕ) (jobs : List ExtractionJob)
    → attempts_in (job_of q (map (claim_row now picked) jobs))
      ≡ (if has_id q (map (claimed now) (filter (λ j. has_id j.id picked) jobs)) then 1 else 0)
        + attempts_in (job_of q jobs)
unfolding claim_row claimed
picked_attempts now picked q jobs =
    let row = job_of-map (claim_row now picked) jobs q (λ j. claim_row-id now picked j) in
    elim (Option-cases (job_of q jobs)) [
      | inl gone ↦
          let idle =
            not_handed now q picked jobs (λ j here. absurd (let e = sym here ∙ gone in cc)) in
          ap attempts_in (row ∙ ap (on_job (claim_row now picked)) gone)
          ∙ sym (ap₂ (λ b o. (if b then 1 else 0) + attempts_in o) idle gone)
      | inr (j, here) ↦
          let key = ap (λ n. has_id n picked) (job_of-id q jobs j here) in
          ap attempts_in (row ∙ ap (on_job (claim_row now picked)) here)
          ∙ elim (Bool-cases (has_id q picked)) [
            | inl hit ↦
                let busy = handed_hit now q picked jobs j here hit in
                ap (λ (i : ExtractionJob). i.attempts) (if_true (claimed now j) j (key ∙ hit))
                ∙ suc_one j.attempts
                ∙ sym (ap₂ (λ b o. (if b then 1 else 0) + attempts_in o) busy here)
            | inr miss ↦
                let idle = not_handed now q picked jobs (λ _ _. miss) in
                ap (λ (i : ExtractionJob). i.attempts) (if_false (claimed now j) j (key ∙ miss))
                ∙ zero_plus j.attempts
                ∙ sym (ap₂ (λ b o. (if b then 1 else 0) + attempts_in o) idle here)
          ]
    ]

claim_attempts :
    (c : Claim) (batch_size q : ℕ) (jobs : List ExtractionJob)
    → attempts_in (job_of q (claim_due_jobs c batch_size jobs).0)
      ≡ (if has_id q (handed_out (claim_due_jobs c batch_size jobs).1) then 1 else 0)
        + attempts_in (job_of q jobs)
unfolding claim_due_jobs
claim_attempts c batch_size q jobs = elim (Bool-cases c.reachable) [
  | inr down ↦ rw down (zero_plus (attempts_in (job_of q jobs)))
  | inl up ↦ rw up (picked_attempts c.now (chosen c.now c.locked batch_size jobs) q jobs)
]

finished_attempts :
    (config : ExtractionOutboxConfig) (reachable : Bool) (clock : Clock)
    (r : Result Text (Unit {0})) (job j : ExtractionJob)
    → (finished_row config reachable clock r job j).attempts ≡ j.attempts
unfolding finished_row
finished_attempts config reachable clock r job j =
    let same = (finished_by-keeps config clock job r j).1 in ground arith

finish_attempts :
    (config : ExtractionOutboxConfig) (reachable : Bool) (clock : Clock)
    (r : Result Text (Unit {0})) (o : Option ExtractionJob) (s : Outbox) (q : ℕ)
    → attempts_in (job_of q (finish_held config reachable clock r o s).jobs)
      ≡ attempts_in (job_of q s.jobs)
unfolding finish_held finished_row
finish_attempts config reachable clock r none s q = refl
finish_attempts config reachable clock r (some job) s q =
    ap attempts_in (job_of-finished config reachable clock r job q s.jobs)
    ∙ attempts_mapped (finished_row config reachable clock r job) (job_of q s.jobs)
        (λ j. finished_attempts config reachable clock r job j)

handle_attempts :
    (config : ExtractionOutboxConfig) (e : Event) (s : Outbox) (q : ℕ)
    → attempts_in (job_of q (handle config e s).jobs)
      ≡ handed_by q e s + attempts_in (job_of q s.jobs)
unfolding handle
handle_attempts config (enqueued reachable now id agent_id session_id payload) s q =
    enqueue_attempts reachable now id agent_id session_id payload s.jobs q
    ∙ zero_plus (attempts_in (job_of q s.jobs))
handle_attempts config (claim c batch_size) s q = claim_attempts c batch_size q s.jobs
handle_attempts config (finished p reachable clock r) s q =
    finish_attempts config reachable clock r (job_of p s.in_flight) s q
    ∙ zero_plus (attempts_in (job_of q s.jobs))

after_attempts :
    (config : ExtractionOutboxConfig) (events : List Event) (s : Outbox) (q : ℕ)
    → attempts_in (job_of q (after config events s).jobs)
      ≡ times_handed config q events s + attempts_in (job_of q s.jobs)
unfolding after times_handed
after_attempts config [] s q = zero_plus (attempts_in (job_of q s.jobs))
after_attempts config (e ∷ events) s q =
    let rest = after_attempts config events (handle config e s) q in
    let first = handle_attempts config e s q in omega arith

-- Over any history the job of an id is handed to a worker at most `max_attempts` times, counted as
-- one where that is zero; and its row says how many times it was.
pub times_handed_bounded :
    (config : ExtractionOutboxConfig) (events : List Event) (q : ℕ)
    → (times_handed config q events empty ≤ max 1 config.max_attempts)
      × (attempts_in (job_of q (after config events empty).jobs)
          ≡ times_handed config q events empty)
times_handed_bounded config events q =
    let counted : attempts_in (job_of q (after config events empty).jobs)
        ≡ times_handed config q events empty =
      let all_of_them = after_attempts config events empty q in omega arith in
    let sound = after-IsSound config events empty (empty-IsSound config) in
    (
      subst (λ n. n ≤ max 1 config.max_attempts) counted
          (fits (job_of q (after config events empty).jobs) (λ j here. (sound.budget q j here).0)),
      counted,
    )
  where
    fits :
        (o : Option ExtractionJob)
        → ((j : ExtractionJob) → o ≡ some j → j.attempts ≤ max 1 config.max_attempts)
        → attempts_in o ≤ max 1 config.max_attempts
    fits none h = omega arith
    fits (some j) h = h j refl
