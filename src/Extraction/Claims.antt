-- ===== src/Extraction/Claims.antt =====
-- The loop of src/extraction_worker.rs over the jobs that it claimed, seen from one row: an update
-- of another job passes it by, and its own settles it.
use mathlib.Core.Path.{ap₂, subst}
use aeon_iq_temp.Common.{
  ℕ, Bool, true, false, ◌||◌, List, [], ◌∷◌, map, Option, none, some, filter, Result, ok, err, Text,
  ltb, ◌==◌, if◌then◌else◌, Bool-cases, inl, inr, ◌≡◌, refl, sym, ap, ◌∙◌, arith, ==_iff, if_true,
  if_false,
}
use aeon_iq_temp.Extraction.{
  ExtractionJob, ExtractionOutboxConfig, JobError, has_id, claimed, claim_row, Claim,
  execute_extraction_job, on_id, finish_update, finish_job, Work, finish_all, mark_done, mark_retry,
  mark_failed, Clock, add_to_utc, backoff_after_attempt, retry_update, send, is_panic,
}
use aeon_iq_temp.Extraction.Rows.{job_of, on_job, IsKeyed, job_of-map, has_id-map, filter-fresh}

pub claim_row-id :
    (now : ℕ) (picked : List ExtractionJob) (j : ExtractionJob) → (claim_row now picked j).id ≡ j.id
unfolding claimed
claim_row-id now picked j = ground arith

abbrev pub update_row : Option (ExtractionJob → ExtractionJob) → ExtractionJob → ExtractionJob
update_row none j = j
update_row (some f) j = f j

-- What a finish makes of a row of its job: nothing where it panics.
unfoldable pub finished_by :
    ExtractionOutboxConfig
    → Clock
    → ExtractionJob
    → Result Text (Unit {0})
    → ExtractionJob
    → ExtractionJob
finished_by config clock job r = update_row (finish_update config clock job r)

pub finished_by-keeps :
    (config : ExtractionOutboxConfig) (clock : Clock) (job : ExtractionJob)
    (r : Result Text (Unit {0})) (j : ExtractionJob)
    → ((finished_by config clock job r j).id ≡ j.id)
      × ((finished_by config clock job r j).attempts ≡ j.attempts)
unfolding finished_by finish_update mark_done mark_failed mark_retry
finished_by-keeps config clock job (ok u) j = (refl, refl)
finished_by-keeps config clock job (err e) j =
    elim (Bool-cases (ltb job.attempts config.max_attempts)) [
      | inl more ↦
          rw more (
            retried
              (add_to_utc clock (backoff_after_attempt job.attempts config.backoff_base_secs)))
      | inr spent ↦ rw spent (refl, refl)
    ]
  where
    retried :
        (t : Option ℕ)
        → ((update_row (retry_update clock.now e t) j).id ≡ j.id)
          × ((update_row (retry_update clock.now e t) j).attempts ≡ j.attempts)
    retried none = (refl, refl)
    retried (some t) = (refl, refl)

pub on_id-id :
    (config : ExtractionOutboxConfig) (clock : Clock) (job : ExtractionJob)
    (r : Result Text (Unit {0})) (j : ExtractionJob)
    → (on_id job.id (finished_by config clock job r) j).id ≡ j.id
on_id-id config clock job r j = elim (Bool-cases (j.id == job.id)) [
  | inl same ↦
      ap (λ (k : ExtractionJob). k.id) (if_true _ _ same)
      ∙ (finished_by-keeps config clock job r j).0
  | inr other ↦ ap (λ (k : ExtractionJob). k.id) (if_false _ _ other)
]

map_same :
    (f : ExtractionJob → ExtractionJob) (jobs : List ExtractionJob)
    → ((j : ExtractionJob) → f j ≡ j)
    → jobs ≡ map f jobs
map_same f [] same = refl
map_same f (j ∷ jobs) same = ap₂ (◌∷◌) (sym (same j)) (map_same f jobs same)

-- The table after a finish, whether it panics, is lost, or lands.
pub finish_job-map :
    (reachable : Bool) (config : ExtractionOutboxConfig) (clock : Clock) (job : ExtractionJob)
    (r : Result Text (Unit {0})) (jobs : List ExtractionJob)
    → (finish_job reachable config clock job r jobs).0
      ≡ (if reachable then map (on_id job.id (finished_by config clock job r)) jobs else jobs)
unfolding finish_job finished_by
finish_job-map reachable config clock job r jobs = sent (finish_update config clock job r) reachable
  where
    whole : (j : ExtractionJob) → on_id job.id (update_row none) j ≡ j
    whole j = elim (Bool-cases (j.id == job.id)) [
      | inl same ↦ if_true _ _ same
      | inr other ↦ if_false _ _ other
    ]

    sent :
        (o : Option (ExtractionJob → ExtractionJob)) (reachable : Bool)
        → (send reachable job.id jobs o).0
          ≡ (if reachable then map (on_id job.id (update_row o)) jobs else jobs)
    sent none true = map_same (on_id job.id (update_row none)) jobs whole
    sent none false = refl
    sent (some f) true = refl
    sent (some f) false = refl

-- What one attempt makes of the row that it claimed.
abbrev pub finish_row :
    ExtractionOutboxConfig → (ExtractionJob → Work) → ExtractionJob → ExtractionJob → ExtractionJob
finish_row config work job j =
    if (work job).update_ok
    then on_id job.id
        (finished_by config (work job).clock job (execute_extraction_job (work job).runner job)) j
    else j

unfoldable pub attempt_row :
    ExtractionOutboxConfig
    → Claim
    → (ExtractionJob → Work)
    → List ExtractionJob
    → ExtractionJob
    → ExtractionJob
unfolding claimed
attempt_row config c work picked j =
    if has_id j.id picked then finish_row config work (claimed c.now j) (claimed c.now j) else j

module _ (config : ExtractionOutboxConfig) (work : ExtractionJob → Work) where
  pub finish_row-id : (job j : ExtractionJob) → (finish_row config work job j).id ≡ j.id
  finish_row-id job j = elim (Bool-cases (work job).update_ok) [
    | inl lands ↦
        ap (λ (k : ExtractionJob). k.id) (if_true _ _ lands)
        ∙ on_id-id config (work job).clock job (execute_extraction_job (work job).runner job) j
    | inr lost ↦ ap (λ (k : ExtractionJob). k.id) (if_false _ _ lost)
  ]

  pub finish_row_other :
      (job j : ExtractionJob) → (j.id == job.id) ≡ false → finish_row config work job j ≡ j
  finish_row_other job j other = elim (Bool-cases (work job).update_ok) [
    | inl lands ↦ if_true _ _ lands ∙ if_false _ _ other
    | inr lost ↦ if_false _ _ lost
  ]

  unfoldable pub settle : List ExtractionJob → ExtractionJob → ExtractionJob
  settle [] j = j
  settle (job ∷ jobs) j = settle jobs (finish_row config work job j)

  pub on_job_same :
      (o : Option ExtractionJob) (f : ExtractionJob → ExtractionJob)
      → ((j : ExtractionJob) → f j ≡ j)
      → on_job f o ≡ o
  on_job_same none f same = refl
  on_job_same (some j) f same = ap some (same j)

  on_job_cong :
      {f g : ExtractionJob → ExtractionJob} (o : Option ExtractionJob)
      → ((j : ExtractionJob) → f j ≡ g j)
      → on_job f o ≡ on_job g o
  on_job_cong none h = refl
  on_job_cong (some j) h = ap some (h j)

  pub on_job_twice :
      (o : Option ExtractionJob) (f g : ExtractionJob → ExtractionJob)
      → on_job g (on_job f o) ≡ on_job (λ j. g (f j)) o
  on_job_twice none f g = refl
  on_job_twice (some j) f g = refl

  pub job_of-finish_job :
      (job : ExtractionJob) (jobs : List ExtractionJob) (q : ℕ)
      → job_of q
          (finish_job
            (work job).update_ok
            config
            (work job).clock
            job
            (execute_extraction_job (work job).runner job)
            jobs).0
        ≡ on_job (finish_row config work job) (job_of q jobs)
  job_of-finish_job job jobs q =
      let w = work job in
      let r = execute_extraction_job w.runner job in
      ap (job_of q) (finish_job-map w.update_ok config w.clock job r jobs)
      ∙ elim (Bool-cases w.update_ok) [
        | inl lands ↦
            ap (job_of q) (if_true _ _ lands)
            ∙ job_of-map (on_id job.id (finished_by config w.clock job r)) jobs q
                (λ j. on_id-id config w.clock job r j)
            ∙ on_job_cong (job_of q jobs) (λ j. sym (if_true _ _ lands))
        | inr lost ↦
            ap (job_of q) (if_false _ _ lost)
            ∙ sym
                (on_job_same (job_of q jobs) (finish_row config work job) (λ j. if_false _ _ lost))
      ]

  -- No finish of the claimed jobs panics.
  unfoldable pub Steady : Type 0
  Steady =
      (job : ExtractionJob) (jobs : List ExtractionJob)
      → is_panic
          (finish_job (work job).update_ok config (work job).clock job
            (execute_extraction_job (work job).runner job) jobs).1
        ≡ false

  pub finish_all-settle :
      (claims jobs : List ExtractionJob) (q : ℕ)
      → Steady
      → job_of q (finish_all config work claims jobs).0 ≡ on_job (settle claims) (job_of q jobs)
  unfolding settle finish_all Steady
  finish_all-settle [] jobs q steady = sym (on_job_same (job_of q jobs) (λ j. j) (λ j. refl))
  finish_all-settle (job ∷ claims) jobs q steady =
      let w = work job in
      let next =
        (finish_job w.update_ok config w.clock job (execute_extraction_job w.runner job) jobs).0 in
      ap (λ (t : List ExtractionJob × Result JobError (Unit {0})). job_of q t.0)
        (if_false _ _ (steady job jobs))
      ∙ finish_all-settle claims next q steady
      ∙ ap (on_job (settle claims)) (job_of-finish_job job jobs q)
      ∙ on_job_twice (job_of q jobs) (finish_row config work job) (settle claims)

  pub finish_all_ok :
      (claims jobs : List ExtractionJob) → Steady → (finish_all config work claims jobs).1 ≡ ok tt
  unfolding finish_all Steady
  finish_all_ok [] jobs steady = refl
  finish_all_ok (job ∷ claims) jobs steady =
      ap (λ (t : List ExtractionJob × Result JobError (Unit {0})). t.1)
        (if_false _ _ (steady job jobs))
      ∙ finish_all_ok claims _ steady

  pub settle_fresh :
      (claims : List ExtractionJob) (j : ExtractionJob)
      → has_id j.id claims ≡ false
      → settle claims j ≡ j
  unfolding settle
  settle_fresh [] j fresh = refl
  settle_fresh (job ∷ claims) j fresh =
      let other : (j.id == job.id) ≡ false = ground arith in
      let here = finish_row_other job j other in
      ap (settle claims) here ∙ settle_fresh claims j (ground arith)

  settle_first :
      (p : ℕ → Bool) (now : ℕ) (jobs : List ExtractionJob) (j : ExtractionJob)
      → has_id j.id jobs ≡ false
      → p j.id ≡ true
      → settle (map (claimed now) (filter (λ k. p k.id) (j ∷ jobs))) (claimed now j)
        ≡ finish_row config work (claimed now j) (claimed now j)
  unfolding settle claimed
  settle_first p now jobs j fresh pj =
      let rest = filter (λ k. p k.id) jobs in
      ap (λ t. settle (map (claimed now) t) (claimed now j)) (if_true _ _ pj)
      ∙ settle_fresh (map (claimed now) rest)
          (finish_row config work (claimed now j) (claimed now j))
          (ap (λ n. has_id n (map (claimed now) rest))
              (finish_row-id (claimed now j) (claimed now j))
            ∙ has_id-map (claimed now) j.id rest (λ k. refl)
            ∙ filter-fresh (λ k. p k.id) j.id jobs fresh)

  settle_other :
      (p : ℕ → Bool) (now : ℕ) (k : ExtractionJob) (jobs : List ExtractionJob) (j : ExtractionJob)
      → (j.id == k.id) ≡ false
      → settle (map (claimed now) (filter (λ k. p k.id) (k ∷ jobs))) (claimed now j)
        ≡ settle (map (claimed now) (filter (λ k. p k.id) jobs)) (claimed now j)
  unfolding settle claimed
  settle_other p now k jobs j other =
      let rest = filter (λ k. p k.id) jobs in
      elim (Bool-cases (p k.id)) [
        | inl pk ↦
            ap (λ t. settle (map (claimed now) t) (claimed now j)) (if_true _ _ pk)
            ∙ ap (settle (map (claimed now) rest))
                (finish_row_other (claimed now k) (claimed now j) other)
        | inr npk ↦ ap (λ t. settle (map (claimed now) t) (claimed now j)) (if_false _ _ npk)
      ]

  -- Of the jobs with a test on their id, the one with the row's id settles the row.
  pub settle_own :
      (p : ℕ → Bool) (now : ℕ) (jobs : List ExtractionJob) (j : ExtractionJob)
      → IsKeyed jobs
      → job_of j.id jobs ≡ some j
      → p j.id ≡ true
      → settle (map (claimed now) (filter (λ k. p k.id) jobs)) (claimed now j)
        ≡ finish_row config work (claimed now j) (claimed now j)
  settle_own p now [] j keyed h pj = absurd (cc)
  settle_own p now (k ∷ jobs) j keyed h pj = elim (Bool-cases (k.id == j.id)) [
    | inl same ↦
        let this : k ≡ j = ground arith in
        let fresh : has_id j.id jobs ≡ false = subst (λ i. has_id i.id jobs ≡ false) this keyed.0 in
        ap (λ i. settle (map (claimed now) (filter (λ k. p k.id) (i ∷ jobs))) (claimed now j)) this
        ∙ settle_first p now jobs j fresh pj
    | inr other ↦
        settle_other p now k jobs j (ground arith)
        ∙ settle_own p now jobs j keyed.1 (ground arith) pj
  ]

  pub unpicked :
      (p : ℕ → Bool) (now q : ℕ) (jobs : List ExtractionJob)
      → p q ≡ false
      → has_id q (map (claimed now) (filter (λ k. p k.id) jobs)) ≡ false
  unfolding claimed
  unpicked p now q [] np = refl
  unpicked p now q (k ∷ jobs) np =
      let rest = unpicked p now q jobs np in
      elim (Bool-cases (p k.id)) [
        | inl pk ↦
            let other : (k.id == q) ≡ false = elim (Bool-cases (k.id == q)) [
              | inl same ↦ absurd (let e : p k.id ≡ p q = ap p ((==_iff k.id q).0 same) in cc)
              | inr differ ↦ differ
            ] in
            ap (λ t. has_id q (map (claimed now) t)) (if_true _ _ pk) ∙ ap₂ (◌||◌) other rest
        | inr npk ↦ ap (λ t. has_id q (map (claimed now) t)) (if_false _ _ npk) ∙ rest
      ]
