-- ===== src/Extraction/Drains.antt =====
-- A drain of src/extraction_worker.rs as a whole: the rows it picks, and what it leaves of each.
use native.Mathlib.Nat.{mul-le-mul_left, pow-le-pow_right}
use aeon_iq_temp.Common.{
  ℕ, ◌*◌, ◌^◌, min, leb, ltb, err, Text, suc, ◌+◌, ◌-◌, Bool, true, false, ◌||◌, List, [], ◌∷◌, map,
  some, filter, Result, ok, length, ◌≤◌, ◌==◌, Bool-cases, Option-cases, inl, inr, ◌≡◌, refl, sym,
  ap, ◌∙◌, arith, ==_iff, if_true, if_false,
}
use aeon_iq_temp.Extraction.{
  ExtractionJob, ExtractionOutboxConfig, JobError, is_due, by_time, take, has_id, chosen, claimed,
  claim_row, Claim, claim_due_jobs, claim_batch_size, Work, drain_due_jobs, drain_claimed,
  finish_all, Clock, execute_extraction_job, finish_job, finish_update, reported, max_duration_secs,
  is_panic, backoff_after_attempt, add_to_utc, send,
}
use aeon_iq_temp.Extraction.Rows.{job_of, on_job, IsKeyed, job_of-map, job_of-id, chosen_due}
use aeon_iq_temp.Extraction.Claims.{
  Steady, finish_all_ok, attempt_row, claim_row-id, settle, finish_all-settle, on_job_twice,
  settle_fresh, settle_own, unpicked,
}

length_union :
    (p q : ExtractionJob → Bool) (jobs : List ExtractionJob)
    → length (filter (λ j. p j || q j) jobs) ≤ length (filter p jobs) + length (filter q jobs)
length_union p q [] = omega arith
length_union p q (j ∷ jobs) = ground (arith, length_union p q jobs)

length_none :
    (n : ℕ) (jobs : List ExtractionJob)
    → has_id n jobs ≡ false
    → length (filter (λ j. n == j.id) jobs) ≡ 0
length_none n [] h = refl
length_none n (j ∷ jobs) h = ground (arith, length_none n jobs)

length_one :
    (n : ℕ) (jobs : List ExtractionJob) → IsKeyed jobs → length (filter (λ j. n == j.id) jobs) ≤ 1
length_one n [] h = omega arith
length_one n (j ∷ jobs) (fresh, rest) = elim (Bool-cases (n == j.id)) [
  | inl same ↦
      let key = (==_iff n j.id).0 same in
      let alone = length_none n jobs (ap (λ i. has_id i jobs) key ∙ fresh) in ground arith
  | inr other ↦ let below = length_one n jobs rest in ground arith
]

length_picked :
    (picked jobs : List ExtractionJob)
    → IsKeyed jobs
    → length (filter (λ j. has_id j.id picked) jobs) ≤ length picked
length_picked [] jobs keyed = filter_nothing jobs
  where
    filter_nothing : (jobs : List ExtractionJob) → length (filter (λ j. false) jobs) ≤ 0
    filter_nothing [] = omega arith
    filter_nothing (j ∷ jobs) = filter_nothing jobs
length_picked (k ∷ picked) jobs keyed =
    let both = length_union (λ j. k.id == j.id) (λ j. has_id j.id picked) jobs in
    let one = length_one k.id jobs keyed in
    let rest = length_picked picked jobs keyed in omega arith

length-map :
    (f : ExtractionJob → ExtractionJob) (jobs : List ExtractionJob)
    → length (map f jobs) ≡ length jobs
length-map f [] = refl
length-map f (j ∷ jobs) = ap suc (length-map f jobs)

length-take : (n : ℕ) (jobs : List ExtractionJob) → length (take n jobs) ≤ n
length-take n [] = omega arith
length-take n (j ∷ jobs) = ground (arith, length-take (n - 1) jobs)

reported_jobs :
    (n : ℕ) (t : List ExtractionJob × Result JobError (Unit {0})) (q : ℕ)
    → job_of q (reported n t).0 ≡ job_of q t.0
reported_jobs n (jobs, ok u) q = refl
reported_jobs n (jobs, err e) q = refl

reported_count :
    (n : ℕ) (t : List ExtractionJob × Result JobError (Unit {0}))
    → t.1 ≡ ok tt
    → (reported n t).1 ≡ ok n
reported_count n (jobs, ok u) h = refl
reported_count n (jobs, err e) h = absurd (cc)

module _ (config : ExtractionOutboxConfig) (work : ExtractionJob → Work) where
  -- The claimed jobs, each finished once, leave on every row what one attempt makes of it.
  settle_row :
      (c : Claim) (picked jobs : List ExtractionJob) (j : ExtractionJob)
      → IsKeyed jobs
      → job_of j.id jobs ≡ some j
      → settle config work
          (map (claimed c.now) (filter (λ k. has_id k.id picked) jobs))
          (claim_row c.now picked j)
        ≡ attempt_row config c work picked j
  unfolding claim_row attempt_row
  settle_row c picked jobs j keyed h =
      let claims = map (claimed c.now) (filter (λ k. has_id k.id picked) jobs) in
      elim (Bool-cases (has_id j.id picked)) [
        | inl hit ↦
            ap (settle config work claims) (if_true _ _ hit)
            ∙ settle_own config work (λ n. has_id n picked) c.now jobs j keyed h hit
            ∙ sym (if_true _ _ hit)
        | inr miss ↦
            ap (settle config work claims) (if_false _ _ miss)
            ∙ settle_fresh config work claims j
                (unpicked config work (λ n. has_id n picked) c.now j.id jobs miss)
            ∙ sym (if_false _ _ miss)
      ]

  drained :
      (c : Claim) (jobs : List ExtractionJob) (q : ℕ)
      → IsKeyed jobs
      → Steady config work
      → c.reachable ≡ true
      → job_of q (drain_due_jobs config c work jobs).0
        ≡ on_job
            (attempt_row config c work (chosen c.now c.locked claim_batch_size jobs))
            (job_of q jobs)
  unfolding drain_due_jobs claim_due_jobs drain_claimed
  drained c jobs q keyed steady up =
      let picked = chosen c.now c.locked claim_batch_size jobs in
      let claims = map (claimed c.now) (filter (λ k. has_id k.id picked) jobs) in
      ap
        (λ (t : List ExtractionJob × Result JobError (List ExtractionJob)).
          job_of q (drain_claimed config work t).0)
        (if_true _ _ up)
      ∙ reported_jobs (length claims)
          (finish_all config work claims (map (claim_row c.now picked) jobs)) q
      ∙ finish_all-settle config work claims (map (claim_row c.now picked) jobs) q steady
      ∙ ap (on_job (settle config work claims))
          (job_of-map (claim_row c.now picked) jobs q (λ j. claim_row-id c.now picked j))
      ∙ on_job_twice config work (job_of q jobs) (claim_row c.now picked)
          (settle config work claims)
      ∙ elim (Option-cases (job_of q jobs)) [
        | inl miss ↦ rw miss refl
        | inr (j, hit) ↦
            let key = job_of-id q jobs j hit in
            let own : job_of j.id jobs ≡ some j = ap (λ n. job_of n jobs) key ∙ hit in
            ap (on_job (λ k. settle config work claims (claim_row c.now picked k))) hit
            ∙ ap some (settle_row c picked jobs j keyed own)
            ∙ ap (on_job (attempt_row config c work picked)) (sym hit)
      ]

-- No backoff of the configuration is out of the range of the crate chrono: neither as a number of
-- seconds, nor as a time after the worker's own.
abbrev pub InRange : ExtractionOutboxConfig → (ExtractionJob → Work) → Type 0
InRange config work =
    (job : ExtractionJob)
    → (config.backoff_base_secs * 2 ^ 30 ≤ max_duration_secs)
      × ((work job).clock.utc + config.backoff_base_secs * 2 ^ 30 ≤ (work job).clock.max_utc)

sent_quietly :
    (reachable : Bool) (id : ℕ) (jobs : List ExtractionJob) (f : ExtractionJob → ExtractionJob)
    → is_panic (send reachable id jobs (some f)).1 ≡ false
sent_quietly true id jobs f = refl
sent_quietly false id jobs f = refl

backoff_in_range :
    (attempts base : ℕ) (clock : Clock)
    → base * 2 ^ 30 ≤ max_duration_secs
    → clock.utc + base * 2 ^ 30 ≤ clock.max_utc
    → (t : ℕ) × (add_to_utc clock (backoff_after_attempt attempts base) ≡ some t)
unfolding backoff_after_attempt
backoff_in_range attempts base clock short soon =
    let factor = 2 ^ min (attempts - 1) 30 in
    let bounded : base * factor ≤ base * 2 ^ 30 =
      let few : min (attempts - 1) 30 ≤ 30 = omega arith in
      mul-le-mul_left base (pow-le-pow_right (omega arith) few) in
    let seconds = min (min (base * factor) (2 ^ 64 - 1)) (2 ^ 63 - 1) in
    let takes : leb seconds max_duration_secs ≡ true = ground arith in
    let has : leb (clock.utc + seconds) clock.max_utc ≡ true = ground arith in
    (clock.utc + seconds, rw (takes, has) refl)

finishes_quietly :
    (config : ExtractionOutboxConfig) (clock : Clock) (job : ExtractionJob)
    (r : Result Text (Unit {0})) (reachable : Bool) (jobs : List ExtractionJob)
    → config.backoff_base_secs * 2 ^ 30 ≤ max_duration_secs
    → clock.utc + config.backoff_base_secs * 2 ^ 30 ≤ clock.max_utc
    → is_panic (finish_job reachable config clock job r jobs).1 ≡ false
unfolding finish_job finish_update
finishes_quietly config clock job (ok u) reachable jobs short soon =
    sent_quietly reachable job.id jobs _
finishes_quietly config clock job (err e) reachable jobs short soon =
    elim (Bool-cases (ltb job.attempts config.max_attempts)) [
      | inr spent ↦ rw spent (sent_quietly reachable job.id jobs _)
      | inl more ↦
          let (t, found) =
            backoff_in_range job.attempts config.backoff_base_secs clock short soon in
          rw (more, found) (sent_quietly reachable job.id jobs _)
    ]

InRange-Steady :
    (config : ExtractionOutboxConfig) (work : ExtractionJob → Work)
    → InRange config work
    → Steady config work
unfolding Steady
InRange-Steady config work fits job jobs =
    let (short, soon) = fits job in
    let w = work job in
    finishes_quietly config w.clock job (execute_extraction_job w.runner job) w.update_ok jobs short
      soon

-- A drain of a keyed table that reaches the database, with every backoff in the range of the crate
-- chrono, works on at most ten rows, each of which was pending, due and not locked, and reports
-- how many of the table's rows these are. Looked up by any id, the table is as before except that
-- each of those rows has had exactly one attempt: it was claimed, run, and finished unless its
-- update was lost.
pub drain_due_jobs_lem :
    (config : ExtractionOutboxConfig) (work : ExtractionJob → Work) (c : Claim)
    (jobs : List ExtractionJob)
    → IsKeyed jobs
    → InRange config work
    → c.reachable ≡ true
    → let picked = chosen c.now c.locked claim_batch_size jobs in
      let worked_on = filter (λ j. has_id j.id picked) jobs in
      ((q : ℕ)
        → job_of q (drain_due_jobs config c work jobs).0
          ≡ on_job (attempt_row config c work picked) (job_of q jobs))
      × ((q : ℕ) (j : ExtractionJob)
          → job_of q jobs ≡ some j
          → has_id q picked ≡ true
          → is_due c.now c.locked j ≡ true)
      × ((drain_due_jobs config c work jobs).1 ≡ ok (length worked_on))
      × (length worked_on ≤ claim_batch_size)
unfolding drain_due_jobs claim_due_jobs drain_claimed chosen
drain_due_jobs_lem config work c jobs keyed fits up =
    let picked = chosen c.now c.locked claim_batch_size jobs in
    let worked_on = filter (λ k. has_id k.id picked) jobs in
    let claims = map (claimed c.now) worked_on in
    let table = map (claim_row c.now picked) jobs in
    let steady = InRange-Steady config work fits in
    (
      λ q. drained config work c jobs q keyed steady up,
      λ q j here hit. chosen_due c.now c.locked claim_batch_size q jobs j keyed here hit,
      ap
            (λ (t : List ExtractionJob × Result JobError (List ExtractionJob)).
              (drain_claimed config work t).1)
            (if_true _ _ up)
          ∙ reported_count (length claims) (finish_all config work claims table)
              (finish_all_ok config work claims table steady)
          ∙ ap ok (length-map (claimed c.now) worked_on),
      omega (
        arith,
        length_picked picked jobs keyed,
        length-take claim_batch_size (by_time (filter (is_due c.now c.locked) jobs)),
      ),
    )
