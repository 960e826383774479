-- ===== src/Extraction/Sound.antt =====
-- The invariant of the outbox of src/extraction_worker.rs under concurrent workers.
use mathlib.Core.Path.{ap₂, subst}
use aeon_iq_temp.Common.{
  ℕ, ◌<◌, ◌≤◌, max, Bool, true, false, ◌||◌, List, [], ◌∷◌, ◌++◌, map, Option, none, some, Text,
  filter, ◌==◌, if◌then◌else◌, Bool-cases, Option-cases, inl, inr, ◌≡◌, refl, sym, ap, ◌∙◌, arith,
  ==_iff, ==_refl, if_true, if_false,
}
use aeon_iq_temp.Extraction.{
  ExtractionJob, ExtractionOutboxConfig, in_progress, is_pending, has_id, claimed, new_job,
  enqueue_extraction_job,
}
use aeon_iq_temp.Extraction.Rows.{job_of, on_job, IsKeyed, job_of-map, job_of-has_id}
use aeon_iq_temp.Extraction.Outbox.{Outbox, enqueued, handle}

pub append_hit :
    (q : ℕ) (xs ys : List ExtractionJob) (j : ExtractionJob)
    → job_of q xs ≡ some j
    → job_of q (xs ++ ys) ≡ some j
append_hit q [] ys j h = absurd (cc)
append_hit q (x ∷ xs) ys j h = ground (arith, append_hit q xs ys j)

pub append_miss :
    (q : ℕ) (xs ys : List ExtractionJob) → job_of q xs ≡ none → job_of q (xs ++ ys) ≡ job_of q ys
append_miss q [] ys h = refl
append_miss q (x ∷ xs) ys h = ground (arith, append_miss q xs ys)

pub has_id-append :
    (q : ℕ) (xs ys : List ExtractionJob) → has_id q (xs ++ ys) ≡ (has_id q xs || has_id q ys)
has_id-append q [] ys = refl
has_id-append q (x ∷ xs) ys = ground (arith, has_id-append q xs ys)

pub append-IsKeyed :
    (xs ys : List ExtractionJob)
    → IsKeyed xs
    → IsKeyed ys
    → ((q : ℕ) → has_id q xs ≡ true → has_id q ys ≡ false)
    → IsKeyed (xs ++ ys)
append-IsKeyed [] ys kx ky apart = ky
append-IsKeyed (x ∷ xs) ys kx ky apart = (
  has_id-append x.id xs ys ∙ ap₂ (◌||◌) kx.0 (apart x.id (ground (arith, ==_refl x.id))),
  append-IsKeyed xs ys kx.1 ky (λ q h. apart q (ground arith)),
)

pub job_of-filter :
    (p : ℕ → Bool) (q : ℕ) (jobs : List ExtractionJob)
    → job_of q (filter (λ j. p j.id) jobs) ≡ (if p q then job_of q jobs else none)
job_of-filter p q [] = ground arith
job_of-filter p q (j ∷ jobs) =
    let rest = job_of-filter p q jobs in
    elim (Bool-cases (j.id == q)) [
      | inl same ↦ let e = ap p ((==_iff j.id q).0 same) in ground arith
      | inr other ↦ ground arith
    ]

pub missing : (q : ℕ) (jobs : List ExtractionJob) → has_id q jobs ≡ false → job_of q jobs ≡ none
missing q [] h = refl
missing q (j ∷ jobs) h = ground (arith, missing q jobs)

abbrev pub IsWithinBudget : ExtractionOutboxConfig → ExtractionJob → Type 0
IsWithinBudget config j =
    (j.attempts ≤ max 1 config.max_attempts)
    × (is_pending j.status ≡ true → j.attempts < max 1 config.max_attempts)

-- The table and the jobs in flight have one row for an id; a job in flight is the row of its id,
-- `in_progress`; and every row is within its budget of attempts.
pub record IsSound (config : ExtractionOutboxConfig) (s : Outbox) : Type 0 where
  pub keyed : IsKeyed s.jobs
  pub keyed_flight : IsKeyed s.in_flight
  pub held :
      (q : ℕ) (j : ExtractionJob)
      → job_of q s.in_flight ≡ some j
      → (job_of q s.jobs ≡ some j) × (j.status ≡ in_progress)
  pub budget : (q : ℕ) (j : ExtractionJob) → job_of q s.jobs ≡ some j → IsWithinBudget config j

-- A job that a claim hands out is the row of its id, which was picked.
pub claims_hit :
    (now q : ℕ) (picked jobs : List ExtractionJob) (k : ExtractionJob)
    → job_of q (map (claimed now) (filter (λ j. has_id j.id picked) jobs)) ≡ some k
    → (j : ExtractionJob) × (job_of q jobs ≡ some j)
      × (has_id q picked ≡ true)
      × (k ≡ claimed now j)
unfolding claimed
claims_hit now q picked jobs k h =
    let through = job_of-map (claimed now) (filter (λ j. has_id j.id picked) jobs) q (λ j. refl) in
    let at_q = job_of-filter (λ n. has_id n picked) q jobs in
    elim (Bool-cases (has_id q picked)) [
      | inl hit ↦ elim (Option-cases (job_of q jobs)) [
        | inl gone ↦
            let e : job_of q (filter (λ j. has_id j.id picked) jobs) ≡ none =
              at_q ∙ if_true _ _ hit ∙ gone in
            absurd (let e' = sym h ∙ through ∙ ap (on_job (claimed now)) e in cc)
        | inr (j, here) ↦
            let e : job_of q (filter (λ j. has_id j.id picked) jobs) ≡ some j =
              at_q ∙ if_true _ _ hit ∙ here in
            (j, here, hit, let e' = sym h ∙ through ∙ ap (on_job (claimed now)) e in cc)
      ]
      | inr miss ↦
          let e : job_of q (filter (λ j. has_id j.id picked) jobs) ≡ none =
            at_q ∙ if_false _ _ miss in
          absurd (let e' = sym h ∙ through ∙ ap (on_job (claimed now)) e in cc)
    ]

add_row-IsSound :
    (config : ExtractionOutboxConfig) (j : ExtractionJob) (s : Outbox)
    → IsSound config s
    → has_id j.id s.jobs ≡ false
    → IsWithinBudget config j
    → IsSound config (record s { jobs = j ∷ s.jobs })
add_row-IsSound config j s sound fresh fits = record {
  keyed = (fresh, sound.keyed);
  keyed_flight = sound.keyed_flight;
  held = λ q k h.
      let (here, busy) = sound.held q k h in
      let apart : (j.id == q) ≡ false = elim (Bool-cases (j.id == q)) [
        | inl same ↦ absurd (
            let e = ap (λ n. has_id n s.jobs) ((==_iff j.id q).0 same) in
            let known = job_of-has_id q s.jobs k here in cc)
        | inr differ ↦ differ
      ] in
      (if_false _ _ apart ∙ here, busy);
  budget = λ q k h. elim (Bool-cases (j.id == q)) [
    | inl same ↦ let this : j ≡ k = ground arith in subst (λ i. IsWithinBudget config i) this fits
    | inr other ↦ sound.budget q k (ground arith)
  ];
}

pub enqueue-IsSound :
    (config : ExtractionOutboxConfig) (reachable : Bool) (now id : ℕ) (agent_id : Text)
    (session_id : Option Text) (payload : Text) (s : Outbox)
    → IsSound config s
    → IsSound config (handle config (enqueued reachable now id agent_id session_id payload) s)
unfolding handle enqueue_extraction_job
enqueue-IsSound config reachable now id agent_id session_id payload s sound =
    elim (Bool-cases reachable) [
      | inr down ↦
          let same : (enqueue_extraction_job reachable now id agent_id session_id payload s.jobs).0
              ≡ s.jobs =
            rw down refl in
          subst (λ jobs. IsSound config (record s { jobs = jobs })) (sym same) sound
      | inl up ↦ elim (Bool-cases (has_id id s.jobs)) [
        | inl taken ↦
            let same : (enqueue_extraction_job reachable now id agent_id session_id payload
                  s.jobs).0
                ≡ s.jobs =
              rw (up, taken) refl in
            subst (λ jobs. IsSound config (record s { jobs = jobs })) (sym same) sound
        | inr fresh ↦
            rw (up, fresh)
              (add_row-IsSound config (new_job now id agent_id session_id payload) s sound fresh
                (ground arith, λ _. ground arith))
      ]
    ]
