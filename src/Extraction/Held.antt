-- ===== src/Extraction/Held.antt =====
-- A claim of src/extraction_worker.rs keeps the invariant of the outbox.
use mathlib.Core.Path.{subst}
use aeon_iq_temp.Common.{
  ℕ, true, false, List, ◌++◌, map, some, filter, any-find, ◌==◌, Bool-cases, Option-cases, inl, inr,
  ◌≡◌, refl, sym, ap, ◌∙◌, arith, if_true, if_false,
}
use aeon_iq_temp.Extraction.{
  ExtractionJob, ExtractionOutboxConfig, in_progress, is_pending, is_due, has_id, chosen, claimed,
  claim_row, Claim, claim_due_jobs,
}
use aeon_iq_temp.Extraction.Rows.{
  job_of, on_job, IsKeyed, job_of-map, map-IsKeyed, filter-IsKeyed, job_of-id, chosen_due,
}
use aeon_iq_temp.Extraction.Claims.{claim_row-id}
use aeon_iq_temp.Extraction.Outbox.{Outbox, claim, handle}
use aeon_iq_temp.Extraction.Sound.{
  append_hit, append_miss, append-IsKeyed, IsWithinBudget, IsSound, claims_hit,
}

pub in_progress_stays :
    (config : ExtractionOutboxConfig) (c : Claim) (batch_size q : ℕ) (s : Outbox)
    (j : ExtractionJob)
    → IsKeyed s.jobs
    → job_of q s.jobs ≡ some j
    → is_pending j.status ≡ false
    → has_id q (chosen c.now c.locked batch_size s.jobs) ≡ false
unfolding is_due
in_progress_stays config c batch_size q s j keyed here busy =
    elim (Bool-cases (has_id q (chosen c.now c.locked batch_size s.jobs))) [
      | inl hit ↦
          absurd (
            let due = chosen_due c.now c.locked batch_size q s.jobs j keyed here hit in
            ground arith)
      | inr miss ↦ miss
    ]

module _ (config : ExtractionOutboxConfig) (c : Claim) (batch_size : ℕ) (s : Outbox)
    (sound : IsSound config s) where
  picked_here : List ExtractionJob
  picked_here = chosen c.now c.locked batch_size s.jobs

  claims_here : List ExtractionJob
  unfolding picked_here
  claims_here = map (claimed c.now) (filter (λ j. has_id j.id picked_here) s.jobs)

  claimed_row :
      (q : ℕ)
      → job_of q (map (claim_row c.now picked_here) s.jobs)
        ≡ on_job (claim_row c.now picked_here) (job_of q s.jobs)
  claimed_row q =
      job_of-map (claim_row c.now picked_here) s.jobs q (λ j. claim_row-id c.now picked_here j)

  claims_apart : (q : ℕ) → has_id q claims_here ≡ true → has_id q s.in_flight ≡ false
  unfolding claims_here picked_here
  claims_apart q h = elim (Bool-cases (has_id q s.in_flight)) [
    | inr fresh ↦ fresh
    | inl flying ↦
        let (k, hit) = any-find (λ j. j.id == q) claims_here h in
        let (j, here, was_picked, same) = claims_hit c.now q picked_here s.jobs k hit in
        let (f, f_hit) = any-find (λ j. j.id == q) s.in_flight flying in
        let (f_here, busy) = sound.held q f f_hit in
        let stays =
          in_progress_stays config c batch_size q s f sound.keyed f_here (ap is_pending busy) in
        absurd (cc)
  ]

  claimed_held :
      (q : ℕ) (j : ExtractionJob)
      → job_of q (claims_here ++ s.in_flight) ≡ some j
      → (job_of q (map (claim_row c.now picked_here) s.jobs) ≡ some j) × (j.status ≡ in_progress)
  unfolding claims_here picked_here claimed claim_row
  claimed_held q j h = elim (Option-cases (job_of q claims_here)) [
    | inr (k, hit) ↦
        let (j0, here, was_picked, same) = claims_hit c.now q picked_here s.jobs k hit in
        let is_k : k ≡ j = let e = append_hit q claims_here s.in_flight k hit in cc in
        let own : has_id j0.id picked_here ≡ true =
          ap (λ n. has_id n picked_here) (job_of-id q s.jobs j0 here) ∙ was_picked in
        let is_j : claimed c.now j0 ≡ j = sym same ∙ is_k in
        (
          claimed_row q
              ∙ ap (on_job (claim_row c.now picked_here)) here
              ∙ ap some (if_true _ _ own ∙ is_j),
          ap (λ (i : ExtractionJob). i.status) (sym is_j),
        )
    | inl none_claimed ↦
        let (here, busy) =
          sound.held q j (sym (append_miss q claims_here s.in_flight none_claimed) ∙ h) in
        let stays =
          in_progress_stays config c batch_size q s j sound.keyed here (ap is_pending busy) in
        let own : has_id j.id picked_here ≡ false =
          ap (λ n. has_id n picked_here) (job_of-id q s.jobs j here) ∙ stays in
        (
          claimed_row q
              ∙ ap (on_job (claim_row c.now picked_here)) here
              ∙ ap some (if_false _ _ own),
          busy,
        )
  ]

  claimed_budget :
      (q : ℕ) (j : ExtractionJob)
      → job_of q (map (claim_row c.now picked_here) s.jobs) ≡ some j
      → IsWithinBudget config j
  unfolding claim_row picked_here is_due
  claimed_budget q j h = elim (Option-cases (job_of q s.jobs)) [
    | inl gone ↦
        absurd
          (let e = sym h ∙ claimed_row q ∙ ap (on_job (claim_row c.now picked_here)) gone in cc)
    | inr (k, here) ↦
        let is_j : claim_row c.now picked_here k ≡ j =
          let e = sym h ∙ claimed_row q ∙ ap (on_job (claim_row c.now picked_here)) here in cc in
        subst (λ i. IsWithinBudget config i) is_j
          (elim (Bool-cases (has_id k.id picked_here)) [
            | inl hit ↦
                let key = job_of-id q s.jobs k here in
                let due =
                  chosen_due c.now c.locked batch_size q s.jobs k sound.keyed here
                    (ap (λ n. has_id n picked_here) (sym key) ∙ hit) in
                let fits = (sound.budget q k here).1 (ground arith) in
                subst (λ i. IsWithinBudget config i) (sym (if_true (claimed c.now k) k hit))
                  (omega arith, λ e. absurd (cc))
            | inr miss ↦
                subst (λ i. IsWithinBudget config i) (sym (if_false (claimed c.now k) k miss))
                  (sound.budget q k here)
          ])
  ]

  pub claim-IsSound : IsSound config (handle config (claim c batch_size) s)
  unfolding handle claim_due_jobs claims_here claimed
  claim-IsSound = elim (Bool-cases c.reachable) [
    | inr down ↦ rw down sound
    | inl up ↦ rw up (record {
      keyed =
          map-IsKeyed (claim_row c.now picked_here) s.jobs (λ j. claim_row-id c.now picked_here j)
            sound.keyed;
      keyed_flight =
          append-IsKeyed claims_here s.in_flight
            (map-IsKeyed (claimed c.now) (filter (λ j. has_id j.id picked_here) s.jobs) (λ j. refl)
              (filter-IsKeyed (λ j. has_id j.id picked_here) s.jobs sound.keyed))
            sound.keyed_flight claims_apart;
      held = claimed_held;
      budget = claimed_budget;
    })
  ]
