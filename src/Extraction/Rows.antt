-- ===== src/Extraction/Rows.antt =====
-- How the statements of src/extraction_worker.rs act on one row of `extraction_jobs`: a row is
-- looked up by its id, an update acts on what the lookup finds, and a claim picks rows that are due.
use mathlib.Core.Path.{ap₂}
use aeon_iq_temp.Common.{
  ℕ, ◌-◌, Bool, true, false, ◌&&◌, ◌||◌, List, [], ◌∷◌, map, Option, none, some, any, find, filter,
  ◌==◌, Bool-cases, inl, inr, ◌≡◌, refl, sym, ap, ◌∙◌, arith, ==_iff, if_true, if_false,
}
use aeon_iq_temp.Extraction.{ExtractionJob, is_due, insert_by_time, by_time, take, has_id, chosen}

abbrev pub job_of : ℕ → List ExtractionJob → Option ExtractionJob
job_of q jobs = find (λ j. j.id == q) jobs

abbrev pub on_job : (ExtractionJob → ExtractionJob) → Option ExtractionJob → Option ExtractionJob
on_job f none = none
on_job f (some j) = some (f j)

-- The primary key.
abbrev pub IsKeyed : List ExtractionJob → Type 0
IsKeyed [] = Unit
IsKeyed (j ∷ jobs) = (has_id j.id jobs ≡ false) × IsKeyed jobs

pub job_of-map :
    (f : ExtractionJob → ExtractionJob) (jobs : List ExtractionJob) (q : ℕ)
    → ((j : ExtractionJob) → (f j).id ≡ j.id)
    → job_of q (map f jobs) ≡ on_job f (job_of q jobs)
job_of-map f [] q keeps = refl
job_of-map f (j ∷ jobs) q keeps =
    let rest = job_of-map f jobs q keeps in
    elim (Bool-cases (j.id == q)) [
      | inl same ↦
          if_true _ _ (ap (λ n. n == q) (keeps j) ∙ same)
          ∙ ap (on_job f) (sym (if_true (some j) (job_of q jobs) same))
      | inr other ↦
          if_false _ _ (ap (λ n. n == q) (keeps j) ∙ other)
          ∙ rest
          ∙ ap (on_job f) (sym (if_false (some j) (job_of q jobs) other))
    ]

pub has_id-map :
    (f : ExtractionJob → ExtractionJob) (q : ℕ) (jobs : List ExtractionJob)
    → ((j : ExtractionJob) → (f j).id ≡ j.id)
    → has_id q (map f jobs) ≡ has_id q jobs
has_id-map f q [] keeps = refl
has_id-map f q (j ∷ jobs) keeps =
    ap₂ (◌||◌) (ap (λ n. n == q) (keeps j)) (has_id-map f q jobs keeps)

pub map-IsKeyed :
    (f : ExtractionJob → ExtractionJob) (jobs : List ExtractionJob)
    → ((j : ExtractionJob) → (f j).id ≡ j.id)
    → IsKeyed jobs
    → IsKeyed (map f jobs)
map-IsKeyed f [] keeps h = tt
map-IsKeyed f (j ∷ jobs) keeps (fresh, rest) = (
  has_id-map f (f j).id jobs keeps ∙ ap (λ n. has_id n jobs) (keeps j) ∙ fresh,
  map-IsKeyed f jobs keeps rest,
)

pub filter-fresh :
    (p : ExtractionJob → Bool) (q : ℕ) (jobs : List ExtractionJob)
    → has_id q jobs ≡ false
    → has_id q (filter p jobs) ≡ false
filter-fresh p q [] h = refl
filter-fresh p q (j ∷ jobs) h = ground (arith, filter-fresh p q jobs)

pub filter-IsKeyed :
    (p : ExtractionJob → Bool) (jobs : List ExtractionJob) → IsKeyed jobs → IsKeyed (filter p jobs)
filter-IsKeyed p [] h = tt
filter-IsKeyed p (j ∷ jobs) (fresh, rest) = elim (Bool-cases (p j)) [
  | inl yes_p ↦ rw yes_p (filter-fresh p j.id jobs fresh, filter-IsKeyed p jobs rest)
  | inr no_p ↦ rw no_p (filter-IsKeyed p jobs rest)
]

pub job_of-id :
    (q : ℕ) (jobs : List ExtractionJob) (j : ExtractionJob) → job_of q jobs ≡ some j → j.id ≡ q
job_of-id q [] j h = absurd (cc)
job_of-id q (k ∷ jobs) j h = ground (arith, job_of-id q jobs j)

pub job_of-has_id :
    (q : ℕ) (jobs : List ExtractionJob) (j : ExtractionJob)
    → job_of q jobs ≡ some j
    → has_id q jobs ≡ true
job_of-has_id q [] j h = absurd (cc)
job_of-has_id q (k ∷ jobs) j h = ground (arith, job_of-has_id q jobs j)

-- Some row of the list passes a test and bears the id.
abbrev pub found : (ExtractionJob → Bool) → ℕ → List ExtractionJob → Bool
found p q jobs = any (λ j. j.id == q && p j) jobs

found-take :
    (p : ExtractionJob → Bool) (q n : ℕ) (jobs : List ExtractionJob)
    → found p q (take n jobs) ≡ true
    → found p q jobs ≡ true
found-take p q n [] h = h
found-take p q n (j ∷ jobs) h = ground (arith, found-take p q (n - 1) jobs)

found_insert :
    (p : ExtractionJob → Bool) (q : ℕ) (j : ExtractionJob) (jobs : List ExtractionJob)
    → found p q (insert_by_time j jobs) ≡ found p q (j ∷ jobs)
unfolding insert_by_time
found_insert p q j [] = refl
found_insert p q j (k ∷ jobs) = ground (arith, found_insert p q j jobs)

found-by_time :
    (p : ExtractionJob → Bool) (q : ℕ) (jobs : List ExtractionJob)
    → found p q (by_time jobs) ≡ found p q jobs
unfolding by_time
found-by_time p q [] = refl
found-by_time p q (j ∷ jobs) =
    found_insert p q j (by_time jobs) ∙ ap (λ b. (j.id == q && p j) || b) (found-by_time p q jobs)

found-filter :
    (p : ExtractionJob → Bool) (q : ℕ) (jobs : List ExtractionJob)
    → found (λ j. true) q (filter p jobs) ≡ found p q jobs
found-filter p q [] = refl
found-filter p q (j ∷ jobs) = ground (arith, found-filter p q jobs)

has_id-found : (q : ℕ) (jobs : List ExtractionJob) → has_id q jobs ≡ found (λ j. true) q jobs
has_id-found q [] = refl
has_id-found q (j ∷ jobs) = ground (arith, has_id-found q jobs)

found_here :
    (p : ExtractionJob → Bool) (q : ℕ) (jobs : List ExtractionJob) (j : ExtractionJob)
    → IsKeyed jobs
    → job_of q jobs ≡ some j
    → found p q jobs ≡ true
    → p j ≡ true
found_here p q [] j keyed h f = absurd (cc)
found_here p q (k ∷ jobs) j keyed h f = elim (Bool-cases (k.id == q)) [
  | inl same ↦
      let this : k ≡ j = ground arith in
      let fresh : has_id q jobs ≡ false =
        ap (λ n. has_id n jobs) (sym ((==_iff k.id q).0 same)) ∙ keyed.0 in
      ap p (sym this) ∙ none_below jobs fresh (ground arith)
  | inr other ↦ found_here p q jobs j keyed.1 (ground arith) (ground arith)
]
  where
    none_below :
        (jobs : List ExtractionJob)
        → has_id q jobs ≡ false
        → (p k || found p q jobs) ≡ true
        → p k ≡ true
    none_below [] fresh f = ground arith
    none_below (i ∷ is) fresh f = none_below is (ground arith) (ground arith)

-- A row that is picked is due.
pub chosen_due :
    (now : ℕ) (locked : List ℕ) (batch_size q : ℕ) (jobs : List ExtractionJob) (j : ExtractionJob)
    → IsKeyed jobs
    → job_of q jobs ≡ some j
    → has_id q (chosen now locked batch_size jobs) ≡ true
    → is_due now locked j ≡ true
unfolding chosen
chosen_due now locked batch_size q jobs j keyed h picked =
    let due = filter (is_due now locked) jobs in
    let taken =
      found-take (λ _. true) q batch_size (by_time due)
        (sym (has_id-found q (take batch_size (by_time due))) ∙ picked) in
    found_here (is_due now locked) q jobs j keyed h (
      sym (found-filter (is_due now locked) q jobs) ∙ sym (found-by_time (λ _. true) q due) ∙ taken)
