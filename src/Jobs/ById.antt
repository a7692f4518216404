-- ===== src/Jobs/ById.antt =====
-- What a claim by id is for, said without the tests of the code.
use automem.Common.{
  ap, first-test, first, first-update, ℕ, ◌+◌, ◌≤◌, ◌≡◌, ◌≢◌, refl, subst, ◌⊎◌, inl, inr, true,
  false, Option, none, some, List, arith, Option-cases, update,
}
use automem.Text.{◌==◌, eq_sound, Text}
use automem.Http.{Result, ok}
use automem.Jobs.{Job, JobStatus, pending, running, completed, failed, status_eq}
use automem.Jobs.Queue.{
  lease, lease_time, claim_governance_job_by_id, fetch_governance_job, has_id, refuses_claim,
}
use automem.Jobs.Invariant.{IsOrderly}
use automem.Jobs.Claims.{claim_by_id_cases, fetch-update_self, fetch-id}

module _ {P R : Type 0} where
  -- A job that waits, or that runs without a lease or under one that has ended at `now`.
  pub data IsFree (now : ℕ) (job : Job P R) : Type 0 where
    waits : job.status ≡ pending → IsFree now job
    unleased : job.status ≡ running → job.lease_expires_at ≡ none → IsFree now job
    expired :
        (t : ℕ) → job.status ≡ running → job.lease_expires_at ≡ some t → t ≤ now → IsFree now job

  -- The job after a claim: who runs it and until when, one attempt more, and the first start kept; its
  -- other columns are those of before.
  pub record IsClaimed (worker_id : Text) (now until : ℕ) (before after : Job P R) : Type 0 where
    pub runs : after.status ≡ running
    pub holder : after.leased_by ≡ some worker_id
    pub lease_end : after.lease_expires_at ≡ some until
    pub attempt : after.attempts ≡ before.attempts + 1
    pub started : (t : ℕ) → before.started_at ≡ some t → after.started_at ≡ some t
    pub starts : before.started_at ≡ none → after.started_at ≡ some now
    pub same_job : after.job_id ≡ before.job_id
    pub same_payload : after.payload ≡ before.payload
    pub same_budget : after.max_attempts ≡ before.max_attempts

  lease-IsClaimed :
      (worker_id : Text) (now until : ℕ) (job : Job P R)
      → IsClaimed worker_id now until job (lease worker_id now until job)
  unfolding lease
  lease-IsClaimed worker_id now until job = record {
    runs = refl;
    holder = refl;
    lease_end = refl;
    attempt = refl;
    started = λ t e. rw e refl;
    starts = λ e. rw e refl;
    same_job = refl;
    same_payload = refl;
    same_budget = refl;
  }

  refuses_claim-false : (now : ℕ) (job : Job P R) → refuses_claim now job ≡ false → IsFree now job
  unfolding refuses_claim status_eq
  refuses_claim-false now job e = go job.status job.lease_expires_at refl refl
    where
      go :
          (status : JobStatus) (ends : Option ℕ)
          → job.status ≡ status
          → job.lease_expires_at ≡ ends
          → IsFree now job
      go pending ends s l = waits s
      go running none s l = unleased s l
      go running (some t) s l = expired t s l (ground (arith, e, s, l))
      go completed ends s l = absurd (ground (arith, e, s))
      go failed ends s l = absurd (ground (arith, e, s))

  refuses_claim-true : (now : ℕ) (job : Job P R) → refuses_claim now job ≡ true → ¬ IsFree now job
  unfolding refuses_claim status_eq
  refuses_claim-true now job e (waits s) = ground (arith, e, s)
  refuses_claim-true now job e (unleased s l) = ground (arith, e, s, l)
  refuses_claim-true now job e (expired t s l h) = ground (arith, e, s, l, h)

  lease-id :
      (worker_id : Text) (now until : ℕ) (job : Job P R)
      → (lease worker_id now until job).job_id ≡ job.job_id
  unfolding lease
  lease-id worker_id now until job = refl

  -- The UPDATE of a claim leaves what is found under other ids.
  fetch-lease_other :
      (other job_id worker_id : Text) (now until : ℕ) (table : List (Job P R))
      → other ≢ job_id
      → fetch_governance_job other (update (has_id job_id) (lease worker_id now until) table)
        ≡ fetch_governance_job other table
  unfolding fetch_governance_job
  fetch-lease_other other job_id worker_id now until table differs =
      let moved =
        first-update (has_id {P = P} {R = R} job_id) (has_id other) (lease worker_id now until)
          (λ j _. ap (λ id. id == other) (lease-id worker_id now until j)) table in
      elim (Option-cases (first (has_id other) table)) [
        | inl n ↦ rw moved (ground (arith, n))
        | inr (row, found) ↦ rw moved (
            ground (
              arith,
              found,
              first-test (has_id other) table found,
              eq_sound row.job_id other,
              eq_sound row.job_id job_id,
              differs,
            ))
      ]

  module _ (job_id worker_id : Text) (seconds now later : ℕ) (table : List (Job P R)) where
    abbrev claim : Result (Option (Job P R)) × List (Job P R)
    claim = claim_governance_job_by_id job_id worker_id seconds now later table

    -- On a table in order: if the job of that id is free, the claim returns it claimed, its row is that
    -- job, and the jobs of the other ids are as before; if it is not free, or there is none, the claim
    -- returns no job and changes nothing.
    pub claim_by_id-IsClaimed :
        IsOrderly table
        → ((before : Job P R) × (fetch_governance_job job_id table ≡ some before)
            × IsFree now before
            × ((after : Job P R) × (claim.0 ≡ ok (some after))
                × IsClaimed worker_id now (later + lease_time seconds) before after
                × (fetch_governance_job job_id claim.1 ≡ some after)
                × ((other : Text)
                    → other ≢ job_id
                    → fetch_governance_job other claim.1 ≡ fetch_governance_job other table)))
          ⊎ ((before : Job P R)
              → fetch_governance_job job_id table ≡ some before
              → ¬ IsFree now before)
            × (claim ≡ (ok none, table))
    claim_by_id-IsClaimed c = elim (claim_by_id_cases job_id worker_id seconds now later table c) [
      | inl (same, inl absent) ↦ inr (λ before there. absurd (cc (absent, there)), same)
      | inl (same, inr (row, there, refused)) ↦ inr (
        λ before found free.
            refuses_claim-true now row refused (subst (IsFree now) (cc (found, there)) free),
        same,
      )
      | inr (row, there, taken, after) ↦
          let until = later + lease_time seconds in
          inl (
            row,
            there,
            refuses_claim-false now row taken,
            (
              lease worker_id now until row,
              rw after refl,
              lease-IsClaimed worker_id now until row,
              rw after (
                  fetch-update_self job_id (lease worker_id now until) table
                    (lease-id worker_id now until) there (fetch-id job_id table there)),
              λ other differs.
                  rw after (fetch-lease_other other job_id worker_id now until table differs),
            ),
          )
    ]
