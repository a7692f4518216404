-- ===== src/Jobs/Invariant.antt =====
-- What the operations of the queue keep true of its table.
use automem.Common.{
  All-map_of, ◌<◌, ℕ, ◌≤◌, length, select, ◌≡◌, ◌≢◌, refl, Option, none, some, List, arith, All,
  UniqueBy,
}
use automem.Text.{Text}
use automem.Jobs.{pending, JobRequest, Job, JobStatus, running, completed}
use automem.Jobs.Queue.{has_key, new_job, lease, finish, release}

-- The statuses that `finalize_governance_job` is called with.
abbrev pub IsTerminal : JobStatus → Type 0
IsTerminal status = (status ≢ running) × (status ≢ pending)

module _ {P R : Type 0} where
  -- A running job has a lease, a holder and an attempt behind it; no other job has a lease or a holder.
  -- A completed job has an end.
  pub record IsLawful (job : Job P R) : Type 0 where
    pub leased : job.status ≡ running → (t : ℕ) × (job.lease_expires_at ≡ some t)
    pub held : job.status ≡ running → (w : Text) × (job.leased_by ≡ some w)
    pub tried : job.status ≡ running → 1 ≤ job.attempts
    pub free : job.status ≢ running → (job.lease_expires_at ≡ none) × (job.leased_by ≡ none)
    pub ended : job.status ≡ completed → (t : ℕ) × (job.finished_at ≡ some t)
    pub bounded : (1 ≤ job.max_attempts) × (job.max_attempts ≤ 10)

  -- Besides, a pending job has an attempt left.
  pub record IsBudgeted (job : Job P R) : Type 0 where
    pub lawful : IsLawful job
    pub budget : job.status ≡ pending → job.attempts < job.max_attempts

  -- No two jobs have one id, no two have one idempotency key, and each is as `Q` says.
  pub record IsTableOf (Q : Job P R → Type 0) (table : List (Job P R)) : Type 0 where
    pub ids : UniqueBy (λ (j : Job P R). j.job_id) table
    pub keys : (key : Text) → length (select (has_key key) table) ≤ 1
    pub rows : All Q table

  -- What holds under any interleaving of several processes.
  abbrev pub IsOrderly : List (Job P R) → Type 0
  IsOrderly = IsTableOf IsLawful

  -- What holds as long as nothing is written between the statements of a release.
  abbrev pub IsConsistent : List (Job P R) → Type 0
  IsConsistent = IsTableOf IsBudgeted

  pub consistent-IsOrderly : (table : List (Job P R)) → IsConsistent table → IsOrderly table
  consistent-IsOrderly table c = record {
    ids = c.ids;
    keys = c.keys;
    rows = All-map_of IsBudgeted IsLawful (λ j b. b.lawful) table c.rows;
  }

  pub new_job-IsLawful :
      (job_id : Text) (now : ℕ) (request : JobRequest P)
      → IsLawful (new_job {R = R} job_id now request)
  new_job-IsLawful job_id now request = record {
    leased = λ e. absurd (cc);
    held = λ e. absurd (cc);
    tried = λ e. absurd (cc);
    free = λ _. (refl, refl);
    ended = λ e. absurd (cc);
    bounded = (omega arith, omega arith);
  }

  pub lease-IsLawful :
      (worker_id : Text) (now until : ℕ) (job : Job P R)
      → IsLawful job
      → IsLawful (lease worker_id now until job)
  unfolding lease
  lease-IsLawful worker_id now until job h = record {
    leased = λ _. (until, refl);
    held = λ _. (worker_id, refl);
    tried = λ _. omega arith;
    free = λ n. absurd (n refl);
    ended = λ e. absurd (cc);
    bounded = h.bounded;
  }

  pub finish-IsLawful :
      (status : JobStatus) (result : Option R) (error_text : Option Text) (now : ℕ) (job : Job P R)
      → IsTerminal status
      → IsLawful job
      → IsLawful (finish status result error_text now job)
  unfolding finish
  finish-IsLawful status result error_text now job n h = record {
    leased = λ e. absurd (n.0 e);
    held = λ e. absurd (n.0 e);
    tried = λ e. absurd (n.0 e);
    free = λ _. (refl, refl);
    ended = λ _. (now, refl);
    bounded = h.bounded;
  }

  pub new_job-IsBudgeted :
      (job_id : Text) (now : ℕ) (request : JobRequest P)
      → IsBudgeted (new_job {R = R} job_id now request)
  new_job-IsBudgeted job_id now request = record {
    lawful = new_job-IsLawful job_id now request;
    budget = λ _. omega arith;
  }

  pub lease-IsBudgeted :
      (worker_id : Text) (now until : ℕ) (job : Job P R)
      → IsBudgeted job
      → IsBudgeted (lease worker_id now until job)
  unfolding lease
  lease-IsBudgeted worker_id now until job h = record {
    lawful = lease-IsLawful worker_id now until job h.lawful;
    budget = λ e. absurd (cc);
  }

  pub finish-IsBudgeted :
      (status : JobStatus) (result : Option R) (error_text : Option Text) (now : ℕ) (job : Job P R)
      → IsTerminal status
      → IsBudgeted job
      → IsBudgeted (finish status result error_text now job)
  unfolding finish
  finish-IsBudgeted status result error_text now job n h = record {
    lawful = finish-IsLawful status result error_text now job n h.lawful;
    budget = λ e. absurd (n.1 e);
  }

  released-ne-running :
      (row : Job P R) (error_text : Text) (now : ℕ) (job : Job P R)
      → (release row error_text now job).status ≢ running
  unfolding release
  released-ne-running row error_text now job e = ground arith

  released-ne-completed :
      (row : Job P R) (error_text : Text) (now : ℕ) (job : Job P R)
      → (release row error_text now job).status ≢ completed
  unfolding release
  released-ne-completed row error_text now job e = ground arith

  -- Whatever row the SELECT found.
  pub release-IsLawful :
      (row : Job P R) (error_text : Text) (now : ℕ) (job : Job P R)
      → IsLawful job
      → IsLawful (release row error_text now job)
  release-IsLawful row error_text now job h =
      let idle = released-ne-running row error_text now job in
      record {
        leased = λ e. absurd (idle e);
        held = λ e. absurd (idle e);
        tried = λ e. absurd (idle e);
        free = λ _. unfold release in (refl, refl);
        ended = λ e. absurd (released-ne-completed row error_text now job e);
        bounded = unfold release in h.bounded;
      }

  pub release-IsBudgeted :
      (job : Job P R) (error_text : Text) (now : ℕ)
      → IsBudgeted job
      → IsBudgeted (release job error_text now job)
  release-IsBudgeted job error_text now h = record {
    lawful = release-IsLawful job error_text now job h.lawful;
    budget = unfold release in λ e. ground (arith, e);
  }
