-- ===== src/Jobs/Dispatch.antt =====
-- `dispatch_governance_job` of backend/services.py and the endpoint `run-next` of
-- backend/routers/governance.py, which claims a job and dispatches it. They call a record, which
-- Consolidation/Jobs fills with `run_consolidation_operation`.
pub mod Outcome
pub mod Settled
use automem.Common.{
  ◌++◌, ℕ, ◌+◌, Bool, true, false, not, Option, none, some, List, [], ◌∷◌, if◌then◌else◌,
}
use automem.Text.{Text, text, ◌==◌, or_else, or_empty, truthy}
use automem.Text.Normalize.{normalize_text}
use automem.Http.{Fault, Result, ok, err, ◌>>=◌, ◌>>◌}
use automem.Audit.{AuditEvent, write_audit}
use automem.Auth.{Auth, require_scope}
use automem.Jobs.{Job, JobStatus, completed, failed, consolidate_type}
use automem.Jobs.Queue.{
  finalize_governance_job, release_governance_job_for_retry, claim_next_governance_job,
}

-- The details of the events that a dispatch and the creation of a job write.
pub data JobDetail (R : Type 0) : Type 0 where
  consolidated : R → JobDetail R
  job_complete : (job_id job_type : Text) → R → JobDetail R
  job_failed :
      (job_id job_type : Text) (attempts max_attempts : ℕ)
      → JobStatus
      → (error : Text) → JobDetail R
  job_enqueued :
      (job_id job_type : Text)
      → JobStatus
      → (idempotency_key : Option Text) → (run_inline deduplicated : Bool) → JobDetail R

-- The tables `governance_jobs` and `audit_log`, and what else a consolidation works on.
pub record World (P R S : Type 0) : Type 0 where
  pub jobs : List (Job P R)
  pub audit : List (AuditEvent (JobDetail R))
  pub rest : S

-- What the dispatch calls. `message` is `str(exc)`.
pub record Consolidation (P R S : Type 0) : Type 0 where
  pub run : (worker_id job_id : Text) → P → S → Result R × S
  pub user_of : R → Option Text
  pub project_of : R → Option Text
  pub message : Fault → Text

-- The ids and times that the calls draw, in the order of the calls.
pub record Draws : Type 0 where
  pub id : ℕ → Text
  pub time : ℕ → ℕ

module _ {P R S : Type 0} (c : Consolidation P R S) (draws : Draws) (worker_id : Text) where
  -- An event of the governance worker; `n` counts the draws.
  abbrev pub worker_event :
      ℕ → Text → Option Text → Option Text → JobDetail R → AuditEvent (JobDetail R)
  worker_event n event_type user_id project_id detail = record {
    event_id = draws.id n;
    created_at = draws.time n;
    actor_type = text "governance_worker";
    actor_label = some worker_id;
    actor_agent_id = some worker_id;
    event_type = event_type;
    user_id = user_id;
    project_id = project_id;
    task_id = none;
    route = none;
    detail = detail;
  }

  -- The `except` branch.
  unfoldable pub recover : ℕ → Job P R → Fault → World P R S → Result (Job P R) × World P R S
  recover n job fault w =
      let (r, jobs) =
        release_governance_job_for_retry job.job_id (c.message fault) (draws.time n) w.jobs in
      elim r [
        | err e ↦ (err e, record w { jobs = jobs })
        | ok released ↦ (
          ok released,
          record w {
            jobs = jobs;
            audit =
                write_audit
                  (worker_event (n + 1) (text "governance_job_failed") job.user_id job.project_id (
                    job_failed job.job_id job.job_type released.attempts released.max_attempts
                      released.status (c.message fault)))
                  w.audit;
          },
        )
      ]

  -- The rest of the `try` branch, behind the consolidation.
  unfoldable pub complete : Job P R → R → World P R S → Result (Job P R) × World P R S
  complete job response w =
      let user = c.user_of response in
      let project = c.project_of response in
      let audit =
        write_audit
          (worker_event 1 (text "governance_job_complete") user project
            (job_complete job.job_id job.job_type response))
          (write_audit (worker_event 0 (text "consolidate") user project (consolidated response))
            w.audit) in
      let (r, jobs) =
        finalize_governance_job job.job_id completed (some response) none (draws.time 2) w.jobs in
      let w' : World P R S = record w { jobs = jobs; audit = audit } in
      elim r [ ok done ↦ (ok done, w') | err e ↦ recover 3 job e w' ]

  unfoldable pub dispatch_governance_job : Job P R → World P R S → Result (Job P R) × World P R S
  dispatch_governance_job job w =
      if not (job.job_type == consolidate_type)
      then (let (r, jobs) =
            finalize_governance_job job.job_id failed none
              (some (text "Unsupported governance job type: " ++ job.job_type)) (draws.time 0)
              w.jobs in
          (r, record w { jobs = jobs }))
      else (let (r, rest) = c.run worker_id job.job_id job.payload w.rest in
          let w' : World P R S = record w { rest = rest } in
          elim r [ ok response ↦ complete job response w' | err e ↦ recover 0 job e w' ])

-- The name under which `run-next` claims.
abbrev pub worker_name : Option Text → Auth → Text
worker_name asked auth = normalize_text (
    or_empty (
      or_else asked
        (or_else auth.agent_id (or_else auth.actor_label (some (text "governance-worker"))))))

module _ {P R S : Type 0} (c : Consolidation P R S) (draws : Draws) (worker_id : Text) where
  -- Behind the claim; `none` is the status `idle`.
  unfoldable pub run_claimed :
      Result (Option (Job P R)) → World P R S → Result (Option (Job P R)) × World P R S
  run_claimed (err e) w = (err e, w)
  run_claimed (ok none) w = (ok none, w)
  run_claimed (ok (some claimed)) w =
      let (r, w') = dispatch_governance_job c draws worker_id claimed w in
      (do job ← r; ok (some job), w')

unfoldable pub governance_jobs_run_next :
    {P R S : Type 0}
    → Consolidation P R S
    → Draws
    → Auth
    → Option Text
    → List Text
    → ℕ
    → ℕ
    → ℕ
    → World P R S
    → Result (Option (Job P R)) × World P R S
governance_jobs_run_next c draws auth asked job_types lease_seconds now later w =
    elim (require_scope auth (text "admin")) [
      | err e ↦ (err e, w)
      | ok _ ↦
          let worker_id = worker_name asked auth in
          let (r, jobs) =
            claim_next_governance_job worker_id job_types lease_seconds now later w.jobs in
          run_claimed c draws worker_id r (record w { jobs = jobs })
    ]
