-- ===== src/Endpoints/JobCreation/Keeps.antt =====
-- The queue behind the creation of a job.
use automem.Common.{Option, Bool, Bool-cases, not, ◌&&◌, ℕ, inl, inr, some, none}
use automem.Text.{Text, ◌==◌}
use automem.Http.{Result, ok, err, Fault, Result-cases}
use automem.Jobs.{status_eq, consolidate_type, failed, completed, Job, JobRequest}
use automem.Jobs.Invariant.{IsConsistent}
use automem.Jobs.Preserved.{claim_by_id-IsConsistent, finalize-IsConsistent, release-IsConsistent}
use automem.Jobs.Enqueue.{enqueue-IsConsistent}
use automem.Jobs.Queue.{
  release_governance_job_for_retry, finalize_governance_job, enqueue_governance_job,
}
use automem.Jobs.Dispatch.{World, Consolidation, Draws, recover, complete, dispatch_governance_job}
use automem.Auth.{Auth}
use automem.Endpoints.JobCreation.{
  JobCreate, PayloadRules, CreationDraws, run_if_claimed, run_inline_job, log_job, enqueue_checked,
  governance_jobs_create, check_job, inline_worker,
}

module _ {P R S : Type 0} (c : Consolidation P R S) (draws : Draws) (worker_id : Text) where
  recover-jobs :
      (n : ℕ) (job : Job P R) (fault : Fault) (w : World P R S)
      → IsConsistent w.jobs
      → IsConsistent (recover c draws worker_id n job fault w).1.jobs
  unfolding recover
  recover-jobs n job fault w h =
      let kept = release-IsConsistent job.job_id (c.message fault) (draws.time n) w.jobs h in
      elim (Result-cases
        (release_governance_job_for_retry job.job_id (c.message fault) (draws.time n) w.jobs).0) [
          | inl (released, e) ↦ rw (e, recover) kept
          | inr (refused, e) ↦ rw (e, recover) kept
        ]

  complete-jobs :
      (job : Job P R) (response : R) (w : World P R S)
      → IsConsistent w.jobs
      → IsConsistent (complete c draws worker_id job response w).1.jobs
  unfolding complete
  complete-jobs job response w h =
      let kept =
        finalize-IsConsistent job.job_id completed (some response) none (draws.time 2) w.jobs
          ((λ e. cc e), λ e. cc e) h in
      elim (Result-cases
        (finalize_governance_job job.job_id completed (some response) none (draws.time 2)
          w.jobs).0) [
            | inl (done, e) ↦ rw (e, complete) kept
            | inr (fault, e) ↦ rw (e, complete) (recover-jobs 3 job fault _ kept)
          ]

  dispatch-jobs :
      (job : Job P R) (w : World P R S)
      → IsConsistent w.jobs
      → IsConsistent (dispatch_governance_job c draws worker_id job w).1.jobs
  unfolding dispatch_governance_job
  dispatch-jobs job w h = elim (Bool-cases (job.job_type == consolidate_type)) [
    | inr other ↦ rw other (
        finalize-IsConsistent job.job_id failed none _ (draws.time 0) w.jobs
          ((λ e. cc e), λ e. cc e) h)
    | inl known ↦ elim (Result-cases (c.run worker_id job.job_id job.payload w.rest).0) [
      | inl (response, e) ↦ rw (known, e) (complete-jobs job response _ h)
      | inr (fault, e) ↦ rw (known, e) (recover-jobs 0 job fault _ h)
    ]
  ]

module _ {P R S : Type 0} (c : Consolidation P R S) (draws : CreationDraws) (auth : Auth) where
  run_if_claimed-jobs :
      (job : Job P R) (deduplicated : Bool) (r : Result (Option (Job P R))) (w : World P R S)
      → IsConsistent w.jobs
      → IsConsistent (run_if_claimed c draws auth job deduplicated r w).1.jobs
  unfolding run_if_claimed
  run_if_claimed-jobs job deduplicated (err e) w h = h
  run_if_claimed-jobs job deduplicated (ok none) w h = h
  run_if_claimed-jobs job deduplicated (ok (some claimed)) w h =
      elim (Bool-cases (claimed.job_id == job.job_id)) [
        | inl e ↦ rw e (dispatch-jobs c draws.dispatch (inline_worker auth) claimed w h)
        | inr e ↦ rw e h
      ]

  run_inline_job-jobs :
      (run_inline : Bool) (job : Job P R) (deduplicated : Bool) (w : World P R S)
      → IsConsistent w.jobs
      → IsConsistent (run_inline_job c draws auth run_inline job deduplicated w).1.jobs
  unfolding run_inline_job
  run_inline_job-jobs run_inline job deduplicated w h =
      elim (Bool-cases (run_inline && not (status_eq job.status completed))) [
        | inr e ↦ rw e h
        | inl e ↦ rw e (
            run_if_claimed-jobs job deduplicated _ _ (
              claim_by_id-IsConsistent job.job_id (inline_worker auth) 300 draws.claimed_at
                draws.lease_from w.jobs h))
      ]

  log_job-jobs :
      (run_inline : Bool) (user_id project_id : Option Text)
      (r : Result (Job P R × Bool) × World P R S)
      → IsConsistent r.1.jobs
      → IsConsistent (log_job c draws auth run_inline user_id project_id r).1.jobs
  unfolding log_job
  log_job-jobs run_inline user_id project_id (err e, w) h = h
  log_job-jobs run_inline user_id project_id (ok (job, deduplicated), w) h = h

  enqueue_checked-jobs :
      (run_inline : Bool) (request : Result (JobRequest P)) (w : World P R S)
      → IsConsistent w.jobs
      → IsConsistent (enqueue_checked c draws auth run_inline request w).1.jobs
  unfolding enqueue_checked
  enqueue_checked-jobs run_inline (err e) w h = h
  enqueue_checked-jobs run_inline (ok request) w h =
      elim (Result-cases (enqueue_governance_job draws.job_id draws.enqueued_at request w.jobs)) [
        | inr (fault, e) ↦ rw (e, enqueue_checked) h
        | inl ((job, deduplicated, jobs), e) ↦
            rw (e, enqueue_checked)
              (log_job-jobs run_inline request.user_id request.project_id _ (
                run_inline_job-jobs run_inline job deduplicated _ (
                  enqueue-IsConsistent draws.job_id draws.enqueued_at request w.jobs job
                    deduplicated jobs e h)))
      ]

-- Creating a job keeps the queue consistent, whether the request is refused, the job is new or was there
-- already, is only enqueued or also run at once, and whatever the consolidation answers or raises.
pub governance_jobs_create-IsConsistent :
    {J P R S : Type 0} (rules : PayloadRules J P) (c : Consolidation P R S) (draws : CreationDraws)
    (auth : Auth) (payload : JobCreate J) (w : World P R S)
    → IsConsistent w.jobs
    → IsConsistent (governance_jobs_create rules c draws auth payload w).1.jobs
unfolding governance_jobs_create
governance_jobs_create-IsConsistent rules c draws auth payload w h =
    enqueue_checked-jobs c draws auth payload.run_inline (check_job rules auth payload) w h
