-- ===== src/Jobs/Dispatch/Outcome.antt =====
-- A job that is dispatched is settled: completed, pending for another try, or failed, without a lease.
use automem.Common.{ℕ, ◌≡◌, refl, Option, none, some, List, arith, update}
use automem.Text.{Text, text, eq_refl}
use automem.Http.{Fault, Result, ok, err}
use automem.Audit.{write_audit}
use automem.Jobs.{Job, JobStatus, completed, consolidate_type}
use automem.Jobs.Queue.{
  write_release, has_id, fetch_governance_job, refetch, finish, release, finalize_governance_job,
  release_governance_job_for_retry,
}
use automem.Jobs.Claims.{fetch-update_self, fetch-id}
use automem.Jobs.Dispatch.{
  Consolidation, Draws, World, consolidated, job_complete, job_failed, worker_event, recover,
  complete, dispatch_governance_job,
}

module _ {P R : Type 0} (id : Text) (table : List (Job P R)) (row : Job P R)
    (found : fetch_governance_job id table ≡ some row) where
  finalize_row :
      (status : JobStatus) (result : Option R) (error_text : Option Text) (now : ℕ)
      → finalize_governance_job id status result error_text now table ≡ (
        ok (finish status result error_text now row),
        update (has_id id) (finish status result error_text now) table,
      )
  unfolding finalize_governance_job refetch
  finalize_row status result error_text now =
      let there =
        fetch-update_self id (finish status result error_text now) table
          (unfold finish in λ j. refl) found (fetch-id id table found) in
      ground (arith, there)

  release-row :
      (error_text : Text) (now : ℕ)
      → release_governance_job_for_retry id error_text now table ≡ (
        ok (release row error_text now row),
        update (has_id id) (release row error_text now) table,
      )
  unfolding release_governance_job_for_retry write_release refetch
  release-row error_text now =
      let there =
        fetch-update_self id (release row error_text now) table (unfold release in λ j. refl) found
          (fetch-id id table found) in
      ground (arith, there, found)

module _ {P R S : Type 0} (c : Consolidation P R S) (draws : Draws) (worker_id : Text)
    (job row : Job P R) (w : World P R S)
    (found : fetch_governance_job job.job_id w.jobs ≡ some row) where
  -- The job after a dispatch whose consolidation returned.
  abbrev pub completed_row : R → Job P R
  completed_row response = finish completed (some response) none (draws.time 2) row

  -- The job after a dispatch whose consolidation raised.
  abbrev pub released_row : Fault → Job P R
  released_row e = release row (c.message e) (draws.time 0) row

  abbrev dispatched : Result (Job P R) × World P R S
  dispatched = dispatch_governance_job c draws worker_id job w

  pub dispatch_ok :
      (response : R) (rest : S)
      → job.job_type ≡ consolidate_type
      → c.run worker_id job.job_id job.payload w.rest ≡ (ok response, rest)
      → dispatched ≡ (
        ok (completed_row response),
        record {
          jobs =
              update
                (has_id job.job_id)
                (finish completed (some response) none (draws.time 2))
                w.jobs;
          audit =
              write_audit
                (worker_event c draws worker_id 1
                  (text "governance_job_complete")
                  (c.user_of response)
                  (c.project_of response)
                  (job_complete job.job_id job.job_type response))
                (write_audit
                  (worker_event c draws worker_id 0
                    (text "consolidate")
                    (c.user_of response)
                    (c.project_of response)
                    (consolidated response))
                  w.audit);
          rest = rest;
        },
      )
  unfolding dispatch_governance_job complete
  dispatch_ok response rest kind ran = ground (
    arith,
    kind,
    ran,
    eq_refl consolidate_type,
    finalize_row job.job_id w.jobs row found completed (some response) none (draws.time 2),
  )

  pub dispatch_err :
      (e : Fault) (rest : S)
      → job.job_type ≡ consolidate_type
      → c.run worker_id job.job_id job.payload w.rest ≡ (err e, rest)
      → dispatched ≡ (
        ok (released_row e),
        record {
          jobs = update (has_id job.job_id) (release row (c.message e) (draws.time 0)) w.jobs;
          audit =
              write_audit
                (worker_event c draws worker_id 1
                  (text "governance_job_failed")
                  job.user_id
                  job.project_id
                  (job_failed job.job_id job.job_type
                    (released_row e).attempts
                    (released_row e).max_attempts
                    (released_row e).status
                    (c.message e)))
                w.audit;
          rest = rest;
        },
      )
  unfolding dispatch_governance_job recover
  dispatch_err e rest kind ran = ground (
    arith,
    kind,
    ran,
    eq_refl consolidate_type,
    release-row job.job_id w.jobs row found (c.message e) (draws.time 0),
  )
