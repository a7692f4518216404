-- ===== src/Jobs/Operations.antt =====
-- The operations of several processes on one table, in any order.
use automem.Common.{All-map_of, ℕ, ◌≡◌, refl, Bool, Option, List, [], ◌∷◌, All}
use automem.Text.{Text}
use automem.Http.{Result, ok, err}
use automem.Jobs.{Job, JobRequest, JobStatus}
use automem.Jobs.Queue.{
  enqueue_governance_job, claim_next_governance_job, claim_governance_job_by_id,
  finalize_governance_job, write_release,
}
use automem.Jobs.Invariant.{
  IsTerminal, IsLawful, IsOrderly, new_job-IsLawful, lease-IsLawful, finish-IsLawful,
  release-IsLawful,
}
use automem.Jobs.Enqueue.{enqueue-IsTableOf}
use automem.Jobs.Preserved.{
  claim_next-IsTableOf, claim_by_id-IsTableOf, finalize-IsTableOf, write_release-IsTableOf,
}

-- One transaction of one process. An enqueue is one step too: if its key is inserted between its SELECT and
-- its INSERT, the UNIQUE constraint makes it raise, and the table is the one that it leaves if it finds the key.
pub data Operation (P R : Type 0) : Type 0 where
  enqueue : (job_id : Text) (now : ℕ) → JobRequest P → Operation P R
  claim_next : (worker_id : Text) (job_types : List Text) (seconds now later : ℕ) → Operation P R
  claim_by_id : (job_id worker_id : Text) (seconds now later : ℕ) → Operation P R
  finalize :
      (job_id : Text) (status : JobStatus) → Option R → Option Text → (now : ℕ) → Operation P R
  -- The UPDATE of a release. Its SELECT wrote nothing and may have been long before, so that the row that
  -- it found is any.
  release_for_retry : (row : Job P R) (job_id error_text : Text) (now : ℕ) → Operation P R

module _ {P R : Type 0} where
  abbrev pub enqueued : List (Job P R) → Result (Job P R × Bool × List (Job P R)) → List (Job P R)
  enqueued table (ok (job, found, after)) = after
  enqueued table (err e) = table

  -- The table after the call, returned or raised.
  unfoldable pub perform : Operation P R → List (Job P R) → List (Job P R)
  perform (enqueue job_id now request) table =
      enqueued table (enqueue_governance_job job_id now request table)
  perform (claim_next worker_id job_types seconds now later) table =
      (claim_next_governance_job worker_id job_types seconds now later table).1
  perform (claim_by_id job_id worker_id seconds now later) table =
      (claim_governance_job_by_id job_id worker_id seconds now later table).1
  perform (finalize job_id status result error_text now) table =
      (finalize_governance_job job_id status result error_text now table).1
  perform (release_for_retry row job_id error_text now) table =
      (write_release row job_id error_text now table).1

  unfoldable pub perform_all : List (Operation P R) → List (Job P R) → List (Job P R)
  perform_all [] table = table
  perform_all (o ∷ os) table = perform_all os (perform o table)

  -- The program finalizes with `completed` and `failed` only.
  abbrev pub IsProper : Operation P R → Type 0
  IsProper (finalize job_id status result error_text now) = IsTerminal status
  IsProper _ = Unit

  pub perform-IsOrderly :
      (o : Operation P R) (table : List (Job P R))
      → IsProper o
      → IsOrderly table
      → IsOrderly (perform o table)
  unfolding perform
  perform-IsOrderly (enqueue job_id now request) table p c =
      go (enqueue_governance_job job_id now request table) refl
    where
      go :
          (r : Result (Job P R × Bool × List (Job P R)))
          → enqueue_governance_job job_id now request table ≡ r
          → IsOrderly (enqueued table r)
      go (ok (job, found, after)) e =
          enqueue-IsTableOf job_id now request table IsLawful job found after
            (new_job-IsLawful job_id now request) e c
      go (err e) _ = c
  perform-IsOrderly (claim_next worker_id job_types seconds now later) table p c =
      claim_next-IsTableOf IsLawful lease-IsLawful worker_id job_types seconds now later table c
  perform-IsOrderly (claim_by_id job_id worker_id seconds now later) table p c =
      claim_by_id-IsTableOf IsLawful lease-IsLawful job_id worker_id seconds now later table c
  perform-IsOrderly (finalize job_id status result error_text now) table p c =
      finalize-IsTableOf IsLawful job_id status result error_text now table
        (λ j h. finish-IsLawful status result error_text now j p h) c
  perform-IsOrderly (release_for_retry row job_id error_text now) table p c =
      write_release-IsTableOf IsLawful row job_id error_text now table
        (All-map_of _ _ (λ j h _. release-IsLawful row error_text now j h) table c.rows) c

  -- A table in order stays in order, whatever the processes do, in whatever order and at whatever times,
  -- also between the two statements of a release, if they finalize jobs only with a status other than
  -- `running` and `pending`: ids and idempotency keys are unique, a running job has a lease, a holder
  -- and an attempt behind it, no other job has a lease or a holder, and a completed job has an end.
  pub perform_all-IsOrderly :
      (os : List (Operation P R)) (table : List (Job P R))
      → All IsProper os
      → IsOrderly table
      → IsOrderly (perform_all os table)
  unfolding perform_all
  perform_all-IsOrderly [] table p c = c
  perform_all-IsOrderly (o ∷ os) table p c =
      perform_all-IsOrderly os (perform o table) p.1 (perform-IsOrderly o table p.0 c)
