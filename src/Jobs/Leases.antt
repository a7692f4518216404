-- ===== src/Jobs/Leases.antt =====
-- A job that is leased stays with its holder until the lease ends, unless it is finalized or released.
use automem.Common.{
  ◌∙◌, ℕ, ◌+◌, ◌<◌, ◌≡◌, ◌≢◌, refl, sym, inl, inr, Bool, true, false, some, List, [], ◌∷◌, arith,
  update, first-append, All,
}
use automem.Text.{Text}
use automem.Http.{Result, ok, err}
use automem.Jobs.{status_eq, Job, JobRequest, running}
use automem.Jobs.Queue.{
  lease, lease_time, finish, release, enqueue_governance_job, claim_next_governance_job,
  claim_governance_job_by_id, finalize_governance_job, write_release, fetch_governance_job, has_id,
  is_claimable, allowed_job_types, refuses_claim,
}
use automem.Jobs.Invariant.{IsTerminal, IsOrderly}
use automem.Jobs.Enqueue.{enqueue_cases}
use automem.Jobs.Claims.{fetch-id, fetch-update_ne, claim_next_cases, claim_by_id_cases}
use automem.Jobs.Operations.{
  Operation, enqueue, claim_next, claim_by_id, finalize, release_for_retry, enqueued, perform,
  perform_all, IsProper, perform-IsOrderly,
}

module _ {P R : Type 0} where
  -- `worker_id` runs the job under a lease that ends at `until`.
  abbrev pub Holds : Text → ℕ → Job P R → Type 0
  Holds worker_id until job =
      (job.status ≡ running)
      × (job.leased_by ≡ some worker_id)
      × (job.lease_expires_at ≡ some until)

  -- A call that is made before `until` and neither finalizes nor releases the job.
  abbrev pub IsForeign : Text → ℕ → Operation P R → Type 0
  IsForeign id until (enqueue job_id now request) = Unit
  IsForeign id until (claim_next worker_id job_types seconds now later) = now < until
  IsForeign id until (claim_by_id job_id worker_id seconds now later) = now < until
  IsForeign id until (finalize job_id status result error_text now) =
      (job_id ≢ id) × IsTerminal status
  IsForeign id until (release_for_retry row job_id error_text now) = job_id ≢ id

  held-not_claimable :
      (worker_id : Text) (until now : ℕ) (types : List Text) (job : Job P R)
      → Holds worker_id until job
      → now < until
      → is_claimable now types job ≡ false
  unfolding is_claimable status_eq
  held-not_claimable worker_id until now [] job h lt = ground arith
  held-not_claimable worker_id until now (t ∷ ts) job h lt = ground arith

  held-refuses_claim :
      (worker_id : Text) (until now : ℕ) (job : Job P R)
      → Holds worker_id until job
      → now < until
      → refuses_claim now job ≡ true
  unfolding refuses_claim status_eq
  held-refuses_claim worker_id until now job h lt = ground arith

  module _ (id worker_id : Text) (until : ℕ) (job : Job P R) (table : List (Job P R))
      (c : IsOrderly table) (found : fetch_governance_job id table ≡ some job)
      (h : Holds worker_id until job) where
    -- The update of another job leaves it as it is.
    kept_by_update :
        (id' : Text) (f : Job P R → Job P R)
        → ((j : Job P R) → (f j).job_id ≡ j.job_id)
        → id' ≢ id
        → fetch_governance_job id (update (has_id id') f table) ≡ some job
    kept_by_update id' f keep other =
        fetch-update_ne id id' f table keep found (λ e. other (sym e ∙ fetch-id id table found))

    kept_by_enqueue :
        (job_id : Text) (now : ℕ) (request : JobRequest P)
        (r : Result (Job P R × Bool × List (Job P R)))
        → enqueue_governance_job job_id now request table ≡ r
        → fetch_governance_job id (enqueued table r) ≡ some job
    kept_by_enqueue job_id now request (err e) _ = found
    kept_by_enqueue job_id now request (ok (new, old, after)) e =
        elim (enqueue_cases job_id now request table new old after e) [
          | inl (_, _, same) ↦ rw same found
          | inr new_row ↦
              rw new_row.2 (unfold fetch_governance_job in rw first-append (ground (arith, found)))
        ]

    kept_by_claim_next :
        (w : Text) (types : List Text) (seconds now later : ℕ)
        → now < until
        → fetch_governance_job id (claim_next_governance_job w types seconds now later table).1
          ≡ some job
    kept_by_claim_next w types seconds now later lt =
        elim (claim_next_cases w types seconds now later table c) [
          | inl (same, _) ↦ rw same found
          | inr (row, takes) ↦ rw takes.table_after (
              kept_by_update row.job_id (lease w now (later + lease_time seconds))
                (unfold lease in λ j. refl)
                λ e.
                  let held =
                    held-not_claimable worker_id until now (allowed_job_types types) job h lt in
                  let same : row ≡ job = cc (takes.there, found, e) in
                  cc (held, takes.was_claimable, same))
        ]

    kept_by_claim_by_id :
        (job_id w : Text) (seconds now later : ℕ)
        → now < until
        → fetch_governance_job id (claim_governance_job_by_id job_id w seconds now later table).1
          ≡ some job
    kept_by_claim_by_id job_id w seconds now later lt =
        elim (claim_by_id_cases job_id w seconds now later table c) [
          | inl (same, _) ↦ rw same found
          | inr (row, there, taken, after) ↦ rw after (
              kept_by_update job_id (lease w now (later + lease_time seconds))
                (unfold lease in λ j. refl)
                λ e.
                  let held = held-refuses_claim worker_id until now job h lt in
                  let same : row ≡ job = cc (there, found, e) in cc (held, taken, same))
        ]

    perform_foreign :
        (o : Operation P R)
        → IsForeign id until o
        → fetch_governance_job id (perform o table) ≡ some job
    unfolding perform
    perform_foreign (enqueue job_id now request) f =
        kept_by_enqueue job_id now request (enqueue_governance_job job_id now request table) refl
    perform_foreign (claim_next w types seconds now later) f =
        kept_by_claim_next w types seconds now later f
    perform_foreign (claim_by_id job_id w seconds now later) f =
        kept_by_claim_by_id job_id w seconds now later f
    perform_foreign (finalize job_id status result error_text now) f =
        unfold finalize_governance_job in
        kept_by_update job_id (finish status result error_text now) (unfold finish in λ j. refl) f.0
    perform_foreign (release_for_retry row job_id error_text now) f =
        unfold write_release in
        kept_by_update job_id (release row error_text now) (unfold release in λ j. refl) f

  IsForeign-IsProper :
      (id : Text) (until : ℕ) (o : Operation P R) → IsForeign id until o → IsProper o
  IsForeign-IsProper id until (finalize job_id status result error_text now) f = f.1
  IsForeign-IsProper id until _ f = tt

  -- Mutual exclusion, on a table in order. While the lease of a running job lasts, whatever the
  -- processes call, its row stays as it is, so that no other worker gets the job, unless it is finalized
  -- or released. (Other jobs are finalized with a final status.)
  pub lease_excludes :
      (id worker_id : Text) (until : ℕ) (job : Job P R) (os : List (Operation P R))
      (table : List (Job P R))
      → IsOrderly table
      → fetch_governance_job id table ≡ some job
      → Holds worker_id until job
      → All (IsForeign id until) os
      → fetch_governance_job id (perform_all os table) ≡ some job
  unfolding perform_all
  lease_excludes id worker_id until job [] table c found h f = found
  lease_excludes id worker_id until job (o ∷ os) table c found h f =
      lease_excludes id worker_id until job os (perform o table)
        (perform-IsOrderly o table (IsForeign-IsProper id until o f.0) c)
        (perform_foreign id worker_id until job table c found h o f.0) h f.1
