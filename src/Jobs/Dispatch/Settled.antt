-- ===== src/Jobs/Dispatch/Settled.antt =====
-- After a dispatch the job is settled: completed, pending for another try, or failed, without a lease.
use automem.Common.{ltb, if◌then◌else◌, inr, ap, ◌⊎◌, inl, ◌≡◌, refl, none, some}
use automem.Text.{Text}
use automem.Http.{Fault, Result, ok, err}
use automem.Jobs.{failed, pending, Job, completed, consolidate_type}
use automem.Jobs.Queue.{fetch_governance_job, finish, release}
use automem.Jobs.Claims.{fetch-update_self, fetch-id}
use automem.Jobs.Dispatch.Outcome.{completed_row, released_row, dispatch_ok, dispatch_err}
use automem.Jobs.Dispatch.{Consolidation, Draws, World, dispatch_governance_job}

module _ {P R S : Type 0} where
  -- What a dispatch of `job`, whose row was `row`, makes of it.
  pub record IsSettled (c : Consolidation P R S) (worker_id : Text) (job row after : Job P R)
      (rest : S) : Type 0 where
    pub same_id : after.job_id ≡ row.job_id
    pub no_lease : after.lease_expires_at ≡ none
    pub no_holder : after.leased_by ≡ none
    pub tries : after.attempts ≡ row.attempts
    pub outcome :
        (after.status ≡ completed)
          × ((response : R) × (rest' : S) × (c.run worker_id job.job_id job.payload rest
                ≡ (ok response, rest'))
              × (after.result ≡ some response))
        ⊎ ((e : Fault) × (rest' : S) × (c.run worker_id job.job_id job.payload rest
              ≡ (err e, rest'))
            × (after.error_text ≡ some (c.message e))
            × (after.status ≡ (if ltb row.attempts row.max_attempts then pending else failed)))

  module _ (c : Consolidation P R S) (draws : Draws) (worker_id : Text) (job row : Job P R)
      (w : World P R S) (kind : job.job_type ≡ consolidate_type)
      (found : fetch_governance_job job.job_id w.jobs ≡ some row) where
    completed-IsSettled :
        (response : R) (rest' : S)
        → c.run worker_id job.job_id job.payload w.rest ≡ (ok response, rest')
        → IsSettled c worker_id job row
            (completed_row c draws worker_id job row w found response)
            w.rest
    unfolding finish
    completed-IsSettled response rest' ran = record {
      same_id = refl;
      no_lease = refl;
      no_holder = refl;
      tries = refl;
      outcome = inl (refl, (response, rest', ran, refl));
    }

    released-IsSettled :
        (e : Fault) (rest' : S)
        → c.run worker_id job.job_id job.payload w.rest ≡ (err e, rest')
        → IsSettled c worker_id job row (released_row c draws worker_id job row w found e) w.rest
    unfolding release
    released-IsSettled e rest' ran = record {
      same_id = refl;
      no_lease = refl;
      no_holder = refl;
      tries = refl;
      outcome = inr (e, rest', ran, refl, refl);
    }

    abbrev dispatched : Result (Job P R) × World P R S
    dispatched = dispatch_governance_job c draws worker_id job w

    -- A dispatch of a job of the supported type whose row is there raises nothing. The job that it
    -- returns is the one that the table then holds, and is settled: completed with the response of the
    -- consolidation, or, if that raised, pending exactly if an attempt is left and else failed. It has
    -- no lease and no holder any more.
    pub dispatch_settles :
        (after : Job P R) × (dispatched.0 ≡ ok after)
        × (fetch_governance_job job.job_id dispatched.1.jobs ≡ some after)
        × IsSettled c worker_id job row after w.rest
    dispatch_settles = go (c.run worker_id job.job_id job.payload w.rest) refl
      where
        go :
            (r : Result R × S)
            → c.run worker_id job.job_id job.payload w.rest ≡ r
            → (after : Job P R) × (dispatched.0 ≡ ok after)
              × (fetch_governance_job job.job_id dispatched.1.jobs ≡ some after)
              × IsSettled c worker_id job row after w.rest
        go (ok response, rest') ran =
            let done = dispatch_ok c draws worker_id job row w found response rest' kind ran in
            let there =
              fetch-update_self job.job_id (finish completed (some response) none (draws.time 2))
                w.jobs (unfold finish in λ j. refl) found (fetch-id job.job_id w.jobs found) in
            (
              completed_row c draws worker_id job row w found response,
              ap (λ p. p.0) done,
              rw done there,
              completed-IsSettled response rest' ran,
            )
        go (err e, rest') ran =
            let done = dispatch_err c draws worker_id job row w found e rest' kind ran in
            let there =
              fetch-update_self job.job_id (release row (c.message e) (draws.time 0)) w.jobs
                (unfold release in λ j. refl) found (fetch-id job.job_id w.jobs found) in
            (
              released_row c draws worker_id job row w found e,
              ap (λ p. p.0) done,
              rw done there,
              released-IsSettled e rest' ran,
            )
