-- ===== src/Endpoints/JobCreation.antt =====
-- backend/routers/governance.py: `governance_jobs_create`, which enqueues a job and, if asked to, runs it at
-- once. The validation of the payload is a parameter.
pub mod Keeps
mod Tests
use automem.Common.{ℕ, Bool, false, not, ◌&&◌, Option, none, some, ◌++◌, if◌then◌else◌}
use automem.Text.{Text, text, ◌==◌, or_else, or_empty}
use automem.Http.{raise_if, Result, ok, err, ◌>>=◌, ◌>>◌, unsupported_job_type}
use automem.Audit.{write_audit}
use automem.Auth.{Auth, require_scope, enforce_user_identity, enforce_project_identity}
use automem.Jobs.{Job, JobRequest, completed, status_eq, consolidate_type}
use automem.Jobs.Queue.{enqueue_governance_job, claim_governance_job_by_id}
use automem.Jobs.Dispatch.{World, Consolidation, Draws, job_enqueued, dispatch_governance_job}
use automem.Endpoints.Memories.{Stamp, actor_name, event_of}

-- `GovernanceJobCreateRequest`; `J` holds the dictionary `payload`.
pub record JobCreate (J : Type 0) : Type 0 where
  pub job_type : Text
  pub payload : J
  pub idempotency_key : Option Text
  pub max_attempts : ℕ
  pub user_id : Option Text
  pub project_id : Option Text
  pub run_inline : Bool

-- `ConsolidateRequest(**payload)`, and its fields `user_id` and `project_id`.
pub record PayloadRules (J P : Type 0) : Type 0 where
  pub parse : J → Result P
  pub user_of : P → Option Text
  pub project_of : P → Option Text
  pub with_scope : (user_id project_id : Option Text) → P → P

-- Clock readings in the order of the calls, and the id for a new job.
pub record CreationDraws : Type 0 where
  pub job_id : Text
  pub enqueued_at : ℕ
  pub claimed_at : ℕ
  pub lease_from : ℕ
  pub stamp : Stamp
  pub dispatch : Draws

-- `auth.get("actor_label") or auth.get("agent_id") or auth["actor_type"]`
abbrev pub creator_of : Auth → Option Text
creator_of auth =
    or_else auth.actor_label (or_else auth.agent_id (some (actor_name auth.actor_type)))

abbrev pub inline_worker : Auth → Text
inline_worker auth =
    text "inline-" ++ or_empty (or_else auth.actor_label (some (actor_name auth.actor_type)))

-- The checks, and the request to the queue.
unfoldable pub check_job :
    {J P : Type 0} → PayloadRules J P → Auth → JobCreate J → Result (JobRequest P)
check_job rules auth payload = do
  require_scope auth (text "admin")
  user_id ← enforce_user_identity auth payload.user_id
  project_id ← enforce_project_identity auth payload.project_id
  raise_if (not (payload.job_type == consolidate_type)) (unsupported_job_type payload.job_type)
  parsed ← rules.parse payload.payload
  ok (record {
    job_type = payload.job_type;
    payload =
        rules.with_scope (or_else user_id (rules.user_of parsed))
          (or_else project_id (rules.project_of parsed)) parsed;
    user_id = user_id;
    project_id = project_id;
    idempotency_key = payload.idempotency_key;
    max_attempts = payload.max_attempts;
    created_by = creator_of auth;
  })

module _ {P R S : Type 0} (c : Consolidation P R S) (draws : CreationDraws) (auth : Auth) where
  -- The claimed job is dispatched; the answer of the dispatch has no `deduplicated`.
  unfoldable pub run_if_claimed :
      Job P R
      → Bool
      → Result (Option (Job P R))
      → World P R S
      → Result (Job P R × Bool) × World P R S
  run_if_claimed job deduplicated (err e) w = (err e, w)
  run_if_claimed job deduplicated (ok none) w = (ok (job, deduplicated), w)
  run_if_claimed job deduplicated (ok (some claimed)) w =
      if claimed.job_id == job.job_id
      then (let (r, w') = dispatch_governance_job c draws.dispatch (inline_worker auth) claimed w in
          (do done ← r; ok (done, false), w'))
      else (ok (job, deduplicated), w)

  unfoldable pub run_inline_job :
      Bool → Job P R → Bool → World P R S → Result (Job P R × Bool) × World P R S
  run_inline_job run_inline job deduplicated w =
      if run_inline && not (status_eq job.status completed)
      then (let (r, jobs) =
            claim_governance_job_by_id job.job_id (inline_worker auth) 300 draws.claimed_at
              draws.lease_from w.jobs in
          run_if_claimed job deduplicated r (record w { jobs = jobs }))
      else (ok (job, deduplicated), w)

  -- An answer is logged, and an exception is not.
  unfoldable pub log_job :
      (run_inline : Bool)
      → (user_id project_id : Option Text) → Result (Job P R × Bool) × World P R S
      → Result (Job P R × Bool) × World P R S
  log_job run_inline user_id project_id (err e, w) = (err e, w)
  log_job run_inline user_id project_id (ok (job, deduplicated), w) = (
    ok (job, deduplicated),
    record w {
      audit =
          write_audit
            (event_of draws.stamp auth auth.agent_id (text "governance_job_enqueue") user_id
              project_id none
              (job_enqueued job.job_id job.job_type job.status job.idempotency_key run_inline
                deduplicated))
            w.audit;
    },
  )

  unfoldable pub enqueue_checked :
      Bool → Result (JobRequest P) → World P R S → Result (Job P R × Bool) × World P R S
  enqueue_checked run_inline (err e) w = (err e, w)
  enqueue_checked run_inline (ok request) w =
      elim (enqueue_governance_job draws.job_id draws.enqueued_at request w.jobs) [
        | err e ↦ (err e, w)
        | ok (job, deduplicated, jobs) ↦
            log_job run_inline request.user_id request.project_id
              (run_inline_job run_inline job deduplicated (record w { jobs = jobs }))
      ]

-- The answer is the job and whether it was there already.
unfoldable pub governance_jobs_create :
    {J P R S : Type 0}
    → PayloadRules J P
    → Consolidation P R S
    → CreationDraws
    → Auth
    → JobCreate J
    → World P R S
    → Result (Job P R × Bool) × World P R S
governance_jobs_create rules c draws auth payload w =
    enqueue_checked c draws auth payload.run_inline (check_job rules auth payload) w
