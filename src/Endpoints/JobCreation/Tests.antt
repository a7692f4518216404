-- ===== src/Endpoints/JobCreation/Tests.antt =====
-- The administrator creates a job in an empty queue and runs it at once; the consolidation raises.
use automem.Audit.{write_audit}
use automem.Jobs.Queue.{
  write_release, release, release_governance_job_for_retry, claim_governance_job_by_id,
  existing_job, insert_job, insert_or_reuse, enqueue_governance_job, refuses_claim, lease,
  fetch_governance_job, refetch, take_lease,
}
use automem.Text.Strings.{clean_strings, clean_from}
use automem.Text.Normalize.{normalize_text}
use automem.Common.{◌≡◌, refl, [], ◌∷◌, true, none, ◌+◌, arith, map, select, first, update}
use automem.Text.{Text, text, ◌==◌, elem}
use automem.Http.{ok, err, integrity_error}
use automem.Auth.{enforce_project_identity, enforce_user_identity, require_scope, Auth, admin}
use automem.Jobs.{status_eq, Job, pending}
use automem.Jobs.Invariant.{IsConsistent}
use automem.Jobs.Dispatch.{recover, dispatch_governance_job, World, Consolidation}
use automem.Endpoints.JobCreation.{
  run_if_claimed, run_inline_job, log_job, enqueue_checked, check_job, JobCreate, PayloadRules,
  CreationDraws, governance_jobs_create,
}
use automem.Endpoints.JobCreation.Keeps.{governance_jobs_create-IsConsistent}

program : Unit {0}
unfolding ◌==◌ elem first update select governance_jobs_create normalize_text clean_from
    clean_strings require_scope enforce_user_identity enforce_project_identity check_job
    enqueue_checked log_job run_inline_job run_if_claimed take_lease refetch fetch_governance_job
    lease refuses_claim enqueue_governance_job insert_or_reuse insert_job existing_job
    claim_governance_job_by_id status_eq dispatch_governance_job recover
    release_governance_job_for_retry release write_audit write_release
program = tt

abbrev rules : PayloadRules Text Text
rules = record {
  parse = λ t. ok t;
  user_of = λ t. none;
  project_of = λ t. none;
  with_scope = λ user_id project_id t. t;
}

abbrev broken : Consolidation Text Text Text
broken = record {
  run = λ worker_id job_id p s. (err integrity_error, p);
  user_of = λ r. none;
  project_of = λ r. none;
  message = λ e. text "broken";
}

abbrev draws : CreationDraws
draws = record {
  job_id = text "j1";
  enqueued_at = 10;
  claimed_at = 20;
  lease_from = 20;
  stamp = record { event_id = text "e"; created_at = 40 };
  dispatch = record { id = λ n. text "event"; time = λ n. 30 + n };
}

abbrev root : Auth
root = record {
  actor_type = admin;
  actor_label = none;
  agent_id = none;
  user_id = none;
  project_ids = [];
  scopes = text "admin" ∷ [];
  is_admin = true;
}

abbrev payload : JobCreate Text
payload = record {
  job_type = text "consolidate";
  payload = text "all";
  idempotency_key = none;
  max_attempts = 2;
  user_id = none;
  project_id = none;
  run_inline = true;
}

abbrev world : World Text Text Text
world = record { jobs = []; audit = []; rest = [] }

no_jobs : IsConsistent {P = Text} {R = Text} []
unfolding program
no_jobs = record { ids = tt; keys = λ k. omega arith; rows = tt }

-- The job was tried once and waits for another attempt.
tried_once :
    map
      (λ (job : Job Text Text). job.status)
      (governance_jobs_create rules broken draws root payload world).1.jobs
    ≡ pending ∷ []
unfolding program
tried_once = refl

governance_jobs_create-IsConsistent_example :
    IsConsistent (governance_jobs_create rules broken draws root payload world).1.jobs
governance_jobs_create-IsConsistent_example =
    governance_jobs_create-IsConsistent rules broken draws root payload world no_jobs
