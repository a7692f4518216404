-- ===== src/Endpoints/Jobs.antt =====
-- backend/routers/governance.py: the lists of jobs and one job. `run-next` stands beside the dispatch.
use automem.Common.{ℕ, Option, none, some, List}
use automem.Text.{Text, text}
use automem.Http.{Result, ok, err, ◌>>◌, job_not_found}
use automem.Auth.{Auth, require_scope}
use automem.Jobs.{Job, JobStatus}
use automem.Jobs.Queue.{list_governance_jobs, fetch_governance_job}

module _ {P R : Type 0} where
  unfoldable pub governance_jobs_list :
      Auth → Option JobStatus → Option Text → ℕ → List (Job P R) → Result (List (Job P R))
  governance_jobs_list auth status job_type limit table = do
    require_scope auth (text "admin")
    ok (list_governance_jobs status job_type limit table)

  unfoldable pub governance_jobs_get : Auth → Text → List (Job P R) → Result (Job P R)
  governance_jobs_get auth job_id table = do
    require_scope auth (text "admin")
    elim (fetch_governance_job job_id table) [ none ↦ err job_not_found | some job ↦ ok job ]
