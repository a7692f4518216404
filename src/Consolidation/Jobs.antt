-- ===== src/Consolidation/Jobs.antt =====
-- `dispatch_governance_job` of backend/services.py on a consolidation: what it calls, with the names of
-- the governance worker.
use automem.Common.{some}
use automem.Text.{Text, text}
use automem.Http.{Fault}
use automem.Metadata.{Metadata}
use automem.Services.{Backend}
use automem.Services.Store.{Decision}
use automem.Tasks.{TaskRules}
use automem.Tasks.Normalize.{TaskWorld}
use automem.Jobs.Dispatch.{Consolidation}
use automem.Consolidation.{ConsolidateRequest, ConsolidateResult}
use automem.Consolidation.Run.{run_consolidation_operation}

module _ {S : Type 0} (b : Backend S) (digest : Text → Text) (clock : Text) (rules : TaskRules)
    (govern_memory_text : Text → Metadata → Text → Decision) (message : Fault → Text) where
  -- The call in the `try` branch; the worker reads `user_id` and `project_id` of the response.
  abbrev pub consolidation_service :
      Consolidation ConsolidateRequest ConsolidateResult (TaskWorld S)
  consolidation_service = record {
    run = λ worker_id job_id payload w.
        run_consolidation_operation b digest clock rules govern_memory_text payload
          (record {
            runtime_path = text "governance_worker";
            worker_id = some worker_id;
            job_id = some job_id;
          })
          w;
    user_of = λ result. result.user_id;
    project_of = λ result. result.project_id;
    message = message;
  }
