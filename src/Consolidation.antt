-- ===== src/Consolidation.antt =====
-- `run_consolidation_operation` of backend/services.py: noise and duplicates among the memories are
-- deleted, texts rewritten, tasks archived, and older facts superseded. Review finds what is to be done,
-- Changes does it, Facts finds the superseded facts, and Run is the operation.
pub mod Review
pub mod Changes
pub mod Facts
pub mod Run
mod Steps
pub mod DryRun
pub mod Jobs
pub mod Duplicates
pub mod Survivors
mod Tests
use automem.Common.{ℕ, Bool, Option}
use automem.Text.{Text}

-- The body of `POST /v1/consolidate` and of a consolidation job.
pub record ConsolidateRequest : Type 0 where
  pub dry_run : Bool
  pub dedupe_long_term : Bool
  pub archive_closed_tasks : Bool
  pub normalize_task_state : Bool
  pub prune_non_work_archived : Bool
  pub archive_work_without_memory_active : Bool
  pub prune_work_without_memory_archived : Bool
  pub user_id : Option Text
  pub project_id : Option Text

-- What the operation returns.
pub record ConsolidateResult : Type 0 where
  pub dry_run : Bool
  pub rebuilt_cache_count : ℕ
  pub duplicate_long_term_count : ℕ
  pub canonicalized_long_term_count : ℕ
  pub superseded_fact_count : ℕ
  pub deleted_noise_count : ℕ
  pub archived_tasks_count : ℕ
  pub normalized_tasks_count : ℕ
  pub task_reclassified_count : ℕ
  pub tasks_scanned_count : ℕ
  pub non_work_tasks_detected_count : ℕ
  pub active_non_work_detected_count : ℕ
  pub archived_non_work_detected_count : ℕ
  pub deleted_archived_non_work_tasks_count : ℕ
  pub deleted_archived_non_work_memory_count : ℕ
  pub task_titles_rewritten_count : ℕ
  pub closed_tasks_archived_count : ℕ
  pub user_id : Option Text
  pub project_id : Option Text
  pub runtime_path : Text
  pub worker_id : Option Text
  pub job_id : Option Text
