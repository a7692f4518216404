-- ===== src/Tasks.antt =====
-- The table `tasks` (backend/storage.py) and backend/task_storage.py. The column `aliases_json` is held as
-- the list that it encodes, and a timestamp as its text, by which the program orders. The rules on titles
-- and kinds of backend/tasks.py and backend/governance/task_policy.py are parameters.
pub mod Pages
pub mod Rows
pub mod Titles
pub mod Policy
pub mod Summary
pub mod Resolve
pub mod Memories
pub mod Lifecycle
pub mod Scan
pub mod Normalize
mod Tests
use automem.Common.{ℕ, Option, List}
use automem.Text.{Text}

pub record Task : Type 0 where
  pub task_id : Text
  pub user_id : Text
  pub project_id : Option Text
  pub title : Text
  pub aliases : List Text
  pub status : Text
  pub last_summary : Option Text
  pub source_agent : Option Text
  pub owner_agent : Option Text
  pub priority : Option ℕ
  pub created_at : Text
  pub updated_at : Text
  pub closed_at : Option Text
  pub archived_at : Option Text

-- `sanitize_task_title`, by the title, the last summary and the id; `classify_task_kind`, by these and the
-- source agent and the project; and `sanitize_task_summary_preview`.
pub record TaskRules : Type 0 where
  pub sanitize_task_title :
      (title : Text) (last_summary : Option Text) (task_id : Option Text) → Text
  pub classify_task_kind :
      (task_id title : Text) (last_summary source_agent project_id : Option Text) → Text
  pub sanitize_task_summary_preview : Option Text → Option Text
