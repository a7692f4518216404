-- ===== src/Tasks/Lifecycle.antt =====
-- The statements of the endpoints `close` and `archive` of backend/routers/tasks.py, and the writes of the
-- endpoints as a sequence.
pub mod Laws
pub mod Unique
use automem.Tasks.Rows.{has_task_id, upsert_task, TaskWrite}
use automem.Tasks.{Task, TaskRules}
use automem.Text.{◌==◌, text, Text}
use automem.Common.{[], ◌∷◌, update, not, select, ◌&&◌, some, length, ◌∷◌, ℕ, Bool, List}

-- status != 'archived'
abbrev pub is_open : Text → Task → Bool
is_open task_id row = has_task_id task_id row && not (row.status == text "archived")

-- UPDATE tasks SET status = 'closed', closed_at = ?, updated_at = ?
abbrev pub close_row : Text → Task → Task
close_row now row = record row { status = text "closed"; closed_at = some now; updated_at = now }

-- The number of rows that the UPDATE changed, and the table.
unfoldable pub close_rows : Text → Text → List Task → ℕ × List Task
close_rows now task_id table =
    (length (select (is_open task_id) table), update (is_open task_id) (close_row now) table)

-- UPDATE tasks SET status = 'archived', archived_at = ?, updated_at = ?
abbrev pub archive_row : Text → Task → Task
archive_row now row = record row {
  status = text "archived";
  archived_at = some now;
  updated_at = now;
}

unfoldable pub archive_rows : Text → Text → List Task → ℕ × List Task
archive_rows now task_id table = (
  length (select (has_task_id task_id) table),
  update (has_task_id task_id) (archive_row now) table,
)

-- The writes of `task-summaries`, `close` and `archive`, each with the clock's reading.
pub data TaskCall : Type 0 where
  summarize : Text → TaskWrite → TaskCall
  close archive : Text → (task_id : Text) → TaskCall

module _ (rules : TaskRules) where
  unfoldable pub write_call : TaskCall → List Task → List Task
  write_call (summarize now args) table = (upsert_task rules now args table).1
  write_call (close now task_id) table = (close_rows now task_id table).1
  write_call (archive now task_id) table = (archive_rows now task_id table).1

  unfoldable pub write_calls : List TaskCall → List Task → List Task
  write_calls [] table = table
  write_calls (call ∷ calls) table = write_calls calls (write_call call table)
