-- ===== src/Tasks/Rows.antt =====
-- Writing a task, and what other components read of the tasks.
pub mod Upsert
use automem.Common.{
  Bool, true, ◌&&◌, Option, none, some, List, [], ◌∷◌, ◌++◌, map, first, select, update,
  if◌then◌else◌,
}
use automem.Text.{Text, text, ◌==◌, elem, truthy, or_empty, or_else}
use automem.Cache.{CacheRow}
use automem.Cache.Rows.{matches_if_given, column_eq}
use automem.Tasks.{Task, TaskRules}

abbrev pub has_task_id : Text → Task → Bool
has_task_id task_id row = row.task_id == task_id

unfoldable pub fetch_task : Text → List Task → Option Task
fetch_task task_id = first (has_task_id task_id)

-- The keyword arguments of `upsert_task`.
pub record TaskWrite : Type 0 where
  pub task_id : Text
  pub user_id : Text
  pub project_id : Option Text
  pub title : Text
  pub source_agent : Option Text
  pub last_summary : Option Text
  pub aliases : List Text

-- The row of the INSERT, which is also what the function returns of a new task.
unfoldable pub inserted_task : TaskRules → Text → TaskWrite → Task
inserted_task rules now args = record {
  task_id = args.task_id;
  user_id = args.user_id;
  project_id = args.project_id;
  title = rules.sanitize_task_title args.title args.last_summary (some args.task_id);
  aliases = args.aliases;
  status = text "active";
  last_summary = args.last_summary;
  source_agent = args.source_agent;
  owner_agent = args.source_agent;
  priority = some 0;
  created_at = now;
  updated_at = now;
  closed_at = none;
  archived_at = none;
}

-- The SET clause of the UPDATE.
unfoldable pub overwrite_task : TaskRules → Text → TaskWrite → Task → Task
overwrite_task rules now args row = record row {
  title = rules.sanitize_task_title args.title args.last_summary (some args.task_id);
  project_id = args.project_id;
  aliases = args.aliases;
  last_summary = args.last_summary;
  source_agent = args.source_agent;
  owner_agent = args.source_agent;
  updated_at = now;
}

-- The answer and the table, by the row that the SELECT found. What is answered of a task that was there is
-- that of a new one but for the time of its creation.
unfoldable pub upsert_found :
    TaskRules → Text → TaskWrite → (existing : Option Task) → List Task → Task × List Task
upsert_found rules now args none table =
    (inserted_task rules now args, table ++ inserted_task rules now args ∷ [])
upsert_found rules now args (some existing) table = (
  record (inserted_task rules now args) { created_at = existing.created_at },
  update (has_task_id args.task_id) (overwrite_task rules now args) table,
)

unfoldable pub upsert_task : TaskRules → Text → TaskWrite → List Task → Task × List Task
upsert_task rules now args table = upsert_found rules now args (fetch_task args.task_id table) table

-- COALESCE(NULLIF(task_id, ''), NULLIF(run_id, ''))
abbrev pub effective_task_id : CacheRow → Option Text
effective_task_id row =
    if truthy row.task_id then row.task_id else if truthy row.run_id then row.run_id else none

-- As a list; the program asks only whether an id is in it.
unfoldable pub fetch_task_ids_with_memory : Option Text → Option Text → List CacheRow → List Text
fetch_task_ids_with_memory user_id project_id [] = []
fetch_task_ids_with_memory user_id project_id (row ∷ rows) =
    let rest = fetch_task_ids_with_memory user_id project_id rows in
    if column_eq row.domain (text "task")
      && (matches_if_given user_id row.user_id && matches_if_given project_id row.project_id)
    then elim (effective_task_id row) [ none ↦ rest | some task_id ↦ task_id ∷ rest ]
    else rest

pub record TaskContext : Type 0 where
  pub title : Text
  pub aliases : List Text
  pub status : Text
  pub project_id : Option Text

-- `if task_ids: AND task_id IN (…)`
abbrev pub is_asked : List Text → Text → Bool
is_asked [] task_id = true
is_asked (t ∷ ts) task_id = elem task_id (t ∷ ts)

-- The dictionary by task id; ids are unique in the table.
unfoldable pub fetch_task_search_context :
    Option Text → Option Text → List Text → List Task → List (Text × TaskContext)
fetch_task_search_context user_id project_id task_ids table =
    map
      (λ (row : Task). (
        row.task_id,
        record {
          title = row.title;
          aliases = row.aliases;
          status = or_empty (or_else (some row.status) (some (text "active")));
          project_id = row.project_id;
        },
      ))
      (select
        (λ row.
          matches_if_given user_id (some row.user_id)
          && (matches_if_given project_id row.project_id && is_asked task_ids row.task_id))
        table)
