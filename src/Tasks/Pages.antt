-- ===== src/Tasks/Pages.antt =====
-- Pages of tasks by cursors. The encoding of a cursor, which is JSON in base64, is a parameter.
pub mod Descent
pub mod Cuts
pub mod Reader
use automem.Common.{
  ℕ, ◌+◌, Bool, true, not, ◌&&◌, ◌||◌, Option, none, some, List, [], ◌∷◌, map, ltb, if◌then◌else◌,
  length, take, select, sort_by,
}
use automem.Text.{Text, ◌==◌, text_lt, truthy, or_empty, is_empty}
use automem.Http.{Result, ok, err, ◌>>=◌, invalid_cursor}
use automem.Audit.{page_limit}
use automem.Cache.Rows.{matches_if_given}
use automem.Tasks.{Task, TaskRules}

-- A task as an answer shows it.
pub record TaskView : Type 0 where
  pub task : Task
  pub task_kind : Text
  pub display_title : Text
  pub summary_preview : Option Text

unfoldable pub hydrate_task_row : TaskRules → Task → TaskView
hydrate_task_row rules row =
    let title = rules.sanitize_task_title row.title row.last_summary (some row.task_id) in
    record {
      task = record row { title = title };
      task_kind =
          rules.classify_task_kind row.task_id title row.last_summary row.source_agent
            row.project_id;
      display_title = title;
      summary_preview = rules.sanitize_task_summary_preview row.last_summary;
    }

-- base64 and JSON: `decode` gives the two members of the object, or nothing if it raises.
pub record Codec : Type 0 where
  pub encode : (updated_at task_id : Text) → Text
  pub decode : Text → Option (Option Text × Option Text)

unfoldable pub encode_task_cursor : Codec → Text → Text → Text
encode_task_cursor codec updated_at task_id = codec.encode updated_at task_id

unfoldable pub decode_task_cursor : Codec → Text → Result (Text × Text)
decode_task_cursor codec cursor = elim (codec.decode cursor) [
  | none ↦ err invalid_cursor
  | some (updated_at, task_id) ↦
      if is_empty (or_empty task_id)
      then err invalid_cursor
      else ok (or_empty updated_at, or_empty task_id)
]

-- The arguments by which a listing is filtered.
pub record TaskFilter : Type 0 where
  pub user_id : Option Text
  pub project_id : Option Text
  pub status : Option Text

unfoldable pub is_listed : TaskFilter → Task → Bool
is_listed filter row =
    matches_if_given filter.user_id (some row.user_id)
    && (matches_if_given filter.project_id row.project_id
        && (if truthy filter.status then row.status == or_empty filter.status else true))

-- `(updated_at < ?) OR (updated_at = ? AND task_id < ?)`
unfoldable pub is_older : Text → Text → Task → Bool
is_older updated_at task_id row =
    text_lt row.updated_at updated_at
    || ((row.updated_at == updated_at) && text_lt row.task_id task_id)

-- ORDER BY updated_at DESC, task_id DESC
unfoldable pub newest_first : Task → Task → Bool
newest_first a b = not (is_older b.updated_at b.task_id a)

unfoldable pub last_of : List Task → Option Task
last_of [] = none
last_of (row ∷ []) = some row
last_of (row ∷ next ∷ rows) = last_of (next ∷ rows)

unfoldable pub cursor_after : Codec → List Task → Option Text
cursor_after codec rows = elim (last_of rows) [
  | none ↦ none
  | some row ↦ some (encode_task_cursor codec row.updated_at row.task_id)
]

-- The page, the next cursor and `has_more`, from the `page_size + 1` rows that the query returns.
unfoldable pub page_of : Codec → TaskRules → ℕ → List Task → List TaskView × Option Text × Bool
page_of codec rules page_size rows =
    let has_more = ltb page_size (length rows) in
    let page_rows = take page_size rows in
    (
      map (hydrate_task_row rules) page_rows,
      if has_more then cursor_after codec page_rows else none,
      has_more,
    )

-- The rows that the query returns.
unfoldable pub query_rows : TaskFilter → ℕ → (Task → Bool) → List Task → List Task
query_rows filter page_size condition table =
    take (page_size + 1)
      (sort_by newest_first (select (λ row. is_listed filter row && condition row) table))

unfoldable pub fetch_tasks_page :
    Codec
    → TaskRules
    → TaskFilter
    → (limit : ℕ) → (cursor : Option Text) → List Task
    → Result (List TaskView × Option Text × Bool)
fetch_tasks_page codec rules filter limit cursor table =
    if truthy cursor
    then (do
      (updated_at, task_id) ← decode_task_cursor codec (or_empty cursor)
      ok (
          page_of codec rules (page_limit limit)
            (query_rows filter (page_limit limit) (is_older updated_at task_id) table)))
    else ok (
        page_of codec rules (page_limit limit)
          (query_rows filter (page_limit limit) (λ row. true) table))

unfoldable pub fetch_tasks :
    Codec → TaskRules → TaskFilter → (limit : ℕ) → List Task → Result (List TaskView)
fetch_tasks codec rules filter limit table = do
  (tasks, next_cursor, has_more) ← fetch_tasks_page codec rules filter limit none table
  ok tasks
