-- ===== src/Endpoints/Tasks.antt =====
-- backend/routers/tasks.py: listing, reading, closing, archiving and normalizing tasks.
pub mod Guards
pub mod Writes
mod Tests
use automem.Services.Rebuild.{rebuild_memory_cache}
use automem.Tasks.Rows.{fetch_task}
use automem.Services.{Backend}
use automem.Tasks.Lifecycle.{close_rows, archive_rows}
use automem.Audit.{page_limit, write_audit, AuditEvent}
use automem.Tasks.Scan.{NormalizeOptions}
use automem.Endpoints.Memories.{event_of, Stamp}
use automem.Tasks.{Task, TaskRules}
use automem.Auth.{
  ensure_task_row_access, enforce_project_identity, enforce_user_identity, require_scope, Auth,
}
use automem.Tasks.Normalize.{normalize_tasks, NormalizeCounts, TaskWorld}
use automem.Tasks.Pages.{fetch_tasks, fetch_tasks_page, TaskFilter, Codec, TaskView}
use automem.Common.{false, leb, true, ℕ, Bool, not, ◌&&◌, Option, none, some, List, if◌then◌else◌}
use automem.Text.{Text, text, ◌==◌}
use automem.Http.{Result, ok, err, ◌>>=◌, ◌>>◌, raise_if, task_not_found, user_required}

pub data TaskDetail : Type 0 where
  closed archived : (reason : Option Text) → TaskDetail
  normalized : NormalizeCounts → NormalizeOptions → TaskDetail

pub record TaskServer (S : Type 0) : Type 0 where
  pub world : TaskWorld S
  pub audit : List (AuditEvent TaskDetail)

abbrev pub is_none : Option Text → Bool
is_none none = true
is_none (some t) = false

-- The answer to a listing.
pub record TaskPage : Type 0 where
  pub tasks : List TaskView
  pub limit : ℕ
  pub has_more : Bool
  pub next_cursor : Option Text

-- The checks of `list_tasks`, and with which filter it reads.
unfoldable pub check_listing : Auth → TaskFilter → Result TaskFilter
check_listing auth asked = do
  require_scope auth (text "task")
  user_id ← enforce_user_identity auth asked.user_id
  project_id ← enforce_project_identity auth asked.project_id
  raise_if (is_none user_id && not auth.is_admin) user_required
  ok (record asked { user_id = user_id; project_id = project_id })

-- The body of the answer.
abbrev pub answer_page : ℕ → Result (List TaskView × Option Text × Bool) → Result TaskPage
answer_page limit r = do
  (tasks, next_cursor, has_more) ← r
  ok (record {
    tasks = tasks;
    limit = page_limit limit;
    has_more = has_more;
    next_cursor = next_cursor;
  })

unfoldable pub list_filtered :
    Codec
    → TaskRules
    → (limit : ℕ) → (cursor : Option Text) → List Task
    → (filter : Result TaskFilter) → Result TaskPage
list_filtered codec rules limit cursor table (err e) = err e
list_filtered codec rules limit cursor table (ok filter) =
    answer_page limit (fetch_tasks_page codec rules filter limit cursor table)

unfoldable pub list_tasks :
    Codec
    → TaskRules
    → Auth
    → TaskFilter
    → (limit : ℕ) → (cursor : Option Text) → List Task
    → Result TaskPage
list_tasks codec rules auth asked limit cursor table =
    list_filtered codec rules limit cursor table (check_listing auth asked)

-- The row of the id, if the key may reach it.
unfoldable pub reach_found : Auth → Option Task → Result Task
reach_found auth none = err task_not_found
reach_found auth (some row) = ensure_task_row_access auth row row.user_id row.project_id

unfoldable pub reach_task : Auth → Text → List Task → Result Task
reach_task auth task_id table =
    require_scope auth (text "task") >> reach_found auth (fetch_task task_id table)

-- The task with its title, and `display_title` and `summary_preview`.
unfoldable pub get_task : TaskRules → Auth → Text → List Task → Result (Task × Text × Option Text)
get_task rules auth task_id table = do
  row ← reach_task auth task_id table
  let title = rules.sanitize_task_title row.title row.last_summary (some row.task_id)
  ok (record row { title = title }, title, rules.sanitize_task_summary_preview row.last_summary)

-- `if cursor.rowcount == 0: raise`
abbrev pub is_zero : ℕ → Bool
is_zero n = leb n 0

module _ {S : Type 0} (now : Text) (stamp : Stamp) where
  -- Behind the check of the row: the table has been written, and is kept if no row was.
  unfoldable pub finish_write :
      Auth
      → (event_type task_id status : Text) → TaskDetail
      → ℕ × List Task
      → TaskServer S
      → Result (Text × Text) × TaskServer S
  finish_write auth event_type task_id status detail (rowcount, table) w =
      let written : TaskWorld S = record w.world { tasks = table } in
      if is_zero rowcount then (err task_not_found, record w { world = written }) else (
        ok (task_id, status),
        record {
          world = written;
          audit =
              write_audit
                (event_of stamp auth auth.agent_id event_type none none (some task_id) detail)
                w.audit;
        },
      )

  unfoldable pub close_reached :
      Auth
      → (task_id : Text) → (reason : Option Text) → Result Task
      → TaskServer S
      → Result (Text × Text) × TaskServer S
  close_reached auth task_id reason (err e) w = (err e, w)
  close_reached auth task_id reason (ok row) w =
      finish_write auth (text "task_close") task_id (text "closed") (closed reason)
        (close_rows now task_id w.world.tasks) w

  unfoldable pub close_task :
      Auth
      → (task_id : Text) → (reason : Option Text) → TaskServer S
      → Result (Text × Text) × TaskServer S
  close_task auth task_id reason w =
      close_reached auth task_id reason (reach_task auth task_id w.world.tasks) w

  unfoldable pub archive_reached :
      Auth
      → (task_id : Text) → (reason : Option Text) → Result Task
      → TaskServer S
      → Result (Text × Text) × TaskServer S
  archive_reached auth task_id reason (err e) w = (err e, w)
  archive_reached auth task_id reason (ok row) w =
      finish_write auth (text "task_archive") task_id (text "archived") (archived reason)
        (archive_rows now task_id w.world.tasks) w

  unfoldable pub archive_task :
      Auth
      → (task_id : Text) → (reason : Option Text) → TaskServer S
      → Result (Text × Text) × TaskServer S
  archive_task auth task_id reason w =
      archive_reached auth task_id reason (reach_task auth task_id w.world.tasks) w

  -- An answer is logged, and an exception is not.
  unfoldable pub log_counts :
      Auth
      → NormalizeOptions
      → Result NormalizeCounts × TaskWorld S
      → TaskServer S
      → Result NormalizeCounts × TaskServer S
  log_counts auth options (err e, world) w = (err e, record w { world = world })
  log_counts auth options (ok counts, world) w = (
    ok counts,
    record {
      world = world;
      audit =
          write_audit
            (event_of stamp auth auth.agent_id (text "task_normalize") options.user_id
              options.project_id none (normalized counts options))
            w.audit;
    },
  )

  -- The cache of the user is rebuilt first, for all projects, also in a dry run.
  unfoldable pub tasks_normalize :
      Backend S
      → (digest : Text → Text) → TaskRules
      → Auth
      → NormalizeOptions
      → TaskServer S
      → Result NormalizeCounts × TaskServer S
  tasks_normalize b digest rules auth options w = elim (require_scope auth (text "admin")) [
    | err e ↦ (err e, w)
    | ok _ ↦
        log_counts auth options
          (normalize_tasks
            (if options.prune_non_work_archived && not options.dry_run then some b else none) rules
            options now
            (some (
              rebuild_memory_cache b digest now
                (record { user_id = options.user_id; run_id = none; agent_id = none })))
            w.world)
          w
  ]
