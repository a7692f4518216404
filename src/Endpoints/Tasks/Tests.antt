-- ===== src/Endpoints/Tasks/Tests.antt =====
-- A key of one user at a table of two users' tasks.
use automem.Common.{
  ◌≡◌, refl, [], ◌∷◌, false, some, none, List, All, UniqueBy, ◌≢◌, arith, select, update, delete,
  first, sort_by, sort_insert,
}
use automem.Text.{Text, text, ◌==◌, elem, text_lt, eq_refl}
use automem.Text.Normalize.{normalize_text}
use automem.Text.Strings.{clean_from, clean_strings}
use automem.Http.{ok}
use automem.Audit.{write_audit}
use automem.Auth.{
  Auth, agent_key, require_scope, enforce_user_identity, enforce_project_identity, choose_project,
  normalize_project_ids, ensure_task_row_access,
}
use automem.Tasks.{Task, TaskRules}
use automem.Tasks.Rows.{fetch_task}
use automem.Tasks.Pages.{
  TaskView, TaskFilter, Codec, hydrate_task_row, encode_task_cursor, decode_task_cursor, page_of,
  query_rows, last_of, cursor_after, fetch_tasks_page, newest_first, is_listed, is_older,
}
use automem.Tasks.Lifecycle.{close_rows, archive_rows}
use automem.Endpoints.Memories.{Stamp}
use automem.Endpoints.Tasks.{
  TaskServer, TaskPage, check_listing, list_filtered, list_tasks, reach_found, reach_task,
  finish_write, close_reached, close_task, archive_reached, archive_task,
}
use automem.Endpoints.Tasks.Guards.{IsReachable, list_tasks-IsReachable}
use automem.Endpoints.Tasks.Writes.{is_beyond, writes-beyond}

program : Unit {0}
unfolding ◌==◌ elem text_lt first update select delete sort_by sort_insert normalize_text clean_from
    clean_strings normalize_project_ids require_scope enforce_user_identity enforce_project_identity
    choose_project ensure_task_row_access write_audit hydrate_task_row encode_task_cursor
    decode_task_cursor is_listed is_older newest_first last_of cursor_after page_of query_rows
    fetch_tasks_page fetch_task close_rows archive_rows check_listing list_filtered list_tasks
    reach_found reach_task finish_write close_reached close_task archive_reached archive_task
program = tt

abbrev rules : TaskRules
rules = record {
  sanitize_task_title = λ title last_summary task_id. title;
  classify_task_kind = λ task_id title last_summary source_agent project_id. text "work";
  sanitize_task_summary_preview = λ last_summary. last_summary;
}

abbrev codec : Codec
codec = record { encode = λ updated_at task_id. task_id; decode = λ cursor. none }

abbrev task_of : (task_id user_id project_id : Text) → Task
task_of task_id user_id project_id = record {
  task_id = task_id;
  user_id = user_id;
  project_id = some project_id;
  title = task_id;
  aliases = [];
  status = text "active";
  last_summary = none;
  source_agent = none;
  owner_agent = none;
  priority = some 0;
  created_at = text "1";
  updated_at = text "1";
  closed_at = none;
  archived_at = none;
}

abbrev table : List Task
table =
    task_of (text "a") (text "ann") (text "p")
    ∷ task_of (text "b") (text "bob") (text "p")
    ∷ task_of (text "c") (text "ann") (text "q")
    ∷ []

apart : (s t : Text) → (s == t) ≡ false → s ≢ t
apart s t h e = ground (arith, h, e, eq_refl s)

unique : UniqueBy (λ (row : Task). row.task_id) table
unfolding program
unique = (
  (apart (text "b") (text "a") refl, (apart (text "c") (text "a") refl, tt)),
  ((apart (text "c") (text "b") refl, tt), (tt, tt)),
)

abbrev key : Auth
key = record {
  actor_type = agent_key;
  actor_label = some (text "codex");
  agent_id = some (text "codex");
  user_id = some (text "ann");
  project_ids = text "p" ∷ [];
  scopes = text "task" ∷ [];
  is_admin = false;
}

abbrev everything : TaskFilter
everything = record { user_id = none; project_id = none; status = none }

abbrev page : TaskPage
page = record {
  tasks =
      record {
        task = task_of (text "a") (text "ann") (text "p");
        task_kind = text "work";
        display_title = text "a";
        summary_preview = none;
      }
      ∷ [];
  limit = 50;
  has_more = false;
  next_cursor = none;
}

listed : list_tasks codec rules key everything 50 none table ≡ ok page
unfolding program
listed = refl

list_tasks-IsReachable_example : All (λ (view : TaskView). IsReachable key view.task) page.tasks
list_tasks-IsReachable_example =
    list_tasks-IsReachable codec rules key everything 50 none table page refl listed

abbrev stamp : Stamp
stamp = record { event_id = text "e"; created_at = 1 }

abbrev server : TaskServer Text
server = record {
  world = record { tasks = table; memories = record { cache = []; held = [] } };
  audit = [];
}

archived_own :
    (archive_task (text "2") stamp key (text "a") none server).0 ≡ ok (text "a", text "archived")
unfolding program
archived_own = refl

writes-beyond_example :
    (select (is_beyond key) (close_task (text "2") stamp key (text "a") none server).1.world.tasks
      ≡ select (is_beyond key) table)
    × (select
          (is_beyond key)
          (archive_task (text "2") stamp key (text "a") none server).1.world.tasks
        ≡ select (is_beyond key) table)
writes-beyond_example = writes-beyond (text "2") stamp key (text "a") none server unique
