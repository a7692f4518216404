-- ===== src/Tasks/Tests.antt =====
-- Two tasks of two users, cursors that keep their texts, and the theorems at them.
use automem.Common.{arith, ◌≢◌, zero, suc, ◌≡◌, refl, ap, [], ◌∷◌, true, false, some, none, ℕ}
use automem.Common.{
  select, delete, update, first, sort_by, sort_insert, Option, List, All, map, arith,
}
use automem.Text.{eq_refl, Text, text, ◌==◌, elem, text_lt, truthy, is_empty, or_empty}
use automem.Http.{ok, err, prune_failed, backend_error}
use automem.Services.{Backend}
use automem.Cache.{CacheRow}
use automem.Tasks.{Task, TaskRules}
use automem.Tasks.Pages.{
  TaskFilter, Codec, hydrate_task_row, encode_task_cursor, decode_task_cursor, page_of, query_rows,
  last_of, cursor_after, fetch_tasks_page, newest_first, is_listed, is_older,
}
use automem.Tasks.Pages.Descent.{listing}
use automem.Tasks.Pages.Reader.{IsFaithful, read_all, shown, read_all_lem}
use automem.Tasks.Rows.{
  fetch_task, TaskWrite, inserted_task, overwrite_task, upsert_found, upsert_task,
  fetch_task_ids_with_memory,
}
use automem.Tasks.Rows.Upsert.{written, fetch_task-upsert_task}
use automem.Tasks.Lifecycle.{
  TaskCall, summarize, close, archive, close_rows, archive_rows, write_call, write_calls,
}
use automem.Tasks.Lifecycle.Laws.{Holds, write_calls-Holds}
use automem.Tasks.Lifecycle.Unique.{HasUniqueIds}
use automem.Tasks.Scan.{
  NormalizeOptions, write_task, scan_title, scan_non_work, scan_without_memory, scan_row, scan_rows,
}
use automem.Tasks.Normalize.{
  close_transaction, prune_body, TaskWorld, in_task_scope, is_memory_of, remove_memories,
  finish_prune, prune_non_work, prune_without_memory, prune_scanned, normalize_rows,
  normalize_rebuilt, normalize_tasks,
}
use automem.Tasks.Normalize.Effects.{is_elsewhere, normalize_tasks-others}
use automem.Tasks.Normalize.Outcomes.{normalize_tasks-dry_run}

program : Unit {0}
unfolding ◌==◌ elem text_lt first update select delete sort_by sort_insert hydrate_task_row
    encode_task_cursor decode_task_cursor is_listed is_older newest_first last_of cursor_after
    page_of query_rows fetch_tasks_page fetch_task inserted_task overwrite_task upsert_found
    upsert_task fetch_task_ids_with_memory close_rows archive_rows write_call write_calls write_task
    scan_title scan_non_work scan_without_memory scan_row scan_rows in_task_scope is_memory_of
    remove_memories finish_prune prune_non_work prune_without_memory prune_body close_transaction
    prune_scanned normalize_rows normalize_rebuilt normalize_tasks
program = tt

-- The kind of a task is the name of its agent here.
abbrev rules : TaskRules
rules = record {
  sanitize_task_title = λ title last_summary task_id. title;
  classify_task_kind = λ task_id title last_summary source_agent project_id. or_empty source_agent;
  sanitize_task_summary_preview = λ last_summary. last_summary;
}

abbrev task_of : (task_id user_id kind updated_at : Text) → Task
task_of task_id user_id kind updated_at = record {
  task_id = task_id;
  user_id = user_id;
  project_id = none;
  title = task_id;
  aliases = [];
  status = text "archived";
  last_summary = none;
  source_agent = some kind;
  owner_agent = none;
  priority = some 0;
  created_at = updated_at;
  updated_at = updated_at;
  closed_at = none;
  archived_at = some updated_at;
}

abbrev table : List Task
table =
    task_of (text "a") (text "ann") (text "system") (text "1")
    ∷ task_of (text "b") (text "bob") (text "work") (text "2")
    ∷ task_of (text "c") (text "ann") (text "work") (text "2")
    ∷ []

apart : (s t : Text) → (s == t) ≡ false → s ≢ t
apart s t h e = ground (arith, h, e, eq_refl s)

unique : HasUniqueIds table
unfolding program
unique = (
  (apart (text "b") (text "a") refl, (apart (text "c") (text "a") refl, tt)),
  ((apart (text "c") (text "b") refl, tt), (tt, tt)),
)

named : All (λ (t : Task). is_empty t.task_id ≡ false) table
named = (refl, (refl, (refl, tt)))

-- Each code point of the first text behind a 1, then a 0 and the second text.
abbrev mark : Text → Text → Text
mark [] task_id = 0 ∷ task_id
mark (c ∷ updated_at) task_id = 1 ∷ c ∷ mark updated_at task_id

abbrev later : ℕ → Option (Option Text × Option Text) → Option (Option Text × Option Text)
later c none = none
later c (some (none, task_id)) = none
later c (some (some updated_at, task_id)) = some (some (c ∷ updated_at), task_id)

abbrev unmark : Text → Option (Option Text × Option Text)
unmark [] = none
unmark (zero ∷ task_id) = some (some [], some task_id)
unmark (suc n ∷ []) = none
unmark (suc n ∷ c ∷ rest) = later c (unmark rest)

abbrev codec : Codec
codec = record { encode = mark; decode = unmark }

unmark-mark :
    (updated_at task_id : Text)
    → unmark (mark updated_at task_id) ≡ some (some updated_at, some task_id)
unmark-mark [] task_id = refl
unmark-mark (c ∷ updated_at) task_id = ap (later c) (unmark-mark updated_at task_id)

mark_nonempty : (updated_at task_id : Text) → truthy (some (mark updated_at task_id)) ≡ true
mark_nonempty [] task_id = refl
mark_nonempty (c ∷ updated_at) task_id = refl

faithful : IsFaithful codec
faithful = record { round_trip = unmark-mark; nonempty = mark_nonempty }

abbrev everything : TaskFilter
everything = record { user_id = none; project_id = none; status = none }

-- Pages of one task, the newest first.
in_order :
    map (λ (t : Task). t.task_id) (listing everything table) ≡ text "c" ∷ text "b" ∷ text "a" ∷ []
unfolding program
in_order = refl

read_all_lem_example :
    read_all codec rules everything 1 table 4 none
    ≡ some (shown codec rules everything 1 table (listing everything table))
read_all_lem_example =
    read_all_lem codec rules everything 1 table faithful unique named 4 (omega arith)

abbrev args : TaskWrite
args = record {
  task_id = text "c";
  user_id = text "bob";
  project_id = none;
  title = text "t";
  source_agent = some (text "work");
  last_summary = none;
  aliases = [];
}

abbrev calls : List TaskCall
calls = close (text "3") (text "c") ∷ summarize (text "4") args ∷ archive (text "5") (text "a") ∷ []

found_c :
    fetch_task (text "c") table ≡ some (task_of (text "c") (text "ann") (text "work") (text "2"))
unfolding program
found_c = refl

write_calls-Holds_example :
    Holds
      (text "c")
      (task_of (text "c") (text "ann") (text "work") (text "2"))
      (write_calls rules calls table)
write_calls-Holds_example = write_calls-Holds rules calls (text "c") _ table found_c

fetch_task-upsert_task_example :
    fetch_task (text "c") (upsert_task rules (text "3") args table).1
    ≡ some (written rules (text "3") args (fetch_task (text "c") table))
unfolding program
fetch_task-upsert_task_example = fetch_task-upsert_task rules (text "3") args (text "c") table

abbrev options : NormalizeOptions
options = record {
  user_id = some (text "ann");
  project_id = none;
  archive_non_work_active = true;
  prune_non_work_archived = true;
  archive_work_without_memory_active = true;
  prune_work_without_memory_archived = true;
  dry_run = false;
}

-- A memory of the task `a`, which mem0 does not delete.
abbrev row : CacheRow
row = record {
  memory_id = text "m";
  user_id = some (text "ann");
  run_id = none;
  agent_id = none;
  source_agent = none;
  domain = some (text "task");
  category = none;
  project_id = none;
  task_id = some (text "a");
  fact_key = none;
  fact_status = text "active";
  valid_from = none;
  valid_to = none;
  supersedes = [];
  superseded_by = none;
  conflict_status = none;
  review_status = none;
  memory = text "m";
  created_at = text "1";
  updated_at = text "1";
}

abbrev stubborn : Backend Text
stubborn = record {
  add = λ memory owner meta infer s. (ok none, s);
  get = λ memory_id s. (ok none, s);
  remove = λ memory_id s. (err backend_error, s);
  get_all = λ owner s. (ok [], s);
}

abbrev world : TaskWorld Text
world = record { tasks = table; memories = record { cache = row ∷ []; held = [] } }

abbrev bare : TaskWorld Text
bare = record { tasks = table; memories = record { cache = []; held = [] } }

-- Nothing stands in the way: both tasks of the user are deleted.
pruned :
    map
      (λ (t : Task). t.task_id)
      (normalize_tasks (some stubborn) rules options (text "3") none bare).1.tasks
    ≡ text "b" ∷ []
unfolding program
pruned = refl

failed : (normalize_tasks (some stubborn) rules options (text "3") none world).0 ≡ err prune_failed
unfolding program
failed = refl

normalize_tasks-others_example :
    select
      (is_elsewhere (some stubborn) rules options (text "3"))
      (normalize_tasks (some stubborn) rules options (text "3") none bare).1.tasks
    ≡ select (is_elsewhere (some stubborn) rules options (text "3")) table
normalize_tasks-others_example =
    normalize_tasks-others (some stubborn) rules options (text "3") none bare unique

normalize_tasks-dry_run_example :
    (normalize_tasks
      (some stubborn)
      rules
      (record options { dry_run = true })
      (text "3")
      none
      world).1
    ≡ world
normalize_tasks-dry_run_example =
    normalize_tasks-dry_run (some stubborn) rules (record options { dry_run = true }) (text "3")
      none world refl
