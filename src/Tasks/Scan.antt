-- ===== src/Tasks/Scan.antt =====
-- The loop of `normalize_tasks` over the tasks of the scope.
use automem.Common.{
  ℕ, ◌+◌, Bool, not, ◌&&◌, Option, none, some, List, [], ◌∷◌, ◌++◌, update, if◌then◌else◌,
}
use automem.Text.{Text, text, ◌==◌, elem}
use automem.Tasks.{Task, TaskRules}
use automem.Tasks.Rows.{has_task_id}

pub record NormalizeOptions : Type 0 where
  pub user_id : Option Text
  pub project_id : Option Text
  pub archive_non_work_active : Bool
  pub prune_non_work_archived : Bool
  pub archive_work_without_memory_active : Bool
  pub prune_work_without_memory_archived : Bool
  pub dry_run : Bool

-- The variables of the loop, with the table that the transaction holds. `changed` is a set.
pub record Scan : Type 0 where
  pub tasks : List Task
  pub updated_titles : ℕ
  pub archived_tasks : ℕ
  pub kinds_reclassified : ℕ
  pub active_non_work_detected : ℕ
  pub archived_non_work_detected : ℕ
  pub active_work_without_memory_detected : ℕ
  pub archived_work_without_memory_detected : ℕ
  pub archived_work_without_memory_tasks : ℕ
  pub changed : List Text
  pub non_work_to_delete : List Text
  pub without_memory_to_delete : List Text

abbrev pub new_scan : List Task → Scan
new_scan table = record {
  tasks = table;
  updated_titles = 0;
  archived_tasks = 0;
  kinds_reclassified = 0;
  active_non_work_detected = 0;
  archived_non_work_detected = 0;
  active_work_without_memory_detected = 0;
  archived_work_without_memory_detected = 0;
  archived_work_without_memory_tasks = 0;
  changed = [];
  non_work_to_delete = [];
  without_memory_to_delete = [];
}

-- `changed_task_ids.add`
abbrev pub add_to_set : Text → List Text → List Text
add_to_set t ts = if elem t ts then ts else t ∷ ts

abbrev pub count_if : Bool → ℕ → ℕ
count_if test n = if test then n + 1 else n

abbrev pub push_if : Bool → Text → List Text → List Text
push_if test t ts = if test then ts ++ t ∷ [] else ts

-- UPDATE tasks SET title = ?, updated_at = ?
abbrev pub retitle : Text → Text → Task → Task
retitle title now row = record row { title = title; updated_at = now }

-- UPDATE tasks SET status = 'archived', archived_at = COALESCE(archived_at, ?), updated_at = ?
abbrev pub archive_again : Text → Task → Task
archive_again now row = record row {
  status = text "archived";
  archived_at = elim row.archived_at [ none ↦ some now | some t ↦ some t ];
  updated_at = now;
}

-- A statement on the row of an id, which a dry run leaves out.
unfoldable pub write_task : Bool → Text → (Task → Task) → List Task → List Task
write_task dry_run task_id f table = if dry_run then table else update (has_task_id task_id) f table

module _ (rules : TaskRules) (options : NormalizeOptions) (with_memory : List Text)
    (now : Text) where
  -- The title of a row is rewritten if the rules give another.
  unfoldable pub scan_title : Task → Text → Scan → Scan
  scan_title row title scan = if title == row.title then scan else record scan {
    updated_titles = scan.updated_titles + 1;
    changed = add_to_set row.task_id scan.changed;
    tasks = write_task options.dry_run row.task_id (retitle title now) scan.tasks;
  }

  -- A task that is no work.
  unfoldable pub scan_non_work : Task → Scan → Scan
  scan_non_work row scan =
      let is_active = row.status == text "active" in
      let is_archived = not is_active && (row.status == text "archived") in
      let archives = options.archive_non_work_active && is_active in
      record scan {
        kinds_reclassified = scan.kinds_reclassified + 1;
        active_non_work_detected = count_if is_active scan.active_non_work_detected;
        archived_non_work_detected = count_if is_archived scan.archived_non_work_detected;
        non_work_to_delete =
            push_if (is_archived && options.prune_non_work_archived) row.task_id
              scan.non_work_to_delete;
        archived_tasks = count_if archives scan.archived_tasks;
        changed = if archives then add_to_set row.task_id scan.changed else scan.changed;
        tasks =
            if archives
            then write_task options.dry_run row.task_id (archive_again now) scan.tasks
            else scan.tasks;
      }

  -- Work of which the cache holds no memory.
  unfoldable pub scan_without_memory : Task → Scan → Scan
  scan_without_memory row scan =
      let is_active = row.status == text "active" in
      let is_archived = not is_active && (row.status == text "archived") in
      let archives = is_active && options.archive_work_without_memory_active in
      record scan {
        active_work_without_memory_detected =
            count_if is_active scan.active_work_without_memory_detected;
        archived_work_without_memory_detected =
            count_if is_archived scan.archived_work_without_memory_detected;
        archived_work_without_memory_tasks =
            count_if archives scan.archived_work_without_memory_tasks;
        changed = if archives then add_to_set row.task_id scan.changed else scan.changed;
        tasks =
            if archives
            then write_task options.dry_run row.task_id (archive_again now) scan.tasks
            else scan.tasks;
        without_memory_to_delete =
            push_if (is_archived && options.prune_work_without_memory_archived) row.task_id
              scan.without_memory_to_delete;
      }

  -- The body of the loop.
  unfoldable pub scan_row : Task → Scan → Scan
  scan_row row scan =
      let title = rules.sanitize_task_title row.title row.last_summary (some row.task_id) in
      let kind =
        rules.classify_task_kind row.task_id title row.last_summary row.source_agent
          row.project_id in
      let titled = scan_title row title scan in
      if not (kind == text "work")
      then scan_non_work row titled
      else if not (elem row.task_id with_memory)
      then scan_without_memory row titled
      else titled

  unfoldable pub scan_rows : List Task → Scan → Scan
  scan_rows [] scan = scan
  scan_rows (row ∷ rows) scan = scan_rows rows (scan_row row scan)
