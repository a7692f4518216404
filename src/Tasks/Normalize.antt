-- ===== src/Tasks/Normalize.antt =====
-- `normalize_tasks`: titles are rewritten, tasks that are no work or have no memory are archived or deleted.
pub mod Scope
pub mod Effects
pub mod Outcomes
use automem.Services.Flow.{Flow}
use automem.Common.{
  map, length, select, true, false, delete, ℕ, Bool, not, ◌&&◌, ◌||◌, Option, none, some, List, [],
  ◌∷◌, if◌then◌else◌,
}
use automem.Text.{Text, text, elem}
use automem.Http.{prune_failed, Result, ok, err}
use automem.Cache.{CacheRow}
use automem.Cache.Rows.{matches_if_given, column_eq}
use automem.Services.{Backend, Memories}
use automem.Tasks.{Task, TaskRules}
use automem.Tasks.Rows.{fetch_task_ids_with_memory}
use automem.Tasks.Scan.{NormalizeOptions, Scan, new_scan, scan_rows}

-- What the program returns.
pub record NormalizeCounts : Type 0 where
  pub scanned_tasks : ℕ
  pub rebuilt_cache_count : ℕ
  pub scan : Scan
  pub deleted_archived_non_work_tasks : ℕ
  pub deleted_archived_non_work_memory : ℕ
  pub deleted_archived_work_without_memory_tasks : ℕ
  pub changed_tasks : ℕ

pub record TaskWorld (S : Type 0) : Type 0 where
  pub tasks : List Task
  pub memories : Memories S

-- The rows of the scope.
unfoldable pub in_task_scope : NormalizeOptions → Task → Bool
in_task_scope options row =
    matches_if_given options.user_id (some row.user_id)
    && matches_if_given options.project_id row.project_id

-- `column IN (…)`, which a NULL does not satisfy.
abbrev pub column_in : Option Text → List Text → Bool
column_in none ids = false
column_in (some held) ids = elem held ids

-- domain = 'task' AND (task_id IN … OR run_id IN …)
unfoldable pub is_memory_of : List Text → CacheRow → Bool
is_memory_of ids row =
    column_eq row.domain (text "task") && (column_in row.task_id ids || column_in row.run_id ids)

-- The ids that were deleted and those that failed, with the state of mem0.
unfoldable pub remove_memories :
    {S : Type 0} → Option (Backend S) → List Text → S → (List Text × List Text) × S
remove_memories b [] held = (([], []), held)
remove_memories none (id ∷ ids) held =
    let ((deleted, failed), held') = remove_memories none ids held in
    ((deleted, id ∷ failed), held')
remove_memories (some b) (id ∷ ids) held =
    let (r, removed) = b.remove id held in
    let ((deleted, failed), held') = remove_memories (some b) ids removed in
    elim r [ ok _ ↦ ((id ∷ deleted, failed), held') | err e ↦ ((deleted, id ∷ failed), held') ]

abbrev pub is_nil : List Text → Bool
is_nil [] = true
is_nil (t ∷ ts) = false

-- What the transaction holds after the first deletion: the two counts, the tasks and the cache.
pub record Pruned : Type 0 where
  pub deleted_tasks : ℕ
  pub deleted_memory : ℕ
  pub tasks : List Task
  pub cache : List CacheRow

-- The tables under one connection.
abbrev pub Tables : Type 0
Tables = List Task × List CacheRow

-- `with sqlite3.connect(…) as conn`, whose body returns or raises with what it has written: an exception
-- rolls back to what was before.
unfoldable pub close_transaction : {T : Type 0} → Tables → Result T × Tables → Result T × Tables
close_transaction before (ok t, written) = (ok t, written)
close_transaction before (err e, written) = (err e, before)

-- Behind the calls of mem0. A failure raises.
unfoldable pub finish_prune :
    List Text → List Text → List Text → List Task → List CacheRow → Result Pruned
finish_prune ids deleted [] tasks cache = ok (record {
  deleted_tasks = length ids;
  deleted_memory = length deleted;
  tasks = delete (λ (row : Task). elem row.task_id ids) tasks;
  cache = delete (λ (row : CacheRow). elem row.memory_id deleted) cache;
})
finish_prune ids deleted (f ∷ fs) tasks cache = err prune_failed

-- The deletion of archived tasks that are no work, with their memories.
unfoldable pub prune_non_work :
    {S : Type 0}
    → Option (Backend S)
    → NormalizeOptions
    → List Text
    → List Task
    → Memories S
    → Result Pruned × S
prune_non_work b options ids tasks memories =
    if not (options.prune_non_work_archived && not (is_nil ids))
    then (
      ok (record { deleted_tasks = 0; deleted_memory = 0; tasks = tasks; cache = memories.cache }),
      memories.held,
    )
    else if options.dry_run
    then (
      ok (record {
        deleted_tasks = length ids;
        deleted_memory = 0;
        tasks = tasks;
        cache = memories.cache;
      }),
      memories.held,
    )
    else (let ((deleted, failed), held) =
          remove_memories b
            (map (λ (row : CacheRow). row.memory_id) (select (is_memory_of ids) memories.cache))
            memories.held in
        (finish_prune ids deleted failed tasks memories.cache, held))

-- The deletion of archived work without memory.
unfoldable pub prune_without_memory : NormalizeOptions → List Text → List Task → List Task
prune_without_memory options ids tasks =
    if (options.prune_work_without_memory_archived && not (is_nil ids)) && not options.dry_run
    then delete (λ (row : Task). elem row.task_id ids) tasks
    else tasks

module _ {S : Type 0} (b : Option (Backend S)) (rules : TaskRules) (options : NormalizeOptions)
    (now : Text) where
  -- Behind the loop, which has written the tasks of `scan`. What a deletion that fails has written to the
  -- cache is left out, as the rollback discards it.
  unfoldable pub prune_body :
      (scanned rebuilt : ℕ) → Scan → Result Pruned → List CacheRow → Result NormalizeCounts × Tables
  prune_body scanned rebuilt scan (err e) cache = (err e, (scan.tasks, cache))
  prune_body scanned rebuilt scan (ok pruned) cache = (
    ok (record {
      scanned_tasks = scanned;
      rebuilt_cache_count = rebuilt;
      scan = scan;
      deleted_archived_non_work_tasks = pruned.deleted_tasks;
      deleted_archived_non_work_memory = pruned.deleted_memory;
      deleted_archived_work_without_memory_tasks =
          if options.prune_work_without_memory_archived
          then length scan.without_memory_to_delete
          else 0;
      changed_tasks = length scan.changed;
    }),
    (prune_without_memory options scan.without_memory_to_delete pruned.tasks, pruned.cache),
  )

  -- The deletions, and the end of the transaction that the loop and they are in.
  unfoldable pub prune_scanned :
      (scanned rebuilt : ℕ) → Scan → TaskWorld S → Result NormalizeCounts × TaskWorld S
  prune_scanned scanned rebuilt scan w =
      let (r, held) = prune_non_work b options scan.non_work_to_delete scan.tasks w.memories in
      let (answer, (tasks, cache)) =
        close_transaction (w.tasks, w.memories.cache)
          (prune_body scanned rebuilt scan r w.memories.cache) in
      (answer, record { tasks = tasks; memories = record { cache = cache; held = held } })

  -- Behind the rebuild of the cache.
  unfoldable pub normalize_rows : (rebuilt : ℕ) → TaskWorld S → Result NormalizeCounts × TaskWorld S
  normalize_rows rebuilt w =
      let rows = select (in_task_scope options) w.tasks in
      let with_memory =
        fetch_task_ids_with_memory options.user_id options.project_id w.memories.cache in
      prune_scanned (length rows) rebuilt
        (scan_rows rules options with_memory now rows (new_scan w.tasks)) w

  unfoldable pub normalize_rebuilt :
      Result ℕ × Memories S → List Task → Result NormalizeCounts × TaskWorld S
  normalize_rebuilt (err e, memories) tasks = (err e, record { tasks = tasks; memories = memories })
  normalize_rebuilt (ok rebuilt, memories) tasks =
      normalize_rows rebuilt (record { tasks = tasks; memories = memories })

  -- `rebuild` is the call of `rebuild_cache_fn`, if there is one.
  unfoldable pub normalize_tasks :
      (rebuild : Option (Flow S ℕ)) → TaskWorld S → Result NormalizeCounts × TaskWorld S
  normalize_tasks none w = normalize_rows 0 w
  normalize_tasks (some rebuild) w = normalize_rebuilt (rebuild w.memories) w.tasks
