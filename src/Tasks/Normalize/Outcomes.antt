-- ===== src/Tasks/Normalize/Outcomes.antt =====
-- A dry run of a normalization.
use automem.Common.{refl, some, none, ℕ, arith, select, ◌≡◌, ◌∙◌, true, Option, List, [], ◌∷◌}
use automem.Text.{Text}
use automem.Http.{Result, ok, err}
use automem.Services.{Backend, Memories}
use automem.Tasks.{TaskRules, Task}
use automem.Tasks.Scan.{
  write_task, scan_without_memory, scan_non_work, scan_title, scan_row, scan_rows, NormalizeOptions,
  Scan, new_scan,
}
use automem.Tasks.Normalize.{
  close_transaction, prune_body, Flow, in_task_scope, TaskWorld, normalize_rows, prune_scanned,
  normalize_tasks, normalize_rebuilt, prune_non_work, prune_without_memory,
}

module _ {S : Type 0} (b : Option (Backend S)) (rules : TaskRules) (options : NormalizeOptions)
    (now : Text) where
  -- In a dry run the loop writes nothing.
  scan_row-dry :
      (with_memory : List Text) (row : Task) (scan : Scan)
      → options.dry_run ≡ true
      → (scan_row rules options with_memory now row scan).tasks ≡ scan.tasks
  unfolding scan_row scan_title scan_non_work scan_without_memory write_task
  scan_row-dry with_memory row scan dry = ground (arith, dry)

  scan_rows-dry :
      (with_memory : List Text) (rows : List Task) (scan : Scan)
      → options.dry_run ≡ true
      → (scan_rows rules options with_memory now rows scan).tasks ≡ scan.tasks
  unfolding scan_rows
  scan_rows-dry with_memory [] scan dry = refl
  scan_rows-dry with_memory (row ∷ rows) scan dry =
      scan_rows-dry with_memory rows _ dry ∙ scan_row-dry with_memory row scan dry

  prune_dry :
      (scanned rebuilt : ℕ) (scan : Scan) (w : TaskWorld S)
      → options.dry_run ≡ true
      → scan.tasks ≡ w.tasks
      → (prune_scanned b rules options now scanned rebuilt scan w).1 ≡ w
  unfolding prune_scanned prune_body close_transaction prune_non_work prune_without_memory
  prune_dry scanned rebuilt scan w dry same = ground (arith, dry, same)

  -- The memories behind the rebuild of the cache.
  abbrev pub behind_rebuild : Option (Flow S ℕ) → Memories S → Memories S
  behind_rebuild none memories = memories
  behind_rebuild (some rebuild) memories = (rebuild memories).1

  normalize_rows-dry :
      (rebuilt : ℕ) (w : TaskWorld S)
      → options.dry_run ≡ true
      → (normalize_rows b rules options now rebuilt w).1 ≡ w
  unfolding normalize_rows
  normalize_rows-dry rebuilt w dry =
      prune_dry _ rebuilt _ w dry
        (scan_rows-dry _ (select (in_task_scope options) w.tasks) (new_scan w.tasks) dry)

  normalize_rebuilt-dry :
      (r : Result ℕ × Memories S) (tasks : List Task)
      → options.dry_run ≡ true
      → (normalize_rebuilt b rules options now r tasks).1 ≡ record { tasks = tasks; memories = r.1 }
  unfolding normalize_rebuilt
  normalize_rebuilt-dry (err e, memories) tasks dry = refl
  normalize_rebuilt-dry (ok rebuilt, memories) tasks dry =
      normalize_rows-dry rebuilt (record { tasks = tasks; memories = memories }) dry

  -- A dry run changes neither the tasks nor the memories, except as the rebuild of the cache does.
  pub normalize_tasks-dry_run :
      (rebuild : Option (Flow S ℕ)) (w : TaskWorld S)
      → options.dry_run ≡ true
      → (normalize_tasks b rules options now rebuild w).1
        ≡ record { tasks = w.tasks; memories = behind_rebuild rebuild w.memories }
  unfolding normalize_tasks
  normalize_tasks-dry_run none w dry = normalize_rows-dry 0 w dry
  normalize_tasks-dry_run (some rebuild) w dry =
      normalize_rebuilt-dry (rebuild w.memories) w.tasks dry
