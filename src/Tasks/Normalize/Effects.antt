-- ===== src/Tasks/Normalize/Effects.antt =====
-- What a normalization changes of the tasks outside its scope: nothing.
use automem.Cache.Rows.{matches_if_given}
use automem.Common.{
  ◌||◌, Bool, false, sym, refl, ap, some, All-map_of, none, ℕ, arith, select, UniqueBy, ◌≡◌, ◌∙◌,
  true, not, ◌&&◌, Option, List, [], ◌∷◌, Bool-cases, inl, inr, All, All-select, delete,
}
use automem.Text.{◌==◌, eq_refl, Text, elem}
use automem.Http.{Result, ok, err}
use automem.Services.{Backend, Memories}
use automem.Tasks.{TaskRules, Task}
use automem.Tasks.Scan.{NormalizeOptions, Scan, new_scan}
use automem.Tasks.Normalize.{
  close_transaction, prune_body, Flow, in_task_scope, TaskWorld, normalize_rows, prune_scanned,
  normalize_tasks, normalize_rebuilt, CacheRow, Pruned, prune_non_work, finish_prune,
  prune_without_memory, is_nil,
}
use automem.Tasks.Normalize.Scope.{
  selected, IsTame, scan_rows-IsTame, outside, task_ids, IsFrozen, select-delete,
}

module _ (options : NormalizeOptions) (ids : List Text) (kept : List Task) where
  delete-IsFrozen :
      (dead : List Text) (table : List Task)
      → All (λ id. elem id ids ≡ true) dead
      → IsFrozen options ids kept table
      → IsFrozen options ids kept (delete (λ (row : Task). elem row.task_id dead) table)
  delete-IsFrozen dead table d h = record {
    guarded = unfold delete in All-select _ _ table h.guarded;
    same = select-delete options ids dead table d h.guarded ∙ h.same;
  }

  -- The table of a deletion that succeeds.
  abbrev IsSpared : Result Pruned → Type 0
  IsSpared (ok pruned) = IsFrozen options ids kept pruned.tasks
  IsSpared (err e) = Unit

  finish_prune-IsSpared :
      (dead deleted failed : List Text) (tasks : List Task) (cache : List CacheRow)
      → All (λ id. elem id ids ≡ true) dead
      → IsFrozen options ids kept tasks
      → IsSpared (finish_prune dead deleted failed tasks cache)
  unfolding finish_prune
  finish_prune-IsSpared dead deleted [] tasks cache d h = delete-IsFrozen dead tasks d h
  finish_prune-IsSpared dead deleted (f ∷ fs) tasks cache d h = tt

  prune_non_work-IsSpared :
      {S : Type 0} (b : Option (Backend S)) (dead : List Text) (tasks : List Task)
      (memories : Memories S)
      → All (λ id. elem id ids ≡ true) dead
      → IsFrozen options ids kept tasks
      → IsSpared (prune_non_work b options dead tasks memories).0
  unfolding prune_non_work
  prune_non_work-IsSpared b dead tasks memories d h =
      elim (Bool-cases (options.prune_non_work_archived && not (is_nil dead))) [
        | inr e ↦ rw e h
        | inl e ↦ elim (Bool-cases options.dry_run) [
          | inl f ↦ simp (e, f) h
          | inr f ↦ simp (e, f) (finish_prune-IsSpared dead _ _ tasks memories.cache d h)
        ]
      ]

  prune_without_memory-IsFrozen :
      (dead : List Text) (tasks : List Task)
      → All (λ id. elem id ids ≡ true) dead
      → IsFrozen options ids kept tasks
      → IsFrozen options ids kept (prune_without_memory options dead tasks)
  unfolding prune_without_memory
  prune_without_memory-IsFrozen dead tasks d h =
      elim (Bool-cases (
        (options.prune_work_without_memory_archived && not (is_nil dead)) && not options.dry_run)) [
          | inl e ↦ rw e (delete-IsFrozen dead tasks d h)
          | inr e ↦ rw e h
        ]

-- The ids of a table's rows that are in the scope are those of no row outside.
start-IsFrozen :
    (options : NormalizeOptions) (table : List Task)
    → UniqueBy (λ (row : Task). row.task_id) table
    → IsFrozen options
        (task_ids (select (in_task_scope options) table))
        (select (outside options (task_ids (select (in_task_scope options) table))) table)
        table
start-IsFrozen options table u = record {
  guarded =
      All-map_of
        (λ (row : Task).
          elem row.task_id (task_ids (select (in_task_scope options) table)) ≡ true
          → in_task_scope options row ≡ true)
        _ (λ (row : Task) h e. ap not (h e)) table (selected (in_task_scope options) table u);
  same = refl;
}

own_ids : (rows : List Task) → All (λ (row : Task). elem row.task_id (task_ids rows) ≡ true) rows
unfolding elem
own_ids [] = tt
own_ids (row ∷ rows) = (
  ground (arith, eq_refl row.task_id),
  All-map_of _ _ (λ (x : Task) h. ground (arith, h)) rows (own_ids rows),
)

-- `value` is given and the column holds another.
abbrev pub differs : Option Text → Option Text → Bool
differs none column = false
differs (some value) none = true
differs (some value) (some held) = not (held == value)

module _ {S : Type 0} (b : Option (Backend S)) (rules : TaskRules) (options : NormalizeOptions)
    (now : Text) where
  -- The tasks outside the scope.
  abbrev pub others : List Task → List Task
  others = select (λ row. not (in_task_scope options row))

  prune_scanned-others :
      (ids : List Text) (scanned rebuilt : ℕ) (scan : Scan) (w : TaskWorld S)
      → IsTame options ids (others w.tasks) scan
      → others (prune_scanned b rules options now scanned rebuilt scan w).1.tasks ≡ others w.tasks
  unfolding prune_scanned prune_body close_transaction
  prune_scanned-others ids scanned rebuilt scan w h =
      go (prune_non_work b options scan.non_work_to_delete scan.tasks w.memories) refl (
        prune_non_work-IsSpared options ids (others w.tasks) b scan.non_work_to_delete scan.tasks
          w.memories h.non_work h.frozen)
    where
      go :
          (r : Result Pruned × S)
          → prune_non_work b options scan.non_work_to_delete scan.tasks w.memories ≡ r
          → IsSpared options ids (others w.tasks) r.0
          → others (prune_scanned b rules options now scanned rebuilt scan w).1.tasks
            ≡ others w.tasks
      go (err e, held) same k = rw (same, prune_scanned) refl
      go (ok pruned, held) same k =
          rw (same, prune_scanned)
            (prune_without_memory-IsFrozen options ids (others w.tasks)
              scan.without_memory_to_delete pruned.tasks h.without_memory k).same

  normalize_rows-others :
      (rebuilt : ℕ) (w : TaskWorld S)
      → UniqueBy (λ (row : Task). row.task_id) w.tasks
      → others (normalize_rows b rules options now rebuilt w).1.tasks ≡ others w.tasks
  unfolding normalize_rows
  normalize_rows-others rebuilt w u =
      let rows = select (in_task_scope options) w.tasks in
      prune_scanned-others (task_ids rows) _ rebuilt _ w (
        scan_rows-IsTame options (task_ids rows) rules _ now (others w.tasks) rows
          (new_scan w.tasks) (own_ids rows)
          (record {
            frozen = start-IsFrozen options w.tasks u;
            non_work = tt;
            without_memory = tt;
          }))

  normalize_rebuilt-others :
      (r : Result ℕ × Memories S) (tasks : List Task)
      → UniqueBy (λ (row : Task). row.task_id) tasks
      → others (normalize_rebuilt b rules options now r tasks).1.tasks ≡ others tasks
  unfolding normalize_rebuilt
  normalize_rebuilt-others (err e, memories) tasks u = refl
  normalize_rebuilt-others (ok rebuilt, memories) tasks u =
      normalize_rows-others rebuilt (record { tasks = tasks; memories = memories }) u

  normalize_tasks-outside :
      (rebuild : Option (Flow S ℕ)) (w : TaskWorld S)
      → UniqueBy (λ (row : Task). row.task_id) w.tasks
      → others (normalize_tasks b rules options now rebuild w).1.tasks ≡ others w.tasks
  unfolding normalize_tasks
  normalize_tasks-outside none w u = normalize_rows-others 0 w u
  normalize_tasks-outside (some rebuild) w u =
      normalize_rebuilt-others (rebuild w.memories) w.tasks u

  -- A task of another user or project than those that the options name.
  abbrev pub is_elsewhere : Task → Bool
  is_elsewhere row =
      differs options.user_id (some row.user_id) || differs options.project_id row.project_id

  elsewhere_others : (table : List Task) → select is_elsewhere table ≡ others table
  unfolding select in_task_scope
  elsewhere_others [] = refl
  elsewhere_others (row ∷ rows) =
      let ih = elsewhere_others rows in
      let same : is_elsewhere row ≡ not (in_task_scope options row) =
        go options.user_id options.project_id row.project_id in
      rw (same, ih) refl
    where
      go :
          (user_id project_id column : Option Text)
          → (differs user_id (some row.user_id) || differs project_id column)
            ≡ not
                (matches_if_given user_id (some row.user_id) && matches_if_given project_id column)
      go none none column = refl
      go none (some p) none = refl
      go none (some p) (some held) = refl
      go (some u) none column = ground arith
      go (some u) (some p) none = ground arith
      go (some u) (some p) (some held) = ground arith

  -- Whatever is archived, rewritten or deleted, and whether the call returns or raises: the tasks of other
  -- users than the one of the options, and of other projects, if the options name one, stay as they are, if
  -- task ids are unique.
  pub normalize_tasks-others :
      (rebuild : Option (Flow S ℕ)) (w : TaskWorld S)
      → UniqueBy (λ (row : Task). row.task_id) w.tasks
      → select is_elsewhere (normalize_tasks b rules options now rebuild w).1.tasks
        ≡ select is_elsewhere w.tasks
  normalize_tasks-others rebuild w u =
      elsewhere_others _ ∙ normalize_tasks-outside rebuild w u ∙ sym (elsewhere_others w.tasks)
