-- ===== src/Tasks/Lifecycle/Unique.antt =====
-- One row for each id: the writes of the endpoints keep the primary key.
use automem.Tasks.Rows.{
  has_task_id, TaskWrite, upsert_task, fetch_task, inserted_task, overwrite_task, upsert_found,
}
use automem.Tasks.Lifecycle.{
  summarize, archive, close, archive_rows, close_rows, TaskCall, write_call, write_calls,
}
use automem.Tasks.{Task, TaskRules}
use automem.Common.{
  UniqueBy-update, none, some, first-none, arith, false, All-map_of, UniqueBy-append_one, Option,
  UniqueBy, List, ◌≡◌, refl, [], ◌∷◌,
}
use automem.Text.{Text, eq_refl}

abbrev pub HasUniqueIds : List Task → Type 0
HasUniqueIds = UniqueBy (λ (row : Task). row.task_id)

module _ (rules : TaskRules) where
  upsert_found-HasUniqueIds :
      (now : Text) (args : TaskWrite) (table : List Task) (found : Option Task)
      → fetch_task args.task_id table ≡ found
      → HasUniqueIds table
      → HasUniqueIds (upsert_found rules now args found table).1
  unfolding upsert_found overwrite_task inserted_task fetch_task
  upsert_found-HasUniqueIds now args table none e u =
      UniqueBy-append_one (λ (row : Task). row.task_id) table (inserted_task rules now args) u
        (All-map_of (λ (row : Task). has_task_id args.task_id row ≡ false) _
          (λ (row : Task) n same. ground (arith, n, same, eq_refl args.task_id)) table
          (first-none (has_task_id args.task_id) table e))
  upsert_found-HasUniqueIds now args table (some row) e u =
      UniqueBy-update _ _ _ (λ x t. refl) table u

  write_call-HasUniqueIds :
      (call : TaskCall) (table : List Task)
      → HasUniqueIds table
      → HasUniqueIds (write_call rules call table)
  unfolding write_call upsert_task close_rows archive_rows
  write_call-HasUniqueIds (close now id) table u = UniqueBy-update _ _ _ (λ x t. refl) table u
  write_call-HasUniqueIds (archive now id) table u = UniqueBy-update _ _ _ (λ x t. refl) table u
  write_call-HasUniqueIds (summarize now args) table u =
      upsert_found-HasUniqueIds now args table (fetch_task args.task_id table) refl u

  -- Summaries, closings and archivings in any order keep the ids of the tasks unique.
  write_calls-HasUniqueIds :
      (calls : List TaskCall) (table : List Task)
      → HasUniqueIds table
      → HasUniqueIds (write_calls rules calls table)
  unfolding write_calls
  write_calls-HasUniqueIds [] table u = u
  write_calls-HasUniqueIds (call ∷ calls) table u =
      write_calls-HasUniqueIds calls (write_call rules call table)
        (write_call-HasUniqueIds call table u)
