-- ===== src/Tasks/Lifecycle/Laws.antt =====
-- What the writes of the endpoints keep of a task.
use automem.Tasks.Rows.Upsert.{fetch_task-upsert_task}
use automem.Text.{eq_sound, ◌==◌}
use automem.Tasks.Lifecycle.{
  TaskWrite, summarize, archive_row, archive, has_task_id, close_row, is_open, close, archive_rows,
  TaskCall, close_rows, write_calls, write_call,
}
use automem.Text.{eq_refl, text, Text}
use automem.Tasks.Rows.{overwrite_task, fetch_task}
use automem.Tasks.{TaskRules, Task}
use automem.Common.{
  sym, subst, [], ◌∷◌, inr, inl, arith, Bool-cases, first-update, if◌then◌else◌, ◌∷◌, update, some,
  true, List, ◌∙◌, Bool, ◌≡◌, refl,
}

-- One write of a task, as the row before and after: it keeps the id, the owner and the time of creation,
-- and an archived task stays archived.
pub record IsKept (old new : Task) : Type 0 where
  pub task_id : new.task_id ≡ old.task_id
  pub user_id : new.user_id ≡ old.user_id
  pub created_at : new.created_at ≡ old.created_at
  pub archived : old.status ≡ text "archived" → new.status ≡ text "archived"

IsKept-refl : (row : Task) → IsKept row row
IsKept-refl row = record { task_id = refl; user_id = refl; created_at = refl; archived = λ h. h }

IsKept-trans : {a b c : Task} → IsKept a b → IsKept b c → IsKept a c
IsKept-trans f g = record {
  task_id = g.task_id ∙ f.task_id;
  user_id = g.user_id ∙ f.user_id;
  created_at = g.created_at ∙ f.created_at;
  archived = λ h. g.archived (f.archived h);
}

-- The task of an id stays under the id.
abbrev pub Holds : Text → Task → List Task → Type 0
Holds task_id old table = (new : Task) × (fetch_task task_id table ≡ some new) × IsKept old new

update-Holds :
    (p : Task → Bool) (f : Task → Task) (task_id : Text) (row : Task) (table : List Task)
    → ((x : Task) → p x ≡ true → IsKept x (f x))
    → fetch_task task_id table ≡ some row
    → Holds task_id row (update p f table)
unfolding fetch_task
update-Holds p f task_id row table keep e = elim (Bool-cases (p row)) [
  | inl t ↦ (f row, found (f row) (rw t refl), keep row t)
  | inr t ↦ (row, found row (rw t refl), IsKept-refl row)
]
  where
    found :
        (new : Task)
        → (if p row then f row else row) ≡ new
        → fetch_task task_id (update p f table) ≡ some new
    found new same =
        first-update p (has_task_id task_id) f (λ x t. rw (keep x t).task_id refl) table
        ∙ rw (e, same) refl

overwrite-IsKept :
    (rules : TaskRules) (now : Text) (args : TaskWrite) (row : Task)
    → IsKept row (overwrite_task rules now args row)
unfolding overwrite_task
overwrite-IsKept rules now args row = record {
  task_id = refl;
  user_id = refl;
  created_at = refl;
  archived = λ h. h;
}

module _ (rules : TaskRules) where
  write_call-Holds :
      (call : TaskCall) (task_id : Text) (row : Task) (table : List Task)
      → fetch_task task_id table ≡ some row
      → Holds task_id row (write_call rules call table)
  unfolding write_call close_rows archive_rows
  write_call-Holds (close now id) task_id row table e =
      update-Holds (is_open id) (close_row now) task_id row table
        (λ x t. record {
          task_id = refl;
          user_id = refl;
          created_at = refl;
          archived = λ h. ground (arith, t, h, eq_refl x.status);
        })
        e
  write_call-Holds (archive now id) task_id row table e =
      update-Holds (has_task_id id) (archive_row now) task_id row table
        (λ x t. record { task_id = refl; user_id = refl; created_at = refl; archived = λ h. refl })
        e
  write_call-Holds (summarize now args) task_id row table e =
      elim (Bool-cases (args.task_id == task_id)) [
        | inl t ↦
            let here =
              subst (λ s. fetch_task s table ≡ some row) (sym (eq_sound args.task_id task_id t))
                e in
            (
              overwrite_task rules now args row,
              fetch_task-upsert_task rules now args task_id table ∙ rw (t, here) refl,
              overwrite-IsKept rules now args row,
            )
        | inr t ↦ (
          row,
          fetch_task-upsert_task rules now args task_id table ∙ rw (t, e) refl,
          IsKept-refl row,
        )
      ]

  -- A task that was written stays in the table, under its id, for its owner, whatever summaries are
  -- stored and whichever tasks are closed or archived afterwards; and once archived it stays archived.
  pub write_calls-Holds :
      (calls : List TaskCall) (task_id : Text) (row : Task) (table : List Task)
      → fetch_task task_id table ≡ some row
      → Holds task_id row (write_calls rules calls table)
  unfolding write_calls
  write_calls-Holds [] task_id row table e = (row, e, IsKept-refl row)
  write_calls-Holds (call ∷ calls) task_id row table e =
      let (next, found, kept) = write_call-Holds call task_id row table e in
      let (new, held, later) =
        write_calls-Holds calls task_id next (write_call rules call table) found in
      (new, held, IsKept-trans kept later)
