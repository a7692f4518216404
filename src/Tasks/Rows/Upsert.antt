-- ===== src/Tasks/Rows/Upsert.antt =====
-- `upsert_task` as a write to a map from ids to tasks.
use automem.Text.{eq_refl, eq_sound}
use automem.Tasks.Rows.{
  upsert_found, ◌==◌, fetch_task, has_task_id, overwrite_task, upsert_task, inserted_task,
  TaskWrite,
}
use automem.Tasks.{Task, Text, TaskRules}
use mathlib.Core.Option
use automem.Common.{
  [], ◌∷◌, first-test, first-append, subst, inr, inl, Bool-cases, ◌∙◌, first-update, first, arith,
  true, false, if◌then◌else◌, refl, List, Option, ◌≡◌, none, some,
}

module _ (rules : TaskRules) (now : Text) (args : TaskWrite) where
  -- The row of the id afterwards, from the row before.
  abbrev pub written : Option Task → Task
  written none = inserted_task rules now args
  written (some existing) = overwrite_task rules now args existing

  overwrite-has_task_id :
      (id : Text) (row : Task)
      → has_task_id id (overwrite_task rules now args row) ≡ has_task_id id row
  unfolding overwrite_task
  overwrite-has_task_id id row = refl

  inserted-has_task_id :
      (id : Text) → has_task_id id (inserted_task rules now args) ≡ (args.task_id == id)
  unfolding inserted_task
  inserted-has_task_id id = refl

  -- A row of one id has no other.
  other_id :
      (id : Text) (row : Task)
      → (args.task_id == id) ≡ false
      → has_task_id id row ≡ true
      → has_task_id args.task_id row ≡ false
  other_id id row n t =
      ground (arith, n, t, eq_sound row.task_id id, eq_sound row.task_id args.task_id, eq_refl id)

  -- The lookup of an id behind the UPDATE.
  -- The rows that the write may leave.
  abbrev after : Text → Option Task → List Task → Option Task
  after id found table = if args.task_id == id then some (written found) else fetch_task id table

  -- The lookup of an id of which an update has seen the row, or not.
  found_updated :
      (id : Text) (existing : Task) (table : List Task) (found : Option Task)
      → fetch_task args.task_id table ≡ some existing
      → fetch_task id table ≡ found
      → Option.map
          (λ x. if has_task_id args.task_id x then overwrite_task rules now args x else x)
          found
        ≡ after id (some existing) table
  unfolding fetch_task
  found_updated id existing table none e f = elim (Bool-cases (args.task_id == id)) [
    | inl t ↦
        let same = eq_sound args.task_id id t in
        absurd (ground (arith, subst (λ s. fetch_task s table ≡ some existing) same e, f))
    | inr t ↦ rw (t, f) refl
  ]
  found_updated id existing table (some row) e f = elim (Bool-cases (args.task_id == id)) [
    | inl t ↦
        let same = eq_sound args.task_id id t in
        let here = first-test (has_task_id args.task_id) table e in
        let one : row ≡ existing = cc (subst (λ s. fetch_task s table ≡ some existing) same e, f) in
        rw (one, t, here) refl
    | inr t ↦ rw (t, f, other_id id row t (first-test (has_task_id id) table f)) refl
  ]

  found_inserted :
      (id : Text) (table : List Task) (found : Option Task)
      → fetch_task args.task_id table ≡ none
      → fetch_task id table ≡ found
      → elim found [
        | none ↦ first (has_task_id id) (inserted_task rules now args ∷ [])
        | some x ↦ some x
      ]
        ≡ after id none table
  unfolding first
  found_inserted id table none e f = elim (Bool-cases (args.task_id == id)) [
    | inl t ↦ rw (t, inserted-has_task_id id, t) refl
    | inr t ↦ rw (t, inserted-has_task_id id, t, f) refl
  ]
  found_inserted id table (some row) e f = elim (Bool-cases (args.task_id == id)) [
    | inl t ↦
        let same = eq_sound args.task_id id t in
        absurd (cc (subst (λ s. fetch_task s table ≡ none) same e, f))
    | inr t ↦ rw (t, f) refl
  ]

  found_after :
      (id : Text) (table : List Task) (found : Option Task)
      → fetch_task args.task_id table ≡ found
      → fetch_task id (upsert_found rules now args found table).1 ≡ after id found table
  unfolding upsert_found fetch_task
  found_after id table none e =
      first-append (has_task_id id) table (inserted_task rules now args ∷ [])
      ∙ found_inserted id table (first (has_task_id id) table) e refl
  found_after id table (some existing) e =
      first-update (has_task_id args.task_id) (has_task_id id) (overwrite_task rules now args)
        (λ x t. overwrite-has_task_id id x) table
      ∙ found_updated id existing table (first (has_task_id id) table) e refl

  -- After an upsert the table holds under the id the new row, or the old one with the columns of the SET
  -- clause replaced, and under every other id what it held.
  pub fetch_task-upsert_task :
      (id : Text) (table : List Task)
      → fetch_task id (upsert_task rules now args table).1 ≡ (
          if args.task_id == id
          then some (written (fetch_task args.task_id table))
          else fetch_task id table)
  unfolding upsert_task
  fetch_task-upsert_task id table = found_after id table (fetch_task args.task_id table) refl
