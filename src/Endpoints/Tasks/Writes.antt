-- ===== src/Endpoints/Tasks/Writes.antt =====
-- Which tasks closing and archiving change.
use automem.Common.{none, ap, sym, ◌≢◌, All-map_of}
use automem.Endpoints.Memories.{Stamp}
use automem.Tasks.{Task}
use automem.Common.{
  Bool-cases, UniqueBy, All, ℕ, Bool, some, Option, List, update, first, select, ◌≡◌, refl, [], ◌∷◌,
  true, false, inl, inr, ◌∙◌, arith,
}
use automem.Text.{text, eq_sound, Text}
use automem.Tasks.Rows.{fetch_task, has_task_id}
use automem.Http.{Result, ok, err, Result-cases}
use automem.Endpoints.Tasks.{
  reach_found, close_reached, archive_reached, TaskServer, reach_task, close_task, archive_task,
  finish_write, TaskDetail,
}
use automem.Tasks.Lifecycle.{close_rows, archive_rows, is_open, close_row, archive_row}
use automem.Auth.{require_scope, Auth, ensure_task_row_access}

abbrev pub is_err : Result (Unit {0}) → Bool
is_err (err e) = true
is_err (ok _) = false

-- A task to which the key has no access.
abbrev pub is_beyond : Auth → Task → Bool
is_beyond auth row = is_err (ensure_task_row_access auth tt row.user_id row.project_id)

-- By its id a row is found only once.
only_row :
    (task_id : Text) (table : List Task) (row : Task)
    → UniqueBy (λ (row : Task). row.task_id) table
    → fetch_task task_id table ≡ some row
    → All (λ x. has_task_id task_id x ≡ true → x ≡ row) table
unfolding fetch_task first
only_row task_id [] row u e = tt
only_row task_id (y ∷ ys) row u e = elim (Bool-cases (has_task_id task_id y)) [
  | inl t ↦
      let found : some y ≡ some row = rw t at e in
      let here : y ≡ row = cc found in
      (
        (λ _. here),
        All-map_of (λ (x : Task). x.task_id ≢ y.task_id) _
            (λ x apart h.
              absurd (apart (eq_sound x.task_id task_id h ∙ sym (eq_sound y.task_id task_id t))))
            ys u.0,
      )
  | inr t ↦ ((λ h. absurd (ground (arith, t, h))), only_row task_id ys row u.1 (rw t at e))
]

select-update_none :
    (q p : Task → Bool) (f : Task → Task) (table : List Task)
    → All (λ x. p x ≡ true → (q x ≡ false) × (q (f x) ≡ false)) table
    → select q (update p f table) ≡ select q table
unfolding select update
select-update_none q p f [] h = refl
select-update_none q p f (x ∷ xs) h = elim (Bool-cases (p x)) [
  | inl t ↦ let ih = select-update_none q p f xs h.1 in rw (t, (h.0 t).0, (h.0 t).1, ih) refl
  | inr t ↦ let ih = select-update_none q p f xs h.1 in rw (t, ih) refl
]

reach_found-ok :
    (auth : Auth) (found : Option Task) (row : Task)
    → reach_found auth found ≡ ok row
    → (found ≡ some row) × (is_beyond auth row ≡ false)
unfolding reach_found ensure_task_row_access
reach_found-ok auth none row e = absurd (cc)
reach_found-ok auth (some held) row e = (ground (arith, e), ground (arith, e))

reach_task-ok :
    (auth : Auth) (task_id : Text) (table : List Task) (row : Task)
    → reach_task auth task_id table ≡ ok row
    → (fetch_task task_id table ≡ some row) × (is_beyond auth row ≡ false)
unfolding reach_task
reach_task-ok auth task_id table row e = elim (Result-cases (require_scope auth (text "task"))) [
  | inr (fault, refused) ↦ absurd (ground (arith, e, refused))
  | inl (_, scope) ↦ reach_found-ok auth (fetch_task task_id table) row (ground (arith, e, scope))
]

module _ {S : Type 0} (now : Text) (stamp : Stamp) (auth : Auth) (task_id : Text) where
  finish_write-tasks :
      (event_type status : Text) (detail : TaskDetail) (changed : ℕ × List Task) (w : TaskServer S)
      → (finish_write now stamp auth event_type task_id status detail changed w).1.world.tasks
        ≡ changed.1
  unfolding finish_write
  finish_write-tasks event_type status detail (rowcount, table) w = ground arith

  -- The statement of an endpoint, behind the check.
  finish_write-beyond :
      (event_type status : Text) (detail : TaskDetail) (p : Task → Bool) (f : Task → Task)
      (rowcount : ℕ) (row : Task) (w : TaskServer S)
      → ((x : Task) → p x ≡ true → has_task_id task_id x ≡ true)
      → ((x : Task) → is_beyond auth (f x) ≡ is_beyond auth x)
      → UniqueBy (λ (row : Task). row.task_id) w.world.tasks
      → reach_task auth task_id w.world.tasks ≡ ok row
      → select
          (is_beyond auth)
          (finish_write now stamp auth event_type task_id status detail
            (rowcount, update p f w.world.tasks)
            w).1.world.tasks
        ≡ select (is_beyond auth) w.world.tasks
  finish_write-beyond event_type status detail p f rowcount row w named same u reached =
      let (found, near) = reach_task-ok auth task_id w.world.tasks row reached in
      ap (select (is_beyond auth))
        (finish_write-tasks event_type status detail (rowcount, update p f w.world.tasks) w)
      ∙ select-update_none (is_beyond auth) p f w.world.tasks (
          All-map_of (λ (x : Task). has_task_id task_id x ≡ true → x ≡ row) _
            (λ x only t.
              let far : is_beyond auth x ≡ false = ap (is_beyond auth) (only (named x t)) ∙ near in
              (far, same x ∙ far))
            w.world.tasks (only_row task_id w.world.tasks row u found))

  close_reached-beyond :
      (reason : Option Text) (r : Result Task) (w : TaskServer S)
      → UniqueBy (λ (row : Task). row.task_id) w.world.tasks
      → reach_task auth task_id w.world.tasks ≡ r
      → select (is_beyond auth) (close_reached now stamp auth task_id reason r w).1.world.tasks
        ≡ select (is_beyond auth) w.world.tasks
  unfolding close_reached close_rows
  close_reached-beyond reason (err e) w u reached = refl
  close_reached-beyond reason (ok row) w u reached =
      finish_write-beyond _ _ _ (is_open task_id) (close_row now) _ row w (λ x t. ground (arith, t))
        (λ x. refl) u reached

  archive_reached-beyond :
      (reason : Option Text) (r : Result Task) (w : TaskServer S)
      → UniqueBy (λ (row : Task). row.task_id) w.world.tasks
      → reach_task auth task_id w.world.tasks ≡ r
      → select (is_beyond auth) (archive_reached now stamp auth task_id reason r w).1.world.tasks
        ≡ select (is_beyond auth) w.world.tasks
  unfolding archive_reached archive_rows
  archive_reached-beyond reason (err e) w u reached = refl
  archive_reached-beyond reason (ok row) w u reached =
      finish_write-beyond _ _ _ (has_task_id task_id) (archive_row now) _ row w (λ x t. t)
        (λ x. refl) u reached

  -- Closing or archiving a task, whether it succeeds or not, changes no task to which the key has no
  -- access, if ids are unique.
  pub writes-beyond :
      (reason : Option Text) (w : TaskServer S)
      → UniqueBy (λ (row : Task). row.task_id) w.world.tasks
      → (select (is_beyond auth) (close_task now stamp auth task_id reason w).1.world.tasks
          ≡ select (is_beyond auth) w.world.tasks)
        × (select (is_beyond auth) (archive_task now stamp auth task_id reason w).1.world.tasks
            ≡ select (is_beyond auth) w.world.tasks)
  unfolding close_task archive_task
  writes-beyond reason w u = (
    close_reached-beyond reason (reach_task auth task_id w.world.tasks) w u refl,
    archive_reached-beyond reason (reach_task auth task_id w.world.tasks) w u refl,
  )
