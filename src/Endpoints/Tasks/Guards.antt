-- ===== src/Endpoints/Tasks/Guards.antt =====
-- Which tasks a request shows and which it changes.
use automem.Auth.Identity.{enforce_user_identity-ok}
use automem.Endpoints.Owners.{own_project, project_nonempty}
use automem.Tasks.Pages.{
  Codec, TaskFilter, TaskView, fetch_tasks_page, is_listed, query_rows, page_of, hydrate_task_row,
  newest_first, decode_task_cursor,
}
use automem.Endpoints.Tasks.{
  text, is_none, answer_page, Result, Task, Text, TaskRules, list_filtered, check_listing,
  list_tasks, TaskPage,
}
use automem.Common.Sorting.{All-sort_by}
use automem.Cache.Rows.{matches_if_given}
use automem.Tasks.Pages.{
  newest_first, is_listed, hydrate_task_row, page_of, query_rows, TaskFilter, Codec,
}
use automem.Auth.{
  enforce_project_identity, enforce_user_identity, require_scope, normalize_project_ids, Auth,
}
use automem.Common.{
  Bool-cases, All-select_test, subst, ap, not, some, none, ◌&&◌, All-map_of, All-take, map, All,
  Bool, List, Option, some, ℕ, ◌≡◌, [], ◌∷◌, true, false, ◌⊎◌, inl, inr, ◌∙◌, arith,
}
use automem.Text.{eq_sound, truthy, or_empty, elem}
use automem.Http.{◌>>◌, raise_if, user_required, ok, err, Result-cases}

-- The columns `user_id` and `project_id` satisfy a filter.
abbrev Fits : TaskFilter → Task → Type 0
Fits filter task =
    (matches_if_given filter.user_id (some task.user_id) ≡ true)
    × (matches_if_given filter.project_id task.project_id ≡ true)

abbrev ShowsFits : TaskFilter → Result (List TaskView × Option Text × Bool) → Type 0
ShowsFits filter (ok page) = All (λ (view : TaskView). Fits filter view.task) page.0
ShowsFits filter (err e) = Unit

module _ (codec : Codec) (rules : TaskRules) (filter : TaskFilter) where
  rows-Fits :
      (size : ℕ) (condition : Task → Bool) (table : List Task)
      → All (Fits filter) (query_rows filter size condition table)
  unfolding query_rows is_listed
  rows-Fits size condition table = All-take (Fits filter) _ _ (
      All-sort_by (Fits filter) newest_first _ (
        All-map_of (λ row. (is_listed filter row && condition row) ≡ true) (Fits filter)
          (λ row h. ground (arith, h)) _
          (All-select_test (λ row. is_listed filter row && condition row) table)))

  views-Fits :
      (rows : List Task)
      → All (Fits filter) rows
      → All (λ (view : TaskView). Fits filter view.task) (map (hydrate_task_row rules) rows)
  unfolding hydrate_task_row
  views-Fits [] h = tt
  views-Fits (row ∷ rows) h = (h.0, views-Fits rows h.1)

  page-Fits :
      (size : ℕ) (rows : List Task)
      → All (Fits filter) rows
      → All (λ (view : TaskView). Fits filter view.task) (page_of codec rules size rows).0
  unfolding page_of
  page-Fits size rows h = views-Fits _ (All-take (Fits filter) size rows h)

  fetch_tasks_page-Fits :
      (limit : ℕ) (cursor : Option Text) (table : List Task)
      → ShowsFits filter (fetch_tasks_page codec rules filter limit cursor table)
  unfolding fetch_tasks_page
  fetch_tasks_page-Fits limit cursor table = elim (Bool-cases (truthy cursor)) [
    | inr e ↦ rw e (page-Fits _ _ (rows-Fits _ _ table))
    | inl e ↦ elim (Result-cases (decode_task_cursor codec (or_empty cursor))) [
      | inr (fault, f) ↦ rw (e, f) tt
      | inl (at, f) ↦ rw (e, f) (page-Fits _ _ (rows-Fits _ _ table))
    ]
  ]

-- A task of the key's user and of one of its projects, if it is bound to any.
abbrev pub IsReachable : Auth → Task → Type 0
IsReachable auth task =
    (some task.user_id ≡ auth.user_id)
    × ((normalize_project_ids auth.project_ids ≡ [])
        ⊎ (elem (or_empty task.project_id) (normalize_project_ids auth.project_ids) ≡ true))

held_user :
    (asked : Option Text) (held : Text)
    → truthy asked ≡ true
    → matches_if_given asked (some held) ≡ true
    → some held ≡ asked
held_user none held t h = cc
held_user (some user_id) held t h = ap some (eq_sound held user_id h)

held_project :
    (raws : List Text) (asked column : Option Text)
    → elem (or_empty asked) (normalize_project_ids raws) ≡ true
    → matches_if_given asked column ≡ true
    → elem (or_empty column) (normalize_project_ids raws) ≡ true
held_project raws none column e h = absurd (cc (project_nonempty raws [] e))
held_project raws (some project_id) none e h = cc
held_project raws (some project_id) (some held) e h = rw (eq_sound held project_id h) e

-- A filter that the checks let through.
abbrev Narrows : Auth → Result TaskFilter → Type 0
Narrows auth (ok filter) = (task : Task) → Fits filter task → IsReachable auth task
Narrows auth (err e) = Unit

check_listing-Narrows :
    (auth : Auth) (asked : TaskFilter)
    → auth.is_admin ≡ false
    → Narrows auth (check_listing auth asked)
unfolding check_listing
check_listing-Narrows auth asked h = elim (Result-cases (require_scope auth (text "task"))) [
  | inr (fault, refused) ↦ rw refused tt
  | inl (_, scope) ↦ elim (Result-cases (enforce_user_identity auth asked.user_id)) [
    | inr (fault, refused) ↦ rw (scope, refused) tt
    | inl (user_id, user) ↦
        let own = enforce_user_identity-ok auth asked.user_id user_id h user in
        elim (Result-cases (enforce_project_identity auth asked.project_id)) [
          | inr (fault, refused) ↦ rw (scope, user, refused) tt
          | inl (project_id, project) ↦
              rw (scope, user, project)
                (go user_id own.1 own.0 project_id
                  (own_project auth asked.project_id project_id h project))
        ]
  ]
]
  where
    go :
        (user_id : Option Text)
        → truthy user_id ≡ true
        → user_id ≡ auth.user_id
        → (project_id : Option Text)
        → (normalize_project_ids auth.project_ids ≡ [])
          ⊎ (elem (or_empty project_id) (normalize_project_ids auth.project_ids) ≡ true)
        → Narrows auth (
            raise_if (is_none user_id && not auth.is_admin) user_required
            >> ok (record asked { user_id = user_id; project_id = project_id }))
    go none t same project_id own = cc
    go (some u) t same project_id (inl free) =
        λ task fits. (held_user (some u) task.user_id t fits.0 ∙ same, inl free)
    go (some u) t same project_id (inr bound) = λ task fits. (
      held_user (some u) task.user_id t fits.0 ∙ same,
      inr (held_project auth.project_ids project_id task.project_id bound fits.1),
    )

abbrev ShowsReachable : Auth → Result TaskPage → Type 0
ShowsReachable auth (ok page) = All (λ (view : TaskView). IsReachable auth view.task) page.tasks
ShowsReachable auth (err e) = Unit

shown_page :
    (auth : Auth) (filter : TaskFilter) (limit : ℕ)
    (r : Result (List TaskView × Option Text × Bool))
    → ((task : Task) → Fits filter task → IsReachable auth task)
    → ShowsFits filter r
    → ShowsReachable auth (answer_page limit r)
shown_page auth filter limit (err e) reach h = tt
shown_page auth filter limit (ok page) reach h =
    All-map_of (λ (view : TaskView). Fits filter view.task) _ (λ view fits. reach view.task fits)
      page.0 h

listed_page :
    (codec : Codec) (rules : TaskRules) (auth : Auth) (limit : ℕ) (cursor : Option Text)
    (table : List Task) (r : Result TaskFilter)
    → Narrows auth r
    → ShowsReachable auth (list_filtered codec rules limit cursor table r)
unfolding list_filtered
listed_page codec rules auth limit cursor table (err e) h = tt
listed_page codec rules auth limit cursor table (ok filter) h =
    shown_page auth filter limit (fetch_tasks_page codec rules filter limit cursor table) h
      (fetch_tasks_page-Fits codec rules filter limit cursor table)

-- Whatever filter and cursor a request gives with a key that is not an administrator's, each task that is
-- listed is of the key's user and, if the key is bound to projects, of one of them.
pub list_tasks-IsReachable :
    (codec : Codec) (rules : TaskRules) (auth : Auth) (asked : TaskFilter) (limit : ℕ)
    (cursor : Option Text) (table : List Task) (page : TaskPage)
    → auth.is_admin ≡ false
    → list_tasks codec rules auth asked limit cursor table ≡ ok page
    → All (λ (view : TaskView). IsReachable auth view.task) page.tasks
unfolding list_tasks
list_tasks-IsReachable codec rules auth asked limit cursor table page h e =
    subst (ShowsReachable auth) e (
      listed_page codec rules auth limit cursor table (check_listing auth asked)
        (check_listing-Narrows auth asked h))
