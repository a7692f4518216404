-- ===== src/Tasks/Pages/Reader.antt =====
-- A reader who follows the cursors from page to page.
use automem.Common.Selecting.{length-select_le, length-sort_by}
use automem.Common.{
  ℕ, zero, suc, ◌+◌, ◌≤◌, ◌<◌, ◌≡◌, refl, ap, sym, ◌∙◌, Bool, true, false, Option, none, some, List,
  [], ◌∷◌, ◌++◌, map, arith, ltb, Bool-cases, inl, inr, length, take, All, select, UniqueBy,
  if◌then◌else◌,
}
use mathlib.Core.Option
use mathlib.Core.List.{append_assoc, map-append}
use automem.Common.Sorting.{All-sort_by}
use automem.Common.{subst, All-select}
use automem.Text.{Text, truthy, is_empty}
use automem.Http.{Result, ok, err}
use automem.Audit.{page_limit}
use automem.Tasks.{Task, TaskRules}
use automem.Tasks.Pages.{
  TaskView, TaskFilter, Codec, hydrate_task_row, encode_task_cursor, decode_task_cursor, page_of,
  query_rows, last_of, cursor_after, fetch_tasks_page, newest_first, is_listed,
}
use automem.Tasks.Pages.Cuts.{
  drop, take-drop, take-take_suc, length-take_suc, take_all, length-drop_lt,
}
use automem.Tasks.Pages.Descent.{listing, query_behind, query_all}

-- base64 and JSON give back the two texts of a cursor, and a cursor is not empty.
pub record IsFaithful (codec : Codec) : Type 0 where
  pub round_trip :
      (updated_at task_id : Text)
      → codec.decode (codec.encode updated_at task_id) ≡ some (some updated_at, some task_id)
  pub nonempty :
      (updated_at task_id : Text) → truthy (some (codec.encode updated_at task_id)) ≡ true

-- A nonempty list has a last row.
last_of-cons :
    (row : Task) (rows : List Task)
    → (front : List Task) × (last : Task) × (last_of (row ∷ rows) ≡ some last)
      × (row ∷ rows ≡ front ++ last ∷ [])
unfolding last_of
last_of-cons row [] = ([], row, refl, refl)
last_of-cons row (next ∷ rows) =
    let (front, last, e, f) = last_of-cons next rows in (row ∷ front, last, e, ap (λ l. row ∷ l) f)

-- A page that more rows follow has a last row.
last_of_long :
    (n : ℕ) (rows : List Task)
    → 1 ≤ n
    → ltb n (length rows) ≡ true
    → (front : List Task) × (last : Task) × (last_of (take n rows) ≡ some last)
      × (take n rows ≡ front ++ last ∷ [])
last_of_long zero rows h k = absurd (omega arith)
last_of_long (suc n) [] h k = absurd (ground (arith, k))
last_of_long (suc n) (row ∷ rows) h k = last_of-cons row (take n rows)

-- A cursor that was encoded is decoded.
decode-encode :
    (codec : Codec) (updated_at task_id : Text)
    → IsFaithful codec
    → is_empty task_id ≡ false
    → decode_task_cursor codec (encode_task_cursor codec updated_at task_id)
      ≡ ok (updated_at, task_id)
unfolding decode_task_cursor encode_task_cursor
decode-encode codec updated_at task_id faithful h =
    rw (faithful.round_trip updated_at task_id, decode_task_cursor) (rw h refl)

cursor_after-last :
    (codec : Codec) (rows : List Task) (last : Task)
    → last_of rows ≡ some last
    → cursor_after codec rows ≡ some (encode_task_cursor codec last.updated_at last.task_id)
unfolding cursor_after
cursor_after-last codec rows last e = rw (e, cursor_after) refl

module _ (codec : Codec) (rules : TaskRules) (filter : TaskFilter) (limit : ℕ)
    (table : List Task) where
  abbrev page : Option Text → Result (List TaskView × Option Text × Bool)
  page cursor = fetch_tasks_page codec rules filter limit cursor table

  -- All that a reader gets who starts at `cursor` and asks for `n` pages at most; nothing if a page fails
  -- or the pages do not end.
  pub read_all : ℕ → Option Text → Option (List TaskView)
  read_all zero cursor = none
  read_all (suc n) cursor = elim (page cursor) [
    | err e ↦ none
    | ok (tasks, none, more) ↦ some tasks
    | ok (tasks, some next, more) ↦ Option.map (λ rest. tasks ++ rest) (read_all n (some next))
  ]

  read_all_end :
      (n : ℕ) (cursor : Option Text) (tasks : List TaskView) (more : Bool)
      → page cursor ≡ ok (tasks, none, more)
      → read_all (suc n) cursor ≡ some tasks
  unfolding read_all
  read_all_end n cursor tasks more e = rw (e, read_all) refl

  read_all_onward :
      (n : ℕ) (cursor : Option Text) (tasks : List TaskView) (next : Text) (more : Bool)
      (rest : List TaskView)
      → page cursor ≡ ok (tasks, some next, more)
      → read_all n (some next) ≡ some rest
      → read_all (suc n) cursor ≡ some (tasks ++ rest)
  unfolding read_all
  read_all_onward n cursor tasks next more rest e f = rw (e, f, read_all) refl

  abbrev size : ℕ
  size = page_limit limit

  abbrev pub shown : List Task → List TaskView
  shown = map (hydrate_task_row rules)

  -- The page over the rows that are left.
  page_of_rest :
      (rest : List Task)
      → page_of codec rules size (take (size + 1) rest) ≡ (
        shown (take size rest),
        if ltb size (length rest) then cursor_after codec (take size rest) else none,
        ltb size (length rest),
      )
  unfolding page_of
  page_of_rest rest = rw (take-take_suc size rest, length-take_suc size rest) refl

  module _ (faithful : IsFaithful codec) (unique : UniqueBy (λ (t : Task). t.task_id) table)
      (named : All (λ (t : Task). is_empty t.task_id ≡ false) table) where
    name_of :
        (front : List Task) (x : Task) (back : List Task)
        → listing filter table ≡ front ++ x ∷ back
        → is_empty x.task_id ≡ false
    name_of front x back e = All-middle front x back (
        subst (All (λ (t : Task). is_empty t.task_id ≡ false)) e (
          All-sort_by _ newest_first (select (is_listed filter) table)
            (All-select _ (is_listed filter) table named)))
      where
        All-middle :
            (front : List Task) (x : Task) (back : List Task)
            → All (λ (t : Task). is_empty t.task_id ≡ false) (front ++ x ∷ back)
            → is_empty x.task_id ≡ false
        All-middle [] x back h = h.0
        All-middle (y ∷ ys) x back h = All-middle ys x back h.1

    cursor_truthy :
        (x : Task) → truthy (some (encode_task_cursor codec x.updated_at x.task_id)) ≡ true
    unfolding encode_task_cursor
    cursor_truthy x = faithful.nonempty x.updated_at x.task_id

    -- The page behind a row of the listing.
    page_behind :
        (front : List Task) (x : Task) (back : List Task)
        → listing filter table ≡ front ++ x ∷ back
        → page (some (encode_task_cursor codec x.updated_at x.task_id))
          ≡ ok (page_of codec rules size (take (size + 1) back))
    unfolding fetch_tasks_page query_rows
    page_behind front x back e =
        rw
          (
            cursor_truthy x,
            decode-encode codec x.updated_at x.task_id faithful (name_of front x back e),
          )
          (ap (λ l. ok (page_of codec rules size (take (size + 1) l)))
            (query_behind filter table front x back unique e))

    read_from :
        (n : ℕ) (cursor : Option Text) (front rest : List Task)
        → listing filter table ≡ front ++ rest
        → page cursor ≡ ok (page_of codec rules size (take (size + 1) rest))
        → length rest < n
        → read_all n cursor ≡ some (shown rest)
    read_from zero cursor front rest e p lt = absurd (omega arith)
    read_from (suc n) cursor front rest e p lt = elim (Bool-cases (ltb size (length rest))) [
      | inr short ↦
          let done : page cursor ≡ ok (shown rest, none, false) =
            p ∙ ap ok (page_of_rest rest) ∙ rw (short, take_all size rest short) refl in
          read_all_end n cursor (shown rest) false done
      | inl long ↦
          let (before, x, last, cut) = last_of_long size rest (omega arith) long in
          let split : rest ≡ before ++ x ∷ drop size rest =
            sym (take-drop size rest)
            ∙ ap (λ l. l ++ drop size rest) cut
            ∙ append_assoc before (x ∷ []) (drop size rest) in
          let there : listing filter table ≡ (front ++ before) ++ x ∷ drop size rest =
            e ∙ ap (λ l. front ++ l) split ∙ sym (append_assoc front before (x ∷ drop size rest)) in
          let onward : listing filter table ≡ (front ++ take size rest) ++ drop size rest =
            e
            ∙ ap (λ l. front ++ l) (sym (take-drop size rest))
            ∙ sym (append_assoc front (take size rest) (drop size rest)) in
          let ih =
            read_from n (some (encode_task_cursor codec x.updated_at x.task_id))
              (front ++ take size rest) (drop size rest) onward
              (page_behind (front ++ before) x (drop size rest) there)
              (omega (arith, length-drop_lt size rest (omega arith) long)) in
          let onto : page cursor
              ≡ ok (
                shown (take size rest),
                some (encode_task_cursor codec x.updated_at x.task_id),
                true,
              ) =
            p
            ∙ ap ok (page_of_rest rest)
            ∙ rw (long, cursor_after-last codec (take size rest) x last) refl in
          read_all_onward n cursor (shown (take size rest)) _ true (shown (drop size rest)) onto ih
          ∙ ap some (
              sym (map-append (hydrate_task_row rules) (take size rest) (drop size rest))
              ∙ ap shown (take-drop size rest))
    ]

    -- Whoever follows the cursors from the first page gets each task of the listing once, in the order of the
    -- listing, and gets to its end.
    pub read_all_lem :
        (n : ℕ) → length table < n → read_all n none ≡ some (shown (listing filter table))
    unfolding fetch_tasks_page query_rows
    read_all_lem n lt =
        read_from n none [] (listing filter table) refl
          (ap (λ l. ok (page_of codec rules size (take (size + 1) l))) (query_all filter table))
          (omega (
            arith,
            length-sort_by newest_first (select (is_listed filter) table),
            length-select_le (is_listed filter) table,
          ))
