-- ===== src/Tasks/Normalize/Scope.antt =====
-- What a normalization leaves alone.
use automem.Common.{
  ◌≡◌, ◌≢◌, refl, sym, ap, ◌∙◌, Bool, true, false, not, some, List, [], ◌∷◌, map, arith, Bool-cases,
  inl, inr, All, All-append, All-map_of, All-zip, UniqueBy, select, update, delete, if◌then◌else◌,
}
use automem.Text.{Text, text, ◌==◌, elem, eq_sound}
use automem.Tasks.{Task, TaskRules}
use automem.Tasks.Rows.{has_task_id}
use automem.Tasks.Scan.{
  retitle, archive_again, push_if, NormalizeOptions, Scan, write_task, scan_title, scan_non_work,
  scan_without_memory, scan_row, scan_rows,
}
use automem.Tasks.Normalize.{in_task_scope}

abbrev pub task_ids : List Task → List Text
task_ids = map (λ (row : Task). row.task_id)

-- An id that no row has is none of those selected.
absent :
    (q : Task → Bool) (id : Text) (rows : List Task)
    → All (λ (row : Task). row.task_id ≢ id) rows
    → elem id (task_ids (select q rows)) ≡ false
unfolding select elem
absent q id [] h = refl
absent q id (row ∷ rows) h = ground (arith, h.0, eq_sound id row.task_id, absent q id rows h.1)

-- By its id a row is found among the selected rows only if it is selected.
pub selected :
    (q : Task → Bool) (table : List Task)
    → UniqueBy (λ (row : Task). row.task_id) table
    → All (λ (row : Task). elem row.task_id (task_ids (select q table)) ≡ true → q row ≡ true) table
unfolding select elem
selected q [] u = tt
selected q (y ∷ ys) u = (
  λ h. ground (arith, h, absent q y.task_id ys u.0),
  All-map_of
      (λ (x : Task).
        (x.task_id ≢ y.task_id) × (elem x.task_id (task_ids (select q ys)) ≡ true → q x ≡ true))
      _ (λ (x : Task) p h. p.1 (ground (arith, h, p.0, eq_sound x.task_id y.task_id))) ys
      (All-zip _ _ ys u.0 (selected q ys u.1)),
)

module _ (options : NormalizeOptions) (ids : List Text) where
  abbrev pub outside : Task → Bool
  outside row = not (in_task_scope options row)

  -- No row outside the scope has one of the ids.
  abbrev pub Guarded : List Task → Type 0
  Guarded table = All (λ (row : Task). elem row.task_id ids ≡ true → outside row ≡ false) table

  -- `kept` are the rows outside the scope.
  pub record IsFrozen (kept table : List Task) : Type 0 where
    pub guarded : Guarded table
    pub same : select outside table ≡ kept

  update-Guarded :
      (id : Text) (f : Task → Task) (table : List Task)
      → elem id ids ≡ true
      → ((row : Task) → (f row).task_id ≡ row.task_id)
      → ((row : Task) → outside (f row) ≡ outside row)
      → Guarded table
      → Guarded (update (has_task_id id) f table)
  unfolding update
  update-Guarded id f [] e k o g = tt
  update-Guarded id f (row ∷ rows) e k o g = (
    elim (Bool-cases (row.task_id == id)) [
      | inl t ↦ rw t (λ h. o row ∙ g.0 (ap (λ (s : Text). elem s ids) (sym (k row)) ∙ h))
      | inr t ↦ rw t g.0
    ],
    update-Guarded id f rows e k o g.1,
  )

  select-update :
      (id : Text) (f : Task → Task) (table : List Task)
      → elem id ids ≡ true
      → ((row : Task) → outside (f row) ≡ outside row)
      → Guarded table
      → select outside (update (has_task_id id) f table) ≡ select outside table
  unfolding update select
  select-update id f [] e o g = refl
  select-update id f (row ∷ rows) e o g = elim (Bool-cases (row.task_id == id)) [
    | inl t ↦
        let inside = g.0 (rw (eq_sound row.task_id id t) e) in
        let ih = select-update id f rows e o g.1 in rw (t, o row, inside) ih
    | inr t ↦ let ih = select-update id f rows e o g.1 in rw (t, ih) refl
  ]

  write-IsFrozen :
      (kept : List Task) (dry_run : Bool) (id : Text) (f : Task → Task) (table : List Task)
      → elem id ids ≡ true
      → ((row : Task) → (f row).task_id ≡ row.task_id)
      → ((row : Task) → outside (f row) ≡ outside row)
      → IsFrozen kept table
      → IsFrozen kept (write_task dry_run id f table)
  unfolding write_task
  write-IsFrozen kept true id f table e k o h = h
  write-IsFrozen kept false id f table e k o h = record {
    guarded = update-Guarded id f table e k o h.guarded;
    same = select-update id f table e o h.guarded ∙ h.same;
  }

  elem-All :
      (x : Text) (ts : List Text)
      → All (λ id. elem id ids ≡ true) ts
      → elem x ts ≡ true
      → elem x ids ≡ true
  unfolding elem
  elem-All x [] a t = cc
  elem-All x (s ∷ ss) a t = ground (arith, t, a.0, eq_sound x s, elem-All x ss a.1)

  pub select-delete :
      (dead : List Text) (table : List Task)
      → All (λ id. elem id ids ≡ true) dead
      → Guarded table
      → select outside (delete (λ (row : Task). elem row.task_id dead) table) ≡ select outside table
  unfolding delete select
  select-delete dead [] d g = refl
  select-delete dead (row ∷ rows) d g = elim (Bool-cases (elem row.task_id dead)) [
    | inl t ↦
        let inside = g.0 (elem-All row.task_id dead d t) in
        rw (t, inside) (select-delete dead rows d g.1)
    | inr t ↦ let ih = select-delete dead rows d g.1 in rw (t, ih) refl
  ]

  -- What the loop keeps: the rows outside the scope, and that it collects ids of the scope only.
  pub record IsTame (kept : List Task) (scan : Scan) : Type 0 where
    pub frozen : IsFrozen kept scan.tasks
    pub non_work : All (λ id. elem id ids ≡ true) scan.non_work_to_delete
    pub without_memory : All (λ id. elem id ids ≡ true) scan.without_memory_to_delete

  push_if-All :
      (test : Bool) (t : Text) (ts : List Text)
      → elem t ids ≡ true
      → All (λ id. elem id ids ≡ true) ts
      → All (λ id. elem id ids ≡ true) (push_if test t ts)
  push_if-All true t ts e a = All-append _ ts (t ∷ []) a (e, tt)
  push_if-All false t ts e a = a

  module _ (rules : TaskRules) (with_memory : List Text) (now : Text) (kept : List Task)
      (row : Task) (here : elem row.task_id ids ≡ true) where
    scan_title-IsTame :
        (title : Text) (scan : Scan)
        → IsTame kept scan
        → IsTame kept (scan_title rules options with_memory now row title scan)
    unfolding scan_title
    scan_title-IsTame title scan h = elim (Bool-cases (title == row.title)) [
      | inl e ↦ rw e h
      | inr e ↦ rw e (record {
        frozen =
            write-IsFrozen kept options.dry_run row.task_id (retitle title now) scan.tasks here
              (λ row. refl) (λ row. unfold in_task_scope in refl) h.frozen;
        non_work = h.non_work;
        without_memory = h.without_memory;
      })
    ]

    -- A task is archived, or not.
    archive-IsFrozen :
        (archives : Bool) (table : List Task)
        → IsFrozen kept table
        → IsFrozen kept (
            if archives
            then write_task options.dry_run row.task_id (archive_again now) table
            else table)
    archive-IsFrozen true table h =
        write-IsFrozen kept options.dry_run row.task_id (archive_again now) table here (λ row. refl)
          (λ row. unfold in_task_scope in refl) h
    archive-IsFrozen false table h = h

    scan_non_work-IsTame :
        (scan : Scan)
        → IsTame kept scan
        → IsTame kept (scan_non_work rules options with_memory now row scan)
    unfolding scan_non_work
    scan_non_work-IsTame scan h = record {
      frozen = archive-IsFrozen _ scan.tasks h.frozen;
      non_work = push_if-All _ row.task_id scan.non_work_to_delete here h.non_work;
      without_memory = h.without_memory;
    }

    scan_without_memory-IsTame :
        (scan : Scan)
        → IsTame kept scan
        → IsTame kept (scan_without_memory rules options with_memory now row scan)
    unfolding scan_without_memory
    scan_without_memory-IsTame scan h = record {
      frozen = archive-IsFrozen _ scan.tasks h.frozen;
      non_work = h.non_work;
      without_memory =
          push_if-All _ row.task_id scan.without_memory_to_delete here h.without_memory;
    }

    scan_row-IsTame :
        (scan : Scan)
        → IsTame kept scan
        → IsTame kept (scan_row rules options with_memory now row scan)
    unfolding scan_row
    scan_row-IsTame scan h =
        let title = rules.sanitize_task_title row.title row.last_summary (some row.task_id) in
        let titled = scan_title-IsTame title scan h in
        let kind =
          rules.classify_task_kind row.task_id title row.last_summary row.source_agent
            row.project_id in
        elim (Bool-cases (kind == text "work")) [
          | inr e ↦ rw e (scan_non_work-IsTame _ titled)
          | inl e ↦ elim (Bool-cases (elem row.task_id with_memory)) [
            | inr n ↦ rw (e, n) (scan_without_memory-IsTame _ titled)
            | inl n ↦ rw (e, n) titled
          ]
        ]

  pub scan_rows-IsTame :
      (rules : TaskRules) (with_memory : List Text) (now : Text) (kept rows : List Task)
      (scan : Scan)
      → All (λ (row : Task). elem row.task_id ids ≡ true) rows
      → IsTame kept scan
      → IsTame kept (scan_rows rules options with_memory now rows scan)
  unfolding scan_rows
  scan_rows-IsTame rules with_memory now kept [] scan a h = h
  scan_rows-IsTame rules with_memory now kept (row ∷ rows) scan a h =
      scan_rows-IsTame rules with_memory now kept rows _ a.1
        (scan_row-IsTame rules with_memory now kept row a.0 scan h)
