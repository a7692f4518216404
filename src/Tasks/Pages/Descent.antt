-- ===== src/Tasks/Pages/Descent.antt =====
-- The rows of a listing in their order: each is strictly older than those before it, so that a cursor cuts
-- the listing where its row stands.
use mathlib.Core.Path.{fun_ext}
use automem.Common.Sorting.{IsOrder, IsSorted, sort_by-IsSorted}
use automem.Common.Selecting.{select_every, select-select, select-sort_by, UniqueBy-sort_by}
use automem.Common.{
  subst, ap, ◌≡◌, ◌≢◌, refl, Bool, true, false, ◌&&◌, List, [], ◌∷◌, ◌++◌, arith, Bool-cases, inl,
  inr, All, All-zip, All-map_of, select, sort_by, UniqueBy, UniqueBy-select,
}
use automem.Text.{eq_refl, eq_sound}
use automem.Text.Order.{text_lt_irrefl, text_lt_asym, text_lt_trans, text_lt_total}
use automem.Tasks.{Task}
use automem.Tasks.Pages.{TaskFilter, is_listed, is_older, newest_first}

-- `a` stands behind `b` in a listing.
abbrev pub is_behind : Task → Task → Bool
is_behind a b = is_older b.updated_at b.task_id a

is_behind_asym : (a b : Task) → is_behind a b ≡ true → is_behind b a ≡ false
unfolding is_older
is_behind_asym a b h = ground (
  arith,
  h,
  text_lt_asym a.updated_at b.updated_at,
  text_lt_asym a.task_id b.task_id,
  text_lt_irrefl a.updated_at,
  eq_sound a.updated_at b.updated_at,
  eq_sound b.updated_at a.updated_at,
)

is_behind_irrefl : (a : Task) → is_behind a a ≡ false
unfolding is_older
is_behind_irrefl a = ground (arith, text_lt_irrefl a.updated_at, text_lt_irrefl a.task_id)

is_behind_trans :
    (a b c : Task) → is_behind a b ≡ true → is_behind b c ≡ true → is_behind a c ≡ true
unfolding is_older
is_behind_trans a b c h k = ground (
  arith,
  h,
  k,
  text_lt_trans a.updated_at b.updated_at c.updated_at,
  text_lt_trans a.task_id b.task_id c.task_id,
  eq_sound a.updated_at b.updated_at,
  eq_sound b.updated_at c.updated_at,
  eq_refl a.updated_at,
)

is_behind_total :
    (a b : Task)
    → is_behind a b ≡ false
    → is_behind b a ≡ false
    → (a.updated_at ≡ b.updated_at) × (a.task_id ≡ b.task_id)
unfolding is_older
is_behind_total a b h k = ground (
  arith,
  h,
  k,
  text_lt_total a.updated_at b.updated_at,
  text_lt_total a.task_id b.task_id,
  eq_refl a.updated_at,
  eq_refl b.updated_at,
)

-- Rows with the same key stand in the same place.
is_behind_same :
    (a b c : Task)
    → (a.updated_at ≡ b.updated_at) × (a.task_id ≡ b.task_id)
    → is_behind a c ≡ is_behind b c
unfolding is_older
is_behind_same a b c e = rw (e.0, e.1) refl

not_behind_trans :
    (a b c : Task) → is_behind a b ≡ false → is_behind b c ≡ false → is_behind a c ≡ false
not_behind_trans a b c h k = elim (Bool-cases (is_behind a c)) [
  | inr e ↦ e
  | inl e ↦ elim (Bool-cases (is_behind b a)) [
    | inl back ↦ absurd (ground (arith, k, is_behind_trans b a c back e))
    | inr back ↦ absurd (ground (arith, e, k, is_behind_same a b c (is_behind_total a b h back)))
  ]
]

by_age : IsOrder newest_first
unfolding newest_first
by_age = record {
  total = λ a b h. ground (arith, h, is_behind_asym a b);
  trans = λ a b c h k. ground (arith, h, k, not_behind_trans a b c);
}

-- Each row is behind those before it.
abbrev pub Descends : List Task → Type 0
Descends [] = Unit
Descends (x ∷ xs) = All (λ y. is_behind y x ≡ true) xs × Descends xs

-- In order and with distinct ids, the rows descend.
descends : (l : List Task) → IsSorted by_age l → UniqueBy (λ (t : Task). t.task_id) l → Descends l
unfolding newest_first
descends [] s u = tt
descends (x ∷ xs) s u = (
  All-map_of (λ y. (newest_first x y ≡ true) × (y.task_id ≢ x.task_id)) (λ y. is_behind y x ≡ true)
      (λ y h. apart x y h.0 h.1) xs (All-zip _ _ xs s.0 u.0),
  descends xs s.1 u.1,
)
  where
    apart : (x y : Task) → newest_first x y ≡ true → y.task_id ≢ x.task_id → is_behind y x ≡ true
    apart x y h n = elim (Bool-cases (is_behind y x)) [
      | inl e ↦ e
      | inr e ↦ absurd (n (is_behind_total y x e (ground (arith, h))).1)
    ]

-- The whole listing.
abbrev pub listing : TaskFilter → List Task → List Task
listing filter table = sort_by newest_first (select (is_listed filter) table)

pub listing-Descends :
    (filter : TaskFilter) (table : List Task)
    → UniqueBy (λ (t : Task). t.task_id) table
    → Descends (listing filter table)
listing-Descends filter table u =
    descends (listing filter table) (sort_by-IsSorted by_age (select (is_listed filter) table)) (
      UniqueBy-sort_by _ newest_first (select (is_listed filter) table)
        (UniqueBy-select _ (is_listed filter) table u))

-- What is behind a row of the listing is what follows it.
select-behind :
    (front : List Task) (x : Task) (back : List Task)
    → Descends (front ++ x ∷ back)
    → select (is_older x.updated_at x.task_id) (front ++ x ∷ back) ≡ back
unfolding select
select-behind [] x back d =
    ground (arith, is_behind_irrefl x, select_every (is_older x.updated_at x.task_id) back d.0)
select-behind (y ∷ ys) x back d =
    ground (arith, is_behind_asym x y (held ys d.0), select-behind ys x back d.1)
  where
    held :
        (ys : List Task) → All (λ z. is_behind z y ≡ true) (ys ++ x ∷ back) → is_behind x y ≡ true
    held [] h = h.0
    held (z ∷ zs) h = held zs h.1

-- The query with a cursor's condition is the rest of the listing behind the cursor's row.
pub query_behind :
    (filter : TaskFilter) (table front : List Task) (x : Task) (back : List Task)
    → UniqueBy (λ (t : Task). t.task_id) table
    → listing filter table ≡ front ++ x ∷ back
    → sort_by newest_first
        (select (λ row. is_listed filter row && is_older x.updated_at x.task_id row) table)
      ≡ back
query_behind filter table front x back u e =
    rw (← select-select (is_listed filter) (is_older x.updated_at x.task_id) table) (
      rw
        (← select-sort_by by_age (is_older x.updated_at x.task_id)
          (select (is_listed filter) table))
        (rw e (select-behind front x back (subst Descends e (listing-Descends filter table u)))))

-- Without a cursor it is the whole listing.
pub query_all :
    (filter : TaskFilter) (table : List Task)
    → sort_by newest_first (select (λ row. is_listed filter row && true) table)
      ≡ listing filter table
query_all filter table =
    ap (λ (q : Task → Bool). sort_by newest_first (select q table)) (fun_ext λ row. ground arith)
