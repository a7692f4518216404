-- ===== src/Consolidation/Duplicates.antt =====
-- Of the long-term facts with one duplicate key, all but the first are duplicates.
use mathlib.Core.List.{head?}
use automem.Common.{
  ◌≡◌, ◌≢◌, refl, sym, ap, ◌∙◌, subst, Bool, true, not, ◌||◌, Bool-cases, inl, inr, List, [], ◌∷◌,
  ◌++◌, some, All, All-map_of, All-zip, Any, select, sort_by, map, UniqueBy, UniqueBy-select, arith,
}
use automem.Common.Members.{
  In, All-lookup, Any-of, All-select_if, In-select, In-of-select, In-sort_by, In-of-sort_by, In_lem,
}
use automem.Common.Sorting.{IsOrder, head-sort_by}
use automem.Common.Selecting.{UniqueBy-sort_by}
use automem.Text.{Text, ◌==◌, elem, eq_refl, eq_sound}
use automem.Text.Groups.{Key, Groups, group_by}
use automem.Text.Groups.Laws.{
  filed, IsFiled, group_by-IsFiled, key_le-IsOrder, key_eq_refl, key_eq_sound,
}
use automem.Consolidation.Review.{
  Candidate, id_of, build_long_term_duplicate_key, survivor_key, precedes, ids_after_first,
  duplicate_memory_ids,
}

precedes-IsOrder : IsOrder precedes
unfolding precedes
precedes-IsOrder = record {
  total = λ a b e. key_le-IsOrder.total (survivor_key a) (survivor_key b) e;
  trans = λ a b c h k. key_le-IsOrder.trans (survivor_key a) (survivor_key b) (survivor_key c) h k;
}

elem-map_id : (xs : List Candidate) (x : Candidate) → In x xs → elem (id_of x) (map id_of xs) ≡ true
unfolding elem
elem-map_id [] x m = elim m [ ]
elem-map_id (y ∷ ys) x (inl e) = ground (arith, ap id_of e, eq_refl (id_of x))
elem-map_id (y ∷ ys) x (inr m) = ground (arith, elem-map_id ys x m)

-- The other way: some element has the id.
In-of-elem :
    (xs : List Candidate) (id : Text)
    → elem id (map id_of xs) ≡ true
    → (x : Candidate) × In x xs × (id_of x ≡ id)
unfolding elem
In-of-elem [] id e = cc
In-of-elem (y ∷ ys) id e = elim (Bool-cases (id == id_of y)) [
  | inl same ↦ (y, inl refl, sym (eq_sound id (id_of y) same))
  | inr other ↦ let (x, m, s) = In-of-elem ys id (rw other at e) in (x, inr m, s)
]

elem-append : (id : Text) (xs ys : List Text) → elem id (xs ++ ys) ≡ (elem id xs || elem id ys)
unfolding elem
elem-append id [] ys = refl
elem-append id (x ∷ xs) ys = ground (arith, elem-append id xs ys)

abbrev DuplicateGroups : Type 0
DuplicateGroups = Groups build_long_term_duplicate_key

-- An id is a duplicate if and only if it stands behind the first in a group.
elem-duplicates :
    (id : Text) (groups : DuplicateGroups)
    → Any (λ g. elem id (ids_after_first (sort_by precedes g.1)) ≡ true) groups
    → elem id (duplicate_memory_ids groups) ≡ true
unfolding duplicate_memory_ids
elem-duplicates id [] h = elim h [ ]
elem-duplicates id ((k, xs) ∷ groups) (inl h) =
    rw (elem-append id (ids_after_first (sort_by precedes xs)) (duplicate_memory_ids groups), h)
      refl
elem-duplicates id ((k, xs) ∷ groups) (inr h) = ground (
  arith,
  elem-append id (ids_after_first (sort_by precedes xs)) (duplicate_memory_ids groups),
  elem-duplicates id groups h,
)

elem-of-duplicates :
    (id : Text) (groups : DuplicateGroups)
    → elem id (duplicate_memory_ids groups) ≡ true
    → Any (λ g. elem id (ids_after_first (sort_by precedes g.1)) ≡ true) groups
unfolding duplicate_memory_ids elem
elem-of-duplicates id [] h = absurd (cc)
elem-of-duplicates id ((k, xs) ∷ groups) h =
    elim (Bool-cases (elem id (ids_after_first (sort_by precedes xs)))) [
      | inl e ↦ inl e
      | inr e ↦ inr (
          elem-of-duplicates id groups (
            ground (
              arith,
              e,
              h,
              elem-append id (ids_after_first (sort_by precedes xs)) (duplicate_memory_ids groups),
            )))
    ]

module _ (items : List Candidate) where
  abbrev pub groups_of : DuplicateGroups
  groups_of = group_by build_long_term_duplicate_key items

  abbrev pub is_survivor : Candidate → Bool
  is_survivor c = not (elem (id_of c) (duplicate_memory_ids groups_of))

  -- The facts that say the same as `c`, the best first.
  abbrev ranked : Key → List Candidate
  ranked k = sort_by precedes (filed build_long_term_duplicate_key k items)

  abbrev key : Candidate → Key
  key = build_long_term_duplicate_key

  In-ranked : (c : Candidate) → In c items → In c (ranked (key c))
  In-ranked c m = In-sort_by precedes _ c (In-select _ items c m (key_eq_refl (key c)))

  In-of-ranked : (k : Key) (c : Candidate) → In c (ranked k) → In c items × (k ≡ key c)
  In-of-ranked k c m =
      let (here, same) = In-of-select _ items c (In-of-sort_by precedes _ c m) in
      (here, key_eq_sound k (key c) same)

  -- What stands behind the first of its key is a duplicate.
  ranked-duplicates :
      (c : Candidate)
      → In c items
      → (id : Text) → elem id (ids_after_first (ranked (key c))) ≡ true
      → elem id (duplicate_memory_ids groups_of) ≡ true
  ranked-duplicates c m id e =
      elem-duplicates id groups_of
        (found groups_of filed_groups.held (All-lookup _ items c filed_groups.covered m))
    where
      filed_groups : IsFiled key items groups_of
      filed_groups = group_by-IsFiled key items

      found :
          (groups : DuplicateGroups)
          → All (λ g. g.1 ≡ filed key g.0 items) groups
          → Any (λ g. g.0 ≡ key c) groups
          → Any (λ g. elem id (ids_after_first (sort_by precedes g.1)) ≡ true) groups
      found [] h n = n
      found (g ∷ groups) h (inl same) = inl (
          subst (λ xs. elem id (ids_after_first (sort_by precedes xs)) ≡ true)
            (sym (h.0 ∙ ap (λ k. filed key k items) same)) e)
      found (g ∷ groups) h (inr n) = inr (found groups h.1 n)

  -- A duplicate stands behind the first of some key.
  duplicates-ranked :
      (id : Text)
      → elem id (duplicate_memory_ids groups_of) ≡ true
      → (k : Key) × (elem id (ids_after_first (ranked k)) ≡ true)
  duplicates-ranked id e =
      found groups_of (group_by-IsFiled key items).held (elem-of-duplicates id groups_of e)
    where
      found :
          (groups : DuplicateGroups)
          → All (λ g. g.1 ≡ filed key g.0 items) groups
          → Any (λ g. elem id (ids_after_first (sort_by precedes g.1)) ≡ true) groups
          → (k : Key) × (elem id (ids_after_first (ranked k)) ≡ true)
      found [] h n = elim n [ ]
      found (g ∷ groups) h (inl here) =
          (g.0, subst (λ xs. elem id (ids_after_first (sort_by precedes xs)) ≡ true) h.0 here)
      found (g ∷ groups) h (inr n) = found groups h.1 n

  -- A survivor is the first of its key.
  pub survivor-first :
      (c : Candidate) → In c items → is_survivor c ≡ true → head? (ranked (key c)) ≡ some c
  unfolding ids_after_first
  survivor-first c m p = first_of (ranked (key c)) (In-ranked c m) (ranked-duplicates c m (id_of c))
    where
      first_of :
          (l : List Candidate)
          → In c l
          → (elem (id_of c) (ids_after_first l) ≡ true
              → elem (id_of c) (duplicate_memory_ids groups_of) ≡ true)
          → head? l ≡ some c
      first_of [] n k = elim n [ ]
      first_of (d ∷ ds) (inl e) k = ap some e
      first_of (d ∷ ds) (inr n) k = absurd (ground (arith, p, k (elem-map_id ds c n)))

  -- An item with an id that stands behind the first of a key.
  behind_first :
      (k : Key) (id : Text)
      → elem id (ids_after_first (ranked k)) ≡ true
      → (x : Candidate) × In x items × (k ≡ key x) × (id_of x ≡ id)
  unfolding elem ids_after_first
  behind_first k id e = look (ranked k) (λ x m. In-of-ranked k x m) e
    where
      look :
          (l : List Candidate)
          → ((x : Candidate) → In x l → In x items × (k ≡ key x))
          → elem id (ids_after_first l) ≡ true
          → (x : Candidate) × In x items × (k ≡ key x) × (id_of x ≡ id)
      look [] inside h = absurd (cc)
      look (d ∷ ds) inside h =
          let (x, m, same) = In-of-elem ds id h in
          let (here, own) = inside x (inr m) in (x, here, own, same)

  -- The first of a key survives.
  first-survivor :
      UniqueBy id_of items
      → (c d : Candidate) (ds : List Candidate) → ranked (key c) ≡ d ∷ ds
      → is_survivor d ≡ true
  unfolding ids_after_first
  first-survivor u c d ds e = elim (Bool-cases (elem (id_of d) (duplicate_memory_ids groups_of))) [
    | inr kept ↦ rw kept refl
    | inl dropped ↦
        let (k, n) = duplicates-ranked (id_of d) dropped in
        let (x, here, own, same) = behind_first k (id_of d) n in
        let (inside, shared) = In-of-ranked (key c) d (subst (In d) (sym e) (inl refl)) in
        let one : x ≡ d = In_lem id_of items x d u here inside same in
        let level : k ≡ key c = own ∙ ap key one ∙ sym shared in
        let behind : elem (id_of d) (map id_of ds) ≡ true =
          subst (λ l. elem (id_of d) (ids_after_first l) ≡ true) (ap ranked level ∙ e) n in
        let (y, m, again) = In-of-elem ds (id_of d) behind in
        let unique : UniqueBy id_of (d ∷ ds) =
          subst (UniqueBy id_of) e
            (UniqueBy-sort_by id_of precedes _ (UniqueBy-select id_of _ items u)) in
        absurd (All-lookup _ ds y unique.0 m again)
  ]

  -- Survivors of one key are one.
  pub survivors-UniqueBy :
      (l : List Candidate)
      → All (λ c. is_survivor c ≡ true → head? (ranked (key c)) ≡ some c) l
      → UniqueBy id_of l
      → UniqueBy key (select is_survivor l)
  unfolding select
  survivors-UniqueBy [] h u = tt
  survivors-UniqueBy (c ∷ l) h u = elim (Bool-cases (is_survivor c)) [
    | inr out ↦ rw out (survivors-UniqueBy l h.1 u.1)
    | inl kept ↦ rw kept (
      All-select_if (λ y. key y ≢ key c) is_survivor l
          (All-map_of _ _
            (λ y both kept_y same. both.0 (ap id_of (one kept y (both.1 kept_y) same))) l
            (All-zip _ _ l u.0 h.1)),
      survivors-UniqueBy l h.1 u.1,
    )
  ]
    where
      one :
          is_survivor c ≡ true
          → (y : Candidate) → head? (ranked (key y)) ≡ some y
          → key y ≡ key c
          → y ≡ c
      one kept y e same =
          let heads : some y ≡ some c = sym e ∙ ap (λ k. head? (ranked k)) same ∙ h.0 kept in cc

  -- An item has a survivor of its key that comes before it.
  pub survivor_of :
      UniqueBy id_of items
      → (c : Candidate) → In c items
      → Any (λ k. (key k ≡ key c) × (precedes k c ≡ true)) (select is_survivor items)
  survivor_of u c m = found (ranked (key c)) refl
    where
      found :
          (l : List Candidate)
          → ranked (key c) ≡ l
          → Any (λ k. (key k ≡ key c) × (precedes k c ≡ true)) (select is_survivor items)
      found [] e = elim (subst (In c) e (In-ranked c m)) [ ]
      found (d ∷ ds) e =
          let (inside, shared) = In-of-ranked (key c) d (subst (In d) (sym e) (inl refl)) in
          let least = head-sort_by precedes-IsOrder (filed key (key c) items) (ap head? e) in
          Any-of _ (select is_survivor items) d
            (In-select is_survivor items d inside (first-survivor u c d ds e))
            (
              sym shared,
              All-lookup _ (filed key (key c) items) c least
                  (In-select _ items c m (key_eq_refl (key c))),
            )
