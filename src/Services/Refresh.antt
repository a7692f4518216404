-- ===== src/Services/Refresh.antt =====
-- After a rebuild the cache holds the memories that mem0 returned, and no other row of the scope.
use automem.Services.Classify.{ids_of}
use automem.Common.{
  All-zip, All-select_test, ◌≡◌, refl, Bool, true, false, not, ◌||◌, some, List, [], ◌∷◌, ◌++◌,
  arith, Option-cases, inl, inr, All, All-map_of, first, update, delete, select, length,
}
use automem.Text.{Text, ◌==◌, elem, eq_refl, eq_sound}
use automem.Http.{ok}
use automem.Cache.{CacheRow}
use automem.Cache.Rows.{Owner, upsert, has_memory_id, cache_memory_record}
use automem.Services.{Item, Backend, Memories}
use automem.Services.Flow.{◌>>=◌, ◌>>◌, resume, give, ask, edit}
use automem.Services.Rebuild.{
  usable_id, scope_ids, cache_item, cache_items, is_stale, rebuild_memory_cache,
}

-- A row of the memory is in the cache.
abbrev pub holds : Text → List CacheRow → Bool
holds memory_id table = elem memory_id (ids_of table)

holds-append :
    (memory_id : Text) (new : CacheRow) (table : List CacheRow)
    → holds memory_id (table ++ new ∷ []) ≡ (holds memory_id table || (memory_id == new.memory_id))
unfolding elem
holds-append memory_id new [] = ground arith
holds-append memory_id new (row ∷ rows) = ground (arith, holds-append memory_id new rows)

holds-update :
    (memory_id : Text) (new : CacheRow) (f : CacheRow → CacheRow) (table : List CacheRow)
    → ((row : CacheRow) → (f row).memory_id ≡ new.memory_id)
    → holds memory_id (update (has_memory_id new.memory_id) f table) ≡ holds memory_id table
unfolding elem update
holds-update memory_id new f [] keep = refl
holds-update memory_id new f (row ∷ rows) keep =
    ground (
      arith,
      keep row,
      eq_sound row.memory_id new.memory_id,
      holds-update memory_id new f rows keep,
    )

holds-first :
    (memory_id : Text) (table : List CacheRow) (old : CacheRow)
    → first (has_memory_id memory_id) table ≡ some old
    → holds memory_id table ≡ true
unfolding elem first
holds-first memory_id [] old e = absurd (cc)
holds-first memory_id (row ∷ rows) old e =
    ground (
      arith,
      e,
      eq_sound row.memory_id memory_id,
      eq_refl memory_id,
      holds-first memory_id rows old,
    )

-- An upsert adds its memory and loses none.
upsert-holds :
    (memory_id : Text) (new : CacheRow) (table : List CacheRow)
    → holds memory_id (upsert new table) ≡ (holds memory_id table || (memory_id == new.memory_id))
unfolding upsert
upsert-holds memory_id new table = elim (Option-cases (first (has_memory_id new.memory_id) table)) [
  | inl n ↦ rw (n, upsert) (holds-append memory_id new table)
  | inr (old, e) ↦
      rw
        (
          e,
          upsert,
          holds-update memory_id new (λ row. record new { created_at = row.created_at }) table
              (λ row. refl),
        )
        (ground (arith, holds-first new.memory_id table old e, eq_sound memory_id new.memory_id))
]

holds-delete :
    (scope : Owner) (ids : List Text) (memory_id : Text) (table : List CacheRow)
    → elem memory_id ids ≡ true
    → holds memory_id table ≡ true
    → holds memory_id (delete (is_stale scope ids) table) ≡ true
unfolding elem delete is_stale select
holds-delete scope ids memory_id [] there h = h
holds-delete scope ids memory_id (row ∷ rows) there h =
    ground (
      arith,
      there,
      h,
      eq_sound memory_id row.memory_id,
      holds-delete scope ids memory_id rows there,
    )

delete-All :
    (p : CacheRow → Bool) (table : List CacheRow)
    → All (λ (row : CacheRow). p row ≡ false) (delete p table)
unfolding delete
delete-All p table =
    All-map_of (λ (row : CacheRow). not (p row) ≡ true) (λ (row : CacheRow). p row ≡ false)
      (λ (row : CacheRow) h. ground (arith, h)) _ (All-select_test (λ row. not (p row)) table)

module _ (digest : Text → Text) (clock : Text) (scope : Owner) where
  cache_item-holds :
      (memory_id : Text) (item : Item) (table : List CacheRow)
      → holds memory_id table ≡ true
      → holds memory_id (cache_item digest clock scope item table) ≡ true
  unfolding cache_item cache_memory_record
  cache_item-holds memory_id item table h = elim (Option-cases (usable_id item)) [
    | inl n ↦ rw (n, cache_item) h
    | inr (id, e) ↦ rw (e, cache_item) (rw (upsert-holds, h) refl)
  ]

  cache_items-keeps :
      (memory_id : Text) (items : List Item) (table : List CacheRow)
      → holds memory_id table ≡ true
      → holds memory_id (cache_items digest clock scope items table) ≡ true
  unfolding cache_items
  cache_items-keeps memory_id [] table h = h
  cache_items-keeps memory_id (item ∷ items) table h =
      cache_items-keeps memory_id items _ (cache_item-holds memory_id item table h)

  cache_items-All :
      (items : List Item) (table : List CacheRow)
      → All (λ id. holds id (cache_items digest clock scope items table) ≡ true) (scope_ids items)
  unfolding cache_items scope_ids cache_item cache_memory_record
  cache_items-All [] table = tt
  cache_items-All (item ∷ items) table = elim (Option-cases (usable_id item)) [
    | inl n ↦ rw (n, scope_ids) (cache_items-All items _)
    | inr (id, e) ↦
        rw (e, scope_ids)
          (
            cache_items-keeps id items _
                (rw (e, cache_item) (rw (upsert-holds, eq_refl id) (ground arith))),
            cache_items-All items _,
          )
  ]

elem_self : (ids : List Text) → All (λ id. elem id ids ≡ true) ids
unfolding elem
elem_self [] = tt
elem_self (id ∷ ids) = (
  ground (arith, eq_refl id),
  All-map_of (λ other. elem other ids ≡ true) (λ other. elem other (id ∷ ids) ≡ true)
      (λ other h. ground (arith, h)) ids (elem_self ids),
)

-- A memory of the scope survives the deletion.
scope_kept :
    (scope : Owner) (ids : List Text) (table : List CacheRow)
    → All (λ id. holds id table ≡ true) ids
    → All (λ id. holds id (delete (is_stale scope ids) table) ≡ true) ids
scope_kept scope ids table h =
    All-map_of (λ id. (elem id ids ≡ true) × (holds id table ≡ true)) _
      (λ id p. holds-delete scope ids id table p.0 p.1) ids (All-zip _ _ ids (elem_self ids) h)

-- If mem0 returns its items, a rebuild raises nothing and answers with the number of those that have an
-- id and a text. The cache then holds a row for each of them, and no row of the scope for another memory.
pub rebuild_memory_cache_lem :
    {S : Type 0} (b : Backend S) (digest : Text → Text) (clock : Text) (scope : Owner)
    (items : List Item) (held : S) (w : Memories S)
    → b.get_all scope w.held ≡ (ok items, held)
    → ((rebuild_memory_cache b digest clock scope w).0 ≡ ok (length (scope_ids items)))
      × All
          (λ id. holds id (rebuild_memory_cache b digest clock scope w).1.cache ≡ true)
          (scope_ids items)
      × All
          (λ row. is_stale scope (scope_ids items) row ≡ false)
          (rebuild_memory_cache b digest clock scope w).1.cache
unfolding rebuild_memory_cache ◌>>=◌ ◌>>◌ resume ask edit give
rebuild_memory_cache_lem b digest clock scope items held w e =
    let ids = scope_ids items in
    rw e (
      refl,
      scope_kept scope ids (cache_items digest clock scope items w.cache)
          (cache_items-All digest clock scope items w.cache),
      delete-All (is_stale scope ids) (cache_items digest clock scope items w.cache),
    )
