-- ===== src/Services/Rebuild.antt =====
-- `rebuild_memory_cache`: the rows of a scope are written again from mem0, and the others deleted.
use automem.Common.{
  ℕ, Bool, not, ◌&&◌, ◌||◌, Option, none, some, List, [], ◌∷◌, if◌then◌else◌, delete, length,
}
use automem.Text.{Text, or_else, or_empty, is_empty, elem}
use automem.Cache.{CacheRow}
use automem.Cache.Rows.{Owner, cache_memory_record, matches_if_given}
use automem.Services.{Item, Backend}
use automem.Services.Flow.{Flow, ◌>>=◌, ◌>>◌, give, ask, edit}

-- `item.get(key) or key` for the three identifiers.
abbrev pub owner_in : Owner → Item → Owner
owner_in scope item = record {
  user_id = or_else item.owner.user_id scope.user_id;
  run_id = or_else item.owner.run_id scope.run_id;
  agent_id = or_else item.owner.agent_id scope.agent_id;
}

-- The id under which an item is written, if it has an id and a text.
unfoldable pub usable_id : Item → Option Text
usable_id item =
    if is_empty (or_empty item.id) || is_empty (or_empty item.memory) then none else item.id

-- `scope_ids`, of which `count` is the length.
unfoldable pub scope_ids : List Item → List Text
scope_ids [] = []
scope_ids (item ∷ items) =
    let rest = scope_ids items in
    elim (usable_id item) [ none ↦ rest | some memory_id ↦ memory_id ∷ rest ]

module _ (digest : Text → Text) (clock : Text) (scope : Owner) where
  -- The body of the loop over what mem0 returns.
  unfoldable pub cache_item : Item → List CacheRow → List CacheRow
  cache_item item table = elim (usable_id item) [
    | none ↦ table
    | some memory_id ↦
        cache_memory_record digest clock memory_id (or_empty item.memory) (owner_in scope item)
          item.metadata item.created_at table
  ]

  unfoldable pub cache_items : List Item → List CacheRow → List CacheRow
  cache_items [] table = table
  cache_items (item ∷ items) table = cache_items items (cache_item item table)

-- The WHERE clause that collects the rows of the scope.
unfoldable pub in_scope : Owner → CacheRow → Bool
in_scope scope row =
    matches_if_given scope.user_id row.user_id
    && (matches_if_given scope.run_id row.run_id && matches_if_given scope.agent_id row.agent_id)

unfoldable pub is_stale : Owner → List Text → CacheRow → Bool
is_stale scope ids row = in_scope scope row && not (elem row.memory_id ids)

unfoldable pub rebuild_memory_cache :
    {S : Type 0} → Backend S → (Text → Text) → Text → Owner → Flow S ℕ
rebuild_memory_cache b digest clock scope = do
  items ← ask (b.get_all scope)
  edit (cache_items digest clock scope items)
  edit (delete (is_stale scope (scope_ids items)))
  give (length (scope_ids items))
