-- ===== src/Consolidation/Changes.antt =====
-- What a consolidation deletes, rewrites and archives.
use automem.Common.{false, List, [], ◌∷◌, Option, none, some, if◌then◌else◌, update}
use automem.Text.{Text, text, ◌==◌, elem}
use automem.Http.{Result, ok, err, rewrite_failed}
use automem.Cache.Rows.{cache_memory_record, delete_cached_memory, build_metadata_from_cache_row}
use automem.Services.{Backend, Memories}
use automem.Services.Flow.{Flow, ◌>>=◌, ◌>>◌, give, raise, ask, edit}
use automem.Services.Archive.{archive_active_long_term_facts}
use automem.Tasks.{Task}
use automem.Consolidation.Review.{Candidate}
use automem.Consolidation.Facts.{Supersession}

-- UPDATE tasks SET status = 'archived', archived_at = ?, updated_at = ? WHERE status = 'closed'
unfoldable pub archive_closed_tasks : Text → List Task → List Task
archive_closed_tasks now =
    update (λ (row : Task). row.status == text "closed")
      (λ row. record row { status = text "archived"; archived_at = some now; updated_at = now })

module _ {S : Type 0} (b : Backend S) (digest : Text → Text) (clock : Text) where
  -- The loops that delete noise and duplicates.
  unfoldable pub delete_memories : List Text → Flow S (Unit {0})
  delete_memories [] = give tt
  delete_memories (memory_id ∷ ids) = do
    ask (b.remove memory_id)
    edit (delete_cached_memory memory_id)
    delete_memories ids

  -- `rewritten_id` is what mem0 answered to the new text.
  unfoldable pub replace_memory : Candidate → Option Text → Flow S (Unit {0})
  replace_memory item none = raise rewrite_failed
  replace_memory item (some rewritten_id) = do
    edit (
        cache_memory_record digest clock rewritten_id item.canonical
          (record {
            user_id = item.row.user_id;
            run_id = item.row.run_id;
            agent_id = item.row.agent_id;
          })
          (build_metadata_from_cache_row item.row) none)
    ask (b.remove item.row.memory_id)
    edit (delete_cached_memory item.row.memory_id)

  -- The `try` block. The row was copied before `fact_metadata` was set, so its own metadata are used.
  unfoldable pub rewrite_memory : Candidate → Flow S (Unit {0})
  rewrite_memory item = do
    answer ← ask (
        b.add item.canonical
          (record {
            user_id = item.row.user_id;
            run_id = item.row.run_id;
            agent_id = item.row.agent_id;
          })
          (build_metadata_from_cache_row item.row) false)
    replace_memory item answer

  -- `except Exception: rewrite_failures.append(…)`: what was done before the exception stays.
  unfoldable pub failed_if_raised :
      Text → Result (Unit {0}) × Memories S → Result (Option Text) × Memories S
  failed_if_raised memory_id (ok _, w) = (ok none, w)
  failed_if_raised memory_id (err e, w) = (ok (some memory_id), w)

  unfoldable pub try_rewrite : Candidate → Flow S (Option Text)
  try_rewrite item w = failed_if_raised item.row.memory_id (rewrite_memory item w)

  -- The ids of the memories that could not be rewritten. A duplicate is not rewritten.
  unfoldable pub rewrite_memories : (duplicates : List Text) → List Candidate → Flow S (List Text)
  rewrite_memories duplicates [] = give []
  rewrite_memories duplicates (item ∷ items) =
      let rest = rewrite_memories duplicates items in
      if elem item.row.memory_id duplicates then rest else (do
        failure ← try_rewrite item
        failures ← rest
        give (elim failure [ none ↦ failures | some id ↦ id ∷ failures ]))

  unfoldable pub raise_failures : List Text → Flow S (Unit {0})
  raise_failures [] = give tt
  raise_failures (id ∷ ids) = raise rewrite_failed

  -- The block under `if payload.dedupe_long_term and not payload.dry_run`.
  unfoldable pub dedupe_memories :
      (noise : List Text) (rewrites : List Candidate) (duplicates : List Text) → Flow S (Unit {0})
  dedupe_memories noise rewrites duplicates = do
    delete_memories noise
    failures ← rewrite_memories duplicates rewrites
    raise_failures failures
    delete_memories duplicates

  -- The last loop.
  unfoldable pub supersede_facts : List Supersession → Flow S (Unit {0})
  supersede_facts [] = give tt
  supersede_facts (found ∷ rest) = do
    archive_active_long_term_facts b digest clock found.newest_id clock found.older
    supersede_facts rest
