-- ===== src/Services/Archive.antt =====
-- `archive_active_long_term_facts`: facts that a newer one supersedes are stored again as history.
use automem.Common.{false, Option, none, some, List, [], ◌∷◌, if◌then◌else◌}
use automem.Text.{Text, or_empty, or_else, is_empty}
use automem.Http.{archive_failed}
use automem.Metadata.{Metadata}
use automem.Cache.{CacheRow}
use automem.Cache.Facts.{
  superseded, no_args, given_or, normalized_or, build_long_term_fact_metadata,
}
use automem.Cache.Rows.{
  Owner, cache_memory_record, delete_cached_memory, build_metadata_from_cache_row,
}
use automem.Services.{Item, Backend}
use automem.Services.Flow.{Flow, ◌>>=◌, ◌>>◌, give, raise, ask, edit}

-- `{**base, **over}`, where a key that `over` holds as `None` counts as absent.
unfoldable pub overlay : Metadata → Metadata → Metadata
overlay base over = record {
  domain = given_or over.domain base.domain;
  category = given_or over.category base.category;
  project_id = given_or over.project_id base.project_id;
  task_id = given_or over.task_id base.task_id;
  source_agent = given_or over.source_agent base.source_agent;
  fact_key = given_or over.fact_key base.fact_key;
  status = given_or over.status base.status;
  valid_from = given_or over.valid_from base.valid_from;
  valid_to = given_or over.valid_to base.valid_to;
  supersedes = given_or over.supersedes base.supersedes;
  superseded_by = given_or over.superseded_by base.superseded_by;
  conflict_status = given_or over.conflict_status base.conflict_status;
  review_status = given_or over.review_status base.review_status;
  conflicts_with = given_or over.conflicts_with base.conflicts_with;
  extra = over.extra;
}

-- `item.get(key) or row.get(key)` for the three identifiers.
abbrev pub owner_of : Item → CacheRow → Owner
owner_of item row = record {
  user_id = or_else item.owner.user_id row.user_id;
  run_id = or_else item.owner.run_id row.run_id;
  agent_id = or_else item.owner.agent_id row.agent_id;
}

module _ {S : Type 0} (b : Backend S) (digest : Text → Text) (clock : Text) where
  -- The metadata under which a fact becomes history.
  unfoldable pub archived_metadata : Text → Text → Text → CacheRow → Item → Metadata
  archived_metadata superseded_by archived_at memory row item =
      let base = overlay (build_metadata_from_cache_row row) item.metadata in
      build_long_term_fact_metadata digest memory base
        (normalized_or (or_else base.valid_from (or_else (some row.created_at) (some archived_at)))
          archived_at)
        (record no_args {
          status = some superseded;
          superseded_by = some superseded_by;
          valid_to = some archived_at;
        })

  -- `archived_id` is what mem0 answered to the new copy.
  unfoldable pub replace_fact :
      Text → Text → CacheRow → Item → Text → Option Text → Flow S (Option Text)
  replace_fact superseded_by archived_at row item memory none = raise archive_failed
  replace_fact superseded_by archived_at row item memory (some archived_id) = do
    edit (
        cache_memory_record digest clock archived_id memory (owner_of item row)
          (archived_metadata superseded_by archived_at memory row item)
          (or_else (some row.created_at) (some archived_at)))
    ask (b.remove row.memory_id)
    edit (delete_cached_memory row.memory_id)
    give (some archived_id)

  -- A fact whose text is empty is dropped.
  unfoldable pub archive_item : Text → Text → CacheRow → Item → Text → Flow S (Option Text)
  archive_item superseded_by archived_at row item [] = do
    edit (delete_cached_memory row.memory_id)
    ask (b.remove row.memory_id)
    give none
  archive_item superseded_by archived_at row item (c ∷ s) =
      let memory = c ∷ s in
      do
        archived ← ask (
            b.add memory (owner_of item row)
              (archived_metadata superseded_by archived_at memory row item) false)
        replace_fact superseded_by archived_at row item memory archived

  unfoldable pub archive_found : Text → Text → CacheRow → Option Item → Flow S (Option Text)
  archive_found superseded_by archived_at row none = do
    edit (delete_cached_memory row.memory_id)
    give none
  archive_found superseded_by archived_at row (some item) =
      archive_item superseded_by archived_at row item
        (or_empty (or_else item.memory (some row.memory)))

  -- The body of the loop.
  unfoldable pub archive_fact : Text → Text → CacheRow → Flow S (Option Text)
  archive_fact superseded_by archived_at row w =
      if is_empty row.memory_id
      then give none w
      else (ask (b.get row.memory_id) >>= archive_found superseded_by archived_at row) w

  -- The ids of the facts that are stored as history.
  unfoldable pub archive_active_long_term_facts : Text → Text → List CacheRow → Flow S (List Text)
  archive_active_long_term_facts superseded_by archived_at [] = give []
  archive_active_long_term_facts superseded_by archived_at (row ∷ rows) = do
    archived ← archive_fact superseded_by archived_at row
    rest ← archive_active_long_term_facts superseded_by archived_at rows
    give (elim archived [ none ↦ rest | some archived_id ↦ archived_id ∷ rest ])
