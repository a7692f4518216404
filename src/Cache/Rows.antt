-- ===== src/Cache/Rows.antt =====
-- The operations on the table `memory_cache`.
use automem.Common.{
  Bool, true, false, not, ◌&&◌, Option, none, some, List, [], ◌∷◌, ◌++◌, if◌then◌else◌, first,
  select, update, delete, sort_by,
}
use mathlib.Core.List.{head?}
use mathlib.Core.Option
use automem.Text.{Text, text, ◌==◌, text_lt, or_empty, or_else, truthy}
use automem.Text.Normalize.{normalize_text}
use automem.Metadata.{Metadata, no_metadata}
use automem.Cache.{CacheRow}
use automem.Cache.Facts.{
  active, no_args, normalize_fact_status, normalize_string_list, normalized_or,
  build_long_term_fact_metadata,
}

-- The arguments `user_id`, `run_id` and `agent_id`, which go together.
pub record Owner : Type 0 where
  pub user_id : Option Text
  pub run_id : Option Text
  pub agent_id : Option Text

abbrev pub is_long_term : Metadata → Bool
is_long_term meta = or_empty meta.domain == text "long_term"

abbrev pub has_memory_id : Text → CacheRow → Bool
has_memory_id memory_id row = row.memory_id == memory_id

-- The row of an INSERT.
abbrev pub cache_row : Text → Text → Owner → Metadata → Text → CacheRow
cache_row memory_id memory owner meta now = record {
  memory_id = memory_id;
  user_id = owner.user_id;
  run_id = owner.run_id;
  agent_id = owner.agent_id;
  source_agent = meta.source_agent;
  domain = meta.domain;
  category = meta.category;
  project_id = meta.project_id;
  task_id = meta.task_id;
  fact_key = meta.fact_key;
  fact_status = normalize_fact_status meta.status active;
  valid_from = meta.valid_from;
  valid_to = meta.valid_to;
  supersedes = normalize_string_list meta.supersedes;
  superseded_by = meta.superseded_by;
  conflict_status = meta.conflict_status;
  review_status = meta.review_status;
  memory = memory;
  created_at = now;
  updated_at = now;
}

-- INSERT … ON CONFLICT(memory_id) DO UPDATE: the row that is there keeps its `created_at`.
unfoldable pub upsert : CacheRow → List CacheRow → List CacheRow
upsert new table = elim (first (has_memory_id new.memory_id) table) [
  | none ↦ table ++ new ∷ []
  | some old ↦
      update (has_memory_id new.memory_id) (λ row. record new { created_at = row.created_at }) table
]

-- The metadata that `cache_memory_record` writes.
unfoldable pub cached_metadata : (Text → Text) → Text → Metadata → Text → Metadata
cached_metadata digest memory meta now =
    if is_long_term meta
    then build_long_term_fact_metadata digest memory meta (normalized_or meta.valid_from now)
        (record no_args { status = some (or_empty (or_else meta.status (some active))) })
    else meta

-- `cache_memory_record`; `clock` is what `utcnow_iso` would answer.
unfoldable pub cache_memory_record :
    (Text → Text)
    → Text
    → Text
    → Text
    → Owner
    → Metadata
    → Option Text
    → List CacheRow
    → List CacheRow
cache_memory_record digest clock memory_id memory owner meta created_at table =
    let now = or_empty (or_else created_at (some clock)) in
    upsert (cache_row memory_id memory owner (cached_metadata digest memory meta now) now) table

unfoldable pub delete_cached_memory : Text → List CacheRow → List CacheRow
delete_cached_memory memory_id = delete (has_memory_id memory_id)

-- `x or None`
abbrev pub or_none : Option Text → Option Text
or_none value = if truthy value then value else none

abbrev nonempty_list : List Text → Option (List Text)
nonempty_list [] = none
nonempty_list (t ∷ ts) = some (t ∷ ts)

unfoldable pub build_metadata_from_cache_row : CacheRow → Metadata
build_metadata_from_cache_row row = record no_metadata {
  domain = row.domain;
  category = row.category;
  project_id = or_none row.project_id;
  task_id = or_none row.task_id;
  source_agent = or_none row.source_agent;
  fact_key = or_none row.fact_key;
  status =
      if truthy (some row.fact_status)
      then some (normalize_fact_status (some row.fact_status) active)
      else none;
  valid_from = or_none row.valid_from;
  valid_to = or_none row.valid_to;
  supersedes = nonempty_list (normalize_string_list (some row.supersedes));
  superseded_by = or_none row.superseded_by;
  conflict_status = or_none row.conflict_status;
  review_status = or_none row.review_status;
}

-- `column = ?`, which a NULL does not satisfy.
abbrev pub column_eq : Option Text → Text → Bool
column_eq none value = false
column_eq (some held) value = held == value

-- `AND column = ?`, where the condition is added if the argument is not None. (`IS ?` on a value that is
-- not NULL is `= ?`.)
abbrev pub matches_if_given : Option Text → Option Text → Bool
matches_if_given none column = true
matches_if_given (some value) column = column_eq column value

unfoldable pub load_long_term_cache_rows : Option Text → Option Text → List CacheRow → List CacheRow
load_long_term_cache_rows user_id project_id = select λ row.
    column_eq row.domain (text "long_term")
    && (matches_if_given user_id row.user_id && matches_if_given project_id row.project_id)

unfoldable pub fetch_active_long_term_fact_rows :
    Option Text → Option Text → Text → Option Text → List CacheRow → List CacheRow
fetch_active_long_term_fact_rows user_id project_id fact_key category = select λ row.
    column_eq row.domain (text "long_term")
    && (column_eq row.fact_key fact_key
        && ((row.fact_status == active)
            && (matches_if_given user_id row.user_id
                && (matches_if_given project_id row.project_id
                    && (if truthy category
                        then column_eq row.category (or_empty category)
                        else true)))))

-- The WHERE clause of `find_cached_duplicate_memory_id`.
abbrev is_duplicate : Text → Owner → Metadata → CacheRow → Bool
is_duplicate memory owner meta row =
    (row.memory == normalize_text memory)
    && ((or_empty row.user_id == or_empty owner.user_id)
        && ((or_empty row.run_id == or_empty owner.run_id)
            && ((or_empty row.agent_id == or_empty owner.agent_id)
                && ((or_empty row.domain == or_empty meta.domain)
                    && ((or_empty row.category == or_empty meta.category)
                        && ((or_empty row.project_id == or_empty meta.project_id)
                            && (or_empty row.task_id == or_empty meta.task_id)))))))

unfoldable pub find_cached_duplicate_memory_id :
    Text → Owner → Metadata → List CacheRow → Option Text
find_cached_duplicate_memory_id memory owner meta table =
    Option.map (λ (row : CacheRow). row.memory_id)
      (head? (
        sort_by (λ (a b : CacheRow). not (text_lt b.created_at a.created_at))
          (select (is_duplicate memory owner meta) table)))
