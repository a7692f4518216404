-- ===== src/Consolidation/Facts.antt =====
-- Active facts of one key in the cache: the newest supersedes the others.
use automem.Common.{
  ℕ, ◌+◌, Bool, Option, none, some, List, [], ◌∷◌, if◌then◌else◌, length, map, select, sort_by,
}
use automem.Text.{Text, ◌==◌, or_empty, or_else}
use automem.Text.Groups.{Key, Groups, key_le, group_by}
use automem.Metadata.{Metadata}
use automem.Cache.{CacheRow}
use automem.Cache.Facts.{
  active, no_args, build_long_term_fact_metadata, long_term_status_from_metadata,
  should_auto_supersede_fact,
}
use automem.Cache.Rows.{build_metadata_from_cache_row}

-- A row with `fact_metadata`.
pub record Fact : Type 0 where
  pub row : CacheRow
  pub metadata : Metadata

unfoldable pub fact_of : (Text → Text) → (clock : Text) → CacheRow → Fact
fact_of digest clock row = record {
  row = row;
  metadata =
      build_long_term_fact_metadata digest row.memory (build_metadata_from_cache_row row)
        (or_empty (or_else (some row.created_at) (some clock)))
        (record no_args { status = or_else (some row.fact_status) (some active) });
}

abbrev pub is_active_fact : Fact → Bool
is_active_fact fact = long_term_status_from_metadata fact.metadata == active

unfoldable pub fact_group_key : Fact → Key
fact_group_key fact =
    or_empty fact.row.user_id ∷ or_empty fact.row.project_id ∷ or_empty fact.metadata.fact_key ∷ []

-- The key by which a group is sorted.
unfoldable pub age_key : Fact → Key
age_key fact =
    or_empty (or_else fact.metadata.valid_from (some fact.row.created_at)) ∷ fact.row.memory_id ∷ []

unfoldable pub came_before : Fact → Fact → Bool
came_before a b = key_le (age_key a) (age_key b)

-- What `newest_id` supersedes.
pub record Supersession : Type 0 where
  pub older : List CacheRow
  pub newest_id : Text

-- `ordered[:-1]` and the id of `ordered[-1]`, for the facts `fact ∷ facts`.
unfoldable pub supersede : Fact → List Fact → Supersession
supersede fact [] = record { older = []; newest_id = fact.row.memory_id }
supersede fact (next ∷ facts) =
    let rest = supersede next facts in record rest { older = fact.row ∷ rest.older }

unfoldable pub supersede_sorted : List Fact → Option Supersession
supersede_sorted [] = none
supersede_sorted (fact ∷ facts) = some (supersede fact facts)

-- The body of the loop over the groups.
unfoldable pub supersession_of : List Fact → Option Supersession
supersession_of [] = none
supersession_of (fact ∷ []) = none
supersession_of (fact ∷ next ∷ facts) =
    if should_auto_supersede_fact fact.metadata
    then supersede_sorted (sort_by came_before (fact ∷ next ∷ facts))
    else none

unfoldable pub legacy_supersessions : Groups fact_group_key → List Supersession
legacy_supersessions [] = []
legacy_supersessions ((k, group) ∷ groups) =
    let rest = legacy_supersessions groups in
    elim (supersession_of group) [ none ↦ rest | some found ↦ found ∷ rest ]

unfoldable pub superseded_fact_count : List Supersession → ℕ
superseded_fact_count [] = 0
superseded_fact_count (found ∷ rest) = length found.older + superseded_fact_count rest

-- The supersessions among the long-term rows.
unfoldable pub find_supersessions :
    (Text → Text) → (clock : Text) → List CacheRow → List Supersession
find_supersessions digest clock rows =
    legacy_supersessions
      (group_by fact_group_key (select is_active_fact (map (fact_of digest clock) rows)))
