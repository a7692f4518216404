-- ===== src/Consolidation/Review.antt =====
-- The loop of `run_consolidation_operation` over the cache: which memories are noise, which are rewritten,
-- and which long-term facts say the same. The decision on a text (`govern_memory_text`) is a parameter.
use automem.Common.{
  ℕ, ◌+◌, Bool, true, false, not, ◌&&◌, List, [], ◌∷◌, ◌++◌, if◌then◌else◌, leb, length, map,
  sort_by, some,
}
use automem.Text.{Text, text, ◌==◌, is_empty, or_empty, or_else}
use automem.Text.Normalize.{strip, normalize_text}
use automem.Text.Groups.{Key, Groups, key_le, add_to_group}
use automem.Metadata.{Metadata}
use automem.Cache.{CacheRow}
use automem.Cache.Rows.{column_eq, matches_if_given, build_metadata_from_cache_row}
use automem.Services.Store.{Decision}
use automem.Consolidation.{ConsolidateRequest}

-- A row with `canonical_text`.
pub record Candidate : Type 0 where
  pub row : CacheRow
  pub canonical : Text

abbrev pub id_of : Candidate → Text
id_of candidate = candidate.row.memory_id

unfoldable pub build_long_term_duplicate_key : Candidate → Key
build_long_term_duplicate_key item =
    or_empty item.row.user_id
    ∷ normalize_text (or_empty (or_else (some item.canonical) (some item.row.memory)))
    ∷ or_empty item.row.category
    ∷ or_empty item.row.project_id
    ∷ []

unfoldable pub should_run_offline_judge : Text → Metadata → Bool
should_run_offline_judge memory metadata =
    let normalized = strip memory in
    if is_empty normalized
    then false
    else if or_empty metadata.domain == text "task"
    then true
    else leb 40 (length normalized)

-- The variables of the loop.
pub record Review : Type 0 where
  pub noise_memory_ids : List Text
  pub rewrite_rows : List Candidate
  pub canonicalized_long_term_count : ℕ
  pub long_term_groups : Groups build_long_term_duplicate_key

abbrev pub no_review : Review
no_review = record {
  noise_memory_ids = [];
  rewrite_rows = [];
  canonicalized_long_term_count = 0;
  long_term_groups = [];
}

abbrev pub is_long_term_row : CacheRow → Bool
is_long_term_row row = column_eq row.domain (text "long_term")

-- The WHERE clause that collects the rows.
unfoldable pub is_reviewed : ConsolidateRequest → CacheRow → Bool
is_reviewed payload row =
    matches_if_given payload.user_id row.user_id
    && matches_if_given payload.project_id row.project_id

module _ (govern_memory_text : Text → Metadata → (origin : Text) → Decision) where
  unfoldable pub governed : CacheRow → Decision
  governed row =
      let metadata = build_metadata_from_cache_row row in
      govern_memory_text row.memory metadata (
        if should_run_offline_judge row.memory metadata
        then text "consolidate"
        else text "memory_store")

  -- The rest of the body, for a text that is kept. What the loop stores under `fact_metadata` is not read
  -- after it.
  unfoldable pub review_kept : CacheRow → Decision → Review → Review
  review_kept row decision review =
      let item : Candidate = record { row = row; canonical = decision.canonical } in
      let long_term = is_long_term_row row in
      record review {
        rewrite_rows =
            if decision.canonicalized
            then review.rewrite_rows ++ item ∷ []
            else review.rewrite_rows;
        canonicalized_long_term_count =
            if decision.canonicalized && long_term
            then review.canonicalized_long_term_count + 1
            else review.canonicalized_long_term_count;
        long_term_groups =
            if long_term
            then add_to_group build_long_term_duplicate_key item review.long_term_groups
            else review.long_term_groups;
      }

  -- The body of the loop.
  unfoldable pub review_row : CacheRow → Review → Review
  review_row row review =
      let decision = governed row in
      if decision.skip
      then record review { noise_memory_ids = review.noise_memory_ids ++ row.memory_id ∷ [] }
      else review_kept row decision review

  unfoldable pub review_rows : List CacheRow → Review → Review
  review_rows [] review = review
  review_rows (row ∷ rows) review = review_rows rows (review_row row review)

-- The key by which a group is sorted, the number as a text of one character.
unfoldable pub survivor_key : Candidate → Key
survivor_key item =
    (if not (item.row.memory == item.canonical) then 1 ∷ [] else 0 ∷ [])
    ∷ item.row.created_at
    ∷ item.row.memory_id
    ∷ []

unfoldable pub precedes : Candidate → Candidate → Bool
precedes a b = key_le (survivor_key a) (survivor_key b)

-- The ids of `ordered[1:]`
unfoldable pub ids_after_first : List Candidate → List Text
ids_after_first [] = []
ids_after_first (item ∷ items) = map id_of items

unfoldable pub duplicate_memory_ids : Groups build_long_term_duplicate_key → List Text
duplicate_memory_ids [] = []
duplicate_memory_ids ((k, group) ∷ groups) =
    ids_after_first (sort_by precedes group) ++ duplicate_memory_ids groups
