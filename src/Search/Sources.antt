-- ===== src/Search/Sources.antt =====
-- Where a search looks: in mem0, in the rows of the cache, and in the memories of the tasks.
use automem.Common.{
  Bool, true, false, not, ◌&&◌, ◌||◌, Option, none, some, List, [], ◌∷◌, ◌++◌, if◌then◌else◌, map,
  select, sort_by, take, leb, max, min, length,
}
use automem.Text.{Text, text, ◌==◌, text_lt, lower, is_empty, truthy, or_empty, contains}
use automem.Text.Normalize.{normalize_text}
use automem.Metadata.{Metadata, Filters, no_metadata}
use automem.Cache.{CacheRow}
use automem.Cache.Facts.{active}
use automem.Cache.Rows.{Owner, column_eq, matches_if_given, is_long_term}
use automem.Tasks.Normalize.{column_in}
use automem.Tasks.Rows.{TaskContext}
use automem.Search.{Patterns, Numbers, Hit}
use automem.Search.Candidates.{
  fact_status_of, matched_filter_fields, max_score, merge_search_candidate, unite,
}
use automem.Search.Rank.{best_lexical, overlap_of}

-- What the conditions of a search come from.
pub record Scope : Type 0 where
  pub owner : Owner
  -- `effective_filters`, which always hold a domain
  pub filters : Filters
  pub requested_status : Text
  pub history_mode : Bool

-- `if filters.get(key): … value`
abbrev pub equals_if_set : Option Text → Text → Bool
equals_if_set expected actual = if truthy expected then actual == or_empty expected else true

-- The conditions on what mem0 returns.
unfoldable pub passes_filters : Scope → Metadata → Bool
passes_filters scope metadata =
    (if truthy scope.filters.project_id
      then normalize_text (or_empty metadata.project_id)
        == normalize_text (or_empty scope.filters.project_id)
      else true)
    && (equals_if_set scope.filters.category (or_empty metadata.category)
        && (equals_if_set scope.filters.domain (or_empty metadata.domain)
            && (if not (is_long_term metadata)
                then true
                else if not (is_empty scope.requested_status)
                then fact_status_of metadata == scope.requested_status
                else (scope.history_mode || (fact_status_of metadata == active)))))

-- `column = ?`, where the condition is added if the filter is set.
abbrev pub column_if_set : Option Text → Option Text → Bool
column_if_set expected column =
    if truthy expected then column_eq column (or_empty expected) else true

-- The conditions that both statements on the cache share.
unfoldable pub in_filters : Filters → CacheRow → Bool
in_filters filters row =
    column_if_set filters.project_id row.project_id
    && (column_if_set filters.category row.category && column_if_set filters.domain row.domain)

-- `column != ?`, which a NULL does not satisfy.
abbrev column_ne : Option Text → Text → Bool
column_ne none value = false
column_ne (some held) value = not (held == value)

-- The conditions on the owner, the filters and the status.
unfoldable pub is_searched : Scope → CacheRow → Bool
is_searched scope row =
    matches_if_given scope.owner.user_id row.user_id
    && (matches_if_given scope.owner.run_id row.run_id
        && (matches_if_given scope.owner.agent_id row.agent_id
            && (in_filters scope.filters row
                && (if not (is_empty scope.requested_status)
                    then row.fact_status == scope.requested_status
                    else if scope.history_mode
                    then true
                    else (column_ne row.domain (text "long_term")
                        || (row.fact_status == active))))))

-- `json_object(…)` of a row.
abbrev pub row_metadata : CacheRow → Metadata
row_metadata row = record no_metadata {
  domain = row.domain;
  category = row.category;
  project_id = row.project_id;
  task_id = row.task_id;
  source_agent = row.source_agent;
  fact_key = row.fact_key;
  status = some row.fact_status;
  valid_from = row.valid_from;
  valid_to = row.valid_to;
  supersedes = some row.supersedes;
  superseded_by = row.superseded_by;
  conflict_status = row.conflict_status;
  review_status = row.review_status;
}

-- The same with the six keys of the statement on tasks.
abbrev pub task_row_metadata : CacheRow → Metadata
task_row_metadata row = record no_metadata {
  domain = row.domain;
  category = row.category;
  project_id = row.project_id;
  task_id = row.task_id;
  source_agent = row.source_agent;
}

abbrev pub hit_of : {N : Type 0} → CacheRow → Metadata → N → Hit N
hit_of row metadata score = record {
  id = row.memory_id;
  owner = record { user_id = row.user_id; run_id = row.run_id; agent_id = row.agent_id };
  memory = row.memory;
  created_at = some row.created_at;
  metadata = metadata;
  score = score;
  matched_by = [];
  matched_fields = [];
  matched_terms = [];
  status = [];
}

-- `task_subject_matches` of backend/tasks.py
unfoldable pub task_subject_matches : Patterns → Text → Text → Bool
task_subject_matches patterns memory subject =
    let normalized_text = lower (normalize_text memory) in
    let normalized_subject = lower (normalize_text subject) in
    let subject_tokens = patterns.task_tokens normalized_subject in
    if is_empty normalized_text || is_empty normalized_subject
    then false
    else if contains normalized_text normalized_subject
    then true
    else elim subject_tokens [
      | [] ↦ false
      | t ∷ ts ↦
          leb (max 1 (min 2 (length (t ∷ ts))))
            (overlap_of (t ∷ ts) (patterns.task_tokens normalized_text))
    ]

-- `any(variant in memory for variant in variants)`
unfoldable pub contains_one : Text → List Text → Bool
contains_one memory [] = false
contains_one memory (variant ∷ variants) = contains memory variant || contains_one memory variants

unfoldable pub any_like : Patterns → List Text → Text → Bool
any_like patterns [] memory = false
any_like patterns (variant ∷ variants) memory =
    patterns.text_like variant memory || any_like patterns variants memory

-- `" OR ".join(variant_clauses)`
unfoldable pub any_clause : Patterns → (tokens variants : List Text) → CacheRow → Bool
any_clause patterns [] [] row = true
any_clause patterns [] (variant ∷ variants) row = any_like patterns (variant ∷ variants) row.memory
any_clause patterns (token ∷ tokens) variants row =
    patterns.fts_match (token ∷ tokens) row || any_like patterns variants row.memory

unfoldable pub any_matches : Patterns → (subject : Text) → (aliases : List Text) → Bool
any_matches patterns subject [] = false
any_matches patterns subject (alias ∷ aliases) =
    task_subject_matches patterns alias subject || any_matches patterns subject aliases

module _ {N : Type 0} (patterns : Patterns) (numbers : Numbers N) (scope : Scope)
    (variants : List Text) where
  abbrev pub text_and : List Text → List Text
  text_and fields = unite (text "text" ∷ []) fields

  -- An item is merged as `matched_by`, and as `metadata` if it matches filters.
  unfoldable pub merge_found : Text → Hit N → List (Hit N) → List (Hit N)
  merge_found matched_by item by_id =
      let fields = matched_filter_fields item.metadata scope.filters in
      let merged =
        merge_search_candidate numbers item matched_by (text_and fields) variants by_id in
      elim fields [
        | [] ↦ merged
        | f ∷ fs ↦ merge_search_candidate numbers item (text "metadata") (f ∷ fs) [] merged
      ]

  -- The loops over what mem0 returned: first the conditions, then the merges.
  unfoldable pub merge_all : Text → List (Hit N) → List (Hit N) → List (Hit N)
  merge_all matched_by [] by_id = by_id
  merge_all matched_by (item ∷ items) by_id =
      merge_all matched_by items (merge_found matched_by item by_id)

  unfoldable pub semantic_candidates : List (Hit N) → List (Hit N)
  semantic_candidates items =
      merge_all (text "semantic")
        (select (λ (item : Hit N). passes_filters scope item.metadata) items) []

  -- `normalized_variant`s that are not empty.
  abbrev normalized_variants : List Text
  normalized_variants = select (λ v. not (is_empty v)) (map normalize_text variants)

  -- MATCH, if the query has tokens, or one of the LIKE conditions; no condition if there is neither.
  unfoldable pub is_matched : (tokens : List Text) → CacheRow → Bool
  is_matched tokens row = any_clause patterns tokens normalized_variants row

  -- `lex` of a row.
  unfoldable pub row_score : CacheRow → N
  row_score row =
      let lex = best_lexical patterns numbers variants row.memory in
      if contains_one (lower (normalize_text row.memory)) (map lower normalized_variants)
      then max_score numbers lex numbers.containing_score
      else lex

  -- The loop over the rows, which skips those without score.
  unfoldable pub merge_rows : List CacheRow → List (Hit N) → List (Hit N)
  merge_rows [] by_id = by_id
  merge_rows (row ∷ rows) by_id =
      let lex = row_score row in
      merge_rows rows (
        if numbers.at_most lex numbers.nought
        then by_id
        else merge_found (text "lexical") (hit_of row (row_metadata row) lex) by_id)

  -- ORDER BY c.updated_at DESC LIMIT 50
  unfoldable pub lexical_rows : (tokens : List Text) → List CacheRow → List CacheRow
  lexical_rows tokens cache = take 50 (
      sort_by (λ (a b : CacheRow). not (text_lt a.updated_at b.updated_at))
        (select (λ row. is_searched scope row && is_matched tokens row) cache))

  unfoldable pub lexical_candidates :
      (tokens : List Text) → List CacheRow → List (Hit N) → List (Hit N)
  lexical_candidates tokens cache by_id = merge_rows (lexical_rows tokens cache) by_id

  -- `fields` of a task.
  unfoldable pub matched_fields_of : (subject : Text) → TaskContext → List Text
  matched_fields_of subject task =
      (if task_subject_matches patterns task.title subject then text "task_title" ∷ [] else [])
      ++ (if any_matches patterns subject task.aliases then text "task_aliases" ∷ [] else [])

  -- `matched_task_fields`
  unfoldable pub matched_task_fields :
      (subject : Text) → List (Text × TaskContext) → List (Text × List Text)
  matched_task_fields subject [] = []
  matched_task_fields subject ((task_id, task) ∷ tasks) =
      let rest = matched_task_fields subject tasks in
      elim (matched_fields_of subject task) [ [] ↦ rest | f ∷ fs ↦ (task_id, f ∷ fs) ∷ rest ]

  -- `matched_task_fields.get(task_id, set())`
  unfoldable pub fields_of_task : Text → List (Text × List Text) → List Text
  fields_of_task task_id [] = []
  fields_of_task task_id ((id, fields) ∷ tasks) =
      if id == task_id then fields else fields_of_task task_id tasks

  -- The statement on the memories of the tasks. It does not ask for `run_id`, `agent_id` or the status.
  unfoldable pub is_task_row : List (Text × List Text) → CacheRow → Bool
  is_task_row tasks row =
      column_in row.task_id (map (λ (task : Text × List Text). task.0) tasks)
      && (matches_if_given scope.owner.user_id row.user_id && in_filters scope.filters row)

  unfoldable pub merge_task_rows :
      (subject : Text) → List (Text × List Text) → List CacheRow → List (Hit N) → List (Hit N)
  merge_task_rows subject tasks [] by_id = by_id
  merge_task_rows subject tasks (row ∷ rows) by_id = merge_task_rows subject tasks rows (
      merge_search_candidate numbers
        (hit_of row (task_row_metadata row) (max_score numbers numbers.nought numbers.task_score))
        (text "metadata")
        (unite (fields_of_task (or_empty row.task_id) tasks)
          (matched_filter_fields (task_row_metadata row) scope.filters))
        (subject ∷ []) by_id)

  unfoldable pub task_candidates :
      (subject : Text) → List (Text × TaskContext) → List CacheRow → List (Hit N) → List (Hit N)
  task_candidates subject context cache by_id =
      let tasks = matched_task_fields subject context in
      elim tasks [
        | [] ↦ by_id
        | t ∷ ts ↦ merge_task_rows subject (t ∷ ts) (select (is_task_row (t ∷ ts)) cache) by_id
      ]
