-- ===== src/Search/Collected.antt =====
-- The candidates of a search, by where they come from.
use automem.Search.Hybrid.{looks_for_task, scope_of, Tables, collect}
use automem.Common.{
  inr, inl, Bool-cases, ◌≡◌, true, List, [], ◌∷◌, All, All-map_of, All-take, All-select_test,
  select, arith,
}
use automem.Common.Sorting.{All-sort_by}
use automem.Text.{Text}
use automem.Metadata.{Metadata}
use automem.Cache.{CacheRow}
use automem.Cache.Rows.{Owner}
use automem.Tasks.Rows.{TaskContext}
use automem.Search.{Profile, SearchQuery, Patterns, Numbers, Hit}
use automem.Search.Sources.{
  merge_task_rows, Scope, passes_filters, is_searched, is_task_row, lexical_rows,
  lexical_candidates, semantic_candidates, task_candidates, matched_task_fields, hit_of,
  row_metadata, task_row_metadata,
}
use automem.Search.Merging.{
  OnCore, AreMerged, merge_all-AreMerged, merge_rows-AreMerged, merge_task_rows-AreMerged,
}

module _ {N : Type 0} (patterns : Patterns) (numbers : Numbers N)
    (Q : Text → Owner → Metadata → Type 0) where
  module _ (scope : Scope) (variants : List Text) where
    semantic-AreMerged :
        (found : List (Hit N))
        → All (OnCore Q) (select (λ (item : Hit N). passes_filters scope item.metadata) found)
        → AreMerged Q (semantic_candidates patterns numbers scope variants found)
    unfolding semantic_candidates
    semantic-AreMerged found h =
        merge_all-AreMerged numbers Q patterns scope variants _ _ [] h
          (record { all = tt; unique = tt })

    lexical-AreMerged :
        (tokens : List Text) (cache : List CacheRow) (by_id : List (Hit N))
        → ((row : CacheRow)
            → is_searched scope row ≡ true
            → OnCore Q (hit_of row (row_metadata row) numbers.nought))
        → AreMerged Q by_id
        → AreMerged Q (lexical_candidates patterns numbers scope variants tokens cache by_id)
    unfolding lexical_candidates lexical_rows
    lexical-AreMerged tokens cache by_id rows h =
        merge_rows-AreMerged numbers Q patterns scope variants _ by_id
          (All-take _ 50 _ (
            All-sort_by _ _ _
              (All-map_of _ _ (λ row e. rows row (ground (arith, e))) _ (All-select_test _ cache))))
          h

    task-AreMerged :
        (subject : Text) (context : List (Text × TaskContext)) (cache : List CacheRow)
        (by_id : List (Hit N))
        → ((row : CacheRow) (tasks : List (Text × List Text))
            → is_task_row patterns numbers scope variants tasks row ≡ true
            → OnCore Q (hit_of row (task_row_metadata row) numbers.nought))
        → AreMerged Q by_id
        → AreMerged Q (task_candidates patterns numbers scope variants subject context cache by_id)
    unfolding task_candidates
    task-AreMerged subject context cache by_id rows h =
        split (matched_task_fields patterns numbers scope variants subject context)
      where
        split :
            (tasks : List (Text × List Text))
            → AreMerged Q (elim tasks [
              | [] ↦ by_id
              | t ∷ ts ↦
                  merge_task_rows patterns numbers scope variants subject
                    (t ∷ ts)
                    (select (is_task_row patterns numbers scope variants (t ∷ ts)) cache)
                    by_id
            ])
        split [] = h
        split (t ∷ ts) =
            merge_task_rows-AreMerged numbers Q patterns scope variants subject (t ∷ ts) _ by_id
              (All-map_of _ _ (λ row e. rows row (t ∷ ts) e) _ (All-select_test _ cache)) h

  -- What holds of all that the sources give holds of all candidates.
  pub collect-AreMerged :
      (q : SearchQuery) (profile : Profile) (tables : Tables) (found : List (Hit N))
      (final_score : Profile → Text → Hit N → N)
      → All
          (OnCore Q)
          (select (λ (item : Hit N). passes_filters (scope_of q profile) item.metadata) found)
      → ((row : CacheRow)
          → is_searched (scope_of q profile) row ≡ true
          → OnCore Q (hit_of row (row_metadata row) numbers.nought))
      → ((row : CacheRow) (variants : List Text) (tasks : List (Text × List Text))
          → is_task_row patterns numbers (scope_of q profile) variants tasks row ≡ true
          → OnCore Q (hit_of row (task_row_metadata row) numbers.nought))
      → AreMerged Q (collect patterns numbers final_score q profile tables found)
  unfolding collect
  collect-AreMerged q profile tables found final_score admitted rows task_rows =
      elim (Bool-cases (looks_for_task patterns numbers final_score profile)) [
        | inl e ↦
            rw (e, collect)
              (task-AreMerged (scope_of q profile) _ _ _ tables.cache _
                (λ row tasks. task_rows row _ tasks)
                (lexical-AreMerged (scope_of q profile) _ _ tables.cache _ rows
                  (semantic-AreMerged (scope_of q profile) _ found admitted)))
        | inr e ↦
            rw (e, collect)
              (lexical-AreMerged (scope_of q profile) _ _ tables.cache _ rows
                (semantic-AreMerged (scope_of q profile) _ found admitted))
      ]
