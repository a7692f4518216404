-- ===== src/Search/Merging.antt =====
-- What holds of all that is merged holds of all candidates, and each id is a candidate once.
use automem.Common.{
  ◌≡◌, ◌≢◌, refl, false, Bool-cases, Option-cases, inl, inr, List, [], ◌∷◌, All, All-append,
  All-map_of, All-update, UniqueBy, UniqueBy-update, UniqueBy-append_one, first, first-none, arith,
}
use automem.Text.{Text, text, is_empty, eq_refl}
use automem.Metadata.{Metadata}
use automem.Cache.{CacheRow}
use automem.Cache.Rows.{Owner}
use automem.Search.{Patterns, Numbers, Hit}
use automem.Search.Candidates.{
  merge_search_candidate, add_match, new_candidate, hit_has_id, matched_filter_fields,
}
use automem.Search.Sources.{
  text_and, Scope, merge_found, merge_all, merge_rows, merge_task_rows, hit_of, row_metadata,
  task_row_metadata, row_score,
}

-- The parts of a hit that no merge changes.
abbrev pub OnCore : {N : Type 0} → (Text → Owner → Metadata → Type 0) → Hit N → Type 0
OnCore Q hit = Q hit.id hit.owner hit.metadata

-- Every candidate satisfies `Q`, and no two have the same id.
pub record AreMerged {N : Type 0} (Q : Text → Owner → Metadata → Type 0) (by_id : List (Hit N))
    : Type 0 where
  pub all : All (OnCore Q) by_id
  pub unique : UniqueBy (λ (hit : Hit N). hit.id) by_id

module _ {N : Type 0} (numbers : Numbers N) (Q : Text → Owner → Metadata → Type 0) where
  merge-AreMerged :
      (item : Hit N) (by : Text) (fields terms : List Text) (by_id : List (Hit N))
      → OnCore Q item
      → AreMerged Q by_id
      → AreMerged Q (merge_search_candidate numbers item by fields terms by_id)
  unfolding merge_search_candidate add_match new_candidate
  merge-AreMerged item by fields terms by_id q h = elim (Bool-cases (is_empty item.id)) [
    | inl e ↦ rw e h
    | inr e ↦ elim (Option-cases (first (hit_has_id numbers item.id) by_id)) [
      | inl n ↦
          rw (e, n, merge_search_candidate)
            (record {
              all = All-append _ by_id _ h.all (q, tt);
              unique = UniqueBy-append_one _ by_id _ h.unique (
                  All-map_of (λ (hit : Hit N). hit_has_id numbers item.id hit ≡ false)
                    (λ (hit : Hit N). hit.id ≢ item.id)
                    (λ (hit : Hit N) f same. ground (arith, f, same, eq_refl item.id)) by_id
                    (first-none _ by_id n));
            })
      | inr (old, s) ↦
          rw (e, s, merge_search_candidate)
            (record {
              all = All-update (OnCore Q) _ _ (λ hit t k. k) by_id h.all;
              unique = UniqueBy-update _ _ _ (λ hit t. refl) by_id h.unique;
            })
    ]
  ]

  module _ (patterns : Patterns) (scope : Scope) (variants : List Text) where
    merge_found-AreMerged :
        (by : Text) (item : Hit N) (by_id : List (Hit N))
        → OnCore Q item
        → AreMerged Q by_id
        → AreMerged Q (merge_found patterns numbers scope variants by item by_id)
    unfolding merge_found
    merge_found-AreMerged by item by_id q h =
        twice (matched_filter_fields item.metadata scope.filters)
      where
        twice :
            (fields : List Text)
            → AreMerged Q (elim fields [
              | [] ↦
                  merge_search_candidate numbers item by
                    (text_and patterns numbers scope variants
                      (matched_filter_fields item.metadata scope.filters))
                    variants
                    by_id
              | f ∷ fs ↦ merge_search_candidate numbers item (text "metadata") (f ∷ fs) [] (
                  merge_search_candidate numbers item by
                    (text_and patterns numbers scope variants
                      (matched_filter_fields item.metadata scope.filters))
                    variants
                    by_id)
            ])
        twice [] = merge-AreMerged item by _ variants by_id q h
        twice (f ∷ fs) =
            merge-AreMerged item (text "metadata") (f ∷ fs) [] _ q
              (merge-AreMerged item by _ variants by_id q h)

    pub merge_all-AreMerged :
        (by : Text) (items by_id : List (Hit N))
        → All (OnCore Q) items
        → AreMerged Q by_id
        → AreMerged Q (merge_all patterns numbers scope variants by items by_id)
    unfolding merge_all
    merge_all-AreMerged by [] by_id q h = h
    merge_all-AreMerged by (item ∷ items) by_id q h =
        merge_all-AreMerged by items _ q.1 (merge_found-AreMerged by item by_id q.0 h)

    pub merge_rows-AreMerged :
        (rows : List CacheRow) (by_id : List (Hit N))
        → All (λ (row : CacheRow). OnCore Q (hit_of row (row_metadata row) numbers.nought)) rows
        → AreMerged Q by_id
        → AreMerged Q (merge_rows patterns numbers scope variants rows by_id)
    unfolding merge_rows
    merge_rows-AreMerged [] by_id q h = h
    merge_rows-AreMerged (row ∷ rows) by_id q h =
        elim (Bool-cases
          (numbers.at_most (row_score patterns numbers scope variants row) numbers.nought)) [
            | inl e ↦ rw (e, merge_rows) (merge_rows-AreMerged rows by_id q.1 h)
            | inr e ↦
                rw (e, merge_rows)
                  (merge_rows-AreMerged rows _ q.1 (merge_found-AreMerged _ _ by_id q.0 h))
          ]

    pub merge_task_rows-AreMerged :
        (subject : Text) (tasks : List (Text × List Text)) (rows : List CacheRow)
        (by_id : List (Hit N))
        → All
            (λ (row : CacheRow). OnCore Q (hit_of row (task_row_metadata row) numbers.nought))
            rows
        → AreMerged Q by_id
        → AreMerged Q (merge_task_rows patterns numbers scope variants subject tasks rows by_id)
    unfolding merge_task_rows
    merge_task_rows-AreMerged subject tasks [] by_id q h = h
    merge_task_rows-AreMerged subject tasks (row ∷ rows) by_id q h =
        merge_task_rows-AreMerged subject tasks rows _ q.1 (merge-AreMerged _ _ _ _ by_id q.0 h)
