-- ===== src/Search/Candidates.antt =====
-- What a search finds, by id, with what it matched.
use automem.Common.{
  Bool, Option, none, some, List, [], ◌∷◌, ◌++◌, if◌then◌else◌, map, select, update, first, sort_by,
  not,
}
use automem.Text.{Text, text, ◌==◌, text_lt, elem, is_empty, or_empty}
use automem.Text.Normalize.{normalize_text}
use automem.Metadata.{Metadata, Filters}
use automem.Cache.Facts.{active, long_term_status_from_metadata}
use automem.Cache.Rows.{is_long_term}
use automem.Search.{Numbers, Hit}

-- `set.update`
unfoldable pub unite : List Text → List Text → List Text
unite set [] = set
unite set (t ∷ ts) = unite (if elem t set then set else set ++ t ∷ []) ts

abbrev field_of : Text → Option Text → Option Text → List Text
field_of field none actual = []
field_of field (some expected) actual =
    if normalize_text (or_empty actual) == normalize_text expected then field ∷ [] else []

-- `matched_filter_fields`
unfoldable pub matched_filter_fields : Metadata → Filters → List Text
matched_filter_fields metadata filters =
    field_of (text "project_id") filters.project_id metadata.project_id
    ++ (field_of (text "category") filters.category metadata.category
        ++ (field_of (text "domain") filters.domain metadata.domain
            ++ (field_of (text "task_id") filters.task_id metadata.task_id
                ++ (field_of (text "source_agent") filters.source_agent metadata.source_agent
                    ++ field_of (text "status") filters.status (
                        if is_long_term metadata
                        then some (long_term_status_from_metadata metadata)
                        else metadata.status)))))

-- `_status` of an item that is new.
abbrev pub fact_status_of : Metadata → Text
fact_status_of metadata =
    if is_long_term metadata then long_term_status_from_metadata metadata else active

module _ {N : Type 0} (numbers : Numbers N) where
  unfoldable pub max_score : N → N → N
  max_score a b = if numbers.at_most a b then b else a

  abbrev pub hit_has_id : Text → Hit N → Bool
  hit_has_id id hit = hit.id == id

  -- What a match adds to an item.
  unfoldable pub add_match : Text → List Text → List Text → Hit N → Hit N
  add_match matched_by matched_fields matched_terms hit = record hit {
    matched_by = unite hit.matched_by (matched_by ∷ []);
    matched_fields = unite hit.matched_fields matched_fields;
    matched_terms =
        unite hit.matched_terms
          (select (λ term. not (is_empty term)) (map normalize_text matched_terms));
  }

  unfoldable pub new_candidate : Hit N → Hit N
  new_candidate item = record item {
    matched_by = [];
    matched_fields = [];
    matched_terms = [];
    status = fact_status_of item.metadata;
  }

  -- `merge_search_candidate`. An item that is there keeps what it holds, with the greater of the scores.
  unfoldable pub merge_search_candidate :
      Hit N → Text → List Text → List Text → List (Hit N) → List (Hit N)
  merge_search_candidate item matched_by matched_fields matched_terms by_id =
      if is_empty item.id then by_id else elim (first (hit_has_id item.id) by_id) [
        | none ↦
            by_id ++ add_match matched_by matched_fields matched_terms (new_candidate item) ∷ []
        | some existing ↦
            update (hit_has_id item.id)
              (λ hit.
                add_match matched_by matched_fields matched_terms
                  (record hit { score = max_score hit.score item.score }))
              by_id
      ]

-- The part of a result that explains it.
pub record Explainability : Type 0 where
  pub matched_by : List Text
  pub matched_fields : List Text
  pub matched_terms : List Text
  pub source_memory_id : Text
  pub status : Text
  pub fact_key : Option Text
  pub valid_from : Option Text
  pub valid_to : Option Text
  pub supersedes : List Text
  pub superseded_by : Option Text
  pub conflict_status : Option Text
  pub review_status : Option Text

pub record SearchResult (N : Type 0) : Type 0 where
  pub hit : Hit N
  pub source_memory_id : Text
  pub matched_by : List Text
  pub matched_fields : List Text
  pub status : Text
  pub explainability : Explainability

-- `sorted` on a set of strings.
abbrev pub sorted_texts : List Text → List Text
sorted_texts = sort_by λ a b. not (text_lt b a)

unfoldable pub finalize_search_result : {N : Type 0} → Hit N → SearchResult N
finalize_search_result hit =
    let status = if is_empty hit.status then active else hit.status in
    record {
      hit = hit;
      source_memory_id = hit.id;
      matched_by = sorted_texts hit.matched_by;
      matched_fields = sorted_texts hit.matched_fields;
      status = status;
      explainability = record {
        matched_by = sorted_texts hit.matched_by;
        matched_fields = sorted_texts hit.matched_fields;
        matched_terms = sorted_texts hit.matched_terms;
        source_memory_id = hit.id;
        status = status;
        fact_key = hit.metadata.fact_key;
        valid_from = hit.metadata.valid_from;
        valid_to = hit.metadata.valid_to;
        supersedes = elim hit.metadata.supersedes [ none ↦ [] | some ids ↦ ids ];
        superseded_by = hit.metadata.superseded_by;
        conflict_status = hit.metadata.conflict_status;
        review_status = hit.metadata.review_status;
      };
    }
