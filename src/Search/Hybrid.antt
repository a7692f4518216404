-- ===== src/Search/Hybrid.antt =====
-- `hybrid_search`, and the endpoint that runs it (backend/routers/memories.py).
use automem.Common.{
  ℕ, Bool, true, false, not, ◌&&◌, ◌||◌, Option, none, some, List, [], ◌∷◌, if◌then◌else◌, map,
  select, length, max, min,
}
use automem.Text.{Text, text, ◌==◌, elem, is_empty, truthy, or_empty}
use automem.Text.Normalize.{normalize_text}
use automem.Http.{Result, ok, err}
use automem.Metadata.{Filters}
use automem.Cache.{CacheRow}
use automem.Cache.Facts.{active, normalize_fact_status}
use automem.Cache.Rows.{Owner}
use automem.Tasks.{Task}
use automem.Tasks.Rows.{TaskContext, fetch_task_search_context}
use automem.Search.{Patterns, Profile, Intent, task_lookup, Numbers, Hit, SearchQuery}
use automem.Search.Queries.{is_history_query, classify_query_intent, build_vector_query}
use automem.Search.Candidates.{SearchResult, fact_status_of, finalize_search_result}
use automem.Search.Rank.{rerank_results}
use automem.Search.Sources.{
  Scope, semantic_candidates, lexical_candidates, task_candidates, task_subject_matches,
}

pub data Mode : Type 0 where
  hybrid cache_only : Mode

-- `meta`, with the counts of `hybrid_sources`.
pub record SearchMeta : Type 0 where
  pub candidate_count : ℕ
  pub limit : ℕ
  pub mode : Mode
  pub intent : Intent
  pub effective_domain : Text
  pub history_mode : Bool
  pub semantic : ℕ
  pub lexical : ℕ
  pub metadata : ℕ

pub record SearchReply (N : Type 0) : Type 0 where
  pub results : List (SearchResult N)
  pub meta : SearchMeta

-- The search of mem0, whose state is of the type `S`. Its items hold no matches.
pub record Index (N S : Type 0) : Type 0 where
  pub search : (query : Text) → Owner → Filters → S → Result (List (Hit N)) × S

-- The tables that a search reads.
pub record Tables : Type 0 where
  pub cache : List CacheRow
  pub tasks : List Task

-- `effective_filters`
unfoldable pub effective_filters : Profile → Filters → Filters
effective_filters profile filters =
    if not (is_empty profile.effective_domain) && not (truthy filters.domain)
    then record filters { domain = some profile.effective_domain }
    else filters

unfoldable pub requested_status : Filters → Text
requested_status filters =
    if truthy filters.status then normalize_fact_status filters.status [] else []

unfoldable pub scope_of : SearchQuery → Profile → Scope
scope_of q profile =
    let requested = requested_status q.filters in
    record {
      owner = q.owner;
      filters = effective_filters profile q.filters;
      requested_status = requested;
      history_mode =
          if not (is_empty requested) && not (requested == active)
          then true
          else (q.include_history || is_history_query q.query);
    }

unfoldable pub is_given : Option Text → Bool
is_given none = false
is_given (some t) = true

unfoldable pub has_identity_scope : Owner → Bool
has_identity_scope owner =
    is_given owner.user_id || (is_given owner.run_id || is_given owner.agent_id)

unfoldable pub mode_of : Owner → Mode
mode_of owner = if has_identity_scope owner then hybrid else cache_only

-- `max(1, min(limit, 50))`
abbrev pub clamp_limit : ℕ → ℕ
clamp_limit limit = max 1 (min limit 50)

-- The status of a candidate: that of its task, if the task is found.
unfoldable pub task_status : Text → List (Text × TaskContext) → Option Text
task_status task_id [] = none
task_status task_id ((id, task) ∷ tasks) =
    if id == task_id then some task.status else task_status task_id tasks

unfoldable pub settle_status : {N : Type 0} → List (Text × TaskContext) → Hit N → Hit N
settle_status context hit =
    if truthy hit.metadata.task_id
    then record hit {
      status = elim (task_status (or_empty hit.metadata.task_id) context) [
        | some status ↦ status
        | none ↦ fact_status_of hit.metadata
      ];
    }
    else record hit { status = fact_status_of hit.metadata }

-- The ids of the tasks of the candidates.
unfoldable pub task_ids_of : {N : Type 0} → List (Hit N) → List Text
task_ids_of [] = []
task_ids_of (hit ∷ hits) =
    let rest = task_ids_of hits in
    if truthy hit.metadata.task_id then or_empty hit.metadata.task_id ∷ rest else rest

-- How many results name a source.
unfoldable pub source_count : {N : Type 0} → Text → List (SearchResult N) → ℕ
source_count {N} source results =
    length (select (λ (result : SearchResult N). elem source result.matched_by) results)

module _ {N : Type 0} (patterns : Patterns) (numbers : Numbers N)
    (final_score : Profile → Text → Hit N → N) where
  -- `profile.get("intent") == "task_lookup" and task_subject`
  unfoldable pub looks_for_task : Profile → Bool
  looks_for_task profile = elim profile.intent [
    | task_lookup ↦ not (is_empty (normalize_text profile.task_subject))
    | _ ↦ false
  ]

  -- `by_id` behind the three sources, where `found` is what mem0 returned.
  unfoldable pub collect : SearchQuery → Profile → Tables → (found : List (Hit N)) → List (Hit N)
  collect q profile tables found =
      let scope = scope_of q profile in
      let variants : List Text = elim profile.query_variants [
        | [] ↦ normalize_text q.query ∷ []
        | v ∷ vs ↦ v ∷ vs
      ] in
      let by_id =
        lexical_candidates patterns numbers scope variants (patterns.task_tokens q.query)
          tables.cache (semantic_candidates patterns numbers scope profile.query_variants found) in
      if looks_for_task profile
      then task_candidates patterns numbers scope variants (normalize_text profile.task_subject)
          (fetch_task_search_context q.owner.user_id scope.filters.project_id [] tables.tasks)
          tables.cache by_id
      else by_id

  unfoldable pub settle : SearchQuery → Profile → Tables → List (Hit N) → List (Hit N)
  settle q profile tables by_id =
      map
        (settle_status (
          fetch_task_search_context q.owner.user_id (scope_of q profile).filters.project_id
            (task_ids_of by_id) tables.tasks))
        by_id

  -- The last filter of a search for a task.
  unfoldable pub is_about : Profile → Hit N → Bool
  is_about profile hit =
      if looks_for_task profile
      then task_subject_matches patterns hit.memory (normalize_text profile.task_subject)
        || (elem (text "task_title") hit.matched_fields
            || elem (text "task_aliases") hit.matched_fields)
      else true

  unfoldable pub ranked_results : SearchQuery → Profile → List (Hit N) → List (Hit N)
  ranked_results q profile by_id =
      select (is_about profile)
        (rerank_results numbers (final_score profile q.query) (clamp_limit q.limit) by_id)

  unfoldable pub reply_of : SearchQuery → Profile → List (Hit N) → SearchReply N
  reply_of q profile by_id =
      let results = map finalize_search_result (ranked_results q profile by_id) in
      record {
        results = results;
        meta = record {
          candidate_count = length by_id;
          limit = clamp_limit q.limit;
          mode = mode_of q.owner;
          intent = profile.intent;
          effective_domain = profile.effective_domain;
          history_mode = (scope_of q profile).history_mode;
          semantic = source_count (text "semantic") results;
          lexical = source_count (text "lexical") results;
          metadata = source_count (text "metadata") results;
        };
      }

  -- The candidates and the reply, where `found` is what mem0 returned.
  unfoldable pub answer : SearchQuery → Profile → Tables → (found : List (Hit N)) → SearchReply N
  answer q profile tables found =
      reply_of q profile (settle q profile tables (collect q profile tables found))

  -- Without an identity mem0 is not asked.
  unfoldable pub hybrid_search :
      {S : Type 0} → Index N S → Tables → SearchQuery → S → Result (SearchReply N) × S
  hybrid_search index tables q held =
      let profile = classify_query_intent patterns q.query q.filters in
      if has_identity_scope q.owner
      then (let (r, held') =
            index.search (build_vector_query q.query profile) q.owner
              (effective_filters profile q.filters) held in
          (elim r [ err e ↦ err e | ok found ↦ ok (answer q profile tables found) ], held'))
      else (ok (answer q profile tables []), held)
