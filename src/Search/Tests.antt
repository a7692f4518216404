-- ===== src/Search/Tests.antt =====
-- Searches in the small cache of Samples.
use automem.Search.Samples.{patterns, numbers, leb-IsOrder, score, tables, remembered, index, q}
use automem.Common.{ℕ, ◌≡◌, refl, [], ◌∷◌, select, sort_by, sort_insert, first, update, map}
use automem.Text.{text, ◌==◌, elem, lower, text_lt, contains, starts_with}
use automem.Text.Normalize.{normalize_text}
use automem.Text.Groups.{key_eq}
use automem.Http.{ok}
use automem.Cache.Facts.{normalize_fact_status, contains_any, long_term_status_from_metadata}
use automem.Tasks.Rows.{fetch_task_search_context}
use automem.Search.{Hit}
use automem.Search.Queries.{
  is_history_query, classify_query_intent, topic_profile, profile_of, intent_of, domain_of,
  exact_terms, extend_variants, preferred_of, penalized_of,
}
use automem.Search.Candidates.{
  merge_search_candidate, add_match, new_candidate, unite, max_score, matched_filter_fields,
  finalize_search_result,
}
use automem.Search.Rank.{
  rerank_results, take_distinct, has_result_key, result_key, lexical_score, best_lexical, best_from,
  overlap_of,
}
use automem.Search.Sources.{
  semantic_candidates, passes_filters, merge_all, merge_found, lexical_candidates, lexical_rows,
  is_searched, in_filters, is_matched, any_clause, any_like, merge_rows, row_score, contains_one,
}
use automem.Search.Ranking.{IsRanking, scores_above-IsOrder}
use automem.Search.Bounds.{hits_of, hybrid_search-IsRanking}
use automem.Search.Within.{profile_for}
use automem.Search.Hybrid.{
  SearchReply, answer, hybrid_search, has_identity_scope, is_given, reply_of, ranked_results,
  settle, settle_status, collect, scope_of, effective_filters, requested_status, looks_for_task,
  is_about, task_ids_of, task_status, clamp_limit,
}

program : Unit {0}
unfolding ◌==◌ elem lower text_lt contains starts_with normalize_text key_eq select sort_by
    sort_insert first update normalize_fact_status contains_any long_term_status_from_metadata
    fetch_task_search_context is_history_query classify_query_intent topic_profile profile_of
    intent_of domain_of exact_terms extend_variants preferred_of penalized_of merge_search_candidate
    add_match new_candidate unite max_score matched_filter_fields finalize_search_result
    rerank_results take_distinct has_result_key result_key lexical_score best_lexical best_from
    overlap_of semantic_candidates passes_filters merge_all merge_found lexical_candidates
    lexical_rows is_searched in_filters is_matched any_clause any_like merge_rows row_score
    contains_one has_identity_scope is_given reply_of ranked_results settle settle_status collect
    scope_of effective_filters requested_status looks_for_task is_about task_ids_of task_status
    answer hybrid_search
program = tt

abbrev reply : SearchReply ℕ
reply = answer patterns numbers score q (profile_for patterns q) tables (remembered ∷ [])

answered : hybrid_search patterns numbers score index tables q tt ≡ (ok reply, tt)
unfolding hybrid_search has_identity_scope is_given
answered = refl

-- The memories of another user and repeated texts are left out.
shown : map (λ (hit : Hit ℕ). hit.id) (hits_of reply) ≡ text "d" ∷ text "a" ∷ []
unfolding program
shown = refl

hybrid_search-IsRanking_example :
    IsRanking (scores_above-IsOrder numbers leb-IsOrder) (clamp_limit 5) (hits_of reply)
hybrid_search-IsRanking_example =
    hybrid_search-IsRanking patterns numbers score leb-IsOrder index tables q tt tt reply answered
