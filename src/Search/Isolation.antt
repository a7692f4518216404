-- ===== src/Search/Isolation.antt =====
-- Every result of a search is in its scope.
use automem.Common.{
  Bool-cases, ◌≡◌, refl, sym, subst, inl, inr, List, [], ◌∷◌, All, All-map_of, All-select,
  All-select_test, All-zip, arith, map,
}
use automem.Text.{truthy, Text}
use automem.Http.{ok}
use automem.Metadata.{Filters}
use automem.Tasks.Rows.{TaskContext}
use automem.Search.{Patterns, Profile, Numbers, Hit, SearchQuery}
use automem.Search.Sources.{is_searched, is_task_row, row_metadata, task_row_metadata}
use automem.Search.Ranking.{All-rerank_results}
use automem.Search.Merging.{OnCore, AreMerged}
use automem.Search.Collected.{collect-AreMerged}
use automem.Search.Answers.{answered}
use automem.Search.Bounds.{hits_of, hits-finalized}
use automem.Search.Within.{
  profile_for, IsInScope, IsOfUser, in_filters-IsInScope, admitted-IsInScope,
}
use automem.Search.Hybrid.{
  Index, Tables, SearchReply, scope_of, settle, settle_status, ranked_results, reply_of, answer,
  hybrid_search, collect,
}

module _ {N : Type 0} (patterns : Patterns) (numbers : Numbers N)
    (final_score : Profile → Text → Hit N → N) (q : SearchQuery) where
  abbrev InScope : Hit N → Type 0
  InScope = OnCore (IsInScope patterns q)

  collect-InScope :
      (tables : Tables) (found : List (Hit N))
      → All (λ (hit : Hit N). IsOfUser patterns q hit) found
      → AreMerged
          (IsInScope patterns q)
          (collect patterns numbers final_score q (profile_for patterns q) tables found)
  unfolding is_searched is_task_row scope_of
  collect-InScope tables found own =
      collect-AreMerged patterns numbers (IsInScope patterns q) q (profile_for patterns q) tables
        found final_score
        (All-map_of _ _ (λ (hit : Hit N) both. admitted-IsInScope patterns q hit both.0 both.1) _
          (All-zip _ _ _ (All-select _ _ found own) (All-select_test _ found)))
        (λ row e.
          in_filters-IsInScope patterns q row (row_metadata row) refl refl refl (ground (arith, e))
            (ground (arith, e)))
        (λ row variants tasks e.
          in_filters-IsInScope patterns q row (task_row_metadata row) refl refl refl
            (ground (arith, e)) (ground (arith, e)))

  settled-InScope :
      (context : List (Text × TaskContext)) (hits : List (Hit N))
      → All InScope hits
      → All InScope (map (settle_status context) hits)
  unfolding settle_status
  settled-InScope context [] h = tt
  settled-InScope context (hit ∷ hits) h = (settled hit h.0, settled-InScope context hits h.1)
    where
      settled :
          (one : Hit N)
          → OnCore (IsInScope patterns q) one
          → OnCore (IsInScope patterns q) (settle_status context one)
      settled one k = elim (Bool-cases (truthy one.metadata.task_id)) [
        | inl e ↦ rw (e, settle_status) k
        | inr e ↦ rw (e, settle_status) k
      ]

  answer-InScope :
      (tables : Tables) (found : List (Hit N))
      → All (λ (hit : Hit N). IsOfUser patterns q hit) found
      → All InScope
          (hits_of (answer patterns numbers final_score q (profile_for patterns q) tables found))
  unfolding answer reply_of ranked_results settle
  answer-InScope tables found own = subst (All InScope) (sym (hits-finalized _)) (
      All-select _ _ _ (
        All-rerank_results numbers (final_score (profile_for patterns q) q.query) InScope _ _
          (λ hit k. k) (settled-InScope _ _ (collect-InScope tables found own).all)))

  -- If mem0, asked for the memories of a user, returns only those: every result of a search that succeeds
  -- is of the user that is asked for, if one is; of the project and the category that are asked for, if
  -- they are not empty; and of the effective domain.
  pub hybrid_search-IsInScope :
      {S : Type 0} (index : Index N S) (tables : Tables) (held held' : S) (reply : SearchReply N)
      → ((query : Text) (filters : Filters) (found : List (Hit N)) (s s' : S)
          → index.search query q.owner filters s ≡ (ok found, s')
          → All (λ (hit : Hit N). IsOfUser patterns q hit) found)
      → hybrid_search patterns numbers final_score index tables q held ≡ (ok reply, held')
      → All (λ (hit : Hit N). IsInScope patterns q hit.id hit.owner hit.metadata) (hits_of reply)
  hybrid_search-IsInScope index tables held held' reply own e =
      let (found, same, source) =
        answered patterns numbers final_score index tables q held held' reply e in
      let found_own : All (λ (hit : Hit N). IsOfUser patterns q hit) found = elim source [
        | inl nothing ↦ subst (All (λ (hit : Hit N). IsOfUser patterns q hit)) (sym nothing) tt
        | inr asked ↦ own _ _ found held held' asked
      ] in
      subst (λ r. All InScope (hits_of r)) (sym same) (answer-InScope tables found found_own)
