-- ===== src/Search/Bounds.antt =====
-- What a search answers is a short ranking without repetitions.
use automem.Common.{
  sym, ap, ◌≤◌, ◌≡◌, ◌≢◌, refl, subst, Bool, Bool-cases, inl, inr, List, [], ◌∷◌, All, All-select,
  UniqueBy, UniqueBy-select, arith, length, map, select,
}
use automem.Common.Sorting.{IsOrder, IsSorted}
use automem.Text.{Text}
use automem.Http.{ok}
use automem.Tasks.Rows.{TaskContext}
use automem.Search.{Patterns, Profile, Numbers, Hit, SearchQuery}
use automem.Search.Candidates.{SearchResult, finalize_search_result}
use automem.Search.Rank.{rerank_results}
use automem.Search.Ranking.{IsRanking, scores_above-IsOrder, rerank_results-IsRanking}
use automem.Search.Merging.{AreMerged}
use automem.Search.Collected.{collect-AreMerged}
use automem.Search.Answers.{answered}
use automem.Search.Queries.{classify_query_intent}
use automem.Search.Hybrid.{
  Index, Tables, SearchReply, clamp_limit, settle, settle_status, ranked_results, reply_of, answer,
  hybrid_search, collect, is_about,
}

module _ {ℓ} {A : Type ℓ} (q : A → Bool) where
  length-select_le : (xs : List A) → length (select q xs) ≤ length xs
  unfolding select
  length-select_le [] = omega arith
  length-select_le (x ∷ xs) = ground (arith, length-select_le xs)

  select-IsSorted :
      {le : A → A → Bool} (order : IsOrder le) (xs : List A)
      → IsSorted order xs
      → IsSorted order (select q xs)
  unfolding select
  select-IsSorted order [] s = tt
  select-IsSorted order (x ∷ xs) s = elim (Bool-cases (q x)) [
    | inl e ↦ rw e (All-select _ q xs s.0, select-IsSorted order xs s.1)
    | inr e ↦ rw e (select-IsSorted order xs s.1)
  ]

module _ {N : Type 0} where
  -- The hits of the results.
  abbrev pub hits_of : SearchReply N → List (Hit N)
  hits_of reply = map (λ (result : SearchResult N). result.hit) reply.results

  pub hits-finalized :
      (hits : List (Hit N))
      → map (λ (result : SearchResult N). result.hit) (map finalize_search_result hits) ≡ hits
  unfolding finalize_search_result
  hits-finalized [] = refl
  hits-finalized (hit ∷ hits) = ap (◌∷◌ hit) (hits-finalized hits)

  other_ids :
      (context : List (Text × TaskContext)) (id : Text) (hits : List (Hit N))
      → All (λ (hit : Hit N). hit.id ≢ id) hits
      → All (λ (hit : Hit N). hit.id ≢ id) (map (settle_status context) hits)
  unfolding settle_status
  other_ids context id [] h = tt
  other_ids context id (hit ∷ hits) h = (ground (arith, h.0), other_ids context id hits h.1)

  settle_status-id :
      (context : List (Text × TaskContext)) (hit : Hit N) → (settle_status context hit).id ≡ hit.id
  unfolding settle_status
  settle_status-id context hit = ground arith

  settled-UniqueIds :
      (context : List (Text × TaskContext)) (hits : List (Hit N))
      → UniqueBy (λ (hit : Hit N). hit.id) hits
      → UniqueBy (λ (hit : Hit N). hit.id) (map (settle_status context) hits)
  settled-UniqueIds context [] u = tt
  settled-UniqueIds context (hit ∷ hits) u = (
    subst (λ id. All (λ (other : Hit N). other.id ≢ id) (map (settle_status context) hits))
        (sym (settle_status-id context hit)) (other_ids context hit.id hits u.0),
    settled-UniqueIds context hits u.1,
  )

module _ {N : Type 0} (patterns : Patterns) (numbers : Numbers N)
    (final_score : Profile → Text → Hit N → N) (order : IsOrder numbers.at_most) where
  answer-IsRanking :
      (q : SearchQuery) (profile : Profile) (tables : Tables) (found : List (Hit N))
      → IsRanking
          (scores_above-IsOrder numbers order)
          (clamp_limit q.limit)
          (hits_of (answer patterns numbers final_score q profile tables found))
  unfolding answer reply_of ranked_results settle
  answer-IsRanking q profile tables found =
      let merged : AreMerged (λ id owner metadata. Unit {0})
          (collect patterns numbers final_score q profile tables found) =
        collect-AreMerged patterns numbers (λ id owner metadata. Unit) q profile tables found
          final_score (anything _) (λ row e. tt) (λ row variants tasks e. tt) in
      let ranking =
        rerank_results-IsRanking numbers (final_score profile q.query) order (clamp_limit q.limit) _
          (ground arith) (settled-UniqueIds _ _ merged.unique) in
      subst (IsRanking (scores_above-IsOrder numbers order) (clamp_limit q.limit))
        (sym (hits-finalized _))
        (record {
          few = omega (
            arith,
            ranking.few,
            length-select_le (is_about patterns numbers final_score profile) (
                rerank_results numbers (final_score profile q.query) (clamp_limit q.limit) (
                  settle patterns numbers final_score q profile tables
                    (collect patterns numbers final_score q profile tables found))),
          );
          ids = UniqueBy-select _ _ _ ranking.ids;
          keys = UniqueBy-select _ _ _ ranking.keys;
          sorted = select-IsSorted _ (scores_above-IsOrder numbers order) _ ranking.sorted;
        })
    where
      anything : (hits : List (Hit N)) → All (λ hit. Unit {0}) hits
      anything [] = tt
      anything (hit ∷ hits) = (tt, anything hits)

  -- If the order of the scores is total and transitive: a search that succeeds answers at most
  -- `max(1, min(limit, 50))` results, of which no two have the same id, or the same text in lower case with
  -- the same domain and category, and no result has a greater score than one before it.
  pub hybrid_search-IsRanking :
      {S : Type 0} (index : Index N S) (tables : Tables) (q : SearchQuery) (held held' : S)
      (reply : SearchReply N)
      → hybrid_search patterns numbers final_score index tables q held ≡ (ok reply, held')
      → IsRanking (scores_above-IsOrder numbers order) (clamp_limit q.limit) (hits_of reply)
  hybrid_search-IsRanking index tables q held held' reply e =
      let profile = classify_query_intent patterns q.query q.filters in
      let (found, same, source) =
        answered patterns numbers final_score index tables q held held' reply e in
      subst (λ r. IsRanking (scores_above-IsOrder numbers order) (clamp_limit q.limit) (hits_of r))
        (sym same) (answer-IsRanking q profile tables found)
