-- ===== src/Search/Answers.antt =====
-- A search that succeeds answers what it found in mem0, if it asked.
use automem.Common.{◌≡◌, refl, ◌⊎◌, inl, inr, Bool-cases, List, []}
use automem.Text.{Text}
use automem.Http.{Result, ok, err}
use automem.Search.{Patterns, Profile, Numbers, Hit, SearchQuery}
use automem.Search.Queries.{classify_query_intent, build_vector_query}
use automem.Search.Hybrid.{
  Index, Tables, SearchReply, answer, hybrid_search, has_identity_scope, effective_filters,
}

module _ {N S : Type 0} (patterns : Patterns) (numbers : Numbers N)
    (final_score : Profile → Text → Hit N → N) (index : Index N S) (tables : Tables)
    (q : SearchQuery) (held held' : S) (reply : SearchReply N) where
  abbrev profile : Profile
  profile = classify_query_intent patterns q.query q.filters

  pub answered :
      hybrid_search patterns numbers final_score index tables q held ≡ (ok reply, held')
      → (found : List (Hit N)) × (reply
          ≡ answer patterns numbers final_score q profile tables found)
        × ((found ≡ [])
            ⊎ (index.search
                  (build_vector_query q.query profile)
                  q.owner
                  (effective_filters profile q.filters)
                  held
                ≡ (ok found, held')))
  unfolding hybrid_search
  answered e = elim (Bool-cases (has_identity_scope q.owner)) [
    | inr out ↦ ([], cc, inl refl)
    | inl asked ↦ of_found _ refl (rw asked at e)
  ]
    where
      of_found :
          (r : Result (List (Hit N)) × S)
          → index.search
              (build_vector_query q.query profile)
              q.owner
              (effective_filters profile q.filters)
              held
            ≡ r
          → ◌≡◌ {A = Result (SearchReply N) × S}
              (
                elim r.0 [
                  | err f ↦ err f
                  | ok found ↦ ok (answer patterns numbers final_score q profile tables found)
                ],
                r.1,
              )
              (ok reply, held')
          → (found : List (Hit N)) × (reply
              ≡ answer patterns numbers final_score q profile tables found)
            × ((found ≡ [])
                ⊎ (index.search
                      (build_vector_query q.query profile)
                      q.owner
                      (effective_filters profile q.filters)
                      held
                    ≡ (ok found, held')))
      of_found (err f, h) s e' = absurd (cc)
      of_found (ok found, h) s e' = (found, cc, inr cc)
