-- ===== src/Endpoints/Search/Owned.antt =====
-- Whose memories a search shows.
use automem.Common.{
  ◌≡◌, refl, sym, ap, ◌∙◌, ◌⊎◌, inl, inr, true, false, Bool-cases, Option, none, some, List, [],
  ◌∷◌, All, All-map_of, arith, map,
}
use automem.Text.{Text, ◌==◌, eq_sound, elem, or_empty, truthy}
use automem.Text.Normalize.{normalize_text}
use automem.Text.Normalize.Laws.{normalize_text-IsNormal, normalize_text_fixed}
use automem.Text.Strings.Laws.{elem-clean_strings}
use automem.Http.{Result, Result-cases, ok, err}
use automem.Metadata.{Filters}
use automem.Auth.{
  Auth, enforce_user_identity, enforce_project_identity, normalize_project_ids,
  merge_project_id_into_filters,
}
use automem.Auth.Identity.{enforce_user_identity-ok}
use automem.Cache.Rows.{Owner}
use automem.Search.{Patterns, Profile, Numbers, Hit, SearchQuery}
use automem.Search.Bounds.{hits_of}
use automem.Search.Within.{IsInScope}
use automem.Search.Isolation.{hybrid_search-IsInScope}
use automem.Search.Hybrid.{Index, SearchReply, hybrid_search}
use automem.Endpoints.Memories.{Stamp}
use automem.Endpoints.Owners.{own_project, project_nonempty}
use automem.Endpoints.Search.{
  SearchRequest, SearchServer, check_search, log_search, search_memories,
}

elem-map_normalize :
    (raws : List Text) (t : Text) → elem t (map normalize_text raws) ≡ true → normalize_text t ≡ t
unfolding elem
elem-map_normalize [] t h = cc
elem-map_normalize (raw ∷ raws) t h = elim (Bool-cases (t == normalize_text raw)) [
  | inl e ↦
      let same : t ≡ normalize_text raw = eq_sound t (normalize_text raw) e in
      ap normalize_text same
      ∙ normalize_text_fixed (normalize_text raw) (normalize_text-IsNormal raw)
      ∙ sym same
  | inr e ↦ elem-map_normalize raws t (rw e at h)
]

-- The projects of a key are normalized.
project_normal :
    (raws : List Text) (p : Text)
    → elem p (normalize_project_ids raws) ≡ true
    → normalize_text p ≡ p
unfolding normalize_project_ids
project_normal raws p h = elem-map_normalize raws p (ground (arith, elem-clean_strings raws p, h))

-- The filters name a project of the key.
merged_filter :
    (raws : List Text) (project_id : Option Text) (given merged : Filters)
    → elem (or_empty project_id) (normalize_project_ids raws) ≡ true
    → merge_project_id_into_filters project_id given ≡ ok merged
    → (p : Text) × (merged.project_id ≡ some p) × (elem p (normalize_project_ids raws) ≡ true)
unfolding merge_project_id_into_filters
merged_filter raws none given merged h e = absurd (ground (arith, project_nonempty raws [] h))
merged_filter raws (some p) given merged h e = (p, ground (arith, project_nonempty raws p h, e), h)

-- The user and the projects of a query that a key without administrator's rights may ask.
abbrev pub IsOwnQuery : Auth → SearchQuery → Type 0
IsOwnQuery auth q =
    (u : Text) × (q.owner.user_id ≡ some u)
    × (auth.user_id ≡ some u)
    × ((normalize_project_ids auth.project_ids ≡ [])
        ⊎ ((p : Text) × (q.filters.project_id ≡ some p)
            × (elem p (normalize_project_ids auth.project_ids) ≡ true)))

truthy-some : (o : Option Text) → truthy o ≡ true → (u : Text) × (o ≡ some u)
truthy-some none h = cc
truthy-some (some u) h = (u, refl)

check_search-IsOwnQuery :
    (auth : Auth) (payload : SearchRequest) (q : SearchQuery)
    → auth.is_admin ≡ false
    → check_search auth payload ≡ ok q
    → IsOwnQuery auth q
unfolding check_search
check_search-IsOwnQuery auth payload q h e =
    elim (Result-cases (enforce_user_identity auth payload.user_id)) [
      | inr (fault, refused) ↦ absurd (ground (arith, e, refused))
      | inl (user_id, user) ↦
          elim (Result-cases (enforce_project_identity auth payload.project_id)) [
            | inr (fault, refused) ↦ absurd (ground (arith, e, user, refused))
            | inl (project_id, project) ↦
                elim (Result-cases (merge_project_id_into_filters project_id payload.filters)) [
                  | inr (fault, refused) ↦ absurd (ground (arith, e, user, project, refused))
                  | inl (merged, merge) ↦
                      let same : (q.owner.user_id ≡ user_id) × (q.filters ≡ merged) =
                        ground (arith, e, user, project, merge) in
                      let own = enforce_user_identity-ok auth payload.user_id user_id h user in
                      let (u, named) = truthy-some user_id own.1 in
                      (
                        u,
                        same.0 ∙ named,
                        sym own.0 ∙ named,
                        elim (own_project auth payload.project_id project_id h project) [
                          | inl none_bound ↦ inl none_bound
                          | inr bound ↦
                              let (p, filter, member) =
                                merged_filter auth.project_ids project_id payload.filters merged
                                  bound merge in
                              inr (p, ap (λ (f : Filters). f.project_id) same.1 ∙ filter, member)
                        ],
                      )
                ]
          ]
    ]

-- A result that the key may see.
abbrev pub IsVisible : {N : Type 0} → Auth → Hit N → Type 0
IsVisible auth hit =
    (hit.owner.user_id ≡ auth.user_id)
    × ((normalize_project_ids auth.project_ids ≡ [])
        ⊎ (elem (normalize_text (or_empty hit.metadata.project_id))
              (normalize_project_ids auth.project_ids)
            ≡ true))

in_scope-IsVisible :
    {N : Type 0} (patterns : Patterns) (auth : Auth) (q : SearchQuery)
    → IsOwnQuery auth q
    → (hit : Hit N) → IsInScope patterns q hit.id hit.owner hit.metadata
    → IsVisible auth hit
in_scope-IsVisible patterns auth q (u, asked, bound, projects) hit scope = (
  scope.user u asked ∙ sym bound,
  elim projects [
    | inl none_bound ↦ inl none_bound
    | inr (p, filter, member) ↦ inr (
        rw
          (scope.project p filter (project_nonempty auth.project_ids p member)
            ∙ project_normal auth.project_ids p member)
          member)
  ],
)

module _ {N S : Type 0} (patterns : Patterns) (numbers : Numbers N)
    (final_score : Profile → Text → Hit N → N) (index : Index N S) (stamp : Stamp) where
  -- If mem0, asked for the memories of a user, returns only those: every result that a search shows to a
  -- key without administrator's rights is a memory of the user of the key and, if the key is bound to
  -- projects, names one of them.
  pub search_memories-IsVisible :
      (auth : Auth) (payload : SearchRequest) (w : SearchServer S) (reply : SearchReply N)
      → auth.is_admin ≡ false
      → ((query : Text) (owner : Owner) (filters : Filters) (found : List (Hit N)) (s s' : S)
          → index.search query owner filters s ≡ (ok found, s')
          → All
              (λ (hit : Hit N). (u : Text) → owner.user_id ≡ some u → hit.owner.user_id ≡ some u)
              found)
      → (search_memories patterns numbers final_score index stamp auth payload w).0 ≡ ok reply
      → All (IsVisible auth) (hits_of reply)
  unfolding search_memories log_search
  search_memories-IsVisible auth payload w reply h own e =
      elim (Result-cases (check_search auth payload)) [
        | inr (fault, refused) ↦ absurd (ground (arith, e, refused))
        | inl (q, checked) ↦
            logged q checked (hybrid_search patterns numbers final_score index w.tables q w.held)
              refl (rw (checked, search_memories) at e)
      ]
    where
      logged :
          (q : SearchQuery)
          → check_search auth payload ≡ ok q
          → (r : Result (SearchReply N) × S)
          → hybrid_search patterns numbers final_score index w.tables q w.held ≡ r
          → (log_search patterns numbers final_score index stamp auth q r w).0 ≡ ok reply
          → All (IsVisible auth) (hits_of reply)
      logged q checked (err f, held) s n = absurd (cc)
      logged q checked (ok answer, held) s n =
          let same : answer ≡ reply = cc in
          All-map_of _ _
            (in_scope-IsVisible patterns auth q (check_search-IsOwnQuery auth payload q h checked))
            _
            (hybrid_search-IsInScope patterns numbers final_score q index w.tables w.held held reply
              (λ query filters. own query q.owner filters) (s ∙ ap (λ a. (ok a, held)) same))
