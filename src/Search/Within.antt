-- ===== src/Search/Within.antt =====
-- What a search finds is of the user and the project that it is asked for.
use automem.Search.{name, role, language, style, company, task_progress, no_topic}
use automem.Common.{
  ◌≡◌, refl, sym, ap, ◌∙◌, inl, inr, true, false, Bool-cases, Option, none, some, [], ◌∷◌, arith,
  if◌then◌else◌,
}
use automem.Text.{lower, Text, ◌==◌, eq_sound, is_empty, or_empty, truthy}
use automem.Text.Normalize.{normalize_text}
use automem.Metadata.{Metadata, Filters}
use automem.Cache.{CacheRow}
use automem.Cache.Rows.{Owner, matches_if_given}
use automem.Search.{task_lookup, Patterns, Profile, Hit, SearchQuery, Topic, Intent}
use automem.Search.Queries.{
  is_task_domain, intent_of, classify_query_intent, topic_profile, profile_of, domain_of,
}
use automem.Search.Sources.{passes_filters, in_filters, equals_if_set, column_if_set}
use automem.Search.Hybrid.{effective_filters, scope_of}

equals_if_set_sound :
    (expected : Option Text) (d actual : Text)
    → expected ≡ some d
    → is_empty d ≡ false
    → equals_if_set expected actual ≡ true
    → actual ≡ d
equals_if_set_sound none d actual e f h = absurd (cc)
equals_if_set_sound (some []) d actual e f h = absurd (ground (arith, e, f))
equals_if_set_sound (some (c ∷ s)) d actual e f h = ground (arith, e, eq_sound actual (c ∷ s) h)

column_if_set_sound :
    (expected : Option Text) (d : Text) (column : Option Text)
    → expected ≡ some d
    → is_empty d ≡ false
    → column_if_set expected column ≡ true
    → column ≡ some d
column_if_set_sound none d column e f h = absurd (cc)
column_if_set_sound (some []) d column e f h = absurd (ground (arith, e, f))
column_if_set_sound (some (c ∷ s)) d none e f h = cc
column_if_set_sound (some (c ∷ s)) d (some held) e f h =
    ap some (ground (arith, e, eq_sound held (c ∷ s) h))

matches_if_given_sound :
    (asked : Option Text) (u : Text) (column : Option Text)
    → asked ≡ some u
    → matches_if_given asked column ≡ true
    → column ≡ some u
matches_if_given_sound none u column e h = absurd (cc)
matches_if_given_sound (some t) u none e h = cc
matches_if_given_sound (some t) u (some held) e h = ap some (ground (arith, e, eq_sound held t h))

project_sound :
    (expected : Option Text) (p actual : Text)
    → expected ≡ some p
    → is_empty p ≡ false
    → (if truthy expected
        then normalize_text actual == normalize_text (or_empty expected)
        else true)
      ≡ true
    → normalize_text actual ≡ normalize_text p
project_sound none p actual e f h = absurd (cc)
project_sound (some []) p actual e f h = absurd (ground (arith, e, f))
project_sound (some (c ∷ s)) p actual e f h =
    eq_sound (normalize_text actual) (normalize_text (c ∷ s)) h
    ∙ ap (λ t. normalize_text (or_empty t)) e

domain_of_lem :
    (intent : Intent) (explicit : Option Text)
    → (is_empty (domain_of intent explicit) ≡ false)
      × (truthy explicit ≡ true → explicit ≡ some (domain_of intent explicit))
unfolding domain_of
domain_of_lem intent (some (c ∷ s)) = (refl, λ _. refl)
domain_of_lem Intent.identity_lookup none = (refl, λ e. cc)
domain_of_lem Intent.preference_lookup none = (refl, λ e. cc)
domain_of_lem Intent.company_lookup none = (refl, λ e. cc)
domain_of_lem Intent.task_lookup none = (refl, λ e. cc)
domain_of_lem Intent.generic_memory_search none = (refl, λ e. cc)
domain_of_lem Intent.identity_lookup (some []) = (refl, λ e. cc)
domain_of_lem Intent.preference_lookup (some []) = (refl, λ e. cc)
domain_of_lem Intent.company_lookup (some []) = (refl, λ e. cc)
domain_of_lem Intent.task_lookup (some []) = (refl, λ e. cc)
domain_of_lem Intent.generic_memory_search (some []) = (refl, λ e. cc)

topic-domain :
    (patterns : Patterns) (query : Text) (explicit : Option Text) (topic : Topic)
    → (intent : Intent) × ((topic_profile patterns query explicit topic).effective_domain
        ≡ domain_of intent explicit)
unfolding topic_profile profile_of intent_of
topic-domain patterns query explicit name = (_, refl)
topic-domain patterns query explicit role = (_, refl)
topic-domain patterns query explicit language = (_, refl)
topic-domain patterns query explicit style = (_, refl)
topic-domain patterns query explicit company = (_, refl)
topic-domain patterns query explicit task_progress = (_, refl)
topic-domain patterns query explicit no_topic = (_, refl)

classify-domain :
    (patterns : Patterns) (query : Text) (filters : Filters)
    → (intent : Intent) × ((classify_query_intent patterns query filters).effective_domain
        ≡ domain_of intent filters.domain)
unfolding classify_query_intent profile_of
classify-domain patterns query filters = elim (Bool-cases (is_task_domain filters.domain)) [
  | inl e ↦ (task_lookup, rw e refl)
  | inr e ↦
      let (intent, same) =
        topic-domain patterns query filters.domain
          (patterns.topic_of (lower (normalize_text query))) in
      (intent, rw e same)
]

module _ (patterns : Patterns) (q : SearchQuery) where
  abbrev pub profile_for : Profile
  profile_for = classify_query_intent patterns q.query q.filters

  domain_nonempty : is_empty profile_for.effective_domain ≡ false
  domain_nonempty =
      let (intent, same) = classify-domain patterns q.query q.filters in
      rw same (domain_of_lem intent q.filters.domain).0

  -- The domain is one of the effective filters.
  effective_filters-domain :
      (effective_filters profile_for q.filters).domain ≡ some profile_for.effective_domain
  unfolding effective_filters
  effective_filters-domain =
      let (intent, same) = classify-domain patterns q.query q.filters in
      elim (Bool-cases (truthy q.filters.domain)) [
        | inl asked ↦
            rw (asked, domain_nonempty)
              ((domain_of_lem intent q.filters.domain).1 asked ∙ ap some (sym same))
        | inr free ↦ rw (free, domain_nonempty) refl
      ]

  effective_filters-project :
      (effective_filters profile_for q.filters).project_id ≡ q.filters.project_id
  unfolding effective_filters
  effective_filters-project = ground arith

  effective_filters-category :
      (effective_filters profile_for q.filters).category ≡ q.filters.category
  unfolding effective_filters
  effective_filters-category = ground arith

  -- The user and what the filters ask for, where a filter that is empty asks for nothing.
  pub record IsInScope (id : Text) (owner : Owner) (metadata : Metadata) : Type 0 where
    pub user : (u : Text) → q.owner.user_id ≡ some u → owner.user_id ≡ some u
    pub project :
        (p : Text)
        → q.filters.project_id ≡ some p
        → is_empty p ≡ false
        → normalize_text (or_empty metadata.project_id) ≡ normalize_text p
    pub category :
        (c : Text)
        → q.filters.category ≡ some c
        → is_empty c ≡ false
        → or_empty metadata.category ≡ c
    pub domain : or_empty metadata.domain ≡ profile_for.effective_domain

  -- What mem0 documents of a search: it returns memories of the user that it is asked for.
  abbrev pub IsOfUser : {N : Type 0} → Hit N → Type 0
  IsOfUser hit = (u : Text) → q.owner.user_id ≡ some u → hit.owner.user_id ≡ some u

  pub in_filters-IsInScope :
      (row : CacheRow) (metadata : Metadata)
      → metadata.project_id ≡ row.project_id
      → metadata.category ≡ row.category
      → metadata.domain ≡ row.domain
      → matches_if_given q.owner.user_id row.user_id ≡ true
      → in_filters (scope_of q profile_for).filters row ≡ true
      → IsInScope row.memory_id
          (record { user_id = row.user_id; run_id = row.run_id; agent_id = row.agent_id })
          metadata
  unfolding in_filters scope_of
  in_filters-IsInScope row metadata same_project same_category same_domain mine h =
      let filters = effective_filters profile_for q.filters in
      let in_project : column_if_set filters.project_id row.project_id ≡ true = ground (arith, h) in
      let in_category : column_if_set filters.category row.category ≡ true = ground (arith, h) in
      let in_domain : column_if_set filters.domain row.domain ≡ true = ground (arith, h) in
      record {
        user = λ u e. matches_if_given_sound q.owner.user_id u row.user_id e mine;
        project = λ p e f.
            ap (λ t. normalize_text (or_empty t))
              (same_project
                ∙ column_if_set_sound filters.project_id p row.project_id
                    (effective_filters-project ∙ e) f in_project);
        category = λ c e f. ap or_empty (
            same_category
            ∙ column_if_set_sound filters.category c row.category (effective_filters-category ∙ e) f
                in_category);
        domain = ap or_empty (
            same_domain
            ∙ column_if_set_sound filters.domain _ row.domain effective_filters-domain
                domain_nonempty in_domain);
      }

  pub admitted-IsInScope :
      {N : Type 0} (hit : Hit N)
      → IsOfUser hit
      → passes_filters (scope_of q profile_for) hit.metadata ≡ true
      → IsInScope hit.id hit.owner hit.metadata
  unfolding passes_filters scope_of
  admitted-IsInScope hit mine h =
      let filters = effective_filters profile_for q.filters in
      let in_project : (if truthy filters.project_id
            then normalize_text (or_empty hit.metadata.project_id)
              == normalize_text (or_empty filters.project_id)
            else true)
          ≡ true =
        ground (arith, h) in
      let in_category : equals_if_set filters.category (or_empty hit.metadata.category) ≡ true =
        ground (arith, h) in
      let in_domain : equals_if_set filters.domain (or_empty hit.metadata.domain) ≡ true =
        ground (arith, h) in
      record {
        user = mine;
        project = λ p e f.
            project_sound filters.project_id p (or_empty hit.metadata.project_id)
              (effective_filters-project ∙ e) f in_project;
        category = λ c e f.
            equals_if_set_sound filters.category c _ (effective_filters-category ∙ e) f in_category;
        domain =
            equals_if_set_sound filters.domain _ _ effective_filters-domain domain_nonempty
              in_domain;
      }
