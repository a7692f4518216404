-- ===== src/Services/Verdicts.antt =====
-- What is written of a fact, by the facts that its key has already.
use automem.Cache.Rows.{fetch_active_long_term_fact_rows}
use automem.Text.Normalize.{is_space, strip, rstrip, lstrip, collapse, normalize_text}
use automem.Common.{
  ◌≢◌, not, select, ◌∙◌, arith, ap, subst, ◌≡◌, refl, Bool, true, false, Option, some, List, [],
  ◌∷◌,
}
use automem.Text.{◌==◌, elem, lower_char, lower, Text, or_empty}
use automem.Metadata.{Metadata}
use automem.Cache.{CacheRow}
use automem.Cache.Facts.{
  auto_supersede_fact_keys, should_auto_supersede_fact, FactArgs, settle_fact, merge_fact, active,
  conflict_review, no_args, normalize_fact_status, normalize_string_list,
  build_long_term_fact_metadata,
}
use automem.Cache.Coherence.{review_ne_superseded, review_ne_active, IsCoherent, build-IsCoherent}
use automem.Services.Classify.{
  review_required, same_text, superseding, stored_fact, duplicate, Plan, Verdict, write, ids_of,
  compare_rows, classify_fact,
}

-- What is to be written of a fact, by whether its key is superseded automatically, the active facts of
-- its key, and those of them that say something else.
pub data IsFitting (auto : Bool) (active_rows conflicting : List CacheRow) (plan : Plan)
    : Type 0 where
  plain :
      conflicting ≡ []
      → plan.fact_action ≡ stored_fact
      → plan.superseded_rows ≡ []
      → plan.conflicts_with ≡ []
      → IsFitting auto active_rows conflicting plan
  replaces :
      auto ≡ true
      → conflicting ≢ []
      → plan.fact_action ≡ superseding
      → plan.superseded_rows ≡ active_rows
      → or_empty plan.meta.status ≡ active
      → plan.meta.supersedes ≡ some (normalize_string_list (some (ids_of active_rows)))
      → plan.conflicts_with ≡ []
      → IsFitting auto active_rows conflicting plan
  waits :
      auto ≡ false
      → conflicting ≢ []
      → plan.fact_action ≡ review_required
      → plan.conflicts_with ≡ ids_of conflicting
      → or_empty plan.meta.status ≡ conflict_review
      → plan.meta.conflicts_with ≡ some (normalize_string_list (some (ids_of conflicting)))
      → plan.superseded_rows ≡ []
      → IsFitting auto active_rows conflicting plan

active_stays : normalize_fact_status (some active) active ≡ active
unfolding normalize_fact_status normalize_text collapse lstrip rstrip strip is_space lower
    lower_char elem ◌==◌
active_stays = refl

review_stays : normalize_fact_status (some conflict_review) active ≡ conflict_review
unfolding normalize_fact_status normalize_text collapse lstrip rstrip strip is_space lower
    lower_char elem ◌==◌
review_stays = refl

settle_status :
    (created_at : Text) (args : FactArgs) (merged : Metadata)
    → (settle_fact created_at args merged).status ≡ merged.status
unfolding settle_fact
settle_status created_at args merged = ground arith

settle_supersedes :
    (created_at : Text) (args : FactArgs) (merged : Metadata)
    → (settle_fact created_at args merged).supersedes ≡ merged.supersedes
unfolding settle_fact
settle_supersedes created_at args merged = ground arith

settle_conflicts :
    (created_at : Text) (args : FactArgs) (merged : Metadata) (ids : List Text)
    → or_empty merged.status ≡ conflict_review
    → args.conflicts_with ≡ some ids
    → (settle_fact created_at args merged).conflicts_with ≡ some (normalize_string_list (some ids))
unfolding settle_fact
settle_conflicts created_at args merged ids e given =
    rw (e, review_ne_active, review_ne_superseded, given) refl

module _ (digest : Text → Text) (stored_text now : Text) where
  abbrev IsSound : Bool → (active_rows conflicting : List CacheRow) → Verdict → Type 0
  IsSound auto active_rows conflicting (duplicate existing fact_key) = Unit
  IsSound auto active_rows conflicting (write plan) =
      IsCoherent plan.meta × IsFitting auto active_rows conflicting plan

  compare_rows-IsSound :
      (fact_key : Text) (meta : Metadata) (active_rows : List CacheRow) (auto : Bool)
      (duplicates conflicting : List CacheRow)
      → IsCoherent meta
      → IsSound auto active_rows conflicting (
          compare_rows digest stored_text now fact_key meta active_rows auto duplicates conflicting)
  unfolding compare_rows merge_fact build_long_term_fact_metadata
  compare_rows-IsSound fact_key meta active_rows true (row ∷ rows) [] c = tt
  compare_rows-IsSound fact_key meta active_rows true [] [] c = (c, plain refl refl refl refl)
  compare_rows-IsSound fact_key meta active_rows false rows [] c = (c, plain refl refl refl refl)
  compare_rows-IsSound fact_key meta active_rows true rows (r ∷ rs) c = (
    build-IsCoherent digest stored_text meta now _,
    replaces refl (λ e. cc) refl refl (ap or_empty (settle_status now _ _) ∙ active_stays)
        (settle_supersedes now _ _) refl,
  )
  compare_rows-IsSound fact_key meta active_rows false rows (r ∷ rs) c = (
    build-IsCoherent digest stored_text meta now _,
    waits refl (λ e. cc) refl refl (ap or_empty (settle_status now _ _) ∙ review_stays)
        (settle_conflicts now _ _ (ids_of (r ∷ rs)) review_stays refl) refl,
  )

  -- The metadata of a fact before it is compared, the active facts of its key, and those of them whose text
  -- differs.
  abbrev pub given_meta : Metadata → Metadata
  given_meta given = build_long_term_fact_metadata digest stored_text given now no_args

  abbrev pub rivals : Option Text → Metadata → List CacheRow → List CacheRow
  rivals user_id given table =
      fetch_active_long_term_fact_rows user_id (given_meta given).project_id
        (or_empty (given_meta given).fact_key) (some (or_empty (given_meta given).category)) table

  abbrev pub contradicting : Option Text → Metadata → List CacheRow → List CacheRow
  contradicting user_id given table =
      select (λ row. not (same_text stored_text row)) (rivals user_id given table)

  -- What is written of a fact has coherent metadata. If no active fact of its key says something else, it is
  -- stored, supersedes nothing and contradicts nothing. Otherwise, with a key that is superseded
  -- automatically, it is active and supersedes all active facts of its key, which its metadata lists; with
  -- any other key it waits for a review, supersedes nothing, and the plan and the metadata list the facts
  -- that it contradicts. The action that is reported is the one of the case.
  pub classify_fact-IsFitting :
      (user_id : Option Text) (given : Metadata) (table : List CacheRow) (plan : Plan)
      → classify_fact digest stored_text now user_id given table ≡ write plan
      → IsCoherent plan.meta
        × IsFitting
            (elem (normalize_text (or_empty (given_meta given).fact_key)) auto_supersede_fact_keys)
            (rivals user_id given table)
            (contradicting user_id given table)
            plan
  unfolding classify_fact should_auto_supersede_fact
  classify_fact-IsFitting user_id given table plan e =
      subst (IsSound _ _ _) e
        (compare_rows-IsSound _ _ _ _ _ _ (build-IsCoherent digest stored_text given now no_args))
