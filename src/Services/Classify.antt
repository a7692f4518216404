-- ===== src/Services/Classify.antt =====
-- The part of `store_memory_with_governance` that compares a fact with the active facts of its key.
use automem.Common.{
  Bool, true, false, not, ◌&&◌, Option, none, some, List, [], ◌∷◌, map, select, if◌then◌else◌,
}
use automem.Text.{Text, text, ◌==◌, or_empty, or_else, truthy, elem}
use automem.Text.Normalize.{normalize_text}
use automem.Metadata.{Metadata}
use automem.Cache.{CacheRow}
use automem.Cache.Facts.{
  active, conflict_review, no_args, build_long_term_fact_metadata, should_auto_supersede_fact,
}
use automem.Cache.Rows.{is_long_term, fetch_active_long_term_fact_rows}

-- `fact_action`
pub data FactAction : Type 0 where
  stored_fact superseding review_required : FactAction

-- What is to be written, and what the answer tells of it.
pub record Plan : Type 0 where
  pub meta : Metadata
  pub fact_action : FactAction
  pub fact_status : Option Text
  pub fact_key : Option Text
  pub superseded_rows : List CacheRow
  pub conflicts_with : List Text

pub data Verdict : Type 0 where
  duplicate : (existing_memory_id fact_key : Text) → Verdict
  write : Plan → Verdict

abbrev pub ids_of : List CacheRow → List Text
ids_of = map (λ (row : CacheRow). row.memory_id)

abbrev pub same_text : Text → CacheRow → Bool
same_text stored_text row = normalize_text row.memory == normalize_text stored_text

-- The categories that a decision may give to a fact that has none.
abbrev pub candidate_categories : List Text
candidate_categories =
    text "user_profile"
    ∷ text "preference"
    ∷ text "project_rule"
    ∷ text "project_context"
    ∷ text "architecture_decision"
    ∷ []

unfoldable pub with_category : Option Text → Metadata → Metadata
with_category memory_kind meta =
    if is_long_term meta
      && (not (truthy meta.category)
          && (truthy memory_kind && elem (or_empty memory_kind) candidate_categories))
    then record meta { category = memory_kind }
    else meta

-- `str(meta.get("status") or LONG_TERM_FACT_STATUS_ACTIVE)`
abbrev pub status_of : Metadata → Text
status_of meta = or_empty (or_else meta.status (some active))

module _ (digest : Text → Text) (stored_text now : Text) where
  -- The metadata of a fact that replaces the active ones.
  abbrev pub superseding_meta : Metadata → List CacheRow → Metadata
  superseding_meta meta active_rows =
      build_long_term_fact_metadata digest stored_text meta now
        (record no_args { status = some active; supersedes = some (ids_of active_rows) })

  -- The metadata of a fact that waits for a review.
  abbrev pub review_meta : Metadata → List CacheRow → Metadata
  review_meta meta conflicting =
      build_long_term_fact_metadata digest stored_text meta now (record no_args {
        status = some conflict_review;
        conflicts_with = some (ids_of conflicting);
        conflict_status = some (text "needs_review");
        review_status = some (text "pending");
      })

  abbrev pub plan_of : Text → FactAction → Metadata → List CacheRow → List Text → Plan
  plan_of fact_key fact_action meta superseded_rows conflicts_with = record {
    meta = meta;
    fact_action = fact_action;
    fact_status = some (status_of meta);
    fact_key = some fact_key;
    superseded_rows = superseded_rows;
    conflicts_with = conflicts_with;
  }

  -- By `auto_supersede`, the duplicates and the conflicting rows.
  unfoldable pub compare_rows :
      Text → Metadata → List CacheRow → Bool → List CacheRow → List CacheRow → Verdict
  compare_rows fact_key meta active_rows true (row ∷ rows) [] = duplicate row.memory_id fact_key
  compare_rows fact_key meta active_rows true [] [] =
      write (plan_of fact_key stored_fact meta [] [])
  compare_rows fact_key meta active_rows false rows [] =
      write (plan_of fact_key stored_fact meta [] [])
  compare_rows fact_key meta active_rows true rows (c ∷ cs) =
      write (plan_of fact_key superseding (superseding_meta meta active_rows) active_rows [])
  compare_rows fact_key meta active_rows false rows (c ∷ cs) =
      write (plan_of fact_key review_required (review_meta meta (c ∷ cs)) [] (ids_of (c ∷ cs)))

  unfoldable pub classify_fact : Option Text → Metadata → List CacheRow → Verdict
  classify_fact user_id given table =
      let meta = build_long_term_fact_metadata digest stored_text given now no_args in
      let fact_key = or_empty meta.fact_key in
      let active_rows =
        fetch_active_long_term_fact_rows user_id meta.project_id fact_key
          (some (or_empty meta.category)) table in
      compare_rows fact_key meta active_rows (should_auto_supersede_fact meta)
        (select (same_text stored_text) active_rows)
        (select (λ row. not (same_text stored_text row)) active_rows)

  -- A memory that is no fact is written as it is.
  unfoldable pub classify : Option Text → Metadata → List CacheRow → Verdict
  classify user_id meta table =
      if is_long_term meta
      then classify_fact user_id meta table
      else write (record {
        meta = meta;
        fact_action = stored_fact;
        fact_status = none;
        fact_key = none;
        superseded_rows = [];
        conflicts_with = [];
      })
