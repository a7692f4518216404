-- ===== src/Cache/Coherence.antt =====
-- The fields of a fact's metadata agree with its status.
use automem.Common.{
  map, ◌≡◌, refl, ◌⊎◌, inl, inr, true, false, Option, none, some, List, arith, Bool-cases,
}
use automem.Text.{lower, Text, ◌==◌, elem, or_empty, or_else, eq_sound, eq_refl}
use automem.Text.Normalize.{normalize_text}
use automem.Metadata.{Metadata}
use automem.Cache.Facts.{
  underscore, active, superseded, conflict_review, fact_statuses, FactArgs, normalize_fact_status,
  merge_fact, settle_fact, build_long_term_fact_metadata,
}

-- A status of `LONG_TERM_FACT_STATUSES`.
abbrev pub IsStatus : Text → Type 0
IsStatus s = (s ≡ active) ⊎ (s ≡ superseded) ⊎ (s ≡ conflict_review)

elem-IsStatus : (v : Text) → elem v fact_statuses ≡ true → IsStatus v
unfolding elem
elem-IsStatus v h =
    ground (arith, eq_sound v active, eq_sound v superseded, eq_sound v conflict_review)

-- Only the known statuses are returned, or the default.
pub normalize_fact_status-IsStatus :
    (raw : Option Text) (fallback : Text)
    → IsStatus fallback
    → IsStatus (normalize_fact_status raw fallback)
unfolding normalize_fact_status
normalize_fact_status-IsStatus raw fallback h =
    let value = map underscore (lower (normalize_text (or_empty raw))) in
    elim (Bool-cases (elem value fact_statuses)) [
      | inl e ↦ rw e (elem-IsStatus value e)
      | inr e ↦ rw e h
    ]

active_ne_superseded : (superseded == active) ≡ false
unfolding ◌==◌
active_ne_superseded = refl

pub review_ne_active : (conflict_review == active) ≡ false
unfolding ◌==◌
review_ne_active = refl

pub review_ne_superseded : (conflict_review == superseded) ≡ false
unfolding ◌==◌
review_ne_superseded = refl

-- An active fact has no end, no successor and no conflict; a superseded one has an end and no conflict;
-- one under review has a conflict status and a review status and no successor.
pub record IsCoherent (meta : Metadata) : Type 0 where
  pub known : IsStatus (or_empty meta.status)
  pub keyed : (k : Text) × (meta.fact_key ≡ some k)
  pub when_active :
      or_empty meta.status ≡ active
      → (meta.valid_to ≡ none)
        × (meta.superseded_by ≡ none)
        × (meta.conflict_status ≡ none)
        × (meta.review_status ≡ none)
        × (meta.conflicts_with ≡ none)
  pub when_superseded :
      or_empty meta.status ≡ superseded
      → ((t : Text) × (meta.valid_to ≡ some t))
        × (meta.conflict_status ≡ none)
        × (meta.review_status ≡ none)
        × (meta.conflicts_with ≡ none)
  pub when_in_review :
      or_empty meta.status ≡ conflict_review
      → ((t : Text) × (meta.conflict_status ≡ some t))
        × ((t : Text) × (meta.review_status ≡ some t))
        × ((l : List Text) × (meta.conflicts_with ≡ some l))
        × (meta.superseded_by ≡ none)

module _ (created_at : Text) (args : FactArgs) (merged : Metadata) {k : Text}
    (key : merged.fact_key ≡ some k) where
  settle_active : or_empty merged.status ≡ active → IsCoherent (settle_fact created_at args merged)
  unfolding settle_fact
  settle_active e =
      rw (e, eq_refl active)
        (record {
          known = inl e;
          keyed = (k, key);
          when_active = λ _. (refl, refl, refl, refl, refl);
          when_superseded = λ f. absurd (cc (e, f));
          when_in_review = λ f. absurd (cc (e, f));
        })

  settle_superseded :
      or_empty merged.status ≡ superseded → IsCoherent (settle_fact created_at args merged)
  unfolding settle_fact
  settle_superseded e =
      rw (e, active_ne_superseded, eq_refl superseded)
        (record {
          known = inr (inl e);
          keyed = (k, key);
          when_active = λ f. absurd (cc (e, f));
          when_superseded = λ _. ((_, refl), refl, refl, refl);
          when_in_review = λ f. absurd (cc (e, f));
        })

  settle_in_review :
      or_empty merged.status ≡ conflict_review → IsCoherent (settle_fact created_at args merged)
  unfolding settle_fact
  settle_in_review e =
      rw (e, review_ne_active, review_ne_superseded)
        (record {
          known = inr (inr e);
          keyed = (k, key);
          when_active = λ f. absurd (cc (e, f));
          when_superseded = λ f. absurd (cc (e, f));
          when_in_review = λ _. ((_, refl), (_, refl), (_, refl), refl);
        })

-- Whatever metadata and arguments are given, the metadata that is built has a known status and a fact key.
-- An active fact has no end, no successor and no conflict; a superseded one has an end and no conflict; one
-- under review has a conflict status, a review status, a list of conflicts and no successor, and it may
-- still have an end.
pub build-IsCoherent :
    (digest : Text → Text) (memory : Text) (meta : Metadata) (created_at : Text) (args : FactArgs)
    → IsCoherent (build_long_term_fact_metadata digest memory meta created_at args)
unfolding build_long_term_fact_metadata merge_fact
build-IsCoherent digest memory meta created_at args =
    let merged = merge_fact digest memory meta created_at args in
    elim (normalize_fact_status-IsStatus (or_else args.status meta.status) active (inl refl)) [
      | inl e ↦ settle_active created_at args merged refl e
      | inr (inl e) ↦ settle_superseded created_at args merged refl e
      | inr (inr e) ↦ settle_in_review created_at args merged refl e
    ]
