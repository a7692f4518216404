-- ===== src/Cache/Tests.antt =====
-- Metadata of a fact, and the theorems at it. The digest keeps the text.
use automem.Text.Normalize.{normalize_text}
use automem.Metadata.{no_metadata, Metadata}
use automem.Cache.Coherence.{build-IsCoherent, IsCoherent}
use automem.Cache.Facts.{
  normalized_or, settle_fact, merge_fact, should_auto_supersede_fact, normalize_fact_status,
  pattern_key, contains_any, conflict_review, no_args, build_long_term_fact_metadata,
  infer_long_term_fact_key,
}
use automem.Common.{◌≡◌, refl, some}
use automem.Text.{contains, starts_with, lower_char, lower, elem, ◌==◌, text}

program : Unit {0}
unfolding ◌==◌ elem lower lower_char starts_with contains contains_any pattern_key normalize_text
    infer_long_term_fact_key normalize_fact_status should_auto_supersede_fact
    build_long_term_fact_metadata merge_fact settle_fact normalized_or
program = tt

abbrev stale : Metadata
stale = record no_metadata {
  domain = some (text "long_term");
  category = some (text "preference");
  status = some (text "Conflict-Review");
  superseded_by = some (text "m2");
}

language_key :
    infer_long_term_fact_key (λ t. t) (text "Answer in English") stale ≡ text "preference:language"
unfolding program
language_key = refl

in_review :
    (build_long_term_fact_metadata
      (λ t. t)
      (text "Answer in English")
      stale
      (text "now")
      no_args).status
    ≡ some conflict_review
unfolding program
in_review = refl

build-IsCoherent_example :
    IsCoherent
      (build_long_term_fact_metadata (λ t. t) (text "Answer in English") stale (text "now") no_args)
build-IsCoherent_example =
    build-IsCoherent (λ t. t) (text "Answer in English") stale (text "now") no_args
