-- ===== src/Services/Tests.antt =====
-- Memories stored in a small backend, which names each memory by its text and holds the names. The
-- digest keeps the text.
use automem.Services.Refresh.{rebuild_memory_cache_lem, holds}
use automem.Services.Rebuild.{is_stale, scope_ids, rebuild_memory_cache}
use automem.Services.Store.{store_decided}
use automem.Services.Store.{store_verdict}
use automem.Services.Store.{mirror_if_id}
use automem.Services.Store.{mirror}
use automem.Services.Store.{extract_primary_message_text}
use automem.Services.Store.{join_lines}
use automem.Services.Classify.{with_category}
use automem.Services.Classify.{classify}
use automem.Services.Classify.{compare_rows}
use automem.Services.Archive.{archive_active_long_term_facts}
use automem.Services.Flow.{recovered}
use automem.Services.Flow.{on_error}
use automem.Services.Flow.{edit}
use automem.Services.Flow.{ask}
use automem.Services.Flow.{give}
use automem.Services.Flow.{resume}
use automem.Cache.Rows.{delete_cached_memory}
use automem.Cache.Rows.{cache_memory_record}
use automem.Cache.Rows.{cached_metadata}
use automem.Cache.Rows.{upsert}
use automem.Cache.Rows.{fetch_active_long_term_fact_rows}
use automem.Cache.Facts.{auto_supersede_fact_keys, should_auto_supersede_fact}
use automem.Cache.Facts.{settle_fact}
use automem.Cache.Facts.{merge_fact}
use automem.Cache.Facts.{normalized_or}
use automem.Cache.Facts.{normalize_string_list}
use automem.Cache.Facts.{normalize_fact_status}
use automem.Cache.Facts.{infer_long_term_fact_key}
use automem.Cache.Facts.{pattern_key}
use automem.Cache.Facts.{contains_any}
use automem.Text.{or_empty, contains}
use automem.Auth.{normalize_project_ids}
use automem.Text.Strings.{clean_from, clean_strings}
use automem.Text.Normalize.{normalize_text}
use automem.Cache.Facts.{no_args, build_long_term_fact_metadata}
use automem.Http.{ok}
use automem.Services.Verdicts.{
  contradicting, rivals, given_meta, classify_fact-IsFitting, IsFitting,
}
use automem.Services.Store.{store_memory_with_governance, Reply, Decision, Message}
use automem.Metadata.{no_metadata, Metadata}
use automem.Cache.Coherence.{IsCoherent}
use automem.Cache.Rows.{Owner}
use automem.Services.{Item, Result, Memories, Backend}
use automem.Services.Classify.{
  review_meta, review_required, write, plan_of, classify_fact, ids_of, Plan,
}
use automem.Common.{
  All, length, delete, select, update, first, ◌≡◌, refl, true, false, none, some, List, [], ◌∷◌,
}
use automem.Text.{starts_with, lower, elem, ◌==◌, Text, text}
use automem.Services.Flow.{◌>>=◌, ◌>>◌}

program : Unit {0}
unfolding ◌==◌ elem first update select delete normalize_text clean_strings clean_from
    normalize_project_ids lower starts_with contains contains_any pattern_key
    infer_long_term_fact_key normalize_fact_status normalize_string_list normalized_or merge_fact
    settle_fact build_long_term_fact_metadata should_auto_supersede_fact
    fetch_active_long_term_fact_rows upsert cached_metadata cache_memory_record delete_cached_memory
    resume ◌>>=◌ ◌>>◌ give ask edit on_error recovered archive_active_long_term_facts compare_rows
    classify_fact classify with_category join_lines extract_primary_message_text mirror mirror_if_id
    store_verdict store_decided store_memory_with_governance
program = tt

abbrev small : Backend (List Text)
small = record {
  add = λ memory owner meta infer s. (ok (some memory), memory ∷ s);
  get = λ memory_id s. (ok none, s);
  remove = λ memory_id s. (ok tt, s);
  get_all = λ owner s. (ok [], s);
}

abbrev ann : Owner
ann = record { user_id = some (text "ann"); run_id = none; agent_id = none }

abbrev kept : Text → Metadata → Decision
kept raw meta = record {
  skip = false;
  reason = [];
  canonical = raw;
  canonicalized = false;
  noise_kind = none;
  from_llm = false;
  memory_kind = none;
}

abbrev fact : Metadata
fact = record no_metadata {
  domain = some (text "long_term");
  category = some (text "project_rule");
  fact_key = some (text "rule:tabs");
}

abbrev message : Text → List Message
message s = record { role = text "user"; content = s } ∷ []

abbrev before : Memories (List Text)
before = record { cache = []; held = [] }

abbrev storing : Text → Memories (List Text) → Result Reply × Memories (List Text)
storing s = store_memory_with_governance small (λ t. t) (text "2026") kept (message s) ann fact true

abbrev first_rule : Memories (List Text)
first_rule = (storing (text "use tabs") before).1

one_row : ids_of first_rule.cache ≡ text "use tabs" ∷ []
unfolding program
one_row = refl

-- The second rule contradicts the first.
abbrev rule_plan : Plan
rule_plan =
    plan_of (λ t. t) (text "use spaces") (text "2026") (text "rule:tabs") review_required
      (review_meta (λ t. t) (text "use spaces") (text "2026")
        (build_long_term_fact_metadata (λ t. t) (text "use spaces") fact (text "2026") no_args)
        first_rule.cache)
      [] (text "use tabs" ∷ [])

in_review :
    classify_fact
      (λ t. t)
      (text "use spaces")
      (text "2026")
      (some (text "ann"))
      fact
      first_rule.cache
    ≡ write rule_plan
unfolding program
in_review = refl

classify_fact-IsFitting_example :
    IsCoherent rule_plan.meta
    × IsFitting
        (elem
          (normalize_text
            (or_empty (given_meta (λ t. t) (text "use spaces") (text "2026") fact).fact_key))
          auto_supersede_fact_keys)
        (rivals
          (λ t. t)
          (text "use spaces")
          (text "2026")
          (some (text "ann"))
          fact
          first_rule.cache)
        (contradicting
          (λ t. t)
          (text "use spaces")
          (text "2026")
          (some (text "ann"))
          fact
          first_rule.cache)
        rule_plan
classify_fact-IsFitting_example =
    classify_fact-IsFitting (λ t. t) (text "use spaces") (text "2026") (some (text "ann")) fact
      first_rule.cache rule_plan in_review

abbrev held_item : Item
held_item = record {
  id = some (text "m1");
  memory = some (text "hello");
  owner = ann;
  metadata = no_metadata;
  created_at = none;
}

abbrev nameless : Item
nameless = record held_item { id = none }

abbrev listing : Backend (List Text)
listing = record small { get_all = λ owner s. (ok (nameless ∷ held_item ∷ []), s) }

rebuild_memory_cache_lem_example :
    ((rebuild_memory_cache listing (λ t. t) (text "2026") ann first_rule).0
      ≡ ok (length (scope_ids (nameless ∷ held_item ∷ []))))
    × All
        (λ id.
          holds id (rebuild_memory_cache listing (λ t. t) (text "2026") ann first_rule).1.cache
          ≡ true)
        (scope_ids (nameless ∷ held_item ∷ []))
    × All
        (λ row. is_stale ann (scope_ids (nameless ∷ held_item ∷ [])) row ≡ false)
        (rebuild_memory_cache listing (λ t. t) (text "2026") ann first_rule).1.cache
rebuild_memory_cache_lem_example =
    rebuild_memory_cache_lem listing (λ t. t) (text "2026") ann (nameless ∷ held_item ∷ [])
      first_rule.held first_rule refl
