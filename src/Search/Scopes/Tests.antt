-- ===== src/Search/Scopes/Tests.antt =====
-- The texts of tests/test_scope_model_unit.py.
use automem.Common.{◌≡◌, refl, true, false, some, none}
use automem.Text.{Text, text, ◌==◌, elem, lower, starts_with, contains}
use automem.Text.Normalize.{normalize_text}
use automem.Metadata.{Metadata, no_metadata}
use automem.Cache.Facts.{contains_any}
use automem.Search.Scopes.{
  classify_legacy_memory_scope, scope_by_meaning, looks_project_current_state_text,
  looks_stable_or_index_text, verdict, project, user_global, migration_review,
}

program : Unit {0}
unfolding ◌==◌ elem lower starts_with contains normalize_text contains_any
    looks_project_current_state_text looks_stable_or_index_text scope_by_meaning
    classify_legacy_memory_scope
program = tt

abbrev of_category : Text → Metadata
of_category category = record no_metadata { category = some category }

current_state_is_of_project :
    (classify_legacy_memory_scope
      (text "当前工作重心是推进")
      (of_category (text "project_context"))
      none
      true)
    ≡ verdict project (text "semantic:project_current_state")
unfolding program
current_state_is_of_project = refl

overview_is_global :
    (classify_legacy_memory_scope
      (text "公司是Example Corp")
      (of_category (text "project_context"))
      none
      false)
    ≡ verdict user_global (text "semantic:project_index_or_stable_context")
unfolding program
overview_is_global = refl

weak_evidence_is_reviewed :
    (classify_legacy_memory_scope
      (text "跟进一下这个事情。")
      (of_category (text "project_context"))
      none
      false)
    ≡ verdict migration_review (text "ambiguous")
unfolding program
weak_evidence_is_reviewed = refl
