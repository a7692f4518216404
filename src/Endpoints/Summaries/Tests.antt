-- ===== src/Endpoints/Summaries/Tests.antt =====
-- A summary of a named task, of which one field is stored as a memory that is named by its text.
use automem.Tasks.Titles.{compact_text}
use automem.Tasks.Rows.{overwrite_task, inserted_task, fetch_task, upsert_found, upsert_task}
use automem.Tasks.Memories.{store_fields}
use automem.Tasks.Resolve.{Matcher}
use automem.Tasks.Policy.{
  decide_field, filter_fields, filter_task_memory_fields, should_store_task_memory,
  should_materialize_task, FieldDecision,
}
use automem.Tasks.{TaskRules, Task}
use automem.Tasks.Pages.{Codec}
use automem.Tasks.Normalize.{TaskWorld}
use automem.Tasks.Summary.{
  any_text, task_has_actionable_signal, evaluate_task_materialization, field_or,
  derive_task_summary, TextTests, TaskSummaryWrite,
}
use automem.Endpoints.Summaries.{
  named_by, check_summary, finish_summary, store_approved, write_named, name_task, write_summary,
  summarize_checked, SummaryReply, task_summaries,
}
use automem.Audit.{write_audit}
use automem.Auth.{merge_project_id_into_metadata}
use automem.Auth.{choose_project}
use automem.Auth.{enforce_project_identity}
use automem.Auth.{enforce_agent_identity}
use automem.Auth.{enforce_user_identity}
use automem.Auth.{require_scope}
use automem.Services.Store.{store_decided}
use automem.Services.Store.{store_verdict}
use automem.Services.Store.{mirror_if_id}
use automem.Services.Store.{mirror}
use automem.Services.Store.{extract_primary_message_text}
use automem.Services.Store.{join_lines}
use automem.Services.Classify.{with_category}
use automem.Services.Classify.{classify}
use automem.Services.Classify.{classify_fact}
use automem.Services.Classify.{compare_rows}
use automem.Services.Archive.{archive_active_long_term_facts}
use automem.Services.Flow.{recovered}
use automem.Services.Flow.{on_error}
use automem.Services.Flow.{edit}
use automem.Services.Flow.{ask}
use automem.Services.Flow.{give}
use automem.Cache.Rows.{delete_cached_memory}
use automem.Cache.Rows.{cache_memory_record}
use automem.Cache.Rows.{cached_metadata}
use automem.Cache.Rows.{upsert}
use automem.Cache.Rows.{fetch_active_long_term_fact_rows}
use automem.Cache.Facts.{should_auto_supersede_fact}
use automem.Cache.Facts.{build_long_term_fact_metadata}
use automem.Cache.Facts.{settle_fact}
use automem.Cache.Facts.{merge_fact}
use automem.Cache.Facts.{normalized_or}
use automem.Cache.Facts.{normalize_string_list}
use automem.Cache.Facts.{normalize_fact_status}
use automem.Cache.Facts.{infer_long_term_fact_key}
use automem.Cache.Facts.{pattern_key}
use automem.Cache.Facts.{contains_any}
use automem.Text.{lower_char, contains}
use automem.Text.Strings.{clean_from, clean_strings}
use automem.Text.Normalize.{normalize_text}
use automem.Http.{Result, ok}
use automem.Auth.{normalize_project_ids, agent_key, Auth}
use automem.Metadata.{Metadata}
use automem.Services.{Backend}
use automem.Services.Store.{store_memory_with_governance, Decision}
use automem.Common.{delete, select, update, first, ◌≡◌, refl, false, none, some, List, [], ◌∷◌}
use automem.Text.{starts_with, lower, elem, ◌==◌, Text, text}
use automem.Services.Flow.{resume, ◌>>=◌, ◌>>◌}
use automem.Common.{map, true}
use automem.Endpoints.Summaries.Writes.{Tells, task_summaries_cases}

program : Unit {0}
unfolding ◌==◌ elem first update select delete normalize_text clean_strings clean_from
    normalize_project_ids lower starts_with contains contains_any pattern_key
    infer_long_term_fact_key normalize_fact_status normalize_string_list normalized_or merge_fact
    settle_fact build_long_term_fact_metadata should_auto_supersede_fact
    fetch_active_long_term_fact_rows upsert cached_metadata cache_memory_record delete_cached_memory
    resume ◌>>=◌ ◌>>◌ give ask edit on_error recovered archive_active_long_term_facts compare_rows
    classify_fact classify with_category join_lines extract_primary_message_text mirror mirror_if_id
    store_verdict store_decided store_memory_with_governance require_scope enforce_user_identity
    enforce_agent_identity enforce_project_identity choose_project merge_project_id_into_metadata
    write_audit task_summaries summarize_checked write_summary name_task write_named store_approved
    finish_summary check_summary store_fields named_by upsert_task upsert_found fetch_task
    inserted_task overwrite_task derive_task_summary field_or compact_text
    evaluate_task_materialization task_has_actionable_signal any_text should_materialize_task
    should_store_task_memory filter_task_memory_fields filter_fields decide_field lower_char
program = tt

abbrev small : Backend (List Text)
small = record {
  add = λ memory owner meta infer s. (ok (some memory), memory ∷ s);
  get = λ memory_id s. (ok none, s);
  remove = λ memory_id s. (ok tt, s);
  get_all = λ owner s. (ok [], s);
}

abbrev kept : Text → Metadata → Decision
kept raw meta = record {
  skip = false;
  reason = [];
  canonical = raw;
  canonicalized = false;
  noise_kind = none;
  from_llm = false;
  memory_kind = none;
}

abbrev approve : Text → Metadata → FieldDecision
approve value meta = record { drop = false; store_task_memory = true; canonical_text = none }

abbrev key : Auth
key = record {
  actor_type = agent_key;
  actor_label = some (text "codex");
  agent_id = some (text "codex");
  user_id = some (text "ann");
  project_ids = [];
  scopes = text "task" ∷ [];
  is_admin = false;
}

abbrev asked : TaskSummaryWrite
asked = record {
  user_id = none;
  agent_id = none;
  project_id = none;
  task_id = some (text "t");
  title = none;
  summary = none;
  progress = none;
  blocker = some (text "no key");
  next_action = none;
  message = none;
  assistant_output = none;
}

abbrev tests : TextTests
tests = record {
  has_action_word = λ t. false;
  is_task_lookup_question = λ t. false;
  looks_conversational_title = λ t. false;
}

abbrev rules : TaskRules
rules = record {
  sanitize_task_title = λ title last_summary task_id. title;
  classify_task_kind = λ task_id title last_summary source_agent project_id. text "work";
  sanitize_task_summary_preview = λ last_summary. last_summary;
}

abbrev codec : Codec
codec = record { encode = λ updated_at task_id. task_id; decode = λ cursor. none }

abbrev matcher : Matcher
matcher = record {
  looks_task_worthy = λ message assistant_output. true;
  task_candidate_score = λ message view. 0;
  question_threshold = 1;
  match_threshold = 1;
}

abbrev world : TaskWorld (List Text)
world = record { tasks = []; memories = record { cache = []; held = [] } }

abbrev call : Result SummaryReply × TaskWorld (List Text)
call =
    task_summaries small (λ t. t) (text "2026") kept approve codec rules tests matcher key asked
      world

-- The task is of the key's user.
task_written : map (λ (row : Task). row.user_id) call.1.tasks ≡ text "ann" ∷ []
unfolding program
task_written = refl

-- mem0 holds the field.
field_stored : call.1.memories.held ≡ text "no key" ∷ []
unfolding program
field_stored = refl

task_summaries_cases_example :
    Tells small
      (λ t. t)
      (text "2026")
      kept
      approve
      codec
      rules
      tests
      matcher
      key
      world
      call.0
      call.1
task_summaries_cases_example =
    task_summaries_cases small (λ t. t) (text "2026") kept approve codec rules tests matcher key
      world asked refl
