-- ===== src/Endpoints/Tests.antt =====
-- A memory that a key stores. The backend names each memory by its text.
use automem.Services.Owned.{Stores}
use automem.Audit.{write_audit}
use automem.Endpoints.Memories.{check_memory}
use automem.Auth.{merge_project_id_into_metadata}
use automem.Auth.{choose_project}
use automem.Auth.{enforce_project_identity}
use automem.Auth.{enforce_agent_identity}
use automem.Auth.{enforce_user_identity}
use automem.Auth.{require_scope}
use automem.Services.Store.{store_decided}
use automem.Services.Store.{store_verdict}
use automem.Services.Store.{mirror_if_id}
use automem.Services.Store.{mirror}
use automem.Services.Store.{extract_primary_message_text}
use automem.Services.Store.{join_lines}
use automem.Services.Classify.{with_category}
use automem.Services.Classify.{classify}
use automem.Services.Classify.{classify_fact}
use automem.Services.Classify.{compare_rows}
use automem.Services.Archive.{archive_active_long_term_facts}
use automem.Services.Flow.{recovered}
use automem.Services.Flow.{on_error}
use automem.Services.Flow.{edit}
use automem.Services.Flow.{ask}
use automem.Services.Flow.{give}
use automem.Cache.Rows.{delete_cached_memory}
use automem.Cache.Rows.{cache_memory_record}
use automem.Cache.Rows.{cached_metadata}
use automem.Cache.Rows.{upsert}
use automem.Cache.Rows.{fetch_active_long_term_fact_rows}
use automem.Cache.Facts.{should_auto_supersede_fact}
use automem.Cache.Facts.{build_long_term_fact_metadata}
use automem.Cache.Facts.{settle_fact}
use automem.Cache.Facts.{merge_fact}
use automem.Cache.Facts.{normalized_or}
use automem.Cache.Facts.{normalize_string_list}
use automem.Cache.Facts.{normalize_fact_status}
use automem.Cache.Facts.{infer_long_term_fact_key}
use automem.Cache.Facts.{pattern_key}
use automem.Cache.Facts.{contains_any}
use automem.Text.{contains}
use automem.Text.Strings.{clean_from, clean_strings}
use automem.Text.Normalize.{normalize_text}
use automem.Services.Classify.{stored_fact}
use automem.Endpoints.Owners.{add_memory-IsOwn, IsOwn}
use automem.Cache.Rows.{Owner}
use automem.Http.{Result, ok}
use automem.Auth.{normalize_project_ids, agent_key, Auth}
use automem.Endpoints.Memories.{log_reply, add_memory, MemoryCreate, Server, Stamp}
use automem.Metadata.{no_metadata, Metadata}
use automem.Services.{Backend}
use automem.Services.Store.{store_memory_with_governance, added, Decision, Reply}
use automem.Common.{delete, select, update, first, ◌≡◌, refl, false, none, some, List, [], ◌∷◌}
use automem.Text.{starts_with, lower, elem, ◌==◌, Text, text}
use automem.Services.Flow.{resume, ◌>>=◌, ◌>>◌}

program : Unit {0}
unfolding ◌==◌ elem first update select delete normalize_text clean_strings clean_from
    normalize_project_ids lower starts_with contains contains_any pattern_key
    infer_long_term_fact_key normalize_fact_status normalize_string_list normalized_or merge_fact
    settle_fact build_long_term_fact_metadata should_auto_supersede_fact
    fetch_active_long_term_fact_rows upsert cached_metadata cache_memory_record delete_cached_memory
    resume ◌>>=◌ ◌>>◌ give ask edit on_error recovered archive_active_long_term_facts compare_rows
    classify_fact classify with_category join_lines extract_primary_message_text mirror mirror_if_id
    store_verdict store_decided store_memory_with_governance require_scope enforce_user_identity
    enforce_agent_identity enforce_project_identity choose_project merge_project_id_into_metadata
    check_memory log_reply add_memory write_audit
program = tt

abbrev small : Backend (List Text)
small = record {
  add = λ memory owner meta infer s. (ok (some memory), memory ∷ s);
  get = λ memory_id s. (ok none, s);
  remove = λ memory_id s. (ok tt, s);
  get_all = λ owner s. (ok [], s);
}

abbrev kept : Text → Metadata → Decision
kept raw meta = record {
  skip = false;
  reason = [];
  canonical = raw;
  canonicalized = false;
  noise_kind = none;
  from_llm = false;
  memory_kind = none;
}

abbrev key : Auth
key = record {
  actor_type = agent_key;
  actor_label = some (text "codex");
  agent_id = some (text "codex");
  user_id = some (text "ann");
  project_ids = text "p" ∷ [];
  scopes = text "store" ∷ [];
  is_admin = false;
}

abbrev payload : MemoryCreate
payload = record {
  messages = record { role = text "user"; content = text "hello" } ∷ [];
  user_id = none;
  agent_id = none;
  run_id = none;
  project_id = none;
  metadata = no_metadata;
  infer = false;
}

abbrev server : Server (List Text)
server = record { memories = record { cache = []; held = [] }; audit = [] }

abbrev stamp : Stamp
stamp = record { event_id = text "e"; created_at = 1 }

abbrev call : Result Reply × Server (List Text)
call = add_memory small (λ t. t) (text "2026") stamp kept key payload server

abbrev reply : Reply
reply = added (some (text "hello")) none false (record {
  meta = record no_metadata { project_id = some (text "p") };
  fact_action = stored_fact;
  fact_status = none;
  fact_key = none;
  superseded_rows = [];
  conflicts_with = [];
})

answered : call.0 ≡ ok reply
unfolding program
answered = refl

add_memory-IsOwn_example :
    (owner : Owner) × (metadata : Metadata) × IsOwn key owner metadata
    × Stores small
        (λ t. t)
        (text "2026")
        payload.infer
        metadata.project_id
        owner
        server.memories
        call.1.memories
        reply
add_memory-IsOwn_example =
    add_memory-IsOwn small (λ t. t) (text "2026") stamp kept key payload server reply refl answered
