-- ===== src/Consolidation/Tests.antt =====
-- Consolidations of two facts that say the same, in a backend that names each memory by its text.
use automem.Jobs.Dispatch.Settled.{dispatch_settles, IsSettled}
use automem.Common.{
  first, ◌≡◌, refl, true, false, none, some, List, [], ◌∷◌, All, Any, UniqueBy, select, sort_by,
  sort_insert,
}
use automem.Text.{Text, text, ◌==◌, elem, lower, text_lt}
use automem.Text.Normalize.{normalize_text, strip}
use automem.Text.Strings.{clean_strings, clean_from}
use automem.Text.Groups.{key_eq, key_lt, key_le, add_to_group}
use automem.Http.{ok}
use automem.Jobs.{consolidate_type, Job}
use automem.Jobs.Queue.{fetch_governance_job, new_job}
use automem.Jobs.Dispatch.{dispatch_governance_job, Consolidation, World, Draws}
use automem.Consolidation.Jobs.{consolidation_service}
use automem.Metadata.{Metadata}
use automem.Cache.{CacheRow}
use automem.Services.{Backend}
use automem.Services.Store.{Decision}
use automem.Tasks.{TaskRules}
use automem.Tasks.Normalize.{TaskWorld}
use automem.Consolidation.{ConsolidateRequest, ConsolidateResult}
use automem.Consolidation.Review.{
  build_long_term_duplicate_key, duplicate_memory_ids, ids_after_first, precedes, survivor_key,
  review_rows, review_row, review_kept, governed, no_review, should_run_offline_judge,
}
use automem.Consolidation.Run.{Origin, rebuild_for_user, run_consolidation_operation}
use automem.Consolidation.DryRun.{run_consolidation-dry_run}
use automem.Consolidation.Survivors.{kept_facts, survivors, survivors_cases, HasUniqueIds}
use automem.Cache.Rows.{build_metadata_from_cache_row}
use automem.Cache.Facts.{normalize_fact_status, normalize_string_list}

program : Unit {0}
unfolding ◌==◌ elem lower text_lt select sort_by sort_insert normalize_text strip key_eq key_lt
    key_le add_to_group clean_strings clean_from normalize_fact_status normalize_string_list
    build_metadata_from_cache_row build_long_term_duplicate_key duplicate_memory_ids ids_after_first
    precedes survivor_key should_run_offline_judge governed review_kept review_row review_rows
program = tt

abbrev small : Backend (List Text)
small = record {
  add = λ memory owner meta infer s. (ok (some memory), memory ∷ s);
  get = λ memory_id s. (ok none, s);
  remove = λ memory_id s. (ok tt, s);
  get_all = λ owner s. (ok [], s);
}

abbrev kept : Text → Metadata → Text → Decision
kept raw meta origin = record {
  skip = false;
  reason = [];
  canonical = raw;
  canonicalized = false;
  noise_kind = none;
  from_llm = false;
  memory_kind = none;
}

abbrev rules : TaskRules
rules = record {
  sanitize_task_title = λ title summary id. title;
  classify_task_kind = λ id title summary agent project. text "work";
  sanitize_task_summary_preview = λ summary. summary;
}

abbrev fact_row : Text → Text → CacheRow
fact_row id created_at = record {
  memory_id = id;
  user_id = some (text "ann");
  run_id = none;
  agent_id = none;
  source_agent = none;
  domain = some (text "long_term");
  category = some (text "project_rule");
  project_id = none;
  task_id = none;
  fact_key = some (text "rule:tabs");
  fact_status = text "active";
  valid_from = none;
  valid_to = none;
  supersedes = [];
  superseded_by = none;
  conflict_status = none;
  review_status = none;
  memory = text "use tabs";
  created_at = created_at;
  updated_at = created_at;
}

abbrev rows : List CacheRow
rows = fact_row (text "late") (text "2026") ∷ fact_row (text "early") (text "2025") ∷ []

abbrev world : TaskWorld (List Text)
world = record { tasks = []; memories = record { cache = rows; held = [] } }

abbrev request : ConsolidateRequest
request = record {
  dry_run = true;
  dedupe_long_term = true;
  archive_closed_tasks = true;
  normalize_task_state = true;
  prune_non_work_archived = false;
  archive_work_without_memory_active = true;
  prune_work_without_memory_archived = false;
  user_id = some (text "ann");
  project_id = none;
}

abbrev origin : Origin
origin = record { runtime_path = text "api_inline"; worker_id = none; job_id = none }

rows-HasUniqueIds : HasUniqueIds rows
rows-HasUniqueIds = ((λ e. cc, tt), (tt, tt))

-- The later copy is the duplicate.
late_is_duplicate :
    duplicate_memory_ids (review_rows kept rows no_review).long_term_groups ≡ text "late" ∷ []
unfolding program
late_is_duplicate = refl

survivors_cases_example :
    UniqueBy build_long_term_duplicate_key (survivors kept rows)
    × All
        (λ c.
          Any
            (λ k.
              (build_long_term_duplicate_key k ≡ build_long_term_duplicate_key c)
              × (precedes k c ≡ true))
            (survivors kept rows))
        (kept_facts kept rows)
survivors_cases_example = survivors_cases kept rows rows-HasUniqueIds

run_consolidation-dry_run_example :
    (run_consolidation_operation small (λ t. t) (text "2027") rules kept request origin world).1
    ≡ record world {
      memories =
          (rebuild_for_user small (λ t. t) (text "2027") (some (text "ann")) world.memories).1;
    }
run_consolidation-dry_run_example =
    run_consolidation-dry_run small (λ t. t) (text "2027") rules kept request origin world refl

abbrev waiting : Job ConsolidateRequest ConsolidateResult
waiting = new_job (text "j1") 10 (record {
  job_type = text "consolidate";
  payload = record request { dry_run = false };
  user_id = some (text "ann");
  project_id = none;
  idempotency_key = none;
  max_attempts = 2;
  created_by = none;
})

abbrev draws : Draws
draws = record { id = λ n. text "e"; time = λ n. n }

abbrev service : Consolidation ConsolidateRequest ConsolidateResult (TaskWorld (List Text))
service = consolidation_service small (λ t. t) (text "2027") rules kept (λ fault. text "failed")

abbrev queued : World ConsolidateRequest ConsolidateResult (TaskWorld (List Text))
queued = record { jobs = waiting ∷ []; audit = []; rest = world }

waiting_kind : waiting.job_type ≡ consolidate_type
unfolding program
waiting_kind = refl

waiting_there : fetch_governance_job waiting.job_id queued.jobs ≡ some waiting
unfolding program fetch_governance_job first
waiting_there = refl

-- The job is settled, whatever its consolidation returns.
dispatch-IsSettled :
    (after : Job ConsolidateRequest ConsolidateResult) × ((dispatch_governance_job service draws
        (text "w1")
        waiting
        queued).0
      ≡ ok after)
    × (fetch_governance_job waiting.job_id
          (dispatch_governance_job service draws (text "w1") waiting queued).1.jobs
        ≡ some after)
    × IsSettled service (text "w1") waiting waiting after queued.rest
dispatch-IsSettled =
    dispatch_settles service draws (text "w1") waiting waiting queued waiting_kind waiting_there
