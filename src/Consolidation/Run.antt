-- ===== src/Consolidation/Run.antt =====
-- `run_consolidation_operation`, and the endpoint that runs it (backend/routers/governance.py). All calls
-- of the clock in one run answer `clock`.
use automem.Common.{
  ℕ, ◌+◌, Bool, true, not, ◌&&◌, Option, none, some, List, [], if◌then◌else◌, length, select,
}
use automem.Text.{Text, text, ◌==◌}
use automem.Http.{Result, ok, err}
use automem.Audit.{AuditEvent, write_audit}
use automem.Auth.{Auth, require_scope}
use automem.Metadata.{Metadata}
use automem.Cache.Rows.{load_long_term_cache_rows}
use automem.Services.{Backend}
use automem.Services.Flow.{Flow, give}
use automem.Services.Rebuild.{rebuild_memory_cache}
use automem.Services.Store.{Decision}
use automem.Tasks.{Task, TaskRules}
use automem.Tasks.Scan.{NormalizeOptions, new_scan}
use automem.Tasks.Normalize.{NormalizeCounts, TaskWorld, normalize_tasks}
use automem.Consolidation.{ConsolidateRequest, ConsolidateResult}
use automem.Consolidation.Review.{Review, no_review, is_reviewed, review_rows, duplicate_memory_ids}
use automem.Consolidation.Changes.{archive_closed_tasks, dedupe_memories, supersede_facts}
use automem.Consolidation.Facts.{Supersession, find_supersessions, superseded_fact_count}
use automem.Endpoints.Memories.{Stamp, event_of}

-- The steps change the tasks and the memories, and an exception leaves what was done before it.
abbrev pub Run : Type 0 → Type 0 → Type 0
Run S T = TaskWorld S → Result T × TaskWorld S

infixl 5 ◌>>=◌
unfoldable pub go_on :
    {S T U : Type 0} → (T → Run S U) → Result T × TaskWorld S → Result U × TaskWorld S
go_on next (ok t, w) = next t w
go_on next (err e, w) = (err e, w)

unfoldable pub ◌>>=◌ : {S T U : Type 0} → Run S T → (T → Run S U) → Run S U
(call >>= next) w = go_on next (call w)

module _ {S : Type 0} where
  unfoldable pub on_memories : {T : Type 0} → Flow S T → Run S T
  on_memories call w = let (r, memories) = call w.memories in (r, record w { memories = memories })

  -- A value that is read from the tables.
  unfoldable pub reading : {T : Type 0} → (TaskWorld S → T) → Run S T
  reading f w = (ok (f w), w)

  unfoldable pub when : Bool → Run S (Unit {0}) → Run S (Unit {0})
  when test call w = if test then call w else (ok tt, w)

-- `task_normalize_result` before the call.
abbrev no_counts : NormalizeCounts
no_counts = record {
  scanned_tasks = 0;
  rebuilt_cache_count = 0;
  scan = new_scan [];
  deleted_archived_non_work_tasks = 0;
  deleted_archived_non_work_memory = 0;
  deleted_archived_work_without_memory_tasks = 0;
  changed_tasks = 0;
}

abbrev pub normalize_options : ConsolidateRequest → NormalizeOptions
normalize_options payload = record {
  user_id = payload.user_id;
  project_id = payload.project_id;
  archive_non_work_active = true;
  prune_non_work_archived = payload.prune_non_work_archived;
  archive_work_without_memory_active = payload.archive_work_without_memory_active;
  prune_work_without_memory_archived = payload.prune_work_without_memory_archived;
  dry_run = payload.dry_run;
}

-- `cursor.rowcount` of the UPDATE.
unfoldable pub closed_count : List Task → ℕ
closed_count tasks = length (select (λ (row : Task). row.status == text "closed") tasks)

-- The keyword arguments `runtime_path`, `worker_id` and `job_id`.
pub record Origin : Type 0 where
  pub runtime_path : Text
  pub worker_id : Option Text
  pub job_id : Option Text

unfoldable pub result_of :
    ConsolidateRequest
    → Origin
    → (rebuilt : ℕ) → NormalizeCounts
    → Review
    → (duplicates : List Text) → (closed : ℕ) → List Supersession
    → ConsolidateResult
result_of payload origin rebuilt counts review duplicates closed supersessions = record {
  dry_run = payload.dry_run;
  rebuilt_cache_count = rebuilt;
  duplicate_long_term_count = length duplicates;
  canonicalized_long_term_count = review.canonicalized_long_term_count;
  superseded_fact_count = superseded_fact_count supersessions;
  deleted_noise_count = length review.noise_memory_ids;
  archived_tasks_count = counts.scan.archived_tasks + closed;
  normalized_tasks_count = counts.changed_tasks;
  task_reclassified_count = counts.scan.archived_tasks;
  tasks_scanned_count = counts.scanned_tasks;
  non_work_tasks_detected_count = counts.scan.kinds_reclassified;
  active_non_work_detected_count = counts.scan.active_non_work_detected;
  archived_non_work_detected_count = counts.scan.archived_non_work_detected;
  deleted_archived_non_work_tasks_count = counts.deleted_archived_non_work_tasks;
  deleted_archived_non_work_memory_count = counts.deleted_archived_non_work_memory;
  task_titles_rewritten_count = counts.scan.updated_titles;
  closed_tasks_archived_count = closed;
  user_id = payload.user_id;
  project_id = payload.project_id;
  runtime_path = origin.runtime_path;
  worker_id = origin.worker_id;
  job_id = origin.job_id;
}

module _ {S : Type 0} (b : Backend S) (digest : Text → Text) (clock : Text) where
  -- The rebuild of the cache, if a user is named.
  unfoldable pub rebuild_for_user : Option Text → Flow S ℕ
  rebuild_for_user none = give 0
  rebuild_for_user (some user_id) =
      rebuild_memory_cache b digest clock
        (record { user_id = some user_id; run_id = none; agent_id = none })

unfoldable pub archive_closed : {S : Type 0} → Text → Run S (Unit {0})
archive_closed clock w = (ok tt, record w { tasks = archive_closed_tasks clock w.tasks })

unfoldable pub normalize_if_asked :
    {S : Type 0}
    → Backend S
    → (clock : Text) → TaskRules
    → ConsolidateRequest
    → Run S NormalizeCounts
normalize_if_asked b clock rules payload w =
    if payload.normalize_task_state
    then normalize_tasks
        (if payload.prune_non_work_archived && not payload.dry_run then some b else none) rules
        (normalize_options payload) clock none w
    else (ok no_counts, w)

module _ {S : Type 0} (b : Backend S) (digest : Text → Text) (clock : Text) (rules : TaskRules)
    (govern_memory_text : Text → Metadata → (origin : Text) → Decision) where
  -- The part behind the normalization of the tasks.
  unfoldable pub consolidate_memories :
      ConsolidateRequest → Origin → (rebuilt : ℕ) → NormalizeCounts → Run S ConsolidateResult
  consolidate_memories payload origin rebuilt counts = do
    review ← reading (λ w.
        review_rows govern_memory_text (select (is_reviewed payload) w.memories.cache) no_review)
    let duplicates = duplicate_memory_ids review.long_term_groups
    let archiving = payload.archive_closed_tasks && not payload.dry_run
    closed ← reading (λ w. if archiving then closed_count w.tasks else 0)
    _ ← when archiving (archive_closed clock)
    _ ← when (payload.dedupe_long_term && not payload.dry_run) (
        on_memories
          (dedupe_memories b digest clock review.noise_memory_ids review.rewrite_rows duplicates))
    supersessions ← reading (λ w.
        find_supersessions digest clock
          (load_long_term_cache_rows payload.user_id payload.project_id w.memories.cache))
    _ ← when (not payload.dry_run) (on_memories (supersede_facts b digest clock supersessions))
    reading (λ w. result_of payload origin rebuilt counts review duplicates closed supersessions)

  unfoldable pub run_consolidation_operation : ConsolidateRequest → Origin → Run S ConsolidateResult
  run_consolidation_operation payload origin = do
    rebuilt ← on_memories (rebuild_for_user b digest clock payload.user_id)
    counts ← normalize_if_asked b clock rules payload
    consolidate_memories payload origin rebuilt counts

-- The tables, with the log.
pub record ConsolidateServer (S : Type 0) : Type 0 where
  pub world : TaskWorld S
  pub audit : List (AuditEvent ConsolidateResult)

-- The endpoint. Only a result is logged.
unfoldable pub consolidate :
    {S : Type 0}
    → Backend S
    → (Text → Text)
    → (clock : Text) → TaskRules
    → (Text → Metadata → Text → Decision)
    → Stamp
    → Auth
    → ConsolidateRequest
    → ConsolidateServer S
    → Result ConsolidateResult × ConsolidateServer S
consolidate b digest clock rules govern_memory_text stamp auth payload w =
    elim (require_scope auth (text "admin")) [
      | err e ↦ (err e, w)
      | ok _ ↦
          let (r, world) =
            run_consolidation_operation b digest clock rules govern_memory_text payload
              (record { runtime_path = text "api_inline"; worker_id = none; job_id = none })
              w.world in
          elim r [
            | err e ↦ (err e, record w { world = world })
            | ok result ↦ (
              ok result,
              record {
                world = world;
                audit =
                    write_audit
                      (event_of stamp auth auth.agent_id (text "consolidate") none none none result)
                      w.audit;
              },
            )
          ]
    ]
