-- ===== src/Endpoints/Summaries.antt =====
-- The endpoints `task-resolution` and `task-summaries` of backend/routers/tasks.py.
pub mod Writes
mod Tests
use automem.Common.{ℕ, Bool, not, Option, none, some, List, [], ◌∷◌, if◌then◌else◌}
use automem.Text.{Text, text, truthy, or_empty, or_else}
use automem.Http.{Result, ok, err, ◌>>=◌, ◌>>◌}
use automem.Metadata.{Metadata}
use automem.Audit.{AuditEvent, write_audit}
use automem.Endpoints.Memories.{Stamp, event_of}
use automem.Auth.{
  Auth, require_scope, enforce_user_identity, enforce_project_identity, enforce_agent_identity,
}
use automem.Cache.Rows.{Owner}
use automem.Services.{Backend, Memories}
use automem.Services.Store.{Decision, Reply}
use automem.Tasks.{Task, TaskRules}
use automem.Tasks.Pages.{Codec}
use automem.Tasks.Rows.{TaskWrite, upsert_task}
use automem.Tasks.Normalize.{TaskWorld}
use automem.Tasks.Policy.{
  Field, summary, progress, blocker, next_action, FieldDecision, FieldVerdict, Filtered,
  filter_task_memory_fields,
}
use automem.Tasks.Summary.{
  TaskSummaryWrite, Structured, TextTests, Reason, derive_task_summary, fields_of,
  evaluate_task_materialization,
}
use automem.Tasks.Memories.{field_metadata, store_fields}
use automem.Tasks.Resolve.{
  Matcher, ResolutionRequest, Resolution, not_task_like, unmatched_question, refused,
  match_existing_task, propose_new_task, resolve_task,
}

-- The checks, and the request with the identities that they give.
unfoldable pub check_summary : Auth → TaskSummaryWrite → Result TaskSummaryWrite
check_summary auth payload = do
  require_scope auth (text "task")
  user_id ← enforce_user_identity auth payload.user_id
  project_id ← enforce_project_identity auth payload.project_id
  agent_id ← enforce_agent_identity auth payload.agent_id
  ok (record payload { user_id = user_id; project_id = project_id; agent_id = agent_id })

-- `task_resolution`: the checks, and the request with the identities that they give.
unfoldable pub check_resolution : Auth → ResolutionRequest → Result ResolutionRequest
check_resolution auth request = do
  require_scope auth (text "task")
  user_id ← enforce_user_identity auth request.user_id
  project_id ← enforce_project_identity auth request.project_id
  agent_id ← enforce_agent_identity auth request.agent_id
  ok (record request { user_id = user_id; project_id = project_id; agent_id = agent_id })

-- The details of the event: the message, and the resolution with its action.
abbrev pub ResolutionDetail : Type 0
ResolutionDetail = Text × Resolution

abbrev pub task_id_of : Resolution → Option Text
task_id_of not_task_like = none
task_id_of unmatched_question = none
task_id_of (refused task_kind reason) = none
task_id_of (match_existing_task task_id title) = some task_id
task_id_of (propose_new_task task_id title) = some task_id

unfoldable pub log_resolution :
    Stamp
    → Auth
    → ResolutionRequest
    → Result Resolution
    → List (AuditEvent ResolutionDetail)
    → Result Resolution × List (AuditEvent ResolutionDetail)
log_resolution stamp auth request (err e) audit = (err e, audit)
log_resolution stamp auth request (ok resolution) audit = (
  ok resolution,
  write_audit
      (event_of stamp auth request.agent_id (text "task_resolution") request.user_id
        request.project_id (task_id_of resolution) (request.message, resolution))
      audit,
)

unfoldable pub task_resolution :
    Codec
    → TaskRules
    → TextTests
    → Matcher
    → Stamp
    → Auth
    → ResolutionRequest
    → List Task
    → List (AuditEvent ResolutionDetail)
    → Result Resolution × List (AuditEvent ResolutionDetail)
task_resolution codec rules tests matcher stamp auth asked table audit =
    elim (check_resolution auth asked) [
      | err e ↦ (err e, audit)
      | ok request ↦
          log_resolution stamp auth request (resolve_task codec rules tests matcher request table)
            audit
    ]

abbrev pub request_of : TaskSummaryWrite → ResolutionRequest
request_of payload = record {
  user_id = payload.user_id;
  agent_id = payload.agent_id;
  project_id = payload.project_id;
  message = or_empty (or_else payload.message payload.summary);
  assistant_output = payload.assistant_output;
}

-- The task that is written, with its title if one is known, or the resolution without a task.
pub data Named : Type 0 where
  unnamed : Resolution → Named
  named : Option Resolution → (task_id : Text) → (title : Option Text) → Named

unfoldable pub named_by : (title : Option Text) → Resolution → Named
named_by title not_task_like = unnamed not_task_like
named_by title unmatched_question = unnamed unmatched_question
named_by title (refused task_kind reason) = unnamed (refused task_kind reason)
named_by title (match_existing_task task_id found) =
    named (some (match_existing_task task_id found)) task_id (or_else title (some found))
named_by title (propose_new_task task_id proposed) =
    named (some (propose_new_task task_id proposed)) task_id (or_else title (some proposed))

-- The answers: three with the action `skipped`, and `stored`.
pub data SummaryReply : Type 0 where
  no_task : Resolution → SummaryReply
  skipped_task : Option Resolution → (task_kind : Text) → Reason → SummaryReply
  no_fields : Option Resolution → (task_kind : Text) → List (Field × FieldVerdict) → SummaryReply
  stored_task :
      Option Resolution
      → Task
      → (task_kind : Text) → List (Field × FieldVerdict)
      → List Reply
      → SummaryReply

abbrev pub task_write : TaskSummaryWrite → (task_id title : Text) → Structured → TaskWrite
task_write payload task_id title structured = record {
  task_id = task_id;
  user_id = or_empty payload.user_id;
  project_id = payload.project_id;
  title = title;
  source_agent = payload.agent_id;
  last_summary = or_else structured.summary payload.summary;
  aliases = [];
}

module _ {S : Type 0} (b : Backend S) (digest : Text → Text) (now : Text)
    (govern_memory_text : Text → Metadata → Decision)
    (govern_text_decision : Text → Metadata → FieldDecision) where
  -- Behind the memories.
  unfoldable pub finish_summary :
      (List Reply → SummaryReply)
      → List Task
      → Result (List Reply) × Memories S
      → Result SummaryReply × TaskWorld S
  finish_summary answer tasks (err e, memories) =
      (err e, record { tasks = tasks; memories = memories })
  finish_summary answer tasks (ok replies, memories) =
      (ok (answer replies), record { tasks = tasks; memories = memories })

  module _ (codec : Codec) (rules : TaskRules) (tests : TextTests) (matcher : Matcher) where
    -- The task is written before its memories, each in a transaction of its own.
    unfoldable pub store_approved :
        TaskSummaryWrite
        → Option Resolution
        → (task_id title task_kind : Text) → Structured
        → Filtered
        → TaskWorld S
        → Result SummaryReply × TaskWorld S
    store_approved payload resolution task_id title task_kind structured ([], decisions) w =
        (ok (no_fields resolution task_kind decisions), w)
    store_approved payload resolution task_id title task_kind structured
          (approved ∷ more, decisions) w =
        let (task, tasks) =
          upsert_task rules now (task_write payload task_id title structured) w.tasks in
        finish_summary (stored_task resolution task task_kind decisions) tasks (
          store_fields b digest now govern_memory_text payload task_id (approved ∷ more) w.memories)

    unfoldable pub write_named :
        TaskSummaryWrite → Named → TaskWorld S → Result SummaryReply × TaskWorld S
    write_named payload (unnamed resolution) w = (ok (no_task resolution), w)
    write_named payload (named resolution task_id given) w =
        let title = or_empty (or_else given (some task_id)) in
        let structured = derive_task_summary payload in
        let (should_materialize, task_kind, reason) =
          evaluate_task_materialization tests rules task_id title payload structured in
        if not should_materialize
        then (ok (skipped_task resolution task_kind reason), w)
        else store_approved payload resolution task_id title task_kind structured
            (filter_task_memory_fields (some task_kind)
              (λ field value. govern_text_decision value (field_metadata payload task_id field))
              (fields_of structured))
            w

    unfoldable pub name_task : TaskSummaryWrite → List Task → Result Named
    name_task payload table =
        if truthy payload.task_id
        then ok (named none (or_empty payload.task_id) payload.title)
        else (do
          resolution ← resolve_task codec rules tests matcher (request_of payload) table
          ok (named_by payload.title resolution))

    unfoldable pub write_summary :
        TaskSummaryWrite → Result Named → TaskWorld S → Result SummaryReply × TaskWorld S
    write_summary payload (err e) w = (err e, w)
    write_summary payload (ok target) w = write_named payload target w

    unfoldable pub summarize_checked :
        Result TaskSummaryWrite → TaskWorld S → Result SummaryReply × TaskWorld S
    summarize_checked (err e) w = (err e, w)
    summarize_checked (ok payload) w = write_summary payload (name_task payload w.tasks) w

    unfoldable pub task_summaries :
        Auth → TaskSummaryWrite → TaskWorld S → Result SummaryReply × TaskWorld S
    task_summaries auth payload w = summarize_checked (check_summary auth payload) w
