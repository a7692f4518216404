-- ===== src/Tasks/Memories.antt =====
-- The memories of a task summary: one for each approved field (`task_summaries` of backend/routers/tasks.py).
use automem.Common.{false, some, List, [], ◌∷◌}
use automem.Text.{Text, text}
use automem.Metadata.{Metadata, no_metadata}
use automem.Services.{Backend}
use automem.Services.Flow.{Flow, give, ◌>>=◌}
use automem.Services.Store.{Decision, Reply, store_memory_with_governance}
use automem.Tasks.Policy.{Field, summary, progress, blocker, next_action}
use automem.Tasks.Summary.{TaskSummaryWrite}

-- `category_map`
abbrev pub category_of : Field → Text
category_of summary = text "handoff"
category_of progress = text "progress"
category_of blocker = text "blocker"
category_of next_action = text "next_action"

abbrev pub field_metadata : TaskSummaryWrite → Text → Field → Metadata
field_metadata payload task_id field = record no_metadata {
  domain = some (text "task");
  source_agent = payload.agent_id;
  project_id = payload.project_id;
  category = some (category_of field);
  task_id = some task_id;
}

module _ {S : Type 0} (b : Backend S) (digest : Text → Text) (now : Text)
    (govern_memory_text : Text → Metadata → Decision) where
  -- One memory for each approved field; an exception leaves those before it stored.
  unfoldable pub store_fields : TaskSummaryWrite → Text → List (Field × Text) → Flow S (List Reply)
  store_fields payload task_id [] = give []
  store_fields payload task_id ((field, value) ∷ fields) = do
    reply ←
        store_memory_with_governance b digest now govern_memory_text
          (record { role = text "user"; content = value } ∷ [])
          (record { user_id = payload.user_id; run_id = some task_id; agent_id = payload.agent_id })
          (field_metadata payload task_id field) false
    replies ← store_fields payload task_id fields
    give (reply ∷ replies)
