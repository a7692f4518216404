-- ===== src/Tasks/Summary.antt =====
-- The summary of a task and the gate before it is written (backend/tasks.py). The classification and the
-- regular expressions for action words, lookup questions and conversational titles are parameters.
pub mod Gate
pub mod Fields
mod Tests
use automem.Common.{
  ℕ, Bool, true, false, ◌&&◌, ◌||◌, not, Option, none, some, List, [], ◌∷◌, ◌++◌, map, select,
  if◌then◌else◌,
}
use automem.Text.{Text, text, ◌==◌, lower, is_empty, truthy, or_empty, or_else}
use automem.Text.Normalize.{normalize_text}
use automem.Cache.Facts.{contains_any}
use automem.Tasks.{TaskRules}
use automem.Tasks.Titles.{compact_text, is_part}
use automem.Tasks.Policy.{Field, summary, progress, blocker, next_action, should_materialize_task}

-- `TaskSummaryWriteRequest`
pub record TaskSummaryWrite : Type 0 where
  pub user_id : Option Text
  pub agent_id : Option Text
  pub project_id : Option Text
  pub task_id : Option Text
  pub title : Option Text
  pub summary : Option Text
  pub progress : Option Text
  pub blocker : Option Text
  pub next_action : Option Text
  pub message : Option Text
  pub assistant_output : Option Text

-- The dictionary of `derive_task_summary`.
pub record Structured : Type 0 where
  pub summary : Option Text
  pub progress : Option Text
  pub blocker : Option Text
  pub next_action : Option Text

abbrev progress_words : List Text
progress_words =
    text "已完成"
    ∷ text "完成了"
    ∷ text "implemented"
    ∷ text "fixed"
    ∷ text "updated"
    ∷ text "created"
    ∷ text "done"
    ∷ text "completed"
    ∷ []

abbrev blocker_words : List Text
blocker_words = text "阻塞" ∷ text "blocker" ∷ text "blocked" ∷ []

abbrev next_words : List Text
next_words = text "下一步" ∷ text "接下来" ∷ text "next step" ∷ text "next action" ∷ []

abbrev pub normal_of : Option Text → Text
normal_of value = normalize_text (or_empty value)

-- A field that is not given is taken from the assistant's output if that has one of the words.
unfoldable pub field_or :
    (given : Option Text) → (assistant : Text) → List Text → (limit : ℕ) → Option Text
field_or given assistant words limit =
    if (not (truthy given) && not (is_empty assistant)) && contains_any (lower assistant) words
    then compact_text (some assistant) limit
    else given

unfoldable pub derive_task_summary : TaskSummaryWrite → Structured
derive_task_summary payload =
    let message = normal_of payload.message in
    let assistant = normal_of payload.assistant_output in
    let given = compact_text payload.summary 240 in
    record {
      summary =
          if truthy given
          then given
          else if not (is_empty assistant)
          then compact_text (some assistant) 180
          else if not (is_empty message)
          then compact_text (some message) 180
          else given;
      progress = field_or (compact_text payload.progress 240) assistant progress_words 220;
      blocker = field_or (compact_text payload.blocker 240) assistant blocker_words 160;
      next_action = field_or (compact_text payload.next_action 240) assistant next_words 160;
    }

-- `structured.items()`
abbrev pub fields_of : Structured → List (Field × Option Text)
fields_of structured =
    (summary, structured.summary)
    ∷ (progress, structured.progress)
    ∷ (blocker, structured.blocker)
    ∷ (next_action, structured.next_action)
    ∷ []

abbrev pub values_of : Structured → List (Option Text)
values_of structured =
    structured.summary ∷ structured.progress ∷ structured.blocker ∷ structured.next_action ∷ []

-- `" ".join(parts)`
abbrev pub join_spaces : List Text → Text
join_spaces [] = []
join_spaces (part ∷ []) = part
join_spaces (part ∷ next ∷ parts) = part ++ 32 ∷ join_spaces (next ∷ parts)

-- `any(_normalize_text(value or "") for value in values)`
unfoldable pub any_text : List (Option Text) → Bool
any_text [] = false
any_text (value ∷ values) = not (is_empty (normal_of value)) || any_text values

-- The regular expressions: words for actions, questions for the state of a task, conversational titles.
pub record TextTests : Type 0 where
  pub has_action_word : Text → Bool
  pub is_task_lookup_question : Text → Bool
  pub looks_conversational_title : Text → Bool

pub data Reason : Type 0 where
  other_kind not_materializable lookup_question not_actionable accepted : Reason

module _ (tests : TextTests) where
  abbrev pub haystack_of : (title message assistant_output : Option Text) → Structured → Text
  haystack_of title message assistant_output structured =
      join_spaces
        (select is_part (map normal_of (title ∷ message ∷ assistant_output ∷ values_of structured)))

  unfoldable pub task_has_actionable_signal :
      (title message assistant_output : Option Text)
      → Structured
      → (project_id : Option Text) → Bool
  task_has_actionable_signal title message assistant_output structured project_id =
      let haystack = haystack_of title message assistant_output structured in
      if is_empty haystack
      then false
      else if tests.has_action_word haystack
      then true
      else if truthy project_id && any_text (values_of structured)
      then true
      else any_text (values_of structured)

  unfoldable pub evaluate_task_materialization :
      TaskRules → (task_id title : Text) → TaskSummaryWrite → Structured → Bool × Text × Reason
  evaluate_task_materialization rules task_id title payload structured =
      let last_summary = or_else structured.summary payload.summary in
      let task_kind =
        rules.classify_task_kind task_id title last_summary payload.agent_id payload.project_id in
      if not (
        should_materialize_task tests.looks_conversational_title (some task_kind) (some title)
          last_summary)
      then (false, task_kind, if task_kind == text "work" then not_materializable else other_kind)
      else if tests.is_task_lookup_question (or_empty payload.message)
      then (false, task_kind, lookup_question)
      else if not (
          task_has_actionable_signal (some title) payload.message payload.assistant_output
            structured payload.project_id)
      then (false, task_kind, not_actionable)
      else (true, task_kind, accepted)
