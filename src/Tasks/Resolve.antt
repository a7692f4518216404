-- ===== src/Tasks/Resolve.antt =====
-- `resolve_task` of backend/routing.py: the task to which a message belongs. The test for task-like content
-- and the score of a task are parameters; a score, a floating-point number of the program, is only
-- compared, and a natural number here.
use automem.Common.{
  ℕ, Bool, not, Option, none, some, List, [], ◌∷◌, map, select, sort_by, leb, if◌then◌else◌,
}
use automem.Text.{Text, text, ◌==◌}
use automem.Http.{Result, ok, ◌>>=◌}
use automem.Tasks.{Task, TaskRules}
use automem.Tasks.Pages.{Codec, TaskView, fetch_tasks}
use automem.Tasks.Titles.{derive_task_title, make_task_id}
use automem.Tasks.Summary.{
  TaskSummaryWrite, TextTests, Reason, derive_task_summary, evaluate_task_materialization,
}

pub record Matcher : Type 0 where
  pub looks_task_worthy : (message : Text) (assistant_output : Option Text) → Bool
  pub task_candidate_score : (message : Text) → TaskView → ℕ
  pub question_threshold : ℕ
  pub match_threshold : ℕ

-- `TaskResolutionRequest`
pub record ResolutionRequest : Type 0 where
  pub user_id : Option Text
  pub agent_id : Option Text
  pub project_id : Option Text
  pub message : Text
  pub assistant_output : Option Text

-- The answers. The first three have the action `no_task`.
pub data Resolution : Type 0 where
  not_task_like unmatched_question : Resolution
  refused : (task_kind : Text) → Reason → Resolution
  match_existing_task propose_new_task : (task_id title : Text) → Resolution

-- The request by which a proposed task is judged.
abbrev pub proposal : ResolutionRequest → (task_id title : Text) → TaskSummaryWrite
proposal request task_id title = record {
  user_id = request.user_id;
  agent_id = request.agent_id;
  project_id = request.project_id;
  task_id = some task_id;
  title = some title;
  summary = none;
  progress = none;
  blocker = none;
  next_action = none;
  message = some request.message;
  assistant_output = request.assistant_output;
}

module _ (codec : Codec) (rules : TaskRules) (tests : TextTests) (matcher : Matcher) where
  unfoldable pub propose_task : ResolutionRequest → Resolution
  propose_task request =
      let title = derive_task_title request.message in
      let task_id = make_task_id title in
      let payload = proposal request task_id title in
      let (should_materialize, task_kind, reason) =
        evaluate_task_materialization tests rules task_id title payload
          (derive_task_summary payload) in
      if not should_materialize then refused task_kind reason else propose_new_task task_id title

  -- `scored`, the best first; equal scores keep the order of the listing.
  unfoldable pub rank_tasks : Text → List TaskView → List (ℕ × TaskView)
  rank_tasks message tasks =
      sort_by (λ (a b : ℕ × TaskView). leb b.0 a.0)
        (map (λ (view : TaskView). (matcher.task_candidate_score message view, view))
          (select (λ (view : TaskView). view.task_kind == text "work") tasks))

  -- Behind the look at the best task.
  unfoldable pub resolve_unmatched : ResolutionRequest → Resolution
  resolve_unmatched request =
      if tests.is_task_lookup_question request.message
      then unmatched_question
      else propose_task request

  unfoldable pub resolve_ranked : ResolutionRequest → List (ℕ × TaskView) → Resolution
  resolve_ranked request [] = resolve_unmatched request
  resolve_ranked request ((score, view) ∷ ranked) =
      let threshold =
        if tests.is_task_lookup_question request.message
        then matcher.question_threshold
        else matcher.match_threshold in
      if leb threshold score
      then match_existing_task view.task.task_id view.task.title
      else resolve_unmatched request

  unfoldable pub resolve_task : ResolutionRequest → List Task → Result Resolution
  resolve_task request table =
      if not (matcher.looks_task_worthy request.message request.assistant_output)
      then ok not_task_like
      else (do
        tasks ←
            fetch_tasks codec rules
              (record {
                user_id = request.user_id;
                project_id = request.project_id;
                status = some (text "active");
              })
              50 table
        ok (resolve_ranked request (rank_tasks request.message tasks)))
