-- ===== src/Tasks/Summary/Tests.antt =====
-- A request that is written as a task, and the theorems at it.
use automem.Common.{◌≡◌, ◌↔◌, refl, true, false, some, none, select}
use automem.Text.{text, ◌==◌, elem, lower, lower_char, starts_with, contains}
use automem.Text.Normalize.{normalize_text}
use automem.Cache.Facts.{contains_any}
use automem.Tasks.{TaskRules}
use automem.Tasks.Titles.{
  dashes, lstrip_dash, rstrip_dash, make_task_id, cut_sentences, split_sentences, derive_task_title,
  compact_text,
}
use automem.Tasks.Titles.Bounds.{IsShort}
use automem.Tasks.Titles.Ids.{IsIdText, make_task_id_bounds}
use automem.Tasks.Policy.{should_store_task_memory, should_materialize_task}
use automem.Tasks.Summary.{
  TaskSummaryWrite, Structured, TextTests, field_or, derive_task_summary, any_text,
  task_has_actionable_signal, evaluate_task_materialization, accepted,
}
use automem.Tasks.Summary.Gate.{is_admitted, evaluate_task_materialization_lem}

program : Unit {0}
unfolding ◌==◌ elem lower lower_char starts_with contains normalize_text contains_any select dashes
    lstrip_dash rstrip_dash make_task_id cut_sentences split_sentences derive_task_title
    compact_text should_store_task_memory should_materialize_task field_or derive_task_summary
    any_text task_has_actionable_signal evaluate_task_materialization
program = tt

slug_of_title : make_task_id (text " Fix  the Parser! ") ≡ text "task_fix-the-parser"
unfolding program
slug_of_title = refl

first_sentence : derive_task_title (text "!Fix it. Now! Then rest") ≡ text "Fix it. Now"
unfolding program
first_sentence = refl

make_task_id_bounds_example :
    IsShort 53 (make_task_id (text " Fix  the Parser! "))
    × IsIdText (make_task_id (text " Fix  the Parser! "))
    × (starts_with (make_task_id (text " Fix  the Parser! ")) (text "task_") ≡ true)
make_task_id_bounds_example = make_task_id_bounds (text " Fix  the Parser! ")

abbrev payload : TaskSummaryWrite
payload = record {
  user_id = some (text "ann");
  agent_id = some (text "codex");
  project_id = none;
  task_id = none;
  title = none;
  summary = none;
  progress = none;
  blocker = some (text " none  yet ");
  next_action = none;
  message = some (text "fix the parser");
  assistant_output = some (text "I fixed it");
}

abbrev structured : Structured
structured = record {
  summary = some (text "I fixed it");
  progress = some (text "I fixed it");
  blocker = some (text "none yet");
  next_action = none;
}

derived : derive_task_summary payload ≡ structured
unfolding program
derived = refl

abbrev tests : TextTests
tests = record {
  has_action_word = λ t. contains t (text "fix");
  is_task_lookup_question = λ t. false;
  looks_conversational_title = λ t. false;
}

abbrev rules : TaskRules
rules = record {
  sanitize_task_title = λ title last_summary task_id. title;
  classify_task_kind = λ task_id title last_summary source_agent project_id. text "work";
  sanitize_task_summary_preview = λ last_summary. last_summary;
}

written :
    evaluate_task_materialization tests rules (text "t") (text "Fix it") payload structured
    ≡ (true, text "work", accepted)
unfolding program
written = refl

evaluate_task_materialization_lem_example :
    ((evaluate_task_materialization tests rules (text "t") (text "Fix it") payload structured).0
      ≡ is_admitted tests rules (text "t") (text "Fix it") payload structured)
    × ((evaluate_task_materialization tests rules (text "t") (text "Fix it") payload structured).2
          ≡ accepted
        ↔ is_admitted tests rules (text "t") (text "Fix it") payload structured ≡ true)
evaluate_task_materialization_lem_example =
    evaluate_task_materialization_lem tests rules (text "t") (text "Fix it") payload structured
