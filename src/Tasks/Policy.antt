-- ===== src/Tasks/Policy.antt =====
-- backend/governance/task_policy.py behind the classification: what a kind of task may store. The test for
-- conversational titles, a list of regular expressions, is a parameter.
use automem.Common.{Bool, ◌&&◌, ◌||◌, not, Option, some, List, [], ◌∷◌, if◌then◌else◌}
use automem.Text.{Text, text, ◌==◌, is_empty, truthy, or_empty, or_else}
use automem.Text.Normalize.{normalize_text, strip}

-- `(task_kind or "work") == "work"`
unfoldable pub should_store_task_memory : Option Text → Bool
should_store_task_memory task_kind =
    or_empty (or_else task_kind (some (text "work"))) == text "work"

unfoldable pub should_materialize_task :
    (looks_conversational_title : Text → Bool) → (task_kind title last_summary : Option Text) → Bool
should_materialize_task looks_conversational_title task_kind title last_summary =
    let normalized_title = normalize_text (or_empty title) in
    let normalized_summary = normalize_text (or_empty last_summary) in
    should_store_task_memory task_kind
    && (not (is_empty normalized_title && is_empty normalized_summary)
        && not (looks_conversational_title normalized_title))

-- The fields of a summary, in the order of the dictionary.
pub data Field : Type 0 where
  summary progress blocker next_action : Field

-- What `filter_task_memory_fields` reads of a decision.
pub record FieldDecision : Type 0 where
  pub drop : Bool
  pub store_task_memory : Bool
  pub canonical_text : Option Text

-- A field is dropped for the kind of the task, or decided.
pub data FieldVerdict : Type 0 where
  of_kind : (task_kind : Option Text) → FieldVerdict
  judged : FieldDecision → FieldVerdict

abbrev pub Filtered : Type 0
Filtered = List (Field × Text) × List (Field × FieldVerdict)

-- `str(canonical_text or value).strip()`
abbrev pub canonical_of : Text → FieldDecision → Text
canonical_of value decision = strip (or_empty (or_else decision.canonical_text (some value)))

-- The decision on one field, before the approved fields behind it.
unfoldable pub decide_field : Field → Text → FieldDecision → Filtered → Filtered
decide_field field value decision (approved, decisions) =
    let canonical = canonical_of value decision in
    (
      if (decision.drop || not decision.store_task_memory) || is_empty canonical
          then approved
          else (field, canonical) ∷ approved,
      (field, judged decision) ∷ decisions,
    )

unfoldable pub filter_fields :
    (judge_field : Field → Text → FieldDecision) → List (Field × Option Text) → Filtered
filter_fields judge_field [] = ([], [])
filter_fields judge_field ((field, value) ∷ fields) =
    let rest = filter_fields judge_field fields in
    if truthy value
    then decide_field field (or_empty value) (judge_field field (or_empty value)) rest
    else rest

-- Of a task that is no work, each field is dropped.
unfoldable pub drop_fields : Option Text → List (Field × Option Text) → List (Field × FieldVerdict)
drop_fields task_kind [] = []
drop_fields task_kind ((field, value) ∷ fields) =
    let rest = drop_fields task_kind fields in
    if truthy value then (field, of_kind task_kind) ∷ rest else rest

unfoldable pub filter_task_memory_fields :
    (task_kind : Option Text)
    → (judge_field : Field → Text → FieldDecision) → List (Field × Option Text)
    → Filtered
filter_task_memory_fields task_kind judge_field fields =
    if not (should_store_task_memory task_kind)
    then ([], drop_fields task_kind fields)
    else filter_fields judge_field fields
