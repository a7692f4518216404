-- ===== src/Tasks/Summary/Gate.antt =====
-- When a task is written.
use automem.Tasks.Policy.{should_store_task_memory, should_materialize_task}
use automem.Tasks.{TaskRules}
use automem.Tasks.Titles.{is_part}
use automem.Tasks.Summary.{
  accepted, evaluate_task_materialization, TaskSummaryWrite, normal_of, values_of, haystack_of,
  Structured, any_text, task_has_actionable_signal, join_spaces, TextTests,
}
use automem.Common.{
  true, some, Bool, ◌↔◌, Bool-cases, map, Option, List, select, ◌≡◌, refl, [], ◌∷◌, false, ◌&&◌,
  ◌||◌, not, arith, inl, inr,
}
use automem.Text.{eq_refl, or_empty, text, ◌==◌, or_else, Text, is_empty}

join_nonempty :
    (part : Text) (parts : List Text)
    → is_empty part ≡ false
    → is_empty (join_spaces (part ∷ parts)) ≡ false
join_nonempty [] parts h = cc
join_nonempty (c ∷ s) [] h = refl
join_nonempty (c ∷ s) (next ∷ parts) h = refl

-- The joined text is empty if no value has a text.
join_empty :
    (values : List (Option Text))
    → is_empty (join_spaces (select is_part (map normal_of values))) ≡ not (any_text values)
unfolding select any_text
join_empty [] = refl
join_empty (value ∷ values) = elim (Bool-cases (is_empty (normal_of value))) [
  | inl e ↦ let ih = join_empty values in rw (e, ih) refl
  | inr e ↦ rw (e, join_nonempty (normal_of value) (select is_part (map normal_of values)) e) refl
]

regroup :
    (kind no_title no_summary talk : Bool)
    → (kind && (not (no_title && no_summary) && not talk))
      ≡ ((kind && (not no_title || (not no_summary || false))) && not talk)
regroup kind no_title no_summary talk = ground arith

module _ (tests : TextTests) where
  -- The project makes no difference.
  signal_iff :
      (title message assistant_output : Option Text) (structured : Structured)
      (project_id : Option Text)
      → task_has_actionable_signal tests title message assistant_output structured project_id ≡ (
          (any_text (title ∷ message ∷ assistant_output ∷ [])
            && tests.has_action_word (haystack_of tests title message assistant_output structured))
          || any_text (values_of structured))
  unfolding task_has_actionable_signal any_text
  signal_iff title message assistant_output structured project_id =
      ground (arith, join_empty (title ∷ message ∷ assistant_output ∷ values_of structured))

  module _ (rules : TaskRules) (task_id title : Text) (payload : TaskSummaryWrite)
      (structured : Structured) where
    abbrev pub summary_of : Option Text
    summary_of = or_else structured.summary payload.summary

    -- The kind by the rules.
    abbrev pub kind_of : Text
    kind_of = rules.classify_task_kind task_id title summary_of payload.agent_id payload.project_id

    -- It is work, has a title or a summary, the title is no talk, the message no question, and there is a
    -- word for an action or a field.
    abbrev pub is_admitted : Bool
    is_admitted =
        ((is_empty kind_of || (kind_of == text "work")) && any_text (some title ∷ summary_of ∷ []))
        && ((not (tests.looks_conversational_title (normal_of (some title)))
              && not (tests.is_task_lookup_question (or_empty payload.message)))
            && ((any_text (some title ∷ payload.message ∷ payload.assistant_output ∷ [])
                  && tests.has_action_word (
                      haystack_of tests (some title) payload.message payload.assistant_output
                        structured))
                || any_text (values_of structured)))

    storable : Bool
    storable =
        should_materialize_task tests.looks_conversational_title (some kind_of) (some title)
          summary_of

    signalled : Bool
    signalled =
        task_has_actionable_signal tests (some title) payload.message payload.assistant_output
          structured payload.project_id

    storable_iff : storable ≡ (
        ((is_empty kind_of || (kind_of == text "work")) && any_text (some title ∷ summary_of ∷ []))
        && not (tests.looks_conversational_title (normal_of (some title))))
    unfolding storable should_materialize_task should_store_task_memory any_text
    storable_iff = go kind_of
      where
        go :
            (kind : Text)
            → should_materialize_task tests.looks_conversational_title
                (some kind)
                (some title)
                summary_of
              ≡ (((is_empty kind || (kind == text "work"))
                    && any_text (some title ∷ summary_of ∷ []))
                  && not (tests.looks_conversational_title (normal_of (some title))))
        go [] = rw (eq_refl (text "work")) (regroup true _ _ _)
        go (c ∷ s) = regroup (c ∷ s == text "work") _ _ _

    admitted_iff : is_admitted ≡ (
        storable && (not (tests.is_task_lookup_question (or_empty payload.message)) && signalled))
    unfolding signalled
    admitted_iff = ground (
      arith,
      storable_iff,
      signal_iff (some title) payload.message payload.assistant_output structured
          payload.project_id,
    )

    -- A task is written exactly if its kind is empty or work, it has a title or a summary, the title is no
    -- talk, the message no question, and there is a word for an action, with a title, a message or an output,
    -- or a field; and the reason is `accepted` exactly then. The project has a part in it only by the kind.
    pub evaluate_task_materialization_lem :
        ((evaluate_task_materialization tests rules task_id title payload structured).0
          ≡ is_admitted)
        × ((evaluate_task_materialization tests rules task_id title payload structured).2 ≡ accepted
            ↔ is_admitted ≡ true)
    unfolding evaluate_task_materialization storable signalled
    evaluate_task_materialization_lem = elim (Bool-cases storable) [
      | inr n ↦ (
        ground (arith, admitted_iff, n),
        (ground (arith, admitted_iff, n), ground (arith, admitted_iff, n)),
      )
      | inl y ↦ elim (Bool-cases (tests.is_task_lookup_question (or_empty payload.message))) [
        | inl q ↦ (
          ground (arith, admitted_iff, y, q),
          (ground (arith, admitted_iff, y, q), ground (arith, admitted_iff, y, q)),
        )
        | inr q ↦ elim (Bool-cases signalled) [
          | inr f ↦ (
            ground (arith, admitted_iff, y, q, f),
            (ground (arith, admitted_iff, y, q, f), ground (arith, admitted_iff, y, q, f)),
          )
          | inl t ↦ (
            ground (arith, admitted_iff, y, q, t),
            (ground (arith, admitted_iff, y, q, t), ground (arith, admitted_iff, y, q, t)),
          )
        ]
      ]
    ]
