-- ===== src/Tasks/Summary/Fields.antt =====
-- The fields of a derived summary.
use automem.Cache.Facts.{contains_any}
use automem.Tasks.Titles.{compact_text}
use automem.Tasks.Summary.{normal_of, TaskSummaryWrite, field_or, derive_task_summary}
use automem.Common.{Bool-cases, List, Option, ℕ, ◌≤◌, ◌&&◌, not, arith, inl, inr, none, some}
use automem.Text.{lower, truthy, Text, is_empty}
use automem.Tasks.Titles.Bounds.{IsShort, Given, compact_text-IsShort}

widen :
    (limit : ℕ) (given : Option Text)
    → limit ≤ 240
    → Given (IsShort limit) given
    → Given (IsShort 240) given
widen limit none h g = tt
widen limit (some s) h g = record { some_char = g.some_char; short = omega (arith, h, g.short) }

field_or-IsShort :
    (given : Option Text) (assistant : Text) (words : List Text) (limit : ℕ)
    → 1 ≤ limit
    → limit ≤ 240
    → Given (IsShort 240) given
    → Given (IsShort 240) (field_or given assistant words limit)
unfolding field_or
field_or-IsShort given assistant words limit low high g =
    elim (Bool-cases
      ((not (truthy given) && not (is_empty assistant)) && contains_any (lower assistant) words)) [
        | inl e ↦ rw e (widen limit _ high (compact_text-IsShort (some assistant) limit low))
        | inr e ↦ rw e g
      ]

-- Each field of a summary is absent or has between 1 and 240 characters, whatever the request holds.
derive_task_summary-IsShort :
    (payload : TaskSummaryWrite)
    → Given (IsShort 240) (derive_task_summary payload).summary
      × Given (IsShort 240) (derive_task_summary payload).progress
      × Given (IsShort 240) (derive_task_summary payload).blocker
      × Given (IsShort 240) (derive_task_summary payload).next_action
unfolding derive_task_summary
derive_task_summary-IsShort payload = (
  summarized,
  field_or-IsShort _ _ _ 220 (omega arith) (omega arith) (short payload.progress),
  field_or-IsShort _ _ _ 160 (omega arith) (omega arith) (short payload.blocker),
  field_or-IsShort _ _ _ 160 (omega arith) (omega arith) (short payload.next_action),
)
  where
    short : (given : Option Text) → Given (IsShort 240) (compact_text given 240)
    short given = compact_text-IsShort given 240 (omega arith)

    summarized : Given (IsShort 240) (derive_task_summary payload).summary
    summarized = elim (Bool-cases (truthy (compact_text payload.summary 240))) [
      | inl e ↦ rw e (short payload.summary)
      | inr e ↦ elim (Bool-cases (is_empty (normal_of payload.assistant_output))) [
        | inr a ↦
            rw (e, a)
              (widen 180 _ (omega arith) (
                compact_text-IsShort (some (normal_of payload.assistant_output)) 180 (omega arith)))
        | inl a ↦ elim (Bool-cases (is_empty (normal_of payload.message))) [
          | inr m ↦
              rw (e, a, m)
                (widen 180 _ (omega arith)
                  (compact_text-IsShort (some (normal_of payload.message)) 180 (omega arith)))
          | inl m ↦ rw (e, a, m) (short payload.summary)
        ]
      ]
    ]
