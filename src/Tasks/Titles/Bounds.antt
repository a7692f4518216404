-- ===== src/Tasks/Titles/Bounds.antt =====
-- How long the texts are that the helpers give.
use automem.Text.Normalize.{normalize_text}
use automem.Tasks.Titles.{
  first_title, is_part, or_default, split_sentences, compact_text, derive_task_title,
}
use automem.Common.{
  zero, suc, none, some, length-append, leb, All-select_test, length-take_le, select, suc, some,
  take, Bool-cases, All, length, ℕ, List, Option, ◌≡◌, [], ◌∷◌, true, false, ◌≤◌, ◌-◌, arith, inl,
  inr,
}
use automem.Text.{or_empty, truthy, Text, text, is_empty}

-- Not empty, and at most so long.
pub record IsShort (limit : ℕ) (s : Text) : Type 0 where
  pub some_char : 1 ≤ length s
  pub short : length s ≤ limit

nonempty : (s : Text) → is_empty s ≡ false → 1 ≤ length s
nonempty [] h = absurd (cc)
nonempty (c ∷ s) h = omega arith

take-length : (n : ℕ) (s : Text) → 1 ≤ n → 1 ≤ length s → 1 ≤ length (take n s)
take-length zero s h k = absurd (omega arith)
take-length (suc n) [] h k = absurd (omega arith)
take-length (suc n) (c ∷ s) h k = omega arith

or_default-IsShort :
    (limit : ℕ) (default s : Text)
    → IsShort limit default
    → length s ≤ limit
    → IsShort limit (or_default default s)
or_default-IsShort limit default [] d h = d
or_default-IsShort limit default (c ∷ s) d h = record { some_char = omega arith; short = h }

-- What an optional text is, if it is one.
abbrev pub Given : (Text → Type 0) → Option Text → Type 0
Given P none = Unit
Given P (some s) = P s

pub compact_text-IsShort :
    (given : Option Text) (limit : ℕ) → 1 ≤ limit → Given (IsShort limit) (compact_text given limit)
unfolding compact_text
compact_text-IsShort given limit h = elim (Bool-cases (truthy given)) [
  | inr t ↦ rw t tt
  | inl t ↦ elim (Bool-cases (is_empty (normalize_text (or_empty given)))) [
    | inl e ↦ rw (t, e) tt
    | inr e ↦ elim (Bool-cases (leb (length (normalize_text (or_empty given))) limit)) [
      | inl fits ↦
          rw (t, e, fits)
            (record {
              some_char = nonempty (normalize_text (or_empty given)) e;
              short = ground (arith, fits);
            })
      | inr long ↦
          rw (t, e, long)
            (record {
              some_char = omega (
                arith,
                length-append (take (limit - 1) (normalize_text (or_empty given))) (0x2026 ∷ []),
              );
              short = omega (
                arith,
                h,
                length-append (take (limit - 1) (normalize_text (or_empty given))) (0x2026 ∷ []),
                length-take_le (limit - 1) (normalize_text (or_empty given)),
              );
            })
    ]
  ]
]

parts_nonempty : (parts : List Text) → All (λ part. is_part part ≡ true) (select is_part parts)
parts_nonempty parts = All-select_test is_part parts

first_title-IsShort :
    (message : Text) (sentences : List Text)
    → All (λ part. is_part part ≡ true) sentences
    → IsShort 80 (first_title message sentences)
first_title-IsShort message [] h =
    or_default-IsShort 80 (text "untitled-task") _
      (record { some_char = omega arith; short = omega arith })
      (length-take_le 80 (normalize_text message))
first_title-IsShort message (sentence ∷ sentences) h = record {
  some_char = take-length 80 sentence (omega arith) (nonempty sentence (ground (arith, h.0)));
  short = length-take_le 80 sentence;
}

-- A title has between 1 and 80 characters, whatever the message.
derive_task_title-IsShort : (message : Text) → IsShort 80 (derive_task_title message)
unfolding derive_task_title split_sentences
derive_task_title-IsShort message = first_title-IsShort message _ (parts_nonempty _)
