-- ===== src/Tasks/Titles.antt =====
-- The text helpers of backend/tasks.py. `re.I` is modelled on ASCII letters, as `lower` is.
pub mod Bounds
pub mod Ids
use automem.Common.{
  ℕ, ◌-◌, Bool, true, false, ◌&&◌, ◌||◌, not, Option, none, some, List, [], ◌∷◌, ◌++◌, leb, nat_eq,
  if◌then◌else◌, take, length, map, select,
}
use automem.Text.{Text, text, ◌==◌, elem, lower, is_empty, truthy, or_empty, contains}
use automem.Text.Normalize.{normalize_text}
use automem.Cache.Facts.{contains_any}

-- The characters between two sentences.
abbrev is_stop : ℕ → Bool
is_stop c =
    nat_eq c 10
    || nat_eq c 0x3002
    || nat_eq c 0xff01
    || nat_eq c 0xff1f
    || nat_eq c 33
    || nat_eq c 63
    || nat_eq c 59
    || nat_eq c 0xff1b

-- The first part up to a stop, and the other parts. A run of stops leaves empty parts, which are dropped.
abbrev pub cons_part : ℕ → Text × List Text → Text × List Text
cons_part c (part, parts) = if is_stop c then ([], part ∷ parts) else (c ∷ part, parts)

unfoldable pub cut_sentences : Text → Text × List Text
cut_sentences [] = ([], [])
cut_sentences (c ∷ s) = cons_part c (cut_sentences s)

abbrev pub is_part : Text → Bool
is_part part = not (is_empty part)

unfoldable pub split_sentences : Text → List Text
split_sentences s =
    let (part, parts) = cut_sentences s in select is_part (map normalize_text (part ∷ parts))

-- Every limit that the program gives is positive. The last character is an ellipsis.
unfoldable pub compact_text : Option Text → ℕ → Option Text
compact_text given limit =
    if not (truthy given)
    then none
    else (let normalized = normalize_text (or_empty given) in
        if is_empty normalized
        then none
        else if leb (length normalized) limit
        then some normalized
        else some (take (limit - 1) normalized ++ 0x2026 ∷ []))

-- `value or default`
abbrev pub or_default : Text → Text → Text
or_default default [] = default
or_default default (c ∷ s) = c ∷ s

-- The title, by the sentences of the message.
abbrev pub first_title : Text → List Text → Text
first_title message [] = or_default (text "untitled-task") (take 80 (normalize_text message))
first_title message (sentence ∷ sentences) = take 80 sentence

unfoldable pub derive_task_title : Text → Text
derive_task_title message = first_title message (split_sentences message)

-- [a-z0-9一-鿿]
abbrev pub is_slug_char : ℕ → Bool
is_slug_char c = (leb 97 c && leb c 122) || (leb 48 c && leb c 57) || (leb 0x4e00 c && leb c 0x9fff)

-- A run of other characters becomes a dash. The flag says that the dash has been written already.
unfoldable pub dashes : Bool → Text → Text
dashes inside [] = []
dashes inside (c ∷ s) =
    let rest = dashes (not (is_slug_char c)) s in
    if is_slug_char c then c ∷ rest else if inside then rest else 45 ∷ rest

-- `strip("-")`
unfoldable pub lstrip_dash : Text → Text
lstrip_dash [] = []
lstrip_dash (c ∷ s) = let rest = lstrip_dash s in if nat_eq c 45 then rest else c ∷ s

abbrev pub keep_dash : ℕ → Text → Text
keep_dash c [] = if nat_eq c 45 then [] else c ∷ []
keep_dash c (d ∷ s) = c ∷ d ∷ s

unfoldable pub rstrip_dash : Text → Text
rstrip_dash [] = []
rstrip_dash (c ∷ s) = keep_dash c (rstrip_dash s)

unfoldable pub make_task_id : Text → Text
make_task_id title =
    let slug = rstrip_dash (lstrip_dash (dashes false (lower (normalize_text title)))) in
    text "task_" ++ or_default (text "task") (take 48 slug)
