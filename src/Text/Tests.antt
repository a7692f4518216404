-- ===== src/Text/Tests.antt =====
-- Strings that are trimmed, and the theorems at them.
use automem.Text.Strings.{clean_from, clean_strings}
use automem.Text.Normalize.{normalize_text}
use automem.Text.Normalize.Laws.{IsNormal-iff-fixed, IsNormal}
use automem.Common.{◌↔◌, ◌≡◌, refl, List, [], ◌∷◌}
use automem.Text.{◌==◌, elem, Text, text}

program : Unit {0}
unfolding normalize_text clean_strings clean_from elem ◌==◌
program = tt

abbrev raws : List Text
raws = text " a  b" ∷ text "a b " ∷ text "  " ∷ text "c" ∷ []

trimmed : clean_strings raws ≡ text "a b" ∷ text "c" ∷ []
unfolding program
trimmed = refl

IsNormal-iff-fixed_example : IsNormal (text "a b") ↔ (normalize_text (text "a b") ≡ text "a b")
IsNormal-iff-fixed_example = IsNormal-iff-fixed (text "a b")
