-- ===== src/Text/Strings.antt =====
-- Lists of strings that are trimmed and freed of duplicates: the loop that `normalize_project_ids` of
-- backend/agent_keys.py and `normalize_string_list` of backend/memory_cache.py share.
pub mod Laws
use automem.Common.{◌||◌, List, [], ◌∷◌, if◌then◌else◌}
use automem.Text.{Text, elem, is_empty}
use automem.Text.Normalize.{normalize_text}

-- The values that the loop appends to `cleaned`, given those that it has `seen`.
unfoldable pub clean_from : List Text → List Text → List Text
clean_from seen [] = []
clean_from seen (raw ∷ raws) =
    let value = normalize_text raw in
    let skipped = clean_from seen raws in
    let appended = value ∷ clean_from (value ∷ seen) raws in
    if is_empty value || elem value seen then skipped else appended

unfoldable pub clean_strings : List Text → List Text
clean_strings = clean_from []
