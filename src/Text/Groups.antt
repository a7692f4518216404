-- ===== src/Text/Groups.antt =====
-- Tuples of texts as the lists of their parts: their equality, their order, and dictionaries that collect
-- items by such a key (`groups.setdefault(key, []).append(item)`).
pub mod Laws
use automem.Common.{Bool, true, false, not, ◌&&◌, ◌||◌, List, [], ◌∷◌, ◌++◌, if◌then◌else◌}
use automem.Text.{Text, ◌==◌, text_lt}

abbrev pub Key : Type 0
Key = List Text

unfoldable pub key_eq : Key → Key → Bool
key_eq [] [] = true
key_eq [] (t ∷ ts) = false
key_eq (s ∷ ss) [] = false
key_eq (s ∷ ss) (t ∷ ts) = (s == t) && key_eq ss ts

-- `a < b`
unfoldable pub key_lt : Key → Key → Bool
key_lt [] [] = false
key_lt [] (t ∷ ts) = true
key_lt (s ∷ ss) [] = false
key_lt (s ∷ ss) (t ∷ ts) = text_lt s t || ((s == t) && key_lt ss ts)

-- `a <= b`, by which `sorted` orders.
unfoldable pub key_le : Key → Key → Bool
key_le a b = not (key_lt b a)

module _ {ℓ} {A : Type ℓ} (key : A → Key) where
  abbrev pub Groups : Type ℓ
  Groups = List (Key × List A)

  unfoldable pub add_to_group : A → Groups → Groups
  add_to_group x [] = (key x, x ∷ []) ∷ []
  add_to_group x ((k, xs) ∷ groups) =
      let rest = add_to_group x groups in
      if key_eq k (key x) then (k, xs ++ x ∷ []) ∷ groups else (k, xs) ∷ rest

  unfoldable pub group_from : List A → Groups → Groups
  group_from [] groups = groups
  group_from (x ∷ xs) groups = group_from xs (add_to_group x groups)

  -- The groups in the order of their first items.
  unfoldable pub group_by : List A → Groups
  group_by items = group_from items []
