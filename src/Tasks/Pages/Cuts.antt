-- ===== src/Tasks/Pages/Cuts.antt =====
-- What `take` leaves of a listing.
use automem.Common.{
  ℕ, zero, suc, ◌+◌, ◌≤◌, ◌<◌, ◌≡◌, refl, ap, true, false, List, [], ◌∷◌, ◌++◌, arith, ltb, length,
  take,
}
use automem.Tasks.{Task}

-- The rows behind the first `n`.
abbrev pub drop : ℕ → List Task → List Task
drop zero rows = rows
drop (suc n) [] = []
drop (suc n) (row ∷ rows) = drop n rows

pub take-drop : (n : ℕ) (rows : List Task) → take n rows ++ drop n rows ≡ rows
take-drop zero rows = refl
take-drop (suc n) [] = refl
take-drop (suc n) (row ∷ rows) = ap (λ l. row ∷ l) (take-drop n rows)

pub take-take_suc : (n : ℕ) (rows : List Task) → take n (take (n + 1) rows) ≡ take n rows
take-take_suc zero rows = refl
take-take_suc (suc n) [] = ground arith
take-take_suc (suc n) (row ∷ rows) = ground (arith, take-take_suc n rows)

pub length-take_suc :
    (n : ℕ) (rows : List Task) → ltb n (length (take (n + 1) rows)) ≡ ltb n (length rows)
length-take_suc zero [] = ground arith
length-take_suc zero (row ∷ rows) = ground arith
length-take_suc (suc n) [] = ground arith
length-take_suc (suc n) (row ∷ rows) = ground (arith, length-take_suc n rows)

pub take_all : (n : ℕ) (rows : List Task) → ltb n (length rows) ≡ false → take n rows ≡ rows
take_all zero [] h = refl
take_all zero (row ∷ rows) h = ground (arith, h)
take_all (suc n) [] h = refl
take_all (suc n) (row ∷ rows) h = ground (arith, h, take_all n rows)

length-drop_le : (n : ℕ) (rows : List Task) → length (drop n rows) ≤ length rows
length-drop_le zero rows = omega arith
length-drop_le (suc n) [] = omega arith
length-drop_le (suc n) (row ∷ rows) = omega (arith, length-drop_le n rows)

pub length-drop_lt :
    (n : ℕ) (rows : List Task)
    → 1 ≤ n
    → ltb n (length rows) ≡ true
    → length (drop n rows) < length rows
length-drop_lt zero rows h k = absurd (omega arith)
length-drop_lt (suc n) [] h k = absurd (ground (arith, k))
length-drop_lt (suc n) (row ∷ rows) h k = omega (arith, length-drop_le n rows)
