-- ===== src/Common/Sorting.antt =====
-- ORDER BY and `sorted`: the rows stay the same and come in order, and LIMIT 1 takes the least.
use mathlib.Core.List.{head?}
use automem.Common.{
  ◌≡◌, ◌≢◌, none, arith, refl, subst, Bool, true, false, some, List, [], ◌∷◌, Bool-cases, inl, inr,
  All, All-map_of, sort_insert, sort_by,
}

module _ {ℓ κ} {A : Type ℓ} (P : A → Type κ) (le : A → A → Bool) where
  pub All-sort_insert : (x : A) (ys : List A) → P x → All P ys → All P (sort_insert le x ys)
  unfolding sort_insert
  All-sort_insert x [] h k = (h, tt)
  All-sort_insert x (y ∷ ys) h k = elim (Bool-cases (le x y)) [
    | inl e ↦ rw e (h, k)
    | inr e ↦ rw e (k.0, All-sort_insert x ys h k.1)
  ]

  pub All-sort_by : (xs : List A) → All P xs → All P (sort_by le xs)
  unfolding sort_by
  All-sort_by [] h = tt
  All-sort_by (x ∷ xs) h = All-sort_insert x (sort_by le xs) h.0 (All-sort_by xs h.1)

  All-of-sort_insert : (x : A) (ys : List A) → All P (sort_insert le x ys) → P x × All P ys
  unfolding sort_insert
  All-of-sort_insert x [] h = (h.0, tt)
  All-of-sort_insert x (y ∷ ys) h = elim (Bool-cases (le x y)) [
    | inl e ↦ rw e at h
    | inr e ↦
        let moved : All P (y ∷ sort_insert le x ys) = rw e at h in
        let (here, rest) = All-of-sort_insert x ys moved.1 in (here, (moved.0, rest))
  ]

  pub All-of-sort_by : (xs : List A) → All P (sort_by le xs) → All P xs
  unfolding sort_by
  All-of-sort_by [] h = tt
  All-of-sort_by (x ∷ xs) h =
      let (here, rest) = All-of-sort_insert x (sort_by le xs) h in (here, All-of-sort_by xs rest)

-- A test by which to sort.
pub record IsOrder {ℓ} {A : Type ℓ} (le : A → A → Bool) : Type ℓ where
  pub total : (a b : A) → le a b ≡ false → le b a ≡ true
  pub trans : (a b c : A) → le a b ≡ true → le b c ≡ true → le a c ≡ true

module _ {ℓ} {A : Type ℓ} {le : A → A → Bool} (order : IsOrder le) where
  abbrev pub IsSorted : List A → Type 0
  IsSorted [] = Unit
  IsSorted (x ∷ xs) = All (λ y. le x y ≡ true) xs × IsSorted xs

  le_self : (a : A) → le a a ≡ true
  le_self a = elim (Bool-cases (le a a)) [ inl e ↦ e | inr e ↦ order.total a a e ]

  sort_insert-IsSorted : (x : A) (ys : List A) → IsSorted ys → IsSorted (sort_insert le x ys)
  unfolding sort_insert
  sort_insert-IsSorted x [] h = (tt, tt)
  sort_insert-IsSorted x (y ∷ ys) h = elim (Bool-cases (le x y)) [
    | inl e ↦ rw e ((e, All-map_of _ _ (λ z k. order.trans x y z e k) ys h.0), h)
    | inr e ↦
        rw e (All-sort_insert _ le x ys (order.total x y e) h.0, sort_insert-IsSorted x ys h.1)
  ]

  pub sort_by-IsSorted : (xs : List A) → IsSorted (sort_by le xs)
  unfolding sort_by
  sort_by-IsSorted [] = tt
  sort_by-IsSorted (x ∷ xs) = sort_insert-IsSorted x (sort_by le xs) (sort_by-IsSorted xs)

  least_of_head : (l : List A) {x : A} → IsSorted l → head? l ≡ some x → All (λ y. le x y ≡ true) l
  least_of_head [] s e = absurd (cc)
  least_of_head (y ∷ ys) {x} s e =
      let same : y ≡ x = cc in subst (λ z. All (λ w. le z w ≡ true) (y ∷ ys)) same (le_self y, s.0)

  -- What stands first after sorting is at most everything.
  pub head-sort_by :
      (xs : List A) {x : A} → head? (sort_by le xs) ≡ some x → All (λ y. le x y ≡ true) xs
  head-sort_by xs e = All-of-sort_by _ le xs (least_of_head (sort_by le xs) (sort_by-IsSorted xs) e)

module _ {ℓ κ} {A : Type ℓ} (P : A → Type κ) where
  pub head_of_All : (l : List A) {x : A} → All P l → head? l ≡ some x → P x
  head_of_All [] h e = absurd (cc)
  head_of_All (y ∷ ys) {x} h e = let same : y ≡ x = cc in subst P same h.0

module _ {ℓ} {A : Type ℓ} (le : A → A → Bool) where
  head-sort_insert : (x : A) (ys : List A) → head? (sort_insert le x ys) ≢ none
  unfolding sort_insert
  head-sort_insert x [] e = cc
  head-sort_insert x (y ∷ ys) e = ground arith

  -- Only of no rows there is no least.
  pub head-sort_by-none : (xs : List A) → head? (sort_by le xs) ≡ none → xs ≡ []
  unfolding sort_by
  head-sort_by-none [] e = refl
  head-sort_by-none (x ∷ xs) e = absurd (head-sort_insert x (sort_by le xs) e)
