-- ===== src/Common/Selecting.antt =====
-- A WHERE clause and an ORDER BY clause commute.
use automem.Common.Sorting.{IsOrder, IsSorted, sort_by-IsSorted, All-sort_by, All-sort_insert}
use automem.Common.{
  ◌≤◌, ◌+◌, length, ◌≡◌, ◌≢◌, refl, sym, Bool, true, false, ◌&&◌, List, [], ◌∷◌, arith, Bool-cases,
  inl, inr, All, All-map_of, select, sort_insert, sort_by, UniqueBy,
}

module _ {ℓ} {A : Type ℓ} where
  pub select_every : (q : A → Bool) (xs : List A) → All (λ x. q x ≡ true) xs → select q xs ≡ xs
  unfolding select
  select_every q [] h = refl
  select_every q (x ∷ xs) h = ground (arith, h.0, select_every q xs h.1)

  pub select-none : (q : A → Bool) (xs : List A) → All (λ x. q x ≡ false) xs → select q xs ≡ []
  unfolding select
  select-none q [] h = refl
  select-none q (x ∷ xs) h = ground (arith, h.0, select-none q xs h.1)

  pub length-select_le : (q : A → Bool) (xs : List A) → length (select q xs) ≤ length xs
  unfolding select
  length-select_le q [] = omega arith
  length-select_le q (x ∷ xs) = ground (arith, length-select_le q xs)

  length-sort_insert :
      (le : A → A → Bool) (x : A) (ys : List A) → length (sort_insert le x ys) ≡ length ys + 1
  unfolding sort_insert
  length-sort_insert le x [] = omega arith
  length-sort_insert le x (y ∷ ys) = ground (arith, length-sort_insert le x ys)

  pub length-sort_by : (le : A → A → Bool) (xs : List A) → length (sort_by le xs) ≡ length xs
  unfolding sort_by
  length-sort_by le [] = refl
  length-sort_by le (x ∷ xs) =
      omega (arith, length-sort_insert le x (sort_by le xs), length-sort_by le xs)

  pub select-select :
      (p q : A → Bool) (xs : List A) → select q (select p xs) ≡ select (λ x. p x && q x) xs
  unfolding select
  select-select p q [] = refl
  select-select p q (x ∷ xs) = ground (arith, select-select p q xs)

module _ {ℓ} {A : Type ℓ} {le : A → A → Bool} (order : IsOrder le) (q : A → Bool) where
  -- An element below all others goes to the front.
  sort_insert_front :
      (x : A) (ys : List A) → All (λ y. le x y ≡ true) ys → sort_insert le x ys ≡ x ∷ ys
  unfolding sort_insert
  sort_insert_front x [] h = refl
  sort_insert_front x (y ∷ ys) h = ground (arith, h.0)

  All-selected : (P : A → Type 0) (xs : List A) → All P xs → All P (select q xs)
  unfolding select
  All-selected P [] h = tt
  All-selected P (x ∷ xs) h = elim (Bool-cases (q x)) [
    | inl e ↦ rw e (h.0, All-selected P xs h.1)
    | inr e ↦ rw e (All-selected P xs h.1)
  ]

  select-sort_insert_out :
      (x : A) (ys : List A) → q x ≡ false → select q (sort_insert le x ys) ≡ select q ys
  unfolding select sort_insert
  select-sort_insert_out x [] h = ground (arith, h)
  select-sort_insert_out x (y ∷ ys) h = ground (arith, h, select-sort_insert_out x ys h)

  select-sort_insert_in :
      (x : A) (ys : List A)
      → q x ≡ true
      → IsSorted order ys
      → select q (sort_insert le x ys) ≡ sort_insert le x (select q ys)
  unfolding select sort_insert
  select-sort_insert_in x [] h s = ground (arith, h)
  select-sort_insert_in x (y ∷ ys) h s = elim (Bool-cases (le x y)) [
    | inl e ↦
        let front = sort_insert_front x (select q ys) (
          All-selected (λ z. le x z ≡ true) ys
            (All-map_of _ _ (λ z k. order.trans x y z e k) ys s.0)) in
        ground (arith, e, h, front)
    | inr e ↦ ground (arith, e, h, select-sort_insert_in x ys h s.1)
  ]

  pub select-sort_by : (xs : List A) → select q (sort_by le xs) ≡ sort_by le (select q xs)
  unfolding select sort_by
  select-sort_by [] = refl
  select-sort_by (x ∷ xs) = elim (Bool-cases (q x)) [
    | inl e ↦
        rw (select-sort_insert_in x (sort_by le xs) e (sort_by-IsSorted order xs))
          (ground (arith, e, select-sort_by xs))
    | inr e ↦ rw (select-sort_insert_out x (sort_by le xs) e) (ground (arith, e, select-sort_by xs))
  ]

module _ {ℓ κ} {A : Type ℓ} {K : Type κ} (key : A → K) (le : A → A → Bool) where
  UniqueBy-sort_insert :
      (x : A) (ys : List A)
      → All (λ y. key y ≢ key x) ys
      → UniqueBy key ys
      → UniqueBy key (sort_insert le x ys)
  unfolding sort_insert
  UniqueBy-sort_insert x [] h u = (tt, tt)
  UniqueBy-sort_insert x (y ∷ ys) h u = elim (Bool-cases (le x y)) [
    | inl e ↦ rw e (h, u)
    | inr e ↦ rw e (
      All-sort_insert (λ z. key z ≢ key y) le x ys (λ e. h.0 (sym e)) u.0,
      UniqueBy-sort_insert x ys h.1 u.1,
    )
  ]

  pub UniqueBy-sort_by : (xs : List A) → UniqueBy key xs → UniqueBy key (sort_by le xs)
  unfolding sort_by
  UniqueBy-sort_by [] u = tt
  UniqueBy-sort_by (x ∷ xs) u =
      UniqueBy-sort_insert x (sort_by le xs) (All-sort_by _ le xs u.0) (UniqueBy-sort_by xs u.1)
