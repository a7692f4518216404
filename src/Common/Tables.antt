-- ===== src/Common/Tables.antt =====
-- A table is the list of its rows in the order of insertion. `select`, `update` and `delete` are
-- SELECT, UPDATE and DELETE with a WHERE clause, `first` is `fetchone()`, and `sort_by` is ORDER BY.
use mathlib.Core.Path.{◌≡◌, refl, sym, subst}
use mathlib.Core.Logic.{◌≢◌, inl, inr}
use mathlib.Core.Bool.{Bool, true, false, not}
use mathlib.Core.Option
use mathlib.Core.Option.{Option, none, some}
use mathlib.Core.List.{List, [], ◌∷◌, ◌++◌}
use native.Mathlib.Omega.{arith}
use automem.Common.Booleans.{if◌then◌else◌, Bool-cases}
use automem.Common.Lists.{All, All-append, length}

module _ {ℓ} {A : Type ℓ} where
  unfoldable pub select : (A → Bool) → List A → List A
  select p [] = []
  select p (x ∷ xs) = let rest = select p xs in if p x then x ∷ rest else rest

  unfoldable pub update : (A → Bool) → (A → A) → List A → List A
  update p f [] = []
  update p f (x ∷ xs) = (if p x then f x else x) ∷ update p f xs

  unfoldable pub delete : (A → Bool) → List A → List A
  unfolding select
  delete p = select (λ x. not (p x))

  unfoldable pub first : (A → Bool) → List A → Option A
  first p [] = none
  first p (x ∷ xs) = if p x then some x else first p xs

  -- Stable, as Python's `sorted`: equal keys keep their order.
  unfoldable pub sort_insert : (A → A → Bool) → A → List A → List A
  sort_insert le x [] = x ∷ []
  sort_insert le x (y ∷ ys) = if le x y then x ∷ y ∷ ys else y ∷ sort_insert le x ys

  unfoldable pub sort_by : (A → A → Bool) → List A → List A
  unfolding sort_insert
  sort_by le [] = []
  sort_by le (x ∷ xs) = sort_insert le x (sort_by le xs)

module _ {ℓ κ} {A : Type ℓ} (P : A → Type κ) where
  pub All-select : (p : A → Bool) (xs : List A) → All P xs → All P (select p xs)
  unfolding select
  All-select p [] h = tt
  All-select p (x ∷ xs) h = elim (Bool-cases (p x)) [
    | inl e ↦ rw e (h.0, All-select p xs h.1)
    | inr e ↦ rw e (All-select p xs h.1)
  ]

  -- The rows that an update changes satisfy `P` afterwards, the others did before.
  pub All-update :
      (p : A → Bool) (f : A → A)
      → ((x : A) → p x ≡ true → P x → P (f x))
      → (xs : List A) → All P xs
      → All P (update p f xs)
  unfolding update
  All-update p f keep [] h = tt
  All-update p f keep (x ∷ xs) h = elim (Bool-cases (p x)) [
    | inl e ↦ rw e (keep x e h.0, All-update p f keep xs h.1)
    | inr e ↦ rw e (h.0, All-update p f keep xs h.1)
  ]

  pub All-update_of :
      (p : A → Bool) (f : A → A) (xs : List A)
      → All (λ x. p x ≡ true → P (f x)) xs
      → All P xs
      → All P (update p f xs)
  unfolding update
  All-update_of p f [] k h = tt
  All-update_of p f (x ∷ xs) k h = elim (Bool-cases (p x)) [
    | inl e ↦ rw e (k.0 e, All-update_of p f xs k.1 h.1)
    | inr e ↦ rw e (h.0, All-update_of p f xs k.1 h.1)
  ]

  pub All-first : (p : A → Bool) (xs : List A) {x : A} → All P xs → first p xs ≡ some x → P x
  unfolding first
  All-first p [] h e = absurd (cc)
  All-first p (y ∷ ys) {x} h e = elim (Bool-cases (p y)) [
    | inl t ↦ subst P (cc t) h.0
    | inr t ↦ All-first p ys h.1 (rw t at e)
  ]

module _ {ℓ} {A : Type ℓ} where
  pub first-test : (p : A → Bool) (xs : List A) {x : A} → first p xs ≡ some x → p x ≡ true
  unfolding first
  first-test p [] e = cc
  first-test p (y ∷ ys) {x} e = elim (Bool-cases (p y)) [
    | inl t ↦ subst (λ z. p z ≡ true) (cc t) t
    | inr t ↦ first-test p ys (rw t at e)
  ]

  pub first-append :
      (p : A → Bool) (xs ys : List A)
      → first p (xs ++ ys) ≡ elim (first p xs) [ none ↦ first p ys | some x ↦ some x ]
  unfolding first
  first-append p [] ys = refl
  first-append p (x ∷ xs) ys = elim (Bool-cases (p x)) [
    | inl t ↦ rw t
    | inr t ↦ rw t (first-append p xs ys)
  ]

  -- A lookup after an update that does not change what the lookup tests.
  pub first-update :
      (p q : A → Bool) (f : A → A)
      → ((x : A) → p x ≡ true → q (f x) ≡ q x)
      → (xs : List A)
      → first q (update p f xs) ≡ Option.map (λ x. if p x then f x else x) (first q xs)
  unfolding first update
  first-update p q f keep [] = refl
  first-update p q f keep (x ∷ xs) = elim (Bool-cases (p x)) [
    | inl t ↦ ground (arith, t, keep x t, first-update p q f keep xs)
    | inr t ↦ ground (arith, t, first-update p q f keep xs)
  ]

  -- A lookup finds nothing that was deleted.
  pub first-delete_self : (p : A → Bool) (xs : List A) → first p (delete p xs) ≡ none
  unfolding first delete
  first-delete_self p [] = refl
  first-delete_self p (x ∷ xs) = ground (arith, first-delete_self p xs)

  pub first-delete_ne :
      (p q : A → Bool)
      → ((x : A) → q x ≡ true → p x ≡ false)
      → (xs : List A) → first q (delete p xs) ≡ first q xs
  unfolding first delete
  first-delete_ne p q apart [] = refl
  first-delete_ne p q apart (x ∷ xs) = elim (Bool-cases (q x)) [
    | inl t ↦ rw (apart x t, t)
    | inr t ↦ ground (arith, t, first-delete_ne p q apart xs)
  ]

module _ {ℓ κ} {A : Type ℓ} {K : Type κ} (key : A → K) where
  -- A PRIMARY KEY or UNIQUE column: no two rows have the same key.
  abbrev pub UniqueBy : List A → Type κ
  UniqueBy [] = Unit
  UniqueBy (x ∷ xs) = All (λ y. key y ≢ key x) xs × UniqueBy xs

  pub UniqueBy-select : (p : A → Bool) (xs : List A) → UniqueBy xs → UniqueBy (select p xs)
  unfolding select
  UniqueBy-select p [] h = tt
  UniqueBy-select p (x ∷ xs) h = elim (Bool-cases (p x)) [
    | inl e ↦ rw e (All-select _ p xs h.0, UniqueBy-select p xs h.1)
    | inr e ↦ rw e (UniqueBy-select p xs h.1)
  ]

  pub UniqueBy-update :
      (p : A → Bool) (f : A → A)
      → ((x : A) → p x ≡ true → key (f x) ≡ key x)
      → (xs : List A) → UniqueBy xs
      → UniqueBy (update p f xs)
  unfolding update
  UniqueBy-update p f keep [] h = tt
  UniqueBy-update p f keep (x ∷ xs) h = elim (Bool-cases (p x)) [
    | inl e ↦ rw (e, keep x e) (apart, UniqueBy-update p f keep xs h.1)
    | inr e ↦ rw e (apart, UniqueBy-update p f keep xs h.1)
  ]
    where
      apart : All (λ y. key y ≢ key x) (update p f xs)
      apart = All-update (λ y. key y ≢ key x) p f (λ y t n. rw (keep y t) n) xs h.0

  pub UniqueBy-append_one :
      (xs : List A) (x : A) → UniqueBy xs → All (λ y. key y ≢ key x) xs → UniqueBy (xs ++ x ∷ [])
  UniqueBy-append_one [] x h fresh = (tt, tt)
  UniqueBy-append_one (y ∷ ys) x h fresh = (
    All-append _ ys (x ∷ []) h.0 (λ e. fresh.0 (sym e), tt),
    UniqueBy-append_one ys x h.1 fresh.1,
  )

module _ {ℓ} {A : Type ℓ} where
  -- An update that does not change what is counted.
  pub length-select-update :
      (p q : A → Bool) (f : A → A)
      → ((x : A) → q (f x) ≡ q x)
      → (xs : List A) → length (select q (update p f xs)) ≡ length (select q xs)
  unfolding select update
  length-select-update p q f keep [] = refl
  length-select-update p q f keep (x ∷ xs) =
      ground (arith, keep x, length-select-update p q f keep xs)

  pub select-append :
      (q : A → Bool) (xs ys : List A) → select q (xs ++ ys) ≡ select q xs ++ select q ys
  unfolding select
  select-append q [] ys = refl
  select-append q (x ∷ xs) ys = ground (arith, select-append q xs ys)

  pub select-eq_nil : (q : A → Bool) (xs : List A) → first q xs ≡ none → select q xs ≡ []
  unfolding first select
  select-eq_nil q [] h = refl
  select-eq_nil q (x ∷ xs) h = ground (arith, select-eq_nil q xs)

  pub All-select_test : (q : A → Bool) (xs : List A) → All (λ x. q x ≡ true) (select q xs)
  unfolding select
  All-select_test q [] = tt
  All-select_test q (x ∷ xs) = elim (Bool-cases (q x)) [
    | inl e ↦ rw e (e, All-select_test q xs)
    | inr e ↦ rw e (All-select_test q xs)
  ]

  -- What holds of the selected rows holds of every row that passes the test.
  pub All-of-select {κ} :
      (P : A → Type κ) (q : A → Bool) (xs : List A)
      → All P (select q xs)
      → All (λ x. q x ≡ true → P x) xs
  unfolding select
  All-of-select P q [] h = tt
  All-of-select P q (x ∷ xs) h = elim (Bool-cases (q x)) [
    | inl e ↦
        let both : All P (x ∷ select q xs) = rw e at h in (λ _. both.0, All-of-select P q xs both.1)
    | inr e ↦ (λ t. absurd (cc), All-of-select P q xs (rw e at h))
  ]

  pub first-none : (p : A → Bool) (xs : List A) → first p xs ≡ none → All (λ x. p x ≡ false) xs
  unfolding first
  first-none p [] h = tt
  first-none p (x ∷ xs) h = (ground arith, first-none p xs (ground arith))

  pub select-nil : (q : A → Bool) (xs : List A) → select q xs ≡ [] → All (λ x. q x ≡ false) xs
  unfolding select
  select-nil q [] h = tt
  select-nil q (x ∷ xs) h = elim (Bool-cases (q x)) [
    | inl e ↦ absurd (ground (arith, e))
    | inr e ↦ (e, select-nil q xs (rw e at h))
  ]
