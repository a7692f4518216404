-- ===== src/Common/Members.antt =====
-- Being an element of a list, for types that need not be sets.
use automem.Common.{
  ◌≡◌, refl, sym, ◌∙◌, subst, Bool, true, inl, inr, List, [], ◌∷◌, All, All-map_of, Any, select,
  sort_by, UniqueBy, All-select, All-select_test, All-of-select, All-zip,
}
use automem.Common.Sorting.{All-sort_by, All-of-sort_by}

module _ {A : Type 0} where
  abbrev pub In : A → List A → Type 0
  In x xs = Any (λ y. y ≡ x) xs

  pub All-In : (xs : List A) → All (λ x. In x xs) xs
  All-In [] = tt
  All-In (x ∷ xs) = (inl refl, All-map_of _ _ (λ y h. inr h) xs (All-In xs))

  pub All-lookup : (P : A → Type 0) (xs : List A) (x : A) → All P xs → In x xs → P x
  All-lookup P [] x h m = elim m [ ]
  All-lookup P (y ∷ ys) x h (inl e) = subst P e h.0
  All-lookup P (y ∷ ys) x h (inr m) = All-lookup P ys x h.1 m

  pub Any-of : (P : A → Type 0) (xs : List A) (x : A) → In x xs → P x → Any P xs
  Any-of P [] x m p = m
  Any-of P (y ∷ ys) x (inl e) p = inl (subst P (sym e) p)
  Any-of P (y ∷ ys) x (inr m) p = inr (Any-of P ys x m p)

  -- What holds of an element that passes the test holds of the selected.
  pub All-select_if :
      (P : A → Type 0) (q : A → Bool) (xs : List A)
      → All (λ x. q x ≡ true → P x) xs
      → All P (select q xs)
  All-select_if P q xs h =
      All-map_of _ _ (λ x both. both.0 both.1) (select q xs)
        (All-zip _ _ (select q xs) (All-select _ q xs h) (All-select_test q xs))

  pub In-select : (q : A → Bool) (xs : List A) (x : A) → In x xs → q x ≡ true → In x (select q xs)
  In-select q xs x m p =
      All-lookup (λ y. q y ≡ true → In y (select q xs)) xs x
        (All-of-select (λ y. In y (select q xs)) q xs (All-In (select q xs))) m p

  pub In-of-select :
      (q : A → Bool) (xs : List A) (x : A) → In x (select q xs) → In x xs × (q x ≡ true)
  In-of-select q xs x m =
      All-lookup (λ y. In y xs × (q y ≡ true)) (select q xs) x
        (All-zip _ _ (select q xs) (All-select _ q xs (All-In xs)) (All-select_test q xs)) m

  pub In-sort_by : (le : A → A → Bool) (xs : List A) (x : A) → In x xs → In x (sort_by le xs)
  In-sort_by le xs x m = All-lookup _ xs x (All-of-sort_by _ le xs (All-In (sort_by le xs))) m

  pub In-of-sort_by : (le : A → A → Bool) (xs : List A) (x : A) → In x (sort_by le xs) → In x xs
  In-of-sort_by le xs x m = All-lookup _ (sort_by le xs) x (All-sort_by _ le xs (All-In xs)) m

  module _ {K : Type 0} (key : A → K) where
    -- Elements of one key are the same.
    pub In_lem :
        (xs : List A) (x y : A) → UniqueBy key xs → In x xs → In y xs → key x ≡ key y → x ≡ y
    In_lem [] x y u m n e = elim m [ ]
    In_lem (z ∷ zs) x y u (inl a) (inl b) e = sym a ∙ b
    In_lem (z ∷ zs) x y u (inl a) (inr n) e =
        absurd (All-lookup _ zs y u.0 n (sym e ∙ sym (subst (λ w. key z ≡ key w) a refl)))
    In_lem (z ∷ zs) x y u (inr m) (inl b) e =
        absurd (All-lookup _ zs x u.0 m (e ∙ sym (subst (λ w. key z ≡ key w) b refl)))
    In_lem (z ∷ zs) x y u (inr m) (inr n) e = In_lem zs x y u.1 m n e
