-- ===== src/Text/Groups/Laws.antt =====
-- The order on tuples is total, and each group holds the items of its key.
use mathlib.Core.List.{append-nil, append_assoc}
use automem.Common.{
  All-append, All-zip, ◌≡◌, ◌≢◌, refl, sym, ap, ◌∙◌, true, false, List, [], ◌∷◌, ◌++◌, All,
  All-map_of, Any, arith, Bool-cases, inl, inr, select, select-append, UniqueBy,
}
use automem.Common.Sorting.{IsOrder}
use automem.Text.{eq_refl, eq_sound, text_lt}
use automem.Text.Order.{text_lt_irrefl, text_lt_asym, text_lt_trans, text_lt_total}
use automem.Text.Groups.{Key, Groups, key_eq, key_lt, key_le, add_to_group, group_from, group_by}

pub key_eq_refl : (k : Key) → key_eq k k ≡ true
unfolding key_eq
key_eq_refl [] = refl
key_eq_refl (s ∷ ss) = ground (arith, eq_refl s, key_eq_refl ss)

pub key_eq_sound : (j k : Key) → key_eq j k ≡ true → j ≡ k
unfolding key_eq
key_eq_sound [] [] h = refl
key_eq_sound [] (t ∷ ts) h = cc
key_eq_sound (s ∷ ss) [] h = cc
key_eq_sound (s ∷ ss) (t ∷ ts) h = ground (arith, eq_sound s t, key_eq_sound ss ts)

key_lt_asym : (j k : Key) → key_lt j k ≡ true → key_lt k j ≡ false
unfolding key_lt
key_lt_asym [] [] h = cc
key_lt_asym [] (t ∷ ts) h = refl
key_lt_asym (s ∷ ss) [] h = cc
key_lt_asym (s ∷ ss) (t ∷ ts) h = ground (
  arith,
  text_lt_asym s t,
  text_lt_irrefl s,
  text_lt_irrefl t,
  eq_sound s t,
  eq_sound t s,
  key_lt_asym ss ts,
)

-- What is not below `b`, which is not below `a`, is not below `a`.
key_le_trans : (a b c : Key) → key_lt b a ≡ false → key_lt c b ≡ false → key_lt c a ≡ false
unfolding key_lt
key_le_trans [] b [] h k = refl
key_le_trans [] [] (t ∷ ts) h k = k
key_le_trans [] (s ∷ ss) (t ∷ ts) h k = refl
key_le_trans (r ∷ rs) [] c h k = cc
key_le_trans (r ∷ rs) (s ∷ ss) [] h k = k
key_le_trans (r ∷ rs) (s ∷ ss) (t ∷ ts) h k = elim (Bool-cases (text_lt r s)) [
  | inl below ↦ grind (arith, text_lt_trans t r s, eq_sound t r)
  | inr above ↦
      let first_two : r ≡ s = text_lt_total r s above (ground (arith, h)) in
      elim (Bool-cases (text_lt s t)) [
        | inl below ↦ grind (arith, text_lt_asym s t, eq_sound t r, first_two)
        | inr level ↦
            let last_two : s ≡ t = text_lt_total s t level (ground (arith, k)) in
            ground (arith, h, k, first_two, last_two, eq_refl r, key_le_trans rs ss ts)
      ]
]

pub key_le-IsOrder : IsOrder key_le
unfolding key_le
key_le-IsOrder = record {
  total = λ a b e. ground (arith, e, key_lt_asym b a);
  trans = λ a b c h k. ground (arith, h, k, key_le_trans a b c);
}

module _ {A : Type 0} (key : A → Key) where
  -- The items of a key, in their order.
  abbrev pub filed : Key → List A → List A
  filed k = select (λ c. key_eq k (key c))

  -- Each group holds the items of its key, each item has a group, and no two groups have the same key.
  pub record IsFiled (items : List A) (groups : Groups key) : Type 0 where
    pub held : All (λ g. g.1 ≡ filed g.0 items) groups
    pub covered : All (λ c. Any (λ g. g.0 ≡ key c) groups) items
    pub apart : UniqueBy (λ g. g.0) groups

  All-add_to_group :
      (P : Key → Type 0) (x : A) (groups : Groups key)
      → P (key x)
      → All (λ g. P g.0) groups
      → All (λ g. P g.0) (add_to_group key x groups)
  unfolding add_to_group
  All-add_to_group P x [] p h = (p, tt)
  All-add_to_group P x ((k, xs) ∷ groups) p h = elim (Bool-cases (key_eq k (key x))) [
    | inl e ↦ rw e h
    | inr e ↦ rw e (h.0, All-add_to_group P x groups p h.1)
  ]

  UniqueBy-add_to_group :
      (x : A) (groups : Groups key)
      → UniqueBy (λ g. g.0) groups
      → UniqueBy (λ g. g.0) (add_to_group key x groups)
  unfolding add_to_group
  UniqueBy-add_to_group x [] u = (tt, tt)
  UniqueBy-add_to_group x ((k, xs) ∷ groups) u = elim (Bool-cases (key_eq k (key x))) [
    | inl e ↦ rw e u
    | inr e ↦
        let other : key x ≢ k = λ same. ground (arith, e, same, key_eq_refl k) in
        rw e (All-add_to_group (λ j. j ≢ k) x groups other u.0, UniqueBy-add_to_group x groups u.1)
  ]

  Any-add_to_group :
      (k : Key) (x : A) (groups : Groups key)
      → Any (λ g. g.0 ≡ k) groups
      → Any (λ g. g.0 ≡ k) (add_to_group key x groups)
  unfolding add_to_group
  Any-add_to_group k x [] h = elim h [ ]
  Any-add_to_group k x ((j, xs) ∷ groups) h = elim (Bool-cases (key_eq j (key x))) [
    | inl e ↦ rw e h
    | inr e ↦
        rw e (elim h [ inl here ↦ inl here | inr there ↦ inr (Any-add_to_group k x groups there) ])
  ]

  added_key : (x : A) (groups : Groups key) → Any (λ g. g.0 ≡ key x) (add_to_group key x groups)
  unfolding add_to_group
  added_key x [] = inl refl
  added_key x ((j, xs) ∷ groups) = elim (Bool-cases (key_eq j (key x))) [
    | inl e ↦ rw e (inl (key_eq_sound j (key x) e))
    | inr e ↦ rw e (inr (added_key x groups))
  ]

  filed-append_other :
      (k : Key) (x : A) (items : List A) → k ≢ key x → filed k (items ++ x ∷ []) ≡ filed k items
  unfolding select
  filed-append_other k x items other =
      let misses : key_eq k (key x) ≡ false = elim (Bool-cases (key_eq k (key x))) [
        | inl e ↦ absurd (other (key_eq_sound k (key x) e))
        | inr e ↦ e
      ] in
      select-append _ items (x ∷ []) ∙ rw misses (append-nil (filed k items))

  filed-append_own :
      (k : Key) (x : A) (items : List A)
      → key_eq k (key x) ≡ true
      → filed k (items ++ x ∷ []) ≡ filed k items ++ x ∷ []
  unfolding select
  filed-append_own k x items own = select-append _ items (x ∷ []) ∙ rw own refl

  -- `items` are those before `x`.
  add_to_group-held :
      (x : A) (items : List A) (groups : Groups key)
      → UniqueBy (λ g. g.0) groups
      → All (λ g. g.1 ≡ filed g.0 items) groups
      → (All (λ g. g.0 ≢ key x) groups → filed (key x) items ≡ [])
      → All (λ g. g.1 ≡ filed g.0 (items ++ x ∷ [])) (add_to_group key x groups)
  unfolding add_to_group
  add_to_group-held x items [] u h new =
      (sym (filed-append_own (key x) x items (key_eq_refl (key x)) ∙ rw (new tt) refl), tt)
  add_to_group-held x items ((k, xs) ∷ groups) u h new = elim (Bool-cases (key_eq k (key x))) [
    | inl e ↦
        let same : k ≡ key x = key_eq_sound k (key x) e in
        rw e (
          ap (λ l. l ++ x ∷ []) h.0 ∙ sym (filed-append_own k x items e),
          All-map_of (λ g. (g.0 ≢ k) × (g.1 ≡ filed g.0 items))
              (λ g. g.1 ≡ filed g.0 (items ++ x ∷ []))
              (λ g both. both.1 ∙ sym (filed-append_other g.0 x items (λ e. both.0 (e ∙ sym same))))
              groups (All-zip _ _ groups u.0 h.1),
        )
    | inr e ↦
        let other : k ≢ key x = λ same. ground (arith, e, same, key_eq_refl k) in
        rw e (
          h.0 ∙ sym (filed-append_other k x items other),
          add_to_group-held x items groups u.1 h.1 (λ apart. new (other, apart)),
        )
  ]

  missing :
      (j k : Key)
      → j ≡ k
      → (groups : Groups key) → Any (λ g. g.0 ≡ k) groups
      → All (λ g. g.0 ≢ j) groups
      → ⊥
  missing j k same [] h apart = h
  missing j k same (g ∷ groups) (inl here) apart = apart.0 (here ∙ sym same)
  missing j k same (g ∷ groups) (inr there) apart = missing j k same groups there apart.1

  -- A key that no group has is the key of no item.
  unfiled :
      (k : Key) (groups : Groups key) (items : List A)
      → All (λ c. Any (λ g. g.0 ≡ key c) groups) items
      → All (λ g. g.0 ≢ k) groups
      → filed k items ≡ []
  unfolding select
  unfiled k groups [] h apart = refl
  unfiled k groups (c ∷ items) h apart = elim (Bool-cases (key_eq k (key c))) [
    | inl e ↦ absurd (missing k (key c) (key_eq_sound k (key c) e) groups h.0 apart)
    | inr e ↦ rw e (unfiled k groups items h.1 apart)
  ]

  add_to_group-IsFiled :
      (x : A) (items : List A) (groups : Groups key)
      → IsFiled items groups
      → IsFiled (items ++ x ∷ []) (add_to_group key x groups)
  add_to_group-IsFiled x items groups h = record {
    held = add_to_group-held x items groups h.apart h.held (unfiled (key x) groups items h.covered);
    covered =
        All-append _ items (x ∷ [])
          (All-map_of _ _ (λ c. Any-add_to_group (key c) x groups) items h.covered)
          (added_key x groups, tt);
    apart = UniqueBy-add_to_group x groups h.apart;
  }

  group_from-IsFiled :
      (xs items : List A) (groups : Groups key)
      → IsFiled items groups
      → IsFiled (items ++ xs) (group_from key xs groups)
  unfolding group_from
  group_from-IsFiled [] items groups h = rw (append-nil items) h
  group_from-IsFiled (x ∷ xs) items groups h =
      rw append_assoc at
        (group_from-IsFiled xs (items ++ x ∷ []) _ (add_to_group-IsFiled x items groups h))

  pub group_by-IsFiled : (items : List A) → IsFiled items (group_by key items)
  unfolding group_by
  group_by-IsFiled items =
      group_from-IsFiled items [] [] (record { held = tt; covered = tt; apart = tt })
