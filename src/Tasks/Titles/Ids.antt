-- ===== src/Tasks/Titles/Ids.antt =====
-- The ids that are made of titles.
use automem.Tasks.Titles.{
  is_slug_char, or_default, keep_dash, make_task_id, rstrip_dash, lstrip_dash, dashes,
}
use automem.Common.{
  All-take, nat_eq, length-take_le, All-append, Bool-cases, Bool, length-append, All, length, ℕ,
  ◌≡◌, refl, [], ◌∷◌, ◌++◌, true, false, ◌≤◌, ◌||◌, not, arith, inl, inr,
}
use automem.Text.{Text, text, starts_with}
use automem.Tasks.Titles.Bounds.{IsShort}

-- A lower-case letter or digit of ASCII, a CJK ideograph, a dash or an underscore.
abbrev pub is_id_char : ℕ → Bool
is_id_char c = is_slug_char c || (nat_eq c 45 || nat_eq c 95)

abbrev pub IsIdText : Text → Type 0
IsIdText = All (λ c. is_id_char c ≡ true)

dashes-IsIdText : (inside : Bool) (s : Text) → IsIdText (dashes inside s)
unfolding dashes
dashes-IsIdText inside [] = tt
dashes-IsIdText inside (c ∷ s) =
    let ih = dashes-IsIdText (not (is_slug_char c)) s in
    elim (Bool-cases (is_slug_char c)) [
      | inl e ↦ rw e (ground (arith, e), rw e at ih)
      | inr e ↦ elim (Bool-cases inside) [
        | inl i ↦ rw (e, i) (rw e at ih)
        | inr i ↦ rw (e, i) (refl, rw e at ih)
      ]
    ]

lstrip_dash-IsIdText : (s : Text) → IsIdText s → IsIdText (lstrip_dash s)
unfolding lstrip_dash
lstrip_dash-IsIdText [] h = tt
lstrip_dash-IsIdText (c ∷ s) h = elim (Bool-cases (nat_eq c 45)) [
  | inl e ↦ rw e (lstrip_dash-IsIdText s h.1)
  | inr e ↦ rw e h
]

keep_dash-IsIdText :
    (c : ℕ) (s : Text) → is_id_char c ≡ true → IsIdText s → IsIdText (keep_dash c s)
keep_dash-IsIdText c [] h k = elim (Bool-cases (nat_eq c 45)) [
  | inl e ↦ rw e tt
  | inr e ↦ rw e (h, tt)
]
keep_dash-IsIdText c (d ∷ s) h k = (h, k)

rstrip_dash-IsIdText : (s : Text) → IsIdText s → IsIdText (rstrip_dash s)
unfolding rstrip_dash
rstrip_dash-IsIdText [] h = tt
rstrip_dash-IsIdText (c ∷ s) h =
    keep_dash-IsIdText c (rstrip_dash s) h.0 (rstrip_dash-IsIdText s h.1)

-- The part of an id behind `task_`.
record IsSlug (slug : Text) : Type 0 where
  some_char : 1 ≤ length slug
  short : length slug ≤ 48
  chars : IsIdText slug

or_default-IsSlug :
    (slug : Text) → length slug ≤ 48 → IsIdText slug → IsSlug (or_default (text "task") slug)
or_default-IsSlug [] h k = record {
  some_char = omega arith;
  short = omega arith;
  chars = (refl, (refl, (refl, (refl, tt))));
}
or_default-IsSlug (c ∷ s) h k = record { some_char = omega arith; short = h; chars = k }

prefixed :
    (slug : Text)
    → IsSlug slug
    → IsShort 53 (text "task_" ++ slug)
      × IsIdText (text "task_" ++ slug)
      × (starts_with (text "task_" ++ slug) (text "task_") ≡ true)
unfolding starts_with
prefixed slug h = (
  record {
    some_char = omega (arith, length-append (text "task_") slug, h.some_char);
    short = omega (arith, length-append (text "task_") slug, h.short);
  },
  All-append (λ c. is_id_char c ≡ true) (text "task_") slug
      (refl, (refl, (refl, (refl, (refl, tt))))) h.chars,
  refl,
)

-- An id that is made of a title, whatever its characters, has at most 53 characters, which are lower-case
-- letters and digits of ASCII, CJK ideographs, dashes and underscores, and begins with `task_`.
pub make_task_id_bounds :
    (title : Text)
    → IsShort 53 (make_task_id title)
      × IsIdText (make_task_id title)
      × (starts_with (make_task_id title) (text "task_") ≡ true)
unfolding make_task_id
make_task_id_bounds title = prefixed _ (
    or_default-IsSlug _ (length-take_le 48 _) (
      All-take (λ c. is_id_char c ≡ true) 48 _
        (rstrip_dash-IsIdText _ (lstrip_dash-IsIdText _ (dashes-IsIdText false _)))))
