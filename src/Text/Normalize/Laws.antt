-- ===== src/Text/Normalize/Laws.antt =====
-- What `normalize_text` returns: words with one space between them, which it leaves alone.
use automem.Common.{
  ℕ, ◌≡◌, refl, ap, ◌↔◌, subst, Bool, true, false, [], ◌∷◌, if◌then◌else◌, Bool-cases, inl, inr,
}
use automem.Text.{Text}
use automem.Text.Normalize.{is_space, collapse, lstrip, rstrip, normalize_text, keep_before}

-- White space is single spaces, and there is none in front if `inside` is set.
abbrev pub Runless : Bool → Text → Type 0
Runless inside [] = Unit
Runless inside (c ∷ s) = (is_space c ≡ true → (c ≡ 32) × (inside ≡ false)) × Runless (is_space c) s

abbrev pub EndsTight : Text → Type 0
EndsTight [] = Unit
EndsTight (c ∷ []) = is_space c ≡ false
EndsTight (c ∷ d ∷ s) = EndsTight (d ∷ s)

-- Words with single spaces between them, and no white space at either end.
pub record IsNormal (s : Text) : Type 0 where
  pub runless : Runless true s
  pub tight : EndsTight s

space_is_space : is_space 32 ≡ true
unfolding is_space
space_is_space = refl

Runless-weaken : (s : Text) → Runless true s → (b : Bool) → Runless b s
Runless-weaken [] h b = tt
Runless-weaken (c ∷ s) h b = (λ e. absurd (cc (h.0 e).1), h.1)

collapse-Runless : (b : Bool) (s : Text) → Runless b (collapse b s)
unfolding collapse
collapse-Runless b [] = tt
collapse-Runless b (c ∷ s) = elim (Bool-cases (is_space c)) [
  | inl e ↦ rw e (spaced b (rw e at (collapse-Runless (is_space c) s)))
  | inr e ↦ rw e (λ t. cc, rw e (rw e at (collapse-Runless (is_space c) s)))
]
  where
    spaced :
        (b : Bool)
        → Runless true (collapse true s)
        → Runless b (if b then collapse true s else 32 ∷ collapse true s)
    spaced true h = h
    spaced false h = (λ _. (refl, refl), rw space_is_space h)

collapse_fixed : (b : Bool) (s : Text) → Runless b s → collapse b s ≡ s
unfolding collapse
collapse_fixed b [] h = refl
collapse_fixed b (c ∷ s) h = elim (Bool-cases (is_space c)) [
  | inl e ↦ rw (e, (h.0 e).1) (cc ((h.0 e).0, collapse_fixed true s (rw e at h.1)))
  | inr e ↦ rw e (ap (λ t. c ∷ t) (collapse_fixed false s (rw e at h.1)))
]

lstrip-Runless : (b : Bool) (s : Text) → Runless b s → Runless true (lstrip s)
unfolding lstrip
lstrip-Runless b [] h = tt
lstrip-Runless b (c ∷ s) h = elim (Bool-cases (is_space c)) [
  | inl e ↦ rw e (lstrip-Runless (is_space c) s h.1)
  | inr e ↦ rw e (λ t. cc, h.1)
]

lstrip_fixed : (s : Text) → Runless true s → lstrip s ≡ s
unfolding lstrip
lstrip_fixed [] h = refl
lstrip_fixed (c ∷ s) h = elim (Bool-cases (is_space c)) [
  | inl e ↦ absurd (cc (h.0 e).1)
  | inr e ↦ rw e
]

keep_before-Runless :
    (b : Bool) (c : ℕ) (s : Text)
    → (is_space c ≡ true → (c ≡ 32) × (b ≡ false))
    → Runless (is_space c) s
    → Runless b (keep_before c s)
unfolding keep_before
keep_before-Runless b c [] h k = elim (Bool-cases (is_space c)) [
  | inl e ↦ rw e tt
  | inr e ↦ rw e (h, tt)
]
keep_before-Runless b c (d ∷ s) h k = (h, k)

rstrip-Runless : (b : Bool) (s : Text) → Runless b s → Runless b (rstrip s)
unfolding rstrip
rstrip-Runless b [] h = tt
rstrip-Runless b (c ∷ s) h =
    keep_before-Runless b c (rstrip s) h.0 (rstrip-Runless (is_space c) s h.1)

keep_before-EndsTight : (c : ℕ) (s : Text) → EndsTight s → EndsTight (keep_before c s)
unfolding keep_before
keep_before-EndsTight c [] h = elim (Bool-cases (is_space c)) [ inl e ↦ rw e tt | inr e ↦ rw e e ]
keep_before-EndsTight c (d ∷ s) h = h

rstrip-EndsTight : (s : Text) → EndsTight (rstrip s)
unfolding rstrip
rstrip-EndsTight [] = tt
rstrip-EndsTight (c ∷ s) = keep_before-EndsTight c (rstrip s) (rstrip-EndsTight s)

rstrip_fixed : (s : Text) → EndsTight s → rstrip s ≡ s
unfolding rstrip
rstrip_fixed [] h = refl
rstrip_fixed (c ∷ []) h = rw h
rstrip_fixed (c ∷ d ∷ s) h = rw (rstrip_fixed (d ∷ s) h)

pub normalize_text-IsNormal : (s : Text) → IsNormal (normalize_text s)
unfolding normalize_text
normalize_text-IsNormal s =
    let stripped = lstrip-Runless false (collapse false s) (collapse-Runless false s) in
    record {
      runless = rstrip-Runless true (lstrip (collapse false s)) stripped;
      tight = rstrip-EndsTight (lstrip (collapse false s));
    }

pub normalize_text_fixed : (s : Text) → IsNormal s → normalize_text s ≡ s
unfolding normalize_text
normalize_text_fixed s h =
    rw (collapse_fixed false s (Runless-weaken s h.runless false), lstrip_fixed s h.runless)
      (rstrip_fixed s h.tight)

-- The texts that `normalize_text` returns are those with single spaces between words and none at
-- the ends, and these are also the texts that it leaves alone.
pub IsNormal-iff-fixed : (s : Text) → IsNormal s ↔ (normalize_text s ≡ s)
IsNormal-iff-fixed s = (normalize_text_fixed s, λ e. subst IsNormal e (normalize_text-IsNormal s))

pub normalize_text_idem : (s : Text) → normalize_text (normalize_text s) ≡ normalize_text s
normalize_text_idem s = normalize_text_fixed (normalize_text s) (normalize_text-IsNormal s)
