-- ===== src/Text/Strings/Laws.antt =====
-- What the loop returns: each value once, trimmed, none of them empty.
use automem.Common.{
  ◌≡◌, refl, ap, false, not, List, [], ◌∷◌, ◌&&◌, ◌||◌, map, arith, Bool-cases, inl, inr,
}
use automem.Text.{Text, elem, is_empty, eq_sound}
use automem.Text.Normalize.{normalize_text}
use automem.Text.Normalize.Laws.{IsNormal, normalize_text-IsNormal, normalize_text_fixed}
use automem.Text.Strings.{clean_from, clean_strings}

-- Trimmed, nonempty, and not among `seen`, which grows by each value.
abbrev pub Fresh : List Text → List Text → Type 0
Fresh seen [] = Unit
Fresh seen (t ∷ ts) =
    IsNormal t × (is_empty t ≡ false) × (elem t seen ≡ false) × Fresh (t ∷ seen) ts

clean_from-Fresh : (seen raws : List Text) → Fresh seen (clean_from seen raws)
unfolding clean_from
clean_from-Fresh seen [] = tt
clean_from-Fresh seen (raw ∷ raws) =
    elim (Bool-cases (is_empty (normalize_text raw) || elem (normalize_text raw) seen)) [
      | inl e ↦ rw e (clean_from-Fresh seen raws)
      | inr e ↦ rw e (
        normalize_text-IsNormal raw,
        ground (arith, e),
        ground (arith, e),
        clean_from-Fresh (normalize_text raw ∷ seen) raws,
      )
    ]

clean_from_fixed : (seen ts : List Text) → Fresh seen ts → clean_from seen ts ≡ ts
unfolding clean_from
clean_from_fixed seen [] h = refl
clean_from_fixed seen (t ∷ ts) h =
    rw (normalize_text_fixed t h.0, h.1, h.2) (ap (λ l. t ∷ l) (clean_from_fixed (t ∷ seen) ts h.3))

-- The list that is returned holds trimmed, nonempty texts, each of them once.
pub clean_strings-Fresh : (raws : List Text) → Fresh [] (clean_strings raws)
unfolding clean_strings
clean_strings-Fresh raws = clean_from-Fresh [] raws

pub clean_strings_fixed : (ts : List Text) → Fresh [] ts → clean_strings ts ≡ ts
unfolding clean_strings
clean_strings_fixed ts h = clean_from_fixed [] ts h

pub clean_strings_idem :
    (raws : List Text) → clean_strings (clean_strings raws) ≡ clean_strings raws
clean_strings_idem raws = clean_strings_fixed (clean_strings raws) (clean_strings-Fresh raws)

-- What `clean_from` returns is not empty, not seen before, and some given text trims to it.
elem-clean_from :
    (seen raws : List Text) (t : Text)
    → elem t (clean_from seen raws)
      ≡ (not (is_empty t) && (not (elem t seen) && elem t (map normalize_text raws)))
unfolding clean_from elem
elem-clean_from seen [] t = ground arith
elem-clean_from seen (raw ∷ raws) t =
    let v : Text = normalize_text raw in
    ground (arith, eq_sound t v, elem-clean_from seen raws t, elem-clean_from (v ∷ seen) raws t)

pub elem-clean_strings :
    (raws : List Text) (t : Text)
    → elem t (clean_strings raws) ≡ (not (is_empty t) && elem t (map normalize_text raws))
unfolding clean_strings elem
elem-clean_strings raws t = ground (arith, elem-clean_from [] raws t)

-- For any list: the result holds exactly the nonempty texts to which a text of the list trims, each of
-- them once and trimmed, and a second call changes nothing.
clean_strings_lem :
    (raws : List Text)
    → Fresh [] (clean_strings raws)
      × ((t : Text)
          → elem t (clean_strings raws) ≡ (not (is_empty t) && elem t (map normalize_text raws)))
      × (clean_strings (clean_strings raws) ≡ clean_strings raws)
clean_strings_lem raws =
    (clean_strings-Fresh raws, elem-clean_strings raws, clean_strings_idem raws)
