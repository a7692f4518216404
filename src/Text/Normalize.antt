-- ===== src/Text/Normalize.antt =====
-- `normalize_text` of backend/governance/canonicalize.py, which the other modules repeat:
-- `re.sub(r"\s+", " ", text).strip()`.
pub mod Laws
use automem.Common.{ℕ, Bool, true, false, ◌&&◌, ◌||◌, [], ◌∷◌, leb, nat_eq, if◌then◌else◌}
use automem.Text.{Text}

-- What `\s` matches in a `str` pattern, which is `str.isspace`.
unfoldable pub is_space : ℕ → Bool
is_space c =
    (leb 9 c && leb c 13)
    || ((leb 28 c && leb c 32)
        || (nat_eq c 0x85
            || (nat_eq c 0xa0
                || (nat_eq c 0x1680
                    || ((leb 0x2000 c && leb c 0x200a)
                        || (nat_eq c 0x2028
                            || (nat_eq c 0x2029
                                || (nat_eq c 0x202f || (nat_eq c 0x205f || nat_eq c 0x3000)))))))))

-- `re.sub(r"\s+", " ", text)`. The flag says that the run of white space has been written already.
unfoldable pub collapse : Bool → Text → Text
unfolding is_space
collapse inside [] = []
collapse inside (c ∷ s) =
    let rest = collapse (is_space c) s in
    if is_space c then (if inside then rest else 32 ∷ rest) else c ∷ rest

unfoldable pub lstrip : Text → Text
unfolding is_space
lstrip [] = []
lstrip (c ∷ s) = let rest = lstrip s in if is_space c then rest else c ∷ s

-- A white space character stays if something is left behind it.
abbrev keep_before : ℕ → Text → Text
unfolding is_space
keep_before c [] = if is_space c then [] else c ∷ []
keep_before c (d ∷ s) = c ∷ d ∷ s

unfoldable pub rstrip : Text → Text
unfolding keep_before is_space
rstrip [] = []
rstrip (c ∷ s) = keep_before c (rstrip s)

unfoldable pub strip : Text → Text
unfolding lstrip rstrip
strip s = rstrip (lstrip s)

unfoldable pub normalize_text : Text → Text
unfolding collapse strip
normalize_text s = strip (collapse false s)
