-- ===== src/Cache/Facts.antt =====
-- The metadata of long-term facts. `digest` is a parameter: the first 16 hexadecimal digits of SHA-1 in
-- the program.
use automem.Common.{
  ℕ, Bool, false, not, ◌&&◌, ◌||◌, Option, none, some, List, [], ◌∷◌, ◌++◌, map, if◌then◌else◌,
  nat_eq,
}
use automem.Text.{Text, text, ◌==◌, elem, contains, lower, is_empty, or_empty, or_else}
use automem.Text.Normalize.{normalize_text}
use automem.Text.Strings.{clean_strings}
use automem.Metadata.{Metadata}

abbrev pub active : Text
active = text "active"

abbrev pub superseded : Text
superseded = text "superseded"

abbrev pub conflict_review : Text
conflict_review = text "conflict_review"

-- LONG_TERM_FACT_STATUSES
abbrev pub fact_statuses : List Text
fact_statuses = active ∷ superseded ∷ conflict_review ∷ []

-- AUTO_SUPERSEDE_FACT_KEYS
abbrev pub auto_supersede_fact_keys : List Text
auto_supersede_fact_keys =
    text "user_profile:name"
    ∷ text "user_profile:role"
    ∷ text "preference:language"
    ∷ text "preference:summary_style"
    ∷ []

-- `.replace("-", "_").replace(" ", "_")` on one character.
abbrev pub underscore : ℕ → ℕ
underscore c = if nat_eq c b'-' || nat_eq c b' ' then b'_' else c

-- `normalize_fact_status`, where the second argument is `default`.
unfoldable pub normalize_fact_status : Option Text → Text → Text
normalize_fact_status raw fallback =
    let value = map underscore (lower (normalize_text (or_empty raw))) in
    if elem value fact_statuses then value else fallback

-- `normalize_string_list` on a list or `None`.
unfoldable pub normalize_string_list : Option (List Text) → List Text
normalize_string_list none = []
normalize_string_list (some raw) = clean_strings raw

-- `re.search("a|b|…", s)` for words without special characters.
unfoldable pub contains_any : Text → List Text → Bool
contains_any s [] = false
contains_any s (word ∷ words) = contains s word || contains_any s words

abbrev language_words : List Text
language_words =
    text "中文"
    ∷ text "英文"
    ∷ text "语言"
    ∷ text "沟通"
    ∷ text "language"
    ∷ text "communicat"
    ∷ text "chinese"
    ∷ text "english"
    ∷ []

abbrev style_words : List Text
style_words =
    text "总结"
    ∷ text "风格"
    ∷ text "简洁"
    ∷ text "直接"
    ∷ text "summary"
    ∷ text "style"
    ∷ text "concise"
    ∷ text "direct"
    ∷ []

abbrev name_words : List Text
name_words = text "姓名" ∷ text "名字" ∷ text "我叫" ∷ text "name" ∷ text "called" ∷ []

abbrev role_words : List Text
role_words =
    text "身份"
    ∷ text "角色"
    ∷ text "role"
    ∷ text "title"
    ∷ text "ceo"
    ∷ text "cto"
    ∷ text "founder"
    ∷ text "创始人"
    ∷ text "负责人"
    ∷ []

abbrev company_words : List Text
company_words =
    text "公司" ∷ text "company" ∷ text "corp" ∷ text "inc" ∷ text "llc" ∷ text "集团" ∷ text "团队" ∷ []

-- The key of a text by its category, if one of the patterns is found in it.
unfoldable pub pattern_key : Text → Text → Option Text
pattern_key category lowered =
    if (category == text "preference") && contains_any lowered language_words
    then some (text "preference:language")
    else if (category == text "preference") && contains_any lowered style_words
    then some (text "preference:summary_style")
    else if (category == text "user_profile") && contains_any lowered name_words
    then some (text "user_profile:name")
    else if (category == text "user_profile") && contains_any lowered role_words
    then some (text "user_profile:role")
    else if (category == text "project_context") && contains_any lowered company_words
    then some (text "project_context:company")
    else none

module _ (digest : Text → Text) where
  unfoldable pub infer_long_term_fact_key : Text → Metadata → Text
  infer_long_term_fact_key memory meta =
      let explicit = normalize_text (or_empty meta.fact_key) in
      let normalized = normalize_text memory in
      let category = or_empty meta.category in
      let hashed =
        (if is_empty category then text "long_term" else category)
        ++ (text ":" ++ digest normalized) in
      if not (is_empty explicit)
      then explicit
      else elim (pattern_key category (lower normalized)) [ some key ↦ key | none ↦ hashed ]

unfoldable pub should_auto_supersede_fact : Metadata → Bool
should_auto_supersede_fact meta =
    elem (normalize_text (or_empty meta.fact_key)) auto_supersede_fact_keys

-- `_normalize_text(str(value or "")) or fallback`
unfoldable pub normalized_or : Option Text → Text → Text
normalized_or value fallback =
    let normalized = normalize_text (or_empty value) in
    if is_empty normalized then fallback else normalized

-- The keyword arguments of `build_long_term_fact_metadata` that default to `None`.
pub record FactArgs : Type 0 where
  pub status : Option Text
  pub supersedes : Option (List Text)
  pub superseded_by : Option Text
  pub valid_to : Option Text
  pub conflict_status : Option Text
  pub review_status : Option Text
  pub conflicts_with : Option (List Text)

abbrev pub no_args : FactArgs
no_args = record {
  status = none;
  supersedes = none;
  superseded_by = none;
  valid_to = none;
  conflict_status = none;
  review_status = none;
  conflicts_with = none;
}

-- `a if a is not None else b`
abbrev pub given_or {ℓ} : {A : Type ℓ} → Option A → Option A → Option A
given_or none b = b
given_or (some a) b = some a

-- The part of `build_long_term_fact_metadata` that all statuses share.
unfoldable pub merge_fact : (Text → Text) → Text → Metadata → Text → FactArgs → Metadata
merge_fact digest memory meta created_at args = record meta {
  fact_key = some (infer_long_term_fact_key digest memory meta);
  status = some (normalize_fact_status (or_else args.status meta.status) active);
  valid_from = some (normalized_or meta.valid_from created_at);
  supersedes = some (normalize_string_list (given_or args.supersedes meta.supersedes));
}

-- What is set and popped for each status.
unfoldable pub settle_fact : Text → FactArgs → Metadata → Metadata
settle_fact created_at args merged =
    if or_empty merged.status == active
    then record merged {
      valid_to = none;
      superseded_by = none;
      conflict_status = none;
      review_status = none;
      conflicts_with = none;
    }
    else if or_empty merged.status == superseded
    then record merged {
      valid_to = some (normalized_or (or_else args.valid_to merged.valid_to) created_at);
      superseded_by = or_else args.superseded_by merged.superseded_by;
      conflict_status = none;
      review_status = none;
      conflicts_with = none;
    }
    else record merged {
      conflict_status = some (
          normalized_or (or_else args.conflict_status merged.conflict_status)
            (text "needs_review"));
      review_status =
          some (normalized_or (or_else args.review_status merged.review_status) (text "pending"));
      conflicts_with =
          some (normalize_string_list (given_or args.conflicts_with merged.conflicts_with));
      superseded_by = none;
    }

unfoldable pub build_long_term_fact_metadata :
    (Text → Text) → Text → Metadata → Text → FactArgs → Metadata
build_long_term_fact_metadata digest memory meta created_at args =
    settle_fact created_at args (merge_fact digest memory meta created_at args)

unfoldable pub long_term_status_from_metadata : Metadata → Text
long_term_status_from_metadata meta = normalize_fact_status meta.status active
