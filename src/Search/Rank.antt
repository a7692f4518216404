-- ===== src/Search/Rank.antt =====
-- `lexical_score`, and `rerank_results`, where the formula of the final score is a parameter.
use automem.Common.{
  ℕ, ◌+◌, Bool, false, ◌||◌, List, [], ◌∷◌, if◌then◌else◌, leb, length, map, select, sort_by,
}
use automem.Text.{Text, elem, lower, or_empty}
use automem.Text.Normalize.{normalize_text}
use automem.Text.Groups.{Key, key_eq}
use automem.Search.{Patterns, Numbers, Hit}
use automem.Search.Candidates.{max_score, unite}

-- How many of the tokens are in the other set.
unfoldable pub overlap_of : List Text → List Text → ℕ
overlap_of tokens others = length (select (λ token. elem token others) tokens)

unfoldable pub lexical_score : {N : Type 0} → Patterns → Numbers N → Text → Text → N
lexical_score patterns numbers query memory =
    let query_tokens = patterns.task_tokens query in
    let text_tokens = patterns.task_tokens memory in
    elim query_tokens [
      | [] ↦ numbers.nought
      | q ∷ qs ↦ elim text_tokens [
        | [] ↦ numbers.nought
        | t ∷ ts ↦ numbers.ratio (overlap_of (q ∷ qs) (t ∷ ts)) (length (unite (q ∷ qs) (t ∷ ts)))
      ]
    ]

-- `max((lexical_score(variant, text) for variant in variants), default=0.0)`
unfoldable pub best_from : {N : Type 0} → Patterns → Numbers N → Text → N → List Text → N
best_from patterns numbers memory best [] = best
best_from patterns numbers memory best (variant ∷ variants) =
    best_from patterns numbers memory
      (max_score numbers best (lexical_score patterns numbers variant memory)) variants

unfoldable pub best_lexical : {N : Type 0} → Patterns → Numbers N → List Text → Text → N
best_lexical patterns numbers [] memory = numbers.nought
best_lexical patterns numbers (variant ∷ variants) memory =
    best_from patterns numbers memory (lexical_score patterns numbers variant memory) variants

-- By which repeated results are found.
unfoldable pub result_key : {N : Type 0} → Hit N → Key
result_key hit =
    lower (normalize_text hit.memory)
    ∷ or_empty hit.metadata.domain
    ∷ or_empty hit.metadata.category
    ∷ []

-- `key in seen`
unfoldable pub has_result_key : Key → List Key → Bool
has_result_key key [] = false
has_result_key key (k ∷ keys) = key_eq key k || has_result_key key keys

-- The loop that ends at `top_k` results; `count` is the number of those taken.
unfoldable pub take_distinct :
    {N : Type 0} → (top_k count : ℕ) → (seen : List Key) → List (Hit N) → List (Hit N)
take_distinct top_k count seen [] = []
take_distinct top_k count seen (item ∷ items) =
    let more = take_distinct top_k (count + 1) (result_key item ∷ seen) items in
    let others = take_distinct top_k count seen items in
    if has_result_key (result_key item) seen
    then others
    else item ∷ (if leb top_k (count + 1) then [] else more)

-- `sort(key=…, reverse=True)`, which keeps the order of equal scores.
abbrev pub scores_above : {N : Type 0} → Numbers N → Hit N → Hit N → Bool
scores_above numbers a b = numbers.at_most b.score a.score

module _ {N : Type 0} (numbers : Numbers N) (final_score : Hit N → N) where
  abbrev pub rescore : Hit N → Hit N
  rescore hit = record hit { score = final_score hit }

  unfoldable pub rerank_results : (top_k : ℕ) → List (Hit N) → List (Hit N)
  rerank_results top_k items =
      take_distinct top_k 0 [] (sort_by (scores_above numbers) (map rescore items))
