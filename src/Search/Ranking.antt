-- ===== src/Search/Ranking.antt =====
-- What `rerank_results` keeps: at most `top_k` items of different keys, in the order of their scores.
use automem.Common.{
  sort_by, ℕ, ◌+◌, ◌≤◌, ◌<◌, ◌≡◌, ◌≢◌, Bool, false, Bool-cases, inl, inr, List, [], ◌∷◌, All,
  All-map_of, UniqueBy, leb, length, map, arith,
}
use automem.Common.Sorting.{IsOrder, IsSorted, All-sort_by, sort_by-IsSorted}
use automem.Common.Selecting.{UniqueBy-sort_by}
use automem.Text.{Text}
use automem.Text.Groups.{Key}
use automem.Text.Groups.Laws.{key_eq_refl}
use automem.Search.{Numbers, Hit}
use automem.Search.Rank.{
  result_key, has_result_key, take_distinct, scores_above, rescore, rerank_results,
}

module _ {N : Type 0} (top_k : ℕ) where
  length-take_distinct :
      (count : ℕ) (seen : List Key) (items : List (Hit N))
      → count < top_k
      → count + length (take_distinct top_k count seen items) ≤ top_k
  unfolding take_distinct
  length-take_distinct count seen [] h = omega arith
  length-take_distinct count seen (item ∷ items) h =
      elim (Bool-cases (has_result_key (result_key item) seen)) [
        | inl e ↦ rw e (length-take_distinct count seen items h)
        | inr e ↦ elim (Bool-cases (leb top_k (count + 1))) [
          | inl full ↦ rw (e, full) (omega arith)
          | inr more ↦
              rw (e, more)
                (ground
                  (arith, more, length-take_distinct (count + 1) (result_key item ∷ seen) items))
        ]
      ]

  All-take_distinct :
      (P : Hit N → Type 0) (count : ℕ) (seen : List Key) (items : List (Hit N))
      → All P items
      → All P (take_distinct top_k count seen items)
  unfolding take_distinct
  All-take_distinct P count seen [] h = tt
  All-take_distinct P count seen (item ∷ items) h =
      elim (Bool-cases (has_result_key (result_key item) seen)) [
        | inl e ↦ rw e (All-take_distinct P count seen items h.1)
        | inr e ↦ elim (Bool-cases (leb top_k (count + 1))) [
          | inl full ↦ rw (e, full) (h.0, tt)
          | inr more ↦ rw (e, more) (h.0, All-take_distinct P (count + 1) _ items h.1)
        ]
      ]

  -- A relation of each item to those behind it stays.
  UniqueBy-take_distinct :
      {K : Type 0} (key : Hit N → K) (count : ℕ) (seen : List Key) (items : List (Hit N))
      → UniqueBy key items
      → UniqueBy key (take_distinct top_k count seen items)
  unfolding take_distinct
  UniqueBy-take_distinct key count seen [] u = tt
  UniqueBy-take_distinct key count seen (item ∷ items) u =
      elim (Bool-cases (has_result_key (result_key item) seen)) [
        | inl e ↦ rw e (UniqueBy-take_distinct key count seen items u.1)
        | inr e ↦ elim (Bool-cases (leb top_k (count + 1))) [
          | inl full ↦ rw (e, full) (tt, tt)
          | inr more ↦
              rw (e, more)
                (
                  All-take_distinct _ (count + 1) _ items u.0,
                  UniqueBy-take_distinct key (count + 1) _ items u.1,
                )
        ]
      ]

  take_distinct-IsSorted :
      {le : Hit N → Hit N → Bool} (order : IsOrder le) (count : ℕ) (seen : List Key)
      (items : List (Hit N))
      → IsSorted order items
      → IsSorted order (take_distinct top_k count seen items)
  unfolding take_distinct
  take_distinct-IsSorted order count seen [] s = tt
  take_distinct-IsSorted order count seen (item ∷ items) s =
      elim (Bool-cases (has_result_key (result_key item) seen)) [
        | inl e ↦ rw e (take_distinct-IsSorted order count seen items s.1)
        | inr e ↦ elim (Bool-cases (leb top_k (count + 1))) [
          | inl full ↦ rw (e, full) (tt, tt)
          | inr more ↦
              rw (e, more)
                (
                  All-take_distinct _ (count + 1) _ items s.0,
                  take_distinct-IsSorted order (count + 1) _ items s.1,
                )
        ]
      ]

  -- The keys are not among those seen.
  take_distinct-unseen :
      (count : ℕ) (seen : List Key) (items : List (Hit N))
      → All
          (λ (hit : Hit N). has_result_key (result_key hit) seen ≡ false)
          (take_distinct top_k count seen items)
  unfolding take_distinct has_result_key
  take_distinct-unseen count seen [] = tt
  take_distinct-unseen count seen (item ∷ items) =
      elim (Bool-cases (has_result_key (result_key item) seen)) [
        | inl e ↦ rw e (take_distinct-unseen count seen items)
        | inr e ↦ elim (Bool-cases (leb top_k (count + 1))) [
          | inl full ↦ rw (e, full) (e, tt)
          | inr more ↦
              rw (e, more)
                (
                  e,
                  All-map_of
                      (λ (hit : Hit N).
                        has_result_key (result_key hit) (result_key item ∷ seen) ≡ false)
                      (λ (hit : Hit N). has_result_key (result_key hit) seen ≡ false)
                      (λ hit n. ground (arith, n)) _
                      (take_distinct-unseen (count + 1) (result_key item ∷ seen) items),
                )
        ]
      ]

  take_distinct-UniqueKeys :
      (count : ℕ) (seen : List Key) (items : List (Hit N))
      → UniqueBy result_key (take_distinct top_k count seen items)
  unfolding take_distinct has_result_key
  take_distinct-UniqueKeys count seen [] = tt
  take_distinct-UniqueKeys count seen (item ∷ items) =
      elim (Bool-cases (has_result_key (result_key item) seen)) [
        | inl e ↦ rw e (take_distinct-UniqueKeys count seen items)
        | inr e ↦ elim (Bool-cases (leb top_k (count + 1))) [
          | inl full ↦ rw (e, full) (tt, tt)
          | inr more ↦
              rw (e, more)
                (
                  All-map_of
                      (λ (hit : Hit N).
                        has_result_key (result_key hit) (result_key item ∷ seen) ≡ false)
                      (λ (hit : Hit N). result_key hit ≢ result_key item)
                      (λ (hit : Hit N) n same.
                        ground (arith, n, same, key_eq_refl (result_key item)))
                      _ (take_distinct-unseen (count + 1) (result_key item ∷ seen) items),
                  take_distinct-UniqueKeys (count + 1) (result_key item ∷ seen) items,
                )
        ]
      ]

-- At most `top_k` items of different ids and keys, in the order of `le`.
pub record IsRanking {N : Type 0} {le : Hit N → Hit N → Bool} (order : IsOrder le) (top_k : ℕ)
    (hits : List (Hit N)) : Type 0 where
  pub few : length hits ≤ top_k
  pub ids : UniqueBy (λ (hit : Hit N). hit.id) hits
  pub keys : UniqueBy result_key hits
  pub sorted : IsSorted order hits

pub scores_above-IsOrder :
    {N : Type 0} (numbers : Numbers N) → IsOrder numbers.at_most → IsOrder (scores_above numbers)
scores_above-IsOrder numbers order = record {
  total = λ a b e. order.total b.score a.score e;
  trans = λ a b c h k. order.trans c.score b.score a.score k h;
}

module _ {N : Type 0} (numbers : Numbers N) (final_score : Hit N → N) where
  -- A property that does not depend on the score.
  pub All-rerank_results :
      (P : Hit N → Type 0) (top_k : ℕ) (items : List (Hit N))
      → ((hit : Hit N) → P hit → P (rescore numbers final_score hit))
      → All P items
      → All P (rerank_results numbers final_score top_k items)
  unfolding rerank_results
  All-rerank_results P top_k items keep h =
      All-take_distinct top_k P 0 [] _ (All-sort_by P _ _ (all_rescored items h))
    where
      all_rescored : (l : List (Hit N)) → All P l → All P (map (rescore numbers final_score) l)
      all_rescored [] k = tt
      all_rescored (hit ∷ l) k = (keep hit k.0, all_rescored l k.1)

  pub rerank_results-IsRanking :
      (order : IsOrder numbers.at_most) (top_k : ℕ) (items : List (Hit N))
      → 0 < top_k
      → UniqueBy (λ (hit : Hit N). hit.id) items
      → IsRanking
          (scores_above-IsOrder numbers order)
          top_k
          (rerank_results numbers final_score top_k items)
  unfolding rerank_results
  rerank_results-IsRanking order top_k items some_left u = record {
    few = omega (
      arith,
      length-take_distinct top_k 0 []
          (sort_by (scores_above numbers) (map (rescore numbers final_score) items)) some_left,
    );
    ids = UniqueBy-take_distinct top_k _ 0 [] _ (UniqueBy-sort_by _ _ _ (rescored items u));
    keys = take_distinct-UniqueKeys top_k 0 [] _;
    sorted =
        take_distinct-IsSorted top_k (scores_above-IsOrder numbers order) 0 [] _
          (sort_by-IsSorted (scores_above-IsOrder numbers order) _);
  }
    where
      other :
          (id : Text) (l : List (Hit N))
          → All (λ (hit : Hit N). hit.id ≢ id) l
          → All (λ (hit : Hit N). hit.id ≢ id) (map (rescore numbers final_score) l)
      other id [] k = tt
      other id (hit ∷ l) k = (k.0, other id l k.1)

      rescored :
          (l : List (Hit N))
          → UniqueBy (λ (hit : Hit N). hit.id) l
          → UniqueBy (λ (hit : Hit N). hit.id) (map (rescore numbers final_score) l)
      rescored [] k = tt
      rescored (hit ∷ l) k = (other hit.id l k.0, rescored l k.1)
