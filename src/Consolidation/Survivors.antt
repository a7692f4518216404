-- ===== src/Consolidation/Survivors.antt =====
-- Which long-term facts survive the deletion of duplicates.
use automem.Common.{
  ◌≢◌, ◌≡◌, ◌∙◌, refl, true, not, Bool-cases, inl, inr, List, [], ◌∷◌, if◌then◌else◌, All,
  All-map_of, Any, select, UniqueBy,
}
use automem.Common.Members.{All-In}
use automem.Text.{Text, elem}
use automem.Text.Groups.{group_from, group_by}
use automem.Metadata.{Metadata}
use automem.Cache.{CacheRow}
use automem.Services.Store.{Decision}
use automem.Consolidation.Review.{
  Candidate, id_of, build_long_term_duplicate_key, precedes, duplicate_memory_ids, Review,
  no_review, governed, is_long_term_row, review_kept, review_row, review_rows,
}
use automem.Consolidation.Duplicates.{survivor-first, survivors-UniqueBy, survivor_of}

-- No two rows have one memory id, the primary key of the table.
abbrev pub HasUniqueIds : List CacheRow → Type 0
HasUniqueIds = UniqueBy (λ (row : CacheRow). row.memory_id)

module _ (govern_memory_text : Text → Metadata → Text → Decision) where
  -- The long-term facts among the rows that are no noise, with their canonical texts.
  unfoldable pub kept_facts : List CacheRow → List Candidate
  kept_facts [] = []
  kept_facts (row ∷ rows) =
      let rest = kept_facts rows in
      let decision = governed govern_memory_text row in
      if decision.skip
      then rest
      else if is_long_term_row row
      then record { row = row; canonical = decision.canonical } ∷ rest
      else rest

  review_row-groups :
      (row : CacheRow) (rows : List CacheRow) (review : Review)
      → group_from build_long_term_duplicate_key
          (kept_facts rows)
          (review_row govern_memory_text row review).long_term_groups
        ≡ group_from build_long_term_duplicate_key (kept_facts (row ∷ rows)) review.long_term_groups
  unfolding review_row review_kept kept_facts group_from
  review_row-groups row rows review = elim (Bool-cases (governed govern_memory_text row).skip) [
    | inl skipped ↦ rw skipped refl
    | inr kept ↦ elim (Bool-cases (is_long_term_row row)) [
      | inl fact ↦ rw (kept, fact) refl
      | inr other ↦ rw (kept, other) refl
    ]
  ]

  review_rows-groups :
      (rows : List CacheRow) (review : Review)
      → (review_rows govern_memory_text rows review).long_term_groups
        ≡ group_from build_long_term_duplicate_key (kept_facts rows) review.long_term_groups
  unfolding review_rows group_from kept_facts
  review_rows-groups [] review = refl
  review_rows-groups (row ∷ rows) review =
      review_rows-groups rows (review_row govern_memory_text row review)
      ∙ review_row-groups row rows review

  All-kept_facts :
      (P : Text → Type 0) (rows : List CacheRow)
      → All (λ (row : CacheRow). P row.memory_id) rows
      → All (λ c. P (id_of c)) (kept_facts rows)
  unfolding kept_facts
  All-kept_facts P [] h = tt
  All-kept_facts P (row ∷ rows) h = elim (Bool-cases (governed govern_memory_text row).skip) [
    | inl skipped ↦ rw skipped (All-kept_facts P rows h.1)
    | inr kept ↦ elim (Bool-cases (is_long_term_row row)) [
      | inl fact ↦ rw (kept, fact) (h.0, All-kept_facts P rows h.1)
      | inr other ↦ rw (kept, other) (All-kept_facts P rows h.1)
    ]
  ]

  UniqueBy-kept_facts :
      (rows : List CacheRow) → HasUniqueIds rows → UniqueBy id_of (kept_facts rows)
  unfolding kept_facts
  UniqueBy-kept_facts [] u = tt
  UniqueBy-kept_facts (row ∷ rows) u = elim (Bool-cases (governed govern_memory_text row).skip) [
    | inl skipped ↦ rw skipped (UniqueBy-kept_facts rows u.1)
    | inr kept ↦ elim (Bool-cases (is_long_term_row row)) [
      | inl fact ↦
          rw (kept, fact)
            (All-kept_facts (λ id. id ≢ row.memory_id) rows u.0, UniqueBy-kept_facts rows u.1)
      | inr other ↦ rw (kept, other) (UniqueBy-kept_facts rows u.1)
    ]
  ]

  -- The ids that a consolidation takes for duplicates.
  abbrev found_duplicates : List CacheRow → List Text
  found_duplicates rows =
      duplicate_memory_ids (review_rows govern_memory_text rows no_review).long_term_groups

  abbrev pub survivors : List CacheRow → List Candidate
  survivors rows = select (λ c. not (elem (id_of c) (found_duplicates rows))) (kept_facts rows)

  -- If each row has its own id: of the long-term facts that are no noise, those that are no duplicates have
  -- pairwise different duplicate keys, and each fact has one among them with its key that precedes it.
  pub survivors_cases :
      (rows : List CacheRow)
      → HasUniqueIds rows
      → UniqueBy build_long_term_duplicate_key (survivors rows)
        × All
            (λ c.
              Any
                (λ k.
                  (build_long_term_duplicate_key k ≡ build_long_term_duplicate_key c)
                  × (precedes k c ≡ true))
                (survivors rows))
            (kept_facts rows)
  unfolding group_by
  survivors_cases rows u =
      let items = kept_facts rows in
      let unique = UniqueBy-kept_facts rows u in
      rw (review_rows-groups rows no_review) (
        survivors-UniqueBy items items
            (All-map_of _ _ (λ c m. survivor-first items c m) items (All-In items)) unique,
        All-map_of _ _ (λ c m. survivor_of items unique c m) items (All-In items),
      )
