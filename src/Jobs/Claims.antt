-- ===== src/Jobs/Claims.antt =====
-- Which job a claim takes, and what it makes of it.
use automem.Common.Sorting.{IsOrder, All-sort_by, head-sort_by, head-sort_by-none, head_of_All}
use automem.Common.{
  ℕ, ◌+◌, ◌≤◌, ◌≡◌, ◌≢◌, ap, select-nil, refl, ◌⊎◌, inl, inr, Bool, true, false, Option, none, some,
  List, [], ◌∷◌, arith, Bool-cases, Option-cases, first, update, select, leb, first-update,
  first-test, All, All-zip, All-map_of, All-select, All-select_test, All-of-select, UniqueBy,
}
use automem.Text.{Text, eq_sound, eq_refl}
use automem.Http.{Result, ok}
use automem.Jobs.{Job}
use automem.Jobs.Queue.{
  lease, lease_time, take_lease, claim_next_governance_job, claim_governance_job_by_id, refetch,
  fetch_governance_job, has_id, oldest, is_claimable, allowed_job_types, refuses_claim,
}
use automem.Jobs.Invariant.{IsOrderly}

module _ {P R : Type 0} where
  -- Under its id every row is found.
  pub fetch_self :
      (table : List (Job P R))
      → UniqueBy (λ (j : Job P R). j.job_id) table
      → All (λ (r : Job P R). fetch_governance_job r.job_id table ≡ some r) table
  unfolding fetch_governance_job first
  fetch_self [] h = tt
  fetch_self (x ∷ xs) h = (
    rw (eq_refl x.job_id),
    All-map_of _ _ (λ (r : Job P R) p. ground (arith, p.0, p.1, eq_sound x.job_id r.job_id)) xs
        (All-zip _ _ xs h.0 (fetch_self xs h.1)),
  )

  pub fetch-update_self :
      (id : Text) (f : Job P R → Job P R) (table : List (Job P R)) {row : Job P R}
      → ((j : Job P R) → (f j).job_id ≡ j.job_id)
      → fetch_governance_job id table ≡ some row
      → row.job_id ≡ id
      → fetch_governance_job id (update (has_id id) f table) ≡ some (f row)
  unfolding fetch_governance_job
  fetch-update_self id f table {row} keep found same =
      rw (first-update (has_id id) (has_id id) f (λ j _. rw keep) table)
        (ground (arith, found, same, eq_refl id))

  -- An update of another job.
  pub fetch-update_ne :
      (id id' : Text) (f : Job P R → Job P R) (table : List (Job P R)) {row : Job P R}
      → ((j : Job P R) → (f j).job_id ≡ j.job_id)
      → fetch_governance_job id table ≡ some row
      → row.job_id ≢ id'
      → fetch_governance_job id (update (has_id id') f table) ≡ some row
  unfolding fetch_governance_job
  fetch-update_ne id id' f table {row} keep found other =
      rw (first-update (has_id id') (has_id id) f (λ j _. rw keep) table)
        (ground (arith, found, eq_sound row.job_id id'))

  pub fetch-id :
      (id : Text) (table : List (Job P R)) {row : Job P R}
      → fetch_governance_job id table ≡ some row
      → row.job_id ≡ id
  unfolding fetch_governance_job
  fetch-id id table {row} e = eq_sound row.job_id id (first-test (has_id id) table e)

  -- A claim of a row that is there gives the row with its lease.
  pub take_lease_row :
      (worker_id : Text) (now until : ℕ) (table : List (Job P R)) (row : Job P R)
      → fetch_governance_job row.job_id table ≡ some row
      → take_lease worker_id now until row.job_id table ≡ (
        ok (some (lease worker_id now until row)),
        update (has_id row.job_id) (lease worker_id now until) table,
      )
  unfolding take_lease refetch
  take_lease_row worker_id now until table row found =
      let there =
        fetch-update_self row.job_id (lease worker_id now until) table (unfold lease in λ j. refl)
          found refl in
      ground (arith, there)

  by_creation : IsOrder (λ (a b : Job P R). leb a.created_at b.created_at)
  by_creation = record {
    total = λ (a b : Job P R) h. ground (arith, h);
    trans = λ (a b c : Job P R) h k. ground (arith, h, k);
  }

  oldest-All :
      (Q : Job P R → Type 0) (l : List (Job P R)) {row : Job P R}
      → All Q l
      → oldest l ≡ some row
      → Q row
  unfolding oldest
  oldest-All Q l h e = head_of_All Q _ (All-sort_by Q _ l h) e

  oldest-le :
      (l : List (Job P R)) {row : Job P R}
      → oldest l ≡ some row
      → All (λ (r : Job P R). row.created_at ≤ r.created_at) l
  unfolding oldest
  oldest-le l {row} e =
      All-map_of _ _ (λ (r : Job P R) h. ground (arith, h)) l (head-sort_by by_creation l e)

  oldest-none : (l : List (Job P R)) → oldest l ≡ none → l ≡ []
  unfolding oldest
  oldest-none l e = head-sort_by-none _ l e

  module _ (worker_id : Text) (job_types : List Text) (seconds now later : ℕ)
      (table : List (Job P R)) where
    abbrev claimable : Job P R → Bool
    claimable = is_claimable now (allowed_job_types job_types)

    abbrev claim : Result (Option (Job P R)) × List (Job P R)
    claim = claim_next_governance_job worker_id job_types seconds now later table

    -- The row that a claim takes.
    pub record Takes (row : Job P R) : Type 0 where
      pub there : fetch_governance_job row.job_id table ≡ some row
      pub was_claimable : claimable row ≡ true
      pub no_older : All (λ (r : Job P R). claimable r ≡ true → row.created_at ≤ r.created_at) table
      pub answer : claim.0 ≡ ok (some (lease worker_id now (later + lease_time seconds) row))
      pub table_after :
          claim.1
          ≡ update (has_id row.job_id) (lease worker_id now (later + lease_time seconds)) table

    -- On a table in order, a claim takes a claimable job with no older claimable job beside it, and
    -- returns it as its row now stands, running under the new lease. It returns no job, and changes
    -- nothing, exactly if no job is claimable.
    pub claim_next_cases :
        IsOrderly table
        → (claim ≡ (ok none, table)) × All (λ (r : Job P R). claimable r ≡ false) table
          ⊎ ((row : Job P R) × Takes row)
    unfolding claim_next_governance_job
    claim_next_cases c = elim (Option-cases (oldest (select claimable table))) [
      | inl n ↦ inl (
        rw (n, claim_next_governance_job),
        select-nil claimable table (oldest-none (select claimable table) n),
      )
      | inr (row, e) ↦
          let there =
            oldest-All _ (select claimable table)
              (All-select _ claimable table (fetch_self table c.ids)) e in
          let result = take_lease_row worker_id now (later + lease_time seconds) table row there in
          inr (
            row,
            record {
              there = there;
              was_claimable =
                  oldest-All _ (select claimable table) (All-select_test claimable table) e;
              no_older = All-of-select _ claimable table (oldest-le (select claimable table) e);
              answer = rw (e, claim_next_governance_job) (ap (λ r. r.0) result);
              table_after = rw (e, claim_next_governance_job) (ap (λ r. r.1) result);
            },
          )
    ]

  -- The same for a claim by id: it takes the job of that id if that is pending, or running with no
  -- lease that lasts beyond now, and otherwise returns no job and changes nothing.
  pub claim_by_id_cases :
      (job_id worker_id : Text) (seconds now later : ℕ) (table : List (Job P R))
      → IsOrderly table
      → (claim_governance_job_by_id job_id worker_id seconds now later table ≡ (ok none, table))
          × ((fetch_governance_job job_id table ≡ none)
              ⊎ ((row : Job P R) × (fetch_governance_job job_id table ≡ some row)
                  × (refuses_claim now row ≡ true)))
        ⊎ ((row : Job P R) × (fetch_governance_job job_id table ≡ some row)
            × (refuses_claim now row ≡ false)
            × (claim_governance_job_by_id job_id worker_id seconds now later table ≡ (
              ok (some (lease worker_id now (later + lease_time seconds) row)),
              update (has_id job_id) (lease worker_id now (later + lease_time seconds)) table,
            )))
  unfolding claim_governance_job_by_id
  claim_by_id_cases job_id worker_id seconds now later table c =
      elim (Option-cases (fetch_governance_job job_id table)) [
        | inl n ↦ inl (rw (n, claim_governance_job_by_id), inl n)
        | inr (row, e) ↦ elim (Bool-cases (refuses_claim now row)) [
          | inl r ↦ inl (rw (e, r, claim_governance_job_by_id), inr (row, e, r))
          | inr r ↦
              let named = fetch-id job_id table e in
              let there = rw (← named) at e in
              inr (
                row,
                e,
                r,
                ground (
                  arith,
                  e,
                  r,
                  named,
                  take_lease_row worker_id now (later + lease_time seconds) table row there,
                ),
              )
        ]
      ]
