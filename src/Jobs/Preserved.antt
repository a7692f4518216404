-- ===== src/Jobs/Preserved.antt =====
-- Every operation of the queue keeps its table in order.
use automem.Common.{
  subst, All-update_of, true, All-zip, some, All-map_of, All, ℕ, ◌≡◌, refl, inl, inr, Option, List,
  Bool-cases, Option-cases, update, select, length-select-update, UniqueBy-update,
}
use automem.Text.{eq_sound, Text}
use automem.Jobs.{Job, JobStatus}
use automem.Jobs.Queue.{
  write_release, lease, take_lease, claim_next_governance_job, claim_governance_job_by_id, finish,
  finalize_governance_job, release, release_governance_job_for_retry, fetch_governance_job, has_id,
  has_key, oldest, is_claimable, allowed_job_types, refuses_claim,
}
use automem.Jobs.Claims.{fetch_self}
use automem.Jobs.Invariant.{
  release-IsBudgeted, finish-IsBudgeted, lease-IsBudgeted, IsBudgeted, IsTableOf, IsTerminal,
  IsConsistent,
}

module _ {P R : Type 0} (Q : Job P R → Type 0) where
  -- An UPDATE of a row that leaves its id and its idempotency key alone.
  update-IsTableOf :
      (job_id : Text) (f : Job P R → Job P R) (table : List (Job P R))
      → ((j : Job P R) → (f j).job_id ≡ j.job_id)
      → ((j : Job P R) → (f j).idempotency_key ≡ j.idempotency_key)
      → All (λ (j : Job P R). has_id job_id j ≡ true → Q (f j)) table
      → IsTableOf Q table
      → IsTableOf Q (update (has_id job_id) f table)
  update-IsTableOf job_id f table id key kept c = record {
    ids = UniqueBy-update (λ (j : Job P R). j.job_id) (has_id job_id) f (λ j _. id j) table c.ids;
    keys =
        λ k. rw (length-select-update (has_id job_id) (has_key k) f (λ j. rw key) table) (c.keys k);
    rows = All-update_of Q (has_id job_id) f table kept c.rows;
  }

  module _
      (leases : (worker_id : Text) (now until : ℕ) (j : Job P R)
        → Q j
        → Q (lease worker_id now until j)) where
    take_lease-IsTableOf :
        (worker_id : Text) (now until : ℕ) (job_id : Text) (table : List (Job P R))
        → IsTableOf Q table
        → IsTableOf Q (take_lease worker_id now until job_id table).1
    unfolding take_lease
    take_lease-IsTableOf worker_id now until job_id table c =
        update-IsTableOf job_id (lease worker_id now until) table (unfold lease in λ j. refl)
          (unfold lease in λ j. refl)
          (All-map_of _ _ (λ j h _. leases worker_id now until j h) table c.rows) c

    pub claim_next-IsTableOf :
        (worker_id : Text) (job_types : List Text) (seconds now later : ℕ) (table : List (Job P R))
        → IsTableOf Q table
        → IsTableOf Q (claim_next_governance_job worker_id job_types seconds now later table).1
    unfolding claim_next_governance_job
    claim_next-IsTableOf worker_id job_types seconds now later table c =
        elim (Option-cases
          (oldest (select (is_claimable now (allowed_job_types job_types)) table))) [
            | inl n ↦ rw (n, claim_next_governance_job) c
            | inr (row, e) ↦
                rw (e, claim_next_governance_job)
                  (take_lease-IsTableOf worker_id now _ row.job_id table c)
          ]

    pub claim_by_id-IsTableOf :
        (job_id worker_id : Text) (seconds now later : ℕ) (table : List (Job P R))
        → IsTableOf Q table
        → IsTableOf Q (claim_governance_job_by_id job_id worker_id seconds now later table).1
    unfolding claim_governance_job_by_id
    claim_by_id-IsTableOf job_id worker_id seconds now later table c =
        elim (Option-cases (fetch_governance_job job_id table)) [
          | inl n ↦ rw (n, claim_governance_job_by_id) c
          | inr (row, e) ↦ elim (Bool-cases (refuses_claim now row)) [
            | inl r ↦ rw (e, r, claim_governance_job_by_id) c
            | inr r ↦
                rw (e, r, claim_governance_job_by_id)
                  (take_lease-IsTableOf worker_id now _ job_id table c)
          ]
        ]

  pub finalize-IsTableOf :
      (job_id : Text) (status : JobStatus) (result : Option R) (error_text : Option Text) (now : ℕ)
      (table : List (Job P R))
      → ((j : Job P R) → Q j → Q (finish status result error_text now j))
      → IsTableOf Q table
      → IsTableOf Q (finalize_governance_job job_id status result error_text now table).1
  unfolding finalize_governance_job
  finalize-IsTableOf job_id status result error_text now table finishes c =
      update-IsTableOf job_id (finish status result error_text now) table
        (unfold finish in λ j. refl) (unfold finish in λ j. refl)
        (All-map_of _ _ (λ j h _. finishes j h) table c.rows) c

  pub write_release-IsTableOf :
      (row : Job P R) (job_id error_text : Text) (now : ℕ) (table : List (Job P R))
      → All (λ (j : Job P R). has_id job_id j ≡ true → Q (release row error_text now j)) table
      → IsTableOf Q table
      → IsTableOf Q (write_release row job_id error_text now table).1
  unfolding write_release
  write_release-IsTableOf row job_id error_text now table kept c =
      update-IsTableOf job_id (release row error_text now) table (unfold release in λ j. refl)
        (unfold release in λ j. refl) kept c

module _ {P R : Type 0} where
  pub claim_by_id-IsConsistent :
      (job_id worker_id : Text) (seconds now later : ℕ) (table : List (Job P R))
      → IsConsistent table
      → IsConsistent (claim_governance_job_by_id job_id worker_id seconds now later table).1
  claim_by_id-IsConsistent job_id worker_id seconds now later table c =
      claim_by_id-IsTableOf IsBudgeted lease-IsBudgeted job_id worker_id seconds now later table c

  pub finalize-IsConsistent :
      (job_id : Text) (status : JobStatus) (result : Option R) (error_text : Option Text) (now : ℕ)
      (table : List (Job P R))
      → IsTerminal status
      → IsConsistent table
      → IsConsistent (finalize_governance_job job_id status result error_text now table).1
  finalize-IsConsistent job_id status result error_text now table n c =
      finalize-IsTableOf IsBudgeted job_id status result error_text now table
        (λ j h. finish-IsBudgeted status result error_text now j n h) c

  -- With unique ids the row that is read is the row that is written.
  same_row :
      (job_id : Text) (table : List (Job P R)) (j row : Job P R)
      → fetch_governance_job j.job_id table ≡ some j
      → has_id job_id j ≡ true
      → fetch_governance_job job_id table ≡ some row
      → j ≡ row
  same_row job_id table j row here same found =
      let named : j.job_id ≡ job_id = eq_sound j.job_id job_id same in
      let again = rw named at here in cc (again, found)

  released_row :
      (job_id error_text : Text) (now : ℕ) (table : List (Job P R)) (row : Job P R)
      → fetch_governance_job job_id table ≡ some row
      → (j : Job P R) → IsBudgeted j × (fetch_governance_job j.job_id table ≡ some j)
      → has_id job_id j ≡ true
      → IsBudgeted (release row error_text now j)
  released_row job_id error_text now table row found j p same =
      subst (λ r. IsBudgeted (release r error_text now j))
        (same_row job_id table j row p.1 same found) (release-IsBudgeted j error_text now p.0)

  pub release-IsConsistent :
      (job_id error_text : Text) (now : ℕ) (table : List (Job P R))
      → IsConsistent table
      → IsConsistent (release_governance_job_for_retry job_id error_text now table).1
  unfolding release_governance_job_for_retry
  release-IsConsistent job_id error_text now table c =
      elim (Option-cases (fetch_governance_job job_id table)) [
        | inl n ↦ rw (n, release_governance_job_for_retry) c
        | inr (row, e) ↦
            rw (e, release_governance_job_for_retry)
              (write_release-IsTableOf IsBudgeted row job_id error_text now table
                (All-map_of _ _ (released_row job_id error_text now table row e) table
                  (All-zip _ _ table c.rows (fetch_self table c.ids)))
                c)
      ]
