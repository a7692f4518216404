-- ===== src/Jobs/Enqueue.antt =====
-- `enqueue_governance_job`: a new job is pending, and one idempotency key gives one job.
use automem.Common.{
  ℕ, ◌≡◌, ◌≢◌, refl, ◌⊎◌, inl, inr, Bool, true, false, Option, none, some, List, [], ◌∷◌, ◌++◌,
  arith, Bool-cases, Option-cases, first, select, length-append, first-append, first-none,
  select-append, select-eq_nil, All, All-append, All-map_of, UniqueBy-append_one,
}
use automem.Text.{Text, eq_sound, eq_refl}
use automem.Text.Normalize.{normalize_text}
use automem.Http.{ok}
use automem.Jobs.{JobRequest, Job, pending, consolidate_type}
use automem.Jobs.Queue.{
  new_job, clashes, insert_job, insert_or_reuse, existing_job, enqueue_governance_job, refetch,
  fetch_governance_job, has_id, has_key, normalized_key,
}
use automem.Jobs.Invariant.{IsTableOf, IsBudgeted, IsConsistent, new_job-IsBudgeted}

module _ {P R : Type 0} where
  -- Nothing in the table has the id or the key of the new row.
  free_id :
      (new : Job P R) (table : List (Job P R))
      → first (clashes new) table ≡ none
      → All (λ (row : Job P R). row.job_id ≢ new.job_id) table
  free_id new table h =
      All-map_of _ _ (λ row p e. ground (arith, eq_refl new.job_id)) table (first-none _ table h)

  first-fetch_none :
      (new : Job P R) (table : List (Job P R))
      → first (clashes new) table ≡ none
      → first (has_id new.job_id) table ≡ none
  unfolding first
  first-fetch_none new [] h = refl
  first-fetch_none new (row ∷ rows) h = ground (arith, first-fetch_none new rows)

  first-key_none :
      (new : Job P R) (key : Text) (table : List (Job P R))
      → new.idempotency_key ≡ some key
      → first (clashes new) table ≡ none
      → first (has_key key) table ≡ none
  unfolding first
  first-key_none new key [] k h = refl
  first-key_none new key (row ∷ rows) k h = ground (arith, k, first-key_none new key rows k)

  key_free :
      (new : Job P R) (key : Text) (table : List (Job P R))
      → has_key key new ≡ true
      → first (clashes new) table ≡ none
      → first (has_key key) table ≡ none
  key_free new key table h free = elim (Option-cases new.idempotency_key) [
    | inl n ↦ absurd (ground (arith, n))
    | inr (k, e) ↦ first-key_none new key table (ground (arith, e, eq_sound k key)) free
  ]

  fetch-new :
      (new : Job P R) (table : List (Job P R))
      → first (clashes new) table ≡ none
      → fetch_governance_job new.job_id (table ++ new ∷ []) ≡ some new
  unfolding fetch_governance_job
  fetch-new new table h =
      rw first-append (rw (first-fetch_none new table h) (unfold first in rw (eq_refl new.job_id)))

  refetch-new :
      (new : Job P R) (table : List (Job P R))
      → first (clashes new) table ≡ none
      → refetch new.job_id (table ++ new ∷ []) ≡ ok new
  unfolding refetch
  refetch-new new table h = rw (fetch-new new table h, refetch)

  -- Behind the check of the type, a job is found by its key or a row is inserted and read back.
  insert_or_reuse_cases :
      (new job : Job P R) (found : Bool) (table after : List (Job P R))
      → insert_or_reuse new table ≡ ok (job, found, after)
      → (found ≡ true) × (existing_job new.idempotency_key table ≡ some job) × (after ≡ table)
        ⊎ (found ≡ false)
          × (existing_job new.idempotency_key table ≡ none)
          × (job ≡ new)
          × (after ≡ table ++ new ∷ [])
          × (first (clashes new) table ≡ none)
  unfolding insert_or_reuse insert_job
  insert_or_reuse_cases new job found table after e =
      elim (Option-cases (existing_job new.idempotency_key table)) [
        | inl n ↦ elim (Option-cases (first (clashes new) table)) [
          | inl free ↦ ground (arith, refetch-new new table free)
          | inr (row, taken) ↦ absurd (ground (arith, n, taken))
        ]
        | inr (row, old) ↦ ground (arith, old)
      ]

  insert-IsTableOf :
      (Q : Job P R → Type 0) (new : Job P R) (table : List (Job P R))
      → first (clashes new) table ≡ none
      → Q new
      → IsTableOf Q table
      → IsTableOf Q (table ++ new ∷ [])
  insert-IsTableOf Q new table free kept c = record {
    ids = UniqueBy-append_one _ table new c.ids (free_id new table free);
    keys = λ k. rw (select-append (has_key k) table (new ∷ [])) (elim (Bool-cases (has_key k new)) [
      | inl same ↦
          rw (select-eq_nil (has_key k) table (key_free new k table same free))
            (unfold select in ground (arith, same))
      | inr other ↦ rw length-append (unfold select in ground (arith, other, c.keys k))
    ]);
    rows = All-append Q table (new ∷ []) c.rows (kept, tt);
  }

  module _ (job_id : Text) (now : ℕ) (request : JobRequest P) (table : List (Job P R)) where
    abbrev pub Enqueues : Job P R → Bool → List (Job P R) → Type 0
    Enqueues job found after =
        enqueue_governance_job job_id now request table ≡ ok (job, found, after)

    abbrev row : Job P R
    row = new_job job_id now request

    abbrev key : Option Text
    key = normalized_key request.idempotency_key

    inserts :
        (job : Job P R) (found : Bool) (after : List (Job P R))
        → Enqueues job found after
        → insert_or_reuse row table ≡ ok (job, found, after)
    unfolding enqueue_governance_job
    inserts job found after e = ground arith

    -- A successful enqueue keeps the table in order.
    pub enqueue-IsTableOf :
        (Q : Job P R → Type 0) (job : Job P R) (found : Bool) (after : List (Job P R))
        → Q row
        → Enqueues job found after
        → IsTableOf Q table
        → IsTableOf Q after
    enqueue-IsTableOf Q job found after fresh e c =
        elim (insert_or_reuse_cases row job found table after (inserts job found after e)) [
          | inl (_, _, same) ↦ rw same c
          | inr (_, _, _, longer, free) ↦ rw longer (insert-IsTableOf Q row table free fresh c)
        ]

    pub enqueue-IsConsistent :
        (job : Job P R) (found : Bool) (after : List (Job P R))
        → Enqueues job found after
        → IsConsistent table
        → IsConsistent after
    enqueue-IsConsistent job found after e c =
        enqueue-IsTableOf IsBudgeted job found after (new_job-IsBudgeted job_id now request) e c

    -- A successful enqueue with a key that some job has returns that job and changes nothing. With a
    -- key that no job has, or none, it adds one row behind the others: pending, never tried, of the
    -- supported type, and found under its id.
    pub enqueue_cases :
        (job : Job P R) (found : Bool) (after : List (Job P R))
        → Enqueues job found after
        → (found ≡ true) × (existing_job key table ≡ some job) × (after ≡ table)
          ⊎ (found ≡ false)
            × (existing_job key table ≡ none)
            × (after ≡ table ++ job ∷ [])
            × (job.status ≡ pending)
            × (job.attempts ≡ 0)
            × (job.job_type ≡ consolidate_type)
            × (fetch_governance_job job_id after ≡ some job)
    unfolding enqueue_governance_job
    enqueue_cases job found after e =
        elim (insert_or_reuse_cases row job found table after (inserts job found after e)) [
          | inl old ↦ inl old
          | inr (new, absent, same, longer, free) ↦ inr (
            new,
            absent,
            rw same longer,
            rw same refl,
            rw same refl,
            rw same (ground (arith, eq_sound (normalize_text request.job_type) consolidate_type)),
            rw (same, longer) (fetch-new row table free),
          )
        ]

    -- Afterwards the key finds the job.
    existing-enqueued :
        (k : Text) (job : Job P R) (found : Bool) (after : List (Job P R))
        → key ≡ some k
        → Enqueues job found after
        → existing_job (some k) after ≡ some job
    unfolding existing_job
    existing-enqueued k job found after same e =
        elim (insert_or_reuse_cases row job found table after (inserts job found after e)) [
          | inl (_, old, kept) ↦ rw kept (rw same at old)
          | inr (_, absent, new, longer, free) ↦
              let none_yet : first (has_key k) table ≡ none = rw same at absent in
              rw (new, longer)
                (rw first-append (rw none_yet (unfold first in ground (arith, same, eq_refl k))))
        ]

  -- A second enqueue with the key of a first one, whatever else it asks for, returns the job of the
  -- first and changes nothing.
  pub enqueue_twice :
      (job_id job_id' : Text) (now now' : ℕ) (request again : JobRequest P) (table : List (Job P R))
      (k : Text) (job : Job P R) (found : Bool) (after : List (Job P R))
      → normalized_key request.idempotency_key ≡ some k
      → normalized_key again.idempotency_key ≡ some k
      → normalize_text again.job_type ≡ consolidate_type
      → enqueue_governance_job job_id now request table ≡ ok (job, found, after)
      → enqueue_governance_job job_id' now' again after ≡ ok (job, true, after)
  unfolding enqueue_governance_job insert_or_reuse
  enqueue_twice job_id job_id' now now' request again table k job found after same same' supported
        e =
      let there = existing-enqueued job_id now request table k job found after same e in
      rw (supported, eq_refl consolidate_type) (rw (same', there, insert_or_reuse))
