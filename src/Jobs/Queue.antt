-- ===== src/Jobs/Queue.antt =====
-- The operations on `governance_jobs`, each with the table after it.
use mathlib.Core.List.{head?}
use automem.Common.{
  ℕ, ◌+◌, ◌*◌, Bool, true, false, not, ◌&&◌, ◌||◌, Option, none, some, List, [], ◌∷◌, ◌++◌, max,
  min, ltb, leb, if◌then◌else◌, take, first, select, update, sort_by,
}
use automem.Text.{Text, ◌==◌, elem, truthy, or_empty, is_empty}
use automem.Text.Normalize.{normalize_text}
use automem.Text.Strings.{clean_strings}
use automem.Http.{
  Result, ok, err, ◌>>=◌, unsupported_job_type, missing_job, assertion_failed, integrity_error,
}
use automem.Audit.{page_limit}
use automem.Jobs.{JobRequest, Job, JobStatus, pending, running, failed, status_eq, consolidate_type}

-- `max(1, min(max_attempts, 10))`
abbrev pub clamp_attempts : ℕ → ℕ
clamp_attempts n = max 1 (min n 10)

-- `timedelta(seconds=max(30, min(lease_seconds, 3600)))` in microseconds.
abbrev pub lease_time : ℕ → ℕ
lease_time seconds = 1_000_000 * max 30 (min seconds 3600)

-- `_normalize_text(idempotency_key or "") or None`
abbrev pub normalized_key : Option Text → Option Text
normalized_key key =
    let value = normalize_text (or_empty key) in if is_empty value then none else some value

-- `{_normalize_text(item) …} & SUPPORTED_GOVERNANCE_JOB_TYPES`
unfoldable pub allowed_job_types : List Text → List Text
allowed_job_types job_types = select (λ t. t == consolidate_type) (clean_strings job_types)

-- COALESCE(started_at, now)
abbrev pub coalesce : Option ℕ → ℕ → Option ℕ
coalesce none now = some now
coalesce (some t) now = some t

module _ {P R : Type 0} where
  abbrev pub has_id : Text → Job P R → Bool
  has_id job_id job = job.job_id == job_id

  -- `can_retry` of `serialize_governance_job_row`
  unfoldable pub can_retry : Job P R → Bool
  can_retry job =
      (status_eq job.status pending || status_eq job.status running)
      || (status_eq job.status failed && ltb job.attempts job.max_attempts)

  unfoldable pub fetch_governance_job : Text → List (Job P R) → Option (Job P R)
  fetch_governance_job job_id = first (has_id job_id)

  -- `job = fetch_governance_job(job_id)` and `assert job is not None`
  unfoldable pub refetch : Text → List (Job P R) → Result (Job P R)
  refetch job_id table = elim (fetch_governance_job job_id table) [
    | none ↦ err assertion_failed
    | some job ↦ ok job
  ]

  unfoldable pub list_governance_jobs :
      Option JobStatus → Option Text → ℕ → List (Job P R) → List (Job P R)
  list_governance_jobs status job_type limit table = take (page_limit limit) (
      sort_by (λ a b. leb b.created_at a.created_at)
        (select
          (λ job.
            elim status [ none ↦ true | some s ↦ status_eq job.status s ]
            && (if truthy job_type then job.job_type == or_empty job_type else true))
          table))

  -- The row that an enqueue inserts.
  abbrev pub new_job : Text → ℕ → JobRequest P → Job P R
  new_job job_id now request = record {
    job_id = job_id;
    job_type = normalize_text request.job_type;
    status = pending;
    idempotency_key = normalized_key request.idempotency_key;
    user_id = request.user_id;
    project_id = request.project_id;
    payload = request.payload;
    result = none;
    error_text = none;
    attempts = 0;
    max_attempts = clamp_attempts request.max_attempts;
    lease_expires_at = none;
    leased_by = none;
    started_at = none;
    finished_at = none;
    created_by = request.created_by;
    created_at = now;
    updated_at = now;
  }

  -- `idempotency_key = ?`, which no NULL satisfies.
  abbrev pub has_key : Text → Job P R → Bool
  has_key key job = elim job.idempotency_key [ none ↦ false | some k ↦ k == key ]

  -- The primary key and the UNIQUE column of an inserted row.
  abbrev pub clashes : Job P R → Job P R → Bool
  clashes new row =
      (row.job_id == new.job_id)
      || elim new.idempotency_key [ none ↦ false | some key ↦ has_key key row ]

  unfoldable pub insert_job : Job P R → List (Job P R) → Result (List (Job P R))
  insert_job job table = elim (first (clashes job) table) [
    | none ↦ ok (table ++ job ∷ [])
    | some row ↦ err integrity_error
  ]

  -- The row that an enqueue with this key finds.
  unfoldable pub existing_job : Option Text → List (Job P R) → Option (Job P R)
  existing_job none table = none
  existing_job (some key) table = first (has_key key) table

  -- Behind the check of the type: the job, whether it was there already, and the table.
  unfoldable pub insert_or_reuse :
      Job P R → List (Job P R) → Result (Job P R × Bool × List (Job P R))
  insert_or_reuse new table = elim (existing_job new.idempotency_key table) [
    | some job ↦ ok (job, true, table)
    | none ↦ do
      table' ← insert_job new table
      job ← refetch new.job_id table'
      ok (job, false, table')
  ]

  -- `enqueue_governance_job`; `job_id` is the id that is drawn for a new job.
  unfoldable pub enqueue_governance_job :
      Text → ℕ → JobRequest P → List (Job P R) → Result (Job P R × Bool × List (Job P R))
  enqueue_governance_job job_id now request table =
      if not (normalize_text request.job_type == consolidate_type)
      then err (unsupported_job_type request.job_type)
      else insert_or_reuse (new_job job_id now request) table

  abbrev pub lease_expired : ℕ → Job P R → Bool
  lease_expired now job = elim job.lease_expires_at [ none ↦ false | some t ↦ leb t now ]

  -- The WHERE clause of `claim_next_governance_job`. An empty `allowed` adds no condition.
  unfoldable pub is_claimable : ℕ → List Text → Job P R → Bool
  is_claimable now [] job =
      status_eq job.status pending || (status_eq job.status running && lease_expired now job)
  is_claimable now (t ∷ ts) job =
      (status_eq job.status pending || (status_eq job.status running && lease_expired now job))
      && elem job.job_type (t ∷ ts)

  -- The SET clause of a claim.
  unfoldable pub lease : Text → ℕ → ℕ → Job P R → Job P R
  lease worker_id now lease_until job = record job {
    status = running;
    attempts = job.attempts + 1;
    lease_expires_at = some lease_until;
    leased_by = some worker_id;
    started_at = coalesce job.started_at now;
    updated_at = now;
  }

  -- The UPDATE of a claim, and the row read back.
  unfoldable pub take_lease :
      Text → ℕ → ℕ → Text → List (Job P R) → Result (Option (Job P R)) × List (Job P R)
  take_lease worker_id now lease_until job_id table =
      let table' = update (has_id job_id) (lease worker_id now lease_until) table in
      (do job ← refetch job_id table'; ok (some job), table')

  -- ORDER BY created_at ASC LIMIT 1
  unfoldable pub oldest : List (Job P R) → Option (Job P R)
  oldest table = head? (sort_by (λ a b. leb a.created_at b.created_at) table)

  -- `now` and `later` are the two readings of the clock.
  unfoldable pub claim_next_governance_job :
      Text → List Text → ℕ → ℕ → ℕ → List (Job P R) → Result (Option (Job P R)) × List (Job P R)
  claim_next_governance_job worker_id job_types lease_seconds now later table =
      elim (oldest (select (is_claimable now (allowed_job_types job_types)) table)) [
        | none ↦ (ok none, table)
        | some row ↦ take_lease worker_id now (later + lease_time lease_seconds) row.job_id table
      ]

  -- The early returns of `claim_governance_job_by_id`.
  unfoldable pub refuses_claim : ℕ → Job P R → Bool
  refuses_claim now row =
      not (status_eq row.status pending || status_eq row.status running)
      || (status_eq row.status running
          && elim row.lease_expires_at [ none ↦ false | some t ↦ ltb now t ])

  unfoldable pub claim_governance_job_by_id :
      Text → Text → ℕ → ℕ → ℕ → List (Job P R) → Result (Option (Job P R)) × List (Job P R)
  claim_governance_job_by_id job_id worker_id lease_seconds now later table =
      elim (fetch_governance_job job_id table) [
        | none ↦ (ok none, table)
        | some row ↦
            if refuses_claim now row
            then (ok none, table)
            else take_lease worker_id now (later + lease_time lease_seconds) job_id table
      ]

  -- The SET clause of `finalize_governance_job`.
  unfoldable pub finish : JobStatus → Option R → Option Text → ℕ → Job P R → Job P R
  finish status result error_text now job = record job {
    status = status;
    result = result;
    error_text = error_text;
    lease_expires_at = none;
    leased_by = none;
    finished_at = some now;
    updated_at = now;
  }

  unfoldable pub finalize_governance_job :
      Text
      → JobStatus
      → Option R
      → Option Text
      → ℕ
      → List (Job P R)
      → Result (Job P R) × List (Job P R)
  finalize_governance_job job_id status result error_text now table =
      let table' = update (has_id job_id) (finish status result error_text now) table in
      (refetch job_id table', table')

  -- The SET clause of `release_governance_job_for_retry`, by the row that was read.
  unfoldable pub release : Job P R → Text → ℕ → Job P R → Job P R
  release row error_text now job = record job {
    status = if ltb row.attempts row.max_attempts then pending else failed;
    error_text = some error_text;
    lease_expires_at = none;
    leased_by = none;
    updated_at = now;
  }

  -- The UPDATE of `release_governance_job_for_retry`, with the row that its SELECT found. The SELECT takes
  -- no lock, so that another process may write between the two.
  unfoldable pub write_release :
      Job P R → Text → Text → ℕ → List (Job P R) → Result (Job P R) × List (Job P R)
  write_release row job_id error_text now table =
      let table' = update (has_id job_id) (release row error_text now) table in
      (refetch job_id table', table')

  -- The whole call, where nothing is written between its statements.
  unfoldable pub release_governance_job_for_retry :
      Text → Text → ℕ → List (Job P R) → Result (Job P R) × List (Job P R)
  release_governance_job_for_retry job_id error_text now table =
      elim (fetch_governance_job job_id table) [
        | none ↦ (err missing_job, table)
        | some row ↦ write_release row job_id error_text now table
      ]
