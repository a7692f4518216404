-- ===== src/Jobs.antt =====
-- backend/governance_jobs.py: the table `governance_jobs`. The columns `payload_json` and `result_json`
-- are held as the values that they encode, of the types `P` and `R`. A timestamp is the number of
-- microseconds whose `isoformat` the program stores: it compares these strings only with one another,
-- and they are ordered as the numbers are.
pub mod Queue
pub mod Invariant
pub mod Enqueue
pub mod Preserved
pub mod Claims
pub mod Operations
pub mod ById
pub mod Leases
pub mod Dispatch
mod Tests
use automem.Common.{ℕ, ◌*◌, Bool, true, false, ◌&&◌, ◌||◌, Option, none, some, max, min, ltb, leb}
use automem.Text.{Text, text}

pub data JobStatus : Type 0 where
  pending running completed failed : JobStatus

unfoldable pub status_eq : JobStatus → JobStatus → Bool
status_eq pending pending = true
status_eq running running = true
status_eq completed completed = true
status_eq failed failed = true
status_eq _ _ = false

pub record Job (P R : Type 0) : Type 0 where
  pub job_id : Text
  pub job_type : Text
  pub status : JobStatus
  pub idempotency_key : Option Text
  pub user_id : Option Text
  pub project_id : Option Text
  pub payload : P
  -- `none` is `{}`
  pub result : Option R
  pub error_text : Option Text
  pub attempts : ℕ
  pub max_attempts : ℕ
  pub lease_expires_at : Option ℕ
  pub leased_by : Option Text
  pub started_at : Option ℕ
  pub finished_at : Option ℕ
  pub created_by : Option Text
  pub created_at : ℕ
  pub updated_at : ℕ

-- The only member of `SUPPORTED_GOVERNANCE_JOB_TYPES`.
abbrev pub consolidate_type : Text
consolidate_type = text "consolidate"

-- The keyword arguments of `enqueue_governance_job`.
pub record JobRequest (P : Type 0) : Type 0 where
  pub job_type : Text
  pub payload : P
  pub user_id : Option Text
  pub project_id : Option Text
  pub idempotency_key : Option Text
  pub max_attempts : ℕ
  pub created_by : Option Text
