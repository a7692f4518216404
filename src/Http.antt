-- ===== src/Http.antt =====
-- `HTTPException`, and the other exceptions that the modelled functions raise. A function that may
-- raise returns a `Result`.
use automem.Common.{◌≡◌, refl, ◌⊎◌, inl, inr, ℕ, Bool, true, false}
use automem.Text.{Text}

pub data Fault : Type 0 where
  -- backend/auth.py
  api_key_required invalid_api_key key_without_user : Fault
  missing_scope : Text → Fault
  agent_mismatch no_bound_user user_mismatch : Fault
  project_mismatch project_required metadata_conflict filters_conflict : Fault
  -- backend/governance_jobs.py
  unsupported_job_type : Text → Fault
  missing_job : Fault
  -- backend/main.py, backend/routers/governance.py
  task_not_found memory_not_found job_not_found : Fault
  -- backend/task_storage.py
  invalid_cursor : Fault
  prune_failed : Fault
  -- backend/agent_keys.py
  key_needs_user : Fault
  -- backend/services.py
  archive_failed rewrite_failed : Fault
  -- backend/routers/memories.py
  identifier_required : Fault
  -- backend/routers/tasks.py
  user_required : Fault
  -- backend/routers/admin.py
  key_request_needs_user : Fault
  -- `sqlite3.IntegrityError`, `assert`, and what a mem0 call raises
  integrity_error assertion_failed backend_error : Fault
  -- `TypeError` of `secrets.compare_digest`
  digest_of_non_ascii : Fault

-- `status_code` of an `HTTPException`; an exception of any other class becomes a 500.
pub status_code : Fault → ℕ
status_code api_key_required = 401
status_code invalid_api_key = 401
status_code key_without_user = 403
status_code (missing_scope s) = 403
status_code agent_mismatch = 403
status_code no_bound_user = 403
status_code user_mismatch = 403
status_code project_mismatch = 403
status_code project_required = 400
status_code metadata_conflict = 400
status_code filters_conflict = 400
status_code (unsupported_job_type t) = 400
status_code task_not_found = 404
status_code memory_not_found = 404
status_code job_not_found = 404
status_code invalid_cursor = 400
status_code identifier_required = 400
status_code user_required = 400
status_code key_request_needs_user = 400
status_code _ = 500

pub data Result {ℓ} (T : Type ℓ) : Type ℓ where
  err : Fault → Result T
  ok : T → Result T

infixl 5 ◌>>=◌ ◌>>◌
-- `if test: raise fault`
abbrev pub raise_if : Bool → Fault → Result (Unit {0})
raise_if test fault = elim test [ false ↦ ok tt | true ↦ err fault ]

-- What is done after a call that may raise.
abbrev pub ◌>>=◌ {ℓ₁ ℓ₂} : {S : Type ℓ₁} {T : Type ℓ₂} → Result S → (next : S → Result T) → Result T
err fault >>= next = err fault
ok s >>= next = next s

abbrev pub ◌>>◌ {ℓ₂} : {T : Type ℓ₂} → Result (Unit {0}) → Result T → Result T
check >> rest = check >>= λ passed. rest

pub Result-cases {ℓ} :
    {T : Type ℓ} (r : Result T) → ((t : T) × (r ≡ ok t)) ⊎ ((fault : Fault) × (r ≡ err fault))
Result-cases (ok t) = inl (t, refl)
Result-cases (err fault) = inr (fault, refl)
