-- ===== src/Worker/Schedule.antt =====
-- The request of scripts/scheduled_consolidate.py, by the environment, and its lock. What `int` makes of an
-- environment variable and the decimal numeral are parameters.
use Prim.Native.Nat.{◌/◌}
use automem.Common.{ℕ, Bool, true, false, Option, none, some, [], ◌∷◌, ◌++◌, if◌then◌else◌, max}
use automem.Text.{Text, text, elem, lower, truthy, or_empty, or_else}
use automem.Text.Normalize.{strip}
use automem.Cache.Rows.{or_none}
use automem.Consolidation.{ConsolidateRequest}

-- `os.environ.get`
abbrev pub Environment : Type 0
Environment = Text → Option Text

unfoldable pub env_flag : Environment → Text → Bool → Bool
env_flag env name default_value = elim (env name) [
  | none ↦ default_value
  | some value ↦ elem (lower (strip value)) (text "1" ∷ text "true" ∷ text "yes" ∷ text "on" ∷ [])
]

unfoldable pub build_payload : Environment → ConsolidateRequest
build_payload env = record {
  dry_run = env_flag env (text "MEMORY_CONSOLIDATE_DRY_RUN") false;
  dedupe_long_term = env_flag env (text "MEMORY_CONSOLIDATE_DEDUPE_LONG_TERM") true;
  archive_closed_tasks = env_flag env (text "MEMORY_CONSOLIDATE_ARCHIVE_CLOSED_TASKS") true;
  normalize_task_state = env_flag env (text "MEMORY_CONSOLIDATE_NORMALIZE_TASK_STATE") true;
  prune_non_work_archived = env_flag env (text "MEMORY_CONSOLIDATE_PRUNE_NON_WORK_ARCHIVED") false;
  archive_work_without_memory_active =
      env_flag env (text "MEMORY_CONSOLIDATE_ARCHIVE_WORK_WITHOUT_MEMORY_ACTIVE") true;
  prune_work_without_memory_archived =
      env_flag env (text "MEMORY_CONSOLIDATE_PRUNE_WORK_WITHOUT_MEMORY_ARCHIVED") false;
  user_id = or_none (env (text "MEMORY_CONSOLIDATE_USER_ID"));
  project_id = or_none (env (text "MEMORY_CONSOLIDATE_PROJECT_ID"));
}

unfoldable pub build_mode : Environment → Text
build_mode env =
    lower
      (strip (or_empty (or_else (env (text "MEMORY_CONSOLIDATE_MODE")) (some (text "enqueue")))))

-- `value or "*"`
abbrev or_star : Option Text → Text
or_star value = or_empty (or_else value (some (text "*")))

-- `window` is MEMORY_CONSOLIDATE_IDEMPOTENCY_WINDOW_SECONDS, and `now` the time in seconds.
unfoldable pub build_idempotency_key :
    (decimal : ℕ → Text) → Environment → (window now : ℕ) → ConsolidateRequest → Text
build_idempotency_key decimal env window now payload =
    let explicit = env (text "MEMORY_CONSOLIDATE_IDEMPOTENCY_KEY") in
    let bucket = now / max 60 window in
    if truthy explicit
    then strip (or_empty explicit)
    else text "consolidate:"
      ++ (or_star payload.user_id
          ++ (text ":"
              ++ (or_star payload.project_id
                  ++ (text ":"
                      ++ ((if payload.dry_run then text "dry" else text "live")
                          ++ (text ":bucket:" ++ decimal bucket))))))

-- The body of `POST /v1/governance/jobs`.
pub record ScheduledJob : Type 0 where
  pub job_type : Text
  pub payload : ConsolidateRequest
  pub user_id : Option Text
  pub project_id : Option Text
  pub idempotency_key : Text
  pub max_attempts : ℕ

unfoldable pub build_job_request :
    (decimal : ℕ → Text)
    → Environment
    → (window attempts now : ℕ) → ConsolidateRequest
    → ScheduledJob
build_job_request decimal env window attempts now payload = record {
  job_type = text "consolidate";
  payload = payload;
  user_id = payload.user_id;
  project_id = payload.project_id;
  idempotency_key = build_idempotency_key decimal env window now payload;
  max_attempts = max 1 attempts;
}

-- `single_run_lock`: the file, once it is there, is not looked into. The answer is what is yielded, and
-- `leave_run` the `finally` block.
unfoldable pub enter_run : (pid : ℕ) → Option ℕ → Bool × Option ℕ
enter_run pid none = (true, some pid)
enter_run pid (some other) = (false, some other)

unfoldable pub leave_run : (acquired : Bool) → Option ℕ → Option ℕ
leave_run acquired path = if acquired then none else path
