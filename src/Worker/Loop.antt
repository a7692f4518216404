-- ===== src/Worker/Loop.antt =====
-- `run_once` and the loop of `main` in scripts/governance_worker.py. A poll is what `run_once` returns, by its
-- status, or an exception.
use Prim.Native.Nat.{◌%◌}
use automem.Common.{
  ℕ, ◌+◌, Bool, ◌||◌, Option, none, some, List, [], ◌∷◌, if◌then◌else◌, nat_eq, max,
}
use automem.Text.{Text, text, ◌==◌, or_empty, or_else}

-- What `run_once` posts.
pub record RunPayload : Type 0 where
  pub worker_id : Text
  pub lease_seconds : ℕ

-- `configured` is AUTOMEM_WORKER_LEASE_SECONDS.
unfoldable pub run_payload : Text → Option ℕ → (configured : ℕ) → RunPayload
run_payload worker_id lease_seconds configured = record {
  worker_id = worker_id;
  lease_seconds = elim lease_seconds [ none ↦ max 30 configured | some seconds ↦ seconds ];
}

pub data Poll : Type 0 where
  raised : Poll
  polled : (status : Option Text) → Poll

-- The number of polls in a row that found no job.
unfoldable pub next_streak : Option Text → ℕ → ℕ
next_streak status streak =
    let known = or_empty (or_else status (some (text "unknown"))) in
    if known == text "processed" then 0 else if known == text "idle" then streak + 1 else 0

-- Whether an idle poll is logged.
unfoldable pub logs_idle : (once : Bool) → ℕ → Bool
logs_idle once streak = once || (nat_eq streak 1 || nat_eq (streak % 12) 0)

-- The exit code, unless the loop goes on behind the polls, and the streak.
unfoldable pub work : (once : Bool) → (streak : ℕ) → List Poll → Option ℕ × ℕ
work once streak [] = (none, streak)
work once streak (raised ∷ polls) = (some 1, streak)
work once streak (polled status ∷ polls) =
    let next = next_streak status streak in
    let rest = work once next polls in if once then (some 0, next) else rest

-- `main`: without the lock nothing is polled.
unfoldable pub main : (acquired once : Bool) → List Poll → Option ℕ
main acquired once polls = if acquired then (work once 0 polls).0 else some 0
