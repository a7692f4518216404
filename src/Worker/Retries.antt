-- ===== src/Worker/Retries.antt =====
-- `run_consolidation` of scripts/scheduled_consolidate.py: the request is posted until it is answered by 200.
-- `post` is the call of the server, whose state is of the type `S`.
use automem.Common.{
  ap, Option-cases, none, some, Option, ℕ, zero, suc, ◌+◌, ◌<◌, ◌≡◌, refl, inl, inr, Bool, true,
  false, Bool-cases, not, ◌&&◌, ◌||◌, List, [], ◌∷◌, if◌then◌else◌, nat_eq, max, arith,
}
use automem.Text.{Text, text, ◌==◌, elem}

-- `response.status_code`, and the keys of `response.json()`, or `none` if that raises.
pub record Response : Type 0 where
  pub status_code : ℕ
  pub keys : Option (List Text)

-- What the function returns, or the exception that it raises.
pub data Outcome : Type 0 where
  answered : Response → Outcome
  missing_keys : Outcome
  failed_with : (status : ℕ) → Outcome
  client_raised unreadable unsupported_mode no_error : Outcome

abbrev inline_keys : List Text
inline_keys =
    text "dry_run"
    ∷ text "duplicate_long_term_count"
    ∷ text "canonicalized_long_term_count"
    ∷ text "deleted_noise_count"
    ∷ text "archived_tasks_count"
    ∷ text "normalized_tasks_count"
    ∷ text "task_reclassified_count"
    ∷ []

abbrev job_keys : List Text
job_keys =
    text "job_id"
    ∷ text "job_type"
    ∷ text "status"
    ∷ text "payload"
    ∷ text "result"
    ∷ text "attempts"
    ∷ text "max_attempts"
    ∷ []

-- EXPECTED_KEYS or EXPECTED_JOB_KEYS
abbrev expected_keys : (inline : Bool) → List Text
expected_keys true = inline_keys
expected_keys false = job_keys

unfoldable pub has_all : List Text → List Text → Bool
has_all [] keys = true
has_all (key ∷ expected) keys = elem key keys && has_all expected keys

-- `response.json()`, and `validate_inline_result` or `validate_job_result`
unfoldable pub validate : (inline : Bool) → Response → Outcome
validate inline response = elim response.keys [
  | none ↦ unreadable
  | some keys ↦ if has_all (expected_keys inline) keys then answered response else missing_keys
]

abbrev pub is_success : Response → Bool
is_success response = nat_eq response.status_code 200

-- How the loop ends at a post, unless it goes on. A post is `none` if `client.post` raises.
unfoldable pub end_of : (inline : Bool) → Option Response → Option Outcome
end_of inline none = some client_raised
end_of inline (some response) =
    if is_success response then some (validate inline response) else none

-- `last_error` behind a post.
abbrev error_of : Option Response → Outcome
error_of none = client_raised
error_of (some response) = failed_with response.status_code

module _ {S : Type 0} (post : S → Option Response × S) (inline : Bool) where
  -- The loop with the attempts that are left; `last` stands for `last_error`.
  unfoldable pub post_until : ℕ → (last : Outcome) → S → Outcome × S
  post_until zero last s = (last, s)
  post_until (suc left) last s =
      let (posted, next) = post s in
      let rest = post_until left (error_of posted) next in
      elim (end_of inline posted) [ some outcome ↦ (outcome, next) | none ↦ rest ]

-- `path`
abbrev pub path_of : (inline : Bool) → Text
path_of true = text "/v1/consolidate"
path_of false = text "/v1/governance/jobs"

abbrev pub mode_name : (inline : Bool) → Text
mode_name true = text "inline"
mode_name false = text "enqueue"

-- `attempts` is what MEMORY_CONSOLIDATE_ATTEMPTS says, and the path goes with the mode.
unfoldable pub run_consolidation :
    {S : Type 0}
    → (post : Text → S → Option Response × S) → (mode : Text) → (attempts : ℕ) → S
    → Outcome × S
run_consolidation post mode attempts s =
    if not ((mode == text "inline") || (mode == text "enqueue"))
    then (unsupported_mode, s)
    else if mode == text "inline"
    then post_until (post (path_of true)) true (max 1 attempts) no_error s
    else post_until (post (path_of false)) false (max 1 attempts) no_error s

module _ {S : Type 0} (post : S → Option Response × S) where
  -- The state behind `n` posts, and the response to the next one, if there is one.
  abbrev pub behind : ℕ → S → S
  behind zero s = s
  behind (suc n) s = behind n (post s).1

  abbrev pub response_to : ℕ → S → Option Response
  response_to n s = (post (behind n s)).0

  -- A response with another status than 200.
  abbrev pub IsFailure : Option Response → Type 0
  IsFailure posted = (r : Response) × (posted ≡ some r) × (is_success r ≡ false)

  -- What the loop did: `n` posts failed, and the one after them raised, was the first success, or was the
  -- last attempt.
  pub data IsEnd (inline : Bool) (is_last : Type 0) (posted : Option Response) (outcome : Outcome)
      : Type 0 where
    threw : posted ≡ none → outcome ≡ client_raised → IsEnd inline is_last posted outcome
    succeeded :
        (r : Response)
        → posted ≡ some r
        → is_success r ≡ true
        → outcome ≡ validate inline r
        → IsEnd inline is_last posted outcome
    exhausted :
        (r : Response)
        → posted ≡ some r
        → is_success r ≡ false
        → is_last
        → outcome ≡ failed_with r.status_code
        → IsEnd inline is_last posted outcome

  pub record IsRun (inline : Bool) (attempts : ℕ) (s : S) (result : Outcome × S) (n : ℕ)
      : Type 0 where
    pub within : n < attempts
    pub failed : (k : ℕ) → k < n → IsFailure (response_to k s)
    pub state : result.1 ≡ behind (suc n) s
    pub outcome : IsEnd inline (n + 1 ≡ attempts) (response_to n s) result.0

  map-IsEnd :
      {inline : Bool} {is_last is_last' : Type 0} {posted : Option Response} {outcome : Outcome}
      → (is_last → is_last')
      → IsEnd inline is_last posted outcome
      → IsEnd inline is_last' posted outcome
  map-IsEnd f (threw p o) = threw p o
  map-IsEnd f (succeeded r p h o) = succeeded r p h o
  map-IsEnd f (exhausted r p h l o) = exhausted r p h (f l) o

  -- The first post ends the loop.
  stops :
      (inline : Bool) (left : ℕ) (last outcome : Outcome) (s : S)
      → end_of inline (post s).0 ≡ some outcome
      → IsEnd inline (1 ≡ suc left) (post s).0 outcome
      → IsRun inline (suc left) s (post_until post inline (suc left) last s) 0
  unfolding post_until
  stops inline left last outcome s e ending = record {
    within = omega arith;
    failed = λ k h. absurd (omega (arith, h));
    state = rw (e, post_until) refl;
    outcome = rw (e, post_until) ending;
  }

  module _ (inline : Bool) (last : Outcome) (s : S) where
    abbrev RunOf : ℕ → Type 0
    RunOf left = (n : ℕ) × IsRun inline (suc left) s (post_until post inline (suc left) last s) n

    -- By the first post, where only a failure is left open.
    by_first :
        (left : ℕ)
        → ((r : Response) → (post s).0 ≡ some r → is_success r ≡ false → RunOf left)
        → RunOf left
    by_first left fails = elim (Option-cases (post s).0) [
      | inl n ↦
          (0, stops inline left last client_raised s (unfold end_of in rw n refl) (threw n refl))
      | inr (r, p) ↦ elim (Bool-cases (is_success r)) [
        | inl e ↦ (
          0,
          stops inline left last (validate inline r) s (unfold end_of in rw (p, e) refl)
              (succeeded r p e refl),
        )
        | inr e ↦ fails r p e
      ]
    ]

    last_fails : (r : Response) → (post s).0 ≡ some r → is_success r ≡ false → RunOf 0
    unfolding post_until end_of
    last_fails r p e = (
      0,
      record {
        within = omega arith;
        failed = λ k h. absurd (omega (arith, h));
        state = rw (p, e, post_until) refl;
        outcome = exhausted r p e refl (rw (p, e, post_until) (ap error_of p));
      },
    )

    earlier :
        (n : ℕ)
        → IsFailure (post s).0
        → ((k : ℕ) → k < n → IsFailure (response_to k (post s).1))
        → (k : ℕ) → k < suc n
        → IsFailure (response_to k s)
    earlier n first_fails h zero lt = first_fails
    earlier n first_fails h (suc k) lt = h k (omega (arith, lt))

    goes_on :
        (left : ℕ) (r : Response)
        → (post s).0 ≡ some r
        → is_success r ≡ false
        → (n : ℕ)
        → IsRun inline
            (suc left)
            (post s).1
            (post_until post inline (suc left) (failed_with r.status_code) (post s).1)
            n
        → RunOf (suc left)
    unfolding post_until end_of
    goes_on left r p e n run = (
      suc n,
      record {
        within = omega (arith, run.within);
        failed = earlier n (r, p, e) run.failed;
        state = rw (p, e, post_until) run.state;
        outcome = rw (p, e, post_until) (map-IsEnd (λ l. omega (arith, l)) run.outcome);
      },
    )

  post_until-IsRun :
      (inline : Bool) (left : ℕ) (last : Outcome) (s : S)
      → (n : ℕ) × IsRun inline (suc left) s (post_until post inline (suc left) last s) n
  post_until-IsRun inline zero last s = by_first inline last s zero (last_fails inline last s)
  post_until-IsRun inline (suc left) last s = by_first inline last s (suc left) (λ r p e.
      let (n, run) = post_until-IsRun inline left (failed_with r.status_code) (post s).1 in
      goes_on inline last s left r p e n run)

max_one : (a : ℕ) → (m : ℕ) × (max 1 a ≡ suc m)
max_one zero = (0, refl)
max_one (suc a) = (a, ground arith)

-- In both modes the script stops after at most `max(1, attempts)` posts: at the first post that raises, with
-- its exception; at the first response with status 200, which it validates; or at the last attempt, with the
-- error of its status. The posts before that one were answered by other statuses.
pub run_consolidation_cases :
    {S : Type 0} (post : Text → S → Option Response × S) (inline : Bool) (attempts : ℕ) (s : S)
    → (n : ℕ) × IsRun
        (post (path_of inline))
        inline
        (max 1 attempts)
        s
        (run_consolidation post (mode_name inline) attempts s)
        n
unfolding run_consolidation ◌==◌
run_consolidation_cases post true attempts s =
    let (m, e) = max_one attempts in rw e (post_until-IsRun (post (path_of true)) true m no_error s)
run_consolidation_cases post false attempts s =
    let (m, e) = max_one attempts in
    rw e (post_until-IsRun (post (path_of false)) false m no_error s)
