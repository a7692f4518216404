-- ===== src/Jobs/Tests.antt =====
-- A queue with one job, and the theorems at it. Payloads and results are texts.
use automem.Jobs.ById.{claim_by_id-IsClaimed, IsClaimed, IsFree}
use automem.Auth.{require_scope}
use automem.Text.Normalize.{normalize_text}
use automem.Text.Strings.{clean_from, clean_strings}
use automem.Jobs.Claims.{claim_next_cases, Takes}
use automem.Jobs.Dispatch.Settled.{dispatch_settles, IsSettled}
use automem.Jobs.Leases.{lease_excludes}
use automem.Jobs.Enqueue.{enqueue_cases, enqueue_twice}
use automem.Http.{integrity_error, ok, err}
use automem.Jobs.Invariant.{IsOrderly}
use automem.Jobs.Operations.{
  perform_all-IsOrderly, claim_by_id, release_for_retry, enqueue, claim_next, perform-IsOrderly,
  perform_all, Operation, perform,
}
use automem.Jobs.Dispatch.{
  run_claimed, governance_jobs_run_next, World, Consolidation, dispatch_governance_job, Draws,
}
use automem.Jobs.Queue.{
  release, write_release, insert_job, insert_or_reuse, lease_time, oldest, allowed_job_types,
  is_claimable, refuses_claim, lease, normalized_key, refetch, claim_governance_job_by_id,
  claim_next_governance_job, take_lease, fetch_governance_job, new_job, enqueue_governance_job,
  existing_job,
}
use automem.Common.{
  ◌≢◌, map, sort_insert, sort_by, ◌++◌, All, ◌⊎◌, arith, ◌+◌, select, update, ℕ, first, ◌≡◌, refl,
  true, false, none, some, List, [], ◌∷◌,
}
use automem.Text.{Text, text, ◌==◌, elem}
use automem.Jobs.{JobStatus, status_eq, pending, consolidate_type, running, Job, JobRequest}

program : Unit {0}
unfolding ◌==◌ elem first update select take_lease refetch fetch_governance_job lease is_claimable
    refuses_claim oldest enqueue_governance_job insert_or_reuse insert_job existing_job
    claim_next_governance_job claim_governance_job_by_id perform perform_all status_eq
    allowed_job_types clean_strings clean_from normalize_text sort_by sort_insert
    governance_jobs_run_next run_claimed require_scope
program = tt

abbrev request : JobRequest Text
request = record {
  job_type = text " consolidate";
  payload = text "all";
  user_id = some (text "ann");
  project_id = none;
  idempotency_key = some (text "nightly ");
  max_attempts = 2;
  created_by = none;
}

abbrev again : JobRequest Text
again = record request { payload = text "other"; idempotency_key = some (text " nightly") }

abbrev waiting : Job Text Text
waiting = new_job (text "j1") 10 request

abbrev until : ℕ
until = 60_000_020

abbrev leased : Job Text Text
leased = record waiting {
  status = running;
  attempts = 1;
  lease_expires_at = some until;
  leased_by = some (text "w1");
  started_at = some 20;
  updated_at = 20;
}

abbrev claiming : Operation Text Text
claiming = claim_next (text "w1") [] 60 20 20

abbrev enqueuing : Operation Text Text
enqueuing = enqueue (text "j1") 10 request

enqueued_once :
    enqueue_governance_job {R = Text} (text "j1") 10 request [] ≡ ok (waiting, false, waiting ∷ [])
unfolding program
enqueued_once = refl

claimed_once : perform claiming (waiting ∷ []) ≡ leased ∷ []
unfolding program
claimed_once = refl

no_jobs : IsOrderly {P = Text} {R = Text} []
unfolding program
no_jobs = record { ids = tt; keys = λ k. omega arith; rows = tt }

waiting-IsOrderly : IsOrderly (waiting ∷ [])
unfolding program
waiting-IsOrderly = perform-IsOrderly enqueuing [] tt no_jobs

leased-IsOrderly : IsOrderly (leased ∷ [])
unfolding program
leased-IsOrderly = perform-IsOrderly claiming (waiting ∷ []) tt waiting-IsOrderly

-- A worker whose lease has ended reads its job for a release, another claims the job, and the first one
-- writes: the job is pending, with no attempt left.
abbrev crossing : List (Operation Text Text)
crossing =
    enqueuing
    ∷ claiming
    ∷ claim_next (text "w2") [] 60 until until
    ∷ release_for_retry leased (text "j1") (text "lost") 60_000_030
    ∷ []

crossed :
    map {B = JobStatus × ℕ × ℕ}
      (λ (j : Job Text Text). (j.status, j.attempts, j.max_attempts))
      (perform_all crossing [])
    ≡ (pending, 2, 2) ∷ []
unfolding program write_release release
crossed = refl

perform_all-IsOrderly_example : IsOrderly (perform_all crossing [])
perform_all-IsOrderly_example = perform_all-IsOrderly crossing [] (tt, (tt, (tt, (tt, tt)))) no_jobs

leased_there : fetch_governance_job (text "j1") (leased ∷ []) ≡ some leased
unfolding program
leased_there = refl

waiting_there : fetch_governance_job (text "j1") (waiting ∷ []) ≡ some waiting
unfolding program
waiting_there = refl

-- A second worker, which claims the next job and then this one, while the lease lasts.
abbrev rivals : List (Operation Text Text)
rivals =
    claim_next (text "w2") [] 60 50 50
    ∷ claim_by_id (text "j1") (text "w2") 60 70 70
    ∷ enqueue (text "j2") 80 again
    ∷ []

lease_excludes_example :
    fetch_governance_job (text "j1") (perform_all rivals (leased ∷ [])) ≡ some leased
lease_excludes_example =
    lease_excludes (text "j1") (text "w1") until leased rivals (leased ∷ []) leased-IsOrderly
      leased_there (refl, refl, refl) (omega arith, (omega arith, (tt, tt)))

claim_next_cases_example :
    (claim_next_governance_job (text "w1") [] 60 20 20 (waiting ∷ []) ≡ (ok none, waiting ∷ []))
      × All (λ (r : Job Text Text). is_claimable 20 (allowed_job_types []) r ≡ false) (waiting ∷ [])
    ⊎ ((row : Job Text Text) × Takes (text "w1") [] 60 20 20 (waiting ∷ []) row)
claim_next_cases_example = claim_next_cases (text "w1") [] 60 20 20 (waiting ∷ []) waiting-IsOrderly

claim_by_id-IsClaimed_example :
    ((before : Job Text Text) × (fetch_governance_job (text "j1") (waiting ∷ []) ≡ some before)
      × IsFree 20 before
      × ((after : Job Text Text) × ((claim_governance_job_by_id
              (text "j1")
              (text "w1")
              60
              20
              20
              (waiting ∷ [])).0
            ≡ ok (some after))
          × IsClaimed (text "w1") 20 (20 + lease_time 60) before after
          × (fetch_governance_job
                (text "j1")
                (claim_governance_job_by_id (text "j1") (text "w1") 60 20 20 (waiting ∷ [])).1
              ≡ some after)
          × ((other : Text)
              → other ≢ text "j1"
              → fetch_governance_job other
                  (claim_governance_job_by_id (text "j1") (text "w1") 60 20 20 (waiting ∷ [])).1
                ≡ fetch_governance_job other (waiting ∷ []))))
    ⊎ ((before : Job Text Text)
        → fetch_governance_job (text "j1") (waiting ∷ []) ≡ some before
        → ¬ IsFree 20 before)
      × (claim_governance_job_by_id (text "j1") (text "w1") 60 20 20 (waiting ∷ [])
          ≡ (ok none, waiting ∷ []))
claim_by_id-IsClaimed_example =
    claim_by_id-IsClaimed (text "j1") (text "w1") 60 20 20 (waiting ∷ []) waiting-IsOrderly

enqueue_twice_example :
    enqueue_governance_job (text "j2") 80 again (waiting ∷ []) ≡ ok (waiting, true, waiting ∷ [])
enqueue_twice_example =
    enqueue_twice (text "j1") (text "j2") 10 80 request again [] (text "nightly") waiting false
      (waiting ∷ []) (unfold program in refl) (unfold program in refl) (unfold program in refl)
      enqueued_once

enqueue_cases_example :
    (false ≡ true)
      × (existing_job {P = Text} {R = Text} (normalized_key request.idempotency_key) []
          ≡ some waiting)
      × (waiting ∷ [] ≡ [])
    ⊎ (false ≡ false)
      × (existing_job {P = Text} {R = Text} (normalized_key request.idempotency_key) [] ≡ none)
      × (waiting ∷ [] ≡ [] ++ waiting ∷ [])
      × (waiting.status ≡ pending)
      × (waiting.attempts ≡ 0)
      × (waiting.job_type ≡ consolidate_type)
      × (fetch_governance_job (text "j1") (waiting ∷ []) ≡ some waiting)
enqueue_cases_example =
    enqueue_cases (text "j1") 10 request [] waiting false (waiting ∷ []) enqueued_once

-- A consolidation that always fails.
abbrev broken : Consolidation Text Text (List Text)
broken = record {
  run = λ worker_id job_id p s. (err integrity_error, p ∷ s);
  user_of = λ r. none;
  project_of = λ r. none;
  message = λ e. text "broken";
}

abbrev draws : Draws
draws = record { id = λ n. text "event"; time = λ n. 100 + n }

abbrev world : World Text Text (List Text)
world = record { jobs = leased ∷ []; audit = []; rest = [] }

leased_kind : leased.job_type ≡ consolidate_type
unfolding program
leased_kind = refl

dispatch_settles_example :
    (after : Job Text Text) × ((dispatch_governance_job broken draws (text "w1") leased world).0
      ≡ ok after)
    × (fetch_governance_job leased.job_id
          (dispatch_governance_job broken draws (text "w1") leased world).1.jobs
        ≡ some after)
    × IsSettled broken (text "w1") leased leased after world.rest
dispatch_settles_example =
    dispatch_settles broken draws (text "w1") leased leased world leased_kind leased_there

run_next_idle :
    (governance_jobs_run_next broken draws automem.Auth.Verify.admin_auth none [] 60 5 5 world).0
    ≡ ok none
unfolding program
run_next_idle = refl
