-- ===== src/Endpoints/Summaries/Writes.antt =====
-- What a summary writes.
use automem.Common.{
  Option, Bool-cases, List, ◌≡◌, refl, [], ◌∷◌, true, false, ◌⊎◌, inl, inr, ◌∙◌, arith, none, some,
}
use automem.Text.{or_else, Text, or_empty, truthy}
use automem.Http.{Result, ok, err, Result-cases}
use automem.Metadata.{Metadata}
use automem.Auth.{Auth, enforce_user_identity}
use automem.Auth.Identity.{enforce_user_identity-ok}
use automem.Tasks.Resolve.{Matcher, Resolution}
use automem.Tasks.Rows.{TaskWrite, upsert_task}
use automem.Tasks.{Task, TaskRules}
use automem.Tasks.Pages.{Codec}
use automem.Tasks.Normalize.{TaskWorld}
use automem.Tasks.Summary.{
  TaskSummaryWrite, Structured, TextTests, derive_task_summary, evaluate_task_materialization,
}
use automem.Tasks.Policy.{FieldVerdict, Field, Filtered, FieldDecision}
use automem.Services.{Backend, Memories}
use automem.Services.Store.{Decision, Reply}
use automem.Endpoints.Summaries.{
  SummaryReply, no_task, skipped_task, no_fields, stored_task, Named, unnamed, named,
  finish_summary, store_approved, write_named, write_summary, summarize_checked, task_summaries,
  check_summary, task_write,
}

-- The user of the request is the key's.
abbrev IsOfKey : Auth → TaskSummaryWrite → Type 0
IsOfKey auth payload = some (or_empty payload.user_id) ≡ auth.user_id

given_text : (user_id : Option Text) → truthy user_id ≡ true → some (or_empty user_id) ≡ user_id
given_text none t = cc
given_text (some user_id) t = refl

check_summary-IsOfKey :
    (auth : Auth) (asked payload : TaskSummaryWrite)
    → auth.is_admin ≡ false
    → check_summary auth asked ≡ ok payload
    → IsOfKey auth payload
unfolding check_summary
check_summary-IsOfKey auth asked payload h e =
    elim (Result-cases (enforce_user_identity auth asked.user_id)) [
      | inr (fault, refused) ↦ absurd (ground (arith, e, refused))
      | inl (user_id, user) ↦
          let own = enforce_user_identity-ok auth asked.user_id user_id h user in
          let same : payload.user_id ≡ user_id = ground (arith, e, user) in
          rw same (given_text user_id own.1 ∙ own.0)
    ]

module _ {S : Type 0} (b : Backend S) (digest : Text → Text) (now : Text)
    (govern_memory_text : Text → Metadata → Decision)
    (govern_text_decision : Text → Metadata → FieldDecision) (codec : Codec) (rules : TaskRules)
    (tests : TextTests) (matcher : Matcher) (auth : Auth) (w : TaskWorld S) where
  -- One upsert was made, in the name of the key's user.
  abbrev pub IsUpserted : List Task → Type 0
  IsUpserted tasks =
      (args : TaskWrite) × (tasks ≡ (upsert_task rules now args w.tasks).1)
      × (some args.user_id ≡ auth.user_id)

  -- What an answer tells of the tables.
  abbrev pub Tells : Result SummaryReply → TaskWorld S → Type 0
  Tells (ok (stored_task resolution task task_kind decisions replies)) after =
      IsUpserted after.tasks
  Tells (ok (no_task resolution)) after = after ≡ w
  Tells (ok (skipped_task resolution task_kind reason)) after = after ≡ w
  Tells (ok (no_fields resolution task_kind decisions)) after = after ≡ w
  Tells (err e) after = (after ≡ w) ⊎ IsUpserted after.tasks

  finish_summary-Tells :
      (resolution : Option Resolution) (task : Task) (task_kind : Text)
      (decisions : List (Field × FieldVerdict)) (tasks : List Task)
      (r : Result (List Reply) × Memories S)
      → IsUpserted tasks
      → Tells
          (finish_summary b digest now govern_memory_text govern_text_decision
            (stored_task resolution task task_kind decisions)
            tasks
            r).0
          (finish_summary b digest now govern_memory_text govern_text_decision
            (stored_task resolution task task_kind decisions)
            tasks
            r).1
  unfolding finish_summary
  finish_summary-Tells resolution task task_kind decisions tasks (err e, memories) h = inr h
  finish_summary-Tells resolution task task_kind decisions tasks (ok replies, memories) h = h

  -- The rest of the endpoint at an answer.
  abbrev Told : Result SummaryReply × TaskWorld S → Type 0
  Told answer = Tells answer.0 answer.1

  store_approved-Told :
      (payload : TaskSummaryWrite) (resolution : Option Resolution) (task_id title task_kind : Text)
      (structured : Structured) (filtered : Filtered)
      → IsOfKey auth payload
      → Told (
          store_approved b digest now govern_memory_text govern_text_decision codec rules tests
            matcher payload resolution task_id title task_kind structured filtered w)
  unfolding store_approved
  store_approved-Told payload resolution task_id title task_kind structured ([], decisions) own =
      refl
  store_approved-Told payload resolution task_id title task_kind structured
        (approved ∷ more, decisions) own =
      finish_summary-Tells resolution _ task_kind decisions _ _
        (task_write payload task_id title structured, refl, own)

  write_named-Told :
      (payload : TaskSummaryWrite) (target : Named)
      → IsOfKey auth payload
      → Told (
          write_named b digest now govern_memory_text govern_text_decision codec rules tests matcher
            payload target w)
  unfolding write_named
  write_named-Told payload (unnamed resolution) own = refl
  write_named-Told payload (named resolution task_id given) own =
      elim (Bool-cases
        (evaluate_task_materialization tests rules task_id (or_empty (or_else given (some task_id)))
          payload (derive_task_summary payload)).0) [
            | inr e ↦ rw e refl
            | inl e ↦ rw e (store_approved-Told payload resolution task_id _ _ _ _ own)
          ]

  write_summary-Told :
      (payload : TaskSummaryWrite) (target : Result Named)
      → IsOfKey auth payload
      → Told (
          write_summary b digest now govern_memory_text govern_text_decision codec rules tests
            matcher payload target w)
  unfolding write_summary
  write_summary-Told payload (err e) own = inl refl
  write_summary-Told payload (ok target) own = write_named-Told payload target own

  summarize_checked-Told :
      (r : Result TaskSummaryWrite)
      → ((payload : TaskSummaryWrite) → r ≡ ok payload → IsOfKey auth payload)
      → Told (
          summarize_checked b digest now govern_memory_text govern_text_decision codec rules tests
            matcher r w)
  unfolding summarize_checked
  summarize_checked-Told (err e) own = inl refl
  summarize_checked-Told (ok payload) own = write_summary-Told payload _ (own payload refl)

  -- With a key that is not an administrator's: if the answer is `stored`, the tasks are those of one upsert
  -- in the name of the key's user; if it is a `skipped`, nothing was written at all; and if an exception
  -- comes, nothing was written or the tasks are those of such an upsert.
  pub task_summaries_cases :
      (asked : TaskSummaryWrite)
      → auth.is_admin ≡ false
      → Tells
          (task_summaries b digest now govern_memory_text govern_text_decision codec rules tests
            matcher auth asked w).0
          (task_summaries b digest now govern_memory_text govern_text_decision codec rules tests
            matcher auth asked w).1
  unfolding task_summaries
  task_summaries_cases asked h =
      summarize_checked-Told (check_summary auth asked)
        (λ payload e. check_summary-IsOfKey auth asked payload h e)
