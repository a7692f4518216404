-- ===== src/Consolidation/DryRun.antt =====
-- A dry run of a consolidation.
use automem.Common.{ℕ, ◌≡◌, refl, ◌∙◌, true, false, none, Bool-cases, inl, inr}
use automem.Text.{Text}
use automem.Http.{Result, ok, err}
use automem.Metadata.{Metadata}
use automem.Services.{Backend, Memories}
use automem.Services.Store.{Decision}
use automem.Tasks.{TaskRules}
use automem.Tasks.Normalize.{TaskWorld}
use automem.Tasks.Normalize.Outcomes.{normalize_tasks-dry_run}
use automem.Consolidation.{ConsolidateRequest}
use automem.Consolidation.Run.{
  consolidate_memories, Origin, go_on, ◌>>=◌, on_memories, rebuild_for_user, normalize_if_asked,
  normalize_options, run_consolidation_operation,
}
use automem.Consolidation.Steps.{consolidate_memories-Maintains, bind-Maintains}

normalize-dry_run :
    {S : Type 0} (b : Backend S) (clock : Text) (rules : TaskRules) (payload : ConsolidateRequest)
    → payload.dry_run ≡ true
    → (w : TaskWorld S) → (normalize_if_asked b clock rules payload w).1 ≡ w
unfolding normalize_if_asked
normalize-dry_run b clock rules payload dry w = elim (Bool-cases payload.normalize_task_state) [
  | inl e ↦ rw e (normalize_tasks-dry_run _ rules (normalize_options payload) clock none w dry)
  | inr e ↦ rw e refl
]

module _ {S : Type 0} (b : Backend S) (digest : Text → Text) (clock : Text) (rules : TaskRules)
    (govern_memory_text : Text → Metadata → Text → Decision) where
  -- A dry run changes nothing but the cache, and this only as the rebuild for the named user does.
  pub run_consolidation-dry_run :
      (payload : ConsolidateRequest) (origin : Origin) (w : TaskWorld S)
      → payload.dry_run ≡ true
      → (run_consolidation_operation b digest clock rules govern_memory_text payload origin w).1
        ≡ record w { memories = (rebuild_for_user b digest clock payload.user_id w.memories).1 }
  unfolding run_consolidation_operation on_memories ◌>>=◌ go_on
  run_consolidation-dry_run payload origin w dry =
      rest (rebuild_for_user b digest clock payload.user_id w.memories)
    where
      -- Behind the rebuild the world stays as it is.
      same : TaskWorld S → TaskWorld S → Type 0
      same u v = v ≡ u

      wet : {T : Type 0} → payload.dry_run ≡ false → T
      wet e = absurd (cc)

      rest :
          (r : Result ℕ × Memories S)
          → (go_on
              (λ rebuilt.
                normalize_if_asked b clock rules payload
                >>= consolidate_memories b digest clock rules govern_memory_text payload origin
                    rebuilt)
              (r.0, record w { memories = r.1 })).1
            ≡ record w { memories = r.1 }
      rest (ok rebuilt, memories) =
          let u : TaskWorld S = record w { memories = memories } in
          bind-Maintains (same u) (normalize_if_asked b clock rules payload) _
            (λ v e. normalize-dry_run b clock rules payload dry v ∙ e)
            (λ counts.
              consolidate_memories-Maintains b digest clock rules govern_memory_text (same u)
                payload origin rebuilt counts wet wet wet)
            u refl
      rest (err e, memories) = refl
