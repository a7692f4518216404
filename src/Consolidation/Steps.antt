-- ===== src/Consolidation/Steps.antt =====
-- A run of steps maintains what each of its steps maintains, also when one of them raises.
use automem.Consolidation.Facts.{Supersession}
use automem.Consolidation.Changes.{supersede_facts, dedupe_memories}
use automem.Consolidation.Review.{Candidate}
use automem.Consolidation.{ConsolidateRequest}
use automem.Services.Store.{Decision}
use automem.Metadata.{Metadata}
use automem.Tasks.{TaskRules}
use automem.Text.{Text}
use automem.Services.{Backend}
use automem.Common.{◌≡◌, refl, Bool, true, false}
use automem.Common.{ℕ, List, arith}
use automem.Http.{Result, ok, err}
use automem.Services.Flow.{Flow}
use automem.Tasks.Normalize.{NormalizeCounts, TaskWorld}
use automem.Consolidation.Run.{
  archive_closed, Origin, consolidate_memories, Run, go_on, ◌>>=◌, on_memories, reading, when,
}

module _ {S : Type 0} (P : TaskWorld S → Type 0) where
  abbrev pub Maintains : {T : Type 0} → Run S T → Type 0
  Maintains call = (w : TaskWorld S) → P w → P (call w).1

  pub bind-Maintains :
      {T U : Type 0} (call : Run S T) (next : T → Run S U)
      → Maintains call
      → ((t : T) → Maintains (next t))
      → Maintains (call >>= next)
  unfolding ◌>>=◌ go_on
  bind-Maintains {T} {U} call next k n w h = rest (call w) (k w h)
    where
      rest : (r : Result T × TaskWorld S) → P r.1 → P (go_on next r).1
      rest (ok t, w') u = n t w' u
      rest (err e, w') u = u

  pub reading-Maintains : {T : Type 0} (f : TaskWorld S → T) → Maintains (reading f)
  unfolding reading
  reading-Maintains f w h = h

  pub when-Maintains :
      (test : Bool) (call : Run S (Unit {0}))
      → (test ≡ true → Maintains call)
      → Maintains (when test call)
  unfolding when
  when-Maintains true call k w h = k refl w h
  when-Maintains false call k w h = h

  pub on_memories-Maintains :
      {T : Type 0} (call : Flow S T)
      → ((w : TaskWorld S) → P w → P (record w { memories = (call w.memories).1 }))
      → Maintains (on_memories call)
  unfolding on_memories
  on_memories-Maintains call k = k

module _ {S : Type 0} (b : Backend S) (digest : Text → Text) (clock : Text) (rules : TaskRules)
    (govern_memory_text : Text → Metadata → Text → Decision) (P : TaskWorld S → Type 0) where
  -- What the changes maintain, if any are made, the part behind the normalization maintains.
  pub consolidate_memories-Maintains :
      (payload : ConsolidateRequest) (origin : Origin) (rebuilt : ℕ) (counts : NormalizeCounts)
      → (payload.dry_run ≡ false → Maintains P (archive_closed clock))
      → (payload.dry_run ≡ false
          → (noise : List Text) (rewrites : List Candidate) (duplicates : List Text)
          → Maintains P (on_memories (dedupe_memories b digest clock noise rewrites duplicates)))
      → (payload.dry_run ≡ false
          → (found : List Supersession)
          → Maintains P (on_memories (supersede_facts b digest clock found)))
      → Maintains P (
          consolidate_memories b digest clock rules govern_memory_text payload origin rebuilt
            counts)
  unfolding consolidate_memories
  consolidate_memories-Maintains payload origin rebuilt counts archives dedupes supersedes =
      bind-Maintains P _ _ (reading-Maintains P _) (λ review.
        bind-Maintains P _ _ (reading-Maintains P _) (λ closed.
          bind-Maintains P _ _ (when-Maintains P _ _ (λ e. archives (ground (arith, e)))) (λ _.
            bind-Maintains P _ _ (when-Maintains P _ _ (λ e. dedupes (ground (arith, e)) _ _ _))
              (λ _. bind-Maintains P _ _ (reading-Maintains P _) (λ found.
                bind-Maintains P _ _
                  (when-Maintains P _ _ (λ e. supersedes (ground (arith, e)) found))
                  (λ _. reading-Maintains P _))))))
