-- ===== src/Services/Owned.antt =====
-- What a store that answers has asked of mem0.
use automem.Common.{
  none, some, if◌then◌else◌, subst, ◌≡◌, refl, ap, arith, Bool, true, false, Bool-cases, inl, inr,
  Option, List, [], ◌∷◌,
}
use automem.Text.{Text}
use automem.Http.{Result-cases, ok}
use automem.Metadata.{Metadata}
use automem.Cache.{CacheRow}
use automem.Cache.Facts.{FactArgs, settle_fact, merge_fact, build_long_term_fact_metadata}
use automem.Cache.Rows.{Owner, is_long_term}
use automem.Services.{Backend, Memories}
use automem.Services.Flow.{◌>>=◌, ◌>>◌, resume, ask, give}
use automem.Services.Classify.{
  Verdict, duplicate, write, with_category, compare_rows, classify_fact, classify,
}
use automem.Services.Store.{
  Message, Decision, Reply, skipped, skipped_duplicate, added, store_verdict, store_decided,
  store_memory_with_governance, mirror_if_id, extract_primary_message_text,
}

-- The project of the metadata is left alone on the way to mem0.
build-project :
    (digest : Text → Text) (memory : Text) (meta : Metadata) (created_at : Text) (args : FactArgs)
    → (build_long_term_fact_metadata digest memory meta created_at args).project_id
      ≡ meta.project_id
unfolding build_long_term_fact_metadata merge_fact settle_fact
build-project digest memory meta created_at args = ground arith

with_category-project :
    (kind : Option Text) (meta : Metadata) → (with_category kind meta).project_id ≡ meta.project_id
unfolding with_category
with_category-project kind meta = ground arith

module _ (digest : Text → Text) (stored_text now : Text) where
  abbrev HasProject : Option Text → Verdict → Type 0
  HasProject project_id (duplicate existing fact_key) = Unit
  HasProject project_id (write plan) = plan.meta.project_id ≡ project_id

  compare_rows-HasProject :
      (fact_key : Text) (meta : Metadata) (active_rows : List CacheRow) (auto : Bool)
      (duplicates conflicting : List CacheRow)
      → HasProject meta.project_id (
          compare_rows digest stored_text now fact_key meta active_rows auto duplicates conflicting)
  unfolding compare_rows
  compare_rows-HasProject fact_key meta active_rows true (row ∷ rows) [] = tt
  compare_rows-HasProject fact_key meta active_rows true [] [] = refl
  compare_rows-HasProject fact_key meta active_rows false rows [] = refl
  compare_rows-HasProject fact_key meta active_rows true rows (r ∷ rs) =
      build-project digest stored_text meta now _
  compare_rows-HasProject fact_key meta active_rows false rows (r ∷ rs) =
      build-project digest stored_text meta now _

  classify-HasProject :
      (user_id : Option Text) (meta : Metadata) (table : List CacheRow)
      → HasProject meta.project_id (classify digest stored_text now user_id meta table)
  unfolding classify classify_fact
  classify-HasProject user_id meta table = elim (Bool-cases (is_long_term meta)) [
    | inl e ↦ rw e (
        subst (λ p. HasProject p (classify_fact digest stored_text now user_id meta table))
          (build-project digest stored_text meta now _) (compare_rows-HasProject _ _ _ _ _ _))
    | inr e ↦ rw e refl
  ]

module _ {S : Type 0} (b : Backend S) (digest : Text → Text) (now : Text) where
  -- A store that answers `skipped` has changed nothing. One that answers with a memory has added it to mem0
  -- for the owner, under the metadata of the plan, which names the project of the request, and the id of the
  -- memory is mem0's answer.
  abbrev pub Stores :
      (infer : Bool)
      → (project_id : Option Text) → Owner
      → (before after : Memories S) → Reply
      → Type 0
  Stores infer project_id owner before after (skipped reason noise_kind from_llm) = after ≡ before
  Stores infer project_id owner before after (skipped_duplicate existing fact_key) = after ≡ before
  Stores infer project_id owner before after (added memory_id canonicalized_from from_llm plan) =
      (memory : Text) × (held : S) × (b.add memory owner plan.meta infer before.held
        ≡ (ok memory_id, held))
      × (plan.meta.project_id ≡ project_id)

  store_verdict-Stores :
      (raw_text : Text) (decision : Decision) (owner : Owner) (infer : Bool)
      (project_id : Option Text) (verdict : Verdict) (w : Memories S) (reply : Reply)
      → HasProject digest decision.canonical now project_id verdict
      → (store_verdict b digest now raw_text decision owner infer verdict w).0 ≡ ok reply
      → Stores infer project_id owner w
          (store_verdict b digest now raw_text decision owner infer verdict w).1
          reply
  unfolding store_verdict give ◌>>=◌ ◌>>◌ resume ask
  store_verdict-Stores raw_text decision owner infer project_id (duplicate existing fact_key) w
        reply h e =
      let same : skipped_duplicate existing fact_key ≡ reply = ground (arith, e) in
      subst (Stores infer project_id owner w w) same refl
  store_verdict-Stores raw_text decision owner infer project_id (write plan) w reply h e =
      elim (Result-cases (b.add decision.canonical owner plan.meta infer w.held).0) [
        | inr (fault, raised) ↦ absurd (ground (arith, raised, e))
        | inl (memory_id, there) ↦
            let held = (b.add decision.canonical owner plan.meta infer w.held).1 in
            let mirrored =
              mirror_if_id b digest now decision.canonical owner plan memory_id
                (record w { held = held }) in
            elim (Result-cases mirrored.0) [
              | inr (fault, raised) ↦ absurd (ground (arith, there, raised, e))
              | inl (done, m) ↦
                  let same : added memory_id
                        (if decision.canonicalized then some raw_text else none) decision.from_llm
                        plan
                      ≡ reply =
                    ground (arith, there, m, e) in
                  subst (Stores infer project_id owner w _) same
                    (decision.canonical, held, ap (λ r. (r, held)) there, h)
            ]
      ]

  -- A store that answers has stored for its owner alone, or nothing.
  pub store-Stores :
      (govern_memory_text : Text → Metadata → Decision) (messages : List Message) (owner : Owner)
      (metadata : Metadata) (infer : Bool) (w : Memories S) (reply : Reply)
      → (store_memory_with_governance b digest now govern_memory_text messages owner metadata infer
          w).0
        ≡ ok reply
      → Stores infer metadata.project_id owner w
          (store_memory_with_governance b digest now govern_memory_text messages owner metadata
            infer w).1
          reply
  unfolding store_memory_with_governance store_decided give store_verdict
  store-Stores govern_memory_text messages owner metadata infer w reply e =
      let raw_text = extract_primary_message_text messages in
      let decision = govern_memory_text raw_text metadata in
      let sorted = with_category decision.memory_kind metadata in
      elim (Bool-cases decision.skip) [
        | inl skips ↦ rw skips (
            let same : skipped decision.reason decision.noise_kind decision.from_llm ≡ reply =
              ground (arith, skips, e) in
            subst (Stores infer metadata.project_id owner w w) same refl)
        | inr stores ↦ rw stores (
            store_verdict-Stores raw_text decision owner infer metadata.project_id _ w reply
              (subst
                (λ p.
                  HasProject digest decision.canonical now p
                    (classify digest decision.canonical now owner.user_id sorted w.cache))
                (with_category-project decision.memory_kind metadata)
                (classify-HasProject digest decision.canonical now owner.user_id sorted w.cache))
              (ground (arith, stores, e)))
      ]
