-- ===== src/Services/Store.antt =====
-- `store_memory_with_governance`.
use automem.Common.{Bool, Option, none, some, List, [], ◌∷◌, ◌++◌, if◌then◌else◌, map, select, not}
use automem.Text.{Text, text, ◌==◌, is_empty}
use automem.Text.Normalize.{normalize_text}
use automem.Metadata.{Metadata}
use automem.Cache.Rows.{Owner, cache_memory_record, delete_cached_memory}
use automem.Services.{Backend}
use automem.Services.Flow.{Flow, ◌>>=◌, ◌>>◌, give, ask, edit, on_error}
use automem.Services.Archive.{archive_active_long_term_facts}
use automem.Services.Classify.{Plan, Verdict, duplicate, write, with_category, classify}

pub record Message : Type 0 where
  pub role : Text
  pub content : Text

-- What `govern_memory_text` returns.
pub record Decision : Type 0 where
  pub skip : Bool
  pub reason : Text
  pub canonical : Text
  pub canonicalized : Bool
  pub noise_kind : Option Text
  pub from_llm : Bool
  pub memory_kind : Option Text

-- The dictionary that the function returns, without what mem0 adds to it. `judge` is `llm` if
-- `from_llm` is set and else `heuristic`.
pub data Reply : Type 0 where
  skipped : (reason : Text) (noise_kind : Option Text) (from_llm : Bool) → Reply
  skipped_duplicate : (existing_memory_id fact_key : Text) → Reply
  added : (memory_id canonicalized_from : Option Text) (from_llm : Bool) (plan : Plan) → Reply

-- `"\n".join(parts)`
unfoldable pub join_lines : List Text → Text
join_lines [] = []
join_lines (part ∷ []) = part
join_lines (part ∷ next ∷ parts) = part ++ (10 ∷ join_lines (next ∷ parts))

abbrev pub contents : List Message → List Text
contents messages =
    select (λ t. not (is_empty t)) (map (λ (m : Message). normalize_text m.content) messages)

unfoldable pub extract_primary_message_text : List Message → Text
extract_primary_message_text messages =
    elim (contents (select (λ (m : Message). m.role == text "user") messages)) [
      | [] ↦ join_lines (contents messages)
      | part ∷ parts ↦ join_lines (part ∷ parts)
    ]

module _ {S : Type 0} (b : Backend S) (digest : Text → Text) (now : Text) where
  -- The new memory is in the cache; the facts that it supersedes become history. If that fails, the new
  -- memory is taken back.
  unfoldable pub mirror : Text → Owner → Plan → Text → Flow S (Unit {0})
  mirror stored_text owner plan memory_id = do
    edit (cache_memory_record digest now memory_id stored_text owner plan.meta (some now))
    on_error
        (do archive_active_long_term_facts b digest now memory_id now plan.superseded_rows; give tt)
        (do ask (b.remove memory_id); edit (delete_cached_memory memory_id))

  unfoldable pub mirror_if_id : Text → Owner → Plan → Option Text → Flow S (Unit {0})
  mirror_if_id stored_text owner plan none = give tt
  mirror_if_id stored_text owner plan (some memory_id) = mirror stored_text owner plan memory_id

  -- The branches on `infer` differ in the flag that mem0 gets.
  unfoldable pub store_verdict : Text → Decision → Owner → Bool → Verdict → Flow S Reply
  store_verdict raw_text decision owner infer (duplicate existing fact_key) =
      give (skipped_duplicate existing fact_key)
  store_verdict raw_text decision owner infer (write plan) = do
    memory_id ← ask (b.add decision.canonical owner plan.meta infer)
    mirror_if_id decision.canonical owner plan memory_id
    give (
        added memory_id (if decision.canonicalized then some raw_text else none) decision.from_llm
          plan)

  -- Behind the decision on the text.
  unfoldable pub store_decided : Text → Decision → Owner → Metadata → Bool → Flow S Reply
  store_decided raw_text decision owner metadata infer w =
      if decision.skip
      then give (skipped decision.reason decision.noise_kind decision.from_llm) w
      else store_verdict raw_text decision owner infer
          (classify digest decision.canonical now owner.user_id
            (with_category decision.memory_kind metadata) w.cache)
          w

  unfoldable pub store_memory_with_governance :
      (govern_memory_text : Text → Metadata → Decision)
      → List Message
      → Owner
      → Metadata
      → Bool
      → Flow S Reply
  store_memory_with_governance govern_memory_text messages owner metadata infer =
      let raw_text = extract_primary_message_text messages in
      store_decided raw_text (govern_memory_text raw_text metadata) owner metadata infer
