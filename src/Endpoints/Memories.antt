-- ===== src/Endpoints/Memories.antt =====
-- backend/routers/memories.py. The endpoints `search` and `memory-route` are not here.
use automem.Common.{ℕ, Bool, not, ◌||◌, Option, none, some, List, select}
use automem.Text.{Text, text, ◌==◌, truthy, or_empty}
use automem.Text.Normalize.{normalize_text}
use automem.Http.{Result, ok, err, ◌>>=◌, ◌>>◌, raise_if, identifier_required, memory_not_found}
use automem.Metadata.{Metadata}
use automem.Audit.{AuditEvent, write_audit}
use automem.Auth.{
  Auth, ActorType, admin, agent_key, require_scope, enforce_user_identity, enforce_project_identity,
  enforce_agent_identity, merge_project_id_into_metadata, ensure_memory_item_access,
}
use automem.Cache.Rows.{Owner, delete_cached_memory}
use automem.Services.{Item, Backend, Memories}
use automem.Services.Rebuild.{rebuild_memory_cache}
use automem.Services.Store.{
  Message, Decision, Reply, skipped, skipped_duplicate, added, store_memory_with_governance,
}

-- The details of the events.
pub data MemoryDetail : Type 0 where
  stored : Metadata → (infer : Bool) → Reply → MemoryDetail
  deleted : (memory_id : Text) → MemoryDetail
  rebuilt : (count : ℕ) → Owner → MemoryDetail

pub record Server (S : Type 0) : Type 0 where
  pub memories : Memories S
  pub audit : List (AuditEvent MemoryDetail)

-- The body of `POST /v1/memories`.
pub record MemoryCreate : Type 0 where
  pub messages : List Message
  pub user_id : Option Text
  pub agent_id : Option Text
  pub run_id : Option Text
  pub project_id : Option Text
  pub metadata : Metadata
  pub infer : Bool

-- The id and the time that `write_audit` draws.
pub record Stamp : Type 0 where
  pub event_id : Text
  pub created_at : ℕ

-- `auth["actor_type"]`
abbrev pub actor_name : ActorType → Text
actor_name admin = text "admin"
actor_name agent_key = text "agent_key"

abbrev pub event_of :
    {D : Type 0}
    → Stamp
    → Auth
    → (agent_id : Option Text) → (event_type : Text) → (user_id project_id task_id : Option Text)
    → (detail : D) → AuditEvent D
event_of stamp auth agent_id event_type user_id project_id task_id detail = record {
  event_id = stamp.event_id;
  created_at = stamp.created_at;
  actor_type = actor_name auth.actor_type;
  actor_label = auth.actor_label;
  actor_agent_id = agent_id;
  event_type = event_type;
  user_id = user_id;
  project_id = project_id;
  task_id = task_id;
  route = none;
  detail = detail;
}

-- The part of `add_memory` before the memory is stored: for whom, and with which metadata.
unfoldable pub check_memory : Auth → MemoryCreate → Result (Owner × Metadata)
check_memory auth payload = do
  require_scope auth (text "store")
  user_id ← enforce_user_identity auth payload.user_id
  project_id ← enforce_project_identity auth payload.project_id
  raise_if (not (truthy user_id || (truthy payload.agent_id || truthy payload.run_id)))
      identifier_required
  agent_id ← enforce_agent_identity auth payload.agent_id
  metadata ← merge_project_id_into_metadata project_id payload.metadata
  ok (record { user_id = user_id; run_id = payload.run_id; agent_id = agent_id }, metadata)

-- `"memory_skip" if result.get("status") == "skipped" else "memory_add"`
abbrev pub event_type_of : Reply → Text
event_type_of (skipped reason noise_kind from_llm) = text "memory_skip"
event_type_of (skipped_duplicate existing fact_key) = text "memory_skip"
event_type_of (added memory_id canonicalized_from from_llm plan) = text "memory_add"

module _ {S : Type 0} (b : Backend S) (digest : Text → Text) (now : Text) (stamp : Stamp) where
  -- An answer is logged, and an exception is not.
  unfoldable pub log_reply :
      Auth
      → MemoryCreate
      → Owner
      → Metadata
      → Result Reply × Memories S
      → Server S
      → Result Reply × Server S
  log_reply auth payload owner metadata (err e, memories) w =
      (err e, record w { memories = memories })
  log_reply auth payload owner metadata (ok reply, memories) w = (
    ok reply,
    record {
      memories = memories;
      audit =
          write_audit
            (event_of stamp auth owner.agent_id (event_type_of reply) owner.user_id none
              owner.run_id (stored metadata payload.infer reply))
            w.audit;
    },
  )

  unfoldable pub add_memory :
      (govern_memory_text : Text → Metadata → Decision)
      → Auth
      → MemoryCreate
      → Server S
      → Result Reply × Server S
  add_memory govern_memory_text auth payload w = elim (check_memory auth payload) [
    | err e ↦ (err e, w)
    | ok (owner, metadata) ↦
        log_reply auth payload owner metadata
          (store_memory_with_governance b digest now govern_memory_text payload.messages owner
            metadata payload.infer w.memories)
          w
  ]

  -- The items whose metadata names the project.
  unfoldable pub in_project : Option Text → List Item → List Item
  in_project none items = items
  in_project (some project_id) items =
      select (λ (item : Item). normalize_text (or_empty item.metadata.project_id) == project_id)
        items

  -- The scope in which `get_memories` reads.
  unfoldable pub check_scope : Auth → Owner → Option Text → Result (Owner × Option Text)
  check_scope auth asked project_id = do
    require_scope auth (text "search")
    user_id ← enforce_user_identity auth asked.user_id
    project ← enforce_project_identity auth project_id
    raise_if (not (truthy user_id || (truthy asked.run_id || truthy asked.agent_id)))
        identifier_required
    ok (record asked { user_id = user_id }, project)

  unfoldable pub get_memories :
      Auth → Owner → (project_id : Option Text) → Memories S → Result (List Item) × Memories S
  get_memories auth asked project_id w = elim (check_scope auth asked project_id) [
    | err e ↦ (err e, w)
    | ok (owner, project) ↦
        let (r, held) = b.get_all owner w.held in
        (do items ← r; ok (in_project project items), record w { held = held })
  ]

  -- The item of the id, if the key may reach it.
  unfoldable pub reach_memory : Auth → Text → Memories S → Result Item × Memories S
  reach_memory auth memory_id w =
      let (r, held) = b.get memory_id w.held in
      (
        do
          found ← r
          elim found [
            | none ↦ err memory_not_found
            | some item ↦
                ensure_memory_item_access auth item item.owner.user_id item.metadata.project_id
          ],
        record w { held = held },
      )

  unfoldable pub get_memory : Auth → Text → Memories S → Result Item × Memories S
  get_memory auth memory_id w = elim (require_scope auth (text "search")) [
    | err e ↦ (err e, w)
    | ok _ ↦ reach_memory auth memory_id w
  ]

  -- Behind the check of the item: mem0, then the cache, then the log.
  unfoldable pub delete_reached :
      Auth → Text → Result Item × Memories S → Server S → Result (Unit {0}) × Server S
  delete_reached auth memory_id (err e, memories) w = (err e, record w { memories = memories })
  delete_reached auth memory_id (ok item, memories) w =
      let (r, held) = b.remove memory_id memories.held in
      elim r [
        | err e ↦ (err e, record w { memories = record memories { held = held } })
        | ok _ ↦ (
          ok tt,
          record {
            memories = record {
              cache = delete_cached_memory memory_id memories.cache;
              held = held;
            };
            audit =
                write_audit
                  (event_of stamp auth auth.agent_id (text "memory_delete") item.owner.user_id
                    item.metadata.project_id none (deleted memory_id))
                  w.audit;
          },
        )
      ]

  unfoldable pub delete_memory : Auth → Text → Server S → Result (Unit {0}) × Server S
  delete_memory auth memory_id w = elim (require_scope auth (text "forget")) [
    | err e ↦ (err e, w)
    | ok _ ↦ delete_reached auth memory_id (reach_memory auth memory_id w.memories) w
  ]

  unfoldable pub cache_rebuild : Auth → Owner → Server S → Result ℕ × Server S
  cache_rebuild auth scope w = elim (require_scope auth (text "admin")) [
    | err e ↦ (err e, w)
    | ok _ ↦
        let (r, memories) = rebuild_memory_cache b digest now scope w.memories in
        elim r [
          | err e ↦ (err e, record w { memories = memories })
          | ok count ↦ (
            ok count,
            record {
              memories = memories;
              audit =
                  write_audit
                    (event_of stamp auth auth.agent_id (text "cache_rebuild") scope.user_id none
                      none (rebuilt count scope))
                    w.audit;
            },
          )
        ]
  ]
