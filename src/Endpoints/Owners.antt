-- ===== src/Endpoints/Owners.antt =====
-- For whom a memory is stored.
use automem.Services.Owned.{store-Stores, Stores}
use automem.Services.Store.{Reply, Decision}
use automem.Services.{Memories, Backend}
use automem.Auth.Identity.{enforce_user_identity-ok}
use automem.Auth.Projects.{enforce_project_identity-ok}
use automem.Cache.Rows.{Owner}
use automem.Common.{◌≡◌, refl, ◌⊎◌, inl, inr, true, false, Option, none, some, List, [], ◌∷◌, arith}
use automem.Text.Strings.Laws.{elem-clean_strings}
use automem.Text.{Text, truthy, or_empty, elem, is_empty}
use automem.Http.{err, Result, Result-cases, ok}
use automem.Metadata.{Metadata}
use automem.Auth.{
  Auth, enforce_user_identity, enforce_project_identity, normalize_project_ids,
  merge_project_id_into_metadata,
}
use automem.Endpoints.Memories.{log_reply, Server, Stamp, add_memory, MemoryCreate, check_memory}

-- A project of a key is not empty.
pub project_nonempty :
    (raws : List Text) (p : Text) → elem p (normalize_project_ids raws) ≡ true → is_empty p ≡ false
unfolding normalize_project_ids
project_nonempty raws p h = ground (arith, elem-clean_strings raws p, h)

merged_project :
    (raws : List Text) (project_id : Option Text) (given merged : Metadata)
    → elem (or_empty project_id) (normalize_project_ids raws) ≡ true
    → merge_project_id_into_metadata project_id given ≡ ok merged
    → elem (or_empty merged.project_id) (normalize_project_ids raws) ≡ true
unfolding merge_project_id_into_metadata
merged_project raws none given merged h e = absurd (ground (arith, project_nonempty raws [] h))
merged_project raws (some p) given merged h e = ground (arith, project_nonempty raws p h)

-- What a check that succeeds gives to a key that is not an administrator's.
abbrev pub IsOwn : Auth → Owner → Metadata → Type 0
IsOwn auth owner metadata =
    (owner.user_id ≡ auth.user_id)
    × (truthy owner.user_id ≡ true)
    × ((normalize_project_ids auth.project_ids ≡ [])
        ⊎ (elem (or_empty metadata.project_id) (normalize_project_ids auth.project_ids) ≡ true))

pub own_project :
    (auth : Auth) (asked answer : Option Text)
    → auth.is_admin ≡ false
    → enforce_project_identity auth asked ≡ ok answer
    → (normalize_project_ids auth.project_ids ≡ [])
      ⊎ (elem (or_empty answer) (normalize_project_ids auth.project_ids) ≡ true)
own_project auth asked answer h e = go (normalize_project_ids auth.project_ids) refl
  where
    go :
        (allowed : List Text)
        → normalize_project_ids auth.project_ids ≡ allowed
        → (normalize_project_ids auth.project_ids ≡ [])
          ⊎ (elem (or_empty answer) (normalize_project_ids auth.project_ids) ≡ true)
    go [] none_bound = inl none_bound
    go (p ∷ ps) bound =
        inr (enforce_project_identity-ok auth asked answer h (λ n. cc (bound, n)) e).0

check_memory-IsOwn :
    (auth : Auth) (payload : MemoryCreate) (owner : Owner) (metadata : Metadata)
    → auth.is_admin ≡ false
    → check_memory auth payload ≡ ok (owner, metadata)
    → IsOwn auth owner metadata
unfolding check_memory
check_memory-IsOwn auth payload owner metadata h e =
    elim (Result-cases (enforce_user_identity auth payload.user_id)) [
      | inr (fault, refused) ↦ absurd (ground (arith, e, refused))
      | inl (user_id, user) ↦
          elim (Result-cases (enforce_project_identity auth payload.project_id)) [
            | inr (fault, refused) ↦ absurd (ground (arith, e, user, refused))
            | inl (project_id, project) ↦
                elim (Result-cases (merge_project_id_into_metadata project_id payload.metadata)) [
                  | inr (fault, refused) ↦ absurd (ground (arith, e, user, project, refused))
                  | inl (merged, merge) ↦
                      let same : (owner.user_id ≡ user_id) × (metadata ≡ merged) =
                        ground (arith, e, user, project, merge) in
                      let own = enforce_user_identity-ok auth payload.user_id user_id h user in
                      rw (same.0, same.1)
                        (
                          own.0,
                          own.1,
                          elim (own_project auth payload.project_id project_id h project) [
                            | inl none_bound ↦ inl none_bound
                            | inr bound ↦ inr (
                                merged_project auth.project_ids project_id payload.metadata merged
                                  bound merge)
                          ],
                        )
                ]
          ]
    ]

-- The log changes neither the answer nor the memories.
log_reply-Stores :
    {S : Type 0} (b : Backend S) (digest : Text → Text) (now : Text) (stamp : Stamp) (auth : Auth)
    (payload : MemoryCreate) (owner : Owner) (metadata : Metadata) (r : Result Reply × Memories S)
    (w : Server S) (reply : Reply)
    → (log_reply b digest now stamp auth payload owner metadata r w).0 ≡ ok reply
    → ((answer : Reply)
        → r.0 ≡ ok answer
        → Stores b digest now payload.infer metadata.project_id owner w.memories r.1 answer)
    → Stores b digest now payload.infer metadata.project_id owner w.memories
        (log_reply b digest now stamp auth payload owner metadata r w).1.memories
        reply
unfolding log_reply
log_reply-Stores b digest now stamp auth payload owner metadata (err e, memories) w reply h keeps =
    absurd (cc)
log_reply-Stores b digest now stamp auth payload owner metadata (ok answer, memories) w reply h
      keeps =
    keeps reply h

-- If `add_memory` answers a key without administrator's rights, whatever the request names: the reply
-- `skipped` leaves the memories as they were; any other is mem0's answer to the addition of a memory for
-- the user of the key, under metadata that, if the key is bound to projects, names one of them.
pub add_memory-IsOwn :
    {S : Type 0} (b : Backend S) (digest : Text → Text) (now : Text) (stamp : Stamp)
    (govern_memory_text : Text → Metadata → Decision) (auth : Auth) (payload : MemoryCreate)
    (w : Server S) (reply : Reply)
    → auth.is_admin ≡ false
    → (add_memory b digest now stamp govern_memory_text auth payload w).0 ≡ ok reply
    → (owner : Owner) × (metadata : Metadata) × IsOwn auth owner metadata
      × Stores b digest now payload.infer metadata.project_id owner w.memories
          (add_memory b digest now stamp govern_memory_text auth payload w).1.memories
          reply
unfolding add_memory
add_memory-IsOwn b digest now stamp govern_memory_text auth payload w reply h e =
    elim (Result-cases (check_memory auth payload)) [
      | inr (fault, refused) ↦ absurd (ground (arith, e, refused))
      | inl ((owner, metadata), checked) ↦ (
        owner,
        metadata,
        check_memory-IsOwn auth payload owner metadata h checked,
        rw (checked, add_memory)
            (log_reply-Stores b digest now stamp auth payload owner metadata _ w reply
              (rw (checked, add_memory) at e)
              (λ answer.
                store-Stores b digest now govern_memory_text payload.messages owner metadata
                  payload.infer w.memories answer)),
      )
    ]
