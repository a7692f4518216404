-- ===== src/Auth.antt =====
-- backend/auth.py: what an authenticated request may do, and backend/agent_keys.py below it (Keys).
pub mod Keys
pub mod Verify
pub mod Identity
pub mod Projects
pub mod Sessions
pub mod KeyTable
mod Tests
use automem.Common.{
  ℕ, Bool, true, false, not, ◌&&◌, ◌||◌, Option, none, some, List, [], ◌∷◌, if◌then◌else◌,
}
use automem.Text.{Text, text, ◌==◌, elem, truthy, or_else, or_empty}
use automem.Text.Normalize.{normalize_text}
use automem.Text.Strings.{clean_strings}
use automem.Http.{
  Result, ok, err, ◌>>=◌, ◌>>◌, raise_if, missing_scope, agent_mismatch, no_bound_user,
  user_mismatch, project_mismatch, project_required, metadata_conflict, filters_conflict,
  task_not_found, memory_not_found,
}
use automem.Metadata.{Metadata, Filters}

-- `actor_type`: the administrator's key of the environment, or a row of `api_keys`.
pub data ActorType : Type 0 where
  admin agent_key : ActorType

-- The dictionary that `verify_api_key` returns. The administrator's has no `user_id` and no
-- `project_ids`.
pub record Auth : Type 0 where
  pub actor_type : ActorType
  pub actor_label : Option Text
  pub agent_id : Option Text
  pub user_id : Option Text
  pub project_ids : List Text
  pub scopes : List Text
  pub is_admin : Bool

-- `a and b and a != b` on optional strings.
abbrev pub differ : Option Text → Option Text → Bool
differ a b = truthy a && (truthy b && not (or_empty a == or_empty b))

unfoldable pub require_scope : Auth → Text → Result (Unit {0})
require_scope auth scope =
    if auth.is_admin
    then ok tt
    else raise_if (not (elem scope auth.scopes) && not (elem (text "admin") auth.scopes))
        (missing_scope scope)

unfoldable pub enforce_agent_identity : Auth → Option Text → Result (Option Text)
enforce_agent_identity auth agent_id = if auth.is_admin then ok agent_id else do
  raise_if (differ agent_id auth.agent_id) agent_mismatch
  ok (or_else auth.agent_id agent_id)

unfoldable pub enforce_user_identity : Auth → Option Text → Result (Option Text)
enforce_user_identity auth user_id = if auth.is_admin then ok user_id else do
  raise_if (not (truthy auth.user_id)) no_bound_user
  raise_if (differ user_id auth.user_id) user_mismatch
  ok (or_else auth.user_id user_id)

-- `normalize_project_ids`; `None` is the empty list.
unfoldable pub normalize_project_ids : List Text → List Text
normalize_project_ids = clean_strings

-- The end of `enforce_project_identity`, by the allowed projects of the key.
unfoldable pub choose_project : List Text → Option Text → Result (Option Text)
choose_project [] project_id = ok project_id
choose_project (only ∷ []) project_id =
    if truthy project_id
    then if elem (or_empty project_id) (only ∷ []) then ok project_id else err project_mismatch
    else ok (some only)
choose_project (p ∷ q ∷ rest) project_id =
    if truthy project_id
    then if elem (or_empty project_id) (p ∷ q ∷ rest) then ok project_id else err project_mismatch
    else err project_required

unfoldable pub enforce_project_identity : Auth → Option Text → Result (Option Text)
enforce_project_identity auth project_id =
    if auth.is_admin
    then ok project_id
    else choose_project (normalize_project_ids auth.project_ids) project_id

-- `existing`: the project that the dictionary names already.
abbrev pub conflicts : Option Text → Option Text → Bool
conflicts project_id held =
    let existing = normalize_text (or_empty held) in
    truthy project_id && (truthy (some existing) && not (existing == or_empty project_id))

unfoldable pub merge_project_id_into_metadata : Option Text → Metadata → Result Metadata
merge_project_id_into_metadata project_id meta = do
  raise_if (conflicts project_id meta.project_id) metadata_conflict
  ok (if truthy project_id then record meta { project_id = project_id } else meta)

unfoldable pub merge_project_id_into_filters : Option Text → Filters → Result Filters
merge_project_id_into_filters project_id filters = do
  raise_if (conflicts project_id filters.project_id) filters_conflict
  ok (if truthy project_id then record filters { project_id = project_id } else filters)

-- `if allowed_project_ids and project not in allowed_project_ids`
abbrev pub outside_projects : List Text → Option Text → Bool
outside_projects [] project_id = false
outside_projects (p ∷ ps) project_id = not (elem (normalize_text (or_empty project_id)) (p ∷ ps))

-- backend/main.py: the row's columns `user_id` (never NULL) and `project_id`.
unfoldable pub ensure_task_row_access {ℓ} :
    {A : Type ℓ} → Auth → (row : A) → Text → Option Text → Result A
ensure_task_row_access auth row user_id project_id = if auth.is_admin then ok row else do
  raise_if (truthy auth.user_id && not (user_id == or_empty auth.user_id)) task_not_found
  raise_if (outside_projects (normalize_project_ids auth.project_ids) project_id) task_not_found
  ok row

-- backend/main.py: the item's `user_id` and its metadata's `project_id`.
unfoldable pub ensure_memory_item_access {ℓ} :
    {A : Type ℓ} → Auth → (item : A) → Option Text → Option Text → Result A
ensure_memory_item_access auth item user_id project_id = if auth.is_admin then ok item else do
  raise_if (differ auth.user_id user_id) memory_not_found
  raise_if (outside_projects (normalize_project_ids auth.project_ids) project_id) memory_not_found
  ok item
