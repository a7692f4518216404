-- ===== src/Auth/Identity.antt =====
-- A key acts as its own user and agent only, and reaches only what is its user's.
use automem.Common.{◌≡◌, ◌≢◌, ap, ◌⊎◌, true, false, ◌||◌, Option, none, some, [], arith}
use automem.Text.{Text, text, ◌==◌, elem, truthy, or_empty, eq_sound}
use automem.Text.Normalize.{normalize_text}
use automem.Http.{ok, err, user_mismatch, no_bound_user, missing_scope}
use automem.Auth.{
  Auth, require_scope, enforce_user_identity, enforce_agent_identity, normalize_project_ids,
  ensure_memory_item_access,
}

-- Two optional strings that hold nonempty texts are equal if the texts are.
some_of_texts :
    (a b : Option Text)
    → truthy a ≡ true
    → truthy b ≡ true
    → (or_empty a == or_empty b) ≡ true
    → a ≡ b
some_of_texts none b h k e = cc
some_of_texts (some s) none h k e = cc
some_of_texts (some s) (some t) h k e = ap some (eq_sound s t e)

-- If a key that is not an administrator's is let through, then as its own user, which is not empty,
-- and the request named that user or none.
pub enforce_user_identity-ok :
    (auth : Auth) (asked answer : Option Text)
    → auth.is_admin ≡ false
    → enforce_user_identity auth asked ≡ ok answer
    → (answer ≡ auth.user_id) × (truthy answer ≡ true) × ((truthy asked ≡ false) ⊎ (asked ≡ answer))
unfolding enforce_user_identity
enforce_user_identity-ok auth asked answer h e = ground (arith, some_of_texts asked auth.user_id)

-- The same for the agent, where a key without an agent takes the one that is named.
pub enforce_agent_identity-ok :
    (auth : Auth) (asked answer : Option Text)
    → auth.is_admin ≡ false
    → enforce_agent_identity auth asked ≡ ok answer
    → (truthy auth.agent_id ≡ true)
        × (answer ≡ auth.agent_id)
        × ((truthy asked ≡ false) ⊎ (asked ≡ answer))
      ⊎ (truthy auth.agent_id ≡ false) × (answer ≡ asked)
unfolding enforce_agent_identity
enforce_agent_identity-ok auth asked answer h e = ground (arith, some_of_texts asked auth.agent_id)

-- A request for a user whose key it does not hold is refused with 403, and only such a request or one
-- by a key without a user is.
pub enforce_user_identity-refuses :
    (auth : Auth) (asked : Text)
    → auth.is_admin ≡ false
    → truthy (some asked) ≡ true
    → asked ≢ or_empty auth.user_id
    → (enforce_user_identity auth (some asked) ≡ err user_mismatch)
      ⊎ (enforce_user_identity auth (some asked) ≡ err no_bound_user)
unfolding enforce_user_identity
enforce_user_identity-refuses auth asked h t n =
    ground (arith, eq_sound asked (or_empty auth.user_id))

-- A memory that a key with a user reaches is a memory of that user or of no user, in one of the
-- projects of the key if it has any.
ensure_memory_item_access-ok {ℓ} :
    {A : Type ℓ} (auth : Auth) (item : A) (user_id project_id : Option Text) {got : A}
    → auth.is_admin ≡ false
    → truthy auth.user_id ≡ true
    → ensure_memory_item_access auth item user_id project_id ≡ ok got
    → ((truthy user_id ≡ false) ⊎ (user_id ≡ auth.user_id))
      × ((normalize_project_ids auth.project_ids ≡ [])
          ⊎ (elem (normalize_text (or_empty project_id)) (normalize_project_ids auth.project_ids)
              ≡ true))
unfolding ensure_memory_item_access
ensure_memory_item_access-ok auth item user_id project_id h t e =
    ground (arith, some_of_texts auth.user_id user_id)

-- A key without a project restriction reaches every memory that has no user, whoever stored it.
pub memory_without_user_reached {ℓ} :
    {A : Type ℓ} (auth : Auth) (item : A) (user_id project_id : Option Text)
    → normalize_project_ids auth.project_ids ≡ []
    → truthy user_id ≡ false
    → ensure_memory_item_access auth item user_id project_id ≡ ok item
unfolding ensure_memory_item_access
memory_without_user_reached auth item user_id project_id h t = ground arith

-- Without the scope and without `admin` a request is refused, and with either it is let through.
pub require_scope_exact :
    (auth : Auth) (scope : Text)
    → (auth.is_admin || (elem scope auth.scopes || elem (text "admin") auth.scopes) ≡ true)
        × (require_scope auth scope ≡ ok tt)
      ⊎ (auth.is_admin || (elem scope auth.scopes || elem (text "admin") auth.scopes) ≡ false)
        × (require_scope auth scope ≡ err (missing_scope scope))
unfolding require_scope
require_scope_exact auth scope = ground arith
