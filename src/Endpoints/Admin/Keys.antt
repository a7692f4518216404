-- ===== src/Endpoints/Admin/Keys.antt =====
-- What the creation of a key by an administrator leaves.
use automem.Common.{◌≡◌, ◌≢◌, refl, List, some, true, false, ◌&&◌, ◌⊎◌, inl, inr, Bool-cases, arith}
use automem.Text.{Text, text, elem, truthy, is_ascii, ◌==◌, eq_sound, eq_refl}
use automem.Http.{Result, ok, err}
use automem.Auth.{Auth}
use automem.Auth.Keys.{ApiKey, create_agent_key}
use automem.Auth.KeyTable.{IsWellKept, create_agent_key-IsWellKept, verify-create_agent_key}
use automem.Auth.Verify.{verify_api_key}
use automem.Endpoints.Admin.{
  AgentKeyCreate, check_creation, finish_creation, create_checked, agent_keys_create,
}

module _ (hash_token : Text → Text) (random_id random_token now admin_key later : Text)
    (payload : AgentKeyCreate) (table : List ApiKey) where
  -- The token opens the table as the user, and with the scopes, of the request.
  abbrev pub Opens : Text → List ApiKey → Type 0
  Opens token after =
      (opened : Auth) × ((verify_api_key hash_token admin_key later (some token) after).0
        ≡ ok opened)
      × (opened.user_id ≡ payload.user_id)
      × (opened.scopes ≡ payload.scopes)
      × (opened.is_admin ≡ elem (text "admin") payload.scopes)

  -- The token is the administrator's key, or one of the two is not ASCII and an administrator's key is
  -- set, so that `compare_digest` raises.
  abbrev pub IsConfused : Text → Type 0
  IsConfused token =
      (token ≡ admin_key)
      ⊎ (truthy (some admin_key) ≡ true) × ((is_ascii token && is_ascii admin_key) ≡ false)

  created_token_cases :
      (token : Text) (after : List ApiKey)
      → create_agent_key hash_token random_id random_token now payload.agent_id payload.label
          payload.scopes payload.user_id payload.project_ids payload.token table
        ≡ ok (token, after)
      → IsConfused token ⊎ Opens token after
  created_token_cases token after created = elim (Bool-cases (token == admin_key)) [
    | inl same ↦ inl (inl (eq_sound token admin_key same))
    | inr other ↦ elim (Bool-cases (is_ascii token && is_ascii admin_key)) [
      | inl ascii ↦
          inr
            (opens (λ e. ground (arith, other, e, eq_refl admin_key)) (λ _. ground (arith, ascii)))
      | inr ascii ↦ elim (Bool-cases (truthy (some admin_key))) [
        | inl set ↦ inl (inr (set, ascii))
        | inr unset ↦ inr (
            opens (λ e. ground (arith, other, e, eq_refl admin_key))
              (λ set. absurd (cc (set, unset))))
      ]
    ]
  ]
    where
      opens :
          token ≢ admin_key
          → (truthy (some admin_key) ≡ true → (is_ascii token ≡ true) × (is_ascii admin_key ≡ true))
          → Opens token after
      opens differs ascii =
          verify-create_agent_key hash_token random_id random_token now payload.agent_id
            payload.label payload.scopes payload.user_id payload.project_ids payload.token table
            admin_key later token after created differs ascii

  abbrev pub Leaves : Result Text → List ApiKey → Type 0
  Leaves (err e) after = after ≡ table
  Leaves (ok token) after = IsWellKept after × (IsConfused token ⊎ Opens token after)

  finish_creation-Leaves :
      (r : Result (Text × List ApiKey))
      → IsWellKept table
      → create_agent_key hash_token random_id random_token now payload.agent_id payload.label
          payload.scopes payload.user_id payload.project_ids payload.token table
        ≡ r
      → Leaves (finish_creation r table).0 (finish_creation r table).1
  unfolding finish_creation
  finish_creation-Leaves (err e) w created = refl
  finish_creation-Leaves (ok (token, after)) w created = (
    create_agent_key-IsWellKept hash_token random_id random_token now payload.agent_id payload.label
        payload.scopes payload.user_id payload.project_ids payload.token table token after created
        w,
    created_token_cases token after created,
  )

  create_checked-Leaves :
      (r : Result (Unit {0}))
      → IsWellKept table
      → Leaves
          (create_checked hash_token random_id random_token now r payload table).0
          (create_checked hash_token random_id random_token now r payload table).1
  unfolding create_checked
  create_checked-Leaves (err e) w = refl
  create_checked-Leaves (ok _) w = finish_creation-Leaves _ w refl

  -- If a creation fails, for want of rights, of a user or for a key that exists, the table stays as it was;
  -- if it succeeds, the table is in order, and the token that it returns is let in as the user and with the
  -- scopes of the request, unless it is the administrator's key, or one is set and one of the two texts is
  -- not ASCII.
  pub agent_keys_create_cases :
      (auth : Auth)
      → IsWellKept table
      → Leaves
          (agent_keys_create hash_token random_id random_token now auth payload table).0
          (agent_keys_create hash_token random_id random_token now auth payload table).1
  unfolding agent_keys_create
  agent_keys_create_cases auth w = create_checked-Leaves (check_creation auth payload) w
