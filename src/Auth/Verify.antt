-- ===== src/Auth/Verify.antt =====
-- `verify_api_key` of backend/auth.py, with the table after it, and `has_usable_api_keys`.
use automem.Common.{
  Bool, true, false, not, ◌&&◌, ◌||◌, Option, none, some, List, [], ◌∷◌, if◌then◌else◌, first,
  update,
}
use automem.Text.{Text, text, ◌==◌, elem, truthy, lower, is_ascii}
use automem.Http.{
  Result, ok, err, api_key_required, invalid_api_key, key_without_user, digest_of_non_ascii,
}
use automem.Auth.{Auth, admin, agent_key}
use automem.Auth.Keys.{ApiKey, fetch_api_key}

abbrev pub admin_auth : Auth
admin_auth = record {
  actor_type = admin;
  actor_label = some (text "admin");
  agent_id = none;
  user_id = none;
  project_ids = [];
  scopes = text "admin" ∷ [];
  is_admin = true;
}

-- UPDATE api_keys SET last_used_at = now WHERE key_id = key_id
unfoldable pub touch_api_key : Text → Text → List ApiKey → List ApiKey
touch_api_key now key_id =
    update (λ row. row.key_id == key_id) (λ row. record row { last_used_at = some now })

-- What an active row gives to its holder.
abbrev pub auth_of_key : ApiKey → Auth
auth_of_key key = record {
  actor_type = agent_key;
  actor_label = some key.label;
  agent_id = key.agent_id;
  user_id = key.user_id;
  project_ids = key.project_ids;
  scopes = key.scopes;
  is_admin = elem (text "admin") key.scopes;
}

-- The check of `is_admin` and `user_id` behind it.
unfoldable pub admit : ApiKey → Result Auth
admit key =
    let is_admin = elem (text "admin") key.scopes in
    if not is_admin && not (truthy key.user_id) then err key_without_user else ok (auth_of_key key)

-- `secrets.compare_digest`, which raises on a text that is not ASCII.
unfoldable pub compare_digest : Text → Text → Result Bool
compare_digest a b = if is_ascii a && is_ascii b then ok (a == b) else err digest_of_non_ascii

-- `admin_key and secrets.compare_digest(api_key, admin_key)`
unfoldable pub is_admin_key : (admin_key api_key : Text) → Result Bool
is_admin_key admin_key api_key =
    if truthy (some admin_key) then compare_digest api_key admin_key else ok false

-- Past the administrator's key.
unfoldable pub verify_row : (Text → Text) → Text → Text → List ApiKey → Result Auth × List ApiKey
verify_row hash_token now api_key table = elim (fetch_api_key hash_token api_key table) [
  | none ↦ (err invalid_api_key, table)
  | some key ↦
      if key.status == text "active"
      then (admit key, touch_api_key now key.key_id table)
      else (err invalid_api_key, table)
]

-- `admin_key` is the environment variable `ADMIN_API_KEY`, empty if it is not set.
unfoldable pub verify_api_key :
    (Text → Text) → Text → Text → Option Text → List ApiKey → Result Auth × List ApiKey
verify_api_key hash_token admin_key now none table = (err api_key_required, table)
verify_api_key hash_token admin_key now (some api_key) table =
    elim (is_admin_key admin_key api_key) [
      | err e ↦ (err e, table)
      | ok is_admin ↦
          if is_admin then (ok admin_auth, table) else verify_row hash_token now api_key table
    ]

-- `scopes_json LIKE '%"admin"%'`: LIKE does not distinguish the case of ASCII letters.
unfoldable pub like_admin : List Text → Bool
like_admin [] = false
like_admin (s ∷ ss) = (lower s == text "admin") || like_admin ss

unfoldable pub has_usable_api_keys : List ApiKey → Bool
has_usable_api_keys table =
    elim (first
      (λ row. (row.status == text "active") && (truthy row.user_id || like_admin row.scopes))
      table) [ none ↦ false | some row ↦ true ]
