-- ===== src/Endpoints/Admin.antt =====
-- backend/routers/admin.py: creating and listing keys, and reading the audit log.
pub mod Keys
mod Tests
use automem.Common.{ℕ, not, ◌&&◌, Option, List}
use automem.Text.{Text, text, elem, truthy}
use automem.Http.{Result, ok, err, ◌>>=◌, ◌>>◌, raise_if, key_request_needs_user}
use automem.Audit.{AuditEvent, fetch_audit_log}
use automem.Auth.{Auth, require_scope}
use automem.Auth.Keys.{ApiKey, KeyView, create_agent_key, list_api_keys}

-- `AgentKeyCreateRequest`
pub record AgentKeyCreate : Type 0 where
  pub agent_id : Text
  pub label : Text
  pub scopes : List Text
  pub user_id : Option Text
  pub project_ids : List Text
  pub token : Option Text

unfoldable pub check_creation : Auth → AgentKeyCreate → Result (Unit {0})
check_creation auth payload = do
  require_scope auth (text "admin")
  raise_if (not (elem (text "admin") payload.scopes) && not (truthy payload.user_id))
      key_request_needs_user

-- An exception leaves the table as it was.
unfoldable pub finish_creation :
    Result (Text × List ApiKey) → List ApiKey → Result Text × List ApiKey
finish_creation (err e) table = (err e, table)
finish_creation (ok (token, after)) table = (ok token, after)

module _ (hash_token : Text → Text) (random_id random_token now : Text) where
  unfoldable pub create_checked :
      Result (Unit {0}) → AgentKeyCreate → List ApiKey → Result Text × List ApiKey
  create_checked (err e) payload table = (err e, table)
  create_checked (ok _) payload table =
      finish_creation
        (create_agent_key hash_token random_id random_token now payload.agent_id payload.label
          payload.scopes payload.user_id payload.project_ids payload.token table)
        table

  unfoldable pub agent_keys_create : Auth → AgentKeyCreate → List ApiKey → Result Text × List ApiKey
  agent_keys_create auth payload table = create_checked (check_creation auth payload) payload table

unfoldable pub agent_keys_list : Auth → List ApiKey → Result (List KeyView)
agent_keys_list auth table = do require_scope auth (text "admin"); ok (list_api_keys table)

unfoldable pub audit_log :
    {D : Type 0}
    → Auth
    → (limit : ℕ) → (event_type : Option Text) → List (AuditEvent D)
    → Result (List (AuditEvent D))
audit_log auth limit event_type log = do
  require_scope auth (text "admin")
  ok (fetch_audit_log limit event_type log)
