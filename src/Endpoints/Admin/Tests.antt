-- ===== src/Endpoints/Admin/Tests.antt =====
-- The administrator creates a key in an empty table. The hash puts a mark before a token.
use automem.Common.{◌≡◌, refl, [], ◌∷◌, true, none, some, List, first, update}
use automem.Text.{Text, text, ◌==◌, elem}
use automem.Text.Normalize.{normalize_text}
use automem.Text.Strings.{clean_from, clean_strings}
use automem.Http.{Result, ok}
use automem.Auth.{Auth, admin, require_scope}
use automem.Auth.Keys.{ApiKey, insert_key, create_agent_key}
use automem.Auth.KeyTable.{IsWellKept}
use automem.Endpoints.Admin.{
  AgentKeyCreate, check_creation, finish_creation, create_checked, agent_keys_create,
}
use automem.Endpoints.Admin.Keys.{Leaves, agent_keys_create_cases}

program : Unit {0}
unfolding ◌==◌ elem first update normalize_text clean_strings clean_from require_scope insert_key
    create_agent_key check_creation finish_creation create_checked agent_keys_create
program = tt

abbrev mark : Text → Text
mark t = 35 ∷ t

abbrev root : Auth
root = record {
  actor_type = admin;
  actor_label = none;
  agent_id = none;
  user_id = none;
  project_ids = [];
  scopes = text "admin" ∷ [];
  is_admin = true;
}

abbrev payload : AgentKeyCreate
payload = record {
  agent_id = text "codex";
  label = text "l";
  scopes = text "store" ∷ [];
  user_id = some (text "bob");
  project_ids = [];
  token = none;
}

abbrev call : Result Text × List ApiKey
call = agent_keys_create mark (text "id") (text "rnd") (text "2026") root payload []

answered : call.0 ≡ ok (text "automem-agent-rnd")
unfolding program
answered = refl

empty_table : IsWellKept []
empty_table = record { ids = tt; hashes = tt; bound = tt }

agent_keys_create_cases_example :
    Leaves mark
      (text "id")
      (text "rnd")
      (text "2026")
      (text "root")
      (text "now")
      payload
      []
      call.0
      call.1
agent_keys_create_cases_example =
    agent_keys_create_cases mark (text "id") (text "rnd") (text "2026") (text "root") (text "now")
      payload [] root empty_table
