-- ===== src/Auth/Tests.antt =====
-- A table with two keys, and the theorems at it. `hash_token` is a function that marks its argument.
use automem.Common.{
  ◌≡◌, ◌≢◌, refl, ◌⊎◌, true, false, none, some, List, [], ◌∷◌, first, update, select,
}
use automem.Text.{is_ascii, Text, text, ◌==◌, elem, truthy, lower}
use automem.Text.Normalize.{normalize_text}
use automem.Text.Strings.{clean_from, clean_strings}
use automem.Http.{Result, ok, err, key_without_user, metadata_conflict}
use automem.Auth.{
  Auth, agent_key, require_scope, enforce_user_identity, enforce_project_identity,
  normalize_project_ids, choose_project, merge_project_id_into_metadata, ensure_task_row_access,
  ensure_memory_item_access,
}
use automem.Auth.Keys.{
  ApiKey, SeedItem, items, seed_agent_keys, seed_items, seed_item, insert_or_ignore, insert_key,
  create_agent_key, new_key, fetch_api_key,
}
use automem.Auth.Verify.{
  compare_digest, is_admin_key, verify_row, verify_api_key, touch_api_key, admit, auth_of_key,
  has_usable_api_keys, like_admin,
}
use automem.Auth.Sessions.{Grants, verify_api_key-ok, session_acts_for_key_user}
use automem.Auth.KeyTable.{IsWellKept, seed_agent_keys-IsWellKept, verify-create_agent_key}

program : Unit {0}
unfolding first update select ◌==◌ elem lower normalize_text clean_strings clean_from require_scope
    enforce_user_identity enforce_project_identity normalize_project_ids choose_project
    merge_project_id_into_metadata ensure_task_row_access ensure_memory_item_access seed_agent_keys
    seed_items seed_item insert_or_ignore insert_key create_agent_key fetch_api_key verify_api_key
    touch_api_key admit verify_row is_admin_key compare_digest is_ascii has_usable_api_keys
    like_admin
program = tt

abbrev mark : Text → Text
mark t = b'#' ∷ t

abbrev item : SeedItem
item = record {
  key_id = some (text "k1");
  token = some (text "t1");
  label = none;
  agent_id = some (text "codex");
  user_id = some (text "ann");
  project_ids = text " p  1 " ∷ text "p 1" ∷ [];
  scopes = text "search" ∷ [];
}

abbrev seeded : List ApiKey
seeded = seed_agent_keys mark (λ n. text "x") (text "2026") (items (some item ∷ none ∷ [])) []

abbrev ann : Auth
ann = record {
  actor_type = agent_key;
  actor_label = some (text "codex");
  agent_id = some (text "codex");
  user_id = some (text "ann");
  project_ids = text "p 1" ∷ [];
  scopes = text "search" ∷ [];
  is_admin = false;
}

ann_let_in : (verify_api_key mark (text "root") (text "now") (some (text "t1")) seeded).0 ≡ ok ann
unfolding program
ann_let_in = refl

stranger_refused : enforce_user_identity ann (some (text "bob")) ≡ err automem.Http.user_mismatch
unfolding program
stranger_refused = refl

ann_project : enforce_project_identity ann none ≡ ok (some (text "p 1"))
unfolding program
ann_project = refl

usable : has_usable_api_keys seeded ≡ true
unfolding program
usable = refl

session_acts_for_key_user_example :
    (key : ApiKey) × (fetch_api_key mark (text "t1") seeded ≡ some key)
    × (key.status ≡ text "active")
    × (some (text "ann") ≡ key.user_id)
    × (truthy (some (text "ann")) ≡ true)
session_acts_for_key_user_example =
    session_acts_for_key_user mark (text "root") (text "now") (text "t1") seeded ann none
      (some (text "ann")) ann_let_in refl (unfold program in refl)

verify_api_key-ok_example :
    (text "t1" ≡ text "root")
      × (truthy (some (text "root")) ≡ true)
      × (ann ≡ automem.Auth.Verify.admin_auth)
    ⊎ Grants mark (text "t1") seeded ann
verify_api_key-ok_example =
    verify_api_key-ok mark (text "root") (text "now") (text "t1") seeded ann ann_let_in

empty-IsWellKept : IsWellKept []
empty-IsWellKept = record { ids = tt; hashes = tt; bound = tt }

seed_agent_keys-IsWellKept_example : IsWellKept seeded
seed_agent_keys-IsWellKept_example =
    seed_agent_keys-IsWellKept mark (λ n. text "x") (text "2026") (items (some item ∷ none ∷ [])) []
      empty-IsWellKept

abbrev created : List ApiKey
created =
    new_key mark (text "id") (text "rnd") (text "2026") (text "codex") (text "l")
      (text "store" ∷ []) (some (text "bob")) [] none
    ∷ []

abbrev created_token : Text
created_token = text "automem-agent-rnd"

creation :
    create_agent_key mark
      (text "id")
      (text "rnd")
      (text "2026")
      (text "codex")
      (text "l")
      (text "store" ∷ [])
      (some (text "bob"))
      []
      none
      []
    ≡ ok (created_token, created)
unfolding program
creation = refl

not_root : created_token ≢ text "root"
not_root e = cc

verify-create_agent_key_example :
    (auth : Auth) × ((verify_api_key mark (text "root") (text "now") (some created_token) created).0
      ≡ ok auth)
    × (auth.user_id ≡ some (text "bob"))
    × (auth.scopes ≡ text "store" ∷ [])
    × (auth.is_admin ≡ elem (text "admin") (text "store" ∷ []))
verify-create_agent_key_example =
    verify-create_agent_key mark (text "id") (text "rnd") (text "2026") (text "codex") (text "l")
      (text "store" ∷ []) (some (text "bob")) [] none [] (text "root") (text "now") created_token
      created creation not_root (λ _. (unfold is_ascii in refl, unfold is_ascii in refl))
