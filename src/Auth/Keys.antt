-- ===== src/Auth/Keys.antt =====
-- backend/agent_keys.py: the table `api_keys`. Its columns `project_ids_json` and `scopes_json` are
-- held as the lists that they encode. `hash_token` is a parameter: SHA-256 in the program.
use automem.Common.{
  map, sort_by, ℕ, Bool, not, ◌&&◌, ◌||◌, Option, none, some, List, [], ◌∷◌, ◌++◌, ◌+◌,
  if◌then◌else◌, first,
}
use automem.Text.{text_lt, Text, text, ◌==◌, elem, truthy, or_else, or_empty}
use automem.Http.{Result, ok, err, ◌>>=◌, ◌>>◌, raise_if, key_needs_user, integrity_error}
use automem.Text.Strings.{clean_strings}

pub record ApiKey : Type 0 where
  pub key_id : Text
  pub token_hash : Text
  pub label : Text
  pub agent_id : Option Text
  pub user_id : Option Text
  pub project_ids : List Text
  pub scopes : List Text
  pub status : Text
  pub created_at : Text
  pub last_used_at : Option Text

-- An object of `AGENT_KEYS_JSON`; the keys that it lacks are `none` or empty.
pub record SeedItem : Type 0 where
  pub key_id : Option Text
  pub token : Option Text
  pub label : Option Text
  pub agent_id : Option Text
  pub user_id : Option Text
  pub project_ids : List Text
  pub scopes : List Text

-- The environment variable `AGENT_KEYS_JSON` after `json.loads`. An entry of the list that is no
-- object is `none`.
pub data Bootstrap : Type 0 where
  blank malformed not_a_list : Bootstrap
  items : List (Option SeedItem) → Bootstrap

-- A row that breaks the primary key or the UNIQUE column of the new row.
abbrev pub clashes : ApiKey → ApiKey → Bool
clashes key row = (row.key_id == key.key_id) || (row.token_hash == key.token_hash)

unfoldable pub insert_key : ApiKey → List ApiKey → Result (List ApiKey)
insert_key key table = elim (first (clashes key) table) [
  | none ↦ ok (table ++ key ∷ [])
  | some row ↦ err integrity_error
]

-- INSERT OR IGNORE
unfoldable pub insert_or_ignore : ApiKey → List ApiKey → List ApiKey
insert_or_ignore key table = elim (first (clashes key) table) [
  | none ↦ table ++ key ∷ []
  | some row ↦ table
]

-- `"admin" not in scopes and not user_id`
abbrev pub unbound : List Text → Option Text → Bool
unbound scopes user_id = not (elem (text "admin") scopes) && not (truthy user_id)

module _ (hash_token : Text → Text) where
  -- The row of one item; `suffix` is the random part of a key id that the item does not give.
  abbrev pub seed_row : Text → Text → SeedItem → ApiKey
  seed_row suffix now item = record {
    key_id = or_empty (
        or_else item.key_id (some (text "key_" ++ or_empty (or_else item.agent_id (some suffix)))));
    token_hash = hash_token (or_empty item.token);
    label = or_empty (or_else item.label (or_else item.agent_id (some (text "agent"))));
    agent_id = item.agent_id;
    user_id = item.user_id;
    project_ids = clean_strings item.project_ids;
    scopes = item.scopes;
    status = text "active";
    created_at = now;
    last_used_at = none;
  }

  -- The body of the loop of `seed_agent_keys`.
  unfoldable pub seed_item : Text → Text → Option SeedItem → List ApiKey → List ApiKey
  seed_item suffix now none table = table
  seed_item suffix now (some item) table =
      if not (truthy item.token)
      then table
      else if unbound item.scopes item.user_id
      then table
      else insert_or_ignore (seed_row suffix now item) table

  -- `suffix n` is the random part drawn for the n-th item.
  unfoldable pub seed_items :
      (ℕ → Text) → ℕ → Text → List (Option SeedItem) → List ApiKey → List ApiKey
  seed_items suffix n now [] table = table
  seed_items suffix n now (item ∷ rest) table =
      seed_items suffix (n + 1) now rest (seed_item (suffix n) now item table)

  unfoldable pub seed_agent_keys : (ℕ → Text) → Text → Bootstrap → List ApiKey → List ApiKey
  seed_agent_keys suffix now blank table = table
  seed_agent_keys suffix now malformed table = table
  seed_agent_keys suffix now not_a_list table = table
  seed_agent_keys suffix now (items list) table = seed_items suffix 0 now list table

  abbrev pub new_token : Text → Option Text → Text
  new_token random_token token =
      or_empty (or_else token (some (text "automem-agent-" ++ random_token)))

  abbrev pub new_key :
      Text → Text → Text → Text → Text → List Text → Option Text → List Text → Option Text → ApiKey
  new_key random_id random_token now agent_id label scopes user_id project_ids token = record {
    key_id = text "key_" ++ (agent_id ++ (text "_" ++ random_id));
    token_hash = hash_token (new_token random_token token);
    label = label;
    agent_id = some agent_id;
    user_id = user_id;
    project_ids = clean_strings project_ids;
    scopes = scopes;
    status = text "active";
    created_at = now;
    last_used_at = none;
  }

  -- `create_agent_key`. The two random parts are arguments; the token is returned beside the table.
  unfoldable pub create_agent_key :
      Text
      → Text
      → Text
      → Text
      → Text
      → List Text
      → Option Text
      → List Text
      → Option Text
      → List ApiKey
      → Result (Text × List ApiKey)
  create_agent_key random_id random_token now agent_id label scopes user_id project_ids token
        table =
      do
        raise_if (unbound scopes user_id) key_needs_user
        let key = new_key random_id random_token now agent_id label scopes user_id project_ids token
        table' ← insert_key key table
        ok (new_token random_token token, table')

  -- `fetch_api_key`
  unfoldable pub fetch_api_key : Text → List ApiKey → Option ApiKey
  fetch_api_key token = first (λ row. row.token_hash == hash_token token)

-- A row as `list_api_keys` shows it: without the hash of the token.
pub record KeyView : Type 0 where
  pub key_id : Text
  pub label : Text
  pub agent_id : Option Text
  pub user_id : Option Text
  pub project_ids : List Text
  pub scopes : List Text
  pub status : Text
  pub created_at : Text
  pub last_used_at : Option Text

abbrev pub view_of : ApiKey → KeyView
view_of row = record {
  key_id = row.key_id;
  label = row.label;
  agent_id = row.agent_id;
  user_id = row.user_id;
  project_ids = row.project_ids;
  scopes = row.scopes;
  status = row.status;
  created_at = row.created_at;
  last_used_at = row.last_used_at;
}

-- ORDER BY created_at DESC
unfoldable pub list_api_keys : List ApiKey → List KeyView
list_api_keys table =
    map view_of (sort_by (λ (a b : ApiKey). not (text_lt a.created_at b.created_at)) table)
