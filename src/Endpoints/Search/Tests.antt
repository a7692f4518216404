-- ===== src/Endpoints/Search/Tests.antt =====
-- A search by a key of one user.
use automem.Common.{ℕ, ◌≡◌, refl, false, none, some, [], ◌∷◌, All}
use automem.Text.{text, ◌==◌, elem}
use automem.Text.Normalize.{normalize_text}
use automem.Text.Strings.{clean_strings, clean_from}
use automem.Http.{ok}
use automem.Metadata.{no_filters}
use automem.Auth.{
  Auth, agent_key, require_scope, enforce_user_identity, enforce_project_identity, choose_project,
  normalize_project_ids, merge_project_id_into_filters,
}
use automem.Search.Samples.{patterns, numbers, score, tables, remembered, index, q, index_own}
use automem.Search.Bounds.{hits_of}
use automem.Search.Within.{profile_for}
use automem.Search.Hybrid.{SearchReply, answer, hybrid_search, has_identity_scope, is_given}
use automem.Endpoints.Memories.{Stamp}
use automem.Endpoints.Search.{
  SearchRequest, SearchServer, check_search, log_search, search_memories,
}
use automem.Endpoints.Search.Owned.{IsVisible, search_memories-IsVisible}

abbrev key : Auth
key = record {
  actor_type = agent_key;
  actor_label = none;
  agent_id = some (text "codex");
  user_id = some (text "ann");
  project_ids = [];
  scopes = text "search" ∷ [];
  is_admin = false;
}

abbrev request : SearchRequest
request = record {
  query = text "tabs";
  user_id = none;
  run_id = none;
  agent_id = none;
  project_id = none;
  filters = no_filters;
  limit = 5;
  include_history = false;
}

abbrev stamp : Stamp
stamp = record { event_id = text "e"; created_at = 1 }

abbrev server : SearchServer (Unit {0})
server = record { tables = tables; held = tt; audit = [] }

abbrev reply : SearchReply ℕ
reply = answer patterns numbers score q (profile_for patterns q) tables (remembered ∷ [])

answered : (search_memories patterns numbers score index stamp key request server).0 ≡ ok reply
unfolding search_memories log_search check_search require_scope elem ◌==◌ enforce_user_identity
    enforce_project_identity choose_project normalize_project_ids clean_strings clean_from
    merge_project_id_into_filters normalize_text hybrid_search has_identity_scope is_given
answered = refl

search_memories-IsVisible_example : All (IsVisible key) (hits_of reply)
search_memories-IsVisible_example =
    search_memories-IsVisible patterns numbers score index stamp key request server reply refl
      index_own answered
