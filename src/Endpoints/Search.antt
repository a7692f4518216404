-- ===== src/Endpoints/Search.antt =====
-- The endpoint `search` of backend/routers/memories.py.
pub mod Owned
mod Tests
use automem.Common.{ℕ, Bool, Option, none, some, List, [], ◌∷◌, map, take}
use automem.Text.{Text, text}
use automem.Http.{Result, ok, err, ◌>>=◌, ◌>>◌}
use automem.Metadata.{Filters}
use automem.Audit.{AuditEvent, write_audit}
use automem.Auth.{
  Auth, require_scope, enforce_user_identity, enforce_project_identity,
  merge_project_id_into_filters,
}
use automem.Cache.Rows.{Owner}
use automem.Search.{Patterns, Profile, Numbers, Hit, SearchQuery}
use automem.Search.Candidates.{SearchResult}
use automem.Search.Hybrid.{Index, Tables, SearchMeta, SearchReply, hybrid_search}
use automem.Endpoints.Memories.{Stamp, event_of}

-- The body of `POST /v1/search`.
pub record SearchRequest : Type 0 where
  pub query : Text
  pub user_id : Option Text
  pub run_id : Option Text
  pub agent_id : Option Text
  pub project_id : Option Text
  pub filters : Filters
  pub limit : ℕ
  pub include_history : Bool

pub record TopMatch : Type 0 where
  pub source_memory_id : Text
  pub matched_by : List Text
  pub matched_fields : List Text
  pub status : Text

-- The detail of the event.
pub record SearchDetail : Type 0 where
  pub query : Text
  pub meta : SearchMeta
  pub top_matches : List TopMatch

unfoldable pub top_match : {N : Type 0} → SearchResult N → TopMatch
top_match result = record {
  source_memory_id = result.source_memory_id;
  matched_by = result.matched_by;
  matched_fields = result.matched_fields;
  status = result.status;
}

-- The part before the search: what is searched, and for whom.
unfoldable pub check_search : Auth → SearchRequest → Result SearchQuery
check_search auth payload = do
  require_scope auth (text "search")
  user_id ← enforce_user_identity auth payload.user_id
  project_id ← enforce_project_identity auth payload.project_id
  filters ← merge_project_id_into_filters project_id payload.filters
  ok (record {
    query = payload.query;
    owner = record { user_id = user_id; run_id = payload.run_id; agent_id = payload.agent_id };
    filters = filters;
    limit = payload.limit;
    include_history = payload.include_history;
  })

-- What the endpoint works on.
pub record SearchServer (S : Type 0) : Type 0 where
  pub tables : Tables
  pub held : S
  pub audit : List (AuditEvent SearchDetail)

module _ {N S : Type 0} (patterns : Patterns) (numbers : Numbers N)
    (final_score : Profile → Text → Hit N → N) (index : Index N S) (stamp : Stamp) where
  -- A reply is logged, and an exception is not.
  unfoldable pub log_search :
      Auth
      → SearchQuery
      → Result (SearchReply N) × S
      → SearchServer S
      → Result (SearchReply N) × SearchServer S
  log_search auth q (err e, held) w = (err e, record w { held = held })
  log_search auth q (ok reply, held) w = (
    ok reply,
    record w {
      held = held;
      audit =
          write_audit
            (event_of stamp auth auth.agent_id (text "search") q.owner.user_id q.filters.project_id
              none
              (record {
                query = q.query;
                meta = reply.meta;
                top_matches = map top_match (take 5 reply.results);
              }))
            w.audit;
    },
  )

  unfoldable pub search_memories :
      Auth → SearchRequest → SearchServer S → Result (SearchReply N) × SearchServer S
  search_memories auth payload w = elim (check_search auth payload) [
    | err e ↦ (err e, w)
    | ok q ↦
        log_search auth q (hybrid_search patterns numbers final_score index w.tables q w.held) w
  ]
