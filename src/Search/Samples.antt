-- ===== src/Search/Samples.antt =====
-- A small cache to search in. The scores are numbers in hundredths.
use automem.Common.{subst, ℕ, ◌≡◌, false, leb, none, some, List, [], ◌∷◌, All, arith}
use automem.Common.Sorting.{IsOrder}
use automem.Text.{Text, text, contains}
use automem.Http.{ok}
use automem.Metadata.{Filters, no_filters, no_metadata}
use automem.Cache.{CacheRow}
use automem.Cache.Rows.{Owner}
use automem.Search.{Patterns, Profile, Numbers, Hit, SearchQuery, no_topic}
use automem.Search.Hybrid.{Index, Tables}

abbrev pub patterns : Patterns
patterns = record {
  topic_of = λ t. no_topic;
  extract_task_lookup_subject = λ t. t;
  split_sentences = λ t. t ∷ [];
  task_tokens = λ t. t ∷ [];
  fts_match = λ tokens row. false;
  text_like = λ variant memory. contains memory variant;
}

abbrev pub numbers : Numbers ℕ
numbers = record {
  at_most = leb;
  nought = 0;
  ratio = λ a b. a;
  containing_score = 65;
  task_score = 72;
}

pub leb-IsOrder : IsOrder leb
leb-IsOrder = record {
  total = λ a b e. ground (arith, e);
  trans = λ a b c h k. ground (arith, h, k);
}

abbrev pub score : Profile → Text → Hit ℕ → ℕ
score profile query hit = hit.score

abbrev pub row : Text → Text → Text → CacheRow
row id user memory = record {
  memory_id = id;
  user_id = some user;
  run_id = none;
  agent_id = none;
  source_agent = none;
  domain = some (text "long_term");
  category = some (text "preference");
  project_id = none;
  task_id = none;
  fact_key = none;
  fact_status = text "active";
  valid_from = none;
  valid_to = none;
  supersedes = [];
  superseded_by = none;
  conflict_status = none;
  review_status = none;
  memory = memory;
  created_at = text "2026";
  updated_at = text "2026";
}

abbrev pub tables : Tables
tables = record {
  cache =
      row (text "a") (text "ann") (text "tabs")
      ∷ row (text "b") (text "ann") (text "Tabs")
      ∷ row (text "c") (text "bob") (text "tabs")
      ∷ [];
  tasks = [];
}

abbrev pub remembered : Hit ℕ
remembered = record {
  id = text "d";
  owner = record { user_id = some (text "ann"); run_id = none; agent_id = none };
  memory = text "no spaces";
  created_at = none;
  metadata = record no_metadata { domain = some (text "long_term") };
  score = 80;
  matched_by = [];
  matched_fields = [];
  matched_terms = [];
  status = [];
}

-- It returns one memory of the user that it is asked for.
abbrev pub index : Index ℕ (Unit {0})
index = record {
  search = λ query owner filters s. (
    ok (record remembered { owner = record remembered.owner { user_id = owner.user_id } } ∷ []),
    s,
  );
}

abbrev pub q : SearchQuery
q = record {
  query = text "tabs";
  owner = record { user_id = some (text "ann"); run_id = none; agent_id = none };
  filters = no_filters;
  limit = 5;
  include_history = false;
}

pub index_own :
    (query : Text) (owner : Owner) (filters : Filters) (found : List (Hit ℕ)) (s s' : Unit {0})
    → index.search query owner filters s ≡ (ok found, s')
    → All (λ (hit : Hit ℕ). (u : Text) → owner.user_id ≡ some u → hit.owner.user_id ≡ some u) found
index_own query owner filters found s s' e =
    let same : record remembered { owner = record remembered.owner { user_id = owner.user_id } }
          ∷ []
        ≡ found =
      cc in
    subst (All (λ (hit : Hit ℕ). (u : Text) → owner.user_id ≡ some u → hit.owner.user_id ≡ some u))
      same (λ u k. k, tt)
