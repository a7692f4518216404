-- ===== src/Search.antt =====
-- backend/search.py and backend/search_pipeline.py. Queries reads a query, Candidates collects what is found,
-- Rank orders it, and Hybrid is the search. Regular expressions, the full-text index, mem0 and the numbers
-- of the scores are parameters. Sets are held as lists without repetition.
pub mod Queries
mod Scopes
pub mod Candidates
pub mod Rank
pub mod Sources
pub mod Hybrid
mod Merging
pub mod Ranking
mod Collected
mod Answers
pub mod Bounds
pub mod Within
pub mod Isolation
pub mod Samples
mod Tests
use automem.Common.{ℕ, Bool, Option, List}
use automem.Text.{Text}
use automem.Metadata.{Metadata, Filters}
use automem.Cache.{CacheRow}
use automem.Cache.Rows.{Owner}
use automem.Services.{Item}

-- What the patterns of `classify_query_intent` find in a query, in the order in which they are tried.
pub data Topic : Type 0 where
  name role language style company task_progress no_topic : Topic

pub data Intent : Type 0 where
  identity_lookup preference_lookup company_lookup task_lookup generic_memory_search : Intent

pub data Focus : Type 0 where
  on_name on_role on_language on_style on_company on_task general : Focus

-- The regular expressions, and what SQLite answers to MATCH and LIKE.
pub record Patterns : Type 0 where
  pub topic_of : Text → Topic
  pub extract_task_lookup_subject : Text → Text
  pub split_sentences : Text → List Text
  pub task_tokens : Text → List Text
  pub fts_match : (tokens : List Text) → CacheRow → Bool
  pub text_like : (variant memory : Text) → Bool

-- What `classify_query_intent` returns.
pub record Profile : Type 0 where
  pub intent : Intent
  pub focus : Focus
  pub effective_domain : Text
  pub task_subject : Text
  pub preferred_categories : List Text
  pub penalized_categories : List Text
  pub query_variants : List Text

-- The floating-point numbers: `at_most` is `<=`, `ratio` a quotient, and two constants.
pub record Numbers (N : Type 0) : Type 0 where
  pub at_most : N → N → Bool
  pub nought : N
  pub ratio : ℕ → ℕ → N
  pub containing_score : N
  pub task_score : N

-- An item with its score. `_matched_by` and so on are empty before the item is merged.
pub record Hit (N : Type 0) : Type 0 where
  pub id : Text
  pub owner : Owner
  pub memory : Text
  pub created_at : Option Text
  pub metadata : Metadata
  pub score : N
  pub matched_by : List Text
  pub matched_fields : List Text
  pub matched_terms : List Text
  pub status : Text

-- The arguments of `hybrid_search`.
pub record SearchQuery : Type 0 where
  pub query : Text
  pub owner : Owner
  pub filters : Filters
  pub limit : ℕ
  pub include_history : Bool
