-- ===== src/Cache.antt =====
-- backend/memory_cache.py: the table `memory_cache`, which mirrors the memories of mem0, and below it
-- (Facts) the metadata of long-term facts. The column `supersedes_json` is held as the list that it
-- encodes, and a timestamp as its text.
pub mod Facts
pub mod Coherence
pub mod Rows
mod Tests
use automem.Common.{Option, List}
use automem.Text.{Text}

pub record CacheRow : Type 0 where
  pub memory_id : Text
  pub user_id : Option Text
  pub run_id : Option Text
  pub agent_id : Option Text
  pub source_agent : Option Text
  pub domain : Option Text
  pub category : Option Text
  pub project_id : Option Text
  pub task_id : Option Text
  pub fact_key : Option Text
  pub fact_status : Text
  pub valid_from : Option Text
  pub valid_to : Option Text
  pub supersedes : List Text
  pub superseded_by : Option Text
  pub conflict_status : Option Text
  pub review_status : Option Text
  pub memory : Text
  pub created_at : Text
  pub updated_at : Text
