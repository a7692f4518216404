-- ===== src/Services.antt =====
-- backend/services.py: what stores memories in mem0 and mirrors them in `memory_cache`. The mem0 backend,
-- its state, and the decision on a text (`govern_memory_text`) are parameters.
pub mod Flow
pub mod Archive
pub mod Rebuild
pub mod Classify
pub mod Store
pub mod Verdicts
pub mod Owned
pub mod Refresh
mod Tests
use automem.Common.{Bool, Option, List}
use automem.Text.{Text}
use automem.Http.{Result}
use automem.Metadata.{Metadata}
use automem.Cache.{CacheRow}
use automem.Cache.Rows.{Owner}

-- A memory as mem0 returns it. `memory` is `item.get("memory") or item.get("text")`.
pub record Item : Type 0 where
  pub id : Option Text
  pub memory : Option Text
  pub owner : Owner
  pub metadata : Metadata
  pub created_at : Option Text

-- `memory_backend`, whose state is of the type `S`. `add` answers with `_extract_memory_id` of what mem0
-- returns, and `get` with none for what is no dictionary.
pub record Backend (S : Type 0) : Type 0 where
  pub add : (memory : Text) → Owner → Metadata → (infer : Bool) → S → Result (Option Text) × S
  pub get : (memory_id : Text) → S → Result (Option Item) × S
  pub remove : (memory_id : Text) → S → Result (Unit {0}) × S
  pub get_all : Owner → S → Result (List Item) × S

-- The two places where a memory is held.
pub record Memories (S : Type 0) : Type 0 where
  pub cache : List CacheRow
  pub held : S
