-- ===== src/Metadata.antt =====
-- The dictionaries `metadata` of a memory and `filters` of a search, with the keys that the program
-- reads or writes. A key that is absent and a key that holds `None` are both `none`: the program reads
-- them by `.get` and treats them alike.
use automem.Common.{Option, none, List, []}
use automem.Text.{Text}

pub record Metadata : Type 0 where
  pub domain : Option Text
  pub category : Option Text
  pub project_id : Option Text
  pub task_id : Option Text
  pub source_agent : Option Text
  pub fact_key : Option Text
  pub status : Option Text
  pub valid_from : Option Text
  pub valid_to : Option Text
  pub supersedes : Option (List Text)
  pub superseded_by : Option Text
  pub conflict_status : Option Text
  pub review_status : Option Text
  pub conflicts_with : Option (List Text)
  -- keys that are carried along
  pub extra : List (Text × Text)

-- `{}`
abbrev pub no_metadata : Metadata
no_metadata = record {
  domain = none;
  category = none;
  project_id = none;
  task_id = none;
  source_agent = none;
  fact_key = none;
  status = none;
  valid_from = none;
  valid_to = none;
  supersedes = none;
  superseded_by = none;
  conflict_status = none;
  review_status = none;
  conflicts_with = none;
  extra = [];
}

pub record Filters : Type 0 where
  pub project_id : Option Text
  pub category : Option Text
  pub domain : Option Text
  pub task_id : Option Text
  pub source_agent : Option Text
  pub status : Option Text

abbrev pub no_filters : Filters
no_filters = record {
  project_id = none;
  category = none;
  domain = none;
  task_id = none;
  source_agent = none;
  status = none;
}
