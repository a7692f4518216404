-- ===== src/Search/Scopes.antt =====
-- `classify_legacy_memory_scope` and `choose_mixed_scope_answer_roles` of backend/search.py.
mod Tests
use automem.Common.{
  arith, Bool, true, false, not, ◌&&◌, ◌||◌, Option, List, [], ◌∷◌, if◌then◌else◌, ◌≡◌, refl,
  Bool-cases, inl, inr,
}
use automem.Text.{Text, text, ◌==◌, elem, lower, is_empty, or_empty, starts_with}
use automem.Text.Normalize.{normalize_text}
use automem.Metadata.{Metadata}
use automem.Cache.Facts.{contains_any}
use automem.Search.Queries.{long_term_user, long_term_project, task_categories}

abbrev current_state_words : List Text
current_state_words =
    text "当前"
    ∷ text "现在"
    ∷ text "最近"
    ∷ text "本周"
    ∷ text "这周"
    ∷ text "下一步"
    ∷ text "接下来"
    ∷ text "进展"
    ∷ text "阻塞"
    ∷ text "handoff"
    ∷ text "blocker"
    ∷ text "workflow"
    ∷ text "正在"
    ∷ text "联调"
    ∷ text "执行状态"
    ∷ text "工作重心"
    ∷ text "主要在做"
    ∷ []

unfoldable looks_project_current_state_text : Text → Bool
looks_project_current_state_text memory =
    let normalized = lower (normalize_text memory) in
    if is_empty normalized then false else contains_any normalized current_state_words

abbrev stable_words : List Text
stable_words =
    text "核心目标"
    ∷ text "长期约束"
    ∷ text "稳定约束"
    ∷ text "长期决策"
    ∷ text "长期边界"
    ∷ text "项目背景"
    ∷ text "项目概述"
    ∷ text "项目地图"
    ∷ text "识别信息"
    ∷ text "身份是"
    ∷ text "姓名是"
    ∷ text "名字是"
    ∷ text "偏好使用"
    ∷ []

-- The first two alternatives of the pattern stand at the beginning.
unfoldable looks_stable_or_index_text : Text → Bool
looks_stable_or_index_text memory =
    let normalized = lower (normalize_text memory) in
    if is_empty normalized
    then false
    else starts_with normalized (text "公司是")
      || (starts_with normalized (text "项目是") || contains_any normalized stable_words)

data MemoryScope : Type 0 where
  project user_global migration_review : MemoryScope

-- `{"scope": …, "reason": …}`
record ScopeVerdict : Type 0 where
  scope : MemoryScope
  reason : Text

abbrev verdict : MemoryScope → Text → ScopeVerdict
verdict scope reason = record { scope = scope; reason = reason }

-- A field of the metadata as text, where `None` and the empty text are one.
abbrev normalized_field : Option Text → Text
normalized_field value = normalize_text (or_empty value)

-- Behind the conditions on the project, the task and the run.
unfoldable scope_by_meaning : (memory category : Text) → (clustered_project : Bool) → ScopeVerdict
scope_by_meaning memory category clustered_project =
    if elem category long_term_user
    then verdict user_global (text "semantic:user_category")
    else if elem category long_term_project && looks_project_current_state_text memory
    then verdict project (text "semantic:project_current_state")
    else if elem category long_term_project && looks_stable_or_index_text memory
    then verdict user_global (text "semantic:project_index_or_stable_context")
    else if clustered_project && looks_project_current_state_text memory
    then verdict project (text "aux:project_cluster")
    else if looks_stable_or_index_text memory
    then verdict user_global (text "semantic:stable_or_index_text")
    else if looks_project_current_state_text memory
    then verdict project (text "semantic:current_state_text")
    else verdict migration_review (text "ambiguous")

unfoldable classify_legacy_memory_scope :
    (memory : Text) → Metadata → (run_id : Option Text) → (clustered_project : Bool) → ScopeVerdict
classify_legacy_memory_scope memory meta run_id clustered_project =
    let category = lower (normalized_field meta.category) in
    if not (is_empty (normalized_field meta.project_id))
    then verdict project (text "hard:project_id")
    else if not (is_empty (normalized_field meta.task_id))
        || not (is_empty (normalized_field run_id))
    then verdict project (text "hard:task_or_run_id")
    else if (lower (normalized_field meta.domain) == text "task") || elem category task_categories
    then verdict project (text "hard:task_domain")
    else scope_by_meaning memory category clustered_project

data AnswerRole : Type 0 where
  cross_project_preferences_and_constraints current_project_state : AnswerRole

record AnswerRoles : Type 0 where
  main_scope : MemoryScope
  main_role : AnswerRole
  supporting_scope : MemoryScope
  supporting_role : AnswerRole

-- The first branch of the code and its last return the same.
unfoldable choose_mixed_scope_answer_roles : (intent : Text) → AnswerRoles
choose_mixed_scope_answer_roles intent =
    if intent == text "task_lookup"
    then record {
      main_scope = project;
      main_role = current_project_state;
      supporting_scope = user_global;
      supporting_role = cross_project_preferences_and_constraints;
    }
    else record {
      main_scope = user_global;
      main_role = cross_project_preferences_and_constraints;
      supporting_scope = project;
      supporting_role = current_project_state;
    }

-- A memory that counts as global for its user names no project, no task and no run, whatever its text.
classify_legacy-global :
    (memory : Text) (meta : Metadata) (run_id : Option Text) (clustered_project : Bool)
    → (classify_legacy_memory_scope memory meta run_id clustered_project).scope ≡ user_global
    → (is_empty (normalized_field meta.project_id) ≡ true)
      × ((is_empty (normalized_field meta.task_id) ≡ true)
          × (is_empty (normalized_field run_id) ≡ true))
unfolding classify_legacy_memory_scope
classify_legacy-global memory meta run_id clustered_project e =
    elim (Bool-cases (is_empty (normalized_field meta.project_id))) [
      | inr p ↦ absurd (ground (arith, e, p))
      | inl p ↦ elim (Bool-cases (is_empty (normalized_field meta.task_id))) [
        | inr t ↦ absurd (ground (arith, e, p, t))
        | inl t ↦ elim (Bool-cases (is_empty (normalized_field run_id))) [
          | inr r ↦ absurd (ground (arith, e, p, t, r))
          | inl r ↦ (p, (t, r))
        ]
      ]
    ]
