-- ===== src/Search/Queries.antt =====
-- `classify_query_intent`, `build_vector_query` and `is_history_query`.
use automem.Common.{Bool, false, not, List, [], ◌∷◌, ◌++◌, Option, if◌then◌else◌, map, select}
use automem.Text.{Text, text, ◌==◌, elem, lower, is_empty, truthy, or_empty}
use automem.Text.Normalize.{normalize_text}
use automem.Cache.Facts.{contains_any}
use automem.Metadata.{Filters}
use automem.Search.{
  Topic, name, role, language, style, company, task_progress, no_topic, Intent, identity_lookup,
  preference_lookup, company_lookup, task_lookup, generic_memory_search, Focus, on_name, on_role,
  on_language, on_style, on_company, on_task, general, Patterns, Profile,
}

abbrev history_words : List Text
history_words =
    text "历史"
    ∷ text "之前"
    ∷ text "以前"
    ∷ text "曾经"
    ∷ text "原来"
    ∷ text "旧版本"
    ∷ text "旧记录"
    ∷ text "history"
    ∷ text "historical"
    ∷ text "previous"
    ∷ text "earlier"
    ∷ text "former"
    ∷ []

unfoldable pub is_history_query : Text → Bool
is_history_query query =
    let normalized = lower (normalize_text query) in
    if is_empty normalized then false else contains_any normalized history_words

-- LONG_TERM_USER_CATEGORIES
abbrev pub long_term_user : List Text
long_term_user = text "user_profile" ∷ text "preference" ∷ []

-- LONG_TERM_PROJECT_CATEGORIES
abbrev pub long_term_project : List Text
long_term_project = text "project_context" ∷ text "project_rule" ∷ text "architecture_decision" ∷ []

-- TASK_CATEGORIES
abbrev pub task_categories : List Text
task_categories = text "handoff" ∷ text "progress" ∷ text "blocker" ∷ text "next_action" ∷ []

abbrev pub is_task_domain : Option Text → Bool
is_task_domain domain = or_empty domain == text "task"

-- The intent and the focus of a topic.
unfoldable pub intent_of : Topic → Intent × Focus
intent_of name = (identity_lookup, on_name)
intent_of role = (identity_lookup, on_role)
intent_of language = (preference_lookup, on_language)
intent_of style = (preference_lookup, on_style)
intent_of company = (company_lookup, on_company)
intent_of task_progress = (task_lookup, on_task)
intent_of no_topic = (generic_memory_search, general)

unfoldable pub domain_of : Intent → Option Text → Text
domain_of intent explicit =
    if truthy explicit
    then or_empty explicit
    else elim intent [ task_lookup ↦ text "task" | _ ↦ text "long_term" ]

unfoldable pub preferred_of : Intent → List Text
preferred_of identity_lookup = text "user_profile" ∷ []
preferred_of preference_lookup = text "preference" ∷ []
preferred_of company_lookup = text "project_context" ∷ []
preferred_of task_lookup = task_categories
preferred_of generic_memory_search = long_term_user ++ long_term_project

unfoldable pub penalized_of : Intent → List Text
penalized_of task_lookup = long_term_user ++ long_term_project
penalized_of generic_memory_search = []
penalized_of _ = task_categories

abbrev language_terms : List Text
language_terms =
    text "中文"
    ∷ text "英文"
    ∷ text "语言"
    ∷ text "沟通"
    ∷ text "language"
    ∷ text "communicate"
    ∷ text "chinese"
    ∷ text "english"
    ∷ []

abbrev style_terms : List Text
style_terms =
    text "偏好"
    ∷ text "总结"
    ∷ text "风格"
    ∷ text "简洁"
    ∷ text "直接"
    ∷ text "preference"
    ∷ text "style"
    ∷ text "summary"
    ∷ text "concise"
    ∷ text "direct"
    ∷ []

abbrev name_terms : List Text
name_terms =
    text "姓名"
    ∷ text "名字"
    ∷ text "我叫"
    ∷ text "称呼"
    ∷ text "name"
    ∷ text "user name"
    ∷ text "called"
    ∷ []

abbrev role_terms : List Text
role_terms =
    text "身份"
    ∷ text "角色"
    ∷ text "role"
    ∷ text "title"
    ∷ text "ceo"
    ∷ text "cto"
    ∷ text "创始人"
    ∷ text "负责人"
    ∷ []

abbrev company_terms : List Text
company_terms =
    text "公司"
    ∷ text "example"
    ∷ text "项目"
    ∷ text "团队"
    ∷ text "组织"
    ∷ text "企业"
    ∷ text "company"
    ∷ text "organization"
    ∷ text "team"
    ∷ []

abbrev task_terms : List Text
task_terms =
    text "下一步"
    ∷ text "任务"
    ∷ text "进展"
    ∷ text "阻塞"
    ∷ text "handoff"
    ∷ text "blocker"
    ∷ text "next"
    ∷ text "todo"
    ∷ []

-- `split_sentences(task_subject) or [task_subject]`, if there is a subject.
unfoldable pub subject_terms : Patterns → Text → List Text
subject_terms patterns [] = []
subject_terms patterns (c ∷ s) = elim (patterns.split_sentences (c ∷ s)) [
  | [] ↦ (c ∷ s) ∷ []
  | part ∷ parts ↦ part ∷ parts
]

unfoldable pub exact_terms : Patterns → Intent → Focus → Text → List Text
exact_terms patterns identity_lookup on_name subject = name_terms
exact_terms patterns identity_lookup on_role subject = role_terms
exact_terms patterns preference_lookup on_language subject = language_terms
exact_terms patterns preference_lookup _ subject = style_terms
exact_terms patterns company_lookup _ subject = company_terms
exact_terms patterns task_lookup _ subject = task_terms ++ subject_terms patterns subject
exact_terms patterns _ _ subject = []

-- `query_variants.extend(term for term in exact_terms if term not in query_variants)`, which draws the terms
-- one by one.
unfoldable pub extend_variants : List Text → List Text → List Text
extend_variants variants [] = variants
extend_variants variants (term ∷ terms) =
    extend_variants (if elem term variants then variants else variants ++ term ∷ []) terms

module _ (patterns : Patterns) where
  unfoldable pub profile_of : Text → Option Text → (Intent × Focus) → Text → Profile
  profile_of query explicit (intent, focus) subject = record {
    intent = intent;
    focus = focus;
    effective_domain = domain_of intent explicit;
    task_subject = subject;
    preferred_categories = preferred_of intent;
    penalized_categories = penalized_of intent;
    query_variants =
        select (λ variant. not (is_empty variant))
          (extend_variants (normalize_text query ∷ []) (exact_terms patterns intent focus subject));
  }

  unfoldable pub topic_profile : Text → Option Text → Topic → Profile
  topic_profile query explicit task_progress =
      profile_of query explicit (intent_of task_progress)
        (patterns.extract_task_lookup_subject query)
  topic_profile query explicit topic = profile_of query explicit (intent_of topic) []

  unfoldable pub classify_query_intent : Text → Filters → Profile
  classify_query_intent query filters =
      if is_task_domain filters.domain
      then profile_of query filters.domain (task_lookup, on_task) []
      else topic_profile query filters.domain (patterns.topic_of (lower (normalize_text query)))

-- What the intent adds to the query for mem0.
unfoldable pub intent_phrases : Profile → List Text
intent_phrases profile = elim profile.intent [
  | identity_lookup ↦ text "user profile" ∷ (elim profile.focus [
    | on_name ↦ text "姓名 名字 我叫 称呼" ∷ text "name user name called" ∷ []
    | on_role ↦ text "身份 角色 CEO 创始人" ∷ text "role title CEO founder" ∷ []
    | _ ↦ []
  ])
  | preference_lookup ↦ text "user preference" ∷ (elim profile.focus [
    | on_language ↦ text "中文 英文 语言 沟通" ∷ text "language communicate chinese english" ∷ []
    | _ ↦ text "偏好 总结 风格 简洁 直接" ∷ text "preference summary style concise direct" ∷ []
  ])
  | company_lookup ↦
      text "project context"
      ∷ text "公司 团队 项目背景"
      ∷ text "company team organization project context"
      ∷ []
  | task_lookup ↦
      text "task progress next action"
      ∷ text "下一步 任务 进展 阻塞"
      ∷ (if is_empty profile.task_subject then [] else profile.task_subject ∷ [])
  | generic_memory_search ↦ []
]

-- `add`: the first of the values that are equal in lower case stays.
unfoldable pub without_repeats : (seen : List Text) → List Text → List Text
without_repeats seen [] = []
without_repeats seen (value ∷ values) =
    let fresh = without_repeats (lower value ∷ seen) values in
    let repeated = without_repeats seen values in
    if elem (lower value) seen then repeated else value ∷ fresh

-- `" ".join(ordered)`
unfoldable pub join_words : List Text → Text
join_words [] = []
join_words (word ∷ []) = word
join_words (word ∷ next ∷ words) = word ++ (32 ∷ join_words (next ∷ words))

abbrev nonempty_normalized : List Text → List Text
nonempty_normalized values = select (λ value. not (is_empty value)) (map normalize_text values)

unfoldable pub build_vector_query : Text → Profile → Text
build_vector_query query profile = join_words (
    without_repeats [] (
      nonempty_normalized (query ∷ [])
      ++ (intent_phrases profile ++ nonempty_normalized profile.query_variants)))
