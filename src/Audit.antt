-- ===== src/Audit.antt =====
-- backend/audit_log.py. The column `detail_json` is held as the value that it encodes, of a type `D`
-- of its own in each use. A timestamp is a number of microseconds.
use automem.Common.{
  ℕ, true, Option, List, [], ◌∷◌, ◌++◌, leb, max, min, if◌then◌else◌, take, select, sort_by,
}
use automem.Text.{Text, ◌==◌, truthy, or_empty}

pub record AuditEvent {ℓ} (D : Type ℓ) : Type ℓ where
  pub event_id : Text
  pub created_at : ℕ
  pub actor_type : Text
  pub actor_label : Option Text
  pub actor_agent_id : Option Text
  pub event_type : Text
  pub user_id : Option Text
  pub project_id : Option Text
  pub task_id : Option Text
  pub route : Option Text
  pub detail : D

-- `max(1, min(limit, 200))`; a negative limit reads as 0.
abbrev pub page_limit : ℕ → ℕ
page_limit limit = max 1 (min limit 200)

module _ {ℓ} {D : Type ℓ} where
  -- `write_audit`: one row is added, and none is changed.
  unfoldable pub write_audit : AuditEvent D → List (AuditEvent D) → List (AuditEvent D)
  write_audit event log = log ++ event ∷ []

  unfoldable pub fetch_audit_log : ℕ → Option Text → List (AuditEvent D) → List (AuditEvent D)
  fetch_audit_log limit event_type log = take (page_limit limit) (
      sort_by (λ a b. leb b.created_at a.created_at)
        (select (λ e. if truthy event_type then e.event_type == or_empty event_type else true) log))
