-- ===== src/Override.antt =====
-- packages/core-state/src/override.ts: an override needs a reason, which is recorded.
use multi_agentic_workflow.Base.{ℕ, some, not, if◌then◌else◌}
use multi_agentic_workflow.Base.Text.{Text, has_content}
use multi_agentic_workflow.Protocol.{SessionId, MemberRef, AuditRecord, override}

pub data OverrideError : Type 0 where
  override_reason_required : OverrideError

pub record OverrideRequest : Type 0 where
  pub session : SessionId
  pub member : MemberRef
  pub scope : Text
  pub override_reason : Text
  pub event_revision : ℕ
  pub at : Text

pub data OverrideResult : Type 0 where
  allowed : AuditRecord → OverrideResult
  rejected : OverrideError → OverrideResult

pub validate_override : OverrideRequest → OverrideResult
unfolding has_content
validate_override q =
    if not (has_content q.override_reason)
    then rejected override_reason_required
    else allowed (record {
      member = q.member;
      action = override;
      target_scope = q.scope;
      event_revision = q.event_revision;
      time = q.at;
      override_reason = some q.override_reason;
    })
