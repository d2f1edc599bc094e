-- ===== src/Notifications/Tests.antt =====
-- The theorems on notifications, at a concrete one.
use multi_agentic_workflow.Base.{ℕ, []}
use multi_agentic_workflow.Base.Text.{codes}
use multi_agentic_workflow.Protocol.{NotificationDto, wake, alarm}

abbrev notice : ℕ → NotificationDto
notice n = record {
  notification_id = codes "n";
  to_member_id = codes "bob";
  severity = alarm;
  source = wake;
  ref_id = codes "m1";
  summary = [];
  event_revision = n;
}
