-- ===== src/Notifications.antt =====
-- packages/core-state/src/notifications.ts: the notifications and wakes of a session. A method
-- that changes the registry returns the new one.
pub mod Order
mod Tests
use multi_agentic_workflow.Base.{ℕ, List, [], ◌∷◌, Bool, true, false, ltb, select}
use multi_agentic_workflow.Base.Text.{Text, text_eq}
use multi_agentic_workflow.Base.JsMap
use multi_agentic_workflow.Base.JsMap.{JsMap}
use multi_agentic_workflow.Base.Sort.{insert_ordered, sort_by}
use multi_agentic_workflow.Protocol.{Platform, SessionId}
use multi_agentic_workflow.Session.{session_key}
use multi_agentic_workflow.Protocol.{
  NotificationDto, NotifySource, message, task, conflict, wake, question,
}

abbrev pub NotificationRegistry : Type 0
NotificationRegistry = JsMap (List NotificationDto)

abbrev pub notified_at : NotificationDto → ℕ
notified_at n = n.event_revision

pub list_for : NotificationRegistry → Text → List NotificationDto
list_for r key = JsMap.get_or key [] r

pub add : Platform → NotificationRegistry → SessionId → NotificationDto → NotificationRegistry
add p r session n =
    let key = session_key p session in
    JsMap.set key (insert_ordered notified_at n (list_for r key)) r

pub for_member : Platform → NotificationRegistry → SessionId → Text → List NotificationDto
for_member p r session member =
    select (λ n. text_eq n.to_member_id member) (list_for r (session_key p session))

pub since : Platform → NotificationRegistry → SessionId → Text → ℕ → List NotificationDto
since p r session member from_revision =
    select (λ n. ltb from_revision n.event_revision) (for_member p r session member)

abbrev pub is_wake : NotifySource → Bool
is_wake message = false
is_wake task = false
is_wake conflict = false
is_wake wake = true
is_wake question = false

pub pending_wakes_for : Platform → NotificationRegistry → SessionId → Text → List NotificationDto
pending_wakes_for p r session member =
    select (λ n. is_wake n.source) (for_member p r session member)

pub all_notifications : Platform → NotificationRegistry → SessionId → List NotificationDto
all_notifications p r session = list_for r (session_key p session)

pub restore :
    Platform → NotificationRegistry → SessionId → List NotificationDto → NotificationRegistry
restore p r session ns = JsMap.set (session_key p session) (sort_by notified_at ns) r
