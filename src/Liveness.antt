-- ===== src/Liveness.antt =====
-- packages/core-state/src/liveness.ts: who is active, idle or gone, and how urgent a notification
-- is. Times are milliseconds from the epoch; the comparison that the source writes as
-- `now - last <= window` is written without the subtraction.
pub mod Activity
mod Tests
use multi_agentic_workflow.Base.{
  ℕ, ◌+◌, List, [], ◌∷◌, Option, none, some, Bool, true, false, leb, ltb, if◌then◌else◌, ◌++◌, map,
}
use multi_agentic_workflow.Base.Text.{Text}
use multi_agentic_workflow.Base.JsMap
use multi_agentic_workflow.Base.JsMap.{JsMap}
use multi_agentic_workflow.Base.JsSet
use multi_agentic_workflow.Protocol.{
  Platform, SessionId, LivenessState, active, idle, gone, MessagePriority, fyi, normal, urgent,
  NotifySeverity, info, warn, alarm, NotifySource, message, task, conflict, wake, question,
  NotificationDto,
}
use multi_agentic_workflow.Session.{session_key}
use multi_agentic_workflow.Base.Sort.{sort_with}
use multi_agentic_workflow.Conflict.{is_lt}

pub record LivenessSessionState : Type 0 where
  pub last_activity : JsMap ℕ
  pub connected : List Text

pub record LivenessTracker : Type 0 where
  pub active_window_ms : ℕ
  pub sessions : JsMap LivenessSessionState

abbrev pub new_tracker : Option ℕ → LivenessTracker
new_tracker none = record { active_window_ms = 60000; sessions = [] }
new_tracker (some window) = record { active_window_ms = window; sessions = [] }

abbrev pub empty_state : LivenessSessionState
empty_state = record { last_activity = []; connected = [] }

unfoldable pub state_for : LivenessTracker → Text → LivenessSessionState
state_for t key = JsMap.get_or key empty_state t.sessions

unfoldable pub put : LivenessTracker → Text → LivenessSessionState → LivenessTracker
put t key s = record t { sessions = JsMap.set key s t.sessions }

-- The first activity is recorded whatever its time, and the time only moves forward.
pub later : Option ℕ → ℕ → ℕ
later none at = at
later (some prior) at = if ltb prior at then at else prior

pub record_activity : Platform → LivenessTracker → SessionId → Text → ℕ → LivenessTracker
record_activity p t session member at =
    let key = session_key p session in
    let s = state_for t key in
    put t key (record s {
      last_activity =
          JsMap.set member (later (JsMap.get member s.last_activity) at) s.last_activity;
    })

-- `new Set(members)`
pub set_of : List Text → List Text → List Text
set_of acc [] = acc
set_of acc (m ∷ ms) = set_of (JsSet.add acc m) ms

pub set_connected : Platform → LivenessTracker → SessionId → List Text → LivenessTracker
set_connected p t session members =
    let key = session_key p session in
    let s = state_for t key in put t key (record s { connected = set_of [] members })

pub within : ℕ → ℕ → Option ℕ → LivenessState
within window now none = idle
within window now (some last) = if leb now (last + window) then active else idle

pub state_of : Platform → LivenessTracker → SessionId → Text → ℕ → LivenessState
state_of p t session member now =
    let s = state_for t (session_key p session) in
    if JsSet.has s.connected member
    then within t.active_window_ms now (JsMap.get member s.last_activity)
    else gone

pub record MemberState : Type 0 where
  pub member_id : Text
  pub state : LivenessState

-- `undefined` where the session has no state.
pub members_of : Option LivenessSessionState → List Text
unfolding set_of
members_of none = []
members_of (some s) = set_of [] (s.connected ++ map (λ e. e.0) s.last_activity)

unfoldable pub states : Platform → LivenessTracker → SessionId → ℕ → List MemberState
unfolding members_of state_of
states p t session now =
    sort_with (λ (a b : MemberState). is_lt (p.locale_compare a.member_id b.member_id))
      (map (λ m. record { member_id = m; state = state_of p t session m now })
        (members_of (JsMap.get (session_key p session) t.sessions)))

-- The severity "urgent" is `alarm`.
unfoldable pub notification_severity : NotifySource → Option MessagePriority → NotifySeverity
notification_severity wake priority = alarm
notification_severity conflict priority = alarm
notification_severity question priority = warn
notification_severity task priority = warn
notification_severity message none = info
notification_severity message (some fyi) = info
notification_severity message (some normal) = info
notification_severity message (some urgent) = alarm

pub record BuildNotificationInput : Type 0 where
  pub notification_id : Text
  pub to_member_id : Text
  pub source : NotifySource
  pub ref_id : Text
  pub summary : Text
  pub event_revision : ℕ
  pub priority : Option MessagePriority

abbrev pub build_notification : BuildNotificationInput → NotificationDto
build_notification input = record {
  notification_id = input.notification_id;
  to_member_id = input.to_member_id;
  severity = notification_severity input.source input.priority;
  source = input.source;
  ref_id = input.ref_id;
  summary = input.summary;
  event_revision = input.event_revision;
}
