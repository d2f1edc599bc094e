-- ===== src/Sync/Log.antt =====
-- `CoordinationEventLog` of packages/core-state/src/sync.ts. A thrown RangeError is the result
-- `none`.
use multi_agentic_workflow.Base.{
  ℕ, List, [], ◌∷◌, Option, none, some, Bool, false, not, max, ltb, leb, ◌==◌, if◌then◌else◌,
  select, push,
}
use multi_agentic_workflow.Base.Text.{Text}
use multi_agentic_workflow.Base.JsMap
use multi_agentic_workflow.Base.JsMap.{JsMap}
use multi_agentic_workflow.Protocol.{
  Platform, SessionId, Number, nat, other, CoordinationUpdate, SessionStateSnapshot,
}
use multi_agentic_workflow.Session.{session_key}

pub data SyncResponse : Type 0 where
  events : List CoordinationUpdate → SyncResponse
  snapshot : SessionStateSnapshot → SyncResponse

pub record EventLog : Type 0 where
  pub logs : JsMap (List CoordinationUpdate)
  pub compacted_through : JsMap ℕ

abbrev pub new_log : EventLog
new_log = record { logs = []; compacted_through = [] }

unfoldable pub log_at : EventLog → Text → List CoordinationUpdate
log_at l key = JsMap.get_or key [] l.logs

unfoldable pub watermark_at : EventLog → Text → ℕ
watermark_at l key = JsMap.get_or key 0 l.compacted_through

-- `log[log.length - 1]`, by its revision; 0 when there is none.
pub last_revision : List CoordinationUpdate → ℕ
last_revision [] = 0
last_revision (u ∷ []) = u.event_revision
last_revision (u ∷ v ∷ us) = last_revision (v ∷ us)

unfoldable pub append : Platform → EventLog → SessionId → CoordinationUpdate → Option EventLog
unfolding log_at last_revision
append p l session update =
    let key = session_key p session in
    if update.event_revision == 0
    then none
    else if leb update.event_revision (last_revision (log_at l key))
    then none
    else some (record l { logs = JsMap.set key (push (log_at l key) update) l.logs })

-- What is left of a session's log, if there is one.
unfoldable pub retained :
    Text
    → ℕ
    → JsMap (List CoordinationUpdate)
    → Option (List CoordinationUpdate)
    → JsMap (List CoordinationUpdate)
retained key watermark logs none = logs
retained key watermark logs (some log) =
    JsMap.set key (select (λ u. ltb watermark u.event_revision) log) logs

unfoldable pub compact : Platform → EventLog → SessionId → Number → Option EventLog
unfolding watermark_at retained
compact p l session (nat through) =
    let key = session_key p session in
    let watermark = max (watermark_at l key) through in
    some (record {
      logs = retained key watermark l.logs (JsMap.get key l.logs);
      compacted_through = JsMap.set key watermark l.compacted_through;
    })
compact p l session other = none

unfoldable pub highest_revision : Platform → EventLog → SessionId → ℕ
unfolding log_at last_revision
highest_revision p l session = last_revision (log_at l (session_key p session))

unfoldable pub can_serve_incrementally : Platform → EventLog → SessionId → Number → Bool
unfolding watermark_at
can_serve_incrementally p l session (nat from) = leb (watermark_at l (session_key p session)) from
can_serve_incrementally p l session other = false

unfoldable pub events_after : List CoordinationUpdate → Number → List CoordinationUpdate
events_after log (nat from) = select (λ u. ltb from u.event_revision) log
events_after log other = []

unfoldable pub sync_from :
    Platform → EventLog → SessionId → Number → SessionStateSnapshot → SyncResponse
unfolding can_serve_incrementally events_after log_at
sync_from p l session from current =
    if not (can_serve_incrementally p l session from)
    then snapshot current
    else events (events_after (log_at l (session_key p session)) from)
