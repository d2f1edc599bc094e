-- ===== src/Replay.antt =====
-- packages/security/src/replay.ts: the per-device counter and nonces that reject a replayed event.
pub mod History
mod Tests
use multi_agentic_workflow.Base.{
  ℕ, ◌≤◌, List, [], ◌∷◌, ◌++◌, map, Option, none, some, Bool, true, false, leb, if◌then◌else◌,
}
use multi_agentic_workflow.Base.Text.{Text, codes}
use multi_agentic_workflow.Base.JsMap
use multi_agentic_workflow.Base.JsMap.{JsMap}
use multi_agentic_workflow.Base.JsSet
use multi_agentic_workflow.Protocol.{Number, nat, other, ErrorCode, format_error}
use multi_agentic_workflow.Session.{decimal}

pub record ReplayRecord : Type 0 where
  pub highest_counter : ℕ
  pub used_nonces : List Text

pub data ReplayDecision : Type 0 where
  accepted : ReplayDecision
  rejected : ErrorCode → Text → ReplayDecision

abbrev pub empty_replay_record : ReplayRecord
empty_replay_record = record { highest_counter = 0; used_nonces = [] }

-- The decision and the next record.
unfoldable pub evaluate_replay : ReplayRecord → Number → Text → ReplayDecision × ReplayRecord
evaluate_replay r other nonce =
    (rejected format_error (codes "Replay counter must be a non-negative integer."), r)
evaluate_replay r (nat counter) nonce =
    if leb counter r.highest_counter
    then (
      rejected format_error (
          codes "Replay counter "
          ++ (decimal counter
              ++ (codes " is not greater than the last accepted counter "
                  ++ (decimal r.highest_counter ++ codes ".")))),
      r,
    )
    else if JsSet.has r.used_nonces nonce
    then (rejected format_error (codes "Replay nonce has already been used by this device."), r)
    else (
      accepted,
      record { highest_counter = counter; used_nonces = JsSet.add r.used_nonces nonce },
    )

-- The guard keeps a record for each device that it has accepted an event of.
abbrev pub ReplayGuard : Type 0
ReplayGuard = JsMap ReplayRecord

unfoldable pub create_replay_guard : List (Text × ReplayRecord) → ReplayGuard → ReplayGuard
create_replay_guard [] g = g
create_replay_guard ((device_id, r) ∷ seed) g = create_replay_guard seed (JsMap.set device_id r g)

-- `records.get(deviceId) ?? emptyReplayRecord()`
unfoldable pub record_or_empty : ReplayGuard → Text → ReplayRecord
record_or_empty g device_id = JsMap.get_or device_id empty_replay_record g

store_if_accepted :
    ReplayGuard → Text → ReplayDecision × ReplayRecord → ReplayGuard × ReplayDecision
store_if_accepted g device_id (accepted, r) = (JsMap.set device_id r g, accepted)
store_if_accepted g device_id (rejected code reason, r) = (g, rejected code reason)

unfoldable pub accept_replay : ReplayGuard → Text → Number → Text → ReplayGuard × ReplayDecision
unfolding store_if_accepted
accept_replay g device_id counter nonce =
    store_if_accepted g device_id (evaluate_replay (record_or_empty g device_id) counter nonce)

pub record_for : ReplayGuard → Text → Option ReplayRecord
record_for g device_id = JsMap.get device_id g

pub reset : ReplayGuard → Option Text → ReplayGuard
reset g none = []
reset g (some device_id) = JsMap.delete device_id g
