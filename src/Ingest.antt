-- ===== src/Ingest.antt =====
-- packages/core-state/src/ingest.ts: the gate that every inbound event passes before it may change
-- state. Validation of the raw input (packages/protocol/src/validation.ts), the permission check
-- and the domain's applier are arguments, as the gate takes them.
pub mod Outcome
mod Tests
pub mod Once
pub mod Distinct
use multi_agentic_workflow.Base.{ℕ, List, [], ◌∷◌, Option, none, some, Bool, true, false}
use multi_agentic_workflow.Base.Text.{Text}
use multi_agentic_workflow.Base.JsMap
use multi_agentic_workflow.Base.JsMap.{JsMap}
use multi_agentic_workflow.Protocol.{Platform, SessionId, ErrorCode, EventEnvelope}
use multi_agentic_workflow.Session.{session_key}
use multi_agentic_workflow.Revisions.{RevisionCounter, next}
use multi_agentic_workflow.Replay
use multi_agentic_workflow.Replay.{ReplayGuard, ReplayDecision, accept_replay}

pub data Validation (P : Type 0) : Type 0 where
  valid : EventEnvelope P → Validation P
  invalid : ErrorCode → Text → Validation P

pub data PermissionDecision : Type 0 where
  permitted : PermissionDecision
  denied : ErrorCode → Text → PermissionDecision

pub record ApplierRejection : Type 0 where
  pub code : ErrorCode
  pub reason : Text

pub record IngestResult : Type 0 where
  pub accepted : Bool
  pub event_revision : Option ℕ
  pub duplicate_of : Option ℕ
  pub error : Option ErrorCode
  pub reason : Option Text

pub record IngestGate : Type 0 where
  pub revisions : RevisionCounter
  pub replay_guard : ReplayGuard
  pub applied_by_session : JsMap (JsMap ℕ)

-- The gate beside the domain state that the applier may change.
pub record World (D : Type 0) : Type 0 where
  pub gate : IngestGate
  pub domain : D

abbrev pub permit_all : {P : Type 0} → EventEnvelope P → PermissionDecision
permit_all e = permitted

abbrev pub refuse : ErrorCode → Text → Option ℕ → IngestResult
refuse code reason revision = record {
  accepted = false;
  event_revision = revision;
  duplicate_of = none;
  error = some code;
  reason = some reason;
}

-- `this.appliedBySession.get(key)?.get(eventId)`
pub applied_at : IngestGate → Text → Text → Option ℕ
applied_at g key event_id = elim (JsMap.get key g.applied_by_session) [
  | none ↦ none
  | some events ↦ JsMap.get event_id events
]

pub record_applied : IngestGate → Text → Text → ℕ → IngestGate
record_applied g key event_id revision =
    let events = JsMap.get_or key [] g.applied_by_session in
    record g {
      applied_by_session = JsMap.set key (JsMap.set event_id revision events) g.applied_by_session;
    }

pub record_all : Platform → IngestGate → List (SessionId × Text × ℕ) → IngestGate
record_all p g [] = g
record_all p g ((session, event_id, revision) ∷ rest) =
    record_all p (record_applied g (session_key p session) event_id revision) rest

pub new_gate : Platform → RevisionCounter → ReplayGuard → List (SessionId × Text × ℕ) → IngestGate
unfolding record_all record_applied
new_gate p revisions guard persisted =
    record_all p (record { revisions = revisions; replay_guard = guard; applied_by_session = [] })
      persisted

pub applied_revision : Platform → IngestGate → SessionId → Text → Option ℕ
unfolding applied_at
applied_revision p g session event_id = applied_at g (session_key p session) event_id

pub has_applied : Platform → IngestGate → SessionId → Text → Bool
unfolding applied_at
has_applied p g session event_id = elim (applied_at g (session_key p session) event_id) [
  | none ↦ false
  | some _ ↦ true
]

module _ {P D I : Type 0} (p : Platform) (validate : I → Validation P)
    (check_permission : EventEnvelope P → PermissionDecision)
    (apply : EventEnvelope P → ℕ → D → D × Option ApplierRejection) where
  -- The applier's verdict on an event that has its revision.
  settle : World D → Text → Text → ℕ → D × Option ApplierRejection → World D × IngestResult
  settle w key event_id revision (domain, some rejection) =
      (record w { domain = domain }, refuse rejection.code rejection.reason (some revision))
  settle w key event_id revision (domain, none) = (
    record { gate = record_applied w.gate key event_id revision; domain = domain },
    record {
      accepted = true;
      event_revision = some revision;
      duplicate_of = none;
      error = none;
      reason = none;
    },
  )

  -- A fresh event, after the guard's decision.
  commit : World D → EventEnvelope P → ReplayGuard × ReplayDecision → World D × IngestResult
  unfolding settle
  commit w e (guard, Replay.rejected code reason) =
      (record w { gate = record w.gate { replay_guard = guard } }, refuse code reason none)
  commit w e (guard, Replay.accepted) =
      let n = next p w.gate.revisions e.session in
      settle (record w { gate = record w.gate { revisions = n.0; replay_guard = guard } })
        (session_key p e.session) e.event_id n.1 (apply e n.1 w.domain)

  -- Idempotency, then replay protection.
  admit : World D → EventEnvelope P → Option ℕ → World D × IngestResult
  unfolding commit
  admit w e (some prior) = (
    w,
    record {
      accepted = true;
      event_revision = some prior;
      duplicate_of = some prior;
      error = none;
      reason = none;
    },
  )
  admit w e none = commit w e (accept_replay w.gate.replay_guard e.device_id e.counter e.nonce)

  authorize : World D → EventEnvelope P → PermissionDecision → World D × IngestResult
  unfolding admit
  authorize w e (denied code reason) = (w, refuse code reason none)
  authorize w e permitted = admit w e (applied_at w.gate (session_key p e.session) e.event_id)

  check : World D → Validation P → World D × IngestResult
  unfolding authorize
  check w (invalid code reason) = (w, refuse code reason none)
  check w (valid e) = authorize w e (check_permission e)

  pub ingest : World D → I → World D × IngestResult
  unfolding check
  ingest w input = check w (validate input)
