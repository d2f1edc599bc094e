-- ===== src/Expiry.antt =====
-- packages/core-state/src/expiry.ts: heartbeats, and the release of soft locks that are too old.
-- Intervals and times are whole milliseconds. The engine shares the lock registry and the revision
-- counter with the rest of the host: a method takes both and returns them.
pub mod Reported
pub mod Sweep
pub mod Heartbeats
pub mod Devices
pub mod Exact
pub mod Returns
pub mod Whole
pub mod Forgotten
mod Tests
use multi_agentic_workflow.Base.{
  ℕ, ◌+◌, ◌-◌, ◌*◌, ◌++◌, List, [], ◌∷◌, Option, none, some, Bool, true, false, not, ◌||◌, ltb,
  if◌then◌else◌,
}
use multi_agentic_workflow.Base.Text.{Text, text_lt}
use multi_agentic_workflow.Base.JsMap
use multi_agentic_workflow.Base.JsMap.{JsMap}
use multi_agentic_workflow.Base.JsSet
use multi_agentic_workflow.Protocol.{
  Platform, SessionId, Lock, CoordinationUpdate, UpdateOp, added, removed, soft_lock,
}
use multi_agentic_workflow.Session.{session_key}
use multi_agentic_workflow.Revisions.{RevisionCounter, next}
use multi_agentic_workflow.Locks.{LockRegistry}
use multi_agentic_workflow.Locks.Upkeep.{winning_lock, expire_soft_locks_acquired_before}

pub record ExpiryConfigInput : Type 0 where
  pub heartbeat_interval_ms : Option ℕ
  pub lock_expiry_interval_ms : Option ℕ
  pub soft_lock_max_age_ms : Option ℕ

pub record ExpiryConfig : Type 0 where
  pub heartbeat_interval_ms : ℕ
  pub lock_expiry_interval_ms : ℕ
  pub soft_lock_max_age_ms : ℕ

abbrev pub default_to : ℕ → Option ℕ → ℕ
default_to d none = d
default_to d (some n) = n

-- The checks on the three numbers, in their order; `none` is a RangeError.
pub checked_config : ℕ → ℕ → ℕ → Option ExpiryConfig
checked_config heartbeat expiry age =
    if ltb heartbeat 5000 || ltb 60000 heartbeat
    then none
    else if ltb expiry (heartbeat * 3)
    then none
    else if not (ltb 0 age)
    then none
    else some (record {
      heartbeat_interval_ms = heartbeat;
      lock_expiry_interval_ms = expiry;
      soft_lock_max_age_ms = age;
    })

pub resolve_expiry_config : ExpiryConfigInput → Option ExpiryConfig
resolve_expiry_config input =
    checked_config (default_to 15000 input.heartbeat_interval_ms)
      (default_to 45000 input.lock_expiry_interval_ms)
      (default_to 1800000 input.soft_lock_max_age_ms)

pub record ExpiryEngine : Type 0 where
  pub config : ExpiryConfig
  pub heartbeats : JsMap (JsMap ℕ)

pub table_for : ExpiryEngine → Text → JsMap ℕ
table_for e key = JsMap.get_or key [] e.heartbeats

-- The stored heartbeat after one at `at`: the most recent.
pub most_recent : Option ℕ → ℕ → ℕ
most_recent none at = at
most_recent (some existing) at = if ltb existing at then at else existing

pub record_heartbeat : Platform → ExpiryEngine → SessionId → Text → ℕ → ExpiryEngine
record_heartbeat p e session device_id at =
    let key = session_key p session in
    let table = table_for e key in
    record e {
      heartbeats =
          JsMap.set key (JsMap.set device_id (most_recent (JsMap.get device_id table) at) table)
            e.heartbeats;
    }

pub last_seen : Platform → ExpiryEngine → SessionId → Text → Option ℕ
last_seen p e session device_id = JsMap.get device_id (table_for e (session_key p session))

pub forget_in : Text → Text → JsMap (JsMap ℕ) → Option (JsMap ℕ) → JsMap (JsMap ℕ)
forget_in key device_id heartbeats none = heartbeats
forget_in key device_id heartbeats (some table) =
    JsMap.set key (JsMap.delete device_id table) heartbeats

pub forget_device : Platform → ExpiryEngine → SessionId → Text → ExpiryEngine
forget_device p e session device_id =
    let key = session_key p session in
    record e { heartbeats = forget_in key device_id e.heartbeats (JsMap.get key e.heartbeats) }

-- `nowMs - lastSeen > interval`, without the subtraction.
pub is_stale : ℕ → ℕ → ℕ → Bool
is_stale interval now seen = ltb (seen + interval) now

pub stale_in : ℕ → ℕ → JsMap ℕ → List Text
stale_in interval now [] = []
stale_in interval now ((device_id, seen) ∷ table) =
    let rest = stale_in interval now table in
    if is_stale interval now seen then device_id ∷ rest else rest

-- `Array.prototype.sort` on strings.
pub insert_text : Text → List Text → List Text
insert_text t [] = t ∷ []
insert_text t (x ∷ xs) = let rest = insert_text t xs in if text_lt t x then t ∷ x ∷ xs else x ∷ rest

pub sort_texts : List Text → List Text → List Text
sort_texts sorted [] = sorted
sort_texts sorted (t ∷ ts) = sort_texts (insert_text t sorted) ts

pub stale_devices : Platform → ExpiryEngine → SessionId → ℕ → List Text
stale_devices p e session now =
    sort_texts []
      (stale_in e.config.lock_expiry_interval_ms now (table_for e (session_key p session)))

pub record ExpirySweepResult : Type 0 where
  pub removals : List CoordinationUpdate
  pub promotions : List CoordinationUpdate
  pub expired_devices : List Text

abbrev pub lock_update : UpdateOp → Lock → ℕ → CoordinationUpdate
lock_update op l revision = record {
  entry_type = soft_lock;
  op = op;
  path = some l.scope;
  member = l.holder;
  event_revision = revision;
  intent = none;
}

-- The loop that reports each released lock with a fresh revision.
pub report_removals :
    Platform → SessionId → RevisionCounter → List Lock → RevisionCounter × List CoordinationUpdate
report_removals p session c [] = (c, [])
report_removals p session c (l ∷ ls) =
    let n = next p c session in
    let rest = report_removals p session n.0 ls in (rest.0, lock_update removed l n.1 ∷ rest.1)

-- Whether the loop of `promotedLockUpdates` reports a winner for the removed lock.
pub to_promote : List Text → Lock → Option Lock → Option Lock
to_promote emitted l none = none
to_promote emitted l (some winner) =
    if l.concurrent || JsSet.has emitted winner.lock_id then none else some winner

pub promoted_lock_updates :
    Platform
    → LockRegistry
    → SessionId
    → RevisionCounter
    → List Text
    → List Lock
    → RevisionCounter × List CoordinationUpdate
promoted_lock_updates p locks session c emitted [] = (c, [])
promoted_lock_updates p locks session c emitted (l ∷ ls) =
    elim (to_promote emitted l (winning_lock p locks session l.scope l.scope_kind l.branch)) [
      | none ↦ promoted_lock_updates p locks session c emitted ls
      | some winner ↦
          let n = next p c session in
          let rest =
            promoted_lock_updates p locks session n.0 (JsSet.add emitted winner.lock_id) ls in
          (rest.0, lock_update added winner n.1 ∷ rest.1)
    ]

pub record SweepState : Type 0 where
  pub locks : LockRegistry
  pub revisions : RevisionCounter

pub expire_stale_soft_locks :
    Platform → ExpiryEngine → SweepState → SessionId → ℕ → SweepState × ExpirySweepResult
expire_stale_soft_locks p e s session now =
    let expired =
      expire_soft_locks_acquired_before p s.locks session (now - e.config.soft_lock_max_age_ms) in
    let gone = report_removals p session s.revisions expired.1 in
    let new = promoted_lock_updates p expired.0 session gone.0 [] expired.1 in
    (
      record { locks = expired.0; revisions = new.0 },
      record { removals = gone.1; promotions = new.1; expired_devices = [] },
    )
