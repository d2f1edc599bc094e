-- ===== src/Snapshot.antt =====
-- packages/core-state/src/snapshot.ts: what of a session is stored, and how it is restored.
pub mod Refiled
pub mod Resumed
pub mod RoundTrip
mod Tests
use multi_agentic_workflow.Base.{ℕ, List, [], ◌∷◌, map, Option, none, some, ltb, if◌then◌else◌}
use multi_agentic_workflow.Protocol.{
  Platform, SessionId, nat, Lock, Presence, DeclaredIntent, MessageDto, TaskDto, NotificationDto,
  LiveDiffDto, SessionStateSnapshot,
}
use multi_agentic_workflow.Revisions.{RevisionCounter, highest, resume}
use multi_agentic_workflow.Locks
use multi_agentic_workflow.Locks.Upkeep
use multi_agentic_workflow.Intents.State.{IntentRegistry}
use multi_agentic_workflow.Intents.Queries
use multi_agentic_workflow.Intents.Reconcile
use multi_agentic_workflow.Presence
use multi_agentic_workflow.Messaging
use multi_agentic_workflow.Tasks
use multi_agentic_workflow.Notifications
use multi_agentic_workflow.Diffs

pub record SessionRegistries : Type 0 where
  pub locks : Locks.LockRegistry
  pub intents : IntentRegistry
  pub presences : Presence.PresenceRegistry
  pub revisions : RevisionCounter
  pub messages : Option Messaging.MessageRegistry
  pub tasks : Option Tasks.TaskRegistry
  pub notifications : Option Notifications.NotificationRegistry
  pub diffs : Option Diffs.DiffRegistry

-- What an optional registry holds, if there is one.
abbrev pub if_present : {R A : Type 0} → (R → A) → Option R → Option A
if_present f none = none
if_present f (some r) = some (f r)

pub serialize_session_state : Platform → SessionId → SessionRegistries → SessionStateSnapshot
serialize_session_state p session r = record {
  session = session;
  locks = Upkeep.all_locks p r.locks session;
  presences = Presence.all p r.presences session;
  intents = Queries.all_intents p r.intents session;
  messages = if_present (λ m. Messaging.all_messages p m session) r.messages;
  tasks = if_present (λ t. Tasks.all_tasks p t session) r.tasks;
  notifications = if_present (λ n. Notifications.all_notifications p n session) r.notifications;
  diffs = if_present (λ d. Diffs.all_diffs p d session) r.diffs;
  highest_revision = highest p r.revisions session;
}

-- One of the loops over the entities of a snapshot.
pub max_over : {A : Type 0} → (A → ℕ) → ℕ → List A → ℕ
max_over revision so_far [] = so_far
max_over revision so_far (x ∷ xs) =
    max_over revision (if ltb so_far (revision x) then revision x else so_far) xs

abbrev pub or_empty : {A : Type 0} → Option (List A) → List A
or_empty none = []
or_empty (some xs) = xs

pub max_persisted_revision : SessionStateSnapshot → ℕ
unfolding max_over
max_persisted_revision s =
    let of_locks = max_over (λ (l : Lock). l.event_revision) s.highest_revision s.locks in
    let of_presence = max_over (λ (e : Presence). e.event_revision) of_locks s.presences in
    let of_intents = max_over (λ (i : DeclaredIntent). i.event_revision) of_presence s.intents in
    let of_messages =
      max_over (λ (m : MessageDto). m.event_revision) of_intents (or_empty s.messages) in
    let of_tasks = max_over (λ (t : TaskDto). t.event_revision) of_messages (or_empty s.tasks) in
    let of_notifications =
      max_over (λ (n : NotificationDto). n.event_revision) of_tasks (or_empty s.notifications) in
    max_over (λ (d : LiveDiffDto). d.event_revision) of_notifications (or_empty s.diffs)

-- The registries with the session's state replaced, before the counter is resumed.
pub reinstalled : Platform → SessionStateSnapshot → SessionRegistries → SessionRegistries
reinstalled p s r = record {
  locks = Upkeep.restore p r.locks s.session s.locks;
  intents = Reconcile.restore p r.intents s.session s.intents;
  presences = Presence.restore p r.presences s.session s.presences;
  revisions = r.revisions;
  messages = if_present (λ m. Messaging.restore p m s.session (or_empty s.messages)) r.messages;
  tasks = if_present (λ t. Tasks.restore p t s.session (or_empty s.tasks)) r.tasks;
  notifications =
      if_present (λ n. Notifications.restore p n s.session (or_empty s.notifications))
        r.notifications;
  diffs = if_present (λ d. Diffs.restore p d s.session (or_empty s.diffs)) r.diffs;
}

-- `none` is the RangeError of `resume`.
pub with_counter : SessionRegistries → Option RevisionCounter → Option SessionRegistries
with_counter r none = none
with_counter r (some c) = some (record r { revisions = c })

pub restore_session_state :
    Platform → SessionStateSnapshot → SessionRegistries → Option SessionRegistries
unfolding reinstalled with_counter max_persisted_revision
restore_session_state p s r =
    with_counter (reinstalled p s r)
      (resume p r.revisions s.session (nat (max_persisted_revision s)))
