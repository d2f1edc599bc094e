-- ===== src/Protocol.antt =====
-- The shared metadata types of packages/protocol/src (models.ts, errors.ts) that the coordination
-- core keeps or passes on. Text fields are strings, Event_Revisions and counters are numbers of any
-- size.
use Prim.Native.Nat.{Ordering}
use multi_agentic_workflow.Base.{ℕ, Bool, Option, List}
use multi_agentic_workflow.Base.Text.{Text}

-- What the core takes from its platform: the digest of `node:crypto` (SHA-256 over UTF-8, in
-- base64url), `String.prototype.toLowerCase`, `Date.parse` (`none` for NaN), `process.platform` and
-- the sign of `String.prototype.localeCompare`.
pub record Platform : Type 0 where
  pub digest : Text → Text
  pub to_lower : Text → Text
  pub date_parse : Text → Option ℕ
  pub os : Text
  pub locale_compare : Text → Text → Ordering

-- A JavaScript number: a natural number, or any other value (negative, fractional, NaN, infinite).
pub data Number : Type 0 where
  nat : ℕ → Number
  other : Number

pub record SessionId : Type 0 where
  pub repo_id : Text
  pub team_id : Text
  pub branch : Text
  pub base_revision : Option Text

pub record MemberRef : Type 0 where
  pub member_id : Text
  pub device_id : Text

pub data ScopeKind : Type 0 where
  file folder glob : ScopeKind

pub data RiskLevel : Type 0 where
  soft coordination_required hard : RiskLevel

pub record Lock : Type 0 where
  pub lock_id : Text
  pub scope : Text
  pub scope_kind : ScopeKind
  pub mode : RiskLevel
  pub holder : MemberRef
  pub branch : Text
  pub event_revision : ℕ
  pub acquired_at : Text
  pub concurrent : Bool

pub record PlannedFileCreation : Type 0 where
  pub path : Text

pub record DeclaredIntent : Type 0 where
  pub intent_id : Text
  pub owner : MemberRef
  pub agent_id : Text
  pub modify_paths : List Text
  pub create_paths : List PlannedFileCreation
  pub scope_kind : ScopeKind
  pub branch : Text
  pub description : Text
  pub event_revision : ℕ

pub data PresenceState : Type 0 where
  started editing stopped : PresenceState

pub record Presence : Type 0 where
  pub member : MemberRef
  pub path : Text
  pub state : PresenceState
  pub event_revision : ℕ

pub data TaskStatus : Type 0 where
  proposed accepted rejected in_progress done withdrawn : TaskStatus

pub record TaskDto : Type 0 where
  pub task_id : Text
  pub title : Text
  pub description : Text
  pub assignee : MemberRef
  pub assigner : MemberRef
  pub status : TaskStatus
  pub event_revision : ℕ

pub data MessageKind : Type 0 where
  direct broadcast question answer heads_up : MessageKind

pub data MessagePriority : Type 0 where
  fyi normal urgent : MessagePriority

pub record MessageDto : Type 0 where
  pub message_id : Text
  pub kind : MessageKind
  pub sender : MemberRef
  pub to_member_id : Option Text
  pub priority : MessagePriority
  pub body : Text
  pub correlation_id : Option Text
  pub answered : Option Bool
  pub event_revision : ℕ
  pub sent_at : Text

pub data NotifySeverity : Type 0 where
  info warn alarm : NotifySeverity

pub data NotifySource : Type 0 where
  message task conflict wake question : NotifySource

pub record NotificationDto : Type 0 where
  pub notification_id : Text
  pub to_member_id : Text
  pub severity : NotifySeverity
  pub source : NotifySource
  pub ref_id : Text
  pub summary : Text
  pub event_revision : ℕ

pub record LiveDiffDto : Type 0 where
  pub member : MemberRef
  pub path : Text
  pub patch : Text
  pub event_revision : ℕ

pub data AuditAction : Type 0 where
  create update withdraw expire override : AuditAction

pub record AuditRecord : Type 0 where
  pub member : MemberRef
  pub action : AuditAction
  pub target_scope : Text
  pub event_revision : ℕ
  pub time : Text
  pub override_reason : Option Text

-- Optional parts are of later versions of the protocol.
pub record SessionStateSnapshot : Type 0 where
  pub session : SessionId
  pub locks : List Lock
  pub presences : List Presence
  pub intents : List DeclaredIntent
  pub messages : Option (List MessageDto)
  pub tasks : Option (List TaskDto)
  pub notifications : Option (List NotificationDto)
  pub diffs : Option (List LiveDiffDto)
  pub highest_revision : ℕ

pub data LivenessState : Type 0 where
  active idle gone : LivenessState

pub data ErrorCode : Type 0 where
  auth_invalid_device auth_issuer_not_admin auth_session_forbidden : ErrorCode
  auth_not_authorized format_error not_owner not_lock_holder no_active_lock : ErrorCode
  not_found override_reason_required offline_queued storage_error : ErrorCode
  secure_storage_unavailable : ErrorCode

pub data EntryType : Type 0 where
  soft_lock presence intent planned_file_creation dependency_risk : EntryType

pub data UpdateOp : Type 0 where
  added removed : UpdateOp

pub record IntentActivity : Type 0 where
  pub intent_id : Text
  pub description : Text

pub record CoordinationUpdate : Type 0 where
  pub entry_type : EntryType
  pub op : UpdateOp
  pub path : Option Text
  pub member : MemberRef
  pub event_revision : ℕ
  pub intent : Option IntentActivity

-- The wire envelope, with a payload type that the core does not look into.
pub record EventEnvelope (P : Type 0) : Type 0 where
  pub event_type : Text
  pub version : ℕ
  pub event_id : Text
  pub session : SessionId
  pub device_id : Text
  pub counter : Number
  pub nonce : Text
  pub sent_at : Text
  pub payload : P
