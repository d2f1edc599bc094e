-- ===== src/Locks.antt =====
-- packages/core-state/src/locks.ts: the registry of coordination locks. A call returns the new
-- registry with its result.
pub mod Group
pub mod Upkeep
pub mod Settled
pub mod Stored
pub mod Filed
pub mod Survivors
pub mod Invariant
pub mod Histories
pub mod Contention
pub mod Flagged
pub mod Acquired
pub mod Release
pub mod Expiry
mod Tests
use multi_agentic_workflow.Base.{
  ℕ, ◌++◌, List, [], ◌∷◌, map, Option, none, some, Bool, true, false, not, ◌&&◌, ltb, ◌==◌,
  if◌then◌else◌, find, select, any, length, push, remove_first,
}
use multi_agentic_workflow.Base.Text.{Text, text_eq}
use multi_agentic_workflow.Base.JsMap
use multi_agentic_workflow.Base.JsMap.{JsMap}
use multi_agentic_workflow.Protocol.{
  Platform, SessionId, MemberRef, Lock, ScopeKind, RiskLevel, soft, coordination_required, hard,
  ErrorCode, not_lock_holder, no_active_lock,
}
use multi_agentic_workflow.Session.{session_key}
use multi_agentic_workflow.RepoPath.{CaseSensitivity}
use multi_agentic_workflow.Conflict.{ConflictInfo}
use Group.{group_key, resolve_group, group_winner, refreshed, held_by}

abbrev pub Groups : Type 0
Groups = JsMap (List Lock)

pub record LockRegistry : Type 0 where
  pub sensitivity : Option CaseSensitivity
  pub sessions : JsMap Groups

pub record LockAcquisition : Type 0 where
  pub session : SessionId
  pub lock_id : Text
  pub scope : Text
  pub scope_kind : ScopeKind
  pub mode : RiskLevel
  pub holder : MemberRef
  pub branch : Text
  pub event_revision : ℕ
  pub acquired_at : Text

pub record LockRelease : Type 0 where
  pub session : SessionId
  pub requester : MemberRef
  pub branch : Text
  pub lock_id : Option Text
  pub scope : Option Text

pub record AcquireOutcome : Type 0 where
  pub lock : Lock
  pub winner : Lock
  pub contended : Bool
  pub conflict : Option ConflictInfo

pub data ReleaseResult : Type 0 where
  released : Lock → Option Lock → ReleaseResult
  refused : ErrorCode → ReleaseResult

abbrev pub new_registry : Option CaseSensitivity → LockRegistry
new_registry s = record { sensitivity = s; sessions = [] }

unfoldable pub groups_at : LockRegistry → Text → Groups
groups_at r key = JsMap.get_or key [] r.sessions

-- The session's groups are one object: writing them back is what its mutation amounts to.
unfoldable pub put : LockRegistry → Text → Groups → LockRegistry
put r key groups = record r { sessions = JsMap.set key groups r.sessions }

unfoldable pub claims_at : Groups → Text → List Lock
claims_at groups key = JsMap.get_or key [] groups

-- An emptied group is deleted, any other is resolved and stored.
pub restock : Text → List Lock → Groups → Groups
restock key [] groups = JsMap.delete key groups
restock key (c ∷ cs) groups = JsMap.set key (resolve_group (c ∷ cs)) groups

pub outcome : Lock → Lock → AcquireOutcome
outcome lock winner =
    if text_eq lock.lock_id winner.lock_id
    then record { lock = lock; winner = winner; contended = false; conflict = none }
    else record {
      lock = lock;
      winner = winner;
      contended = true;
      conflict =
          some (record { winner = winner.holder; winning_event_revision = winner.event_revision });
    }

-- `none` stands for the TypeError of reading a missing winner.
pub outcome_of : Lock → Option Lock → Option AcquireOutcome
unfolding outcome
outcome_of lock none = none
outcome_of lock (some winner) = some (outcome (refreshed winner lock) winner)

abbrev pub requested : LockAcquisition → Lock
requested q = record {
  lock_id = q.lock_id;
  scope = q.scope;
  scope_kind = q.scope_kind;
  mode = q.mode;
  holder = q.holder;
  branch = q.branch;
  event_revision = q.event_revision;
  acquired_at = q.acquired_at;
  concurrent = false;
}

-- The claims that a request leaves in its group, and the claim that it reports.
pub enlist : List Lock → LockAcquisition → List Lock × Lock
enlist claims q = elim (find (held_by q.holder.member_id) claims) [
  | some existing ↦ (claims, existing)
  | none ↦ (push claims (requested q), requested q)
]

pub acquire : Platform → LockRegistry → LockAcquisition → LockRegistry × Option AcquireOutcome
unfolding outcome_of
acquire p r q =
    let key = session_key p q.session in
    let groups = groups_at r key in
    let g_key = group_key p r.sensitivity q.scope q.scope_kind q.branch in
    let claims = enlist (claims_at groups g_key) q in
    (
      put r key (JsMap.set g_key (resolve_group claims.0) groups),
      outcome_of claims.1 (group_winner claims.0),
    )

-- The loop that locates a group: it breaks at the first one that passes.
pub locate_first : (Text → List Lock → Bool) → Groups → Option (Text × List Lock)
locate_first test [] = none
locate_first test ((k, claims) ∷ rest) =
    if test k claims then some (k, claims) else locate_first test rest

pub has_lock : Text → Text → List Lock → Bool
has_lock id k claims = any (λ l. text_eq l.lock_id id) claims

-- The scope is read with the kind of the group's first lock.
pub matches_scope : Platform → Option CaseSensitivity → Text → Text → Text → List Lock → Bool
matches_scope p s scope branch k [] = false
matches_scope p s scope branch k (sample ∷ _) =
    text_eq (group_key p s scope sample.scope_kind branch) k

pub locate_scoped :
    Platform → Option CaseSensitivity → Option Text → Text → Groups → Option (Text × List Lock)
unfolding locate_first matches_scope
locate_scoped p s none branch groups = none
locate_scoped p s (some scope) branch groups = locate_first (matches_scope p s scope branch) groups

pub locate_for :
    Platform
    → Option CaseSensitivity
    → Option Text
    → Option Text
    → Text
    → Groups
    → Option (Text × List Lock)
unfolding locate_first has_lock locate_scoped
locate_for p s (some id) scope branch groups = locate_first (has_lock id) groups
locate_for p s none scope branch groups = locate_scoped p s scope branch groups

pub locate : Platform → Option CaseSensitivity → LockRelease → Groups → Option (Text × List Lock)
unfolding locate_for
locate p s q groups = locate_for p s q.lock_id q.scope q.branch groups

-- Removing the winner, once the requester is known to hold it.
pub release_winner : Groups → Text → List Lock → Lock → Groups × ReleaseResult
release_winner groups k claims winner =
    let remaining = select (λ l. not (text_eq l.lock_id winner.lock_id)) claims in
    (restock k remaining groups, released winner (group_winner remaining))

pub release_from : Groups → Text → List Lock → MemberRef → Option Lock → Groups × ReleaseResult
unfolding release_winner
release_from groups k claims requester none = (groups, refused no_active_lock)
release_from groups k claims requester (some winner) =
    if text_eq winner.holder.member_id requester.member_id
    then release_winner groups k (resolve_group claims) winner
    else (JsMap.set k (resolve_group claims) groups, refused not_lock_holder)

pub release_located : Groups → MemberRef → Option (Text × List Lock) → Groups × ReleaseResult
unfolding release_from
release_located groups requester none = (groups, refused no_active_lock)
release_located groups requester (some (k, claims)) =
    release_from groups k claims requester (group_winner claims)

pub release : Platform → LockRegistry → LockRelease → LockRegistry × ReleaseResult
unfolding release_located
release p r q =
    let key = session_key p q.session in
    let groups = groups_at r key in
    let done = release_located groups q.requester (locate p r.sensitivity q groups) in
    (put r key done.0, done.1)
