-- ===== src/Sync/Cache.antt =====
-- `AgentSyncCache` of packages/core-state/src/sync.ts, and the projection of a snapshot to the
-- entries that it caches.

use multi_agentic_workflow.Base.{
  ℕ, List, [], ◌∷◌, ◌++◌, map, Option, none, some, Bool, true, false, ◌&&◌, leb, if◌then◌else◌,
}
use multi_agentic_workflow.Base.Text.{Text, codes, starts_with}
use multi_agentic_workflow.Base.JsMap
use multi_agentic_workflow.Base.JsMap.{JsMap}
use multi_agentic_workflow.Base.Sort.{sort_by}
use multi_agentic_workflow.Protocol.{
  Platform, SessionId, MemberRef, Lock, Presence, PresenceState, stopped, DeclaredIntent,
  PlannedFileCreation, EntryType, soft_lock, presence, intent, planned_file_creation,
  dependency_risk, UpdateOp, added, removed, IntentActivity, CoordinationUpdate,
  SessionStateSnapshot,
}
use multi_agentic_workflow.Session.{session_key}
use multi_agentic_workflow.RepoPath.{normalize_path}
use multi_agentic_workflow.Sync.Log.{SyncResponse, events, snapshot}

pub entry_type_text : EntryType → Text
entry_type_text soft_lock = codes "soft_lock"
entry_type_text presence = codes "presence"
entry_type_text intent = codes "intent"
entry_type_text planned_file_creation = codes "planned_file_creation"
entry_type_text dependency_risk = codes "dependency_risk"

pub is_intent_entry : EntryType → Bool
is_intent_entry intent = true
is_intent_entry planned_file_creation = true
is_intent_entry _ = false

abbrev pub path_part : Option Text → Text
path_part none = []
path_part (some path) = normalize_path path

abbrev pub intent_part : Option IntentActivity → Text
intent_part none = []
intent_part (some i) = i.intent_id

-- The entry key up to the intent's id: the key that an update without intent metadata had.
pub intent_prefix : CoordinationUpdate → Text
unfolding entry_type_text
intent_prefix u =
    entry_type_text u.entry_type
    ++ (0
        ∷ (path_part u.path ++ (0 ∷ (u.member.member_id ++ (0 ∷ (u.member.device_id ++ 0 ∷ []))))))

pub coordination_entry_key : CoordinationUpdate → Text
unfolding intent_prefix is_intent_entry
coordination_entry_key u =
    intent_prefix u ++ (if is_intent_entry u.entry_type then intent_part u.intent else [])

abbrev pub entry_added :
    EntryType → Text → MemberRef → ℕ → Option IntentActivity → CoordinationUpdate
entry_added entry path member revision activity = record {
  entry_type = entry;
  op = added;
  path = some path;
  member = member;
  event_revision = revision;
  intent = activity;
}

pub project_locks : List Lock → List CoordinationUpdate
project_locks [] = []
project_locks (l ∷ ls) =
    let rest = project_locks ls in
    if l.concurrent
    then rest
    else entry_added soft_lock l.scope l.holder l.event_revision none ∷ rest

abbrev pub is_stopped : PresenceState → Bool
is_stopped stopped = true
is_stopped _ = false

pub project_presence : List Presence → List CoordinationUpdate
project_presence [] = []
project_presence (e ∷ es) =
    let rest = project_presence es in
    if is_stopped e.state
    then rest
    else entry_added presence e.path e.member e.event_revision none ∷ rest

abbrev pub activity_of : DeclaredIntent → Option IntentActivity
activity_of i = some (record { intent_id = i.intent_id; description = i.description })

pub project_intents : List DeclaredIntent → List CoordinationUpdate
project_intents [] = []
project_intents (i ∷ is) =
    map (λ path. entry_added intent path i.owner i.event_revision (activity_of i)) i.modify_paths
    ++ (map
          (λ (c : PlannedFileCreation).
            entry_added planned_file_creation c.path i.owner i.event_revision (activity_of i))
          i.create_paths
        ++ project_intents is)

pub project_snapshot : SessionStateSnapshot → List CoordinationUpdate
unfolding project_locks project_presence project_intents
project_snapshot s =
    project_locks s.locks ++ (project_presence s.presences ++ project_intents s.intents)

abbrev pub CacheEntries : Type 0
CacheEntries = JsMap CoordinationUpdate

pub record SyncCache : Type 0 where
  pub entries : JsMap CacheEntries
  pub highest : JsMap ℕ
  pub stale : Bool

abbrev pub new_cache : SyncCache
new_cache = record { entries = []; highest = []; stale = false }

unfoldable pub entries_at : SyncCache → Text → CacheEntries
entries_at c key = JsMap.get_or key [] c.entries

unfoldable pub highest_at : SyncCache → Text → ℕ
highest_at c key = JsMap.get_or key 0 c.highest

unfoldable pub highest_applied : Platform → SyncCache → SessionId → ℕ
unfolding highest_at
highest_applied p c session = highest_at c (session_key p session)

unfoldable pub mark_stale : SyncCache → SyncCache
mark_stale c = record c { stale = true }

-- The loop over the keys that deletes those with the prefix.
pub delete_prefixed : Text → CacheEntries → CacheEntries
unfolding starts_with
delete_prefixed prefix [] = []
delete_prefixed prefix ((k, u) ∷ m) =
    let rest = delete_prefixed prefix m in if starts_with prefix k then rest else (k, u) ∷ rest

-- A removal by an exact key, with the slot that it had before there was intent metadata.
pub remove_exact : CoordinationUpdate → CacheEntries → CacheEntries
unfolding coordination_entry_key intent_prefix is_intent_entry
remove_exact u m =
    let after = JsMap.delete (coordination_entry_key u) m in
    if is_intent_entry u.entry_type then JsMap.delete (intent_prefix u) after else after

abbrev pub has_no_intent : CoordinationUpdate → Bool
has_no_intent u = elim u.intent [ none ↦ true | some i ↦ false ]

pub apply_op : UpdateOp → CoordinationUpdate → CacheEntries → CacheEntries
unfolding delete_prefixed remove_exact is_intent_entry intent_prefix coordination_entry_key
apply_op removed u m =
    if is_intent_entry u.entry_type && has_no_intent u
    then delete_prefixed (intent_prefix u) m
    else remove_exact u m
apply_op added u m = JsMap.set (coordination_entry_key u) u m

unfoldable pub apply_update : Platform → SessionId → SyncCache → CoordinationUpdate → SyncCache
unfolding apply_op highest_at entries_at
apply_update p session c u =
    let key = session_key p session in
    if leb u.event_revision (highest_at c key) then c else record c {
      entries = JsMap.set key (apply_op u.op u (entries_at c key)) c.entries;
      highest = JsMap.set key u.event_revision c.highest;
    }

abbrev pub apply_each : Platform → SessionId → SyncCache → List CoordinationUpdate → SyncCache
apply_each p session c [] = c
apply_each p session c (u ∷ us) = apply_each p session (apply_update p session c u) us

unfoldable pub apply_events : Platform → SyncCache → SessionId → List CoordinationUpdate → SyncCache
unfolding apply_update
apply_events p c session us = apply_each p session c (sort_by (λ u. u.event_revision) us)

-- The loop of `applySnapshot`.
pub install : CacheEntries → List CoordinationUpdate → CacheEntries
unfolding coordination_entry_key
install m [] = m
install m (u ∷ us) = install (JsMap.set (coordination_entry_key u) u m) us

pub apply_snapshot : Platform → SyncCache → SessionId → SessionStateSnapshot → SyncCache
unfolding install project_snapshot
apply_snapshot p c session s =
    let key = session_key p session in
    record c {
      entries = JsMap.set key (install [] (project_snapshot s)) c.entries;
      highest = JsMap.set key s.highest_revision c.highest;
    }

unfoldable pub apply_response : Platform → SyncCache → SessionId → SyncResponse → SyncCache
unfolding apply_events apply_snapshot
apply_response p c session (events us) = apply_events p c session us
apply_response p c session (snapshot s) = apply_snapshot p c session s

unfoldable pub apply_sync : Platform → SyncCache → SessionId → SyncResponse → SyncCache
unfolding apply_response
apply_sync p c session response = record (apply_response p c session response) { stale = false }

unfoldable pub cached_entries : Platform → SyncCache → SessionId → List CoordinationUpdate
unfolding entries_at
cached_entries p c session = JsMap.values (entries_at c (session_key p session))
