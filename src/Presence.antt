-- ===== src/Presence.antt =====
-- packages/core-state/src/presence.ts: who is editing which path. A call returns the new registry
-- with its result.
pub mod Order
pub mod Stop
mod Tests
use multi_agentic_workflow.Base.{
  ℕ, ◌++◌, List, [], ◌∷◌, Option, none, some, Bool, true, false, not, ltb, leb, if◌then◌else◌,
  select, push,
}
use multi_agentic_workflow.Base.Text.{Text, text_eq, text_lt}
use multi_agentic_workflow.Base.JsMap
use multi_agentic_workflow.Base.JsMap.{JsMap}
use multi_agentic_workflow.Protocol.{
  Platform, SessionId, MemberRef, PresenceState, started, editing, stopped, Presence,
}
use multi_agentic_workflow.Session.{session_key}
use multi_agentic_workflow.RepoPath.{CaseSensitivity, normalize_path, normalized_key}

abbrev pub Entries : Type 0
Entries = JsMap Presence

pub record PresenceRegistry : Type 0 where
  pub sensitivity : Option CaseSensitivity
  pub sessions : JsMap Entries

pub record PresenceReport : Type 0 where
  pub session : SessionId
  pub member : MemberRef
  pub path : Text
  pub state : PresenceState
  pub event_revision : ℕ

abbrev pub new_registry : Option CaseSensitivity → PresenceRegistry
new_registry s = record { sensitivity = s; sessions = [] }

unfoldable pub entry_key : Platform → Option CaseSensitivity → MemberRef → Text → Text
entry_key p s member path = member.member_id ++ 0 ∷ normalized_key p s (normalize_path path)

unfoldable pub entries_at : PresenceRegistry → Text → Entries
entries_at r key = JsMap.get_or key [] r.sessions

-- The session's entries are one object: writing them back is what its mutation amounts to.
unfoldable pub put : PresenceRegistry → Text → Entries → PresenceRegistry
put r key entries = record r { sessions = JsMap.set key entries r.sessions }

abbrev pub presence_of : PresenceReport → Presence
presence_of q = record {
  member = q.member;
  path = normalize_path q.path;
  state = q.state;
  event_revision = q.event_revision;
}

-- What stands under a report's key afterwards: the existing entry when the report is stale.
unfoldable pub newest : Option Presence → Presence → Presence
newest none new = new
newest (some existing) new =
    if ltb new.event_revision existing.event_revision then existing else new

unfoldable pub report : Platform → PresenceRegistry → PresenceReport → PresenceRegistry × Presence
report p r q =
    let key = session_key p q.session in
    let entries = entries_at r key in
    let e_key = entry_key p r.sensitivity q.member q.path in
    let stored = newest (JsMap.get e_key entries) (presence_of q) in
    (put r key (JsMap.set e_key stored entries), stored)

unfoldable pub all : Platform → PresenceRegistry → SessionId → List Presence
all p r session = JsMap.values (entries_at r (session_key p session))

abbrev pub is_active : Presence → Bool
is_active e = elim e.state [ stopped ↦ false | _ ↦ true ]

unfoldable pub active : Platform → PresenceRegistry → SessionId → List Presence
active p r session = select is_active (all p r session)

pub active_for_path : Platform → PresenceRegistry → SessionId → Text → List Presence
active_for_path p r session path =
    let target = normalized_key p r.sensitivity (normalize_path path) in
    select (λ e. text_eq (normalized_key p r.sensitivity e.path) target) (active p r session)

-- Whether the comparator of `activeForDevice` is negative: by path, then by member.
unfoldable pub precedes : Presence → Presence → Bool
precedes a b =
    if text_eq a.path b.path
    then text_lt a.member.member_id b.member.member_id
    else text_lt a.path b.path

unfoldable pub insert_entry : Presence → List Presence → List Presence
insert_entry e [] = e ∷ []
insert_entry e (x ∷ xs) =
    let rest = insert_entry e xs in if precedes e x then e ∷ x ∷ xs else x ∷ rest

unfoldable pub sort_entries : List Presence → List Presence → List Presence
sort_entries sorted [] = sorted
sort_entries sorted (e ∷ es) = sort_entries (insert_entry e sorted) es

unfoldable pub active_for_device : Platform → PresenceRegistry → SessionId → Text → List Presence
active_for_device p r session device_id =
    sort_entries [] (select (λ e. text_eq e.member.device_id device_id) (active p r session))

abbrev pub stop_report : SessionId → Presence → ℕ → PresenceReport
stop_report session e revision = record {
  session = session;
  member = e.member;
  path = e.path;
  state = stopped;
  event_revision = revision;
}

-- The loop of `stopActiveForDevice`, with the allocator's own state. An allocated number that is
-- not finite (`none`) or not newer throws a RangeError: the result is `none` and the entries
-- stopped so far stay stopped.
unfoldable pub stop_each :
    {A : Type 0}
    → Platform
    → (A → Presence → A × Option ℕ)
    → SessionId
    → PresenceRegistry
    → A
    → List Presence
    → List Presence
    → (PresenceRegistry × A) × Option (List Presence)
stop_each p allocate session r a [] ended = ((r, a), some ended)
stop_each p allocate session r a (e ∷ es) ended =
    let given = allocate a e in
    elim given.1 [
      | none ↦ ((r, given.0), none)
      | some revision ↦
          let done = report p r (stop_report session e revision) in
          let rest = stop_each p allocate session done.0 given.0 es (push ended done.1) in
          if leb revision e.event_revision then ((r, given.0), none) else rest
    ]

unfoldable pub stop_active_for_device :
    {A : Type 0}
    → Platform
    → (A → Presence → A × Option ℕ)
    → PresenceRegistry
    → A
    → SessionId
    → Text
    → (PresenceRegistry × A) × Option (List Presence)
stop_active_for_device p allocate r a session device_id =
    stop_each p allocate session r a (active_for_device p r session device_id) []

-- A restored entry replaces one with the same key unless it is older.
abbrev pub reinstalled : Presence → Presence
reinstalled e = record e { path = normalize_path e.path }

unfoldable pub reinstall : Platform → Option CaseSensitivity → Entries → List Presence → Entries
reinstall p s entries [] = entries
reinstall p s entries (e ∷ es) =
    let key = entry_key p s e.member e.path in
    reinstall p s (JsMap.set key (newest (JsMap.get key entries) (reinstalled e)) entries) es

unfoldable pub restore : Platform → PresenceRegistry → SessionId → List Presence → PresenceRegistry
restore p r session es = put r (session_key p session) (reinstall p r.sensitivity [] es)

unfoldable pub for_member_path :
    Platform → PresenceRegistry → SessionId → MemberRef → Text → Option Presence
for_member_path p r session member path =
    JsMap.get (entry_key p r.sensitivity member path) (entries_at r (session_key p session))
