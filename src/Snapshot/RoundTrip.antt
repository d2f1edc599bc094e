-- ===== src/Snapshot/RoundTrip.antt =====
-- Serializing a session and restoring it gives the registries that it was taken from.
use multi_agentic_workflow.Base.{◌≡◌, refl, ◌∙◌, ap, List, [], ◌∷◌, Option, some, max, All}
use multi_agentic_workflow.Base.Text.{Text}
use multi_agentic_workflow.Base.JsMap
use multi_agentic_workflow.Base.MapKeys.{HasKeys, AreUnder}
use multi_agentic_workflow.Protocol.{Platform, SessionId, Lock}
use multi_agentic_workflow.Session.{session_key}
use multi_agentic_workflow.RepoPath.{CaseSensitivity}
use multi_agentic_workflow.Revisions.{resume, highest_at}
use multi_agentic_workflow.Locks
use multi_agentic_workflow.Locks.{Groups, groups_at}
use multi_agentic_workflow.Locks.Stored.{AreSettled, groups_at-AreSettled}
use multi_agentic_workflow.Locks.Invariant.{Call, run, run-new_registry-IsValid}
use multi_agentic_workflow.Locks.Filed.{AreUnderKey, AreFiledGroups}
use multi_agentic_workflow.Locks.Histories.{IsNamed, groups_at-AreFiled, run-new_registry-AreFiled}
use multi_agentic_workflow.Locks.Upkeep
use multi_agentic_workflow.Intents.State
use multi_agentic_workflow.Intents.State.{intents_at}
use multi_agentic_workflow.Intents.Queries
use multi_agentic_workflow.Intents.Reconcile
use multi_agentic_workflow.Presence
use multi_agentic_workflow.Presence.{entries_at}
use multi_agentic_workflow.Snapshot.{
  SessionRegistries, serialize_session_state, with_counter, reinstalled, max_persisted_revision,
  restore_session_state,
}
use multi_agentic_workflow.Snapshot.Refiled.{
  AreClaims, IsEntry, HasId, unmarked_each, refiled_locks, refiled_presence, refiled_intents,
}

-- What the registries hold of a session stands once, under the key that is computed from it, and the
-- groups of claims are resolved.
abbrev pub IsStored : Platform → SessionId → SessionRegistries → Type 0
IsStored p session r =
    let key = session_key p session in
    AreSettled (groups_at r.locks key)
    × AreUnder (AreClaims p r.locks.sensitivity) (groups_at r.locks key)
    × HasKeys (entries_at r.presences key)
    × AreUnder (IsEntry p r.presences.sensitivity) (entries_at r.presences key)
    × HasKeys (intents_at r.intents key)
    × AreUnder HasId (intents_at r.intents key)

restored_locks :
    (p : Platform) (session : SessionId) (r r0 : Locks.LockRegistry)
    → r0.sensitivity ≡ r.sensitivity
    → AreSettled (groups_at r (session_key p session))
    → AreUnder (AreClaims p r.sensitivity) (groups_at r (session_key p session))
    → groups_at (Upkeep.restore p r0 session (Upkeep.all_locks p r session)) (session_key p session)
      ≡ groups_at r (session_key p session)
unfolding Upkeep.restore Upkeep.all_locks Locks.put Locks.groups_at
restored_locks p session r r0 same settled under =
    let key = session_key p session in
    JsMap.get_or-set_self key [] _ r0.sessions
    ∙ ap
        (λ s.
          Upkeep.resolve_all
            (Upkeep.regroup p s [] (Upkeep.concat_claims (JsMap.get_or key [] r.sessions))))
        same
    ∙ refiled_locks p r.sensitivity (JsMap.get_or key [] r.sessions) settled under

restored_presence :
    (p : Platform) (session : SessionId) (r r0 : Presence.PresenceRegistry)
    → r0.sensitivity ≡ r.sensitivity
    → HasKeys (entries_at r (session_key p session))
    → AreUnder (IsEntry p r.sensitivity) (entries_at r (session_key p session))
    → entries_at (Presence.restore p r0 session (Presence.all p r session)) (session_key p session)
      ≡ entries_at r (session_key p session)
unfolding Presence.restore Presence.all Presence.put Presence.entries_at
restored_presence p session r r0 same keys under =
    let key = session_key p session in
    JsMap.get_or-set_self key [] _ r0.sessions
    ∙ ap (λ s. Presence.reinstall p s [] (JsMap.values (JsMap.get_or key [] r.sessions))) same
    ∙ refiled_presence p r.sensitivity (JsMap.get_or key [] r.sessions) keys under

restored_intents :
    (p : Platform) (session : SessionId) (r r0 : State.IntentRegistry)
    → HasKeys (intents_at r (session_key p session))
    → AreUnder HasId (intents_at r (session_key p session))
    → intents_at
        (Reconcile.restore p r0 session (Queries.all_intents p r session))
        (session_key p session)
      ≡ unmarked_each (intents_at r (session_key p session))
unfolding Reconcile.restore Queries.all_intents State.put State.intents_at
restored_intents p session r r0 keys under =
    let key = session_key p session in
    JsMap.get_or-set_self key [] _ r0.sessions
    ∙ refiled_intents p (JsMap.get_or key [] r.sessions) keys under

-- Where the registries hold what they store of a session under its keys, restoring the session's
-- serialized state into registries with the same case sensitivity succeeds, and gives back the
-- session's groups of lock claims and its presence entries as they were, in their order, and its
-- intents without their progress markers.
pub restore-serialize :
    (p : Platform) (session : SessionId) (r r0 : SessionRegistries)
    → IsStored p session r
    → r0.locks.sensitivity ≡ r.locks.sensitivity
    → r0.presences.sensitivity ≡ r.presences.sensitivity
    → let key = session_key p session in
      (r' : SessionRegistries) × (restore_session_state p (serialize_session_state p session r) r0
        ≡ some r')
      × (groups_at r'.locks key ≡ groups_at r.locks key)
      × (entries_at r'.presences key ≡ entries_at r.presences key)
      × (intents_at r'.intents key ≡ unmarked_each (intents_at r.intents key))
unfolding restore_session_state with_counter resume reinstalled serialize_session_state
restore-serialize p session r r0 stored same_locks same_presence =
    let s = serialize_session_state p session r in
    (
      record (reinstalled p s r0) {
        revisions = record {
          counters =
              JsMap.set (session_key p session)
                (max (highest_at r0.revisions (session_key p session)) (max_persisted_revision s))
                r0.revisions.counters;
        };
      },
      refl,
      restored_locks p session r.locks r0.locks same_locks stored.0 stored.1,
      restored_presence p session r.presences r0.presences same_presence stored.2 stored.3,
      restored_intents p session r.intents r0.intents stored.4 stored.5,
    )

unnamed :
    (p : Platform) (s : Option CaseSensitivity) (k : Text) (claims : List Lock)
    → AreUnderKey p s k claims
    → AreClaims p s k claims
unnamed p s k [] h = tt
unnamed p s k (l ∷ claims) h = (h.0.0, unnamed p s k claims h.1)

unnamed_groups :
    (p : Platform) (s : Option CaseSensitivity) (groups : Groups)
    → AreFiledGroups p s groups
    → AreUnder (AreClaims p s) groups
unnamed_groups p s [] h = tt
unnamed_groups p s ((k, claims) ∷ groups) h =
    (unnamed p s k claims h.0, unnamed_groups p s groups h.1)

-- After any history of calls from an empty lock registry whose branch names are free of the
-- separator, restoring the list of a session's locks into a registry with the same case sensitivity
-- gives back the session's groups of claims, with their order and their flags.
pub restore-all_locks :
    (p : Platform) (session : SessionId) (s : Option CaseSensitivity) (cs : List Call)
    (r0 : Locks.LockRegistry)
    → All IsNamed cs
    → let r = run p (Locks.new_registry s) cs in
      r0.sensitivity ≡ r.sensitivity
      → groups_at
          (Upkeep.restore p r0 session (Upkeep.all_locks p r session))
          (session_key p session)
        ≡ groups_at r (session_key p session)
restore-all_locks p session s cs r0 named same =
    let r = run p (Locks.new_registry s) cs in
    let key = session_key p session in
    restored_locks p session r r0 same
      (groups_at-AreSettled r key (run-new_registry-IsValid p s cs))
      (unnamed_groups p r.sensitivity (groups_at r key)
        (groups_at-AreFiled p r key (run-new_registry-AreFiled p s cs named)))
