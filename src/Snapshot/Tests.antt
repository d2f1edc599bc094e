-- ===== src/Snapshot/Tests.antt =====
-- The theorems on snapshots, at registries with two claims on one file, a presence and an intent.
use multi_agentic_workflow.Base.{
  ℕ, ◌<◌, ◌++◌, ◌≡◌, refl, List, [], ◌∷◌, none, some, Bool, true, false, arith,
}
use multi_agentic_workflow.Base.Text.{Text, codes, text_eq}
use multi_agentic_workflow.Base.JsMap
use multi_agentic_workflow.Protocol.{MemberRef, Lock, file, soft, editing, DeclaredIntent}
use multi_agentic_workflow.Session.{session_key}
use multi_agentic_workflow.RepoPath.{normalize_path}
use multi_agentic_workflow.Fixtures.{platform, session, alice, bob}
use multi_agentic_workflow.Revisions.{highest, next}
use multi_agentic_workflow.Locks
use multi_agentic_workflow.Locks.{groups_at}
use multi_agentic_workflow.Locks.Group.{resolve_group}
use multi_agentic_workflow.Locks.Filed.{IsName}
use multi_agentic_workflow.Locks.Invariant.{Call, restores, transfers, run}
use multi_agentic_workflow.Locks.Upkeep.{PathTransfer, all_locks, restore}
use multi_agentic_workflow.Intents.State.{intents_at}
use multi_agentic_workflow.Presence
use multi_agentic_workflow.Presence.{entries_at}
use multi_agentic_workflow.Snapshot.{
  SessionRegistries, serialize_session_state, restore_session_state,
}
use multi_agentic_workflow.Snapshot.Refiled.{unmarked_each}
use multi_agentic_workflow.Snapshot.RoundTrip.{IsStored, restore-serialize, restore-all_locks}
use multi_agentic_workflow.Snapshot.Resumed.{AreBelow, restore_session_state-AreBelow}

abbrev claim : Text → MemberRef → ℕ → Bool → Lock
claim id holder revision concurrent = record {
  lock_id = id;
  scope = codes "a";
  scope_kind = file;
  mode = soft;
  holder = holder;
  branch = codes "main";
  event_revision = revision;
  acquired_at = [];
  concurrent = concurrent;
}

abbrev alice_intent : DeclaredIntent
alice_intent = record {
  intent_id = codes "i";
  owner = alice;
  agent_id = codes "agent";
  modify_paths = codes "a" ∷ [];
  create_paths = [];
  scope_kind = file;
  branch = codes "main";
  description = codes "work";
  event_revision = 2;
}

abbrev here : Text
here = session_key platform session

abbrev fresh : SessionRegistries
fresh = record {
  locks = record { sensitivity = none; sessions = [] };
  intents = record { sensitivity = none; sessions = []; tracked = [] };
  presences = record { sensitivity = none; sessions = [] };
  revisions = record { counters = [] };
  messages = none;
  tasks = some [];
  notifications = none;
  diffs = some [];
}

abbrev claims : List Lock
claims = claim (codes "l1") alice 3 false ∷ claim (codes "l2") bob 4 true ∷ []

abbrev used : SessionRegistries
used = record fresh {
  locks = record {
    sensitivity = none;
    sessions = (here, (codes "main" ++ (0 ∷ codes "path:a"), claims) ∷ []) ∷ [];
  };
  intents = record {
    sensitivity = none;
    sessions =
        (here, (codes "i", record { intent = alice_intent; in_progress = codes "a" ∷ [] }) ∷ [])
        ∷ [];
    tracked = [];
  };
  presences = record {
    sensitivity = none;
    sessions =
        (
          here,
          (
            codes "alice" ++ (0 ∷ codes "a"),
            record { member = alice; path = codes "a"; state = editing; event_revision = 1 },
          )
              ∷ [],
        )
        ∷ [];
  };
  revisions = record { counters = (here, 4) ∷ [] };
}

used-IsStored : IsStored platform session used
unfolding groups_at entries_at intents_at JsMap.get_or JsMap.get text_eq session_key resolve_group
    multi_agentic_workflow.Conflict.resolve_by_earliest_revision multi_agentic_workflow.Conflict.tag
    multi_agentic_workflow.Conflict.earliest multi_agentic_workflow.Conflict.compare_claims
    multi_agentic_workflow.Conflict.compare_keys multi_agentic_workflow.Locks.Group.group_key
    multi_agentic_workflow.Locks.Group.write_flag normalize_path Presence.entry_key
    multi_agentic_workflow.RepoPath.normalize_path_key
    multi_agentic_workflow.RepoPath.normalized_key
used-IsStored = (
  ((((λ e. cc), refl), tt), (refl, tt)),
  ((refl, (refl, tt)), tt),
  (refl, tt),
  ((refl, refl), tt),
  (refl, tt),
  (refl, tt),
)

restore-serialize_example :
    (r' : SessionRegistries) × (restore_session_state platform
        (serialize_session_state platform session used)
        fresh
      ≡ some r')
    × (groups_at r'.locks here ≡ groups_at used.locks here)
    × (entries_at r'.presences here ≡ entries_at used.presences here)
    × (intents_at r'.intents here ≡ unmarked_each (intents_at used.intents here))
restore-serialize_example = restore-serialize platform session used fresh used-IsStored refl refl

restore_session_state-AreBelow_example :
    (r' : SessionRegistries) × (restore_session_state platform
        (serialize_session_state platform session used)
        fresh
      ≡ some r')
    × (highest platform fresh.revisions session < (next platform r'.revisions session).1)
    × AreBelow
        (next platform r'.revisions session).1
        (serialize_session_state platform session used)
unfolding serialize_session_state
restore_session_state-AreBelow_example =
    restore_session_state-AreBelow platform (serialize_session_state platform session used) fresh

abbrev transfer : PathTransfer
transfer = record {
  session = session;
  member = bob;
  from_scope = codes "a";
  to_scope = codes "b";
  scope_kind = file;
  branch = codes "main";
  event_revision = 5;
}

abbrev calls : List Call
calls = restores session claims ∷ transfers transfer ∷ []

main-IsName : IsName (codes "main")
main-IsName = (
  λ e. omega (arith, e),
  (λ e. omega (arith, e), (λ e. omega (arith, e), (λ e. omega (arith, e), tt))),
)

restore-all_locks_example :
    let r = run platform (Locks.new_registry none) calls in
    groups_at
      (restore platform
        (record { sensitivity = r.sensitivity; sessions = [] })
        session
        (all_locks platform r session))
      here
    ≡ groups_at r here
restore-all_locks_example =
    let r = run platform (Locks.new_registry none) calls in
    restore-all_locks platform session none calls
      (record { sensitivity = r.sensitivity; sessions = [] })
      ((main-IsName, (main-IsName, tt)), (main-IsName, tt)) refl
