-- ===== src/Locks/Tests.antt =====
-- The theorems on the lock registry, at a registry with two contending claims.
use multi_agentic_workflow.Base.{ℕ, ◌≡◌, ◌⊎◌, refl, List, [], ◌∷◌, none, some, true, false, find}
use multi_agentic_workflow.Base.Text.{Text, codes, text_eq}
use multi_agentic_workflow.Base.JsMap
use multi_agentic_workflow.Base.JsMap.{Holds}
use multi_agentic_workflow.Protocol.{Lock, MemberRef, file, hard, not_lock_holder}
use multi_agentic_workflow.Session.{session_key}
use multi_agentic_workflow.RepoPath.{normalize_path_key}
use multi_agentic_workflow.Fixtures.{platform, session, alice, bob}
use multi_agentic_workflow.Locks.{
  LockRegistry, LockAcquisition, AcquireOutcome, LockRelease, ReleaseResult, released, refused,
  new_registry, groups_at, claims_at, put, enlist, acquire, release,
}
use multi_agentic_workflow.Locks.Group.{group_key, resolve_group, refreshed, held_by}
use multi_agentic_workflow.Locks.Upkeep.{winning_lock, claims_for_scope}
use multi_agentic_workflow.Locks.Settled.{id_of}
use multi_agentic_workflow.Locks.Invariant.{Call, acquires, step, run, run-new_registry-IsValid}
use multi_agentic_workflow.Locks.Contention.{IsEarliest, winning_lock-IsEarliest}
use multi_agentic_workflow.Locks.Flagged.{AreFlagged, run-new_registry-AreFlagged}
use multi_agentic_workflow.Locks.Acquired.{IsEnlisted, IsReported, acquire_reports}
use multi_agentic_workflow.Locks.Release.{release_refused, release_promotes, IsReleased}

abbrev claim : Text → MemberRef → ℕ → LockAcquisition
claim id holder revision = record {
  session = session;
  lock_id = id;
  scope = codes "a/b";
  scope_kind = file;
  mode = hard;
  holder = holder;
  branch = codes "main";
  event_revision = revision;
  acquired_at = [];
}

abbrev calls : List Call
calls = acquires (claim (codes "l2") bob 5) ∷ acquires (claim (codes "l1") alice 3) ∷ []

abbrev registry : LockRegistry
registry = run platform (new_registry none) calls

run-new_registry-AreFlagged_example :
    Holds (Holds AreFlagged) (run platform (new_registry none) calls).sessions
run-new_registry-AreFlagged_example = run-new_registry-AreFlagged platform none calls

winning_lock-IsEarliest_example :
    ((claims_for_scope platform registry session (codes "a/b") file (codes "main") ≡ [])
      × (id_of (winning_lock platform registry session (codes "a/b") file (codes "main")) ≡ none))
    ⊎ ((w : Lock) × IsEarliest w
          (claims_for_scope platform registry session (codes "a/b") file (codes "main"))
        × (id_of (winning_lock platform registry session (codes "a/b") file (codes "main"))
            ≡ some w.lock_id))
winning_lock-IsEarliest_example =
    winning_lock-IsEarliest platform registry session (codes "a/b") file (codes "main")
      (run-new_registry-IsValid platform none calls)

abbrev again : LockAcquisition
again = claim (codes "l3") bob 9

acquire_reports_example :
    let before = claims_for_scope platform registry session (codes "a/b") file (codes "main") in
    let after =
      claims_for_scope platform
        (acquire platform registry again).0
        session
        (codes "a/b")
        file
        (codes "main") in
    (o : AcquireOutcome) × ((acquire platform registry again).1 ≡ some o)
    × IsEnlisted again before after o.lock
    × IsReported after o
acquire_reports_example = acquire_reports platform registry again

abbrev held : Lock
held = record {
  lock_id = codes "l2";
  scope = codes "a/b";
  scope_kind = file;
  mode = hard;
  holder = bob;
  branch = codes "main";
  event_revision = 5;
  acquired_at = [];
  concurrent = true;
}

mine :
    find
      (held_by (codes "bob"))
      (claims_for_scope platform registry session (codes "a/b") file (codes "main"))
    ≡ some held
unfolding claims_for_scope claims_at JsMap.get_or JsMap.get groups_at run step acquire put JsMap.set
    text_eq session_key group_key normalize_path_key enlist resolve_group
    multi_agentic_workflow.Conflict.resolve_by_earliest_revision multi_agentic_workflow.Conflict.tag
    multi_agentic_workflow.Conflict.earliest multi_agentic_workflow.Conflict.compare_claims
    multi_agentic_workflow.Conflict.compare_keys
mine = refl

abbrev request : MemberRef → LockRelease
request who = record {
  session = session;
  requester = who;
  branch = codes "main";
  lock_id = none;
  scope = some (codes "a//b");
}

is_refused : (release platform registry (request bob)).1 ≡ refused not_lock_holder
unfolding claims_for_scope claims_at JsMap.get_or JsMap.get groups_at run step acquire put JsMap.set
    text_eq session_key group_key normalize_path_key enlist resolve_group release
    multi_agentic_workflow.Locks.locate multi_agentic_workflow.Conflict.resolve_by_earliest_revision
    multi_agentic_workflow.Conflict.tag multi_agentic_workflow.Conflict.earliest
    multi_agentic_workflow.Conflict.compare_claims multi_agentic_workflow.Conflict.compare_keys
    multi_agentic_workflow.Locks.Group.group_winner
is_refused = refl

release_refused_example :
    claims_at (groups_at (release platform registry (request bob)).0 (codes "key")) (codes "k")
    ≡ claims_at (groups_at registry (codes "key")) (codes "k")
release_refused_example =
    release_refused platform registry (request bob) not_lock_holder (codes "key") (codes "k")
      (run-new_registry-IsValid platform none calls) is_refused

abbrev winner : Lock
winner = record held {
  lock_id = codes "l1";
  holder = alice;
  event_revision = 3;
  concurrent = false;
}

is_released :
    (release platform registry (request alice)).1
    ≡ released winner (some (record held { concurrent = false }))
unfolding claims_for_scope claims_at JsMap.get_or JsMap.get groups_at run step acquire put JsMap.set
    text_eq session_key group_key normalize_path_key enlist resolve_group release
    multi_agentic_workflow.Locks.locate multi_agentic_workflow.Conflict.resolve_by_earliest_revision
    multi_agentic_workflow.Conflict.tag multi_agentic_workflow.Conflict.earliest
    multi_agentic_workflow.Conflict.compare_claims multi_agentic_workflow.Conflict.compare_keys
    multi_agentic_workflow.Locks.Group.group_winner
is_released = refl

release_promotes_example :
    (k : Text) × IsReleased
      (request alice)
      (groups_at registry (session_key platform session))
      (groups_at (release platform registry (request alice)).0 (session_key platform session))
      k
      (claims_at (groups_at registry (session_key platform session)) k)
      winner
      (some (record held { concurrent = false }))
release_promotes_example =
    release_promotes platform registry (request alice) winner
      (some (record held { concurrent = false })) (run-new_registry-IsValid platform none calls)
      is_released
