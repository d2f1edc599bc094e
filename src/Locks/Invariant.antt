-- ===== src/Locks/Invariant.antt =====
-- Every call on the lock registry keeps its groups non-empty and resolved.
use multi_agentic_workflow.Base.{
  ℕ, ◌≡◌, ◌≢◌, refl, List, [], ◌∷◌, Option, none, some, arith, push, remove_first,
}
use multi_agentic_workflow.Base.Text.{Text}
use multi_agentic_workflow.Base.JsMap
use multi_agentic_workflow.Base.JsMap.{
  JsMap, Holds, set-Holds, delete-Holds, get_or-Holds, get-Holds,
}
use multi_agentic_workflow.Base.MapKeys.{HasKeys, set-HasKeys}
use multi_agentic_workflow.Protocol.{Platform, SessionId, MemberRef, Lock, ScopeKind}
use multi_agentic_workflow.Session.{session_key}
use multi_agentic_workflow.RepoPath.{CaseSensitivity}
use multi_agentic_workflow.Locks.Group.{group_key, held_by}
use multi_agentic_workflow.Locks.{
  LockRegistry, LockAcquisition, LockRelease, Groups, groups_at, claims_at, acquire, release,
  new_registry,
}
use multi_agentic_workflow.Locks.Upkeep.{
  PathTransfer, transfer_path, move_found, release_on_delete, drop_found, expire_by_device,
  expire_soft_locks_acquired_before, regroup, resolve_all, restore,
}
use multi_agentic_workflow.Locks.Stored.{
  AreSettled, IsValid, set-AreSettled, resolve_group-IsSettled, restock-AreSettled, push-ne,
  groups_at-AreSettled, put-IsValid, acquire-IsValid, release-IsValid,
}
use multi_agentic_workflow.Locks.Survivors.{expire_session-IsValid}

move_found-AreSettled :
    (from_key to_key : Text) (claims : List Lock) (q : PathTransfer) (held : Option Lock)
    (groups : Groups)
    → AreSettled groups
    → AreSettled (move_found from_key to_key claims q held groups).0
unfolding move_found
move_found-AreSettled from_key to_key claims q none groups h = h
move_found-AreSettled from_key to_key claims q (some held) groups h =
    set-AreSettled to_key _ _
      (restock-AreSettled from_key (remove_first (held_by q.member.member_id) claims) groups h)
      (resolve_group-IsSettled _ (push-ne _ _))

transfer_path-IsValid :
    (p : Platform) (r : LockRegistry) (q : PathTransfer)
    → IsValid r
    → IsValid (transfer_path p r q).0
unfolding transfer_path
transfer_path-IsValid p r q v =
    let key = session_key p q.session in
    put-IsValid r key _ v
      (move_found-AreSettled _ _ _ q _ (groups_at r key) (groups_at-AreSettled r key v))

drop_found-AreSettled :
    (k : Text) (claims : List Lock) (member_id : Text) (held : Option Lock) (groups : Groups)
    → AreSettled groups
    → AreSettled (drop_found k claims member_id held groups).0
unfolding drop_found
drop_found-AreSettled k claims member_id none groups h = h
drop_found-AreSettled k claims member_id (some held) groups h =
    restock-AreSettled k (remove_first (held_by member_id) claims) groups h

release_on_delete-IsValid :
    (p : Platform) (r : LockRegistry) (session : SessionId) (scope : Text) (kind : ScopeKind)
    (branch : Text) (member : MemberRef)
    → IsValid r
    → IsValid (release_on_delete p r session scope kind branch member).0
unfolding release_on_delete
release_on_delete-IsValid p r session scope kind branch member v =
    let key = session_key p session in
    put-IsValid r key _ v (
      drop_found-AreSettled _ _ member.member_id _ (groups_at r key) (groups_at-AreSettled r key v))

-- Filing gives non-empty groups, and resolving each of those settles it.
abbrev HasClaim : List Lock → Type 0
HasClaim claims = claims ≢ []

AreFiled : Groups → Type 0
AreFiled groups = Holds HasClaim groups × HasKeys groups

regroup-AreFiled :
    (p : Platform) (s : Option CaseSensitivity) (groups : Groups) (locks : List Lock)
    → AreFiled groups
    → AreFiled (regroup p s groups locks)
unfolding regroup AreFiled
regroup-AreFiled p s groups [] h = h
regroup-AreFiled p s groups (l ∷ ls) h =
    let k = group_key p s l.scope l.scope_kind l.branch in
    regroup-AreFiled p s (JsMap.set k (push (claims_at groups k) l) groups) ls
      (set-Holds HasClaim k _ groups h.0 (push-ne _ _), set-HasKeys k _ groups h.1)

get-resolve_all :
    (k : Text) (groups : Groups)
    → JsMap.get k groups ≡ none
    → JsMap.get k (resolve_all groups) ≡ none
unfolding resolve_all JsMap.get
get-resolve_all k [] h = refl
get-resolve_all k ((j, claims) ∷ groups) h = ground (arith, h, get-resolve_all k groups)

resolve_all-AreSettled : (groups : Groups) → AreFiled groups → AreSettled (resolve_all groups)
unfolding resolve_all AreFiled
resolve_all-AreSettled [] h = (tt, tt)
resolve_all-AreSettled ((k, claims) ∷ groups) h =
    let ih = resolve_all-AreSettled groups (h.0.1, h.1.1) in
    ((resolve_group-IsSettled claims h.0.0, ih.0), (get-resolve_all k groups h.1.0, ih.1))

restore-IsValid :
    (p : Platform) (r : LockRegistry) (session : SessionId) (locks : List Lock)
    → IsValid r
    → IsValid (restore p r session locks)
unfolding restore AreFiled
restore-IsValid p r session locks v =
    put-IsValid r (session_key p session) _ v
      (resolve_all-AreSettled _ (regroup-AreFiled p r.sensitivity [] locks (tt, tt)))

-- The calls that change a registry.
pub data Call : Type 0 where
  acquires : LockAcquisition → Call
  releases : LockRelease → Call
  transfers : PathTransfer → Call
  deletes : SessionId → Text → ScopeKind → Text → MemberRef → Call
  expires_device : SessionId → Text → Call
  expires_soft : SessionId → ℕ → Call
  restores : SessionId → List Lock → Call

unfoldable pub step : Platform → LockRegistry → Call → LockRegistry
step p r (acquires q) = (acquire p r q).0
step p r (releases q) = (release p r q).0
step p r (transfers q) = (transfer_path p r q).0
step p r (deletes session scope kind branch member) =
    (release_on_delete p r session scope kind branch member).0
step p r (expires_device session device_id) = (expire_by_device p r session device_id).0
step p r (expires_soft session cutoff) = (expire_soft_locks_acquired_before p r session cutoff).0
step p r (restores session locks) = restore p r session locks

step-IsValid : (p : Platform) (r : LockRegistry) (c : Call) → IsValid r → IsValid (step p r c)
unfolding step expire_by_device expire_soft_locks_acquired_before
step-IsValid p r (acquires q) v = acquire-IsValid p r q v
step-IsValid p r (releases q) v = release-IsValid p r q v
step-IsValid p r (transfers q) v = transfer_path-IsValid p r q v
step-IsValid p r (deletes session scope kind branch member) v =
    release_on_delete-IsValid p r session scope kind branch member v
step-IsValid p r (expires_device session device_id) v =
    expire_session-IsValid _ r (session_key p session) _ v refl
step-IsValid p r (expires_soft session cutoff) v =
    expire_session-IsValid _ r (session_key p session) _ v refl
step-IsValid p r (restores session locks) v = restore-IsValid p r session locks v

unfoldable pub run : Platform → LockRegistry → List Call → LockRegistry
run p r [] = r
run p r (c ∷ cs) = run p (step p r c) cs

run-IsValid : (p : Platform) (r : LockRegistry) (cs : List Call) → IsValid r → IsValid (run p r cs)
unfolding run
run-IsValid p r [] v = v
run-IsValid p r (c ∷ cs) v = run-IsValid p (step p r c) cs (step-IsValid p r c v)

-- After any history of calls from an empty registry, every stored group has a claim, and resolving
-- it again changes nothing.
pub run-new_registry-IsValid :
    (p : Platform) (s : Option CaseSensitivity) (cs : List Call)
    → IsValid (run p (new_registry s) cs)
run-new_registry-IsValid p s cs = run-IsValid p (new_registry s) cs tt
