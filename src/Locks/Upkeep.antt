-- ===== src/Locks/Upkeep.antt =====
-- packages/core-state/src/locks.ts: renames, deletions, expiry, restore and the queries.
use multi_agentic_workflow.Base.{
  ℕ, ◌++◌, List, [], ◌∷◌, Option, none, some, Bool, true, false, not, ◌&&◌, ltb, ◌==◌,
  if◌then◌else◌, find, select, length, push, remove_first,
}
use multi_agentic_workflow.Base.Text.{Text, text_eq}
use multi_agentic_workflow.Base.JsMap
use multi_agentic_workflow.Base.JsMap.{JsMap}
use multi_agentic_workflow.Protocol.{
  Platform, SessionId, MemberRef, Lock, ScopeKind, RiskLevel, soft, coordination_required, hard,
}
use multi_agentic_workflow.Session.{session_key}
use multi_agentic_workflow.RepoPath.{CaseSensitivity}
use multi_agentic_workflow.Locks.Group.{group_key, resolve_group, group_winner, refreshed, held_by}
use multi_agentic_workflow.Locks.{LockRegistry, Groups, groups_at, put, claims_at, restock}

pub record PathTransfer : Type 0 where
  pub session : SessionId
  pub member : MemberRef
  pub from_scope : Text
  pub to_scope : Text
  pub scope_kind : ScopeKind
  pub branch : Text
  pub event_revision : ℕ

-- `claims?.find(lock => !lock.concurrent)`
unfoldable pub winning_lock :
    Platform → LockRegistry → SessionId → Text → ScopeKind → Text → Option Lock
winning_lock p r session scope kind branch =
    find (λ l. not l.concurrent)
      (claims_at (groups_at r (session_key p session))
        (group_key p r.sensitivity scope kind branch))

unfoldable pub claims_for_scope :
    Platform → LockRegistry → SessionId → Text → ScopeKind → Text → List Lock
claims_for_scope p r session scope kind branch =
    claims_at (groups_at r (session_key p session)) (group_key p r.sensitivity scope kind branch)

unfoldable pub concat_claims : Groups → List Lock
concat_claims [] = []
concat_claims ((k, claims) ∷ rest) = claims ++ concat_claims rest

unfoldable pub all_locks : Platform → LockRegistry → SessionId → List Lock
unfolding concat_claims
all_locks p r session = concat_claims (groups_at r (session_key p session))

-- The transferred lock, before it is resolved at its destination.
abbrev pub moved_lock : PathTransfer → Lock → Lock
moved_lock q held = record held {
  scope = q.to_scope;
  event_revision = q.event_revision;
  concurrent = false;
}

pub refreshed_by : Option Lock → Lock → Lock
refreshed_by none l = l
refreshed_by (some w) l = refreshed w l

-- The groups after the member's claim has left the source and joined the destination.
unfoldable pub move_claim :
    Text → Text → List Lock → PathTransfer → Lock → Groups → Groups × Option Lock
unfolding refreshed_by
move_claim from_key to_key claims q held groups =
    let left = restock from_key (remove_first (held_by q.member.member_id) claims) groups in
    let destination = push (claims_at left to_key) (moved_lock q held) in
    (
      JsMap.set to_key (resolve_group destination) left,
      some (refreshed_by (group_winner destination) (moved_lock q held)),
    )

unfoldable pub move_found :
    Text → Text → List Lock → PathTransfer → Option Lock → Groups → Groups × Option Lock
unfolding move_claim
move_found from_key to_key claims q none groups = (groups, none)
move_found from_key to_key claims q (some held) groups =
    move_claim from_key to_key claims q held groups

unfoldable pub transfer_path : Platform → LockRegistry → PathTransfer → LockRegistry × Option Lock
unfolding move_found
transfer_path p r q =
    let key = session_key p q.session in
    let groups = groups_at r key in
    let from_key = group_key p r.sensitivity q.from_scope q.scope_kind q.branch in
    let to_key = group_key p r.sensitivity q.to_scope q.scope_kind q.branch in
    let claims = claims_at groups from_key in
    let done =
      move_found from_key to_key claims q (find (held_by q.member.member_id) claims) groups in
    (put r key done.0, done.1)

unfoldable pub drop_found : Text → List Lock → Text → Option Lock → Groups → Groups × Option Lock
drop_found g_key claims member_id none groups = (groups, none)
drop_found g_key claims member_id (some held) groups =
    (restock g_key (remove_first (held_by member_id) claims) groups, some held)

unfoldable pub release_on_delete :
    Platform
    → LockRegistry
    → SessionId
    → Text
    → ScopeKind
    → Text
    → MemberRef
    → LockRegistry × Option Lock
unfolding drop_found
release_on_delete p r session scope kind branch member =
    let key = session_key p session in
    let groups = groups_at r key in
    let g_key = group_key p r.sensitivity scope kind branch in
    let claims = claims_at groups g_key in
    let done =
      drop_found g_key claims member.member_id (find (held_by member.member_id) claims) groups in
    (put r key done.0, done.1)

-- The loop over the groups that both expiries share: the groups that stay, and the removed locks.
-- A group that loses nothing is left as it is.
unfoldable pub expire_group : (Lock → Bool) → Text → List Lock → Groups → Groups
expire_group stale k [] rest = rest
expire_group stale k (c ∷ cs) rest = (k, resolve_group (c ∷ cs)) ∷ rest

unfoldable pub expire_groups : (Lock → Bool) → Groups → Groups × List Lock
unfolding expire_group
expire_groups stale [] = ([], [])
expire_groups stale ((k, claims) ∷ groups) =
    let rest = expire_groups stale groups in
    let survivors = select (λ l. not (stale l)) claims in
    (
      if length survivors == length claims
          then (k, claims) ∷ rest.0
          else expire_group stale k survivors rest.0,
      select stale claims ++ rest.1,
    )

-- A session that has no state yet gets none.
unfoldable pub expire_session :
    (Lock → Bool) → LockRegistry → Text → Option Groups → LockRegistry × List Lock
expire_session stale r key none = (r, [])
expire_session stale r key (some groups) =
    let done = expire_groups stale groups in (put r key done.0, done.1)

unfoldable pub expire_by_device :
    Platform → LockRegistry → SessionId → Text → LockRegistry × List Lock
unfolding expire_session
expire_by_device p r session device_id =
    let key = session_key p session in
    expire_session (λ l. text_eq l.holder.device_id device_id) r key (JsMap.get key r.sessions)

unfoldable pub is_soft : RiskLevel → Bool
is_soft soft = true
is_soft coordination_required = false
is_soft hard = false

-- `Number.isFinite(acquiredMs) && acquiredMs < cutoffMs`
unfoldable pub before : Option ℕ → ℕ → Bool
before none cutoff = false
before (some acquired) cutoff = ltb acquired cutoff

unfoldable pub soft_and_old : Platform → ℕ → Lock → Bool
unfolding is_soft before
soft_and_old p cutoff l = is_soft l.mode && before (p.date_parse l.acquired_at) cutoff

unfoldable pub expire_soft_locks_acquired_before :
    Platform → LockRegistry → SessionId → ℕ → LockRegistry × List Lock
unfolding expire_session soft_and_old
expire_soft_locks_acquired_before p r session cutoff =
    let key = session_key p session in
    expire_session (soft_and_old p cutoff) r key (JsMap.get key r.sessions)

unfoldable pub regroup : Platform → Option CaseSensitivity → Groups → List Lock → Groups
regroup p s groups [] = groups
regroup p s groups (l ∷ ls) =
    let k = group_key p s l.scope l.scope_kind l.branch in
    regroup p s (JsMap.set k (push (claims_at groups k) l) groups) ls

unfoldable pub resolve_all : Groups → Groups
resolve_all [] = []
resolve_all ((k, claims) ∷ rest) = (k, resolve_group claims) ∷ resolve_all rest

unfoldable pub restore : Platform → LockRegistry → SessionId → List Lock → LockRegistry
unfolding regroup resolve_all
restore p r session locks =
    put r (session_key p session) (resolve_all (regroup p r.sensitivity [] locks))
