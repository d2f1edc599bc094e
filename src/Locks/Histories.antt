-- ===== src/Locks/Histories.antt =====
-- Every registry that calls can lead to holds its claims under their own keys.
use multi_agentic_workflow.Base.{
  ◌≡◌, refl, inl, inr, List, [], ◌∷◌, Option, none, some, Bool, arith, All, select-All, Bool-cases,
}
use multi_agentic_workflow.Base.Text.{Text, text_eq}
use multi_agentic_workflow.Base.JsMap
use multi_agentic_workflow.Base.JsMap.{JsMap, Holds, set-Holds, get_or-Holds, get-Holds}
use multi_agentic_workflow.Base.MapKeys.{set-AreUnder}
use multi_agentic_workflow.Protocol.{Platform, MemberRef, Lock}
use multi_agentic_workflow.Session.{session_key}
use multi_agentic_workflow.RepoPath.{CaseSensitivity}
use multi_agentic_workflow.Locks.Group.{group_key, resolve_group, group_winner}
use multi_agentic_workflow.Locks.{
  LockRegistry, LockRelease, Groups, groups_at, put, new_registry, locate, locate_for,
  locate_scoped, matches_scope, has_lock, release, release_located, release_from, release_winner,
  acquire,
}
use multi_agentic_workflow.Locks.Upkeep.{
  transfer_path, release_on_delete, expire_by_device, expire_session,
  expire_soft_locks_acquired_before, restore,
}
use multi_agentic_workflow.Locks.Filed.{
  IsName, IsUnder, AreUnderKey, AreFiledGroups, resolved-AreUnderKey, restock-AreFiledGroups,
  acquired-AreFiledGroups, move_found-AreFiledGroups, drop_found-AreFiledGroups,
  expire_groups-AreFiledGroups, regroup-AreFiledGroups, resolve_all-AreFiledGroups,
  locate_first-AreUnderKey,
}
use multi_agentic_workflow.Locks.Invariant.{
  Call, acquires, releases, transfers, deletes, expires_device, expires_soft, restores, step, run,
}

-- The branches that a call names are names.
abbrev pub IsNamed : Call → Type 0
IsNamed (acquires q) = IsName q.branch
IsNamed (transfers q) = IsName q.branch
IsNamed (restores session locks) = All (λ (l : Lock). IsName l.branch) locks
IsNamed _ = Unit {0}

module _ (p : Platform) where
  abbrev pub AreFiled : LockRegistry → Type 0
  AreFiled r = Holds (AreFiledGroups p r.sensitivity) r.sessions

  pub groups_at-AreFiled :
      (r : LockRegistry) (key : Text)
      → AreFiled r
      → AreFiledGroups p r.sensitivity (groups_at r key)
  unfolding groups_at
  groups_at-AreFiled r key h = get_or-Holds (AreFiledGroups p r.sensitivity) key [] r.sessions h tt

  put-AreFiled :
      (r : LockRegistry) (key : Text) (groups : Groups)
      → AreFiled r
      → AreFiledGroups p r.sensitivity groups
      → AreFiled (put r key groups)
  unfolding put
  put-AreFiled r key groups h g =
      set-Holds (AreFiledGroups p r.sensitivity) key groups r.sessions h g

  release_from-AreFiledGroups :
      (s : Option CaseSensitivity) (groups : Groups) (k : Text) (claims : List Lock) (m : MemberRef)
      (w : Option Lock)
      → AreFiledGroups p s groups
      → AreUnderKey p s k claims
      → AreFiledGroups p s (release_from groups k claims m w).0
  unfolding release_from release_winner
  release_from-AreFiledGroups s groups k claims m none h a = h
  release_from-AreFiledGroups s groups k claims m (some w) h a =
      let resolved = resolved-AreUnderKey p s k claims a in
      elim (Bool-cases (text_eq w.holder.member_id m.member_id)) [
        | inl e ↦ rw e (
            restock-AreFiledGroups p s k _ groups h
              (select-All (IsUnder p s k) _ (resolve_group claims) resolved))
        | inr e ↦ rw e (set-AreUnder (AreUnderKey p s) k (resolve_group claims) groups h resolved)
      ]

  located-AreUnderKey :
      (s : Option CaseSensitivity) (q : LockRelease) (id scope : Option Text) (groups : Groups)
      (k : Text) (claims : List Lock)
      → AreFiledGroups p s groups
      → locate_for p s id scope q.branch groups ≡ some (k, claims)
      → AreUnderKey p s k claims
  unfolding locate_for locate_scoped
  located-AreUnderKey s q (some id) scope groups k claims h e =
      locate_first-AreUnderKey p s (has_lock id) groups k claims h e
  located-AreUnderKey s q none none groups k claims h e = absurd (ground (arith, e))
  located-AreUnderKey s q none (some scope) groups k claims h e =
      locate_first-AreUnderKey p s (matches_scope p s scope q.branch) groups k claims h e

  release_located-AreFiledGroups :
      (s : Option CaseSensitivity) (q : LockRelease) (groups : Groups)
      (found : Option (Text × List Lock))
      → AreFiledGroups p s groups
      → locate p s q groups ≡ found
      → AreFiledGroups p s (release_located groups q.requester found).0
  unfolding release_located locate
  release_located-AreFiledGroups s q groups none h e = h
  release_located-AreFiledGroups s q groups (some (k, claims)) h e =
      release_from-AreFiledGroups s groups k claims q.requester (group_winner claims) h
        (located-AreUnderKey s q q.lock_id q.scope groups k claims h e)

  expire_session-AreFiled :
      (stale : Lock → Bool) (r : LockRegistry) (key : Text) (groups : Option Groups)
      → AreFiled r
      → JsMap.get key r.sessions ≡ groups
      → AreFiled (expire_session stale r key groups).0
  unfolding expire_session
  expire_session-AreFiled stale r key none h e = h
  expire_session-AreFiled stale r key (some groups) h e = put-AreFiled r key _ h (
      expire_groups-AreFiledGroups p r.sensitivity stale groups
        (get-Holds (AreFiledGroups p r.sensitivity) key groups r.sessions h e))

  step-AreFiled : (r : LockRegistry) (c : Call) → IsNamed c → AreFiled r → AreFiled (step p r c)
  unfolding step acquire release transfer_path release_on_delete expire_by_device
      expire_soft_locks_acquired_before restore
  step-AreFiled r (acquires q) n h =
      let key = session_key p q.session in
      put-AreFiled r key _ h
        (acquired-AreFiledGroups p r.sensitivity (groups_at r key) q n (groups_at-AreFiled r key h))
  step-AreFiled r (releases q) n h =
      let key = session_key p q.session in
      put-AreFiled r key _ h (
        release_located-AreFiledGroups r.sensitivity q (groups_at r key) _
          (groups_at-AreFiled r key h) refl)
  step-AreFiled r (transfers q) n h =
      let key = session_key p q.session in
      put-AreFiled r key _ h (
        move_found-AreFiledGroups p r.sensitivity (groups_at r key) q _ n
          (groups_at-AreFiled r key h) refl)
  step-AreFiled r (deletes session scope kind branch member) n h =
      let key = session_key p session in
      put-AreFiled r key _ h (
        drop_found-AreFiledGroups p r.sensitivity (group_key p r.sensitivity scope kind branch)
          (groups_at r key) member.member_id _ (groups_at-AreFiled r key h))
  step-AreFiled r (expires_device session device_id) n h =
      expire_session-AreFiled _ r (session_key p session) _ h refl
  step-AreFiled r (expires_soft session cutoff) n h =
      expire_session-AreFiled _ r (session_key p session) _ h refl
  step-AreFiled r (restores session locks) n h = put-AreFiled r (session_key p session) _ h (
      resolve_all-AreFiledGroups p r.sensitivity _
        (regroup-AreFiledGroups p r.sensitivity [] locks tt n))

  run-AreFiled :
      (r : LockRegistry) (cs : List Call) → All IsNamed cs → AreFiled r → AreFiled (run p r cs)
  unfolding run
  run-AreFiled r [] n h = h
  run-AreFiled r (c ∷ cs) n h = run-AreFiled (step p r c) cs n.1 (step-AreFiled r c n.0 h)

  -- After any history of calls from an empty registry whose branch names are free of the separator,
  -- every claim stands in the group of its own scope, kind and branch.
  pub run-new_registry-AreFiled :
      (s : Option CaseSensitivity) (cs : List Call)
      → All IsNamed cs
      → AreFiled (run p (new_registry s) cs)
  run-new_registry-AreFiled s cs n = run-AreFiled (new_registry s) cs n tt
