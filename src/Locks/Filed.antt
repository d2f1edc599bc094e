-- ===== src/Locks/Filed.antt =====
-- Every claim stands in the group of its own scope and branch.
use multi_agentic_workflow.Base.{
  ◌≡◌, ◌≢◌, refl, subst, inl, inr, List, [], ◌∷◌, ◌++◌, map, Option, none, some, Bool, true, not,
  arith, find, select, push, remove_first, length, ◌==◌, All, All-append, select-All, Bool-cases,
  Option-cases,
}
use multi_agentic_workflow.Base.Text.{Text}
use multi_agentic_workflow.Base.JsMap
use multi_agentic_workflow.Base.MapKeys.{AreUnder, set-AreUnder, delete-AreUnder, get_or-AreUnder}
use multi_agentic_workflow.Protocol.{Platform, Lock, ScopeKind, file, folder, glob}
use multi_agentic_workflow.RepoPath.{CaseSensitivity}
use multi_agentic_workflow.Locks.Group.{group_key, scope_part, resolve_group, refreshed, held_by}
use multi_agentic_workflow.Locks.Settled.{resolve_group_nil, resolve_group-cons}
use multi_agentic_workflow.Locks.{
  Groups, LockAcquisition, claims_at, enlist, requested, restock, locate_first,
}
use multi_agentic_workflow.Locks.Upkeep.{
  PathTransfer, moved_lock, move_found, move_claim, drop_found, expire_group, expire_groups,
  regroup, resolve_all,
}

-- A branch name without the separator, as git has them.
abbrev pub IsName : Text → Type 0
IsName = All (λ c. c ≢ 0)

branch-eq : (a b x y : Text) → IsName a → IsName b → a ++ (0 ∷ x) ≡ b ++ (0 ∷ y) → (a ≡ b) × (x ≡ y)
branch-eq [] [] x y h k e = (refl, ground (arith, e))
branch-eq [] (c ∷ b) x y h k e = absurd (k.0 (ground (arith, e)))
branch-eq (c ∷ a) [] x y h k e = absurd (h.0 (ground (arith, e)))
branch-eq (c ∷ a) (d ∷ b) x y h k e =
    let ih = branch-eq a b x y h.1 k.1 (ground (arith, e)) in (cc (ih.0, e), ih.1)

module _ (p : Platform) (s : Option CaseSensitivity) where
  -- Kinds that agree on one scope agree on every scope.
  scope_part-kind :
      (a b c : Text) (k k' : ScopeKind)
      → scope_part p s a k ≡ scope_part p s b k'
      → scope_part p s c k ≡ scope_part p s c k'
  unfolding scope_part
  scope_part-kind a b c file file e = refl
  scope_part-kind a b c file folder e = refl
  scope_part-kind a b c file glob e = absurd (ground (arith, e))
  scope_part-kind a b c folder file e = refl
  scope_part-kind a b c folder folder e = refl
  scope_part-kind a b c folder glob e = absurd (ground (arith, e))
  scope_part-kind a b c glob file e = absurd (ground (arith, e))
  scope_part-kind a b c glob folder e = absurd (ground (arith, e))
  scope_part-kind a b c glob glob e = refl

  abbrev pub IsUnder : Text → Lock → Type 0
  IsUnder k l = (group_key p s l.scope l.scope_kind l.branch ≡ k) × IsName l.branch

  abbrev pub AreUnderKey : Text → List Lock → Type 0
  AreUnderKey k = All (IsUnder k)

  abbrev pub AreFiledGroups : Groups → Type 0
  AreFiledGroups = AreUnder AreUnderKey

  map-refreshed :
      (k : Text) (w : Lock) (l : List Lock) → AreUnderKey k l → AreUnderKey k (map (refreshed w) l)
  unfolding refreshed
  map-refreshed k w [] h = tt
  map-refreshed k w (c ∷ l) h = (h.0, map-refreshed k w l h.1)

  pub resolved-AreUnderKey :
      (k : Text) (l : List Lock) → AreUnderKey k l → AreUnderKey k (resolve_group l)
  resolved-AreUnderKey k [] h = rw resolve_group_nil tt
  resolved-AreUnderKey k (c ∷ l) h = rw (resolve_group-cons c l) (map-refreshed k _ (c ∷ l) h)

  pub restock-AreFiledGroups :
      (k : Text) (l : List Lock) (groups : Groups)
      → AreFiledGroups groups
      → AreUnderKey k l
      → AreFiledGroups (restock k l groups)
  unfolding restock
  restock-AreFiledGroups k [] groups h a = delete-AreUnder AreUnderKey k groups h
  restock-AreFiledGroups k (c ∷ l) groups h a =
      set-AreUnder AreUnderKey k _ groups h (resolved-AreUnderKey k (c ∷ l) a)

  claims_at-AreUnderKey :
      (k : Text) (groups : Groups) → AreFiledGroups groups → AreUnderKey k (claims_at groups k)
  unfolding claims_at
  claims_at-AreUnderKey k groups h = get_or-AreUnder AreUnderKey k [] groups h tt

  remove_first-AreUnderKey :
      (k : Text) (test : Lock → Bool) (l : List Lock)
      → AreUnderKey k l
      → AreUnderKey k (remove_first test l)
  remove_first-AreUnderKey k test [] h = tt
  remove_first-AreUnderKey k test (c ∷ l) h = elim (Bool-cases (test c)) [
    | inl e ↦ rw e h.1
    | inr e ↦ rw e (h.0, remove_first-AreUnderKey k test l h.1)
  ]

  -- A claim that is transferred stands under the key of its destination.
  moved_lock-IsUnder :
      (q : PathTransfer) (l : Lock)
      → IsName q.branch
      → IsUnder (group_key p s q.from_scope q.scope_kind q.branch) l
      → IsUnder (group_key p s q.to_scope q.scope_kind q.branch) (moved_lock q l)
  unfolding group_key
  moved_lock-IsUnder q l n (e, m) =
      let (same_branch, same_scope) =
        branch-eq l.branch q.branch (scope_part p s l.scope l.scope_kind)
          (scope_part p s q.from_scope q.scope_kind) m n e in
      let moved =
        scope_part-kind l.scope q.from_scope q.to_scope l.scope_kind q.scope_kind same_scope in
      (cc (same_branch, moved), m)

  find-IsUnder :
      (k : Text) (test : Lock → Bool) (l : List Lock) (x : Lock)
      → AreUnderKey k l
      → find test l ≡ some x
      → IsUnder k x
  find-IsUnder k test [] x h e = absurd (ground (arith, e))
  find-IsUnder k test (c ∷ l) x h e = elim (Bool-cases (test c)) [
    | inl t ↦ let same : c ≡ x = ground (arith, e, t) in subst (IsUnder k) same h.0
    | inr t ↦ find-IsUnder k test l x h.1 (ground (arith, e, t))
  ]

  pub enlist-AreUnderKey :
      (claims : List Lock) (q : LockAcquisition)
      → IsName q.branch
      → AreUnderKey (group_key p s q.scope q.scope_kind q.branch) claims
      → AreUnderKey (group_key p s q.scope q.scope_kind q.branch) (enlist claims q).0
  unfolding enlist
  enlist-AreUnderKey claims q n h = elim (Option-cases (find (held_by q.holder.member_id) claims)) [
    | inl e ↦
        rw (e, enlist)
          (All-append (IsUnder (group_key p s q.scope q.scope_kind q.branch)) claims
            (requested q ∷ []) h ((refl, n), tt))
    | inr (l, e) ↦ rw (e, enlist) h
  ]

  pub acquired-AreFiledGroups :
      (groups : Groups) (q : LockAcquisition)
      → IsName q.branch
      → AreFiledGroups groups
      → let k = group_key p s q.scope q.scope_kind q.branch in
        AreFiledGroups (JsMap.set k (resolve_group (enlist (claims_at groups k) q).0) groups)
  acquired-AreFiledGroups groups q n h =
      let k = group_key p s q.scope q.scope_kind q.branch in
      set-AreUnder AreUnderKey k _ groups h (
        resolved-AreUnderKey k _
          (enlist-AreUnderKey (claims_at groups k) q n (claims_at-AreUnderKey k groups h)))

  pub move_found-AreFiledGroups :
      (groups : Groups) (q : PathTransfer) (held : Option Lock)
      → IsName q.branch
      → AreFiledGroups groups
      → let from_key = group_key p s q.from_scope q.scope_kind q.branch in
        find (held_by q.member.member_id) (claims_at groups from_key) ≡ held
        → AreFiledGroups
            (move_found from_key
              (group_key p s q.to_scope q.scope_kind q.branch)
              (claims_at groups from_key)
              q
              held
              groups).0
  unfolding move_found move_claim
  move_found-AreFiledGroups groups q none n h e = h
  move_found-AreFiledGroups groups q (some held) n h e =
      let from_key = group_key p s q.from_scope q.scope_kind q.branch in
      let to_key = group_key p s q.to_scope q.scope_kind q.branch in
      let claims = claims_at groups from_key in
      let under = claims_at-AreUnderKey from_key groups h in
      let left =
        restock-AreFiledGroups from_key (remove_first (held_by q.member.member_id) claims) groups h
          (remove_first-AreUnderKey from_key (held_by q.member.member_id) claims under) in
      let moved =
        moved_lock-IsUnder q held n
          (find-IsUnder from_key (held_by q.member.member_id) claims held under e) in
      set-AreUnder AreUnderKey to_key _ _ left (
        resolved-AreUnderKey to_key _ (
          All-append (IsUnder to_key) _ (moved_lock q held ∷ [])
            (claims_at-AreUnderKey to_key _ left) (moved, tt)))

  pub drop_found-AreFiledGroups :
      (k : Text) (groups : Groups) (member_id : Text) (held : Option Lock)
      → AreFiledGroups groups
      → AreFiledGroups (drop_found k (claims_at groups k) member_id held groups).0
  unfolding drop_found
  drop_found-AreFiledGroups k groups member_id none h = h
  drop_found-AreFiledGroups k groups member_id (some held) h =
      restock-AreFiledGroups k (remove_first (held_by member_id) (claims_at groups k)) groups h
        (remove_first-AreUnderKey k _ _ (claims_at-AreUnderKey k groups h))

  expire_group-AreFiledGroups :
      (k : Text) (l : List Lock) (groups : Groups)
      → AreUnderKey k l
      → AreFiledGroups groups
      → AreFiledGroups (expire_group (λ x. true) k l groups)
  unfolding expire_group
  expire_group-AreFiledGroups k [] groups a h = h
  expire_group-AreFiledGroups k (c ∷ cs) groups a h = (resolved-AreUnderKey k (c ∷ cs) a, h)

  pub expire_groups-AreFiledGroups :
      (stale : Lock → Bool) (groups : Groups)
      → AreFiledGroups groups
      → AreFiledGroups (expire_groups stale groups).0
  unfolding expire_groups expire_group
  expire_groups-AreFiledGroups stale [] h = tt
  expire_groups-AreFiledGroups stale ((k, claims) ∷ groups) h =
      let survivors = select (λ l. not (stale l)) claims in
      let ih = expire_groups-AreFiledGroups stale groups h.1 in
      elim (Bool-cases (length survivors == length claims)) [
        | inl e ↦ rw e (h.0, ih)
        | inr e ↦ rw e (
            expire_group-AreFiledGroups k survivors (expire_groups stale groups).0
              (select-All (IsUnder k) (λ l. not (stale l)) claims h.0) ih)
      ]

  pub regroup-AreFiledGroups :
      (groups : Groups) (locks : List Lock)
      → AreFiledGroups groups
      → All (λ (l : Lock). IsName l.branch) locks
      → AreFiledGroups (regroup p s groups locks)
  unfolding regroup
  regroup-AreFiledGroups groups [] h n = h
  regroup-AreFiledGroups groups (l ∷ ls) h n =
      let k = group_key p s l.scope l.scope_kind l.branch in
      regroup-AreFiledGroups (JsMap.set k (push (claims_at groups k) l) groups) ls
        (set-AreUnder AreUnderKey k _ groups h (
          All-append (IsUnder k) (claims_at groups k) (l ∷ []) (claims_at-AreUnderKey k groups h)
            ((refl, n.0), tt)))
        n.1

  pub resolve_all-AreFiledGroups :
      (groups : Groups) → AreFiledGroups groups → AreFiledGroups (resolve_all groups)
  unfolding resolve_all
  resolve_all-AreFiledGroups [] h = tt
  resolve_all-AreFiledGroups ((k, claims) ∷ groups) h =
      (resolved-AreUnderKey k claims h.0, resolve_all-AreFiledGroups groups h.1)

  pub locate_first-AreUnderKey :
      (test : Text → List Lock → Bool) (groups : Groups) (k : Text) (claims : List Lock)
      → AreFiledGroups groups
      → locate_first test groups ≡ some (k, claims)
      → AreUnderKey k claims
  unfolding locate_first
  locate_first-AreUnderKey test [] k claims h e = absurd (ground (arith, e))
  locate_first-AreUnderKey test ((j, l) ∷ groups) k claims h e = elim (Bool-cases (test j l)) [
    | inl t ↦
        let same : (j, l) ≡ (k, claims) = ground (arith, e, t) in
        subst (λ (g : Text × List Lock). AreUnderKey g.0 g.1) same h.0
    | inr t ↦ locate_first-AreUnderKey test groups k claims h.1 (ground (arith, e, t))
  ]
