-- ===== src/Locks/Expiry.antt =====
-- What the two expiries remove from a session, and what they keep.
use mathlib.Core.List.{map-append}
use mathlib.Core.Path.{subst₂}
use multi_agentic_workflow.Base.{
  ℕ, ◌≤◌, ◌≡◌, refl, ap, subst, sym, ◌∙◌, List, [], ◌∷◌, ◌++◌, map, Option, none, some, Bool, not,
  arith, ◌==◌, select, length, Bool-cases, inl, inr,
}
use multi_agentic_workflow.Base.Text.{Text, text_eq}
use multi_agentic_workflow.Base.JsMap
use multi_agentic_workflow.Base.JsMap.{JsMap}
use multi_agentic_workflow.Protocol.{Platform, SessionId, Lock}
use multi_agentic_workflow.Session.{session_key}
use multi_agentic_workflow.Locks.Group.{resolve_group, refreshed}
use multi_agentic_workflow.Locks.Settled.{
  resolve_group_nil, resolve_group-cons, bare, bare-refreshed,
}
use multi_agentic_workflow.Locks.Contention.{groups_at-put, if_eq}
use multi_agentic_workflow.Locks.{LockRegistry, Groups, groups_at}
use multi_agentic_workflow.Locks.Upkeep.{
  concat_claims, all_locks, expire_group, expire_groups, expire_session, expire_by_device,
  soft_and_old, expire_soft_locks_acquired_before,
}

length-select-le : (f : Lock → Bool) (l : List Lock) → length (select f l) ≤ length l
length-select-le f [] = omega arith
length-select-le f (x ∷ l) = ground (arith, length-select-le f l)

-- A filter that drops nothing is the list.
select_all : (f : Lock → Bool) (l : List Lock) → length (select f l) ≡ length l → select f l ≡ l
select_all f [] h = refl
select_all f (x ∷ l) h = ground (arith, h, select_all f l, length-select-le f l)

select-append : (f : Lock → Bool) (l m : List Lock) → select f (l ++ m) ≡ select f l ++ select f m
select-append f [] m = refl
select-append f (x ∷ l) m = ground (arith, select-append f l m)

map-bare-refreshed : (w : Lock) (l : List Lock) → map bare (map (refreshed w) l) ≡ map bare l
map-bare-refreshed w [] = refl
map-bare-refreshed w (x ∷ l) = cc (bare-refreshed w x, map-bare-refreshed w l)

-- Resolving a group writes flags only.
pub map-bare-resolve_group : (l : List Lock) → map bare (resolve_group l) ≡ map bare l
map-bare-resolve_group [] = ap (map bare) resolve_group_nil
map-bare-resolve_group (c ∷ cs) =
    ap (map bare) (resolve_group-cons c cs) ∙ map-bare-refreshed _ (c ∷ cs)

concat-expire_group :
    (stale : Lock → Bool) (k : Text) (l : List Lock) (groups : Groups)
    → map bare (concat_claims (expire_group stale k l groups))
      ≡ map bare l ++ map bare (concat_claims groups)
unfolding concat_claims expire_group
concat-expire_group stale k [] groups = refl
concat-expire_group stale k (c ∷ cs) groups =
    map-append bare (resolve_group (c ∷ cs)) (concat_claims groups)
    ∙ ap (λ l. l ++ map bare (concat_claims groups)) (map-bare-resolve_group (c ∷ cs))

-- The locks that the loop keeps, flags aside, and the ones that it removes.
IsExpired : (Lock → Bool) → List Lock → List Lock → List Lock → Type 0
IsExpired stale before after removed =
    (map bare after ≡ map bare (select (λ l. not (stale l)) before))
    × (removed ≡ select stale before)

expire_groups-IsExpired :
    (stale : Lock → Bool) (groups : Groups)
    → IsExpired stale
        (concat_claims groups)
        (concat_claims (expire_groups stale groups).0)
        (expire_groups stale groups).1
unfolding concat_claims expire_groups IsExpired
expire_groups-IsExpired stale [] = (refl, refl)
expire_groups-IsExpired stale ((k, claims) ∷ groups) =
    let keep = λ (l : Lock). not (stale l) in
    let rest = expire_groups stale groups in
    let (kept, removed) = expire_groups-IsExpired stale groups in
    let joined : map bare (select keep claims) ++ map bare (concat_claims rest.0)
        ≡ map bare (select keep (claims ++ concat_claims groups)) =
      ap (◌++◌ (map bare (select keep claims))) kept
      ∙ sym (map-append bare (select keep claims) (select keep (concat_claims groups)))
      ∙ ap (map bare) (sym (select-append keep claims (concat_claims groups))) in
    (
      elim (Bool-cases (length (select keep claims) == length claims)) [
        | inl e ↦ rw e (
            map-append bare claims (concat_claims rest.0)
            ∙ ap (λ l. map bare l ++ map bare (concat_claims rest.0))
                (sym (select_all keep claims (ground (arith, e))))
            ∙ joined)
        | inr e ↦ rw e (concat-expire_group stale k (select keep claims) rest.0 ∙ joined)
      ],
      ap (◌++◌ (select stale claims)) removed
          ∙ sym (select-append stale claims (concat_claims groups)),
    )

groups_at_found :
    (r : LockRegistry) (key : Text) (groups : Groups)
    → JsMap.get key r.sessions ≡ some groups
    → groups_at r key ≡ groups
unfolding groups_at JsMap.get_or
groups_at_found r key groups e = ground (arith, e)

groups_at-none :
    (r : LockRegistry) (key : Text) → JsMap.get key r.sessions ≡ none → groups_at r key ≡ []
unfolding groups_at JsMap.get_or
groups_at-none r key e = ground (arith, e)

nothing-IsExpired : (stale : Lock → Bool) → IsExpired stale (concat_claims []) (concat_claims []) []
unfolding IsExpired concat_claims
nothing-IsExpired stale = (refl, refl)

expire_session-IsExpired :
    (stale : Lock → Bool) (r : LockRegistry) (key : Text) (found : Option Groups)
    → JsMap.get key r.sessions ≡ found
    → let done = expire_session stale r key found in
      IsExpired stale
        (concat_claims (groups_at r key))
        (concat_claims (groups_at done.0 key))
        done.1
unfolding expire_session
expire_session-IsExpired stale r key none e =
    subst (λ g. IsExpired stale (concat_claims g) (concat_claims g) [])
      (sym (groups_at-none r key e)) (nothing-IsExpired stale)
expire_session-IsExpired stale r key (some groups) e =
    let done = expire_groups stale groups in
    subst₂ (λ g h. IsExpired stale (concat_claims g) (concat_claims h) done.1)
      (sym (groups_at_found r key groups e)) (sym (groups_at-put r key key done.0 ∙ if_eq key _ _))
      (expire_groups-IsExpired stale groups)

-- Expiring a device returns exactly the session's locks that it holds, and keeps the others in
-- order and, but for their flags, as they were.
pub expire_by_device_lem :
    (p : Platform) (r : LockRegistry) (session : SessionId) (device_id : Text)
    → let stale = λ (l : Lock). text_eq l.holder.device_id device_id in
      let done = expire_by_device p r session device_id in
      (map bare (all_locks p done.0 session)
        ≡ map bare (select (λ l. not (stale l)) (all_locks p r session)))
      × (done.1 ≡ select stale (all_locks p r session))
unfolding expire_by_device all_locks IsExpired
expire_by_device_lem p r session device_id =
    expire_session-IsExpired (λ l. text_eq l.holder.device_id device_id) r (session_key p session) _
      refl

-- Expiring by age returns exactly the session's soft locks that were acquired before the cutoff,
-- and keeps the others in order and, but for their flags, as they were.
pub expire_soft_locks_acquired_before_lem :
    (p : Platform) (r : LockRegistry) (session : SessionId) (cutoff : ℕ)
    → let done = expire_soft_locks_acquired_before p r session cutoff in
      (map bare (all_locks p done.0 session)
        ≡ map bare (select (λ l. not (soft_and_old p cutoff l)) (all_locks p r session)))
      × (done.1 ≡ select (soft_and_old p cutoff) (all_locks p r session))
unfolding expire_soft_locks_acquired_before all_locks IsExpired
expire_soft_locks_acquired_before_lem p r session cutoff =
    expire_session-IsExpired (soft_and_old p cutoff) r (session_key p session) _ refl
