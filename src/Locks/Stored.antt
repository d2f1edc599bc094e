-- ===== src/Locks/Stored.antt =====
-- What a valid registry stores, and that acquiring and releasing keep it so.
use multi_agentic_workflow.Base.{
  ◌≡◌, ◌≢◌, refl, List, [], ◌∷◌, Option, none, some, arith, find, push, Bool-cases, Option-cases,
  inl, inr,
}
use multi_agentic_workflow.Base.Text.{Text, text_eq}
use multi_agentic_workflow.Base.JsMap
use multi_agentic_workflow.Base.JsMap.{
  JsMap, Holds, set-Holds, delete-Holds, get_or-Holds, get-Holds,
}
use multi_agentic_workflow.Base.MapKeys.{HasKeys, set-HasKeys, delete-HasKeys}
use multi_agentic_workflow.Protocol.{Platform, MemberRef, Lock}
use multi_agentic_workflow.Session.{session_key}
use multi_agentic_workflow.Locks.Group.{group_key, resolve_group, group_winner, held_by}
use multi_agentic_workflow.Locks.Settled.{resolve_group-cons, resolve_group_idem, group_winner_nil}
use multi_agentic_workflow.Locks.{
  LockRegistry, LockAcquisition, LockRelease, Groups, groups_at, put, claims_at, restock, enlist,
  acquire, locate, release, release_located, release_from,
}

-- A stored group has a claim, and its flags are those of its earliest claim.
abbrev pub IsSettled : List Lock → Type 0
IsSettled claims = (claims ≢ []) × (resolve_group claims ≡ claims)

abbrev pub AreSettled : Groups → Type 0
AreSettled groups = Holds IsSettled groups × HasKeys groups

pub set-AreSettled :
    (k : Text) (l : List Lock) (groups : Groups)
    → AreSettled groups
    → IsSettled l
    → AreSettled (JsMap.set k l groups)
set-AreSettled k l groups h s = (set-Holds IsSettled k l groups h.0 s, set-HasKeys k l groups h.1)

abbrev pub IsValid : LockRegistry → Type 0
IsValid r = Holds AreSettled r.sessions

resolve_group-ne : (c : Lock) (cs : List Lock) → resolve_group (c ∷ cs) ≢ []
resolve_group-ne c cs e = cc (resolve_group-cons c cs)

pub resolve_group-IsSettled : (l : List Lock) → l ≢ [] → IsSettled (resolve_group l)
resolve_group-IsSettled [] h = absurd (h refl)
resolve_group-IsSettled (c ∷ cs) h = (resolve_group-ne c cs, resolve_group_idem (c ∷ cs))

pub restock-AreSettled :
    (k : Text) (l : List Lock) (groups : Groups)
    → AreSettled groups
    → AreSettled (restock k l groups)
unfolding restock
restock-AreSettled k [] groups h =
    (delete-Holds IsSettled k groups h.0, delete-HasKeys k groups h.1)
restock-AreSettled k (c ∷ cs) groups h =
    set-AreSettled k _ groups h (resolve_group-IsSettled (c ∷ cs) (λ e. cc))

pub push-ne : (l : List Lock) (x : Lock) → push l x ≢ []
push-ne [] x e = cc
push-ne (c ∷ l) x e = cc

pub groups_at-AreSettled :
    (r : LockRegistry) (key : Text) → IsValid r → AreSettled (groups_at r key)
unfolding groups_at
groups_at-AreSettled r key v = get_or-Holds AreSettled key [] r.sessions v (tt, tt)

pub put-IsValid :
    (r : LockRegistry) (key : Text) (groups : Groups)
    → IsValid r
    → AreSettled groups
    → IsValid (put r key groups)
unfolding put
put-IsValid r key groups v h = set-Holds AreSettled key groups r.sessions v h

pub enlist-ne : (claims : List Lock) (q : LockAcquisition) → (enlist claims q).0 ≢ []
unfolding enlist
enlist-ne [] q e = cc
enlist-ne (c ∷ cs) q e = elim (Option-cases (find (held_by q.holder.member_id) (c ∷ cs))) [
  | inl missing ↦ ground (arith, e, missing)
  | inr (l, found) ↦ ground (arith, e, found)
]

pub acquire-IsValid :
    (p : Platform) (r : LockRegistry) (q : LockAcquisition) → IsValid r → IsValid (acquire p r q).0
unfolding acquire
acquire-IsValid p r q v =
    let key = session_key p q.session in
    let groups = groups_at r key in
    let g_key = group_key p r.sensitivity q.scope q.scope_kind q.branch in
    put-IsValid r key _ v (
      set-AreSettled g_key _ groups (groups_at-AreSettled r key v)
        (resolve_group-IsSettled _ (enlist-ne (claims_at groups g_key) q)))

release_from-AreSettled :
    (groups : Groups) (k : Text) (claims : List Lock) (requester : MemberRef) (w : Option Lock)
    → AreSettled groups
    → claims ≢ []
    → AreSettled (release_from groups k claims requester w).0
unfolding release_from
release_from-AreSettled groups k claims requester none h n = h
release_from-AreSettled groups k claims requester (some w) h n =
    elim (Bool-cases (text_eq w.holder.member_id requester.member_id)) [
      | inl e ↦ rw e (restock-AreSettled k _ groups h)
      | inr e ↦ rw e (set-AreSettled k _ groups h (resolve_group-IsSettled claims n))
    ]

release_located-AreSettled :
    (groups : Groups) (requester : MemberRef) (found : Option (Text × List Lock))
    → AreSettled groups
    → AreSettled (release_located groups requester found).0
unfolding release_located
release_located-AreSettled groups requester none h = h
release_located-AreSettled groups requester (some (k, [])) h = rw group_winner_nil h
release_located-AreSettled groups requester (some (k, c ∷ cs)) h =
    release_from-AreSettled groups k (c ∷ cs) requester (group_winner (c ∷ cs)) h (λ e. cc)

pub release-IsValid :
    (p : Platform) (r : LockRegistry) (q : LockRelease) → IsValid r → IsValid (release p r q).0
unfolding release
release-IsValid p r q v =
    let key = session_key p q.session in
    put-IsValid r key _ v (
      release_located-AreSettled (groups_at r key) q.requester
        (locate p r.sensitivity q (groups_at r key)) (groups_at-AreSettled r key v))
