-- ===== src/Locks/Release.antt =====
-- Releasing a lock: who may, what a refusal leaves, and who is promoted.
use mathlib.Core.Path.{subst₂}
use multi_agentic_workflow.Base.{
  ◌≡◌, refl, ap, subst, sym, ◌∙◌, List, [], ◌∷◌, Option, none, some, Bool, not, arith,
  if◌then◌else◌, select, Bool-cases, Option-cases, inl, inr,
}
use multi_agentic_workflow.Base.Text.{Text, text_eq, text_eq_iff}
use multi_agentic_workflow.Base.JsMap
use multi_agentic_workflow.Base.JsMap.{JsMap, Holds, get_or-Holds, get_or-set}
use multi_agentic_workflow.Base.MapKeys.{HasKeys, get-cons}
use multi_agentic_workflow.Protocol.{Platform, MemberRef, Lock, ErrorCode}
use multi_agentic_workflow.Session.{session_key}
use multi_agentic_workflow.RepoPath.{CaseSensitivity}
use multi_agentic_workflow.Locks.Group.{resolve_group, group_winner}
use multi_agentic_workflow.Locks.Settled.{resolve_group_nil}
use multi_agentic_workflow.Locks.Stored.{AreSettled, IsValid}
use multi_agentic_workflow.Locks.Contention.{
  groups_at-put, claims_at-set, claims_at-resolved, if_eq,
}
use multi_agentic_workflow.Locks.{
  LockRegistry, LockRelease, released, refused, Groups, groups_at, claims_at, restock, locate_first,
  has_lock, matches_scope, locate_scoped, locate_for, locate, release_winner, release_from,
  release_located, release,
}

pub claims_at-restock :
    (groups : Groups) (k k' : Text) (l : List Lock)
    → claims_at (restock k l groups) k'
      ≡ (if text_eq k k' then resolve_group l else claims_at groups k')
unfolding restock claims_at JsMap.get_or
claims_at-restock groups k k' [] = ground (arith, JsMap.get-delete k k' groups, resolve_group_nil)
claims_at-restock groups k k' (c ∷ cs) =
    ground (arith, JsMap.get-set k k' (resolve_group (c ∷ cs)) groups)

-- A located group is one of the session's, under its own key.
locate_first-get :
    (test : Text → List Lock → Bool) (groups : Groups) (k : Text) (claims : List Lock)
    → HasKeys groups
    → locate_first test groups ≡ some (k, claims)
    → JsMap.get k groups ≡ some claims
unfolding locate_first
locate_first-get test [] k claims h e = cc
locate_first-get test ((j, c) ∷ rest) k claims h e = elim (Bool-cases (test j c)) [
  | inl t ↦ ground (arith, e, t, JsMap.get-head {V = List Lock} j c rest)
  | inr t ↦
      get-cons k j claims c rest h.0
        (locate_first-get test rest k claims h.1 (ground (arith, e, t)))
]

locate_for-get :
    (p : Platform) (s : Option CaseSensitivity) (id scope : Option Text) (branch : Text)
    (groups : Groups) (k : Text) (claims : List Lock)
    → HasKeys groups
    → locate_for p s id scope branch groups ≡ some (k, claims)
    → JsMap.get k groups ≡ some claims
unfolding locate_for locate_scoped
locate_for-get p s (some id) scope branch groups k claims h e =
    locate_first-get (has_lock id) groups k claims h e
locate_for-get p s none (some scope) branch groups k claims h e =
    locate_first-get (matches_scope p s scope branch) groups k claims h e
locate_for-get p s none none branch groups k claims h e = cc

-- The groups that a refusal leaves have the claims that they had.
refused-claims :
    (groups : Groups) (requester : MemberRef) (found : Option (Text × List Lock)) (code : ErrorCode)
    (k : Text)
    → ((j : Text) (l : List Lock)
        → found ≡ some (j, l)
        → (claims_at groups j ≡ l) × (resolve_group l ≡ l))
    → (release_located groups requester found).1 ≡ refused code
    → claims_at (release_located groups requester found).0 k ≡ claims_at groups k
unfolding release_located release_from release_winner
refused-claims groups requester none code k h e = refl
refused-claims groups requester (some (j, l)) code k h e = elim (Option-cases (group_winner l)) [
  | inl n ↦ rw n
  | inr (w, s) ↦ rw s (elim (Bool-cases (text_eq w.holder.member_id requester.member_id)) [
    | inl mine ↦ absurd (ground (arith, e, s, mine))
    | inr other ↦
        rw other
          (ground (arith, claims_at-set groups j k (resolve_group l), h j l refl, text_eq_iff j k))
  ])
]

located-facts :
    (p : Platform) (r : LockRegistry) (q : LockRelease) (k : Text) (l : List Lock)
    → IsValid r
    → let key = session_key p q.session in
      locate p r.sensitivity q (groups_at r key) ≡ some (k, l)
      → (claims_at (groups_at r key) k ≡ l) × (resolve_group l ≡ l)
unfolding locate claims_at groups_at JsMap.get_or
located-facts p r q k l v e =
    let key = session_key p q.session in
    let settled = get_or-Holds AreSettled key [] r.sessions v (tt, tt) in
    let found =
      locate_for-get p r.sensitivity q.lock_id q.scope q.branch (groups_at r key) k l settled.1 e in
    let here : claims_at (groups_at r key) k ≡ l = ground (arith, found) in
    (here, subst (λ c. resolve_group c ≡ c) here (claims_at-resolved r key k v))

-- A refused release, for want of a lock or because another member holds it, leaves the claims of
-- every group of every session as they were, in a registry of resolved groups.
pub release_refused :
    (p : Platform) (r : LockRegistry) (q : LockRelease) (code : ErrorCode) (key k : Text)
    → IsValid r
    → (release p r q).1 ≡ refused code
    → claims_at (groups_at (release p r q).0 key) k ≡ claims_at (groups_at r key) k
unfolding release
release_refused p r q code key k v e =
    let s_key = session_key p q.session in
    let groups = groups_at r s_key in
    let found = locate p r.sensitivity q groups in
    ground (
      arith,
      groups_at-put r s_key key (release_located groups q.requester found).0,
      refused-claims groups q.requester found code k (λ j l h. located-facts p r q j l v h) e,
      text_eq_iff s_key key,
    )

-- What a successful release does to the group `k` with the claims `l`.
abbrev pub IsReleased :
    LockRelease → Groups → Groups → Text → List Lock → Lock → Option Lock → Type 0
IsReleased q before after k l w promoted =
    let rest = select (λ c. not (text_eq c.lock_id w.lock_id)) l in
    (group_winner l ≡ some w)
    × (w.holder.member_id ≡ q.requester.member_id)
    × (promoted ≡ group_winner rest)
    × ((j : Text)
        → claims_at after j ≡ (if text_eq k j then resolve_group rest else claims_at before j))

release_winner-IsReleased :
    (q : LockRelease) (groups : Groups) (k : Text) (l : List Lock) (w : Lock)
    → resolve_group l ≡ l
    → group_winner l ≡ some w
    → w.holder.member_id ≡ q.requester.member_id
    → IsReleased q groups
        (release_winner groups k (resolve_group l) w).0
        k
        l
        w
        (group_winner (select (λ c. not (text_eq c.lock_id w.lock_id)) (resolve_group l)))
unfolding release_winner
release_winner-IsReleased q groups k l w settled g mine =
    let keep = λ (c : Lock). not (text_eq c.lock_id w.lock_id) in
    (
      g,
      mine,
      ap (λ c. group_winner (select keep c)) settled,
      λ j.
          claims_at-restock groups k j (select keep (resolve_group l))
          ∙ ap (λ c. if text_eq k j then resolve_group (select keep c) else claims_at groups j)
              settled,
    )

winner_eq :
    (groups : Groups) (k : Text) (l : List Lock) (v w : Lock) (promoted : Option Lock)
    → (release_winner groups k l v).1 ≡ released w promoted
    → v ≡ w
unfolding release_winner
winner_eq groups k l v w promoted e = cc

promoted_eq :
    (groups : Groups) (k : Text) (l : List Lock) (v w : Lock) (promoted : Option Lock)
    → (release_winner groups k l v).1 ≡ released w promoted
    → group_winner (select (λ c. not (text_eq c.lock_id v.lock_id)) l) ≡ promoted
unfolding release_winner
promoted_eq groups k l v w promoted e = cc

release_from-IsReleased :
    (q : LockRelease) (groups : Groups) (k : Text) (l : List Lock) (w : Lock)
    (promoted v : Option Lock)
    → resolve_group l ≡ l
    → group_winner l ≡ v
    → (release_from groups k l q.requester v).1 ≡ released w promoted
    → IsReleased q groups (release_from groups k l q.requester v).0 k l w promoted
unfolding release_from
release_from-IsReleased q groups k l w promoted none settled g e = cc
release_from-IsReleased q groups k l w promoted (some v) settled g e =
    elim (Bool-cases (text_eq v.holder.member_id q.requester.member_id)) [
      | inr other ↦ absurd (ground (arith, e, other))
      | inl mine ↦
          let e' : (release_winner groups k (resolve_group l) v).1 ≡ released w promoted =
            rw mine at e in
          rw mine (
            subst₂
              (λ x y. IsReleased q groups (release_winner groups k (resolve_group l) v).0 k l x y)
              (winner_eq groups k (resolve_group l) v w promoted e')
              (promoted_eq groups k (resolve_group l) v w promoted e')
              (release_winner-IsReleased q groups k l v settled g
                ((text_eq_iff v.holder.member_id q.requester.member_id).0 mine)))
    ]

released-facts :
    (q : LockRelease) (groups : Groups) (found : Option (Text × List Lock)) (w : Lock)
    (promoted : Option Lock)
    → ((j : Text) (l : List Lock)
        → found ≡ some (j, l)
        → (claims_at groups j ≡ l) × (resolve_group l ≡ l))
    → (release_located groups q.requester found).1 ≡ released w promoted
    → (k : Text) × IsReleased q groups
        (release_located groups q.requester found).0
        k
        (claims_at groups k)
        w
        promoted
unfolding release_located
released-facts q groups none w promoted h e = cc
released-facts q groups (some (k, l)) w promoted h e =
    let (here, settled) = h k l refl in
    (
      k,
      subst
          (λ c.
            IsReleased q groups (release_from groups k l q.requester (group_winner l)).0 k c w
              promoted)
          (sym here)
          (release_from-IsReleased q groups k l w promoted (group_winner l) settled refl e),
    )

-- A successful release takes away the winning lock of one group of the session, which the requester
-- holds. The claims left there are resolved again, the promoted lock is their winner, and the
-- session's other groups keep their claims.
pub release_promotes :
    (p : Platform) (r : LockRegistry) (q : LockRelease) (w : Lock) (promoted : Option Lock)
    → IsValid r
    → (release p r q).1 ≡ released w promoted
    → let key = session_key p q.session in
      let before = groups_at r key in
      (k : Text) × IsReleased q before
        (groups_at (release p r q).0 key)
        k
        (claims_at before k)
        w
        promoted
unfolding release
release_promotes p r q w promoted v e =
    let key = session_key p q.session in
    let groups = groups_at r key in
    let found = locate p r.sensitivity q groups in
    let (k, facts) =
      released-facts q groups found w promoted (λ j l h. located-facts p r q j l v h) e in
    (
      k,
      subst (λ g. IsReleased q groups g k (claims_at groups k) w promoted)
          (sym
            (groups_at-put r key key (release_located groups q.requester found).0 ∙ if_eq key _ _))
          facts,
    )
