-- ===== src/Locks/Contention.antt =====
-- Who holds a scope: what `acquire`, `release` and `winningLock` answer, and what they leave alone.
use multi_agentic_workflow.Base.{
  ◌≡◌, refl, ap, sym, ◌∙◌, List, [], ◌∷◌, none, some, not, ◌&&◌, arith, if◌then◌else◌, find, All,
  In, ◌⊎◌, inl, inr,
}
use multi_agentic_workflow.Base.Text.{Text, text_eq, text_eq_iff, text_eq_refl}
use multi_agentic_workflow.Base.JsMap
use multi_agentic_workflow.Base.JsMap.{JsMap, Holds, get_or-Holds, get_or-set}
use multi_agentic_workflow.Protocol.{Platform, SessionId, Lock, ScopeKind}
use multi_agentic_workflow.Session.{session_key}
use multi_agentic_workflow.Conflict.{earliest}
use multi_agentic_workflow.Conflict.Winner.{Wins, earliest-In, earliest-Wins}
use multi_agentic_workflow.Locks.Group.{lock_claim, group_key, resolve_group, group_winner, held_by}
use multi_agentic_workflow.Locks.Settled.{
  resolve_group_nil, group_winner-cons, group_winner_nil, find-resolve_group, id_of, bare,
}
use multi_agentic_workflow.Locks.Stored.{IsSettled, AreSettled, IsValid}
use multi_agentic_workflow.Locks.{
  LockRegistry, LockAcquisition, Groups, groups_at, put, claims_at, enlist, acquire,
}
use multi_agentic_workflow.Locks.Upkeep.{winning_lock, claims_for_scope}

-- `w` is a claim of the group and wins over all of it.
abbrev pub IsEarliest : Lock → List Lock → Type 0
IsEarliest w claims = In w claims × All (λ c. Wins w c) claims

pub group_winner_cases :
    (l : List Lock)
    → ((l ≡ []) × (group_winner l ≡ none))
      ⊎ ((w : Lock) × IsEarliest w l × (group_winner l ≡ some (bare w)))
group_winner_cases [] = inl (refl, group_winner_nil)
group_winner_cases (c ∷ cs) =
    inr (earliest c cs, (earliest-In c cs, earliest-Wins c cs), group_winner-cons c cs)

pub Holds-map :
    {V : Type 0} (P Q : V → Type 0) (f : (v : V) → P v → Q v) (m : JsMap V) → Holds P m → Holds Q m
Holds-map P Q f [] h = tt
Holds-map P Q f ((k, v) ∷ m) h = (f v h.0, Holds-map P Q f m h.1)

-- A stored group is resolved, and so is the empty one that stands for an absent group.
pub claims_at-resolved :
    (r : LockRegistry) (key k : Text)
    → IsValid r
    → resolve_group (claims_at (groups_at r key) k) ≡ claims_at (groups_at r key) k
unfolding claims_at groups_at
claims_at-resolved r key k v =
    get_or-Holds (λ l. resolve_group l ≡ l) k [] (groups_at r key)
      (Holds-map IsSettled (λ l. resolve_group l ≡ l) (λ l s. s.1) (groups_at r key)
        (get_or-Holds AreSettled key [] r.sessions v (tt, tt)).0)
      resolve_group_nil

-- The holder that hard stops are enforced against: in a registry of resolved groups there is none
-- only for a scope without claims, and otherwise it has the id of the claim with the earliest
-- Event_Revision of the scope, the lower id deciding between equal revisions.
pub winning_lock-IsEarliest :
    (p : Platform) (r : LockRegistry) (session : SessionId) (scope : Text) (kind : ScopeKind)
    (branch : Text)
    → IsValid r
    → let claims = claims_for_scope p r session scope kind branch in
      let winner = id_of (winning_lock p r session scope kind branch) in
      ((claims ≡ []) × (winner ≡ none))
      ⊎ ((w : Lock) × IsEarliest w claims × (winner ≡ some w.lock_id))
unfolding winning_lock claims_for_scope
winning_lock-IsEarliest p r session scope kind branch v =
    let key = session_key p session in
    let k = group_key p r.sensitivity scope kind branch in
    let claims = claims_at (groups_at r key) k in
    let found =
      ap (λ l. id_of (find (λ x. not x.concurrent) l)) (sym (claims_at-resolved r key k v))
      ∙ find-resolve_group claims in
    elim (group_winner_cases claims) [
      | inl (e, h) ↦ inl (e, found ∙ ap id_of h)
      | inr (w, i, h) ↦ inr (w, i, found ∙ ap id_of h)
    ]

pub if_eq {ℓ} : {A : Type ℓ} (k : Text) (x y : A) → (if text_eq k k then x else y) ≡ x
if_eq k x y = rw (text_eq_refl k)

pub groups_at-put :
    (r : LockRegistry) (key key' : Text) (groups : Groups)
    → groups_at (put r key groups) key' ≡ (if text_eq key key' then groups else groups_at r key')
unfolding groups_at put
groups_at-put r key key' groups = get_or-set key key' [] groups r.sessions

pub claims_at-set :
    (groups : Groups) (k k' : Text) (l : List Lock)
    → claims_at (JsMap.set k l groups) k' ≡ (if text_eq k k' then l else claims_at groups k')
unfolding claims_at
claims_at-set groups k k' l = get_or-set k k' [] l groups

pub stored-claims :
    (r : LockRegistry) (key k : Text) (l : List Lock)
    → claims_at (groups_at (put r key (JsMap.set k l (groups_at r key))) key) k ≡ l
stored-claims r key k l =
    ap (λ g. claims_at g k)
      (groups_at-put r key key (JsMap.set k l (groups_at r key)) ∙ if_eq key _ _)
    ∙ claims_at-set (groups_at r key) k k l
    ∙ if_eq k _ _

-- The claims of every group of every session after an acquisition: the requested group is resolved
-- with the requester enlisted, all others are as before.
pub acquire_claims :
    (p : Platform) (r : LockRegistry) (q : LockAcquisition) (key k : Text)
    → let g_key = group_key p r.sensitivity q.scope q.scope_kind q.branch in
      let before = claims_for_scope p r q.session q.scope q.scope_kind q.branch in
      claims_at (groups_at (acquire p r q).0 key) k ≡ (
        if text_eq (session_key p q.session) key && text_eq g_key k
        then resolve_group (enlist before q).0
        else claims_at (groups_at r key) k)
unfolding acquire claims_for_scope
acquire_claims p r q key k =
    let s_key = session_key p q.session in
    let g_key = group_key p r.sensitivity q.scope q.scope_kind q.branch in
    let l = resolve_group (enlist (claims_at (groups_at r s_key) g_key) q).0 in
    ground (
      arith,
      groups_at-put r s_key key (JsMap.set g_key l (groups_at r s_key)),
      claims_at-set (groups_at r s_key) g_key k l,
      text_eq_iff s_key key,
    )

enlist-held :
    (claims : List Lock) (q : LockAcquisition) (l : Lock)
    → find (held_by q.holder.member_id) claims ≡ some l
    → enlist claims q ≡ (claims, l)
unfolding enlist
enlist-held claims q l h = rw (h, enlist)

-- A member that has a claim in the group gets it back: no claim of any group changes.
pub acquire_again :
    (p : Platform) (r : LockRegistry) (q : LockAcquisition) (mine : Lock) (key k : Text)
    → IsValid r
    → find
        (held_by q.holder.member_id)
        (claims_for_scope p r q.session q.scope q.scope_kind q.branch)
      ≡ some mine
    → claims_at (groups_at (acquire p r q).0 key) k ≡ claims_at (groups_at r key) k
unfolding claims_for_scope
acquire_again p r q mine key k v h =
    let s_key = session_key p q.session in
    let g_key = group_key p r.sensitivity q.scope q.scope_kind q.branch in
    let same =
      ap (λ e. resolve_group e.0) (enlist-held (claims_at (groups_at r s_key) g_key) q mine h)
      ∙ claims_at-resolved r s_key g_key v in
    ground (arith, acquire_claims p r q key k, same, text_eq_iff s_key key, text_eq_iff g_key k)
