-- ===== src/Locks/Acquired.antt =====
-- What an acquisition leaves in its group, and what it reports.
use mathlib.Core.List.{map-append}
use multi_agentic_workflow.Base.{
  ◌≡◌, ◌≢◌, ◌⊎◌, refl, ap, subst, sym, ◌∙◌, List, [], ◌∷◌, ◌++◌, map, none, some, Bool, true, false,
  not, arith, if◌then◌else◌, find, All, In, Bool-cases, Option-cases, inl, inr, push,
}
use multi_agentic_workflow.Base.Text.{Text, text_eq, text_eq_iff}
use multi_agentic_workflow.Protocol.{Platform, Lock}
use multi_agentic_workflow.Session.{session_key}
use multi_agentic_workflow.Conflict.{earliest}
use multi_agentic_workflow.Conflict.Winner.{Wins, earliest-In, earliest-Wins}
use multi_agentic_workflow.Locks.Group.{
  lock_claim, group_key, resolve_group, group_winner, refreshed, held_by,
}
use multi_agentic_workflow.Locks.Settled.{
  resolve_group-cons, group_winner-cons, bare, bare-refreshed,
}
use multi_agentic_workflow.Locks.Stored.{enlist-ne}
use multi_agentic_workflow.Locks.Contention.{IsEarliest, stored-claims}
use multi_agentic_workflow.Locks.Flagged.{AreFlaggedFor, refreshed-AreFlaggedFor}
use multi_agentic_workflow.Locks.Expiry.{map-bare-resolve_group}
use multi_agentic_workflow.Locks.{
  LockRegistry, LockAcquisition, AcquireOutcome, groups_at, put, claims_at, requested, enlist,
  outcome, outcome_of, acquire,
}
use multi_agentic_workflow.Locks.Upkeep.{claims_for_scope}

-- Flags aside, the group afterwards and the requester's claim in it: a claim that the member has is
-- kept and no other is made; a member without one gets what it asked for, behind the others.
abbrev pub IsEnlisted : LockAcquisition → List Lock → List Lock → Lock → Type 0
IsEnlisted q before after mine =
    ((l : Lock) × In l before
      × (l.holder.member_id ≡ q.holder.member_id)
      × (bare mine ≡ bare l)
      × (map bare after ≡ map bare before))
    ⊎ (All (λ l. l.holder.member_id ≢ q.holder.member_id) before
        × (bare mine ≡ requested q)
        × (map bare after ≡ map bare before ++ requested q ∷ []))

-- The outcome names the claim with the earliest Event_Revision of the group, for which the group is
-- flagged, and the requester's claim with its flag; it is contended, with the winner's holder and
-- revision, exactly when that claim is flagged as concurrent.
abbrev pub IsReported : List Lock → AcquireOutcome → Type 0
IsReported after o =
    ((w : Lock) × IsEarliest w after × (o.winner ≡ bare w))
    × AreFlaggedFor o.winner after
    × In o.lock after
    × (o.contended ≡ o.lock.concurrent)
    × (o.conflict ≡ (
        if o.lock.concurrent
        then some
            (record { winner = o.winner.holder; winning_event_revision = o.winner.event_revision })
        else none))

find-some :
    (test : Lock → Bool) (l : List Lock) (x : Lock)
    → find test l ≡ some x
    → In x l × (test x ≡ true)
find-some test [] x e = absurd (ground (arith, e))
find-some test (c ∷ l) x e = elim (Bool-cases (test c)) [
  | inl t ↦ let same : c ≡ x = ground (arith, e, t) in (inl same, subst (λ y. test y ≡ true) same t)
  | inr t ↦ let (i, h) = find-some test l x (ground (arith, e, t)) in (inr i, h)
]

find-none :
    (member_id : Text) (l : List Lock)
    → find (held_by member_id) l ≡ none
    → All (λ x. x.holder.member_id ≢ member_id) l
find-none member_id [] e = tt
find-none member_id (c ∷ l) e = elim (Bool-cases (held_by member_id c)) [
  | inl t ↦ absurd (ground (arith, e, t))
  | inr t ↦ (
    (λ h. ground (arith, t, (text_eq_iff c.holder.member_id member_id).1 h)),
    find-none member_id l (ground (arith, e, t)),
  )
]

In-push : (x : Lock) (l : List Lock) → In x (push l x)
In-push x [] = inl refl
In-push x (c ∷ l) = inr (In-push x l)

-- The group and the claim before they are resolved.
enlist-IsEnlisted :
    (q : LockAcquisition) (before : List Lock)
    → IsEnlisted q before (enlist before q).0 (enlist before q).1
      × In (enlist before q).1 (enlist before q).0
unfolding enlist
enlist-IsEnlisted q before = elim (Option-cases (find (held_by q.holder.member_id) before)) [
  | inl e ↦
      rw (e, enlist)
        (
          inr (
            find-none q.holder.member_id before e,
            refl,
            map-append bare before (requested q ∷ []),
          ),
          In-push (requested q) before,
        )
  | inr (l, e) ↦
      let (i, h) = find-some (held_by q.holder.member_id) before l e in
      rw (e, enlist)
        (inl (l, i, (text_eq_iff l.holder.member_id q.holder.member_id).0 h, refl, refl), i)
]

In-map : (f : Lock → Lock) (x : Lock) (l : List Lock) → In x l → In (f x) (map f l)
In-map f x (c ∷ l) (inl e) = inl (ap f e)
In-map f x (c ∷ l) (inr i) = inr (In-map f x l i)
In-map f x [] i = i

Wins-refreshed :
    (v w : Lock) (l : List Lock)
    → All (λ c. Wins w c) l
    → All (λ c. Wins (refreshed v w) c) (map (refreshed v) l)
unfolding refreshed
Wins-refreshed v w [] h = tt
Wins-refreshed v w (c ∷ l) h = (h.0, Wins-refreshed v w l h.1)

IsEarliest-resolved :
    (w : Lock) (l : List Lock) → IsEarliest w l → IsEarliest (refreshed w w) (map (refreshed w) l)
IsEarliest-resolved w l (i, h) = (In-map (refreshed w) w l i, Wins-refreshed w w l h)

refreshed-bare : (w l : Lock) → refreshed (bare w) l ≡ refreshed w l
unfolding refreshed
refreshed-bare w l = refl

with_flag : Lock → Bool → Lock
with_flag l b = record l { concurrent = b }

In-refreshed :
    (w mine : Lock) (l : List Lock) (b : Bool)
    → text_eq mine.lock_id w.lock_id ≡ b
    → In mine l
    → In (with_flag mine (not b)) (map (refreshed w) l)
unfolding refreshed with_flag
In-refreshed w mine l b e i =
    subst (λ x. In (with_flag mine (not x)) (map (refreshed w) l)) e (In-map (refreshed w) mine l i)

outcome-IsReported :
    (w mine : Lock) (l : List Lock)
    → IsEarliest w l
    → In mine l
    → IsReported (map (refreshed w) l) (outcome (refreshed (bare w) mine) (bare w))
unfolding outcome refreshed with_flag
outcome-IsReported w mine l h i =
    let earliest_after = IsEarliest-resolved w l h in
    let flagged = refreshed-AreFlaggedFor w l in
    elim (Bool-cases (text_eq mine.lock_id w.lock_id)) [
      | inl e ↦ rw e (
        (refreshed w w, earliest_after, refl),
        flagged,
        In-refreshed w mine l true e i,
        refl,
        refl,
      )
      | inr e ↦ rw e (
        (refreshed w w, earliest_after, refl),
        flagged,
        In-refreshed w mine l false e i,
        refl,
        refl,
      )
    ]

IsEnlisted-resolved :
    (q : LockAcquisition) (before after : List Lock) (w mine : Lock) (o : AcquireOutcome)
    → IsEnlisted q before after mine
    → o.lock ≡ refreshed (bare w) mine
    → IsEnlisted q before (resolve_group after) o.lock
IsEnlisted-resolved q before after w mine o h e =
    let same : bare o.lock ≡ bare mine = ap bare e ∙ bare-refreshed (bare w) mine in
    elim h [
      | inl (l, i, m, b, a) ↦ inl (l, i, m, same ∙ b, map-bare-resolve_group after ∙ a)
      | inr (n, b, a) ↦ inr (n, same ∙ b, map-bare-resolve_group after ∙ a)
    ]

outcome-lock : (l w : Lock) → (outcome l w).lock ≡ l
unfolding outcome
outcome-lock l w = ground arith

-- What holds of a group and a claim before they are resolved holds of them afterwards.
acquired_group :
    (q : LockAcquisition) (before made : List Lock) (mine : Lock)
    → made ≢ []
    → IsEnlisted q before made mine × In mine made
    → (o : AcquireOutcome) × (outcome_of mine (group_winner made) ≡ some o)
      × IsEnlisted q before (resolve_group made) o.lock
      × IsReported (resolve_group made) o
unfolding outcome_of
acquired_group q before [] mine ne h = absurd (ne refl)
acquired_group q before (c ∷ cs) mine ne h =
    let w = earliest c cs in
    let o = outcome (refreshed (bare w) mine) (bare w) in
    (
      o,
      ap (outcome_of mine) (group_winner-cons c cs),
      IsEnlisted-resolved q before (c ∷ cs) w mine o h.0
          (outcome-lock (refreshed (bare w) mine) (bare w)),
      subst (λ l. IsReported l o) (sym (resolve_group-cons c cs))
          (outcome-IsReported w mine (c ∷ cs) (earliest-In c cs, earliest-Wins c cs) h.1),
    )

-- An acquisition has an outcome. A member that has a claim in the group keeps it, and else gets the
-- one that it asked for, behind the others, which all stay. The outcome reports that claim and the
-- claim of the group with the earliest Event_Revision, the lower id deciding between equal
-- revisions; the claims that are not flagged as concurrent are exactly those with the id of that
-- winner, and the requester's is contended, with the winner's holder and revision, exactly when it
-- is flagged.
pub acquire_reports :
    (p : Platform) (r : LockRegistry) (q : LockAcquisition)
    → let before = claims_for_scope p r q.session q.scope q.scope_kind q.branch in
      let after = claims_for_scope p (acquire p r q).0 q.session q.scope q.scope_kind q.branch in
      (o : AcquireOutcome) × ((acquire p r q).1 ≡ some o)
      × IsEnlisted q before after o.lock
      × IsReported after o
unfolding acquire claims_for_scope put
acquire_reports p r q =
    let key = session_key p q.session in
    let k = group_key p r.sensitivity q.scope q.scope_kind q.branch in
    let groups = groups_at r key in
    let made = enlist (claims_at groups k) q in
    let done =
      acquired_group q (claims_at groups k) made.0 made.1 (enlist-ne (claims_at groups k) q)
        (enlist-IsEnlisted q (claims_at groups k)) in
    subst
      (λ l.
        (o : AcquireOutcome) × (outcome_of made.1 (group_winner made.0) ≡ some o)
        × IsEnlisted q (claims_at groups k) l o.lock
        × IsReported l o)
      (sym (stored-claims r key k (resolve_group made.0))) done
