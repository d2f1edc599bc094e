-- ===== src/Expiry/Reported.antt =====
-- Loops that report updates, each with a fresh revision: the revisions follow one another.
use multi_agentic_workflow.Base.{
  ℕ, ◌+◌, ◌≡◌, refl, sym, subst, ◌∙◌, inl, inr, List, [], ◌∷◌, ◌++◌, arith, Option-cases, length,
}
use multi_agentic_workflow.Base.Text.{Text}
use multi_agentic_workflow.Base.JsSet
use multi_agentic_workflow.Protocol.{Platform, SessionId, Lock, CoordinationUpdate, removed, added}
use multi_agentic_workflow.Revisions.{RevisionCounter, next, highest}
use multi_agentic_workflow.Revisions.Order.{next_lem}
use multi_agentic_workflow.Locks.{LockRegistry}
use multi_agentic_workflow.Locks.Upkeep.{winning_lock}
use multi_agentic_workflow.Expiry.{report_removals, to_promote, promoted_lock_updates, lock_update}

-- The updates carry the revisions that follow `n`, one by one.
abbrev pub Follows : ℕ → List CoordinationUpdate → Type 0
Follows n [] = Unit {0}
Follows n (u ∷ us) = (u.event_revision ≡ n + 1) × Follows (n + 1) us

pub Follows-append :
    (n m : ℕ) (us vs : List CoordinationUpdate)
    → Follows n us
    → m ≡ n + length us
    → Follows m vs
    → Follows n (us ++ vs)
Follows-append n m [] vs h e g = subst (λ k. Follows k vs) {x = m} {y = n} (ground (arith, e)) g
Follows-append n m (u ∷ us) vs h e g =
    (h.0, Follows-append (n + 1) m us vs h.1 (ground (arith, e)) g)

-- What a loop of reports has done to the counter: it follows its highest revision.
unfoldable pub Reported :
    Platform → SessionId → RevisionCounter → RevisionCounter × List CoordinationUpdate → Type 0
Reported p session c done =
    Follows (highest p c session) done.1
    × (highest p done.0 session ≡ highest p c session + length done.1)

pub Reported-nil :
    (p : Platform) (session : SessionId) (c : RevisionCounter) → Reported p session c (c, [])
unfolding Reported
Reported-nil p session c = (tt, omega arith)

pub Reported-cons :
    (p : Platform) (session : SessionId) (c : RevisionCounter) (u : CoordinationUpdate)
    (done : RevisionCounter × List CoordinationUpdate)
    → u.event_revision ≡ (next p c session).1
    → Reported p session (next p c session).0 done
    → Reported p session c (done.0, u ∷ done.1)
unfolding Reported
Reported-cons p session c u done a h =
    let facts = next_lem p c session [] in
    let e : highest p (next p c session).0 session ≡ highest p c session + 1 = facts.1 ∙ facts.0 in
    ((a ∙ facts.0, rw (sym e) h.0), ground (arith, e, h.1))

length-append : (us vs : List CoordinationUpdate) → length (us ++ vs) ≡ length us + length vs
length-append [] vs = omega arith
length-append (u ∷ us) vs = ground (arith, length-append us vs)

-- One loop of reports after another.
pub Reported-append :
    (p : Platform) (session : SessionId) (c : RevisionCounter)
    (a b : RevisionCounter × List CoordinationUpdate)
    → Reported p session c a
    → Reported p session a.0 b
    → Reported p session c (b.0, a.1 ++ b.1)
unfolding Reported
Reported-append p session c a b h k = (
  Follows-append (highest p c session) (highest p a.0 session) a.1 b.1 h.0 h.1 k.0,
  ground (arith, h.1, k.1, length-append a.1 b.1),
)

pub report_removals-Reported :
    (p : Platform) (session : SessionId) (c : RevisionCounter) (ls : List Lock)
    → Reported p session c (report_removals p session c ls)
unfolding report_removals
report_removals-Reported p session c [] = Reported-nil p session c
report_removals-Reported p session c (l ∷ ls) =
    Reported-cons p session c (lock_update removed l (next p c session).1)
      (report_removals p session (next p c session).0 ls) refl
      (report_removals-Reported p session (next p c session).0 ls)

pub promoted_lock_updates-Reported :
    (p : Platform) (locks : LockRegistry) (session : SessionId) (c : RevisionCounter)
    (emitted : List Text) (ls : List Lock)
    → Reported p session c (promoted_lock_updates p locks session c emitted ls)
unfolding promoted_lock_updates
promoted_lock_updates-Reported p locks session c emitted [] = Reported-nil p session c
promoted_lock_updates-Reported p locks session c emitted (l ∷ ls) =
    elim (Option-cases
      (to_promote emitted l (winning_lock p locks session l.scope l.scope_kind l.branch))) [
        | inl e ↦
            rw (e, promoted_lock_updates)
              (promoted_lock_updates-Reported p locks session c emitted ls)
        | inr (w, e) ↦
            rw (e, promoted_lock_updates)
              (Reported-cons p session c (lock_update added w (next p c session).1) _ refl (
                promoted_lock_updates-Reported p locks session (next p c session).0
                  (JsSet.add emitted w.lock_id) ls))
      ]
