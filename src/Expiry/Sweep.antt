-- ===== src/Expiry/Sweep.antt =====
-- What the release of old soft locks reports, and under which revisions.
use multi_agentic_workflow.Base.{
  ℕ, ◌+◌, ◌-◌, ◌<◌, ◌≡◌, ◌↔◌, refl, inl, inr, Bool, true, none, Bool-cases, ◌&&◌, ap, ◌∙◌, List, [],
  ◌∷◌, ◌++◌, map, Option, some, arith, length, select,
}
use multi_agentic_workflow.Base.Text.{Text}
use multi_agentic_workflow.Protocol.{
  Platform, SessionId, MemberRef, Lock, CoordinationUpdate, UpdateOp, removed, RiskLevel, soft,
  hard, coordination_required,
}
use multi_agentic_workflow.Revisions.{RevisionCounter, next, highest}
use multi_agentic_workflow.Locks.Upkeep.{
  expire_soft_locks_acquired_before, all_locks, soft_and_old, is_soft, before,
}
use multi_agentic_workflow.Locks.Expiry.{expire_soft_locks_acquired_before_lem}
use multi_agentic_workflow.Expiry.Reported.{
  Follows, Follows-append, Reported, report_removals-Reported, promoted_lock_updates-Reported,
}
use multi_agentic_workflow.Expiry.{
  ExpiryEngine, SweepState, report_removals, expire_stale_soft_locks,
}

-- The release of old soft locks takes its place in the session's order of events: its removals and
-- then its promotions carry the revisions that follow the highest one, one by one, and the counter
-- ends at the last of them.
pub expire_stale_soft_locks-Follows :
    (p : Platform) (e : ExpiryEngine) (s : SweepState) (session : SessionId) (now : ℕ)
    → let done = expire_stale_soft_locks p e s session now in
      Follows (highest p s.revisions session) (done.1.removals ++ done.1.promotions)
      × (highest p done.0.revisions session
          ≡ highest p s.revisions session + (length done.1.removals + length done.1.promotions))
unfolding expire_stale_soft_locks Reported
expire_stale_soft_locks-Follows p e s session now =
    let expired =
      expire_soft_locks_acquired_before p s.locks session (now - e.config.soft_lock_max_age_ms) in
    let gone = report_removals p session s.revisions expired.1 in
    let a = report_removals-Reported p session s.revisions expired.1 in
    let b = promoted_lock_updates-Reported p expired.0 session gone.0 [] expired.1 in
    (
      Follows-append (highest p s.revisions session) (highest p gone.0 session) gone.1 _ a.0 a.1
          b.0,
      ground (arith, a.1, b.1),
    )

-- What an update says of a lock, beside its revision.
abbrev pub shown : CoordinationUpdate → UpdateOp × Option Text × MemberRef
shown u = (u.op, u.path, u.member)

report_removals-shown :
    (p : Platform) (session : SessionId) (c : RevisionCounter) (ls : List Lock)
    → map shown (report_removals p session c ls).1 ≡ map (λ l. (removed, some l.scope, l.holder)) ls
unfolding report_removals
report_removals-shown p session c [] = refl
report_removals-shown p session c (l ∷ ls) =
    ap (λ us. (removed, some l.scope, l.holder) ∷ us)
      (report_removals-shown p session (next p c session).0 ls)

-- A soft lock whose time can be read and lies further back than the age.
abbrev pub IsOldSoft : Platform → ℕ → ℕ → Lock → Type 0
IsOldSoft p age now l =
    (l.mode ≡ soft) × ((t : ℕ) × (p.date_parse l.acquired_at ≡ some t) × (t + age < now))

-- `picked` has those of a list for which `P` holds, in their order, and no others.
pub data ArePicked {A : Type 0} (P : A → Type 0) : List A → List A → Type 0 where
  ended : ArePicked P [] []
  taken :
      {x : A} {xs picked : List A} → P x → ArePicked P xs picked → ArePicked P (x ∷ xs) (x ∷ picked)
  passed :
      {x : A} {xs picked : List A} → (P x → ⊥) → ArePicked P xs picked → ArePicked P (x ∷ xs) picked

select-ArePicked :
    {A : Type 0} (P : A → Type 0) (test : A → Bool)
    → ((x : A) → (test x ≡ true) ↔ P x)
    → (xs : List A) → ArePicked P xs (select test xs)
select-ArePicked P test h [] = ended
select-ArePicked P test h (x ∷ xs) = elim (Bool-cases (test x)) [
  | inl e ↦ rw e (taken ((h x).0 e) (select-ArePicked P test h xs))
  | inr e ↦ rw e (passed (λ k. ground (arith, e, (h x).1 k)) (select-ArePicked P test h xs))
]

is_soft-before :
    (m : RiskLevel) (o : Option ℕ) (age now : ℕ)
    → ((is_soft m && before o (now - age)) ≡ true)
      ↔ ((m ≡ soft) × ((t : ℕ) × (o ≡ some t) × (t + age < now)))
unfolding is_soft before
is_soft-before soft (some t) age now = (
  (λ h. (refl, (t, refl, ground (arith, h)))),
  λ h. let (u, e, k) = h.1 in let same : t ≡ u = ground (arith, e) in ground (arith, same, k),
)
is_soft-before soft none age now =
    ((λ h. absurd (ground (arith, h))), λ h. absurd (ground (arith, h.1.1)))
is_soft-before coordination_required o age now =
    ((λ h. absurd (ground (arith, h))), λ h. absurd (ground (arith, h.0)))
is_soft-before hard o age now =
    ((λ h. absurd (ground (arith, h))), λ h. absurd (ground (arith, h.0)))

soft_and_old-IsOldSoft :
    (p : Platform) (age now : ℕ) (l : Lock)
    → (soft_and_old p (now - age) l ≡ true) ↔ IsOldSoft p age now l
unfolding soft_and_old
soft_and_old-IsOldSoft p age now l = is_soft-before l.mode (p.date_parse l.acquired_at) age now

-- The release of old soft locks reports the removal of exactly the session's soft locks whose time of
-- acquisition can be read and lies further back than the configured age, in their order, each with
-- its scope and holder.
pub expire_stale_soft_locks-removals :
    (p : Platform) (e : ExpiryEngine) (s : SweepState) (session : SessionId) (now : ℕ)
    → (gone : List Lock) × ArePicked
        (IsOldSoft p e.config.soft_lock_max_age_ms now)
        (all_locks p s.locks session)
        gone
      × (map shown (expire_stale_soft_locks p e s session now).1.removals
          ≡ map (λ l. (removed, some l.scope, l.holder)) gone)
unfolding expire_stale_soft_locks
expire_stale_soft_locks-removals p e s session now =
    let age = e.config.soft_lock_max_age_ms in
    let cutoff = now - age in
    (
      select (soft_and_old p cutoff) (all_locks p s.locks session),
      select-ArePicked (IsOldSoft p age now) (soft_and_old p cutoff)
          (soft_and_old-IsOldSoft p age now) (all_locks p s.locks session),
      report_removals-shown p session s.revisions
            (expire_soft_locks_acquired_before p s.locks session cutoff).1
          ∙ ap (map (λ l. (removed, some l.scope, l.holder)))
              (expire_soft_locks_acquired_before_lem p s.locks session cutoff).1,
    )
