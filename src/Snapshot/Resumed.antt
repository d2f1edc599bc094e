-- ===== src/Snapshot/Resumed.antt =====
-- After a restore, no revision of the snapshot is given out again.
use multi_agentic_workflow.Base.{
  ℕ, ◌+◌, ◌≤◌, ◌<◌, ◌≡◌, refl, sym, ap, subst, List, [], ◌∷◌, some, arith, ltb, max, if◌then◌else◌,
  All,
}
use multi_agentic_workflow.Base.JsMap
use multi_agentic_workflow.Protocol.{
  Platform, SessionId, Lock, Presence, DeclaredIntent, MessageDto, TaskDto, NotificationDto,
  LiveDiffDto, SessionStateSnapshot,
}
use multi_agentic_workflow.Session.{session_key}
use multi_agentic_workflow.Revisions.{RevisionCounter, highest, highest_at, next, resume}
use multi_agentic_workflow.Snapshot.{
  SessionRegistries, max_over, or_empty, max_persisted_revision, with_counter, reinstalled,
  restore_session_state,
}

module _ {A : Type 0} (revision : A → ℕ) where
  max_over-le : (n : ℕ) (xs : List A) → n ≤ max_over revision n xs
  unfolding max_over
  max_over-le n [] = omega arith
  max_over-le n (x ∷ xs) =
      ground (arith, max_over-le (if ltb n (revision x) then revision x else n) xs)

  max_over-All : (n : ℕ) (xs : List A) → All (λ x. revision x ≤ max_over revision n xs) xs
  unfolding max_over
  max_over-All n [] = tt
  max_over-All n (x ∷ xs) =
      let m = if ltb n (revision x) then revision x else n in
      let h : revision x ≤ m = ground arith in
      (omega (arith, h, max_over-le m xs), max_over-All m xs)

  All-below :
      (m n : ℕ) (xs : List A)
      → m ≤ n
      → All (λ x. revision x ≤ m) xs
      → All (λ x. revision x < n + 1) xs
  All-below m n [] h a = tt
  All-below m n (x ∷ xs) h a = (omega (arith, h, a.0), All-below m n xs h a.1)

-- All revisions of the snapshot are below `n`.
abbrev pub AreBelow : ℕ → SessionStateSnapshot → Type 0
AreBelow n s =
    (s.highest_revision < n)
    × All (λ (l : Lock). l.event_revision < n) s.locks
    × All (λ (e : Presence). e.event_revision < n) s.presences
    × All (λ (i : DeclaredIntent). i.event_revision < n) s.intents
    × All (λ (m : MessageDto). m.event_revision < n) (or_empty s.messages)
    × All (λ (t : TaskDto). t.event_revision < n) (or_empty s.tasks)
    × All (λ (x : NotificationDto). x.event_revision < n) (or_empty s.notifications)
    × All (λ (d : LiveDiffDto). d.event_revision < n) (or_empty s.diffs)

max_persisted_revision-AreBelow :
    (s : SessionStateSnapshot) (n : ℕ) → max_persisted_revision s ≤ n → AreBelow (n + 1) s
unfolding max_persisted_revision
max_persisted_revision-AreBelow s n h =
    let locks : Lock → ℕ = λ l. l.event_revision in
    let presences : Presence → ℕ = λ e. e.event_revision in
    let intents : DeclaredIntent → ℕ = λ i. i.event_revision in
    let messages : MessageDto → ℕ = λ m. m.event_revision in
    let tasks : TaskDto → ℕ = λ t. t.event_revision in
    let notifications : NotificationDto → ℕ = λ x. x.event_revision in
    let diffs : LiveDiffDto → ℕ = λ d. d.event_revision in
    let a = max_over locks s.highest_revision s.locks in
    let b = max_over presences a s.presences in
    let c = max_over intents b s.intents in
    let d = max_over messages c (or_empty s.messages) in
    let e = max_over tasks d (or_empty s.tasks) in
    let f = max_over notifications e (or_empty s.notifications) in
    let ha = max_over-le locks s.highest_revision s.locks in
    let hb = max_over-le presences a s.presences in
    let hc = max_over-le intents b s.intents in
    let hd = max_over-le messages c (or_empty s.messages) in
    let he = max_over-le tasks d (or_empty s.tasks) in
    let hf = max_over-le notifications e (or_empty s.notifications) in
    let hg = max_over-le diffs f (or_empty s.diffs) in
    let kf : f ≤ n = omega (arith, h, hg) in
    let ke : e ≤ n = omega (arith, kf, hf) in
    let kd : d ≤ n = omega (arith, ke, he) in
    let kc : c ≤ n = omega (arith, kd, hd) in
    let kb : b ≤ n = omega (arith, kc, hc) in
    let ka : a ≤ n = omega (arith, kb, hb) in
    (
      omega (arith, ka, ha),
      All-below locks a n s.locks ka (max_over-All locks s.highest_revision s.locks),
      All-below presences b n s.presences kb (max_over-All presences a s.presences),
      All-below intents c n s.intents kc (max_over-All intents b s.intents),
      All-below messages d n (or_empty s.messages) kd
          (max_over-All messages c (or_empty s.messages)),
      All-below tasks e n (or_empty s.tasks) ke (max_over-All tasks d (or_empty s.tasks)),
      All-below notifications f n (or_empty s.notifications) kf
          (max_over-All notifications e (or_empty s.notifications)),
      All-below diffs (max_over diffs f (or_empty s.diffs)) n (or_empty s.diffs) h
          (max_over-All diffs f (or_empty s.diffs)),
    )

next-resumed :
    (p : Platform) (c : RevisionCounter) (session : SessionId) (n : ℕ)
    → (next p
        (record {
          counters = JsMap.set (session_key p session) (max (highest p c session) n) c.counters;
        })
        session).1
      ≡ max (highest p c session) n + 1
unfolding next highest highest_at
next-resumed p c session n =
    ap (λ k. k + 1)
      (JsMap.get_or-set_self (session_key p session) 0 (max (highest p c session) n) c.counters)

-- Restoring a snapshot succeeds, and the next revision that is given out for its session is greater
-- than the one that the counter had reached and than every revision of the snapshot: its highest
-- revision and that of each lock, presence, intent, message, task, notification and diff.
pub restore_session_state-AreBelow :
    (p : Platform) (s : SessionStateSnapshot) (r : SessionRegistries)
    → (r' : SessionRegistries) × (restore_session_state p s r ≡ some r')
      × (highest p r.revisions s.session < (next p r'.revisions s.session).1)
      × AreBelow (next p r'.revisions s.session).1 s
unfolding restore_session_state with_counter resume highest
restore_session_state-AreBelow p s r =
    let n = max_persisted_revision s in
    let top = max (highest p r.revisions s.session) n in
    let c : RevisionCounter = record {
      counters = JsMap.set (session_key p s.session) top r.revisions.counters;
    } in
    let same = next-resumed p r.revisions s.session n in
    let below : AreBelow (top + 1) s = max_persisted_revision-AreBelow s top (omega arith) in
    (
      record (reinstalled p s r) { revisions = c },
      refl,
      omega (arith, same),
      subst (λ k. AreBelow k s) (sym same) below,
    )
