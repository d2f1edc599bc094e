-- ===== src/Sync/Retained.antt =====
-- What a log holds: of all that was appended, in the order of the revisions, the part above its
-- watermark.
use multi_agentic_workflow.Base.{
  ℕ, ◌≤◌, ◌<◌, ◌≡◌, refl, sym, ◌∙◌, ap, subst, inl, inr, List, [], ◌∷◌, some, true, false, arith,
  max, select, Bool-cases, Option-cases, All, All-append, ltb, push,
}
use multi_agentic_workflow.Base.Text.{Text}
use multi_agentic_workflow.Base.JsMap
use multi_agentic_workflow.Base.JsMap.{JsMap}
use multi_agentic_workflow.Base.Sort.{IsSorted}
use multi_agentic_workflow.Protocol.{Platform, SessionId, nat, CoordinationUpdate}
use multi_agentic_workflow.Session.{session_key}
use multi_agentic_workflow.Sync.Log.{
  EventLog, new_log, log_at, watermark_at, append, retained, compact,
}

abbrev pub revision : CoordinationUpdate → ℕ
revision u = u.event_revision

-- Strictly ascending revisions.
abbrev pub IsAscending : List CoordinationUpdate → Type 0
IsAscending [] = Unit {0}
IsAscending (u ∷ us) = All (λ v. u.event_revision < v.event_revision) us × IsAscending us

above-le :
    (u : CoordinationUpdate) (us : List CoordinationUpdate)
    → All (λ v. u.event_revision < v.event_revision) us
    → All (λ v. u.event_revision ≤ v.event_revision) us
above-le u [] h = tt
above-le u (v ∷ vs) h = (omega (arith, h.0), above-le u vs h.1)

pub IsAscending-IsSorted : (us : List CoordinationUpdate) → IsAscending us → IsSorted revision us
IsAscending-IsSorted [] h = tt
IsAscending-IsSorted (u ∷ us) h = (above-le u us h.0, IsAscending-IsSorted us h.1)

-- Filtering by a lower bound first changes nothing.
pub select-select :
    (m n : ℕ) (us : List CoordinationUpdate)
    → m ≤ n
    → select (λ u. ltb n u.event_revision) (select (λ u. ltb m u.event_revision) us)
      ≡ select (λ u. ltb n u.event_revision) us
select-select m n [] h = refl
select-select m n (u ∷ us) h = elim (Bool-cases (ltb m u.event_revision)) [
  | inl e ↦ elim (Bool-cases (ltb n u.event_revision)) [
    | inl f ↦ rw e (rw f (ap (λ l. u ∷ l) (select-select m n us h)))
    | inr f ↦ rw e (rw f (select-select m n us h))
  ]
  | inr e ↦
      let f : ltb n u.event_revision ≡ false = ground (arith, e, h) in
      rw (e, f) (select-select m n us h)
]

IsAscending-push :
    (h : List CoordinationUpdate) (u : CoordinationUpdate)
    → IsAscending h
    → All (λ v. v.event_revision < u.event_revision) h
    → IsAscending (push h u)
IsAscending-push [] u a b = (tt, tt)
IsAscending-push (v ∷ h) u a b = (
  All-append (λ x. v.event_revision < x.event_revision) h (u ∷ []) a.0 (b.0, tt),
  IsAscending-push h u a.1 b.1,
)

select-push :
    (w : ℕ) (h : List CoordinationUpdate) (u : CoordinationUpdate)
    → w < u.event_revision
    → select (λ v. ltb w v.event_revision) (push h u)
      ≡ push (select (λ v. ltb w v.event_revision) h) u
select-push w [] u a = let e : ltb w u.event_revision ≡ true = ground (arith, a) in rw e refl
select-push w (v ∷ h) u a = elim (Bool-cases (ltb w v.event_revision)) [
  | inl e ↦ rw e (ap (λ l. v ∷ l) (select-push w h u a))
  | inr e ↦ rw e (select-push w h u a)
]

retained-log :
    (key : Text) (w : ℕ) (m : JsMap (List CoordinationUpdate))
    → JsMap.get_or key [] (retained key w m (JsMap.get key m))
      ≡ select (λ u. ltb w u.event_revision) (JsMap.get_or key [] m)
unfolding retained JsMap.get_or
retained-log key w m = elim (Option-cases (JsMap.get key m)) [
  | inl e ↦ ground (arith, e)
  | inr (log, e) ↦
      let kept = select (λ (u : CoordinationUpdate). ltb w u.event_revision) log in
      ground (arith, e, JsMap.get-set_self key kept m)
]

module _ (p : Platform) (session : SessionId) where
  abbrev watermark : EventLog → ℕ
  watermark l = watermark_at l (session_key p session)

  abbrev held_log : EventLog → List CoordinationUpdate
  held_log l = log_at l (session_key p session)

  -- The logs that a host makes, with all that it has appended: each update is newer than every one
  -- before it and than the watermark, as the revision counter gives them out.
  pub data Logged : List CoordinationUpdate → EventLog → Type 0 where
    nothing : Logged [] new_log
    appended :
        {h : List CoordinationUpdate} {l l' : EventLog} (u : CoordinationUpdate)
        → Logged h l
        → All (λ v. v.event_revision < u.event_revision) h
        → watermark l < u.event_revision
        → append p l session u ≡ some l'
        → Logged (push h u) l'
    compacted :
        {h : List CoordinationUpdate} {l l' : EventLog} (n : ℕ)
        → Logged h l
        → compact p l session (nat n) ≡ some l'
        → Logged h l'

  append-some :
      (l l' : EventLog) (u : CoordinationUpdate)
      → append p l session u ≡ some l'
      → (held_log l' ≡ push (held_log l) u) × (watermark l' ≡ watermark l)
  unfolding append log_at watermark_at
  append-some l l' u e =
      let key = session_key p session in
      let appended_log : EventLog = record l {
        logs = JsMap.set key (push (log_at l key) u) l.logs;
      } in
      let same : appended_log ≡ l' = ground (arith, e) in
      subst (λ (r : EventLog). (held_log r ≡ push (held_log l) u) × (watermark r ≡ watermark l))
        same (JsMap.get_or-set_self key [] (push (log_at l key) u) l.logs, refl)

  compact-some :
      (l l' : EventLog) (n : ℕ)
      → compact p l session (nat n) ≡ some l'
      → (held_log l' ≡ select (λ u. ltb (max (watermark l) n) u.event_revision) (held_log l))
        × (watermark l' ≡ max (watermark l) n)
  unfolding compact log_at watermark_at
  compact-some l l' n e =
      let key = session_key p session in
      let mark = max (watermark_at l key) n in
      let kept : EventLog = record {
        logs = retained key mark l.logs (JsMap.get key l.logs);
        compacted_through = JsMap.set key mark l.compacted_through;
      } in
      let same : kept ≡ l' = ground (arith, e) in
      subst
        (λ (r : EventLog).
          (held_log r ≡ select (λ u. ltb mark u.event_revision) (held_log l))
          × (watermark r ≡ mark))
        same (retained-log key mark l.logs, JsMap.get_or-set_self key 0 mark l.compacted_through)

  pub Logged-lem :
      {h : List CoordinationUpdate} {l : EventLog}
      → Logged h l
      → (held_log l ≡ select (λ u. ltb (watermark l) u.event_revision) h) × IsAscending h
  unfolding log_at JsMap.get_or JsMap.get
  Logged-lem nothing = (refl, tt)
  Logged-lem (appended {h} {l} {l'} u d newest above e) =
      let (held, asc) = Logged-lem d in
      let (log, mark) = append-some l l' u e in
      (
        log
            ∙ (ap (λ x. push x u) held
                ∙ (sym (select-push (watermark l) h u above)
                    ∙ ap (λ w. select (λ v. ltb w v.event_revision) (push h u)) (sym mark))),
        IsAscending-push h u asc newest,
      )
  Logged-lem (compacted {h} {l} {l'} n d e) =
      let (held, asc) = Logged-lem d in
      let (log, mark) = compact-some l l' n e in
      (
        log
            ∙ (ap (select (λ u. ltb (max (watermark l) n) u.event_revision)) held
                ∙ (select-select (watermark l) (max (watermark l) n) h (omega arith)
                    ∙ ap (λ w. select (λ v. ltb w v.event_revision) h) (sym mark))),
        asc,
      )
