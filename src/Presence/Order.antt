-- ===== src/Presence/Order.antt =====
-- Reports are applied in the order of their Event_Revisions, whatever order they arrive in.
use multi_agentic_workflow.Base.{
  ℕ, ◌≤◌, ◌≡◌, refl, subst, ◌∙◌, inl, inr, List, [], ◌∷◌, Option, none, some, Bool, ◌&&◌, arith,
  Bool-cases, if◌then◌else◌, In,
}
use multi_agentic_workflow.Base.Text.{Text, text_eq, text_eq_iff, text_eq_refl}
use multi_agentic_workflow.Base.JsMap
use multi_agentic_workflow.Protocol.{Platform, Presence}
use multi_agentic_workflow.Session.{session_key}
use multi_agentic_workflow.RepoPath.{CaseSensitivity}
use multi_agentic_workflow.Presence.{
  PresenceRegistry, PresenceReport, entry_key, entries_at, put, presence_of, newest, report,
}

abbrev pub lookup : PresenceRegistry → Text → Text → Option Presence
lookup r key k = JsMap.get k (entries_at r key)

-- The slot that a report is for.
abbrev pub is_for : Platform → Option CaseSensitivity → PresenceReport → Text → Text → Bool
is_for p s q key k =
    text_eq (session_key p q.session) key && text_eq (entry_key p s q.member q.path) k

pub lookup-report :
    (p : Platform) (r : PresenceRegistry) (q : PresenceReport) (key k : Text)
    → lookup (report p r q).0 key k ≡ (
        if is_for p r.sensitivity q key k
        then some (newest (lookup r key k) (presence_of q))
        else lookup r key k)
unfolding report put entries_at
lookup-report p r q key k =
    let s_key = session_key p q.session in
    let entries = JsMap.get_or s_key [] r.sessions in
    let e_key = entry_key p r.sensitivity q.member q.path in
    let stored = newest (JsMap.get e_key entries) (presence_of q) in
    ground (
      arith,
      JsMap.get_or-set s_key key [] (JsMap.set e_key stored entries) r.sessions,
      JsMap.get-set e_key k stored entries,
      text_eq_iff s_key key,
      text_eq_iff e_key k,
    )

-- The slot holds an entry of at least this revision.
abbrev pub AtLeast : ℕ → Option Presence → Type 0
AtLeast n none = ⊥
AtLeast n (some e) = n ≤ e.event_revision

newest-AtLeast :
    (n : ℕ) (o : Option Presence) (e : Presence) → AtLeast n o → n ≤ (newest o e).event_revision
unfolding newest
newest-AtLeast n none e h = absurd h
newest-AtLeast n (some x) e h = ground (arith, h)

newest-le : (o : Option Presence) (e : Presence) → e.event_revision ≤ (newest o e).event_revision
unfolding newest
newest-le none e = omega arith
newest-le (some x) e = ground arith

unfoldable pub report_all : Platform → PresenceRegistry → List PresenceReport → PresenceRegistry
report_all p r [] = r
report_all p r (q ∷ qs) = report_all p (report p r q).0 qs

pub report-sensitivity :
    (p : Platform) (r : PresenceRegistry) (q : PresenceReport)
    → (report p r q).0.sensitivity ≡ r.sensitivity
unfolding report put
report-sensitivity p r q = refl

report-keeps :
    (p : Platform) (r : PresenceRegistry) (q : PresenceReport) (key k : Text) (n : ℕ)
    → AtLeast n (lookup r key k)
    → AtLeast n (lookup (report p r q).0 key k)
report-keeps p r q key k n h = elim (Bool-cases (is_for p r.sensitivity q key k)) [
  | inl e ↦ rw (lookup-report p r q key k, e) (newest-AtLeast n (lookup r key k) (presence_of q) h)
  | inr e ↦ rw (lookup-report p r q key k, e) h
]

-- The revision of a stored entry never falls, whatever is reported.
pub report_all-AtLeast :
    (p : Platform) (r : PresenceRegistry) (qs : List PresenceReport) (key k : Text) (n : ℕ)
    → AtLeast n (lookup r key k)
    → AtLeast n (lookup (report_all p r qs) key k)
unfolding report_all
report_all-AtLeast p r [] key k n h = h
report_all-AtLeast p r (q ∷ qs) key k n h =
    report_all-AtLeast p (report p r q).0 qs key k n (report-keeps p r q key k n h)

report_own :
    (p : Platform) (r : PresenceRegistry) (q : PresenceReport) (s : Option CaseSensitivity)
    → r.sensitivity ≡ s
    → AtLeast q.event_revision
        (lookup (report p r q).0 (session_key p q.session) (entry_key p s q.member q.path))
report_own p r q s h =
    let s_key = session_key p q.session in
    let e_key = entry_key p s q.member q.path in
    subst (AtLeast q.event_revision) {x = some (newest (lookup r s_key e_key) (presence_of q))}
      (ground (arith, h, lookup-report p r q s_key e_key, text_eq_refl s_key, text_eq_refl e_key))
      (newest-le (lookup r s_key e_key) (presence_of q))

-- After any sequence of reports, in any order of arrival, the slot of each report holds an entry
-- whose Event_Revision is no older than that report's.
pub report_all_newest :
    (p : Platform) (s : Option CaseSensitivity) (r : PresenceRegistry) (qs : List PresenceReport)
    (q : PresenceReport)
    → r.sensitivity ≡ s
    → In q qs
    → AtLeast q.event_revision
        (lookup (report_all p r qs) (session_key p q.session) (entry_key p s q.member q.path))
unfolding report_all
report_all_newest p s r [] q h i = absurd i
report_all_newest p s r (x ∷ qs) q h (inl e) =
    report_all-AtLeast p (report p r x).0 qs _ _ q.event_revision (
      subst
        (λ y.
          AtLeast y.event_revision
            (lookup (report p r x).0 (session_key p y.session) (entry_key p s y.member y.path)))
        e (report_own p r x s h))
report_all_newest p s r (x ∷ qs) q h (inr i) =
    report_all_newest p s (report p r x).0 qs q (report-sensitivity p r x ∙ h) i
