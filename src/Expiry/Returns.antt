-- ===== src/Expiry/Returns.antt =====
-- A sweep whose counter is ahead of the presence entries always returns, and its updates take their
-- place in the session's order of events.
use mathlib.Core.List.{append-nil, append_assoc}
use multi_agentic_workflow.Base.{
  ℕ, ◌≤◌, ◌<◌, ◌≡◌, refl, sym, ◌∙◌, ap, subst, inl, inr, List, [], ◌∷◌, ◌++◌, map, Option, none,
  some, false, arith, if◌then◌else◌, Bool-cases, All, select-All, push, leb,
}
use multi_agentic_workflow.Base.Text.{Text}
use multi_agentic_workflow.Base.JsMap
use multi_agentic_workflow.Base.JsMap.{Holds, set-Holds}
use multi_agentic_workflow.Protocol.{Platform, SessionId, Presence}
use multi_agentic_workflow.Session.{session_key}
use multi_agentic_workflow.Revisions.{RevisionCounter, next, highest}
use multi_agentic_workflow.Revisions.Order.{next_lem}
use multi_agentic_workflow.Presence.{
  PresenceRegistry, Entries, entries_at, put, presence_of, newest, report, all, active,
  active_for_device, insert_entry, sort_entries, precedes, stop_report, stop_each,
  stop_active_for_device, entry_key,
}
use multi_agentic_workflow.Expiry.Reported.{Reported, Reported-nil, Reported-cons}
use multi_agentic_workflow.Expiry.Devices.{presence_update, allocate}

abbrev UpTo : ℕ → Presence → Type 0
UpTo n e = e.event_revision ≤ n

UpTo-mono : (m n : ℕ) (es : List Presence) → m ≤ n → All (UpTo m) es → All (UpTo n) es
UpTo-mono m n [] h k = tt
UpTo-mono m n (e ∷ es) h k = (omega (arith, h, k.0), UpTo-mono m n es h k.1)

Holds-UpTo-mono : (m n : ℕ) (es : Entries) → m ≤ n → Holds (UpTo m) es → Holds (UpTo n) es
Holds-UpTo-mono m n [] h k = tt
Holds-UpTo-mono m n (e ∷ es) h k = (omega (arith, h, k.0), Holds-UpTo-mono m n es h k.1)

Holds-values : (n : ℕ) (es : Entries) → Holds (UpTo n) es → All (UpTo n) (JsMap.values es)
Holds-values n [] h = tt
Holds-values n (e ∷ es) h = (h.0, Holds-values n es h.1)

insert_entry-All :
    (n : ℕ) (e : Presence) (es : List Presence)
    → UpTo n e
    → All (UpTo n) es
    → All (UpTo n) (insert_entry e es)
unfolding insert_entry
insert_entry-All n e [] h k = (h, tt)
insert_entry-All n e (x ∷ xs) h k = elim (Bool-cases (precedes e x)) [
  | inl t ↦ rw t (h, k)
  | inr f ↦ rw f (k.0, insert_entry-All n e xs h k.1)
]

sort_entries-All :
    (n : ℕ) (sorted es : List Presence)
    → All (UpTo n) sorted
    → All (UpTo n) es
    → All (UpTo n) (sort_entries sorted es)
unfolding sort_entries
sort_entries-All n sorted [] h k = h
sort_entries-All n sorted (e ∷ es) h k =
    sort_entries-All n (insert_entry e sorted) es (insert_entry-All n e sorted k.0 h) k.1

module _ (p : Platform) (session : SessionId) where
  -- Every presence entry of the session is as old as the counter.
  abbrev pub Bounded : ℕ → PresenceRegistry → Type 0
  Bounded n r = Holds (UpTo n) (entries_at r (session_key p session))

  active_for_device-UpTo :
      (n : ℕ) (r : PresenceRegistry) (device : Text)
      → Bounded n r
      → All (UpTo n) (active_for_device p r session device)
  unfolding active_for_device active all
  active_for_device-UpTo n r device h =
      sort_entries-All n [] _ tt
        (select-All (UpTo n) _ _ (select-All (UpTo n) _ _ (Holds-values n _ h)))

  newest-new :
      (n : ℕ) (o : Option Presence) (e : Presence)
      → ((x : Presence) → o ≡ some x → x.event_revision ≤ n)
      → n < e.event_revision
      → newest o e ≡ e
  unfolding newest
  newest-new n none e h k = refl
  newest-new n (some x) e h k = ground (arith, h x refl, k)

  entry-UpTo :
      (n : ℕ) (key : Text) (es : Entries) (x : Presence)
      → Holds (UpTo n) es
      → JsMap.get key es ≡ some x
      → x.event_revision ≤ n
  entry-UpTo n key es x h e = JsMap.get-Holds (UpTo n) key x es h e

  -- A report that is newer than every entry is stored as it is.
  report-newer :
      (n : ℕ) (r : PresenceRegistry) (e : Presence) (revision : ℕ)
      → Bounded n r
      → n < revision
      → ((report p r (stop_report session e revision)).1.event_revision ≡ revision)
        × Bounded revision (report p r (stop_report session e revision)).0
  unfolding report put entries_at
  report-newer n r e revision h k =
      let s_key = session_key p session in
      let key = entry_key p r.sensitivity e.member e.path in
      let entries = JsMap.get_or s_key [] r.sessions in
      let new = presence_of (stop_report session e revision) in
      let stored = newest (JsMap.get key entries) new in
      let same : stored ≡ new =
        newest-new n (JsMap.get key entries) new (λ x q. entry-UpTo n key entries x h q) k in
      (
        ap (λ x. x.event_revision) same,
        subst (Holds (UpTo revision))
            (sym (JsMap.get_or-set_self s_key [] (JsMap.set key stored entries) r.sessions))
            (set-Holds (UpTo revision) key stored entries
              (Holds-UpTo-mono n revision entries (omega (arith, k)) h)
              (subst (UpTo revision) (sym same) (omega arith))),
      )

  Ended :
      RevisionCounter
      → List Presence
      → (PresenceRegistry × RevisionCounter) × Option (List Presence)
      → Type 0
  Ended c ended done =
      (new : List Presence) × (done.1 ≡ some (ended ++ new))
      × Reported p session c (done.0.1, map presence_update new)
      × Bounded (highest p done.0.1 session) done.0.0

  stop_each-Ended :
      (r : PresenceRegistry) (c : RevisionCounter) (es ended : List Presence)
      → All (UpTo (highest p c session)) es
      → Bounded (highest p c session) r
      → Ended c ended (stop_each p (allocate p session) session r c es ended)
  unfolding stop_each allocate Ended
  stop_each-Ended r c [] ended h b =
      ([], ap some (sym (append-nil ended)), Reported-nil p session c, b)
  stop_each-Ended r c (e ∷ es) ended h b =
      let facts = next_lem p c session [] in
      let n = next p c session in
      let at_n : highest p n.0 session ≡ n.1 = facts.1 in
      let later : highest p c session < n.1 = omega (arith, facts.0) in
      let d = report p r (stop_report session e n.1) in
      let rest = stop_each p (allocate p session) session d.0 n.0 es (push ended d.1) in
      let (same, bounded) = report-newer (highest p c session) r e n.1 b later in
      let (new, eq, told, bound) =
        stop_each-Ended d.0 n.0 es (push ended d.1)
          (UpTo-mono (highest p c session) (highest p n.0 session) es (omega (arith, at_n, later))
            h.1)
          (subst (λ k. Bounded k d.0) (sym at_n) bounded) in
      let good : leb n.1 e.event_revision ≡ false = ground (arith, h.0, later) in
      subst (λ b. Ended c ended (if b then ((r, n.0), none) else rest)) (sym good)
        (
          d.1 ∷ new,
          eq ∙ ap some (append_assoc ended (d.1 ∷ []) new),
          Reported-cons p session c (presence_update d.1) (rest.0.1, map presence_update new) same
              told,
          bound,
        )

  pub Bounded-mono : (m n : ℕ) (r : PresenceRegistry) → m ≤ n → Bounded m r → Bounded n r
  Bounded-mono m n r h b = Holds-UpTo-mono m n _ h b

  -- Ending a device's presence succeeds, and reports what it ended under fresh revisions.
  pub stop_active-Ended :
      (r : PresenceRegistry) (c : RevisionCounter) (device : Text)
      → Bounded (highest p c session) r
      → let done = stop_active_for_device p (allocate p session) r c session device in
        (new : List Presence) × (done.1 ≡ some new)
        × Reported p session c (done.0.1, map presence_update new)
        × Bounded (highest p done.0.1 session) done.0.0
  unfolding stop_active_for_device Ended
  stop_active-Ended r c device b =
      stop_each-Ended r c (active_for_device p r session device) []
        (active_for_device-UpTo (highest p c session) r device b) b
