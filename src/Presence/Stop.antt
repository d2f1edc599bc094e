-- ===== src/Presence/Stop.antt =====
-- Stopping a device leaves it without an active entry.
use multi_agentic_workflow.Base.{
  ℕ, ◌≡◌, ap, subst, sym, ◌∙◌, ◌⊎◌, inl, inr, List, [], ◌∷◌, ◌++◌, Option, none, some, true, false,
  arith, Bool-cases, Option-cases, ltb, leb, In, select-In, push,
}
use multi_agentic_workflow.Base.Text.{Text, text_eq_iff, text_eq_refl}
use multi_agentic_workflow.Base.JsMap
use multi_agentic_workflow.Base.JsMap.{JsMap}
use multi_agentic_workflow.Protocol.{Platform, SessionId, Presence}
use multi_agentic_workflow.Session.{session_key}
use multi_agentic_workflow.RepoPath.{CaseSensitivity, normalized_key}
use multi_agentic_workflow.RepoPath.Canonical.{normalize_path_idem}
use multi_agentic_workflow.Presence.{
  PresenceRegistry, PresenceReport, entry_key, entries_at, presence_of, newest, report, all,
  is_active, active, active_for_device, insert_entry, sort_entries, precedes, stop_report,
  stop_each, stop_active_for_device, new_registry,
}
use multi_agentic_workflow.Presence.Order.{
  lookup, lookup-report, is_for, report-sensitivity, report_all,
}

-- An entry stands under the key of its own member and path.
abbrev pub IsKeyed : Platform → Option CaseSensitivity → PresenceRegistry → Type 0
IsKeyed p s r =
    (key k : Text) (e : Presence) → lookup r key k ≡ some e → entry_key p s e.member e.path ≡ k

-- What a device has left to stop: each of its active entries is one of these.
abbrev IsPending : Text → Option Presence → List Presence → Type 0
IsPending d o es =
    (x : Presence) → o ≡ some x → x.member.device_id ≡ d → is_active x ≡ true → In x es

newest_cases :
    (o : Option Presence) (new x : Presence)
    → newest o new ≡ x
    → (x ≡ new) ⊎ ((o ≡ some x) × (ltb new.event_revision x.event_revision ≡ true))
unfolding newest
newest_cases none new x e = inl (sym e)
newest_cases (some y) new x e = elim (Bool-cases (ltb new.event_revision y.event_revision)) [
  | inl t ↦ inr (ground (arith, e, t), ground (arith, e, t))
  | inr f ↦ inl (ground (arith, e, f))
]

entry_key-presence_of :
    (p : Platform) (s : Option CaseSensitivity) (q : PresenceReport)
    → entry_key p s (presence_of q).member (presence_of q).path ≡ entry_key p s q.member q.path
unfolding entry_key
entry_key-presence_of p s q =
    ap (λ t. q.member.member_id ++ 0 ∷ normalized_key p s t) (normalize_path_idem q.path)

report-IsKeyed_fixed :
    (p : Platform) (r : PresenceRegistry) (q : PresenceReport)
    → IsKeyed p r.sensitivity r
    → IsKeyed p r.sensitivity (report p r q).0
report-IsKeyed_fixed p r q h key k e g = elim (Bool-cases (is_for p r.sensitivity q key k)) [
  | inl same ↦
      elim (newest_cases (lookup r key k) (presence_of q) e
        (ground (arith, g, same, lookup-report p r q key k))) [
          | inl new ↦
              subst (λ y. entry_key p r.sensitivity y.member y.path ≡ k) (sym new)
                (entry_key-presence_of p r.sensitivity q
                  ∙ (text_eq_iff (entry_key p r.sensitivity q.member q.path) k).0
                      (ground (arith, same)))
          | inr (old, _) ↦ h key k e old
        ]
  | inr other ↦ h key k e (ground (arith, g, other, lookup-report p r q key k))
]

insert_entry-In :
    (z x : Presence) (es : List Presence) → (x ≡ z) ⊎ In z es → In z (insert_entry x es)
unfolding insert_entry
insert_entry-In z x [] h = h
insert_entry-In z x (y ∷ es) h = elim (Bool-cases (precedes x y)) [
  | inl e ↦ rw e h
  | inr e ↦ rw e (elim h [
    | inl p ↦ inr (insert_entry-In z x es (inl p))
    | inr (inl q) ↦ inl q
    | inr (inr i) ↦ inr (insert_entry-In z x es (inr i))
  ])
]

sort_entries-In :
    (z : Presence) (sorted es : List Presence)
    → In z sorted ⊎ In z es
    → In z (sort_entries sorted es)
unfolding sort_entries
sort_entries-In z sorted [] (inl i) = i
sort_entries-In z sorted [] (inr i) = absurd i
sort_entries-In z sorted (x ∷ es) (inl i) =
    sort_entries-In z (insert_entry x sorted) es (inl (insert_entry-In z x sorted (inr i)))
sort_entries-In z sorted (x ∷ es) (inr (inl p)) =
    sort_entries-In z (insert_entry x sorted) es (inl (insert_entry-In z x sorted (inl p)))
sort_entries-In z sorted (x ∷ es) (inr (inr i)) =
    sort_entries-In z (insert_entry x sorted) es (inr i)

-- At the start, every active entry of the device is one to stop.
start-IsPending :
    (p : Platform) (r : PresenceRegistry) (session : SessionId) (d k : Text)
    → IsPending d (lookup r (session_key p session) k) (active_for_device p r session d)
unfolding active_for_device active all
start-IsPending p r session d k x g e t = sort_entries-In x [] _ (
    inr (
      select-In _ x _ (select-In is_active x _ (JsMap.values-In k x _ g) t)
        (ground (arith, e, text_eq_iff x.member.device_id d))))

-- Stopping `x` takes it off the list, whatever slot is looked at.
step-IsPending :
    (p : Platform) (r : PresenceRegistry) (session : SessionId) (d k : Text) (x : Presence)
    (es : List Presence) (n : ℕ)
    → IsKeyed p r.sensitivity r
    → leb n x.event_revision ≡ false
    → IsPending d (lookup r (session_key p session) k) (x ∷ es)
    → IsPending d (lookup (report p r (stop_report session x n)).0 (session_key p session) k) es
step-IsPending p r session d k x es n keyed newer pending y g e t =
    elim (Bool-cases (is_for p r.sensitivity (stop_report session x n) (session_key p session) k)) [
      | inl same ↦
          elim (newest_cases (lookup r (session_key p session) k)
            (presence_of (stop_report session x n)) y
            (ground (
              arith,
              g,
              same,
              lookup-report p r (stop_report session x n) (session_key p session) k,
            ))) [
              | inl new ↦
                  let ended : is_active y ≡ false = ap is_active new in
                  absurd (ground (arith, ended, t))
              | inr (old, late) ↦ elim (pending y old e t) [
                | inl it ↦ absurd (ground (arith, newer, late, it))
                | inr i ↦ i
              ]
            ]
      | inr other ↦
          let old : lookup r (session_key p session) k ≡ some y = ground (
            arith,
            g,
            other,
            lookup-report p r (stop_report session x n) (session_key p session) k,
          ) in
          elim (pending y old e t) [
            | inl it ↦
                let its_key : entry_key p r.sensitivity x.member x.path ≡ k =
                  subst (λ z. entry_key p r.sensitivity z.member z.path ≡ k) (sym it)
                    (keyed (session_key p session) k y old) in
                absurd (
                  ground (
                    arith,
                    other,
                    its_key,
                    text_eq_refl (session_key p session),
                    text_eq_iff (entry_key p r.sensitivity x.member x.path) k,
                  ))
            | inr i ↦ i
          ]
    ]

report-IsKeyed :
    (p : Platform) (r : PresenceRegistry) (q : PresenceReport)
    → IsKeyed p r.sensitivity r
    → IsKeyed p (report p r q).0.sensitivity (report p r q).0
report-IsKeyed p r q h =
    subst (λ s. IsKeyed p s (report p r q).0) (sym (report-sensitivity p r q))
      (report-IsKeyed_fixed p r q h)

stop_each-IsPending :
    {A : Type 0} (p : Platform) (allocate : A → Presence → A × Option ℕ) (session : SessionId)
    (d k : Text) (r r' : PresenceRegistry) (a a' : A) (es ended stops : List Presence)
    → IsKeyed p r.sensitivity r
    → IsPending d (lookup r (session_key p session) k) es
    → stop_each p allocate session r a es ended ≡ ((r', a'), some stops)
    → IsPending d (lookup r' (session_key p session) k) []
unfolding stop_each
stop_each-IsPending p allocate session d k r r' a a' [] ended stops keyed pending h =
    subst (λ x. IsPending d (lookup x (session_key p session) k) []) (ap (λ x. x.0.0) h) pending
stop_each-IsPending p allocate session d k r r' a a' (x ∷ es) ended stops keyed pending h =
    elim (Option-cases (allocate a x).1) [
      | inl none_given ↦ absurd (ground (arith, h, none_given))
      | inr (n, given) ↦ elim (Bool-cases (leb n x.event_revision)) [
        | inl stale ↦ absurd (ground (arith, h, given, stale))
        | inr newer ↦
            let done = report p r (stop_report session x n) in
            stop_each-IsPending p allocate session d k done.0 r' (allocate a x).0 a' es
              (push ended done.1) stops (report-IsKeyed p r (stop_report session x n) keyed)
              (step-IsPending p r session d k x es n keyed newer pending)
              (ground (arith, h, given, newer))
      ]
    ]

-- When stopping a device succeeds, in a registry whose entries stand under their own keys, none of
-- the session's entries that belong to the device is active any more.
stop_active_for_device_lem :
    {A : Type 0} (p : Platform) (allocate : A → Presence → A × Option ℕ) (session : SessionId)
    (d k : Text) (r r' : PresenceRegistry) (a a' : A) (stops : List Presence) (e : Presence)
    → IsKeyed p r.sensitivity r
    → stop_active_for_device p allocate r a session d ≡ ((r', a'), some stops)
    → lookup r' (session_key p session) k ≡ some e
    → e.member.device_id ≡ d
    → is_active e ≡ false
unfolding stop_active_for_device
stop_active_for_device_lem p allocate session d k r r' a a' stops e keyed h g own =
    elim (Bool-cases (is_active e)) [
      | inl t ↦ absurd (
          stop_each-IsPending p allocate session d k r r' a a' (active_for_device p r session d) []
            stops keyed (start-IsPending p r session d k) h e g own t)
      | inr f ↦ f
    ]

new_registry-IsKeyed : (p : Platform) (s : Option CaseSensitivity) → IsKeyed p s (new_registry s)
unfolding entries_at JsMap.get_or JsMap.get
new_registry-IsKeyed p s key k e g = absurd (ground (arith, g))

report_all-IsKeyed :
    (p : Platform) (r : PresenceRegistry) (qs : List PresenceReport)
    → IsKeyed p r.sensitivity r
    → IsKeyed p (report_all p r qs).sensitivity (report_all p r qs)
unfolding report_all
report_all-IsKeyed p r [] h = h
report_all-IsKeyed p r (q ∷ qs) h =
    report_all-IsKeyed p (report p r q).0 qs (report-IsKeyed p r q h)

reported-IsKeyed :
    (p : Platform) (s : Option CaseSensitivity) (qs : List PresenceReport)
    → IsKeyed p (report_all p (new_registry s) qs).sensitivity (report_all p (new_registry s) qs)
reported-IsKeyed p s qs = report_all-IsKeyed p (new_registry s) qs (new_registry-IsKeyed p s)

-- After any reports to a new registry, when stopping a device succeeds, none of the session's
-- entries that belong to the device is active any more.
pub stop_active_for_device-report_all :
    {A : Type 0} (p : Platform) (allocate : A → Presence → A × Option ℕ) (session : SessionId)
    (d k : Text) (s : Option CaseSensitivity) (qs : List PresenceReport) (r' : PresenceRegistry)
    (a a' : A) (stops : List Presence) (e : Presence)
    → stop_active_for_device p allocate (report_all p (new_registry s) qs) a session d
      ≡ ((r', a'), some stops)
    → lookup r' (session_key p session) k ≡ some e
    → e.member.device_id ≡ d
    → is_active e ≡ false
stop_active_for_device-report_all p allocate session d k s qs r' a a' stops e =
    stop_active_for_device_lem p allocate session d k (report_all p (new_registry s) qs) r' a a'
      stops e (reported-IsKeyed p s qs)
