-- ===== src/Locks/Survivors.antt =====
-- Expiry leaves settled groups.
use multi_agentic_workflow.Base.{
  ◌≡◌, refl, ◌∙◌, List, [], ◌∷◌, Option, none, some, Bool, false, not, arith, ◌==◌, select, length,
  Bool-cases, inl, inr,
}
use multi_agentic_workflow.Base.Text.{Text, text_eq}
use multi_agentic_workflow.Base.JsMap
use multi_agentic_workflow.Base.JsMap.{
  JsMap, Holds, set-Holds, delete-Holds, get_or-Holds, get-Holds,
}
use multi_agentic_workflow.Base.MapKeys.{HasKeys}
use multi_agentic_workflow.Protocol.{Lock}
use multi_agentic_workflow.Locks.{LockRegistry, Groups}
use multi_agentic_workflow.Locks.Upkeep.{expire_groups, expire_group, expire_session}
use multi_agentic_workflow.Locks.Stored.{
  IsSettled, AreSettled, IsValid, resolve_group-IsSettled, put-IsValid,
}

expire_group-Holds :
    (stale : Lock → Bool) (k : Text) (l : List Lock) (groups : Groups)
    → Holds IsSettled groups
    → Holds IsSettled (expire_group stale k l groups)
unfolding expire_group
expire_group-Holds stale k [] groups h = h
expire_group-Holds stale k (c ∷ cs) groups h = (resolve_group-IsSettled (c ∷ cs) (λ e. cc), h)

expire_groups-Holds :
    (stale : Lock → Bool) (groups : Groups)
    → Holds IsSettled groups
    → Holds IsSettled (expire_groups stale groups).0
unfolding expire_groups
expire_groups-Holds stale [] h = tt
expire_groups-Holds stale ((k, claims) ∷ groups) h =
    let survivors = select (λ l. not (stale l)) claims in
    let ih = expire_groups-Holds stale groups h.1 in
    elim (Bool-cases (length survivors == length claims)) [
      | inl e ↦ rw e (h.0, ih)
      | inr e ↦ rw e (expire_group-Holds stale k survivors _ ih)
    ]

get-expire_group :
    (stale : Lock → Bool) (j k : Text) (l : List Lock) (groups : Groups)
    → text_eq k j ≡ false
    → JsMap.get j (expire_group stale k l groups) ≡ JsMap.get j groups
unfolding expire_group JsMap.get
get-expire_group stale j k [] groups e = refl
get-expire_group stale j k (c ∷ cs) groups e = rw e

-- Expiry adds no key.
get-expire_groups :
    (stale : Lock → Bool) (j : Text) (groups : Groups)
    → JsMap.get j groups ≡ none
    → JsMap.get j (expire_groups stale groups).0 ≡ none
unfolding expire_groups JsMap.get
get-expire_groups stale j [] h = refl
get-expire_groups stale j ((k, claims) ∷ groups) h = elim (Bool-cases (text_eq k j)) [
  | inl same ↦ absurd (ground (arith, h, same))
  | inr other ↦
      let survivors = select (λ l. not (stale l)) claims in
      let ih = get-expire_groups stale j groups (ground (arith, h, other)) in
      elim (Bool-cases (length survivors == length claims)) [
        | inl e ↦ rw (e, other) ih
        | inr e ↦
            rw e (get-expire_group stale j k survivors (expire_groups stale groups).0 other ∙ ih)
      ]
]

expire_group-HasKeys :
    (stale : Lock → Bool) (k : Text) (l : List Lock) (groups : Groups)
    → JsMap.get k groups ≡ none
    → HasKeys groups
    → HasKeys (expire_group stale k l groups)
unfolding expire_group
expire_group-HasKeys stale k [] groups e h = h
expire_group-HasKeys stale k (c ∷ cs) groups e h = (e, h)

expire_groups-HasKeys :
    (stale : Lock → Bool) (groups : Groups)
    → HasKeys groups
    → HasKeys (expire_groups stale groups).0
unfolding expire_groups
expire_groups-HasKeys stale [] h = tt
expire_groups-HasKeys stale ((k, claims) ∷ groups) h =
    let survivors = select (λ l. not (stale l)) claims in
    let none_left = get-expire_groups stale k groups h.0 in
    let ih = expire_groups-HasKeys stale groups h.1 in
    elim (Bool-cases (length survivors == length claims)) [
      | inl e ↦ rw e (none_left, ih)
      | inr e ↦ rw e (expire_group-HasKeys stale k survivors _ none_left ih)
    ]

expire_groups-AreSettled :
    (stale : Lock → Bool) (groups : Groups)
    → AreSettled groups
    → AreSettled (expire_groups stale groups).0
expire_groups-AreSettled stale groups h =
    (expire_groups-Holds stale groups h.0, expire_groups-HasKeys stale groups h.1)

pub expire_session-IsValid :
    (stale : Lock → Bool) (r : LockRegistry) (key : Text) (groups : Option Groups)
    → IsValid r
    → JsMap.get key r.sessions ≡ groups
    → IsValid (expire_session stale r key groups).0
unfolding expire_session
expire_session-IsValid stale r key none v e = v
expire_session-IsValid stale r key (some groups) v e =
    put-IsValid r key _ v
      (expire_groups-AreSettled stale groups (get-Holds AreSettled key groups r.sessions v e))
