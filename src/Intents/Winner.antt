-- ===== src/Intents/Winner.antt =====
-- Who wins a planned file creation: the earliest of all intents that plan it, as conflict.ts would
-- resolve them.
use multi_agentic_workflow.Base.{
  ◌≡◌, ◌≢◌, refl, sym, ◌∙◌, ap, subst, List, [], ◌∷◌, Option, none, some, arith, inl, inr,
  Bool-cases, Option-cases, All, In,
}
use multi_agentic_workflow.Base.Text.{Text}
use multi_agentic_workflow.Protocol.{Platform, SessionId, DeclaredIntent}
use multi_agentic_workflow.Session.{session_key}
use multi_agentic_workflow.Conflict.{RevisionClaim, resolve_by_earliest_revision, earliest}
use multi_agentic_workflow.Conflict.Order.{Le_refl, Le_trans, Le-of_lt, Le-of_not_lt, Le_antisymm}
use multi_agentic_workflow.Conflict.Winner.{Wins, winner_key, earliest-In, earliest-Wins}
use multi_agentic_workflow.Intents.State.{IntentRegistry, path_key}
use multi_agentic_workflow.Intents.Claims.{
  is_before, insert_claim, sort_claims, matching_claims, flagged, creation_claims, first_intent,
  creation_winner,
}

instance abbrev pub intent_claim : RevisionClaim DeclaredIntent
intent_claim = record {
  claim_id = λ i. i.intent_id;
  event_revision = λ i. i.event_revision;
  holder = λ i. i.owner;
}

Wins-trans : (a b c : DeclaredIntent) → Wins a b → Wins b c → Wins a c
Wins-trans a b c = Le_trans _ _ b.event_revision b.intent_id _ _

Wins-All :
    (a b : DeclaredIntent) (l : List DeclaredIntent) → Wins a b → All (Wins b) l → All (Wins a) l
Wins-All a b [] h k = tt
Wins-All a b (c ∷ l) h k = (Wins-trans a b c h k.0, Wins-All a b l h k.1)

-- The first wins over the others.
abbrev IsLed : List DeclaredIntent → Type 0
IsLed [] = Unit {0}
IsLed (w ∷ l) = All (Wins w) l

insert_claim-All :
    (P : DeclaredIntent → Type 0) (x : DeclaredIntent) (l : List DeclaredIntent)
    → P x
    → All P l
    → All P (insert_claim x l)
unfolding insert_claim
insert_claim-All P x [] p h = (p, tt)
insert_claim-All P x (y ∷ ys) p h = elim (Bool-cases (is_before y x)) [
  | inl e ↦ rw e (h.0, insert_claim-All P x ys p h.1)
  | inr e ↦ rw e (p, h)
]

insert_claim-IsLed :
    (x : DeclaredIntent) (l : List DeclaredIntent) → IsLed l → IsLed (insert_claim x l)
unfolding insert_claim
insert_claim-IsLed x [] h = tt
insert_claim-IsLed x (y ∷ ys) h = elim (Bool-cases (is_before y x)) [
  | inl e ↦ rw e (insert_claim-All (Wins y) x ys (Le-of_lt _ _ _ _ e) h)
  | inr e ↦
      let first = Le-of_not_lt x.event_revision x.intent_id y.event_revision y.intent_id e in
      rw e (first, Wins-All x y ys first h)
]

sort_claims-IsLed : (l : List DeclaredIntent) → IsLed (sort_claims l)
unfolding sort_claims
sort_claims-IsLed [] = tt
sort_claims-IsLed (x ∷ xs) = insert_claim-IsLed x (sort_claims xs) (sort_claims-IsLed xs)

insert_claim-In :
    (z x : DeclaredIntent) (l : List DeclaredIntent) → In z (insert_claim x l) → In z (x ∷ l)
unfolding insert_claim
insert_claim-In z x [] i = i
insert_claim-In z x (y ∷ ys) i = elim (Bool-cases (is_before y x)) [
  | inl e ↦ elim (rw e at i) [
    | inl d ↦ inr (inl d)
    | inr j ↦ elim (insert_claim-In z x ys j) [ inl d ↦ inl d | inr k ↦ inr (inr k) ]
  ]
  | inr e ↦ rw e at i
]

insert_claim-In_back :
    (z x : DeclaredIntent) (l : List DeclaredIntent) → In z (x ∷ l) → In z (insert_claim x l)
unfolding insert_claim
insert_claim-In_back z x [] i = i
insert_claim-In_back z x (y ∷ ys) i = elim (Bool-cases (is_before y x)) [
  | inl e ↦ rw e (elim i [
    | inl d ↦ inr (insert_claim-In_back z x ys (inl d))
    | inr (inl d) ↦ inl d
    | inr (inr j) ↦ inr (insert_claim-In_back z x ys (inr j))
  ])
  | inr e ↦ rw e i
]

sort_claims-In : (z : DeclaredIntent) (l : List DeclaredIntent) → In z (sort_claims l) → In z l
unfolding sort_claims
sort_claims-In z [] i = i
sort_claims-In z (x ∷ xs) i = elim (insert_claim-In z x (sort_claims xs) i) [
  | inl d ↦ inl d
  | inr j ↦ inr (sort_claims-In z xs j)
]

sort_claims-In_back : (z : DeclaredIntent) (l : List DeclaredIntent) → In z l → In z (sort_claims l)
unfolding sort_claims
sort_claims-In_back z [] i = i
sort_claims-In_back z (x ∷ xs) i =
    insert_claim-In_back z x (sort_claims xs)
      (elim i [ inl d ↦ inl d | inr j ↦ inr (sort_claims-In_back z xs j) ])

All-In :
    (P : DeclaredIntent → Type 0) (z : DeclaredIntent) (l : List DeclaredIntent)
    → All P l
    → In z l
    → P z
All-In P z (x ∷ l) h (inl e) = subst P e h.0
All-In P z (x ∷ l) h (inr i) = All-In P z l h.1 i
All-In P z [] h i = absurd i

-- The first of the sorted claims.
abbrev first : List DeclaredIntent → Option DeclaredIntent
first [] = none
first (w ∷ l) = some w

first-Wins :
    (z w : DeclaredIntent) (l : List DeclaredIntent)
    → IsLed l
    → first l ≡ some w
    → In z l
    → Wins w z
first-Wins z w (x ∷ l) h e (inl d) =
    let a : x ≡ w = ground (arith, e) in subst (λ y. Wins w y) (sym a ∙ d) (Le_refl _ _)
first-Wins z w (x ∷ l) h e (inr i) =
    let a : x ≡ w = ground (arith, e) in subst (λ y. Wins y z) a (All-In (Wins x) z l h i)
first-Wins z w [] h e i = absurd i

first-flagged : (l : List DeclaredIntent) → first_intent (flagged l) ≡ first l
unfolding first_intent flagged
first-flagged [] = refl
first-flagged (x ∷ l) = refl

first-In : (w : DeclaredIntent) (l : List DeclaredIntent) → first l ≡ some w → In w l
first-In w (x ∷ l) e = inl (ground (arith, e))
first-In w [] e = absurd (ground (arith, e))

first-none : (x : DeclaredIntent) (l : List DeclaredIntent) → In x l → first l ≢ none
first-none x (y ∷ l) i e = ground (arith, e)
first-none x [] i e = i

first-sort_claims-key :
    (l : List DeclaredIntent)
    → winner_key (first (sort_claims l)) ≡ winner_key (resolve_by_earliest_revision l).winner
unfolding sort_claims resolve_by_earliest_revision
first-sort_claims-key [] = refl
first-sort_claims-key (c ∷ cs) = elim (Option-cases (first (sort_claims (c ∷ cs)))) [
  | inl e ↦
      absurd (first-none c (sort_claims (c ∷ cs)) (sort_claims-In_back c (c ∷ cs) (inl refl)) e)
  | inr (w, e) ↦
      let v = earliest c cs in
      let led = sort_claims-IsLed (c ∷ cs) in
      let w_in = sort_claims-In w (c ∷ cs) (first-In w (sort_claims (c ∷ cs)) e) in
      let v_in = sort_claims-In_back v (c ∷ cs) (earliest-In c cs) in
      let (a, b) =
        Le_antisymm w.event_revision w.intent_id v.event_revision v.intent_id
          (first-Wins v w (sort_claims (c ∷ cs)) led e v_in)
          (All-In (Wins v) w (c ∷ cs) (earliest-Wins c cs) w_in) in
      ap winner_key e ∙ cc (a, b)
]

module _ (p : Platform) (r : IntentRegistry) where
  -- The winner of a planned creation is the claim that the conflict resolution picks among all the
  -- intents of the session that plan the path under the branch; there is none when it finds none.
  pub creation_winner_agrees :
      (session : SessionId) (path branch : Text)
      → winner_key (creation_winner p r session path branch)
        ≡ winner_key
            (resolve_by_earliest_revision
              (matching_claims p r (session_key p session) (path_key p r path) branch)).winner
  unfolding creation_winner creation_claims
  creation_winner_agrees session path branch =
      let l = matching_claims p r (session_key p session) (path_key p r path) branch in
      ap winner_key (first-flagged (sort_claims l)) ∙ first-sort_claims-key l

  -- The winner wins over every claim on the path.
  pub creation_winner-Wins :
      (session : SessionId) (path branch : Text) (w z : DeclaredIntent)
      → creation_winner p r session path branch ≡ some w
      → In z (matching_claims p r (session_key p session) (path_key p r path) branch)
      → Wins w z
  unfolding creation_winner creation_claims
  creation_winner-Wins session path branch w z e i =
      let l = matching_claims p r (session_key p session) (path_key p r path) branch in
      first-Wins z w (sort_claims l) (sort_claims-IsLed l) (sym (first-flagged (sort_claims l)) ∙ e)
        (sort_claims-In_back z l i)
