-- ===== src/Conflict/Winner.antt =====
-- The winner is the least claim, whatever the order in which the claims are given.
use mathlib.Core.List.{Perm, Permᴰ}
use mathlib.Core.Logic.{∥∥₁_elim}
use multi_agentic_workflow.Base.{
  ℕ, ◌≡◌, ◌≢◌, refl, ap, subst, sym, ◌∙◌, List, [], ◌∷◌, map, Option, none, some, true, false,
  arith, if◌then◌else◌, Bool-cases, ◌⊎◌, inl, inr, All, In,
}
use multi_agentic_workflow.Base.Text.{Text, text_eq, text_eq_iff}
use multi_agentic_workflow.Conflict.{
  RevisionClaim, ResolvedClaim, is_lt, compare_claims, earliest, tag, resolve_by_earliest_revision,
}
use multi_agentic_workflow.Conflict.Order.{
  Le, Le_refl, Le_trans, Le-of_lt, Le-of_not_lt, Le_antisymm,
}

winner_key-set : IsSet (Option (ℕ × Text))
winner_key-set = hlevel

module _ {C : Type 0} ⦃r : RevisionClaim C⦄ where
  -- `a` wins over `b`, or is that claim.
  abbrev pub Wins : C → C → Type 0
  Wins a b = Le (r.event_revision a) (r.claim_id a) (r.event_revision b) (r.claim_id b)

  Wins-trans : (a b c : C) → Wins a b → Wins b c → Wins a c
  Wins-trans a b c = Le_trans _ _ (r.event_revision b) (r.claim_id b) _ _

  earliest-cons_lt :
      (c x : C) (cs : List C)
      → is_lt (compare_claims x c) ≡ true
      → earliest c (x ∷ cs) ≡ earliest x cs
  unfolding earliest
  earliest-cons_lt c x cs e = ap (λ b. earliest (if b then x else c) cs) e

  earliest-cons_ge :
      (c x : C) (cs : List C)
      → is_lt (compare_claims x c) ≡ false
      → earliest c (x ∷ cs) ≡ earliest c cs
  unfolding earliest
  earliest-cons_ge c x cs e = ap (λ b. earliest (if b then x else c) cs) e

  Least : C → List C → Type 0
  Least w l = In w l × All (λ x. Wins w x) l

  -- The loop ends with a claim that it has seen and that wins over all of them.
  earliest-Least : (c : C) (cs : List C) → Least (earliest c cs) (c ∷ cs)
  unfolding earliest compare_claims Least
  earliest-Least c [] = (inl refl, (Le_refl _ _, tt))
  earliest-Least c (x ∷ cs) = elim (Bool-cases (is_lt (compare_claims x c))) [
    | inl e ↦
        let h = earliest-Least x cs in
        subst (λ w. Least w (c ∷ x ∷ cs)) (sym (earliest-cons_lt c x cs e))
          (inr h.0, (Wins-trans (earliest x cs) x c h.1.0 (Le-of_lt _ _ _ _ e), h.1))
    | inr e ↦
        let h = earliest-Least c cs in
        subst (λ w. Least w (c ∷ x ∷ cs)) (sym (earliest-cons_ge c x cs e))
          (
            elim h.0 [ inl p ↦ inl p | inr q ↦ inr (inr q) ],
            (h.1.0, (Wins-trans (earliest c cs) c x h.1.0 (Le-of_not_lt _ _ _ _ e), h.1.1)),
          )
  ]

  -- The loop's result is among the claims that it has seen.
  pub earliest-In : (c : C) (cs : List C) → In (earliest c cs) (c ∷ cs)
  unfolding Least
  earliest-In c cs = (earliest-Least c cs).0

  pub earliest-Wins : (c : C) (cs : List C) → All (λ x. Wins (earliest c cs) x) (c ∷ cs)
  unfolding Least
  earliest-Wins c cs = (earliest-Least c cs).1

  All-In : (P : C → Type 0) (x : C) (l : List C) → All P l → In x l → P x
  All-In P x (y ∷ l) h (inl e) = subst P e h.0
  All-In P x (y ∷ l) h (inr i) = All-In P x l h.1 i
  All-In P x [] h i = absurd i

  -- The winner is one of the claims and wins over each of them: an earlier Event_Revision, or the
  -- same one with an id that is not later.
  pub resolve_least :
      (c : C) (cs : List C)
      → (w : C) × ((resolve_by_earliest_revision (c ∷ cs)).winner ≡ some w)
        × In w (c ∷ cs)
        × All (λ x. Wins w x) (c ∷ cs)
  unfolding resolve_by_earliest_revision Least
  resolve_least c cs = let h = earliest-Least c cs in (earliest c cs, refl, h.0, h.1)

  In-permᴰ : {xs ys : List C} (x : C) → Permᴰ xs ys → In x xs → In x ys
  In-permᴰ x Permᴰ.nil i = i
  In-permᴰ x (Permᴰ.cons e q) (inl h) = inl (sym e ∙ h)
  In-permᴰ x (Permᴰ.cons e q) (inr i) = inr (In-permᴰ x q i)
  In-permᴰ x (Permᴰ.swap e f) (inl h) = inr (inl (sym e ∙ h))
  In-permᴰ x (Permᴰ.swap e f) (inr (inl h)) = inl (sym f ∙ h)
  In-permᴰ x (Permᴰ.swap e f) (inr (inr i)) = inr (inr i)
  In-permᴰ x (Permᴰ.trans q s) i = In-permᴰ x s (In-permᴰ x q i)

  In-permᴰ_back : {xs ys : List C} (x : C) → Permᴰ xs ys → In x ys → In x xs
  In-permᴰ_back x Permᴰ.nil i = i
  In-permᴰ_back x (Permᴰ.cons e q) (inl h) = inl (e ∙ h)
  In-permᴰ_back x (Permᴰ.cons e q) (inr i) = inr (In-permᴰ_back x q i)
  In-permᴰ_back x (Permᴰ.swap e f) (inl h) = inr (inl (f ∙ h))
  In-permᴰ_back x (Permᴰ.swap e f) (inr (inl h)) = inl (e ∙ h)
  In-permᴰ_back x (Permᴰ.swap e f) (inr (inr i)) = inr (inr i)
  In-permᴰ_back x (Permᴰ.trans q s) i = In-permᴰ_back x q (In-permᴰ_back x s i)

  Least-permᴰ :
      (w v : C) (xs ys : List C)
      → Permᴰ xs ys
      → Least w xs
      → Least v ys
      → (r.event_revision w ≡ r.event_revision v) × (r.claim_id w ≡ r.claim_id v)
  unfolding Least
  Least-permᴰ w v xs ys q h k =
      Le_antisymm _ _ _ _ (All-In (Wins w) v xs h.1 (In-permᴰ_back v q k.0))
        (All-In (Wins v) w ys k.1 (In-permᴰ w q h.0))

  -- What identifies a winner: its revision and its id.
  abbrev pub winner_key : Option C → Option (ℕ × Text)
  winner_key none = none
  winner_key (some w) = some (r.event_revision w, r.claim_id w)

  resolve-permᴰ :
      (xs ys : List C)
      → Permᴰ xs ys
      → winner_key (resolve_by_earliest_revision xs).winner
        ≡ winner_key (resolve_by_earliest_revision ys).winner
  unfolding resolve_by_earliest_revision
  resolve-permᴰ [] [] q = refl
  resolve-permᴰ [] (y ∷ ys) q = absurd (In-permᴰ_back y q (inl refl))
  resolve-permᴰ (x ∷ xs) [] q = absurd (In-permᴰ x q (inl refl))
  resolve-permᴰ (x ∷ xs) (y ∷ ys) q =
      let h =
        Least-permᴰ (earliest x xs) (earliest y ys) (x ∷ xs) (y ∷ ys) q (earliest-Least x xs)
          (earliest-Least y ys) in
      cc (h.0, h.1)

  -- The winner does not depend on the order in which the claims arrive.
  pub resolve_perm :
      (xs ys : List C)
      → Perm xs ys
      → winner_key (resolve_by_earliest_revision xs).winner
        ≡ winner_key (resolve_by_earliest_revision ys).winner
  resolve_perm xs ys q = ∥∥₁_elim q (winner_key-set _ _) (resolve-permᴰ xs ys)

  -- A claim with the winner's id is the winner; any other is concurrent and is told the winner's
  -- holder and revision.
  abbrev pub IsTagged : C → ResolvedClaim C → Type 0
  IsTagged w t =
      ((r.claim_id t.claim ≡ r.claim_id w) × (t.concurrent ≡ false) × (t.conflict ≡ none))
      ⊎ ((r.claim_id t.claim ≢ r.claim_id w)
          × (t.concurrent ≡ true)
          × (t.conflict
              ≡ some (record { winner = r.holder w; winning_event_revision = r.event_revision w })))

  tag-IsTagged : (w c : C) → IsTagged w (tag w c)
  unfolding tag
  tag-IsTagged w c = elim (Bool-cases (text_eq (r.claim_id c) (r.claim_id w))) [
    | inl e ↦ rw e (inl ((text_eq_iff _ _).0 e, refl, refl))
    | inr e ↦
        rw e (inr ((λ q. ground (arith, e, text_eq_iff (r.claim_id c) (r.claim_id w))), refl, refl))
  ]

  tag_claim : (w c : C) → (tag w c).claim ≡ c
  unfolding tag
  tag_claim w c = ground arith

  map-tag :
      (w : C) (l : List C)
      → (map (λ t. t.claim) (map (tag w) l) ≡ l) × All (IsTagged w) (map (tag w) l)
  map-tag w [] = (refl, tt)
  map-tag w (c ∷ l) = let h = map-tag w l in (cc (tag_claim w c, h.0), (tag-IsTagged w c, h.1))

  -- Every claim is reported once, in the order given, and tagged against the winner.
  pub resolve_tags :
      (claims : List C) (w : C)
      → (resolve_by_earliest_revision claims).winner ≡ some w
      → (map (λ t. t.claim) (resolve_by_earliest_revision claims).resolved ≡ claims)
        × All (IsTagged w) (resolve_by_earliest_revision claims).resolved
  unfolding resolve_by_earliest_revision
  resolve_tags [] w e = (refl, tt)
  resolve_tags (c ∷ cs) w e =
      let p : earliest c cs ≡ w = cc in
      subst
        (λ v.
          (map (λ t. t.claim) (map (tag (earliest c cs)) (c ∷ cs)) ≡ c ∷ cs)
          × All (IsTagged v) (map (tag (earliest c cs)) (c ∷ cs)))
        p (map-tag (earliest c cs) (c ∷ cs))
