-- ===== src/Locks/Settled.antt =====
-- Groups of claims after they have been resolved: the flags follow the earliest revision, and
-- resolving again changes nothing.
use multi_agentic_workflow.Base.{
  ◌≡◌, refl, ap, sym, ◌∙◌, List, [], ◌∷◌, map, Option, none, some, Bool, true, false, not, arith,
  if◌then◌else◌, find, In, Bool-cases, inl, inr,
}
use multi_agentic_workflow.Base.Text.{Text, text_eq, text_eq_iff, text_eq_refl}
use multi_agentic_workflow.Protocol.{Lock}
use multi_agentic_workflow.Conflict.{
  compare_claims, is_lt, earliest, tag, resolve_by_earliest_revision,
}
use multi_agentic_workflow.Conflict.Winner.{earliest-In}
use multi_agentic_workflow.Locks.Group.{
  lock_claim, write_flag, resolve_group, group_winner, refreshed,
}

pub resolve_group_nil : resolve_group [] ≡ []
unfolding resolve_group resolve_by_earliest_revision
resolve_group_nil = refl

pub group_winner_nil : group_winner [] ≡ none
unfolding group_winner resolve_by_earliest_revision
group_winner_nil = refl

resolve_group_nil_twice : resolve_group (resolve_group []) ≡ resolve_group []
resolve_group_nil_twice = ap resolve_group resolve_group_nil

-- A lock without its flag.
abbrev pub bare : Lock → Lock
bare l = record l { concurrent = false }

pub bare-refreshed : (v w : Lock) → bare (refreshed v w) ≡ bare w
unfolding refreshed
bare-refreshed v w = refl

flagged : Lock → Lock → Lock
flagged w l = write_flag (tag w l)

flagged_lem : (w l : Lock) → flagged w l ≡ refreshed w l
unfolding flagged write_flag tag refreshed
flagged_lem w l = ground arith

refreshed_if :
    (v : Lock) (b : Bool) (x c : Lock)
    → (if b then refreshed v x else refreshed v c) ≡ refreshed v (if b then x else c)
refreshed_if v true x c = refl
refreshed_if v false x c = refl

-- The flags play no part in the choice of the winner.
earliest-refreshed :
    (v c : Lock) (cs : List Lock)
    → earliest (refreshed v c) (map (refreshed v) cs) ≡ refreshed v (earliest c cs)
unfolding earliest compare_claims refreshed
earliest-refreshed v c [] = refl
earliest-refreshed v c (x ∷ cs) =
    let b = is_lt (compare_claims x c) in
    ap (λ y. earliest y (map (refreshed v) cs)) (refreshed_if v b x c)
    ∙ earliest-refreshed v (if b then x else c) cs

map-flagged : (w : Lock) (l : List Lock) → map write_flag (map (tag w) l) ≡ map (refreshed w) l
unfolding flagged
map-flagged w [] = refl
map-flagged w (c ∷ l) = cc (flagged_lem w c, map-flagged w l)

-- A resolved group is the group with its flags set against its earliest claim.
pub resolve_group-cons :
    (c : Lock) (cs : List Lock) → resolve_group (c ∷ cs) ≡ map (refreshed (earliest c cs)) (c ∷ cs)
unfolding resolve_group resolve_by_earliest_revision
resolve_group-cons c cs = map-flagged (earliest c cs) (c ∷ cs)

refreshed_twice : (v w l : Lock) → refreshed (refreshed v w) (refreshed w l) ≡ refreshed w l
unfolding refreshed
refreshed_twice v w l = refl

map-refreshed_twice :
    (v w : Lock) (l : List Lock)
    → map (refreshed (refreshed v w)) (map (refreshed w) l) ≡ map (refreshed w) l
map-refreshed_twice v w [] = refl
map-refreshed_twice v w (c ∷ l) = cc (refreshed_twice v w c, map-refreshed_twice v w l)

pub resolve_group_idem : (l : List Lock) → resolve_group (resolve_group l) ≡ resolve_group l
resolve_group_idem [] = resolve_group_nil_twice
resolve_group_idem (c ∷ cs) =
    let w = earliest c cs in
    ap resolve_group (resolve_group-cons c cs)
    ∙ resolve_group-cons (refreshed w c) (map (refreshed w) cs)
    ∙ ap (λ v. map (refreshed v) (map (refreshed w) (c ∷ cs))) (earliest-refreshed w c cs)
    ∙ map-refreshed_twice w w (c ∷ cs)
    ∙ sym (resolve_group-cons c cs)

pub group_winner-cons :
    (c : Lock) (cs : List Lock) → group_winner (c ∷ cs) ≡ some (bare (earliest c cs))
unfolding group_winner resolve_by_earliest_revision
group_winner-cons c cs = refl

-- Resolving a group keeps its winner.
pub group_winner-resolve_group : (l : List Lock) → group_winner (resolve_group l) ≡ group_winner l
group_winner-resolve_group [] = ap group_winner resolve_group_nil
group_winner-resolve_group (c ∷ cs) =
    let w = earliest c cs in
    ap group_winner (resolve_group-cons c cs)
    ∙ group_winner-cons (refreshed w c) (map (refreshed w) cs)
    ∙ ap (λ v. some (bare v)) (earliest-refreshed w c cs)
    ∙ ap some (bare-refreshed w w)
    ∙ sym (group_winner-cons c cs)

abbrev pub id_of : Option Lock → Option Text
id_of none = none
id_of (some l) = some l.lock_id

find-refreshed :
    (w : Lock) (l : List Lock)
    → In w l
    → id_of (find (λ x. not x.concurrent) (map (refreshed w) l)) ≡ some w.lock_id
unfolding refreshed
find-refreshed w [] i = absurd i
find-refreshed w (x ∷ l) i = elim (Bool-cases (text_eq x.lock_id w.lock_id)) [
  | inl e ↦ rw e (ap some ((text_eq_iff x.lock_id w.lock_id).0 e))
  | inr e ↦ rw e (elim i [
    | inl same ↦
        absurd (ground (arith, e, text_eq_refl w.lock_id, ap (λ (y : Lock). y.lock_id) same))
    | inr j ↦ find-refreshed w l j
  ])
]

-- The first claim of a resolved group that is not concurrent is its winner.
pub find-resolve_group :
    (l : List Lock)
    → id_of (find (λ x. not x.concurrent) (resolve_group l)) ≡ id_of (group_winner l)
find-resolve_group [] =
    ap (λ l. id_of (find (λ x. not x.concurrent) l)) resolve_group_nil
    ∙ sym (ap id_of group_winner_nil)
find-resolve_group (c ∷ cs) =
    ap (λ l. id_of (find (λ x. not x.concurrent) l)) (resolve_group-cons c cs)
    ∙ find-refreshed (earliest c cs) (c ∷ cs) (earliest-In c cs)
    ∙ sym (ap id_of (group_winner-cons c cs))
