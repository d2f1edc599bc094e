-- ===== src/RepoPath/Canonical.antt =====
-- What `normalize_path` returns: plain segments with ".." at the front only, and a fixed point.
use mathlib.Core.List.{foldl, reverse, reverse-cons, foldl-append}
use multi_agentic_workflow.Base.{
  ◌≡◌, ◌≢◌, refl, ap, subst, sym, ◌∙◌, List, [], ◌∷◌, ◌||◌, arith, All, All-append, inl, inr,
  Bool-cases,
}
use multi_agentic_workflow.Base.Text.{Text, codes, text_eq, text_eq_iff}
use multi_agentic_workflow.Session.{join}
use multi_agentic_workflow.RepoPath.{unify, split, resolve, up, dot, dotdot, normalize_path}
use multi_agentic_workflow.RepoPath.Segments.{
  IsPlain, ArePlain, split-join, split-unify-ArePlain, unify_plain,
}

-- A segment that the loop keeps: no separator, not empty, not ".".
abbrev pub IsProper : Text → Type 0
IsProper w = IsPlain w × (w ≢ []) × (w ≢ dot)

abbrev pub IsDotdot : Text → Type 0
IsDotdot w = w ≡ dotdot

-- Segments, last first: under a ".." there are only "..".
abbrev pub IsResolved : List Text → Type 0
IsResolved [] = Unit {0}
IsResolved (w ∷ ws) = IsProper w × (w ≡ dotdot → All IsDotdot ws) × IsResolved ws

dotdot-IsProper : IsProper dotdot
dotdot-IsProper = (omega arith, (λ e. ground (arith, e)), λ e. ground (arith, e))

up-IsResolved : (ws : List Text) → IsResolved ws → IsResolved (up ws)
unfolding up
up-IsResolved [] h = (dotdot-IsProper, (λ _. tt), tt)
up-IsResolved (w ∷ ws) h = elim (Bool-cases (text_eq w dotdot)) [
  | inl e ↦
      let p : w ≡ dotdot = (text_eq_iff w dotdot).0 e in
      rw e (dotdot-IsProper, (λ _. (p, h.1 p)), h)
  | inr e ↦ rw e h.2
]

resolve-IsResolved :
    (ws : List Text) (w : Text) → IsPlain w → IsResolved ws → IsResolved (resolve ws w)
unfolding resolve
resolve-IsResolved ws w p h = elim (Bool-cases (text_eq w [] || text_eq w dot)) [
  | inl e ↦ rw e h
  | inr e ↦ rw e (elim (Bool-cases (text_eq w dotdot)) [
    | inl d ↦ rw d (up-IsResolved ws h)
    | inr d ↦ rw d (
      (p, (λ q. ground (arith, text_eq_iff w [])), (λ q. ground (arith, text_eq_iff w dot))),
      (λ q. absurd (ground (arith, text_eq_iff w dotdot))),
      h,
    )
  ])
]

foldl-IsResolved :
    (segs ws : List Text) → ArePlain segs → IsResolved ws → IsResolved (foldl resolve ws segs)
foldl-IsResolved [] ws p h = h
foldl-IsResolved (w ∷ segs) ws p h =
    foldl-IsResolved segs (resolve ws w) p.1 (resolve-IsResolved ws w p.0 h)

resolve_top : (w : Text) (ws : List Text) → IsResolved (w ∷ ws) → resolve ws w ≡ w ∷ ws
unfolding resolve up
resolve_top w [] h =
    ground (arith, text_eq_iff w [], text_eq_iff w dot, text_eq_iff w dotdot, h.0.1, h.0.2)
resolve_top w (v ∷ vs) h = ground (
  arith,
  text_eq_iff w [],
  text_eq_iff w dot,
  text_eq_iff w dotdot,
  text_eq_iff v dotdot,
  h.0.1,
  h.0.2,
  h.1,
)

-- The loop rebuilds what it has produced.
foldl-reverse : (ws : List Text) → IsResolved ws → foldl resolve [] (reverse ws) ≡ ws
foldl-reverse [] h = refl
foldl-reverse (w ∷ ws) h =
    ap (foldl resolve []) (reverse-cons w ws)
    ∙ foldl-append resolve [] (reverse ws) (w ∷ [])
    ∙ ap (λ s. resolve s w) (foldl-reverse ws h.2)
    ∙ resolve_top w ws h

reverse-ArePlain : (ws : List Text) → IsResolved ws → ArePlain (reverse ws)
reverse-ArePlain [] h = tt
reverse-ArePlain (w ∷ ws) h =
    subst ArePlain (sym (reverse-cons w ws))
      (All-append IsPlain (reverse ws) (w ∷ []) (reverse-ArePlain ws h.2) (h.0.0, tt))

pub plain-no_backslash : (w : Text) → IsPlain w → All (λ c. c ≢ 92) w
plain-no_backslash [] h = tt
plain-no_backslash (c ∷ w) h = (h.0.1, plain-no_backslash w h.1)

join-no_backslash : (ws : List Text) → ArePlain ws → All (λ c. c ≢ 92) (join (codes "/") ws)
unfolding join
join-no_backslash [] h = tt
join-no_backslash (w ∷ []) h = plain-no_backslash w h.0
join-no_backslash (w ∷ v ∷ ws) h =
    All-append _ w _ (plain-no_backslash w h.0) (omega arith, join-no_backslash (v ∷ ws) h.1)

empty_path : foldl resolve [] (split (join (codes "/") [])) ≡ []
unfolding resolve split join text_eq
empty_path = refl

-- Plain segments survive being joined, unified and resolved; the empty path has none.
resolve_joined :
    (segs : List Text)
    → ArePlain segs
    → foldl resolve [] (split (unify (join (codes "/") segs))) ≡ foldl resolve [] segs
resolve_joined segs h =
    ap (λ t. foldl resolve [] (split t)) (unify_plain _ (join-no_backslash segs h))
    ∙ by_shape segs h
  where
    by_shape :
        (l : List Text)
        → ArePlain l
        → foldl resolve [] (split (join (codes "/") l)) ≡ foldl resolve [] l
    by_shape [] p = empty_path
    by_shape (w ∷ ws) p = ap (foldl resolve []) (split-join w ws p.0 p.1)

-- The segments of a path, first to last.
abbrev pub segments : Text → List Text
segments raw = reverse (foldl resolve [] (split (unify raw)))

pub segments-IsResolved : (raw : Text) → IsResolved (foldl resolve [] (split (unify raw)))
segments-IsResolved raw = foldl-IsResolved (split (unify raw)) [] (split-unify-ArePlain raw) tt

-- A canonical path is its own canonical spelling.
pub normalize_path_idem : (raw : Text) → normalize_path (normalize_path raw) ≡ normalize_path raw
unfolding normalize_path
normalize_path_idem raw =
    let ws = foldl resolve [] (split (unify raw)) in
    let r = segments-IsResolved raw in
    ap (λ l. join (codes "/") (reverse l))
      (resolve_joined (reverse ws) (reverse-ArePlain ws r) ∙ foldl-reverse ws r)
