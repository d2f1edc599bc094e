-- ===== src/RepoPath/Spellings.antt =====
-- The spellings of one path that `normalize_path` makes equal, and the form of its result.
use mathlib.Core.List.{foldl, reverse, reverse-cons, foldl-append, append_assoc, append-nil}
use multi_agentic_workflow.Base.{
  ◌≡◌, ◌≢◌, refl, ap, sym, ◌∙◌, List, [], ◌∷◌, ◌++◌, arith, All, All-reverse, All-append, inl, inr,
  Bool-cases,
}
use multi_agentic_workflow.Base.Text.{Text, codes, text_eq, text_eq_iff}
use multi_agentic_workflow.Session.{join}
use multi_agentic_workflow.RepoPath.{unify, cut, split, resolve, dot, dotdot, normalize_path}
use multi_agentic_workflow.RepoPath.Segments.{split-append, unify_plain}
use multi_agentic_workflow.RepoPath.Canonical.{
  plain-no_backslash, IsProper, IsDotdot, IsResolved, segments-IsResolved,
}

cut-append_any : (a rest : Text) → cut (a ++ 47 ∷ rest) ≡ ((cut a).0, (cut a).1 ++ split rest)
unfolding cut split
cut-append_any [] rest = refl
cut-append_any (c ∷ a) rest = ground (arith, cut-append_any a rest)

-- A separator splits a text in two, whatever stands around it.
split-append_any : (a rest : Text) → split (a ++ 47 ∷ rest) ≡ split a ++ split rest
unfolding split
split-append_any a rest = ap (λ p. p.0 ∷ p.1) (cut-append_any a rest)

unify-append : (a b : Text) → unify (a ++ b) ≡ unify a ++ unify b
unfolding unify
unify-append [] b = refl
unify-append (c ∷ a) b = ground (arith, unify-append a b)

unify_idem : (a : Text) → unify (unify a) ≡ unify a
unfolding unify
unify_idem [] = refl
unify_idem (c ∷ a) = ground (arith, unify_idem a)

-- What the loop has after the text up to a separator, and then goes on with.
resolve-append :
    (a rest : Text)
    → foldl resolve [] (split (unify (a ++ 47 ∷ rest)))
      ≡ foldl resolve (foldl resolve [] (split (unify a))) (split (unify rest))
unfolding unify
resolve-append a rest =
    ap (λ t. foldl resolve [] (split t)) (unify-append a (47 ∷ rest))
    ∙ ap (foldl resolve []) (split-append_any (unify a) (unify rest))
    ∙ foldl-append resolve [] (split (unify a)) (split (unify rest))

resolve_prefix :
    (a b c : Text)
    → ((ws : List Text) → foldl resolve ws (split (unify b)) ≡ foldl resolve ws (split (unify c)))
    → normalize_path (a ++ 47 ∷ b) ≡ normalize_path (a ++ 47 ∷ c)
unfolding normalize_path
resolve_prefix a b c h =
    ap (λ ws. join (codes "/") (reverse ws))
      (resolve-append a b ∙ h (foldl resolve [] (split (unify a))) ∙ sym (resolve-append a c))

skip_empty :
    (ws : List Text) (b : Text)
    → foldl resolve ws (split (unify (47 ∷ b))) ≡ foldl resolve ws (split (unify b))
unfolding resolve split unify text_eq
skip_empty ws b = refl

skip_dot :
    (ws : List Text) (b : Text)
    → foldl resolve ws (split (unify (codes "./" ++ b))) ≡ foldl resolve ws (split (unify b))
unfolding resolve split unify text_eq
skip_dot ws b = refl

-- Both separators, doubled separators and "." segments leave the path what it is.
pub normalize_path_spellings :
    (a b : Text)
    → (normalize_path (unify a) ≡ normalize_path a)
      × (normalize_path (a ++ (codes "//" ++ b)) ≡ normalize_path (a ++ (codes "/" ++ b)))
      × (normalize_path (a ++ (codes "/./" ++ b)) ≡ normalize_path (a ++ (codes "/" ++ b)))
      × (normalize_path (codes "./" ++ b) ≡ normalize_path b)
unfolding normalize_path
normalize_path_spellings a b = (
  ap (λ t. join (codes "/") (reverse (foldl resolve [] (split t)))) (unify_idem a),
  resolve_prefix a (47 ∷ b) b (λ ws. skip_empty ws b),
  resolve_prefix a (46 ∷ 47 ∷ b) b (λ ws. skip_dot ws b),
  ap (λ l. join (codes "/") (reverse l)) (skip_dot [] b),
)

push_pop :
    (ws : List Text) (w : Text) → w ≢ [] → w ≢ dot → w ≢ dotdot → resolve (resolve ws w) dotdot ≡ ws
unfolding resolve text_eq
push_pop ws w e d dd = ground (arith, text_eq_iff w [], text_eq_iff w dot, text_eq_iff w dotdot)

split-dotdot : (t : Text) → split (46 ∷ 46 ∷ 47 ∷ t) ≡ dotdot ∷ split t
unfolding split
split-dotdot t = refl

skip_parent :
    (ws : List Text) (w b : Text)
    → IsProper w
    → w ≢ dotdot
    → foldl resolve ws (split (unify (w ++ (codes "/../" ++ b))))
      ≡ foldl resolve ws (split (unify b))
unfolding unify
skip_parent ws w b h n =
    ap (λ t. foldl resolve ws (split t))
      (unify-append w (codes "/../" ++ b)
        ∙ ap (λ u. u ++ unify (codes "/../" ++ b)) (unify_plain w (plain-no_backslash w h.0)))
    ∙ ap (foldl resolve ws) (split-append w (46 ∷ 46 ∷ 47 ∷ unify b) h.0)
    ∙ ap (λ l. foldl resolve (resolve ws w) l) (split-dotdot (unify b))
    ∙ ap (λ s. foldl resolve s (split (unify b))) (push_pop ws w h.1 h.2 n)

-- A segment that ".." takes back leaves no trace.
pub normalize_path_parent :
    (a w b : Text)
    → IsProper w
    → w ≢ dotdot
    → normalize_path (a ++ (codes "/" ++ (w ++ (codes "/../" ++ b))))
      ≡ normalize_path (a ++ (codes "/" ++ b))
normalize_path_parent a w b h n =
    resolve_prefix a (w ++ (codes "/../" ++ b)) b (λ ws. skip_parent ws w b h n)

-- Segments last first, read first to last: the ".." come before the names.
in_order :
    (ws : List Text)
    → IsResolved ws
    → (ups names : List Text) × (reverse ws ≡ ups ++ names)
      × All IsDotdot ups
      × All (λ w. IsProper w × (w ≢ dotdot)) names
in_order [] h = ([], [], refl, tt, tt)
in_order (w ∷ ws) h = elim (Bool-cases (text_eq w dotdot)) [
  | inl e ↦
      let p : w ≡ dotdot = (text_eq_iff w dotdot).0 e in
      (
        reverse (w ∷ ws),
        [],
        sym (append-nil (reverse (w ∷ ws))),
        All-reverse IsDotdot (w ∷ ws) (p, h.1 p),
        tt,
      )
  | inr e ↦
      let (ups, names, p, q, r) = in_order ws h.2 in
      (
        ups,
        names ++ w ∷ [],
        reverse-cons w ws ∙ ap (λ l. l ++ w ∷ []) p ∙ append_assoc ups names (w ∷ []),
        q,
        All-append _ names (w ∷ []) r ((h.0, (λ d. ground (arith, text_eq_iff w dotdot))), tt),
      )
]

-- A normalized path is ".." segments, then names: no segment is empty or ".", none holds a
-- separator, and no ".." follows a name.
pub normalize_path_form :
    (raw : Text)
    → (ups names : List Text) × (normalize_path raw ≡ join (codes "/") (ups ++ names))
      × All IsDotdot ups
      × All (λ w. IsProper w × (w ≢ dotdot)) names
unfolding normalize_path
normalize_path_form raw =
    let (ups, names, p, q, r) =
      in_order (foldl resolve [] (split (unify raw))) (segments-IsResolved raw) in
    (ups, names, ap (join (codes "/")) p, q, r)
