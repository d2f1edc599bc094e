-- ===== src/RepoPath/Segments.antt =====
-- Splitting and joining: what a text without separators is made of.

use multi_agentic_workflow.Base.{◌≡◌, ◌≢◌, refl, ap, ◌∙◌, List, [], ◌∷◌, ◌++◌, arith, All}
use multi_agentic_workflow.Base.Text.{Text, codes}
use multi_agentic_workflow.Session.{join}
use multi_agentic_workflow.RepoPath.{unify, cut, split}

-- No separator and no backslash.
abbrev pub IsPlain : Text → Type 0
IsPlain = All (λ c. (c ≢ 47) × (c ≢ 92))

abbrev pub ArePlain : List Text → Type 0
ArePlain = All IsPlain

cut_plain : (w : Text) → IsPlain w → cut w ≡ (w, [])
unfolding cut
cut_plain [] h = refl
cut_plain (c ∷ w) h = rw (cut_plain w h.1) (ground (arith, h.0.0))

cut-append : (w rest : Text) → IsPlain w → cut (w ++ 47 ∷ rest) ≡ (w, split rest)
unfolding cut split
cut-append [] rest h = refl
cut-append (c ∷ w) rest h = rw (cut-append w rest h.1) (ground (arith, h.0.0))

pub split-append : (w rest : Text) → IsPlain w → split (w ++ 47 ∷ rest) ≡ w ∷ split rest
unfolding split
split-append w rest h = ap (λ p. p.0 ∷ p.1) (cut-append w rest h)

-- Plain texts that are joined are what splitting gives back.
pub split-join :
    (w : Text) (ws : List Text)
    → IsPlain w
    → ArePlain ws
    → split (join (codes "/") (w ∷ ws)) ≡ w ∷ ws
unfolding join split
split-join w [] h hs = ap (λ p. p.0 ∷ p.1) (cut_plain w h)
split-join w (v ∷ vs) h hs =
    ap (λ p. p.0 ∷ p.1) (cut-append w _ h) ∙ ap (◌∷◌ w) (split-join v vs hs.0 hs.1)

-- Unified text has no backslash, so its segments are plain.
cut-unify-ArePlain : (raw : Text) → IsPlain (cut (unify raw)).0 × ArePlain (cut (unify raw)).1
unfolding cut unify
cut-unify-ArePlain [] = (tt, tt)
cut-unify-ArePlain (c ∷ cs) = ground (arith, cut-unify-ArePlain cs)

pub split-unify-ArePlain : (raw : Text) → ArePlain (split (unify raw))
unfolding split
split-unify-ArePlain raw = cut-unify-ArePlain raw

pub unify_plain : (w : Text) → All (λ c. c ≢ 92) w → unify w ≡ w
unfolding unify
unify_plain [] h = refl
unify_plain (c ∷ w) h = ground (arith, h.0, unify_plain w h.1)
