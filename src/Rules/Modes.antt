-- ===== src/Rules/Modes.antt =====
-- The mode that a path is resolved to is the most restrictive one that applies.
use multi_agentic_workflow.Base.{
  ◌≡◌, ◌≤◌, ◌⊎◌, refl, subst, sym, ◌∙◌, List, [], ◌∷◌, map, arith, inl, inr, Bool-cases, ltb, All,
  In, select, push,
}
use multi_agentic_workflow.Base.Text.{Text}
use multi_agentic_workflow.Protocol.{RiskLevel, soft, coordination_required, hard}
use multi_agentic_workflow.Rules.{
  RulesConfig, restrictiveness, stricter, most_restrictive_from, most_restrictive, resolve_mode,
}
use multi_agentic_workflow.Rules.Glob.{glob_match}

abbrev AtMost : RiskLevel → RiskLevel → Type 0
AtMost m n = restrictiveness m ≤ restrictiveness n

stricter-AtMost :
    (w m : RiskLevel)
    → AtMost w (stricter w m) × AtMost m (stricter w m) × ((stricter w m ≡ w) ⊎ (stricter w m ≡ m))
unfolding stricter
stricter-AtMost w m = elim (Bool-cases (ltb (restrictiveness w) (restrictiveness m))) [
  | inl e ↦ rw e (ground (arith, e), omega arith, inr refl)
  | inr e ↦ rw e (omega arith, ground (arith, e), inl refl)
]

AtMost-All :
    (l n : RiskLevel) (ms : List RiskLevel)
    → AtMost l n
    → All (λ m. AtMost m l) ms
    → All (λ m. AtMost m n) ms
AtMost-All l n [] h k = tt
AtMost-All l n (m ∷ ms) h k = (omega (arith, h, k.0), AtMost-All l n ms h k.1)

from-AtMost :
    (w : RiskLevel) (ms : List RiskLevel)
    → AtMost w (most_restrictive_from w ms)
      × All (λ m. AtMost m (most_restrictive_from w ms)) ms
      × ((most_restrictive_from w ms ≡ w) ⊎ In (most_restrictive_from w ms) ms)
unfolding most_restrictive_from
from-AtMost w [] = (omega arith, tt, inl refl)
from-AtMost w (m ∷ ms) =
    let (a, b, c) = stricter-AtMost w m in
    let (x, y, z) = from-AtMost (stricter w m) ms in
    (
      omega (arith, a, x),
      (omega (arith, b, x), y),
      elim z [
        | inl e ↦ elim c [ inl d ↦ inl (e ∙ d) | inr d ↦ inr (inl (sym (e ∙ d))) ]
        | inr i ↦ inr (inr i)
      ],
    )

-- The modes of the matching rules, and the default behind them.
abbrev pub applying : Text → RulesConfig → List RiskLevel
applying path cfg =
    push (map (λ r. r.mode) (select (λ r. glob_match r.glob path) cfg.rules)) cfg.default_mode

In-last : (m : RiskLevel) (ms : List RiskLevel) → In m (push ms m)
In-last m [] = inl refl
In-last m (n ∷ ms) = inr (In-last m ms)

All-last : (P : RiskLevel → Type 0) (m : RiskLevel) (ms : List RiskLevel) → All P (push ms m) → P m
All-last P m [] h = h.0
All-last P m (n ∷ ms) h = All-last P m ms h.1

AtMost-soft : (m : RiskLevel) → AtMost m soft → m ≡ soft
AtMost-soft soft h = refl
AtMost-soft coordination_required h = absurd (omega (arith, h))
AtMost-soft hard h = absurd (omega (arith, h))

-- Where nothing is stricter than soft, the default is soft too.
soft_applies :
    (s n : RiskLevel) (ms : List RiskLevel)
    → s ≡ soft
    → All (λ m. AtMost m s) (push ms n)
    → In s (push ms n)
soft_applies s n ms e h =
    let d : n ≡ s =
      AtMost-soft n (subst (AtMost n) e (All-last (λ m. AtMost m s) n ms h)) ∙ sym e in
    subst (λ m. In m (push ms n)) d (In-last n ms)

-- A path's mode is one that applies to it, from a matching rule or the default, and no mode that
-- applies is more restrictive.
pub resolve_mode_strictest :
    (path : Text) (cfg : RulesConfig)
    → In (resolve_mode path cfg) (applying path cfg)
      × All (λ m. restrictiveness m ≤ restrictiveness (resolve_mode path cfg)) (applying path cfg)
unfolding resolve_mode most_restrictive
resolve_mode_strictest path cfg =
    let (a, b, c) = from-AtMost soft (applying path cfg) in
    (
      elim c [
        | inl e ↦
            soft_applies (most_restrictive_from soft (applying path cfg)) cfg.default_mode _ e b
        | inr i ↦ i
      ],
      b,
    )
