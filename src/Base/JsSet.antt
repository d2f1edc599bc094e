-- ===== src/Base/JsSet.antt =====
-- A JavaScript `Set` of strings, in insertion order.
use mathlib.Core.Path.{◌≡◌}
use mathlib.Core.Logic.{inl, inr}
use mathlib.Core.Bool.{Bool, false, ◌||◌}
use mathlib.Core.List.{List, [], ◌∷◌, ◌++◌}
use native.Mathlib.Omega.{arith}
use multi_agentic_workflow.Base.Tests.{if◌then◌else◌, Bool-cases}
use multi_agentic_workflow.Base.Lists.{All, All-append}
use multi_agentic_workflow.Base.Text.{Text, text_eq, text_eq_iff}

unfoldable pub has : List Text → Text → Bool
has [] k = false
has (x ∷ xs) k = text_eq x k || has xs k

unfoldable pub add : List Text → Text → List Text
add xs k = if has xs k then xs else xs ++ k ∷ []

has-push : (xs : List Text) (k j : Text) → has (xs ++ k ∷ []) j ≡ (has xs j || text_eq k j)
unfolding has
has-push [] k j = ground arith
has-push (x ∷ xs) k j = ground (arith, has-push xs k j)

-- A set has what was added and what it had.
pub has-add : (xs : List Text) (k j : Text) → has (add xs k) j ≡ (has xs j || text_eq k j)
unfolding add
has-add xs k j = elim (Bool-cases (has xs k)) [
  | inl e ↦ rw e (ground (arith, e, text_eq_iff k j))
  | inr e ↦ rw e (has-push xs k j)
]

pub add-All {κ} :
    (P : Text → Type κ) (xs : List Text) (k : Text) → All P xs → P k → All P (add xs k)
unfolding add
add-All P xs k h p = elim (Bool-cases (has xs k)) [
  | inl e ↦ rw e h
  | inr e ↦ rw e (All-append P xs (k ∷ []) h (p, tt))
]
