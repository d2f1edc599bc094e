-- ===== src/Conflict/Order.antt =====
-- The order on claims, by their revisions and then by their ids, and that the comparator decides it.

use multi_agentic_workflow.Base.{
  ℕ, ◌≡◌, ◌<◌, refl, ◌∙◌, ◌⊎◌, inl, inr, true, false, arith, Bool-cases, ltb,
}
use multi_agentic_workflow.Base.Text.{Text, text_lt, text_lt_irrefl, text_lt_trans, text_lt_total}
use multi_agentic_workflow.Conflict.{compare_keys, is_lt}

-- An earlier revision, or the same one with an id that is not later.
abbrev pub Le : ℕ → Text → ℕ → Text → Type 0
Le m a n b = (m < n) ⊎ ((m ≡ n) × (text_lt b a ≡ false))

pub Le_refl : (m : ℕ) (a : Text) → Le m a m a
Le_refl m a = inr (refl, text_lt_irrefl a)

text_le_trans : (a b c : Text) → text_lt b a ≡ false → text_lt c b ≡ false → text_lt c a ≡ false
text_le_trans a b c h k = ground (
  arith,
  text_lt_trans a b c,
  text_lt_trans c a b,
  text_lt_trans b c a,
  text_lt_total a b,
  text_lt_total b c,
  text_lt_total a c,
)

pub Le_trans :
    (m : ℕ) (a : Text) (n : ℕ) (b : Text) (o : ℕ) (c : Text) → Le m a n b → Le n b o c → Le m a o c
Le_trans m a n b o c (inl h) (inl k) = inl (omega (arith, h, k))
Le_trans m a n b o c (inl h) (inr (e, k)) = inl (omega (arith, h, e))
Le_trans m a n b o c (inr (d, h)) (inl k) = inl (omega (arith, d, k))
Le_trans m a n b o c (inr (d, h)) (inr (e, k)) = inr (d ∙ e, text_le_trans a b c h k)

-- A claim that is before another is at most that one.
pub Le-of_lt :
    (m : ℕ) (a : Text) (n : ℕ) (b : Text) → is_lt (compare_keys m a n b) ≡ true → Le m a n b
unfolding compare_keys
Le-of_lt m a n b h = elim (Bool-cases (ltb m n)) [
  | inl e ↦ inl (ground (arith, e))
  | inr e ↦ inr (ground (arith, e, h), ground (arith, e, h, text_lt_trans a b a, text_lt_irrefl a))
]

-- A claim that another is not before is at most that one.
pub Le-of_not_lt :
    (m : ℕ) (a : Text) (n : ℕ) (b : Text) → is_lt (compare_keys n b m a) ≡ false → Le m a n b
unfolding compare_keys
Le-of_not_lt m a n b h = elim (Bool-cases (ltb m n)) [
  | inl e ↦ inl (ground (arith, e))
  | inr e ↦ inr (ground (arith, e, h), ground (arith, e, h))
]

pub Le_antisymm :
    (m : ℕ) (a : Text) (n : ℕ) (b : Text) → Le m a n b → Le n b m a → (m ≡ n) × (a ≡ b)
Le_antisymm m a n b (inl h) (inl k) = absurd (omega (arith, h, k))
Le_antisymm m a n b (inl h) (inr (e, k)) = absurd (omega (arith, h, e))
Le_antisymm m a n b (inr (d, h)) (inl k) = absurd (omega (arith, d, k))
Le_antisymm m a n b (inr (d, h)) (inr (e, k)) = (d, text_lt_total a b k h)
