-- ===== src/Base/Lists.antt =====
-- Lists measured by native numbers, and the array methods that the program calls.
use Prim.Native.Nat.{ℕ, suc, ◌≤◌}
use mathlib.Core.Path.{◌≡◌, refl, ap}
use mathlib.Core.Logic.{◌⊎◌, inl, inr}
use mathlib.Core.Bool.{Bool, true, false, not}
use mathlib.Core.List.{List, [], ◌∷◌, ◌++◌, reverse, reverse-cons}
use mathlib.Core.Option.{Option, none, some}
use native.Mathlib.Omega.{arith}
use multi_agentic_workflow.Base.Tests.{if◌then◌else◌, Bool-cases}

-- Every element satisfies the predicate; it computes to tuples.
abbrev pub All {ℓ κ} : {A : Type ℓ} → (A → Type κ) → List A → Type κ
All P [] = Unit
All P (x ∷ xs) = P x × All P xs

pub All-append {ℓ κ} :
    {A : Type ℓ} (P : A → Type κ) (xs ys : List A) → All P xs → All P ys → All P (xs ++ ys)
All-append P [] ys h k = k
All-append P (x ∷ xs) ys h k = (h.0, All-append P xs ys h.1 k)

pub All-reverse {ℓ κ} : {A : Type ℓ} (P : A → Type κ) (xs : List A) → All P xs → All P (reverse xs)
All-reverse P [] h = tt
All-reverse P (x ∷ xs) h =
    rw (reverse-cons x xs) (All-append P (reverse xs) (x ∷ []) (All-reverse P xs h.1) (h.0, tt))

-- `a` occurs in the list, with its place.
abbrev pub In : {A : Type 0} → A → List A → Type 0
In a [] = ⊥
In a (x ∷ xs) = (x ≡ a) ⊎ In a xs

module _ {ℓ} {A : Type ℓ} where
  abbrev pub length : List A → ℕ
  length [] = 0
  length (x ∷ xs) = suc (length xs)

  -- `Array.prototype.find`
  abbrev pub find : (A → Bool) → List A → Option A
  find p [] = none
  find p (x ∷ xs) = if p x then some x else find p xs

  -- `Array.prototype.filter`
  abbrev pub select : (A → Bool) → List A → List A
  select p [] = []
  select p (x ∷ xs) = if p x then x ∷ select p xs else select p xs

  -- `Array.prototype.some`
  abbrev pub any : (A → Bool) → List A → Bool
  any p [] = false
  any p (x ∷ xs) = if p x then true else any p xs

  -- `push` on a fresh array
  abbrev pub push : List A → A → List A
  push xs x = xs ++ x ∷ []

  -- `splice(findIndex(p), 1)`: the list without its first element that passes
  abbrev pub remove_first : (A → Bool) → List A → List A
  remove_first p [] = []
  remove_first p (x ∷ xs) = if p x then xs else x ∷ remove_first p xs

pub select-All {ℓ κ} :
    {A : Type ℓ} (P : A → Type κ) (test : A → Bool) (xs : List A)
    → All P xs
    → All P (select test xs)
select-All P test [] h = tt
select-All P test (x ∷ xs) h = elim (Bool-cases (test x)) [
  | inl e ↦ rw e (h.0, select-All P test xs h.1)
  | inr e ↦ rw e (select-All P test xs h.1)
]

pub select-In :
    {A : Type 0} (test : A → Bool) (z : A) (xs : List A)
    → In z xs
    → test z ≡ true
    → In z (select test xs)
select-In test z [] i p = i
select-In test z (x ∷ xs) (inl e) p = rw (ap test e, p) (inl e)
select-In test z (x ∷ xs) (inr i) p = elim (Bool-cases (test x)) [
  | inl e ↦ rw e (inr (select-In test z xs i p))
  | inr e ↦ rw e (select-In test z xs i p)
]

pub length-select {ℓ} :
    {A : Type ℓ} (test : A → Bool) (xs : List A) → length (select test xs) ≤ length xs
length-select test [] = omega arith
length-select test (x ∷ xs) = ground (arith, length-select test xs)

-- A filter that drops nothing is the identity.
pub select_full {ℓ} :
    {A : Type ℓ} (test : A → Bool) (xs : List A)
    → length (select test xs) ≡ length xs
    → select test xs ≡ xs
select_full test [] h = refl
select_full test (x ∷ xs) h = elim (Bool-cases (test x)) [
  | inl e ↦ rw e (ap (λ l. x ∷ l) (select_full test xs (ground (arith, e, h))))
  | inr e ↦ absurd (ground (arith, e, h, length-select test xs))
]

pub any-false {ℓ} :
    {A : Type ℓ} (test : A → Bool) (xs : List A)
    → All (λ x. test x ≡ false) xs
    → any test xs ≡ false
any-false test [] h = refl
any-false test (x ∷ xs) h = rw h.0 (any-false test xs h.1)

-- No element that a filter keeps passes the opposite test.
pub any-select-not {ℓ} :
    {A : Type ℓ} (test : A → Bool) (xs : List A) → any test (select (λ x. not (test x)) xs) ≡ false
any-select-not test [] = refl
any-select-not test (x ∷ xs) = elim (Bool-cases (test x)) [
  | inl e ↦ rw e (any-select-not test xs)
  | inr e ↦ rw e (rw e (any-select-not test xs))
]
