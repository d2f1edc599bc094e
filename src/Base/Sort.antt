-- ===== src/Base/Sort.antt =====
-- Ordering by a number: insertion behind the last element that is not greater, and the stable
-- `Array.prototype.sort` by a difference of numbers.
use Prim.Native.Nat.{ℕ, ◌≤◌}
use mathlib.Core.Path.{◌≡◌, refl, sym, ap, ◌∙◌}
use mathlib.Core.Logic.{◌⊎◌, inl, inr}
use mathlib.Core.Bool.{Bool, true, false}
use mathlib.Core.List.{List, [], ◌∷◌, ◌++◌, append-nil, append_assoc}
use native.Mathlib.Omega.{arith}
use multi_agentic_workflow.Base.Tests.{if◌then◌else◌, Bool-cases, leb}
use multi_agentic_workflow.Base.Lists.{All, All-append, In, any, select, select-All}

abbrev pub IsSorted {ℓ} : {A : Type ℓ} → (A → ℕ) → List A → Type 0
IsSorted key [] = Unit
IsSorted key (x ∷ xs) = All (λ y. key x ≤ key y) xs × IsSorted key xs

module _ {ℓ} {A : Type ℓ} (key : A → ℕ) where
  -- `i` runs down from the end while the element before it is greater.
  unfoldable pub insert_ordered : A → List A → List A
  insert_ordered x [] = x ∷ []
  insert_ordered x (y ∷ ys) =
      let rest = insert_ordered x ys in
      if any (λ z. leb (key z) (key x)) (y ∷ ys) then y ∷ rest else x ∷ y ∷ ys

  unfoldable pub sort_onto : List A → List A → List A
  sort_onto done [] = done
  sort_onto done (x ∷ xs) = sort_onto (insert_ordered x done) xs

  abbrev pub sort_by : List A → List A
  sort_by = sort_onto []

  pub insert_ordered-All {κ} :
      (P : A → Type κ) (x : A) (ys : List A) → P x → All P ys → All P (insert_ordered x ys)
  unfolding insert_ordered
  insert_ordered-All P x [] p h = (p, tt)
  insert_ordered-All P x (y ∷ ys) p h =
      elim (Bool-cases (any (λ z. leb (key z) (key x)) (y ∷ ys))) [
        | inl e ↦ rw e (h.0, insert_ordered-All P x ys p h.1)
        | inr e ↦ rw e (p, h)
      ]

  above :
      (x : A) (ys : List A)
      → any (λ z. leb (key z) (key x)) ys ≡ false
      → All (λ y. key x ≤ key y) ys
  above x [] e = tt
  above x (y ∷ ys) e = elim (Bool-cases (leb (key y) (key x))) [
    | inl t ↦ absurd (ground (arith, e, t))
    | inr f ↦ (ground (arith, f), above x ys (ground (arith, e, f)))
  ]

  below :
      (x : A) (k : ℕ) (ys : List A)
      → All (λ y. k ≤ key y) ys
      → any (λ z. leb (key z) (key x)) ys ≡ true
      → k ≤ key x
  below x k [] h e = absurd (ground arith)
  below x k (y ∷ ys) h e = elim (Bool-cases (leb (key y) (key x))) [
    | inl t ↦ ground (arith, t, h.0)
    | inr f ↦ below x k ys h.1 (ground (arith, e, f))
  ]

  le_refl : (k : ℕ) → k ≤ k
  le_refl k = omega arith

  le-All : (j k : ℕ) (ys : List A) → j ≤ k → All (λ y. k ≤ key y) ys → All (λ y. j ≤ key y) ys
  le-All j k [] l h = tt
  le-All j k (y ∷ ys) l h = (ground (arith, l, h.0), le-All j k ys l h.1)

  first_least :
      (x y : A) (ys : List A)
      → IsSorted key (y ∷ ys)
      → any (λ z. leb (key z) (key x)) (y ∷ ys) ≡ true
      → key y ≤ key x
  first_least x y ys s e = below x (key y) (y ∷ ys) (le_refl (key y), s.0) e

  pub insert_ordered-IsSorted :
      (x : A) (ys : List A) → IsSorted key ys → IsSorted key (insert_ordered x ys)
  unfolding insert_ordered
  insert_ordered-IsSorted x [] s = (tt, tt)
  insert_ordered-IsSorted x (y ∷ ys) s =
      elim (Bool-cases (any (λ z. leb (key z) (key x)) (y ∷ ys))) [
        | inl e ↦ rw e (
          insert_ordered-All (λ z. key y ≤ key z) x ys (first_least x y ys s e) s.0,
          insert_ordered-IsSorted x ys s.1,
        )
        | inr e ↦ rw e (above x (y ∷ ys) e, s)
      ]

  sort_onto-IsSorted : (done xs : List A) → IsSorted key done → IsSorted key (sort_onto done xs)
  unfolding sort_onto
  sort_onto-IsSorted done [] s = s
  sort_onto-IsSorted done (x ∷ xs) s =
      sort_onto-IsSorted (insert_ordered x done) xs (insert_ordered-IsSorted x done s)

  pub sort_by-IsSorted : (xs : List A) → IsSorted key (sort_by xs)
  sort_by-IsSorted xs = sort_onto-IsSorted [] xs tt

  pub select-IsSorted :
      (test : A → Bool) (xs : List A) → IsSorted key xs → IsSorted key (select test xs)
  select-IsSorted test [] s = tt
  select-IsSorted test (x ∷ xs) s = elim (Bool-cases (test x)) [
    | inl e ↦ rw e (select-All (λ y. key x ≤ key y) test xs s.0, select-IsSorted test xs s.1)
    | inr e ↦ rw e (select-IsSorted test xs s.1)
  ]

  pub sort_onto-All {κ} :
      (P : A → Type κ) (done xs : List A) → All P done → All P xs → All P (sort_onto done xs)
  unfolding sort_onto
  sort_onto-All P done [] d h = d
  sort_onto-All P done (x ∷ xs) d h =
      sort_onto-All P (insert_ordered x done) xs (insert_ordered-All P x done h.0 d) h.1

-- Neither loses an element nor makes one up.
module _ {A : Type 0} (key : A → ℕ) where
  pub insert_ordered-In :
      (z x : A) (ys : List A) → (x ≡ z) ⊎ In z ys → In z (insert_ordered key x ys)
  unfolding insert_ordered
  insert_ordered-In z x [] h = h
  insert_ordered-In z x (y ∷ ys) h = elim (Bool-cases (any (λ w. leb (key w) (key x)) (y ∷ ys))) [
    | inl e ↦ rw e (elim h [
      | inl p ↦ inr (insert_ordered-In z x ys (inl p))
      | inr (inl q) ↦ inl q
      | inr (inr i) ↦ inr (insert_ordered-In z x ys (inr i))
    ])
    | inr e ↦ rw e h
  ]

  pub sort_onto-In : (z : A) (done xs : List A) → In z done ⊎ In z xs → In z (sort_onto key done xs)
  unfolding sort_onto
  sort_onto-In z done [] (inl i) = i
  sort_onto-In z done [] (inr i) = absurd i
  sort_onto-In z done (x ∷ xs) (inl i) =
      sort_onto-In z (insert_ordered key x done) xs (inl (insert_ordered-In z x done (inr i)))
  sort_onto-In z done (x ∷ xs) (inr (inl p)) =
      sort_onto-In z (insert_ordered key x done) xs (inl (insert_ordered-In z x done (inl p)))
  sort_onto-In z done (x ∷ xs) (inr (inr i)) = sort_onto-In z (insert_ordered key x done) xs (inr i)

-- Sorting a list that is sorted changes nothing.
module _ {ℓ} {A : Type ℓ} (key : A → ℕ) where
  any-leb :
      (x : A) (y : A) (ys : List A)
      → All (λ z. key z ≤ key x) (y ∷ ys)
      → any (λ z. leb (key z) (key x)) (y ∷ ys) ≡ true
  any-leb x y ys h = ground (arith, h.0)

  insert_last :
      (x : A) (ys : List A) → All (λ z. key z ≤ key x) ys → insert_ordered key x ys ≡ ys ++ x ∷ []
  unfolding insert_ordered
  insert_last x [] h = refl
  insert_last x (y ∷ ys) h = rw (any-leb x y ys h) (ap (λ l. y ∷ l) (insert_last x ys h.1))

  extend :
      (done : List A) (x : A) (xs : List A)
      → All (λ y. All (λ z. key z ≤ key y) done) xs
      → All (λ y. key x ≤ key y) xs
      → All (λ y. All (λ z. key z ≤ key y) (done ++ x ∷ [])) xs
  extend done x [] h k = tt
  extend done x (y ∷ ys) h k =
      (All-append (λ z. key z ≤ key y) done (x ∷ []) h.0 (k.0, tt), extend done x ys h.1 k.1)

  sort_onto-sorted :
      (done xs : List A)
      → IsSorted key xs
      → All (λ x. All (λ z. key z ≤ key x) done) xs
      → sort_onto key done xs ≡ done ++ xs
  unfolding sort_onto
  sort_onto-sorted done [] s h = sym (append-nil done)
  sort_onto-sorted done (x ∷ xs) s h =
      ap (λ d. sort_onto key d xs) (insert_last x done h.0)
      ∙ (sort_onto-sorted (done ++ x ∷ []) xs s.1 (extend done x xs h.1 s.0)
          ∙ append_assoc done (x ∷ []) xs)

  pub sort_by-sorted : (xs : List A) → IsSorted key xs → sort_by key xs ≡ xs
  sort_by-sorted xs s = sort_onto-sorted [] xs s (nothing_above xs)
    where
      nothing_above : (ys : List A) → All (λ x. All (λ z. key z ≤ key x) []) ys
      nothing_above [] = tt
      nothing_above (y ∷ ys) = (tt, nothing_above ys)

-- `Array.prototype.sort` by a comparator, given as "is less than"; elements that it does not tell
-- apart stay in their order.
module _ {ℓ} {A : Type ℓ} (is_less : A → A → Bool) where
  insert_with : A → List A → List A
  insert_with x [] = x ∷ []
  insert_with x (y ∷ ys) =
      let rest = insert_with x ys in if is_less y x then y ∷ rest else x ∷ y ∷ ys

  pub sort_with : List A → List A
  unfolding insert_with
  sort_with [] = []
  sort_with (x ∷ xs) = insert_with x (sort_with xs)

  insert_with-All {κ} :
      (P : A → Type κ) (x : A) (ys : List A) → P x → All P ys → All P (insert_with x ys)
  unfolding insert_with
  insert_with-All P x [] p h = (p, tt)
  insert_with-All P x (y ∷ ys) p h = elim (Bool-cases (is_less y x)) [
    | inl e ↦ rw e (h.0, insert_with-All P x ys p h.1)
    | inr e ↦ rw e (p, h)
  ]

  pub sort_with-All {κ} : (P : A → Type κ) (xs : List A) → All P xs → All P (sort_with xs)
  unfolding sort_with
  sort_with-All P [] h = tt
  sort_with-All P (x ∷ xs) h = insert_with-All P x (sort_with xs) h.0 (sort_with-All P xs h.1)
