-- ===== src/Base/Checked.antt =====
-- Lists of problems that are empty exactly when a property holds.
use multi_agentic_workflow.Base.{◌≡◌, ◌≢◌, ◌⊎◌, refl, sym, ap, ◌∙◌, inl, inr, List, [], ◌∷◌, ◌++◌}

module _ {A : Type 0} where
  abbrev pub IsChecked : Type 0 → List A → Type 0
  IsChecked P errors = (P × (errors ≡ [])) ⊎ ((P → ⊥) × (errors ≢ []))

  pub IsChecked-append :
      (P Q : Type 0) (xs ys : List A)
      → IsChecked P xs
      → IsChecked Q ys
      → IsChecked (P × Q) (xs ++ ys)
  IsChecked-append P Q xs ys (inl (a, e)) (inl (b, f)) = inl ((a, b), cc (e, f))
  IsChecked-append P Q xs ys (inl (a, e)) (inr (b, f)) =
      inr ((λ h. b h.1), λ g. f (sym (ap (λ zs. zs ++ ys) e) ∙ g))
  IsChecked-append P Q [] ys (inr (a, e)) k = absurd (e refl)
  IsChecked-append P Q (x ∷ xs) ys (inr (a, e)) k = inr ((λ h. a h.0), λ g. cc)

  pub IsChecked-iff :
      (P Q : Type 0) (xs : List A) → (P → Q) → (Q → P) → IsChecked P xs → IsChecked Q xs
  IsChecked-iff P Q xs f g (inl (a, e)) = inl (f a, e)
  IsChecked-iff P Q xs f g (inr (a, e)) = inr ((λ q. a (g q)), e)

  pub cons-ne : (x : A) (xs : List A) → x ∷ xs ≢ []
  cons-ne x xs e = cc
