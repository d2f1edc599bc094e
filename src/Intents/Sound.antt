-- ===== src/Intents/Sound.antt =====
-- The paths that a request may declare, and that the validation finds no problem with exactly those.
use multi_agentic_workflow.Base.{
  ℕ, zero, suc, ◌+◌, ◌≤◌, ◌≡◌, ◌≢◌, ◌↔◌, ◌⊎◌, refl, ap, sym, subst, ◌∙◌, inl, inr, List, [], ◌∷◌,
  ◌++◌, true, false, ◌==◌, ltb, arith, if◌then◌else◌, length, All, Bool-cases,
}
use multi_agentic_workflow.Base.Checked.{IsChecked, IsChecked-append, IsChecked-iff, cons-ne}
use multi_agentic_workflow.Base.Text.{Text, has_content}
use multi_agentic_workflow.Protocol.{ScopeKind, file, folder, glob}
use multi_agentic_workflow.Intents.Validate.{
  unbalanced, is_malformed_glob, is_glob, max_path_length, too_long, bad_glob, path_errors,
  empty_errors, validate,
}

abbrev pub one : ℕ → ℕ → ℕ
one x c = if c == x then 1 else 0

-- How often a character stands in a text.
abbrev pub count : ℕ → Text → ℕ
count x [] = 0
count x (c ∷ t) = one x c + count x t

-- With `depth` brackets open before it, no prefix of the text closes more brackets than are open,
-- and the whole text closes all of them.
abbrev pub IsBalanced : ℕ → Text → Type 0
IsBalanced depth t =
    ((a b : Text) → a ++ b ≡ t → count 93 a ≤ depth + count 91 a)
    × (count 93 t ≡ depth + count 91 t)

-- A glob pattern is not blank, and its brackets are balanced.
abbrev pub IsPattern : Text → Type 0
IsPattern t = (has_content t ≡ true) × IsBalanced 0 t

abbrev pub IsSoundPath : ScopeKind → Text → Type 0
IsSoundPath kind path = (length path ≤ 4096) × (kind ≡ glob → IsPattern path)

-- There is a path, and every path is of at most 4096 characters and a pattern if it is a glob.
abbrev pub AreSound : ScopeKind → List Text → Type 0
AreSound kind paths = (paths ≢ []) × All (IsSoundPath kind) paths

prefix_tail : (x c : ℕ) (a b t : Text) → (x ∷ a) ++ b ≡ c ∷ t → (x ≡ c) × (a ++ b ≡ t)
prefix_tail x c a b t e = (ground (arith, e), ground (arith, e))

balanced-cons :
    (d d' c : ℕ) (t : Text) → d + one 91 c ≡ d' + one 93 c → IsBalanced d' t → IsBalanced d (c ∷ t)
balanced-cons d d' c t e (h, k) = (prefixes, omega (arith, e, k))
  where
    prefixes : (a b : Text) → a ++ b ≡ c ∷ t → count 93 a ≤ d + count 91 a
    prefixes [] b q = omega arith
    prefixes (x ∷ a) b q =
        let (same, rest) = prefix_tail x c a b t q in
        let m = h a b rest in
        subst (λ y. one 93 y + count 93 a ≤ d + (one 91 y + count 91 a)) (sym same)
          (omega (arith, e, m))

balanced_tail :
    (d d' c : ℕ) (t : Text) → d + one 91 c ≡ d' + one 93 c → IsBalanced d (c ∷ t) → IsBalanced d' t
balanced_tail d d' c t e (h, k) =
    ((λ a b q. let m = h (c ∷ a) b (ap (λ l. c ∷ l) q) in omega (arith, e, m)), omega (arith, e, k))

-- One character further, with the depth that it leads to.
moved :
    (d d' c : ℕ) (t : Text)
    → unbalanced d (c ∷ t) ≡ unbalanced d' t
    → d + one 91 c ≡ d' + one 93 c
    → (unbalanced d' t ≡ false) ↔ IsBalanced d' t
    → (unbalanced d (c ∷ t) ≡ false) ↔ IsBalanced d (c ∷ t)
moved d d' c t same e ih = (
  (λ h. balanced-cons d d' c t e (ih.0 (sym same ∙ h))),
  λ h. same ∙ ih.1 (balanced_tail d d' c t e h),
)

pub unbalanced_iff : (d : ℕ) (t : Text) → (unbalanced d t ≡ false) ↔ IsBalanced d t
unfolding unbalanced
unbalanced_iff d [] = ((λ h. (nothing_closed d, ground (arith, h))), λ h. ground (arith, h.1))
  where
    nothing_closed : (d : ℕ) (a b : Text) → a ++ b ≡ [] → count 93 a ≤ d + count 91 a
    nothing_closed d [] b q = omega arith
    nothing_closed d (x ∷ a) b q = absurd (ground (arith, q))
unbalanced_iff d (c ∷ t) = elim (Bool-cases (c == 91)) [
  | inl e ↦ moved d (suc d) c t (ground (arith, e)) (ground (arith, e)) (unbalanced_iff (suc d) t)
  | inr e ↦ elim (Bool-cases (c == 93)) [
    | inl f ↦ elim d as (λ n. (unbalanced n (c ∷ t) ≡ false) ↔ IsBalanced n (c ∷ t)) [
      | zero ↦ (
        (λ h. absurd (ground (arith, f, h))),
        λ h. absurd (let m = h.0 (c ∷ []) t refl in ground (arith, f, m)),
      )
      | suc n ↦ moved (suc n) n c t (ground (arith, f)) (ground (arith, f)) (unbalanced_iff n t)
    ]
    | inr f ↦ moved d d c t (ground (arith, e, f)) (ground (arith, e, f)) (unbalanced_iff d t)
  ]
]

IsPattern-cases :
    (t : Text)
    → (IsPattern t × (is_malformed_glob t ≡ false))
      ⊎ ((IsPattern t → ⊥) × (is_malformed_glob t ≡ true))
unfolding is_malformed_glob
IsPattern-cases t = elim (Bool-cases (has_content t)) [
  | inl e ↦ elim (Bool-cases (unbalanced 0 t)) [
    | inl f ↦ inr ((λ h. ground (arith, f, (unbalanced_iff 0 t).1 h.1)), ground (arith, e, f))
    | inr f ↦ inl ((e, (unbalanced_iff 0 t).0 f), ground (arith, e, f))
  ]
  | inr e ↦ inr ((λ h. ground (arith, e, h.0)), ground (arith, e))
]

too_long-IsChecked : (path : Text) → IsChecked (length path ≤ 4096) (too_long path)
unfolding too_long max_path_length
too_long-IsChecked path = elim (Bool-cases (ltb 4096 (length path))) [
  | inl e ↦ rw e (inr ((λ h. ground (arith, e, h)), cons-ne _ _))
  | inr e ↦ rw e (inl (ground (arith, e), refl))
]

bad_glob-IsChecked :
    (kind : ScopeKind) (path : Text) → IsChecked (kind ≡ glob → IsPattern path) (bad_glob kind path)
unfolding bad_glob is_glob
bad_glob-IsChecked file path = inl ((λ h. absurd (ground (arith, h))), refl)
bad_glob-IsChecked folder path = inl ((λ h. absurd (ground (arith, h))), refl)
bad_glob-IsChecked glob path = elim (IsPattern-cases path) [
  | inl (a, e) ↦ rw e (inl ((λ h. a), refl))
  | inr (a, e) ↦ rw e (inr ((λ h. a (h refl)), cons-ne _ _))
]

path_errors-IsChecked :
    (kind : ScopeKind) (paths : List Text)
    → IsChecked (All (IsSoundPath kind) paths) (path_errors kind paths)
unfolding path_errors
path_errors-IsChecked kind [] = inl (tt, refl)
path_errors-IsChecked kind (path ∷ paths) =
    let short = length path ≤ 4096 in
    let pattern_if = kind ≡ glob → IsPattern path in
    let rest = All (IsSoundPath kind) paths in
    IsChecked-iff (short × (pattern_if × rest)) (IsSoundPath kind path × rest) _
      (λ h. ((h.0, h.1.0), h.1.1)) (λ h. (h.0.0, (h.0.1, h.1)))
      (IsChecked-append short (pattern_if × rest) _ _ (too_long-IsChecked path) (
        IsChecked-append pattern_if rest _ _ (bad_glob-IsChecked kind path)
          (path_errors-IsChecked kind paths)))

empty_errors-IsChecked : (paths : List Text) → IsChecked (paths ≢ []) (empty_errors paths)
unfolding empty_errors
empty_errors-IsChecked [] = inr ((λ h. h refl), cons-ne _ _)
empty_errors-IsChecked (path ∷ paths) = inl ((λ e. ground (arith, e)), refl)

-- The validation finds a problem exactly in a request that is not sound.
pub validate-IsChecked :
    (ms cs : List Text) (kind : ScopeKind)
    → IsChecked (AreSound kind (ms ++ cs)) (validate ms cs kind)
unfolding validate
validate-IsChecked ms cs kind =
    IsChecked-append ((ms ++ cs) ≢ []) (All (IsSoundPath kind) (ms ++ cs)) _ _
      (empty_errors-IsChecked (ms ++ cs)) (path_errors-IsChecked kind (ms ++ cs))
