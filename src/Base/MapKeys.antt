-- ===== src/Base/MapKeys.antt =====
-- The keys of a map are distinct, so that an entry met in a loop is the one that `get` finds.
use mathlib.Core.Path.{◌≡◌, refl, ◌∙◌, ap, sym, subst}
use mathlib.Core.Logic.{inl, inr, ◌≢◌}
use mathlib.Core.List.{[], ◌∷◌, ◌++◌, append_assoc}
use mathlib.Core.Option.{none, some}
use native.Mathlib.Omega.{arith}
use multi_agentic_workflow.Base.Tests.{Bool-cases}
use multi_agentic_workflow.Base.Text.{Text, text_eq, text_eq_iff, text_eq_refl}
use multi_agentic_workflow.Base.JsMap.{JsMap, get, set, delete, get-delete, get-set_ne, get_or}

module _ {ℓ} {V : Type ℓ} where
  abbrev pub HasKeys : JsMap V → Type ℓ
  HasKeys [] = Unit
  HasKeys ((k, v) ∷ m) = (get k m ≡ none) × HasKeys m

  -- Every entry stands under a key that suits it.
  abbrev pub AreUnder {κ} : (Text → V → Type κ) → JsMap V → Type κ
  AreUnder IsUnder [] = Unit
  AreUnder IsUnder ((k, v) ∷ m) = IsUnder k v × AreUnder IsUnder m

  pub set-HasKeys : (k : Text) (v : V) (m : JsMap V) → HasKeys m → HasKeys (set k v m)
  unfolding set get
  set-HasKeys k v [] h = (refl, tt)
  set-HasKeys k v ((j, w) ∷ m) h = elim (Bool-cases (text_eq j k)) [
    | inl e ↦ rw e h
    | inr e ↦ rw e (
      get-set_ne k j v m (ground (arith, text_eq_iff j k, text_eq_iff k j)) ∙ h.0,
      set-HasKeys k v m h.1,
    )
  ]

  pub delete-HasKeys : (k : Text) (m : JsMap V) → HasKeys m → HasKeys (delete k m)
  unfolding delete get
  delete-HasKeys k [] h = tt
  delete-HasKeys k ((j, w) ∷ m) h = elim (Bool-cases (text_eq j k)) [
    | inl e ↦ rw e (delete-HasKeys k m h.1)
    | inr e ↦ rw e (ground (arith, get-delete k j m, h.0), delete-HasKeys k m h.1)
  ]

  -- An entry further on is not hidden by the first one.
  pub get-cons :
      (k j : Text) (v w : V) (m : JsMap V)
      → get j m ≡ none
      → get k m ≡ some v
      → get k ((j, w) ∷ m) ≡ some v
  unfolding get
  get-cons k j v w m h e = ground (arith, h, e, text_eq_iff j k)

  -- What a loop that fills a map does at a new key, and at the key that it has filled last.
  pub set_new : (k : Text) (v : V) (m : JsMap V) → get k m ≡ none → set k v m ≡ m ++ (k, v) ∷ []
  unfolding set get
  set_new k v [] h = refl
  set_new k v ((j, w) ∷ m) h = elim (Bool-cases (text_eq j k)) [
    | inl e ↦ absurd (ground (arith, e, h))
    | inr e ↦ rw e (ap (λ n. (j, w) ∷ n) (set_new k v m (ground (arith, e, h))))
  ]

  pub set_last :
      (k : Text) (v w : V) (m : JsMap V)
      → get k m ≡ none
      → set k v (m ++ (k, w) ∷ []) ≡ m ++ (k, v) ∷ []
  unfolding set get
  set_last k v w [] h = rw (text_eq_refl k) refl
  set_last k v w ((j, u) ∷ m) h = elim (Bool-cases (text_eq j k)) [
    | inl e ↦ absurd (ground (arith, e, h))
    | inr e ↦ rw e (ap (λ n. (j, u) ∷ n) (set_last k v w m (ground (arith, e, h))))
  ]

  pub get_last :
      (k : Text) (w : V) (m : JsMap V) → get k m ≡ none → get k (m ++ (k, w) ∷ []) ≡ some w
  unfolding get
  get_last k w [] h = rw (text_eq_refl k) refl
  get_last k w ((j, u) ∷ m) h = elim (Bool-cases (text_eq j k)) [
    | inl e ↦ absurd (ground (arith, e, h))
    | inr e ↦ rw e (get_last k w m (ground (arith, e, h)))
  ]

  get-middle : (k : Text) (v : V) (m n : JsMap V) → get k (m ++ (k, v) ∷ n) ≢ none
  unfolding get
  get-middle k v [] n e = absurd (ground (arith, text_eq_refl k, e))
  get-middle k v ((j, u) ∷ m) n e = elim (Bool-cases (text_eq j k)) [
    | inl t ↦ absurd (ground (arith, t, e))
    | inr t ↦ get-middle k v m n (ground (arith, t, e))
  ]

  -- With distinct keys, the part before an entry does not have its key.
  pub get-before : (k : Text) (v : V) (m n : JsMap V) → HasKeys (m ++ (k, v) ∷ n) → get k m ≡ none
  unfolding get
  get-before k v [] n h = refl
  get-before k v ((j, u) ∷ m) n h = elim (Bool-cases (text_eq j k)) [
    | inl t ↦
        let e : j ≡ k = (text_eq_iff j k).0 t in
        absurd (get-middle k v m n (subst (λ i. get i (m ++ (k, v) ∷ n) ≡ none) e h.0))
    | inr t ↦ rw t (get-before k v m n h.1)
  ]

  -- The next entry joins the part that is filled.
  pub HasKeys-shift :
      (k : Text) (v : V) (m n : JsMap V)
      → HasKeys (m ++ (k, v) ∷ n)
      → HasKeys ((m ++ (k, v) ∷ []) ++ n)
  HasKeys-shift k v m n h = subst HasKeys (sym (append_assoc m ((k, v) ∷ []) n)) h

  pub set-AreUnder {κ} :
      (P : Text → V → Type κ) (k : Text) (v : V) (m : JsMap V)
      → AreUnder P m
      → P k v
      → AreUnder P (set k v m)
  unfolding set
  set-AreUnder P k v [] h a = (a, tt)
  set-AreUnder P k v ((j, w) ∷ m) h a = elim (Bool-cases (text_eq j k)) [
    | inl e ↦ rw e (subst (λ i. P i v) (sym ((text_eq_iff j k).0 e)) a, h.1)
    | inr e ↦ rw e (h.0, set-AreUnder P k v m h.1 a)
  ]

  pub delete-AreUnder {κ} :
      (P : Text → V → Type κ) (k : Text) (m : JsMap V) → AreUnder P m → AreUnder P (delete k m)
  unfolding delete
  delete-AreUnder P k [] h = tt
  delete-AreUnder P k ((j, w) ∷ m) h = elim (Bool-cases (text_eq j k)) [
    | inl e ↦ rw e (delete-AreUnder P k m h.1)
    | inr e ↦ rw e (h.0, delete-AreUnder P k m h.1)
  ]

  pub get_or-AreUnder {κ} :
      (P : Text → V → Type κ) (k : Text) (d : V) (m : JsMap V)
      → AreUnder P m
      → P k d
      → P k (get_or k d m)
  unfolding get_or get
  get_or-AreUnder P k d [] h a = a
  get_or-AreUnder P k d ((j, w) ∷ m) h a = elim (Bool-cases (text_eq j k)) [
    | inl e ↦ rw (e, get_or) (subst (λ i. P i w) ((text_eq_iff j k).0 e) h.0)
    | inr e ↦ rw (e, get_or) (get_or-AreUnder P k d m h.1 a)
  ]
