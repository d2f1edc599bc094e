-- ===== src/Base/JsMap.antt =====
-- A JavaScript `Map` with string keys: an association list in insertion order. `set` on a key that
-- is there keeps its place; `delete` removes the key.

use mathlib.Core.Path.{◌≡◌, refl, subst}
use mathlib.Core.Bool.{false}
use mathlib.Core.List.{List, [], ◌∷◌, map}
use mathlib.Core.Option.{Option, none, some}
use mathlib.Core.Logic.{inl, inr}
use native.Mathlib.Omega.{arith}
use multi_agentic_workflow.Base.Tests.{if◌then◌else◌, Bool-cases}
use multi_agentic_workflow.Base.Lists.{All, In}
use multi_agentic_workflow.Base.Text.{Text, text_eq, text_eq_iff, text_eq_refl}

abbrev pub JsMap {ℓ} : Type ℓ → Type ℓ
JsMap V = List (Text × V)

module _ {ℓ} {V : Type ℓ} where
  unfoldable pub get : Text → JsMap V → Option V
  get k [] = none
  get k ((j, v) ∷ m) = if text_eq j k then some v else get k m

  unfoldable pub set : Text → V → JsMap V → JsMap V
  set k v [] = (k, v) ∷ []
  set k v ((j, w) ∷ m) = if text_eq j k then (j, v) ∷ m else (j, w) ∷ set k v m

  unfoldable pub delete : Text → JsMap V → JsMap V
  delete k [] = []
  delete k ((j, w) ∷ m) = if text_eq j k then delete k m else (j, w) ∷ delete k m

  -- `m.get(k) ?? d`
  unfoldable pub get_or : Text → V → JsMap V → V
  get_or k d m = elim (get k m) [ none ↦ d | some v ↦ v ]

  abbrev pub values : JsMap V → List V
  values = map (λ e. e.1)

  pub get_nil : (k : Text) → get k [] ≡ none
  unfolding get
  get_nil k = refl

  pub get-head : (k : Text) (v : V) (m : JsMap V) → get k ((k, v) ∷ m) ≡ some v
  unfolding get
  get-head k v m = rw (text_eq_refl k)

  pub get-set :
      (k j : Text) (v : V) (m : JsMap V)
      → get j (set k v m) ≡ (if text_eq k j then some v else get j m)
  unfolding get set
  get-set k j v [] = refl
  get-set k j v ((i, w) ∷ m) =
      ground (arith, text_eq_iff k j, text_eq_iff i k, text_eq_iff i j, get-set k j v m)

  pub get-delete :
      (k j : Text) (m : JsMap V) → get j (delete k m) ≡ (if text_eq k j then none else get j m)
  unfolding get delete
  get-delete k j [] = ground arith
  get-delete k j ((i, w) ∷ m) =
      ground (arith, text_eq_iff k j, text_eq_iff i k, text_eq_iff i j, get-delete k j m)

  pub get-set_self : (k : Text) (v : V) (m : JsMap V) → get k (set k v m) ≡ some v
  get-set_self k v m = simp (get-set, text_eq_refl)

  pub get-set_ne :
      (k j : Text) (v : V) (m : JsMap V) → text_eq k j ≡ false → get j (set k v m) ≡ get j m
  get-set_ne k j v m h = ground (arith, get-set k j v m)

  pub get_or-set :
      (k j : Text) (d v : V) (m : JsMap V)
      → get_or j d (set k v m) ≡ (if text_eq k j then v else get_or j d m)
  unfolding get_or
  get_or-set k j d v m = ground (arith, get-set k j v m)

  pub get_or-set_self : (k : Text) (d v : V) (m : JsMap V) → get_or k d (set k v m) ≡ v
  unfolding get_or
  get_or-set_self k d v m = ground (arith, get-set_self k v m)

  pub get_or-set_ne :
      (k j : Text) (d v : V) (m : JsMap V)
      → text_eq k j ≡ false
      → get_or j d (set k v m) ≡ get_or j d m
  unfolding get_or
  get_or-set_ne k j d v m h = ground (arith, get-set_ne k j v m h)

  -- A property of every stored value.
  abbrev pub Holds {κ} : (V → Type κ) → JsMap V → Type κ
  Holds P m = All (λ e. P e.1) m

  pub set-Holds {κ} :
      (P : V → Type κ) (k : Text) (v : V) (m : JsMap V) → Holds P m → P v → Holds P (set k v m)
  unfolding set
  set-Holds P k v [] h p = (p, tt)
  set-Holds P k v ((j, w) ∷ m) h p = elim (Bool-cases (text_eq j k)) [
    | inl e ↦ rw e (p, h.1)
    | inr e ↦ rw e (h.0, set-Holds P k v m h.1 p)
  ]

  pub delete-Holds {κ} :
      (P : V → Type κ) (k : Text) (m : JsMap V) → Holds P m → Holds P (delete k m)
  unfolding delete
  delete-Holds P k [] h = tt
  delete-Holds P k ((j, w) ∷ m) h = elim (Bool-cases (text_eq j k)) [
    | inl e ↦ rw e (delete-Holds P k m h.1)
    | inr e ↦ rw e (h.0, delete-Holds P k m h.1)
  ]

  pub get-Holds {κ} :
      (P : V → Type κ) (k : Text) (v : V) (m : JsMap V) → Holds P m → get k m ≡ some v → P v
  unfolding get
  get-Holds P k v [] h e = absurd (ground arith)
  get-Holds P k v ((j, w) ∷ m) h e = elim (Bool-cases (text_eq j k)) [
    | inl t ↦ subst P (ground arith) h.0
    | inr t ↦ get-Holds P k v m h.1 (ground arith)
  ]

  pub get_or-Holds {κ} :
      (P : V → Type κ) (k : Text) (d : V) (m : JsMap V) → Holds P m → P d → P (get_or k d m)
  unfolding get_or get
  get_or-Holds P k d [] h p = p
  get_or-Holds P k d ((j, w) ∷ m) h p = elim (Bool-cases (text_eq j k)) [
    | inl e ↦ rw (e, get_or) h.0
    | inr e ↦ rw (e, get_or) (get_or-Holds P k d m h.1 p)
  ]

pub values-In : {V : Type 0} (k : Text) (v : V) (m : JsMap V) → get k m ≡ some v → In v (values m)
unfolding get
values-In k v [] e = absurd (ground arith)
values-In k v ((j, w) ∷ m) e = elim (Bool-cases (text_eq j k)) [
  | inl y ↦ inl (ground (arith, e, y))
  | inr n ↦ inr (values-In k v m (ground (arith, e, n)))
]
