-- ===== src/Intents/Invariant.antt =====
-- What holds of every stored intent: it stands under its own id, and its paths are canonical.
use multi_agentic_workflow.Base.{
  ◌≡◌, sym, ◌∙◌, subst, List, Option, some, arith, inl, inr, Bool-cases, Option-cases, All,
}
use multi_agentic_workflow.Base.Text.{Text, text_eq, text_eq_iff}
use multi_agentic_workflow.Base.JsMap
use multi_agentic_workflow.Protocol.{DeclaredIntent, PlannedFileCreation}
use multi_agentic_workflow.RepoPath.{normalize_path}
use multi_agentic_workflow.Intents.State.{
  IntentRegistry, StoredIntent, intents_at, put, stored_at, touch_each,
}
use multi_agentic_workflow.Intents.Stored.{
  stored_at-reopen, stored_at-set, stored_at-delete, stored_at-touch_each, changed_or,
}

abbrev pub IsCanonical : Text → Type 0
IsCanonical path = normalize_path path ≡ path

abbrev pub AreCanonical : List Text → Type 0
AreCanonical = All IsCanonical

abbrev pub ArePlanned : List PlannedFileCreation → Type 0
ArePlanned = All (λ c. IsCanonical c.path)

abbrev pub HasCanonicalPaths : DeclaredIntent → Type 0
HasCanonicalPaths i = AreCanonical i.modify_paths × ArePlanned i.create_paths

abbrev pub IsFiled : Text → StoredIntent → Type 0
IsFiled id s = (s.intent.intent_id ≡ id) × HasCanonicalPaths s.intent

abbrev pub IsValid : IntentRegistry → Type 0
IsValid r = (k id : Text) (s : StoredIntent) → stored_at r k id ≡ some s → IsFiled id s

module _ (r : IntentRegistry) (valid : IsValid r) where
  pub put_same-IsValid : (key : Text) → IsValid (put r key (intents_at r key))
  put_same-IsValid key k id s h = valid k id s (sym (stored_at-reopen r key k id) ∙ h)

  pub set-IsValid :
      (key id : Text) (v : StoredIntent)
      → IsFiled id v
      → IsValid (put r key (JsMap.set id v (intents_at r key)))
  set-IsValid key id v f k id' s h = elim (Bool-cases (text_eq key k)) [
    | inl a ↦ elim (Bool-cases (text_eq id id')) [
      | inl b ↦
          let e : id ≡ id' = ground (arith, b, text_eq_iff id id') in
          let d : v ≡ s = ground (arith, a, b, stored_at-set r key k id id' v, h) in
          subst (λ t. IsFiled id' t) d (subst (λ j. IsFiled j v) e f)
      | inr b ↦ valid k id' s (ground (arith, a, b, stored_at-set r key k id id' v, h))
    ]
    | inr a ↦ valid k id' s (ground (arith, a, stored_at-set r key k id id' v, h))
  ]

  pub delete-IsValid : (key id : Text) → IsValid (put r key (JsMap.delete id (intents_at r key)))
  delete-IsValid key id k id' s h =
      valid k id' s (ground (arith, stored_at-delete r key k id id', h))

  touched-IsFiled :
      (change : StoredIntent → Option StoredIntent) (id : Text) (s : StoredIntent)
      → ((id : Text) (s t : StoredIntent) → IsFiled id s → change s ≡ some t → IsFiled id t)
      → IsFiled id s
      → IsFiled id (changed_or s (change s))
  touched-IsFiled change id s keep f = elim (Option-cases (change s)) [
    | inl e ↦ rw e f
    | inr (t, e) ↦ rw e (keep id s t f e)
  ]

  pub touch-IsValid :
      (change : StoredIntent → Option StoredIntent) (key : Text)
      → ((id : Text) (s t : StoredIntent) → IsFiled id s → change s ≡ some t → IsFiled id t)
      → IsValid (put r key (touch_each change (intents_at r key)).0)
  touch-IsValid change key keep k id s h = elim (Bool-cases (text_eq key k)) [
    | inl a ↦ elim (Option-cases (stored_at r k id)) [
      | inl e ↦ absurd (ground (arith, a, e, h, stored_at-touch_each r change key k id))
      | inr (t, e) ↦
          let d : changed_or t (change t) ≡ s =
            ground (arith, a, e, h, stored_at-touch_each r change key k id) in
          subst (IsFiled id) d (touched-IsFiled change id t keep (valid k id t e))
    ]
    | inr a ↦ valid k id s (ground (arith, a, h, stored_at-touch_each r change key k id))
  ]
