-- ===== src/Intents/Effects.antt =====
-- What reconciling the registry with the files leaves in it: a created file is planned by no
-- intent, and a renamed or deleted path is referred to no more.
use multi_agentic_workflow.Base.{
  ◌≡◌, sym, ◌∙◌, ap, subst, List, [], ◌∷◌, map, Option, none, some, true, false, ◌==◌, arith, inl,
  inr, Bool-cases, All, length, select_full, any-select-not, ==_iff,
}
use multi_agentic_workflow.Base.Text.{Text, text_eq_refl}
use multi_agentic_workflow.Base.JsMap
use multi_agentic_workflow.Base.JsSet
use multi_agentic_workflow.Protocol.{Platform, SessionId, DeclaredIntent, PlannedFileCreation}
use multi_agentic_workflow.Session.{session_key}
use multi_agentic_workflow.Intents.State.{
  IntentRegistry, StoredIntent, Intents, path_key, intents_at, tracked_at, put, put_tracked,
  is_tracked, touch, touch_each,
}
use multi_agentic_workflow.Intents.Claims.{plans_key}
use multi_agentic_workflow.Intents.Reconcile.{without_creation, created_in, reconcile_creation}
use multi_agentic_workflow.Intents.Queries.{all_intents}
use multi_agentic_workflow.Intents.Stored.{intents_at-put_self, changed_or}

abbrev pub Stored : (DeclaredIntent → Type 0) → Intents → Type 0
Stored P m = All (λ i. P i) (map (λ s. s.intent) (JsMap.values m))

touch-Stored :
    (P : DeclaredIntent → Type 0) (id : Text) (s : StoredIntent) (o : Option StoredIntent)
    (rest : Intents × List DeclaredIntent)
    → P (changed_or s o).intent
    → Stored P rest.0
    → Stored P (touch id s o rest).0
unfolding touch
touch-Stored P id s none rest h k = (h, k)
touch-Stored P id s (some t) rest h k = (h, k)

-- A loop whose round makes `P` true of every intent.
pub touch_each-Stored :
    (P : DeclaredIntent → Type 0) (change : StoredIntent → Option StoredIntent) (m : Intents)
    → ((s : StoredIntent) → P (changed_or s (change s)).intent)
    → Stored P (touch_each change m).0
unfolding touch_each
touch_each-Stored P change [] h = tt
touch_each-Stored P change ((id, s) ∷ m) h =
    touch-Stored P id s (change s) (touch_each change m) (h s) (touch_each-Stored P change m h)

module _ (p : Platform) where
  unfoldable pub Everywhere : (DeclaredIntent → Type 0) → IntentRegistry → Text → Type 0
  Everywhere P r key = Stored P (intents_at r key)

  pub put-Everywhere :
      (P : DeclaredIntent → Type 0) (r : IntentRegistry) (key : Text) (m : Intents)
      → Stored P m
      → Everywhere P (put r key m) key
  unfolding Everywhere
  put-Everywhere P r key m h = subst (Stored P) (sym (intents_at-put_self r key m)) h

  module _ (r : IntentRegistry) where
    without-plans_key :
        (key : Text) (cs : List PlannedFileCreation)
        → plans_key p r key (without_creation p r key cs) ≡ false
    unfolding plans_key without_creation
    without-plans_key key cs = any-select-not _ cs

    kept_all :
        (key : Text) (cs : List PlannedFileCreation)
        → (length (without_creation p r key cs) == length cs) ≡ true
        → plans_key p r key cs ≡ false
    unfolding without_creation
    kept_all key cs e =
        subst (λ l. plans_key p r key l ≡ false) (select_full _ cs ((==_iff _ _).0 e))
          (without-plans_key key cs)

    created_in-plans_key :
        (key : Text) (s : StoredIntent)
        → plans_key p r key (changed_or s (created_in p r key s)).intent.create_paths ≡ false
    unfolding created_in
    created_in-plans_key key s =
        elim (Bool-cases (
          length (without_creation p r key s.intent.create_paths)
          == length s.intent.create_paths)) [
            | inl e ↦ rw e (kept_all key s.intent.create_paths e)
            | inr e ↦ rw e (without-plans_key key s.intent.create_paths)
          ]

  tracked_at_written :
      (r : IntentRegistry) (k : Text) (files : List Text) (m : Intents)
      → tracked_at (put (put_tracked r k files) k m) k ≡ files
  unfolding tracked_at put put_tracked
  tracked_at_written r k files m = JsMap.get_or-set_self k [] files r.tracked

  marked :
      (r : IntentRegistry) (k key : Text) (files : List Text) (m : Intents)
      → JsSet.has (tracked_at (put (put_tracked r k (JsSet.add files key)) k m) k) key ≡ true
  marked r k key files m =
      ap (λ l. JsSet.has l key) (tracked_at_written r k (JsSet.add files key) m)
      ∙ ground (arith, JsSet.has-add files key key, text_eq_refl key)

  -- A confirmed creation makes the path a tracked file, and no intent of the session plans to create
  -- it any more.
  pub reconcile_creation-Created :
      (r : IntentRegistry) (session : SessionId) (path : Text)
      → (is_tracked p (reconcile_creation p r session path).0 session path ≡ true)
        × All
            (λ i. plans_key p r (path_key p r path) i.create_paths ≡ false)
            (all_intents p (reconcile_creation p r session path).0 session)
  unfolding reconcile_creation all_intents Everywhere is_tracked path_key put put_tracked
  reconcile_creation-Created r session path = (
    marked r (session_key p session) _ _ _,
    put-Everywhere _ _ (session_key p session) _ (
        touch_each-Stored _ _ (intents_at r (session_key p session))
          (created_in-plans_key r (path_key p r path))),
  )
