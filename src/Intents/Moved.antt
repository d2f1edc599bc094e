-- ===== src/Intents/Moved.antt =====
-- What a confirmed rename or deletion leaves: no intent of the session refers to the old path, and
-- none of the deleting member refers to the deleted one.
use multi_agentic_workflow.Base.{
  ℕ, ◌≡◌, ◌⊎◌, refl, sym, subst, List, [], ◌∷◌, map, Option, none, some, Bool, true, false, not,
  ◌&&◌, ◌==◌, arith, inl, inr, Bool-cases, All, length, select_full, any-false, any-select-not,
}
use multi_agentic_workflow.Base.Text.{Text, text_eq}
use multi_agentic_workflow.Base.JsMap
use multi_agentic_workflow.Base.JsSet
use multi_agentic_workflow.Protocol.{
  Platform, SessionId, MemberRef, DeclaredIntent, PlannedFileCreation,
}
use multi_agentic_workflow.Session.{session_key}
use multi_agentic_workflow.RepoPath.{normalize_path, normalize_path_key}
use multi_agentic_workflow.RepoPath.Canonical.{normalize_path_idem}
use multi_agentic_workflow.Intents.State.{
  IntentRegistry, StoredIntent, Intents, path_key, intents_at, put_tracked,
}
use multi_agentic_workflow.Intents.Claims.{plans_key}
use multi_agentic_workflow.Intents.Reconcile.{
  without_creation, renamed_path, distinct_onto, distinct_creations, refers_to, renamed_in,
  renamed_intent, rename_path, in_session, walk_session, in_tracked, change_tracked, deleted_in,
  deleted_intent, delete_path_for_member,
}
use multi_agentic_workflow.Intents.Queries.{all_intents}
use multi_agentic_workflow.Intents.Stored.{intents_at-none, if_three_elim, changed_or}
use multi_agentic_workflow.Intents.Effects.{Everywhere, Stored, touch_each-Stored, put-Everywhere}

module _ (p : Platform) (r : IntentRegistry) where
  path_key-normalize_path : (raw : Text) → path_key p r (normalize_path raw) ≡ path_key p r raw
  unfolding path_key normalize_path_key
  path_key-normalize_path raw = rw (normalize_path_idem raw) refl

  -- `path` is not spelled with the key.
  abbrev Misses : Text → Text → Type 0
  Misses key path = text_eq (path_key p r path) key ≡ false

  module _ (key target : Text) (away : Misses key target) where
    renamed_path-Misses : (path : Text) → Misses key (renamed_path p r key target path)
    unfolding renamed_path
    renamed_path-Misses path = elim (Bool-cases (text_eq (path_key p r path) key)) [
      | inl e ↦ rw e away
      | inr e ↦ rw e e
    ]

    map-Misses : (paths : List Text) → All (Misses key) (map (renamed_path p r key target) paths)
    map-Misses [] = tt
    map-Misses (x ∷ xs) = (renamed_path-Misses x, map-Misses xs)

    map-planned_Misses :
        (cs : List PlannedFileCreation)
        → All
            (λ (c : PlannedFileCreation). Misses key c.path)
            (map
              (λ (c : PlannedFileCreation). record { path = renamed_path p r key target c.path })
              cs)
    map-planned_Misses [] = tt
    map-planned_Misses (c ∷ cs) = (renamed_path-Misses c.path, map-planned_Misses cs)

    distinct_onto-Misses :
        (seen paths : List Text)
        → All (Misses key) seen
        → All (Misses key) paths
        → All (Misses key) (distinct_onto p seen paths)
    unfolding distinct_onto
    distinct_onto-Misses seen [] h k = h
    distinct_onto-Misses seen (x ∷ xs) h k =
        distinct_onto-Misses (JsSet.add seen x) xs (JsSet.add-All (Misses key) seen x h k.0) k.1

    distinct_creations-Misses :
        (seen : List Text) (cs : List PlannedFileCreation)
        → All (λ (c : PlannedFileCreation). Misses key c.path) cs
        → All (λ (c : PlannedFileCreation). Misses key c.path) (distinct_creations p r seen cs)
    unfolding distinct_creations
    distinct_creations-Misses seen [] h = tt
    distinct_creations-Misses seen (c ∷ cs) h =
        elim (Bool-cases (JsSet.has seen (path_key p r c.path))) [
          | inl e ↦ rw e (distinct_creations-Misses seen cs h.1)
          | inr e ↦
              rw e (h.0, distinct_creations-Misses (JsSet.add seen (path_key p r c.path)) cs h.1)
        ]

    renamed-refers_to :
        (i : DeclaredIntent) → refers_to p r key (renamed_intent p r key target i) ≡ false
    unfolding refers_to plans_key
    renamed-refers_to i =
        rw
          (any-false (λ m. text_eq (path_key p r m) key) _
            (distinct_onto-Misses [] _ tt (map-Misses i.modify_paths)))
          (any-false (λ c. text_eq (path_key p r c.path) key) _
            (distinct_creations-Misses [] _ (map-planned_Misses i.create_paths)))

    renamed_in-refers_to :
        (s : StoredIntent)
        → refers_to p r key (changed_or s (renamed_in p r key target s)).intent ≡ false
    unfolding renamed_in
    renamed_in-refers_to s = elim (Bool-cases (refers_to p r key s.intent)) [
      | inl e ↦ rw e (renamed-refers_to s.intent)
      | inr e ↦ rw e e
    ]

  deleted-refers_to :
      (key : Text) (i : DeclaredIntent) → refers_to p r key (deleted_intent p r key i) ≡ false
  unfolding refers_to plans_key without_creation
  deleted-refers_to key i =
      rw (any-select-not (λ m. text_eq (path_key p r m) key) i.modify_paths)
        (any-select-not (λ c. text_eq (path_key p r c.path) key) i.create_paths)

  -- Of another member, or without the path.
  abbrev pub IsCleared : Text → MemberRef → DeclaredIntent → Type 0
  IsCleared key m i =
      (text_eq i.owner.member_id m.member_id ≡ false) ⊎ (refers_to p r key i ≡ false)

  unchanged-refers_to :
      (key : Text) (i : DeclaredIntent)
      → length (deleted_intent p r key i).modify_paths ≡ length i.modify_paths
      → length (deleted_intent p r key i).create_paths ≡ length i.create_paths
      → refers_to p r key i ≡ false
  unfolding without_creation
  unchanged-refers_to key i a b =
      let m = select_full (λ m. not (text_eq (path_key p r m) key)) i.modify_paths a in
      let c =
        select_full (λ (c : PlannedFileCreation). not (text_eq (path_key p r c.path) key))
          i.create_paths b in
      subst (λ l. refers_to p r key (record i { modify_paths = l }) ≡ false) m
        (subst
          (λ l. refers_to p r key (record (deleted_intent p r key i) { create_paths = l }) ≡ false)
          c (deleted-refers_to key i))

  not-true : (a : Bool) → not a ≡ true → a ≡ false
  not-true a h = ground (arith, h)

  both_equal : (a b c d : ℕ) → ((a == b) && (c == d)) ≡ true → (a ≡ b) × (c ≡ d)
  both_equal a b c d h = ground (arith, h)

  deleted_in-IsCleared :
      (key path : Text) (m : MemberRef) (s : StoredIntent)
      → IsCleared key m (changed_or s (deleted_in p r key path m s)).intent
  unfolding deleted_in
  deleted_in-IsCleared key path m s =
      if_three_elim (λ t. IsCleared key m t.intent) _ _ s _ (λ a. inl (not-true _ a))
        (λ b. let (x, y) = both_equal _ _ _ _ b in inr (unchanged-refers_to key s.intent x y))
        (inr (deleted-refers_to key s.intent))

module _ (p : Platform) where
  nowhere :
      (P : DeclaredIntent → Type 0) (r : IntentRegistry) (key : Text)
      → JsMap.get key r.sessions ≡ none
      → Everywhere p P r key
  unfolding Everywhere
  nowhere P r key e = subst (Stored P) (sym (intents_at-none r key e)) tt

  walk_session-Everywhere :
      (P : DeclaredIntent → Type 0) (r : IntentRegistry) (key : Text)
      (change : StoredIntent → Option StoredIntent) (o : Option Intents)
      → JsMap.get key r.sessions ≡ o
      → ((s : StoredIntent) → P (changed_or s (change s)).intent)
      → Everywhere p P (walk_session p r key change o).0 key
  unfolding walk_session
  walk_session-Everywhere P r key change none e h = nowhere P r key e
  walk_session-Everywhere P r key change (some m) e h =
      put-Everywhere p P r key _ (touch_each-Stored P change m h)

  change_tracked-Everywhere :
      (P : DeclaredIntent → Type 0) (r : IntentRegistry) (key : Text)
      (change : List Text → List Text) (o : Option (List Text))
      → Everywhere p P r key
      → Everywhere p P (change_tracked p r key change o) key
  unfolding change_tracked put_tracked Everywhere intents_at
  change_tracked-Everywhere P r key change none h = h
  change_tracked-Everywhere P r key change (some files) h = h

  -- After a rename to a path with another key no intent of the session refers to the old path.
  pub rename_path-Moved :
      (r : IntentRegistry) (session : SessionId) (from_path to_path : Text)
      → text_eq (path_key p r to_path) (path_key p r from_path) ≡ false
      → All
          (λ i. refers_to p r (path_key p r from_path) i ≡ false)
          (all_intents p (rename_path p r session from_path to_path).0 session)
  unfolding rename_path all_intents Everywhere in_session in_tracked
  rename_path-Moved r session from_path to_path away =
      let key = path_key p r from_path in
      let target_away : text_eq (path_key p r (normalize_path to_path)) key ≡ false =
        rw (path_key-normalize_path p r to_path) away in
      change_tracked-Everywhere _ _ (session_key p session) _ _ (
        walk_session-Everywhere _ r (session_key p session) _ _ refl
          (renamed_in-refers_to p r key (normalize_path to_path) target_away))

  -- After a member's deletion of a path no intent of that member in the session refers to it.
  pub delete_path-IsCleared :
      (r : IntentRegistry) (session : SessionId) (path : Text) (m : MemberRef)
      → All
          (IsCleared p r (path_key p r path) m)
          (all_intents p (delete_path_for_member p r session path m).0 session)
  unfolding delete_path_for_member all_intents Everywhere in_session in_tracked
  delete_path-IsCleared r session path m =
      change_tracked-Everywhere _ _ (session_key p session) _ _ (
        walk_session-Everywhere _ r (session_key p session) _ _ refl
          (deleted_in-IsCleared p r (path_key p r path) (normalize_path path) m))
