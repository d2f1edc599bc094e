-- ===== src/Intents/Reachable.antt =====
-- The registries that a host can come to: every sequence of operations from an empty one.
use multi_agentic_workflow.Base.{
  ◌≡◌, refl, subst, ◌&&◌, Bool-cases, inl, inr, List, [], ◌∷◌, Option, none, some, arith, All,
}
use multi_agentic_workflow.Base.Text.{Text, text_eq, text_eq_iff}
use multi_agentic_workflow.Base.JsMap
use multi_agentic_workflow.Base.JsMap.{get-set}
use multi_agentic_workflow.Protocol.{Platform, SessionId, MemberRef, DeclaredIntent}
use multi_agentic_workflow.Session.{session_key}
use multi_agentic_workflow.RepoPath.{CaseSensitivity}
use multi_agentic_workflow.Intents.State.{
  IntentRegistry, StoredIntent, Intents, intents_at, put, stored_at, mark_tracked,
  set_tracked_files, new_registry,
}
use multi_agentic_workflow.Intents.{
  DeclareRequest, UpdateRequest, WithdrawRequest, declare, update, withdraw, complete,
}
use multi_agentic_workflow.Intents.Reconcile.{
  reconcile_creation, reconcile_save, withdraw_planned_creation, rename_path,
  delete_path_for_member, expire_by_device, expire_found, restore, reinstall,
}
use multi_agentic_workflow.Intents.Stored.{intents_at-some, stored_at-put}
use multi_agentic_workflow.Intents.Invariant.{IsValid, IsFiled, HasCanonicalPaths, put_same-IsValid}
use multi_agentic_workflow.Intents.Kept.{
  declare-IsValid, update-IsValid, withdraw-IsValid, tracked-IsValid,
}
use multi_agentic_workflow.Intents.Touched.{
  reconcile_creation-IsValid, reconcile_save-IsValid, withdraw_planned_creation-IsValid,
  rename_path-IsValid, delete_path_for_member-IsValid, expire_each-IsValid,
}

module _ (p : Platform) where
  -- One call. A restored set of intents has canonical paths, as a stored one has.
  pub data Step (r : IntentRegistry) : IntentRegistry → Type 0 where
    declares : (q : DeclareRequest) → Step r (declare p r q).0
    updates : (q : UpdateRequest) → Step r (update p r q).0
    withdraws : (q : WithdrawRequest) → Step r (withdraw p r q).0
    completes : (q : WithdrawRequest) → Step r (complete p r q).0
    withdraws_creation :
        (session : SessionId) (id path : Text) (m : MemberRef)
        → Step r (withdraw_planned_creation p r session id path m).0
    creates : (session : SessionId) (path : Text) → Step r (reconcile_creation p r session path).0
    saves : (session : SessionId) (path : Text) → Step r (reconcile_save p r session path).0
    renames :
        (session : SessionId) (from_path to_path : Text)
        → Step r (rename_path p r session from_path to_path).0
    deletes :
        (session : SessionId) (path : Text) (m : MemberRef)
        → Step r (delete_path_for_member p r session path m).0
    expires : (session : SessionId) (device : Text) → Step r (expire_by_device p r session device).0
    restores :
        (session : SessionId) (intents : List DeclaredIntent)
        → All HasCanonicalPaths intents
        → Step r (restore p r session intents)
    marks : (session : SessionId) (path : Text) → Step r (mark_tracked p r session path)
    seeds : (session : SessionId) (paths : List Text) → Step r (set_tracked_files p r session paths)

  pub data Reach (r : IntentRegistry) : IntentRegistry → Type 0 where
    here : Reach r r
    next : {s t : IntentRegistry} → Reach r s → Step s t → Reach r t

  expire_found-IsValid :
      (r : IntentRegistry) (key device : Text) (o : Option Intents)
      → JsMap.get key r.sessions ≡ o
      → IsValid r
      → IsValid (expire_found p r key device o).0
  unfolding expire_found
  expire_found-IsValid r key device none e v = v
  expire_found-IsValid r key device (some m) e v =
      expire_each-IsValid p r key device m m
        (subst (λ l. IsValid (put r key l)) (intents_at-some r key m e) (put_same-IsValid r v key))

  expire_by_device-IsValid :
      (r : IntentRegistry) (session : SessionId) (device : Text)
      → IsValid r
      → IsValid (expire_by_device p r session device).0
  unfolding expire_by_device
  expire_by_device-IsValid r session device v =
      expire_found-IsValid r (session_key p session) device _ refl v

  -- What the session holds after a write, as far as it is `v` or was there.
  set_in-IsValid :
      (r : IntentRegistry) (key id : Text) (t : StoredIntent) (m : Intents)
      → IsFiled id t
      → IsValid (put r key m)
      → IsValid (put r key (JsMap.set id t m))
  set_in-IsValid r key id t m f v k id' s h = elim (Bool-cases (text_eq key k && text_eq id id')) [
    | inl a ↦
        let e : id ≡ id' = ground (arith, a, text_eq_iff id id') in
        let d : t ≡ s =
          ground (arith, a, stored_at-put r key k id' (JsMap.set id t m), get-set id id' t m, h) in
        subst (IsFiled id') d (subst (λ j. IsFiled j t) e f)
    | inr a ↦ v k id' s (
        ground (
          arith,
          a,
          stored_at-put r key k id' (JsMap.set id t m),
          get-set id id' t m,
          stored_at-put r key k id' m,
          h,
        ))
  ]

  emptied-IsValid : (r : IntentRegistry) (key : Text) → IsValid r → IsValid (put r key [])
  unfolding JsMap.get
  emptied-IsValid r key v k id s h = v k id s (ground (arith, stored_at-put r key k id [], h))

  reinstall-IsValid :
      (r : IntentRegistry) (key : Text) (m : Intents) (intents : List DeclaredIntent)
      → IsValid (put r key m)
      → All HasCanonicalPaths intents
      → IsValid (put r key (reinstall p m intents))
  unfolding reinstall
  reinstall-IsValid r key m [] v h = v
  reinstall-IsValid r key m (i ∷ is) v h =
      reinstall-IsValid r key (JsMap.set i.intent_id (record { intent = i; in_progress = [] }) m) is
        (set_in-IsValid r key i.intent_id _ m (refl, h.0) v) h.1

  restore-IsValid :
      (r : IntentRegistry) (session : SessionId) (intents : List DeclaredIntent)
      → IsValid r
      → All HasCanonicalPaths intents
      → IsValid (restore p r session intents)
  unfolding restore
  restore-IsValid r session intents v h =
      reinstall-IsValid r (session_key p session) [] intents
        (emptied-IsValid r (session_key p session) v) h

  Step-IsValid : {r s : IntentRegistry} → Step r s → IsValid r → IsValid s
  unfolding complete mark_tracked set_tracked_files
  Step-IsValid {r} (declares q) v = declare-IsValid p r q v
  Step-IsValid {r} (updates q) v = update-IsValid p r q v
  Step-IsValid {r} (withdraws q) v = withdraw-IsValid p r q v
  Step-IsValid {r} (completes q) v = withdraw-IsValid p r q v
  Step-IsValid {r} (withdraws_creation session id path m) v =
      withdraw_planned_creation-IsValid p r session id path m v
  Step-IsValid {r} (creates session path) v = reconcile_creation-IsValid p r session path v
  Step-IsValid {r} (saves session path) v = reconcile_save-IsValid p r session path v
  Step-IsValid {r} (renames session a b) v = rename_path-IsValid p r session a b v
  Step-IsValid {r} (deletes session path m) v = delete_path_for_member-IsValid p r session path m v
  Step-IsValid {r} (expires session device) v = expire_by_device-IsValid r session device v
  Step-IsValid {r} (restores session intents h) v = restore-IsValid r session intents v h
  Step-IsValid {r} (marks session path) v = tracked-IsValid p r (session_key p session) _ v
  Step-IsValid {r} (seeds session paths) v = tracked-IsValid p r (session_key p session) _ v

  Reach-IsValid : {r s : IntentRegistry} → Reach r s → IsValid r → IsValid s
  Reach-IsValid here v = v
  Reach-IsValid (next d e) v = Step-IsValid e (Reach-IsValid d v)

  new_registry-IsValid : (c : Option CaseSensitivity) → IsValid (new_registry c)
  unfolding stored_at intents_at JsMap.get_or JsMap.get
  new_registry-IsValid c k id s h = absurd (ground (arith, h))

  -- In every registry that a sequence of calls makes out of an empty one, where every intent that a
  -- call restores has canonical paths already, each intent is stored under its own id, and all paths
  -- that it plans to modify or create are canonical.
  pub reachable-IsValid :
      (c : Option CaseSensitivity) (r : IntentRegistry) → Reach (new_registry c) r → IsValid r
  reachable-IsValid c r d = Reach-IsValid d (new_registry-IsValid c)
