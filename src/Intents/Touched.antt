-- ===== src/Intents/Touched.antt =====
-- Created, saved, renamed and deleted files and expired devices keep the invariant of the intents.
use multi_agentic_workflow.Base.{
  ◌≡◌, refl, subst, List, [], ◌∷◌, Option, none, some, Bool, arith, inl, inr, if◌then◌else◌,
  Bool-cases, length, ◌==◌,
}
use multi_agentic_workflow.Base.Text.{Text, text_eq}
use multi_agentic_workflow.Base.JsMap
use multi_agentic_workflow.Base.JsMap.{JsMap, get-delete}
use multi_agentic_workflow.Protocol.{Platform, SessionId, MemberRef}
use multi_agentic_workflow.Session.{session_key}
use multi_agentic_workflow.RepoPath.{normalize_path}
use multi_agentic_workflow.RepoPath.Canonical.{normalize_path_idem}
use multi_agentic_workflow.Intents.State.{
  IntentRegistry, StoredIntent, Intents, path_key, intents_at, put, put_tracked, stored_at,
  touch_each,
}
use multi_agentic_workflow.Intents.Reconcile.{
  reconcile_creation, created_in, without_creation, reconcile_save, saved_in,
  withdraw_planned_creation, withdraw_creation_found, withdraw_creation_of, rename_path, renamed_in,
  in_session, walk_session, in_tracked, change_tracked, delete_path_for_member, deleted_in,
  expire_each,
}
use multi_agentic_workflow.Intents.Stored.{if_some_inv, if_none_inv, intents_at-some, stored_at-put}
use multi_agentic_workflow.Intents.Invariant.{IsValid, IsFiled, set-IsValid, touch-IsValid}
use multi_agentic_workflow.Intents.Paths.{
  renamed-HasCanonicalPaths, deleted-HasCanonicalPaths, without-ArePlanned,
}
use multi_agentic_workflow.Intents.Kept.{open-IsValid, tracked-IsValid}

module _ (p : Platform) where
  created_in-IsFiled :
      (r : IntentRegistry) (key id : Text) (s t : StoredIntent)
      → IsFiled id s
      → created_in p r key s ≡ some t
      → IsFiled id t
  unfolding created_in
  created_in-IsFiled r key id s t f h =
      subst (IsFiled id) (if_none_inv _ _ t h)
        (f.0, (f.1.0, without-ArePlanned p r key s.intent.create_paths f.1.1))

  -- The tracked files are no part of the invariant.
  tracked_put-IsValid :
      (r : IntentRegistry) (k key : Text) (files : List Text) (m : Intents)
      → IsValid (put r key m)
      → IsValid (put (put_tracked r k files) key m)
  unfolding put put_tracked stored_at intents_at
  tracked_put-IsValid r k key files m v = v

  pub reconcile_creation-IsValid :
      (r : IntentRegistry) (session : SessionId) (path : Text)
      → IsValid r
      → IsValid (reconcile_creation p r session path).0
  unfolding reconcile_creation
  reconcile_creation-IsValid r session path v =
      tracked_put-IsValid r _ _ _ _
        (touch-IsValid r v _ (session_key p session) (created_in-IsFiled r (path_key p r path)))

  saved_in-IsFiled :
      (r : IntentRegistry) (key path id : Text) (s t : StoredIntent)
      → IsFiled id s
      → saved_in p r key path s ≡ some t
      → IsFiled id t
  unfolding saved_in
  saved_in-IsFiled r key path id s t f h = subst (IsFiled id) (if_some_inv _ _ t h) f

  pub reconcile_save-IsValid :
      (r : IntentRegistry) (session : SessionId) (path : Text)
      → IsValid r
      → IsValid (reconcile_save p r session path).0
  unfolding reconcile_save
  reconcile_save-IsValid r session path v =
      touch-IsValid r v _ (session_key p session)
        (saved_in-IsFiled r (path_key p r path) (normalize_path path))

  withdraw_creation-IsValid :
      (r : IntentRegistry) (s_key id path : Text) (s : StoredIntent)
      → IsValid r
      → IsFiled id s
      → IsValid (withdraw_creation_of p r s_key id path s).0
  unfolding withdraw_creation_of
  withdraw_creation-IsValid r s_key id path s v f =
      elim (Bool-cases (
        length (without_creation p r (path_key p r path) s.intent.create_paths)
        == length s.intent.create_paths)) [
          | inl e ↦ rw e v
          | inr e ↦ rw e (
              set-IsValid r v s_key id _ (
                f.0,
                (f.1.0, without-ArePlanned p r (path_key p r path) s.intent.create_paths f.1.1),
              ))
        ]

  withdraw_creation_found-IsValid :
      (r : IntentRegistry) (s_key id path : Text) (m : MemberRef) (o : Option StoredIntent)
      → IsValid r
      → ((s : StoredIntent) → o ≡ some s → IsFiled id s)
      → IsValid (withdraw_creation_found p r s_key id path m o).0
  unfolding withdraw_creation_found
  withdraw_creation_found-IsValid r s_key id path m none v f = v
  withdraw_creation_found-IsValid r s_key id path m (some s) v f =
      elim (Bool-cases (text_eq s.intent.owner.member_id m.member_id)) [
        | inl e ↦ rw e (withdraw_creation-IsValid r s_key id path s v (f s refl))
        | inr e ↦ rw e v
      ]

  pub withdraw_planned_creation-IsValid :
      (r : IntentRegistry) (session : SessionId) (id path : Text) (m : MemberRef)
      → IsValid r
      → IsValid (withdraw_planned_creation p r session id path m).0
  unfolding withdraw_planned_creation stored_at
  withdraw_planned_creation-IsValid r session id path m v =
      withdraw_creation_found-IsValid _ _ id path m _ (open-IsValid p r (session_key p session) v)
        (v (session_key p session) id)

  walk_session-IsValid :
      (r : IntentRegistry) (key : Text) (change : StoredIntent → Option StoredIntent)
      (o : Option Intents)
      → JsMap.get key r.sessions ≡ o
      → IsValid r
      → ((id : Text) (s t : StoredIntent) → IsFiled id s → change s ≡ some t → IsFiled id t)
      → IsValid (walk_session p r key change o).0
  unfolding walk_session
  walk_session-IsValid r key change none e v keep = v
  walk_session-IsValid r key change (some m) e v keep =
      subst (λ l. IsValid (put r key (touch_each change l).0)) (intents_at-some r key m e)
        (touch-IsValid r v change key keep)

  in_session-IsValid :
      (r : IntentRegistry) (key : Text) (change : StoredIntent → Option StoredIntent)
      → IsValid r
      → ((id : Text) (s t : StoredIntent) → IsFiled id s → change s ≡ some t → IsFiled id t)
      → IsValid (in_session p r key change).0
  unfolding in_session
  in_session-IsValid r key change v keep = walk_session-IsValid r key change _ refl v keep

  change_tracked-IsValid :
      (r : IntentRegistry) (key : Text) (change : List Text → List Text) (o : Option (List Text))
      → IsValid r
      → IsValid (change_tracked p r key change o)
  unfolding change_tracked
  change_tracked-IsValid r key change none v = v
  change_tracked-IsValid r key change (some files) v = tracked-IsValid p r key (change files) v

  in_tracked-IsValid :
      (r : IntentRegistry) (key : Text) (change : List Text → List Text)
      → IsValid r
      → IsValid (in_tracked p r key change)
  unfolding in_tracked
  in_tracked-IsValid r key change v = change_tracked-IsValid r key change _ v

  renamed_in-IsFiled :
      (r : IntentRegistry) (from_key to_path id : Text) (s t : StoredIntent)
      → IsFiled id s
      → renamed_in p r from_key (normalize_path to_path) s ≡ some t
      → IsFiled id t
  unfolding renamed_in
  renamed_in-IsFiled r from_key to_path id s t f h = subst (IsFiled id) (if_some_inv _ _ t h) (
    f.0,
    renamed-HasCanonicalPaths p r from_key (normalize_path to_path) (normalize_path_idem to_path)
        s.intent f.1,
  )

  pub rename_path-IsValid :
      (r : IntentRegistry) (session : SessionId) (from_path to_path : Text)
      → IsValid r
      → IsValid (rename_path p r session from_path to_path).0
  unfolding rename_path
  rename_path-IsValid r session from_path to_path v = in_tracked-IsValid _ _ _ (
      in_session-IsValid r (session_key p session) _ v
        (renamed_in-IsFiled r (path_key p r from_path) to_path))

  if_three_inv :
      (a b : Bool) (x t : StoredIntent)
      → (if a then none else if b then none else some x) ≡ some t
      → x ≡ t
  if_three_inv a b x t h = ground (arith, h)

  deleted_in-IsFiled :
      (r : IntentRegistry) (key path : Text) (m : MemberRef) (id : Text) (s t : StoredIntent)
      → IsFiled id s
      → deleted_in p r key path m s ≡ some t
      → IsFiled id t
  unfolding deleted_in
  deleted_in-IsFiled r key path m id s t f h =
      subst (IsFiled id) (if_three_inv _ _ _ t h)
        (f.0, deleted-HasCanonicalPaths p r key s.intent f.1)

  pub delete_path_for_member-IsValid :
      (r : IntentRegistry) (session : SessionId) (path : Text) (m : MemberRef)
      → IsValid r
      → IsValid (delete_path_for_member p r session path m).0
  unfolding delete_path_for_member
  delete_path_for_member-IsValid r session path m v = in_tracked-IsValid _ _ _ (
      in_session-IsValid r (session_key p session) _ v
        (deleted_in-IsFiled r (path_key p r path) (normalize_path path) m))

  delete_from-IsValid :
      (r : IntentRegistry) (key id : Text) (m : Intents)
      → IsValid (put r key m)
      → IsValid (put r key (JsMap.delete id m))
  delete_from-IsValid r key id m v k id' s h = v k id' s (
      ground (
        arith,
        stored_at-put r key k id' m,
        stored_at-put r key k id' (JsMap.delete id m),
        get-delete id id' m,
        h,
      ))

  -- `m` is what the session holds while the loop deletes from it.
  pub expire_each-IsValid :
      (r : IntentRegistry) (key device : Text) (entries m : Intents)
      → IsValid (put r key m)
      → IsValid (put r key (expire_each p device entries m).0)
  unfolding expire_each
  expire_each-IsValid r key device [] m v = v
  expire_each-IsValid r key device ((id, s) ∷ rest) m v =
      elim (Bool-cases (text_eq s.intent.owner.device_id device)) [
        | inl e ↦ rw e (
            expire_each-IsValid r key device rest (JsMap.delete id m)
              (delete_from-IsValid r key id m v))
        | inr e ↦ rw e (expire_each-IsValid r key device rest m v)
      ]
