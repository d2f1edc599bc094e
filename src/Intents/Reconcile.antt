-- ===== src/Intents/Reconcile.antt =====
-- What packages/core-state/src/intents.ts does to declared intents when files are created, saved,
-- renamed or deleted, and when a planned creation is withdrawn.
use multi_agentic_workflow.Base.{
  List, [], ◌∷◌, map, Option, none, some, Bool, not, ◌||◌, ◌&&◌, ◌==◌, if◌then◌else◌, select, any,
  length,
}
use multi_agentic_workflow.Base.Text.{Text, text_eq}
use multi_agentic_workflow.Base.JsMap
use multi_agentic_workflow.Base.JsMap.{JsMap}
use multi_agentic_workflow.Base.JsSet
use multi_agentic_workflow.Protocol.{
  Platform, SessionId, MemberRef, DeclaredIntent, PlannedFileCreation, ErrorCode, not_owner,
  not_found,
}
use multi_agentic_workflow.Session.{session_key}
use multi_agentic_workflow.RepoPath.{normalize_path}
use multi_agentic_workflow.Intents.State.{
  IntentRegistry, StoredIntent, Intents, path_key, intents_at, tracked_at, put, put_tracked,
  touch_each,
}
use multi_agentic_workflow.Intents.Claims.{plans_key}
use multi_agentic_workflow.Intents.{open_session}

pub record CreationReconciliation : Type 0 where
  pub tracked_added : Bool
  pub removed_from : List DeclaredIntent

pub data WithdrawCreationResult : Type 0 where
  creation_withdrawn : DeclaredIntent → Text → WithdrawCreationResult
  creation_kept : ErrorCode → WithdrawCreationResult

abbrev pub with_creations : StoredIntent → List PlannedFileCreation → StoredIntent
with_creations s creations = record s { intent = record s.intent { create_paths = creations } }

module _ (p : Platform) where
  unfoldable pub without_creation :
      IntentRegistry → Text → List PlannedFileCreation → List PlannedFileCreation
  without_creation r key = select (λ c. not (text_eq (path_key p r c.path) key))

  -- The round of `reconcileCreation` at a stored intent.
  unfoldable pub created_in : IntentRegistry → Text → StoredIntent → Option StoredIntent
  unfolding without_creation
  created_in r key s =
      let remaining = without_creation r key s.intent.create_paths in
      if length remaining == length s.intent.create_paths
      then none
      else some (with_creations s remaining)

  unfoldable pub reconcile_creation :
      IntentRegistry → SessionId → Text → IntentRegistry × CreationReconciliation
  unfolding created_in
  reconcile_creation r session path =
      let s_key = session_key p session in
      let key = path_key p r path in
      let files = tracked_at r s_key in
      let walked = touch_each (created_in r key) (intents_at r s_key) in
      (
        put (put_tracked r s_key (JsSet.add files key)) s_key walked.0,
        record { tracked_added = not (JsSet.has files key); removed_from = walked.1 },
      )

  -- The round of `reconcileSave`.
  unfoldable pub saved_in : IntentRegistry → Text → Text → StoredIntent → Option StoredIntent
  saved_in r key path s =
      if any (λ m. text_eq (path_key p r m) key) s.intent.modify_paths
      then some (record s { in_progress = JsSet.add s.in_progress path })
      else none

  unfoldable pub reconcile_save :
      IntentRegistry → SessionId → Text → IntentRegistry × List DeclaredIntent
  unfolding saved_in
  reconcile_save r session path =
      let s_key = session_key p session in
      let walked =
        touch_each (saved_in r (path_key p r path) (normalize_path path)) (intents_at r s_key) in
      (put r s_key walked.0, walked.1)

  unfoldable pub withdraw_creation_of :
      IntentRegistry → Text → Text → Text → StoredIntent → IntentRegistry × WithdrawCreationResult
  unfolding without_creation
  withdraw_creation_of r s_key id path s =
      let remaining = without_creation r (path_key p r path) s.intent.create_paths in
      if length remaining == length s.intent.create_paths then (r, creation_kept not_found) else (
        put r s_key (JsMap.set id (with_creations s remaining) (intents_at r s_key)),
        creation_withdrawn (with_creations s remaining).intent (normalize_path path),
      )

  unfoldable pub withdraw_creation_found :
      IntentRegistry
      → Text
      → Text
      → Text
      → MemberRef
      → Option StoredIntent
      → IntentRegistry × WithdrawCreationResult
  unfolding withdraw_creation_of
  withdraw_creation_found r s_key id path requester none = (r, creation_kept not_found)
  withdraw_creation_found r s_key id path requester (some s) =
      if not (text_eq s.intent.owner.member_id requester.member_id)
      then (r, creation_kept not_owner)
      else withdraw_creation_of r s_key id path s

  unfoldable pub withdraw_planned_creation :
      IntentRegistry → SessionId → Text → Text → MemberRef → IntentRegistry × WithdrawCreationResult
  unfolding withdraw_creation_found
  withdraw_planned_creation r session id path requester =
      let s_key = session_key p session in
      withdraw_creation_found (open_session p r s_key) s_key id path requester
        (JsMap.get id (intents_at r s_key))

  unfoldable pub renamed_path : IntentRegistry → Text → Text → Text → Text
  renamed_path r from_key target path =
      if text_eq (path_key p r path) from_key then target else path

  -- `[...new Set(paths)]`
  unfoldable pub distinct_onto : List Text → List Text → List Text
  distinct_onto seen [] = seen
  distinct_onto seen (path ∷ paths) = distinct_onto (JsSet.add seen path) paths

  -- The filter with `seenCreate`.
  unfoldable pub distinct_creations :
      IntentRegistry → List Text → List PlannedFileCreation → List PlannedFileCreation
  distinct_creations r seen [] = []
  distinct_creations r seen (c ∷ cs) =
      let dropped = distinct_creations r seen cs in
      let kept = distinct_creations r (JsSet.add seen (path_key p r c.path)) cs in
      if JsSet.has seen (path_key p r c.path) then dropped else c ∷ kept

  unfoldable pub refers_to : IntentRegistry → Text → DeclaredIntent → Bool
  refers_to r key i =
      any (λ m. text_eq (path_key p r m) key) i.modify_paths || plans_key p r key i.create_paths

  abbrev pub renamed_intent : IntentRegistry → Text → Text → DeclaredIntent → DeclaredIntent
  renamed_intent r from_key target i = record i {
    modify_paths = distinct_onto [] (map (renamed_path r from_key target) i.modify_paths);
    create_paths =
        distinct_creations r []
          (map (λ c. record { path = renamed_path r from_key target c.path }) i.create_paths);
  }

  -- The round of `renamePath`; `changed` is set when some path had the old key.
  unfoldable pub renamed_in : IntentRegistry → Text → Text → StoredIntent → Option StoredIntent
  unfolding refers_to renamed_path distinct_onto distinct_creations
  renamed_in r from_key target s =
      if refers_to r from_key s.intent
      then some (record s { intent = renamed_intent r from_key target s.intent })
      else none

  -- `files.delete(key)` on a set, which holds a key once.
  pub drop_file : List Text → Text → List Text
  drop_file files key = select (λ f. not (text_eq f key)) files

  pub follow_file : List Text → Text → Text → List Text
  unfolding drop_file
  follow_file files from_key to_key =
      if JsSet.has files from_key then JsSet.add (drop_file files from_key) to_key else files

  -- A loop over the session's intents, which makes no session where there is none.
  unfoldable pub walk_session :
      IntentRegistry
      → Text
      → (StoredIntent → Option StoredIntent)
      → Option Intents
      → IntentRegistry × List DeclaredIntent
  walk_session r s_key change none = (r, [])
  walk_session r s_key change (some intents) =
      (put r s_key (touch_each change intents).0, (touch_each change intents).1)

  unfoldable pub in_session :
      IntentRegistry
      → Text
      → (StoredIntent → Option StoredIntent)
      → IntentRegistry × List DeclaredIntent
  unfolding walk_session
  in_session r s_key change = walk_session r s_key change (JsMap.get s_key r.sessions)

  -- A change of the session's tracked files, if there are any.
  unfoldable pub change_tracked :
      IntentRegistry → Text → (List Text → List Text) → Option (List Text) → IntentRegistry
  change_tracked r s_key change none = r
  change_tracked r s_key change (some files) = put_tracked r s_key (change files)

  unfoldable pub in_tracked : IntentRegistry → Text → (List Text → List Text) → IntentRegistry
  unfolding change_tracked
  in_tracked r s_key change = change_tracked r s_key change (JsMap.get s_key r.tracked)

  unfoldable pub rename_path :
      IntentRegistry → SessionId → Text → Text → IntentRegistry × List DeclaredIntent
  unfolding renamed_in follow_file in_session in_tracked
  rename_path r session from_path to_path =
      let s_key = session_key p session in
      let from_key = path_key p r from_path in
      let walked = in_session r s_key (renamed_in r from_key (normalize_path to_path)) in
      (
        in_tracked walked.0 s_key (λ files. follow_file files from_key (path_key p r to_path)),
        walked.1,
      )

  abbrev pub deleted_intent : IntentRegistry → Text → DeclaredIntent → DeclaredIntent
  deleted_intent r key i = record i {
    modify_paths = select (λ m. not (text_eq (path_key p r m) key)) i.modify_paths;
    create_paths = without_creation r key i.create_paths;
  }

  -- The round of `deletePathForMember`.
  unfoldable pub deleted_in :
      IntentRegistry → Text → Text → MemberRef → StoredIntent → Option StoredIntent
  unfolding drop_file without_creation
  deleted_in r key path member s =
      let after = deleted_intent r key s.intent in
      if not (text_eq s.intent.owner.member_id member.member_id)
      then none
      else if length after.modify_paths == length s.intent.modify_paths
          && length after.create_paths == length s.intent.create_paths
      then none
      else some (record { intent = after; in_progress = drop_file s.in_progress path })

  unfoldable pub delete_path_for_member :
      IntentRegistry → SessionId → Text → MemberRef → IntentRegistry × List DeclaredIntent
  unfolding deleted_in drop_file in_session in_tracked
  delete_path_for_member r session path member =
      let s_key = session_key p session in
      let key = path_key p r path in
      let walked = in_session r s_key (deleted_in r key (normalize_path path) member) in
      (in_tracked walked.0 s_key (λ files. drop_file files key), walked.1)

  -- The loop over a copy of the entries, which deletes from the map itself.
  unfoldable pub expire_each : Text → Intents → Intents → Intents × List DeclaredIntent
  expire_each device [] intents = (intents, [])
  expire_each device ((id, s) ∷ rest) intents =
      let after_deletion = expire_each device rest (JsMap.delete id intents) in
      let kept = expire_each device rest intents in
      if text_eq s.intent.owner.device_id device
      then (after_deletion.0, s.intent ∷ after_deletion.1)
      else kept

  unfoldable pub expire_found :
      IntentRegistry → Text → Text → Option Intents → IntentRegistry × List DeclaredIntent
  unfolding expire_each
  expire_found r s_key device none = (r, [])
  expire_found r s_key device (some intents) =
      (put r s_key (expire_each device intents intents).0, (expire_each device intents intents).1)

  unfoldable pub expire_by_device :
      IntentRegistry → SessionId → Text → IntentRegistry × List DeclaredIntent
  unfolding expire_found
  expire_by_device r session device =
      let s_key = session_key p session in expire_found r s_key device (JsMap.get s_key r.sessions)

  -- The loop of `restore`.
  unfoldable pub reinstall : Intents → List DeclaredIntent → Intents
  reinstall intents [] = intents
  reinstall intents (i ∷ is) =
      reinstall (JsMap.set i.intent_id (record { intent = i; in_progress = [] }) intents) is

  unfoldable pub restore : IntentRegistry → SessionId → List DeclaredIntent → IntentRegistry
  unfolding reinstall
  restore r session intents = put r (session_key p session) (reinstall [] intents)
