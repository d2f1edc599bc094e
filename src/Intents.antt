-- ===== src/Intents.antt =====
-- packages/core-state/src/intents.ts: the registry of declared intents. A call returns the new
-- registry with its result.
pub mod State
pub mod Validate
pub mod Sound
pub mod Claims
pub mod Reconcile
pub mod Queries
pub mod Stored
pub mod Invariant
pub mod Paths
pub mod Kept
pub mod Touched
pub mod Reachable
pub mod Ownership
pub mod Winner
pub mod Declared
pub mod Effects
pub mod Moved
pub mod Expired
mod Tests
use multi_agentic_workflow.Base.{
  ℕ, List, [], ◌∷◌, ◌++◌, map, Option, none, some, Bool, true, false, not, if◌then◌else◌, select,
  any, length, push, ◌==◌,
}
use multi_agentic_workflow.Base.Text.{Text, text_eq}
use multi_agentic_workflow.Base.JsMap
use multi_agentic_workflow.Base.JsSet
use multi_agentic_workflow.Protocol.{
  Platform, SessionId, MemberRef, DeclaredIntent, PlannedFileCreation, ScopeKind, ErrorCode,
  format_error, not_owner, not_found,
}
use multi_agentic_workflow.Session.{session_key}
use multi_agentic_workflow.RepoPath.{normalize_path}
use State.{IntentRegistry, StoredIntent, Intents, intents_at, put, is_tracked, path_key}
use Validate.{validate}
use Claims.{CreationConflict, conflicts_for}

pub record DeclareRequest : Type 0 where
  pub session : SessionId
  pub intent_id : Text
  pub owner : MemberRef
  pub agent_id : Text
  pub modify_paths : List Text
  pub create_paths : List Text
  pub scope_kind : ScopeKind
  pub branch : Text
  pub description : Text
  pub event_revision : ℕ

pub record UpdateRequest : Type 0 where
  pub session : SessionId
  pub intent_id : Text
  pub requester : MemberRef
  pub modify_paths : List Text
  pub create_paths : List Text
  pub description : Text
  pub event_revision : ℕ

pub record WithdrawRequest : Type 0 where
  pub session : SessionId
  pub intent_id : Text
  pub requester : MemberRef

-- The paths of a request after reclassification; `reclassified` are those of the entries, whose
-- `as` and `reason` are constants.
pub record Resolved : Type 0 where
  pub modify : List Text
  pub create : List PlannedFileCreation
  pub reclassified : List Text

pub data DeclareResult : Type 0 where
  declared : DeclaredIntent → List Text → List CreationConflict → DeclareResult
  declare_failed : ErrorCode → List Text → DeclareResult

pub data WithdrawResult : Type 0 where
  withdrawn : DeclaredIntent → WithdrawResult
  withdraw_failed : ErrorCode → WithdrawResult

-- One planned path: one that is tracked already is a modification.
pub reclassify_one : Bool → Text → Resolved → Resolved
reclassify_one true path r = record r {
  modify = JsSet.add r.modify path;
  reclassified = push r.reclassified path;
}
reclassify_one false path r = record r { create = push r.create (record { path = path }) }

module _ (p : Platform) where
  pub reclassify_from : IntentRegistry → SessionId → Resolved → List Text → Resolved
  reclassify_from r session done [] = done
  reclassify_from r session done (raw ∷ raws) =
      reclassify_from r session
        (reclassify_one (is_tracked p r session raw) (normalize_path raw) done) raws

  pub reclassify : IntentRegistry → SessionId → List Text → List Text → Resolved
  reclassify r session modify_paths create_paths =
      reclassify_from r session
        (record { modify = map normalize_path modify_paths; create = []; reclassified = [] })
        create_paths

  -- Storing an intent, and what the call reports.
  pub record_intent :
      IntentRegistry → SessionId → StoredIntent → List Text → IntentRegistry × DeclareResult
  record_intent r session stored reclassified =
      let key = session_key p session in
      let after = put r key (JsMap.set stored.intent.intent_id stored (intents_at r key)) in
      (after, declared stored.intent reclassified (conflicts_for p after session stored.intent))

  abbrev pub requested : DeclareRequest → Resolved → DeclaredIntent
  requested q paths = record {
    intent_id = q.intent_id;
    owner = q.owner;
    agent_id = q.agent_id;
    modify_paths = paths.modify;
    create_paths = paths.create;
    scope_kind = q.scope_kind;
    branch = q.branch;
    description = q.description;
    event_revision = q.event_revision;
  }

  pub declare_valid : IntentRegistry → DeclareRequest → List Text → IntentRegistry × DeclareResult
  unfolding reclassify record_intent
  declare_valid r q [] =
      let paths = reclassify r q.session q.modify_paths q.create_paths in
      record_intent r q.session (record { intent = requested q paths; in_progress = [] })
        paths.reclassified
  declare_valid r q (e ∷ es) = (r, declare_failed format_error (e ∷ es))

  pub declare : IntentRegistry → DeclareRequest → IntentRegistry × DeclareResult
  unfolding declare_valid
  declare r q = declare_valid r q (validate q.modify_paths q.create_paths q.scope_kind)

  abbrev pub revised : UpdateRequest → Resolved → StoredIntent → StoredIntent
  revised q paths stored = record {
    intent = record stored.intent {
      modify_paths = paths.modify;
      create_paths = paths.create;
      description = q.description;
      event_revision = q.event_revision;
    };
    in_progress = select (JsSet.has paths.modify) stored.in_progress;
  }

  pub update_valid :
      IntentRegistry → UpdateRequest → StoredIntent → List Text → IntentRegistry × DeclareResult
  unfolding reclassify record_intent
  update_valid r q stored [] =
      let paths = reclassify r q.session q.modify_paths q.create_paths in
      record_intent r q.session (revised q paths stored) paths.reclassified
  update_valid r q stored (e ∷ es) = (r, declare_failed format_error (e ∷ es))

  pub update_found :
      IntentRegistry → UpdateRequest → Option StoredIntent → IntentRegistry × DeclareResult
  unfolding update_valid
  update_found r q none = (r, declare_failed not_found [])
  update_found r q (some stored) =
      if not (text_eq stored.intent.owner.member_id q.requester.member_id)
      then (r, declare_failed not_owner [])
      else update_valid r q stored (validate q.modify_paths q.create_paths stored.intent.scope_kind)

  -- `intentsFor`, which stores a session's map when there is none.
  pub open_session : IntentRegistry → Text → IntentRegistry
  open_session r key = put r key (intents_at r key)

  pub update : IntentRegistry → UpdateRequest → IntentRegistry × DeclareResult
  unfolding update_found open_session
  update r q =
      let key = session_key p q.session in
      update_found (open_session r key) q (JsMap.get q.intent_id (intents_at r key))

  unfoldable pub withdraw_found :
      IntentRegistry → WithdrawRequest → Option StoredIntent → IntentRegistry × WithdrawResult
  withdraw_found r q none = (r, withdraw_failed not_found)
  withdraw_found r q (some stored) =
      let key = session_key p q.session in
      if not (text_eq stored.intent.owner.member_id q.requester.member_id)
      then (r, withdraw_failed not_owner)
      else (put r key (JsMap.delete q.intent_id (intents_at r key)), withdrawn stored.intent)

  unfoldable pub withdraw : IntentRegistry → WithdrawRequest → IntentRegistry × WithdrawResult
  unfolding withdraw_found open_session
  withdraw r q =
      let key = session_key p q.session in
      withdraw_found (open_session r key) q (JsMap.get q.intent_id (intents_at r key))

  pub complete : IntentRegistry → WithdrawRequest → IntentRegistry × WithdrawResult
  unfolding withdraw
  complete r q = withdraw r q
