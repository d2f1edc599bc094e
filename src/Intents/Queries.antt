-- ===== src/Intents/Queries.antt =====
-- The queries of packages/core-state/src/intents.ts: which intents cover a path, and what is
-- stored.
use multi_agentic_workflow.Base.{
  List, [], ◌∷◌, ◌++◌, map, Option, none, some, Bool, ◌||◌, if◌then◌else◌, find,
}
use multi_agentic_workflow.Base.Text.{Text, codes, text_eq, starts_with}
use multi_agentic_workflow.Base.JsMap
use multi_agentic_workflow.Protocol.{
  Platform, SessionId, DeclaredIntent, ScopeKind, file, folder, glob,
}
use multi_agentic_workflow.Session.{session_key}
use multi_agentic_workflow.Rules.Glob.{glob_match}
use multi_agentic_workflow.Intents.State.{
  IntentRegistry, StoredIntent, path_key, intents_at, stored_at,
}

pub record CoveringIntent : Type 0 where
  pub intent : DeclaredIntent
  pub matched_scope : Text

module _ (p : Platform) where
  pub covers : IntentRegistry → Text → ScopeKind → Text → Bool
  unfolding starts_with
  covers r scope glob path = glob_match scope path
  covers r scope folder path =
      let s_key = path_key p r scope in
      let key = path_key p r path in text_eq key s_key || starts_with (s_key ++ codes "/") key
  covers r scope file path = text_eq (path_key p r scope) (path_key p r path)

  abbrev pub scopes_of : DeclaredIntent → List Text
  scopes_of i = i.modify_paths ++ map (λ c. c.path) i.create_paths

  pub covering_scope : IntentRegistry → Text → Text → DeclaredIntent → Option Text
  unfolding covers
  covering_scope r path branch i =
      if text_eq i.branch branch
      then find (λ scope. covers r scope i.scope_kind path) (scopes_of i)
      else none

  pub add_covering : DeclaredIntent → Option Text → List CoveringIntent → List CoveringIntent
  add_covering i none rest = rest
  add_covering i (some scope) rest = record { intent = i; matched_scope = scope } ∷ rest

  pub covering_from : IntentRegistry → Text → Text → List StoredIntent → List CoveringIntent
  unfolding covering_scope add_covering
  covering_from r path branch [] = []
  covering_from r path branch (s ∷ ss) =
      add_covering s.intent (covering_scope r path branch s.intent) (covering_from r path branch ss)

  unfoldable pub intents_covering : IntentRegistry → SessionId → Text → Text → List CoveringIntent
  unfolding covering_from
  intents_covering r session path branch =
      covering_from r path branch (JsMap.values (intents_at r (session_key p session)))

  unfoldable pub get_intent : IntentRegistry → SessionId → Text → Option DeclaredIntent
  unfolding stored_at
  get_intent r session id = elim (stored_at r (session_key p session) id) [
    | none ↦ none
    | some s ↦ some s.intent
  ]

  unfoldable pub in_progress_paths : IntentRegistry → SessionId → Text → List Text
  unfolding stored_at
  in_progress_paths r session id = elim (stored_at r (session_key p session) id) [
    | none ↦ []
    | some s ↦ s.in_progress
  ]

  unfoldable pub all_intents : IntentRegistry → SessionId → List DeclaredIntent
  all_intents r session = map (λ s. s.intent) (JsMap.values (intents_at r (session_key p session)))
