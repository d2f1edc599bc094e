-- ===== src/Intents/State.antt =====
-- The state of the intent registry of packages/core-state/src/intents.ts, and the loops over the
-- stored intents of a session that mutate some of them in place.
use multi_agentic_workflow.Base.{List, [], ◌∷◌, Option, none, some, Bool}
use multi_agentic_workflow.Base.Text.{Text}
use multi_agentic_workflow.Base.JsMap
use multi_agentic_workflow.Base.JsMap.{JsMap}
use multi_agentic_workflow.Base.JsSet
use multi_agentic_workflow.Protocol.{Platform, SessionId, DeclaredIntent}
use multi_agentic_workflow.Session.{session_key}
use multi_agentic_workflow.RepoPath.{CaseSensitivity, normalize_path_key}

-- `in_progress` is a set.
pub record StoredIntent : Type 0 where
  pub intent : DeclaredIntent
  pub in_progress : List Text

abbrev pub Intents : Type 0
Intents = JsMap StoredIntent

-- The tracked files of a session are a set of path keys.
pub record IntentRegistry : Type 0 where
  pub sensitivity : Option CaseSensitivity
  pub sessions : JsMap Intents
  pub tracked : JsMap (List Text)

abbrev pub new_registry : Option CaseSensitivity → IntentRegistry
new_registry s = record { sensitivity = s; sessions = []; tracked = [] }

unfoldable pub path_key : Platform → IntentRegistry → Text → Text
path_key p r path = normalize_path_key p r.sensitivity path

-- `intentsFor` and `trackedFor`: what is stored under a session's key, or a fresh collection.
unfoldable pub intents_at : IntentRegistry → Text → Intents
intents_at r key = JsMap.get_or key [] r.sessions

unfoldable pub tracked_at : IntentRegistry → Text → List Text
tracked_at r key = JsMap.get_or key [] r.tracked

unfoldable pub stored_at : IntentRegistry → Text → Text → Option StoredIntent
stored_at r key id = JsMap.get id (intents_at r key)

-- A session's collection is one object: writing it back is what its mutation amounts to.
unfoldable pub put : IntentRegistry → Text → Intents → IntentRegistry
put r key intents = record r { sessions = JsMap.set key intents r.sessions }

unfoldable pub put_tracked : IntentRegistry → Text → List Text → IntentRegistry
put_tracked r key files = record r { tracked = JsMap.set key files r.tracked }

unfoldable pub mark_tracked : Platform → IntentRegistry → SessionId → Text → IntentRegistry
mark_tracked p r session path =
    let key = session_key p session in
    put_tracked r key (JsSet.add (tracked_at r key) (path_key p r path))

-- The loop of `setTrackedFiles`.
add_files : Platform → IntentRegistry → List Text → List Text → List Text
add_files p r [] files = files
add_files p r (path ∷ paths) files = add_files p r paths (JsSet.add files (path_key p r path))

unfoldable pub set_tracked_files :
    Platform → IntentRegistry → SessionId → List Text → IntentRegistry
unfolding add_files
set_tracked_files p r session paths =
    let key = session_key p session in put_tracked r key (add_files p r paths (tracked_at r key))

unfoldable pub is_tracked : Platform → IntentRegistry → SessionId → Text → Bool
is_tracked p r session path = JsSet.has (tracked_at r (session_key p session)) (path_key p r path)

-- One stored intent in a loop over `intents.values()`: changed and reported, or left alone.
unfoldable pub touch :
    Text
    → StoredIntent
    → Option StoredIntent
    → Intents × List DeclaredIntent
    → Intents × List DeclaredIntent
touch id stored none rest = ((id, stored) ∷ rest.0, rest.1)
touch id stored (some changed) rest = ((id, changed) ∷ rest.0, changed.intent ∷ rest.1)

-- The intents after such a loop, and those that it reports.
unfoldable pub touch_each :
    (StoredIntent → Option StoredIntent) → Intents → Intents × List DeclaredIntent
touch_each change [] = ([], [])
touch_each change ((id, stored) ∷ rest) = touch id stored (change stored) (touch_each change rest)
