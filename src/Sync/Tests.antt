-- ===== src/Sync/Tests.antt =====
-- A log of three updates, compacted up to the first, and an agent that has received two of them.
use multi_agentic_workflow.Base.{ℕ, ◌≡◌, refl, List, [], ◌∷◌, none, some, arith, false}
use multi_agentic_workflow.Base.Text.{Text, codes, text_eq}
use multi_agentic_workflow.Base.JsMap
use multi_agentic_workflow.Protocol.{
  nat, soft_lock, added, removed, UpdateOp, CoordinationUpdate, SessionStateSnapshot,
}
use multi_agentic_workflow.RepoPath.{normalize_path}
use multi_agentic_workflow.Session.{session_key}
use multi_agentic_workflow.Fixtures.{platform, session, alice}
use multi_agentic_workflow.Sync.Log.{EventLog, append, compact, sync_from, watermark_at}
use multi_agentic_workflow.Sync.Retained.{Logged, nothing, appended, compacted}
use multi_agentic_workflow.Sync.Cache.{
  new_cache, apply_each, apply_sync, highest_applied, cached_entries, apply_update,
}
use multi_agentic_workflow.Sync.Converge.{reconnect_converges}

abbrev lock_update : UpdateOp → Text → ℕ → CoordinationUpdate
lock_update op path revision = record {
  entry_type = soft_lock;
  op = op;
  path = some path;
  member = alice;
  event_revision = revision;
  intent = none;
}

abbrev first : CoordinationUpdate
first = lock_update added (codes "a") 1

abbrev second : CoordinationUpdate
second = lock_update added (codes "b") 2

abbrev third : CoordinationUpdate
third = lock_update removed (codes "a") 3

abbrev key : Text
key = session_key platform session

abbrev log_of : List CoordinationUpdate → ℕ → EventLog
log_of us n = record { logs = (key, us) ∷ []; compacted_through = (key, n) ∷ [] }

abbrev uncompacted : List CoordinationUpdate → EventLog
uncompacted us = record { logs = (key, us) ∷ []; compacted_through = [] }

one-Logged : Logged platform session (first ∷ []) (uncompacted (first ∷ []))
unfolding watermark_at JsMap.get_or JsMap.get append JsMap.set
one-Logged = appended first nothing tt (omega arith) refl

two-Logged : Logged platform session (first ∷ second ∷ []) (uncompacted (first ∷ second ∷ []))
unfolding watermark_at JsMap.get_or JsMap.get append text_eq session_key JsMap.set
two-Logged = appended second one-Logged (omega arith, tt) (omega arith) refl

two_compacted : Logged platform session (first ∷ second ∷ []) (log_of (second ∷ []) 1)
unfolding compact JsMap.get JsMap.set text_eq JsMap.get_or session_key
two_compacted = compacted 1 two-Logged refl

three-Logged :
    Logged platform session (first ∷ second ∷ third ∷ []) (log_of (second ∷ third ∷ []) 1)
unfolding watermark_at JsMap.get_or JsMap.get append text_eq session_key JsMap.set
three-Logged = appended third two_compacted (omega arith, (omega arith, tt)) (omega arith) refl

abbrev empty_snapshot : SessionStateSnapshot
empty_snapshot = record {
  session = session;
  locks = [];
  presences = [];
  intents = [];
  messages = none;
  tasks = none;
  notifications = none;
  diffs = none;
  highest_revision = 3;
}

reconnect_converges_example :
    apply_sync platform (apply_each platform session new_cache (first ∷ second ∷ [])) session (
      sync_from platform
        (log_of (second ∷ third ∷ []) 1)
        session
        (nat (
          highest_applied platform
            (apply_each platform session new_cache (first ∷ second ∷ []))
            session))
        empty_snapshot)
    ≡ record (apply_each platform session new_cache (first ∷ second ∷ third ∷ [])) { stale = false }
unfolding watermark_at highest_applied JsMap.get_or JsMap.get text_eq apply_update session_key
    JsMap.set
reconnect_converges_example =
    reconnect_converges platform session (log_of (second ∷ third ∷ []) 1) new_cache
      (first ∷ second ∷ []) (third ∷ []) empty_snapshot three-Logged (omega arith)

-- The agent that has caught up holds only the second lock.
caught_up :
    cached_entries platform
      (apply_each platform session new_cache (first ∷ second ∷ third ∷ []))
      session
    ≡ second ∷ []
unfolding cached_entries JsMap.get_or JsMap.get apply_update JsMap.set text_eq session_key
    JsMap.delete normalize_path
caught_up = refl
