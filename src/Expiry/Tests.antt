-- ===== src/Expiry/Tests.antt =====
-- The theorems on expiry, at an engine with one heartbeat and a registry with two soft locks.
use multi_agentic_workflow.Base.{
  ℕ, ◌≤◌, ◌<◌, ◌+◌, ◌-◌, ◌*◌, ◌≡◌, refl, List, [], ◌∷◌, ◌++◌, map, Option, none, some, false,
  length, select, arith,
}
use multi_agentic_workflow.Base.Text.{Text, codes, text_eq}
use multi_agentic_workflow.Base.MapKeys.{HasKeys}
use multi_agentic_workflow.Protocol.{Platform, MemberRef, Lock, file, soft, removed}
use multi_agentic_workflow.Session.{session_key}
use multi_agentic_workflow.Fixtures.{platform, session, alice, bob}
use multi_agentic_workflow.Revisions.{highest}
use multi_agentic_workflow.Locks.Upkeep.{all_locks}
use multi_agentic_workflow.Expiry.{
  ExpiryConfig, ExpiryEngine, SweepState, table_for, expire_stale_soft_locks,
}
use multi_agentic_workflow.Base.JsSet
use multi_agentic_workflow.Protocol.{DeclaredIntent, editing}
use multi_agentic_workflow.Locks.Settled.{bare}
use multi_agentic_workflow.Intents.State.{intents_at, stored_at}
use multi_agentic_workflow.Expiry.{ExpirySweepResult, last_seen, stale_devices}
use multi_agentic_workflow.Expiry.Devices.{World, sweep}
use multi_agentic_workflow.Expiry.Reported.{Follows}
use multi_agentic_workflow.Expiry.Whole.{IsBehind, sweep_returns}
use multi_agentic_workflow.Expiry.Exact.{unless_any, spared, sweep-intents, sweep-locks}
use multi_agentic_workflow.Expiry.Forgotten.{IsSwept, stale_devices-sweep}
use multi_agentic_workflow.Expiry.Sweep.{
  expire_stale_soft_locks-Follows, shown, ArePicked, IsOldSoft, expire_stale_soft_locks-removals,
}

abbrev defaults : ExpiryConfig
defaults = record {
  heartbeat_interval_ms = 15000;
  lock_expiry_interval_ms = 45000;
  soft_lock_max_age_ms = 1800000;
}

abbrev engine : ExpiryEngine
engine = record {
  config = defaults;
  heartbeats = (session_key platform session, (codes "laptop", 1000) ∷ []) ∷ [];
}

-- A platform that reads every time as the epoch.
abbrev at_epoch : Platform
at_epoch = record platform { date_parse = λ t. some 0 }

abbrev claim : Text → MemberRef → ℕ → Lock
claim id holder revision = record {
  lock_id = id;
  scope = codes "a";
  scope_kind = file;
  mode = soft;
  holder = holder;
  branch = codes "main";
  event_revision = revision;
  acquired_at = [];
  concurrent = false;
}

abbrev state : SweepState
state = record {
  locks = record {
    sensitivity = none;
    sessions =
        (
          session_key platform session,
          (codes "k", claim (codes "l1") alice 3 ∷ [])
              ∷ (codes "m", claim (codes "l2") bob 4 ∷ [])
              ∷ [],
        )
        ∷ [];
  };
  revisions = record { counters = (session_key platform session, 4) ∷ [] };
}

expire_stale_soft_locks-Follows_example :
    Follows (highest at_epoch state.revisions session) (
      (expire_stale_soft_locks at_epoch engine state session 1800001).1.removals
      ++ (expire_stale_soft_locks at_epoch engine state session 1800001).1.promotions)
    × (highest at_epoch
          (expire_stale_soft_locks at_epoch engine state session 1800001).0.revisions
          session
        ≡ highest at_epoch state.revisions session
          + (length (expire_stale_soft_locks at_epoch engine state session 1800001).1.removals
              + length
                  (expire_stale_soft_locks at_epoch engine state session 1800001).1.promotions))
expire_stale_soft_locks-Follows_example =
    expire_stale_soft_locks-Follows at_epoch engine state session 1800001

expire_stale_soft_locks-removals_example :
    (gone : List Lock) × ArePicked
      (IsOldSoft at_epoch 1800000 1800001)
      (all_locks at_epoch state.locks session)
      gone
    × (map shown (expire_stale_soft_locks at_epoch engine state session 1800001).1.removals
        ≡ map (λ l. (removed, some l.scope, l.holder)) gone)
expire_stale_soft_locks-removals_example =
    expire_stale_soft_locks-removals at_epoch engine state session 1800001

keys : HasKeys (table_for engine (session_key platform session))
unfolding table_for multi_agentic_workflow.Base.JsMap.get_or multi_agentic_workflow.Base.JsMap.get
    multi_agentic_workflow.Base.Text.text_eq session_key
keys = (refl, tt)

abbrev alice_intent : DeclaredIntent
alice_intent = record {
  intent_id = codes "i";
  owner = alice;
  agent_id = codes "agent";
  modify_paths = codes "a" ∷ [];
  create_paths = record { path = codes "b" } ∷ [];
  scope_kind = file;
  branch = codes "main";
  description = codes "work";
  event_revision = 2;
}

abbrev here : Text
here = session_key platform session

-- Alice's device is stale from 46001 ms on; she holds a lock, an intent and a presence entry.
abbrev world : World
world = record {
  engine = engine;
  locks = state.locks;
  intents = record {
    sensitivity = none;
    sessions = (here, (codes "i", record { intent = alice_intent; in_progress = [] }) ∷ []) ∷ [];
    tracked = [];
  };
  presences = some (record {
    sensitivity = none;
    sessions =
        (
          here,
          (
            codes "k",
            record { member = alice; path = codes "a"; state = editing; event_revision = 1 },
          )
              ∷ [],
        )
        ∷ [];
  });
  revisions = state.revisions;
}

presence-IsBehind : IsBehind platform session world.revisions world.presences
unfolding multi_agentic_workflow.Presence.entries_at multi_agentic_workflow.Base.JsMap.get_or
    multi_agentic_workflow.Base.JsMap.get text_eq session_key highest
    multi_agentic_workflow.Revisions.highest_at
presence-IsBehind = omega arith

sweep_returns_example :
    (result : ExpirySweepResult) × ((sweep platform session world 50000).1 ≡ some result)
    × Follows (highest platform world.revisions session) (result.removals ++ result.promotions)
    × (highest platform (sweep platform session world 50000).0.revisions session
        ≡ highest platform world.revisions session + length (result.removals ++ result.promotions))
sweep_returns_example = sweep_returns platform session world 50000 presence-IsBehind

intent_keys : HasKeys (intents_at world.intents here)
unfolding intents_at multi_agentic_workflow.Base.JsMap.get_or multi_agentic_workflow.Base.JsMap.get
    text_eq session_key
intent_keys = (refl, tt)

sweep-intents_example :
    stored_at (sweep platform session world 50000).0.intents here (codes "i")
    ≡ unless_any
        (stale_devices platform world.engine session 50000)
        (stored_at world.intents here (codes "i"))
sweep-intents_example =
    sweep-intents platform session world 50000 (codes "i")
      (sweep_returns platform session world 50000 presence-IsBehind).0 intent_keys
      (sweep_returns platform session world 50000 presence-IsBehind).1

sweep-locks_example :
    map bare (all_locks platform (sweep platform session world 50000).0.locks session)
    ≡ map bare (
        select
          (spared platform session (stale_devices platform world.engine session 50000))
          (all_locks platform world.locks session))
sweep-locks_example =
    sweep-locks platform session world 50000
      (sweep_returns platform session world 50000 presence-IsBehind).0
      (sweep_returns platform session world 50000 presence-IsBehind).1

stale_devices-sweep_example :
    let after = (sweep platform session world 50000).0.engine in
    IsSwept platform session 45000 50000
      (last_seen platform engine session (codes "laptop"))
      (last_seen platform after session (codes "laptop"))
    × (JsSet.has (stale_devices platform after session 50000) (codes "laptop") ≡ false)
stale_devices-sweep_example =
    stale_devices-sweep platform session world 50000 (codes "laptop")
      (sweep_returns platform session world 50000 presence-IsBehind).0 keys
      (sweep_returns platform session world 50000 presence-IsBehind).1

laptop_is_stale : stale_devices platform engine session 50000 ≡ codes "laptop" ∷ []
unfolding stale_devices multi_agentic_workflow.Expiry.sort_texts
    multi_agentic_workflow.Expiry.stale_in table_for multi_agentic_workflow.Base.JsMap.get_or
    multi_agentic_workflow.Base.JsMap.get text_eq session_key multi_agentic_workflow.Expiry.is_stale
    multi_agentic_workflow.Expiry.insert_text
laptop_is_stale = refl
