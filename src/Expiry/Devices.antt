-- ===== src/Expiry/Devices.antt =====
-- `sweep` of packages/core-state/src/expiry.ts: the release of everything that the devices without
-- a recent heartbeat hold, with what the engine shares: locks, intents, presence and revisions.
use multi_agentic_workflow.Base.{ℕ, List, [], ◌∷◌, ◌++◌, map, Option, none, some}
use multi_agentic_workflow.Base.Text.{Text}
use multi_agentic_workflow.Protocol.{
  Platform, SessionId, Lock, Presence, DeclaredIntent, CoordinationUpdate, removed, EntryType,
  presence, intent, planned_file_creation,
}
use multi_agentic_workflow.Revisions.{RevisionCounter, next}
use multi_agentic_workflow.Locks.{LockRegistry}
use multi_agentic_workflow.Locks.Upkeep
use multi_agentic_workflow.Intents.State.{IntentRegistry}
use multi_agentic_workflow.Intents.Reconcile
use multi_agentic_workflow.Presence.{PresenceRegistry, stop_active_for_device}
use multi_agentic_workflow.Expiry.{
  ExpiryEngine, ExpirySweepResult, stale_devices, forget_device, report_removals,
  promoted_lock_updates,
}

-- The engine and the registries that it was constructed with; presence is optional.
pub record World : Type 0 where
  pub engine : ExpiryEngine
  pub locks : LockRegistry
  pub intents : IntentRegistry
  pub presences : Option PresenceRegistry
  pub revisions : RevisionCounter

abbrev pub intent_update : EntryType → DeclaredIntent → Text → ℕ → CoordinationUpdate
intent_update entry i path revision = record {
  entry_type = entry;
  op = removed;
  path = some path;
  member = i.owner;
  event_revision = revision;
  intent = some (record { intent_id = i.intent_id; description = i.description });
}

abbrev pub presence_update : Presence → CoordinationUpdate
presence_update e = record {
  entry_type = presence;
  op = removed;
  path = some e.path;
  member = e.member;
  event_revision = e.event_revision;
  intent = none;
}

module _ (p : Platform) (session : SessionId) where
  -- One path after another of an expired intent.
  unfoldable pub report_paths :
      EntryType
      → DeclaredIntent
      → RevisionCounter
      → List Text
      → RevisionCounter × List CoordinationUpdate
  report_paths entry i c [] = (c, [])
  report_paths entry i c (path ∷ paths) =
      let n = next p c session in
      let rest = report_paths entry i n.0 paths in (rest.0, intent_update entry i path n.1 ∷ rest.1)

  unfoldable pub report_intents :
      RevisionCounter → List DeclaredIntent → RevisionCounter × List CoordinationUpdate
  unfolding report_paths
  report_intents c [] = (c, [])
  report_intents c (i ∷ is) =
      let modified = report_paths intent i c i.modify_paths in
      let created =
        report_paths planned_file_creation i modified.0 (map (λ x. x.path) i.create_paths) in
      let rest = report_intents created.0 is in (rest.0, modified.1 ++ (created.1 ++ rest.1))

  -- The allocator that the sweep hands to the presence registry.
  unfoldable pub allocate : RevisionCounter → Presence → RevisionCounter × Option ℕ
  allocate c e = ((next p c session).0, some (next p c session).1)

  -- The presence registry and the counter after a device's presence has ended, and what was ended;
  -- `none` is the RangeError of a revision that is not newer.
  unfoldable pub end_presence :
      Text
      → Option PresenceRegistry
      → RevisionCounter
      → (Option PresenceRegistry × RevisionCounter) × Option (List Presence)
  unfolding allocate
  end_presence device none c = ((none, c), some [])
  end_presence device (some r) c =
      let done = stop_active_for_device p allocate r c session device in
      ((some done.0.0, done.0.1), done.1)

  -- The end of the round: the device's heartbeat is dropped, unless an error has left the loop.
  unfoldable pub finish :
      World
      → Text
      → List Lock
      → List CoordinationUpdate
      → Option (List Presence)
      → World × Option (List Lock × List CoordinationUpdate)
  finish w device released updates none = (w, none)
  finish w device released updates (some ended) = (
    record w { engine = forget_device p w.engine session device },
    some (released, updates ++ map presence_update ended),
  )

  -- One round of the loop over the stale devices.
  unfoldable pub sweep_device : World → Text → World × Option (List Lock × List CoordinationUpdate)
  unfolding report_intents end_presence finish
  sweep_device w device =
      let released = Upkeep.expire_by_device p w.locks session device in
      let for_locks = report_removals p session w.revisions released.1 in
      let gone = Reconcile.expire_by_device p w.intents session device in
      let for_intents = report_intents for_locks.0 gone.1 in
      let ended = end_presence device w.presences for_intents.0 in
      finish
        (record {
          engine = w.engine;
          locks = released.0;
          intents = gone.0;
          presences = ended.0.0;
          revisions = ended.0.1;
        })
        device released.1 (for_locks.1 ++ for_intents.1) ended.1

  -- A round that has ended well, with its locks and updates in front of those of the later rounds.
  unfoldable pub join_round :
      World × Option (List Lock × List CoordinationUpdate)
      → World × Option (List Lock × List CoordinationUpdate)
      → World × Option (List Lock × List CoordinationUpdate)
  join_round (w, none) later = (w, none)
  join_round (w, some first) (v, none) = (v, none)
  join_round (w, some first) (v, some later) = (v, some (first.0 ++ later.0, first.1 ++ later.1))

  unfoldable pub sweep_devices :
      World → List Text → World × Option (List Lock × List CoordinationUpdate)
  unfolding sweep_device join_round
  sweep_devices w [] = (w, some ([], []))
  sweep_devices w (device ∷ devices) =
      let round = sweep_device w device in join_round round (sweep_devices round.0 devices)

  unfoldable pub report_sweep :
      List Text
      → World × Option (List Lock × List CoordinationUpdate)
      → World × Option ExpirySweepResult
  report_sweep devices (w, none) = (w, none)
  report_sweep devices (w, some (released, removals)) =
      let new = promoted_lock_updates p w.locks session w.revisions [] released in
      (
        record w { revisions = new.0 },
        some (record { removals = removals; promotions = new.1; expired_devices = devices }),
      )

  unfoldable pub sweep : World → ℕ → World × Option ExpirySweepResult
  unfolding sweep_devices report_sweep
  sweep w now =
      let devices = stale_devices p w.engine session now in
      report_sweep devices (sweep_devices w devices)
