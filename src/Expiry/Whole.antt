-- ===== src/Expiry/Whole.antt =====
-- The whole sweep: it returns, and numbers its updates one by one.
use multi_agentic_workflow.Base.{
  ℕ, ◌+◌, ◌≤◌, ◌≡◌, refl, subst, List, [], ◌∷◌, ◌++◌, map, Option, none, some, arith, length,
}
use multi_agentic_workflow.Base.Text.{Text}
use multi_agentic_workflow.Protocol.{
  Platform, SessionId, Lock, Presence, DeclaredIntent, CoordinationUpdate, EntryType, intent,
  planned_file_creation,
}
use multi_agentic_workflow.Revisions.{RevisionCounter, next, highest}
use multi_agentic_workflow.Presence.{PresenceRegistry}
use multi_agentic_workflow.Locks.Upkeep
use multi_agentic_workflow.Intents.Reconcile
use multi_agentic_workflow.Expiry.{ExpirySweepResult, stale_devices, report_removals}
use multi_agentic_workflow.Expiry.Reported.{
  Follows, Reported, Reported-nil, Reported-cons, Reported-append, report_removals-Reported,
  promoted_lock_updates-Reported,
}
use multi_agentic_workflow.Expiry.Devices.{
  World, intent_update, presence_update, report_paths, report_intents, end_presence, finish,
  sweep_device, join_round, sweep_devices, report_sweep, sweep,
}
use multi_agentic_workflow.Expiry.Returns.{Bounded, Bounded-mono, stop_active-Ended}

module _ (p : Platform) (session : SessionId) where
  -- The presence registry, if there is one, is not ahead of the counter.
  abbrev pub IsBehind : RevisionCounter → Option PresenceRegistry → Type 0
  IsBehind c none = Unit {0}
  IsBehind c (some r) = Bounded p session (highest p c session) r

  Reported-le :
      (c : RevisionCounter) (d : RevisionCounter × List CoordinationUpdate)
      → Reported p session c d
      → highest p c session ≤ highest p d.0 session
  unfolding Reported
  Reported-le c d h = omega (arith, h.1)

  IsBehind-mono :
      (c d : RevisionCounter) (o : Option PresenceRegistry)
      → highest p c session ≤ highest p d session
      → IsBehind c o
      → IsBehind d o
  IsBehind-mono c d none h b = tt
  IsBehind-mono c d (some r) h b =
      Bounded-mono p session (highest p c session) (highest p d session) r h b

  report_paths-Reported :
      (entry : EntryType) (i : DeclaredIntent) (c : RevisionCounter) (paths : List Text)
      → Reported p session c (report_paths p session entry i c paths)
  unfolding report_paths
  report_paths-Reported entry i c [] = Reported-nil p session c
  report_paths-Reported entry i c (path ∷ paths) =
      Reported-cons p session c (intent_update entry i path (next p c session).1) _ refl
        (report_paths-Reported entry i (next p c session).0 paths)

  report_intents-Reported :
      (c : RevisionCounter) (is : List DeclaredIntent)
      → Reported p session c (report_intents p session c is)
  unfolding report_intents
  report_intents-Reported c [] = Reported-nil p session c
  report_intents-Reported c (i ∷ is) =
      let modified = report_paths p session intent i c i.modify_paths in
      let created =
        report_paths p session planned_file_creation i modified.0
          (map (λ x. x.path) i.create_paths) in
      Reported-append p session c modified (_, created.1 ++ _)
        (report_paths-Reported intent i c i.modify_paths)
        (Reported-append p session modified.0 created (report_intents p session created.0 is)
          (report_paths-Reported planned_file_creation i modified.0
            (map (λ x. x.path) i.create_paths))
          (report_intents-Reported created.0 is))

  EndsWell :
      RevisionCounter
      → (Option PresenceRegistry × RevisionCounter) × Option (List Presence)
      → Type 0
  EndsWell c d =
      (l : List Presence) × (d.1 ≡ some l)
      × Reported p session c (d.0.1, map presence_update l)
      × IsBehind d.0.1 d.0.0

  end_presence-EndsWell :
      (device : Text) (o : Option PresenceRegistry) (c : RevisionCounter)
      → IsBehind c o
      → EndsWell c (end_presence p session device o c)
  unfolding end_presence EndsWell
  end_presence-EndsWell device none c h = ([], refl, Reported-nil p session c, tt)
  end_presence-EndsWell device (some r) c h = stop_active-Ended p session r c device h

  abbrev Done : Type 0
  Done = World × Option (List Lock × List CoordinationUpdate)

  IsGood : RevisionCounter → Done → Type 0
  IsGood c d =
      (x : List Lock × List CoordinationUpdate) × (d.1 ≡ some x)
      × Reported p session c (d.0.revisions, x.1)
      × IsBehind d.0.revisions d.0.presences

  finish-IsGood :
      (c : RevisionCounter) (w : World) (device : Text) (released : List Lock)
      (updates : List CoordinationUpdate) (o : Option (List Presence)) (l : List Presence)
      → o ≡ some l
      → Reported p session c (w.revisions, updates ++ map presence_update l)
      → IsBehind w.revisions w.presences
      → IsGood c (finish p session w device released updates o)
  unfolding finish IsGood
  finish-IsGood c w device released updates none l e h b = absurd (ground (arith, e))
  finish-IsGood c w device released updates (some k) l e h b =
      let same : l ≡ k = ground (arith, e) in
      (
        _,
        refl,
        subst (λ m. Reported p session c (w.revisions, updates ++ map presence_update m)) same h,
        b,
      )

  sweep_device-IsGood :
      (w : World) (device : Text)
      → IsBehind w.revisions w.presences
      → IsGood w.revisions (sweep_device p session w device)
  unfolding sweep_device EndsWell
  sweep_device-IsGood w device h =
      let released = Upkeep.expire_by_device p w.locks session device in
      let for_locks = report_removals p session w.revisions released.1 in
      let gone = Reconcile.expire_by_device p w.intents session device in
      let for_intents = report_intents p session for_locks.0 gone.1 in
      let both =
        Reported-append p session w.revisions for_locks for_intents
          (report_removals-Reported p session w.revisions released.1)
          (report_intents-Reported for_locks.0 gone.1) in
      let behind =
        IsBehind-mono w.revisions for_intents.0 w.presences
          (Reported-le w.revisions (for_intents.0, for_locks.1 ++ for_intents.1) both) h in
      let (l, e, told, bound) = end_presence-EndsWell device w.presences for_intents.0 behind in
      finish-IsGood w.revisions _ device released.1 (for_locks.1 ++ for_intents.1) _ l e
        (Reported-append p session w.revisions (for_intents.0, for_locks.1 ++ for_intents.1) _ both
          told)
        bound

  join_round-IsGood :
      (c : RevisionCounter) (a b : Done)
      → IsGood c a
      → IsGood a.0.revisions b
      → IsGood c (join_round p session a b)
  unfolding join_round IsGood
  join_round-IsGood c (w, none) b (x, e, _, _) k = absurd (ground (arith, e))
  join_round-IsGood c (w, some f) (v, none) g (y, e, _, _) = absurd (ground (arith, e))
  join_round-IsGood c (w, some f) (v, some l) (x, e, h, _) (y, d, k, bound) =
      let a : x ≡ f = ground (arith, e) in
      let b : y ≡ l = ground (arith, d) in
      (
        _,
        refl,
        Reported-append p session c (w.revisions, f.1) (v.revisions, l.1)
            (subst (λ z. Reported p session c (w.revisions, z.1)) a h)
            (subst (λ z. Reported p session w.revisions (v.revisions, z.1)) b k),
        bound,
      )

  IsBehind-after :
      (c : RevisionCounter) (d : Done) → IsGood c d → IsBehind d.0.revisions d.0.presences
  unfolding IsGood
  IsBehind-after c d (x, e, h, b) = b

  nothing-IsGood :
      (w : World) → IsBehind w.revisions w.presences → IsGood w.revisions (w, some ([], []))
  unfolding IsGood
  nothing-IsGood w h = (([], []), refl, Reported-nil p session w.revisions, h)

  sweep_devices-IsGood :
      (w : World) (devices : List Text)
      → IsBehind w.revisions w.presences
      → IsGood w.revisions (sweep_devices p session w devices)
  unfolding sweep_devices
  sweep_devices-IsGood w [] h = nothing-IsGood w h
  sweep_devices-IsGood w (d ∷ ds) h =
      let round = sweep_device p session w d in
      let good = sweep_device-IsGood w d h in
      join_round-IsGood w.revisions round (sweep_devices p session round.0 ds) good
        (sweep_devices-IsGood round.0 ds (IsBehind-after w.revisions round good))

  Told : RevisionCounter → World × Option ExpirySweepResult → Type 0
  Told c d =
      (result : ExpirySweepResult) × (d.1 ≡ some result)
      × Reported p session c (d.0.revisions, result.removals ++ result.promotions)

  report_sweep-Told :
      (c : RevisionCounter) (devices : List Text) (d : Done)
      → IsGood c d
      → Told c (report_sweep p session devices d)
  unfolding report_sweep IsGood Told
  report_sweep-Told c devices (w, none) (x, e, _, _) = absurd (ground (arith, e))
  report_sweep-Told c devices (w, some f) (x, e, h, _) =
      let a : x ≡ f = ground (arith, e) in
      (
        _,
        refl,
        Reported-append p session c (w.revisions, f.1) _
            (subst (λ z. Reported p session c (w.revisions, z.1)) a h)
            (promoted_lock_updates-Reported p w.locks session w.revisions [] f.0),
      )

  -- When no presence entry of the session has a revision above the counter, a sweep returns: no
  -- RangeError leaves it. Its removals and then its promotions carry the revisions that follow the
  -- highest one, one by one, and the counter ends at the last of them.
  pub sweep_returns :
      (w : World) (now : ℕ)
      → IsBehind w.revisions w.presences
      → (result : ExpirySweepResult) × ((sweep p session w now).1 ≡ some result)
        × Follows (highest p w.revisions session) (result.removals ++ result.promotions)
        × (highest p (sweep p session w now).0.revisions session
            ≡ highest p w.revisions session + length (result.removals ++ result.promotions))
  unfolding sweep Told Reported
  sweep_returns w now h =
      let devices = stale_devices p w.engine session now in
      let (result, e, told) =
        report_sweep-Told w.revisions devices (sweep_devices p session w devices)
          (sweep_devices-IsGood w devices h) in
      (result, e, told.0, told.1)
