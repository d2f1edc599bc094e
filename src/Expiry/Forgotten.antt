-- ===== src/Expiry/Forgotten.antt =====
-- A sweep forgets the heartbeats of the devices that it has swept: none is stale afterwards.
use multi_agentic_workflow.Base.{
  ℕ, ◌+◌, ◌≤◌, ◌<◌, ◌⊎◌, ◌≡◌, refl, sym, ◌∙◌, ap, subst, inl, inr, List, [], ◌∷◌, Option, none,
  some, Bool, true, false, arith, ◌||◌, if◌then◌else◌, Bool-cases,
}
use multi_agentic_workflow.Base.Text.{Text, text_eq}
use multi_agentic_workflow.Base.JsMap
use multi_agentic_workflow.Base.JsMap.{JsMap, get-delete}
use multi_agentic_workflow.Base.JsSet
use multi_agentic_workflow.Base.MapKeys.{HasKeys, delete-HasKeys}
use multi_agentic_workflow.Protocol.{Platform, SessionId, Lock, Presence, CoordinationUpdate}
use multi_agentic_workflow.Session.{session_key}
use multi_agentic_workflow.Expiry.{
  ExpiryEngine, ExpirySweepResult, stale_devices, forget_device, forget_in, table_for, last_seen,
  is_stale,
}
use multi_agentic_workflow.Expiry.Heartbeats.{has-stale_devices, stale_at}
use multi_agentic_workflow.Expiry.Devices.{
  World, finish, sweep_device, join_round, sweep_devices, report_sweep, sweep,
}
use multi_agentic_workflow.Expiry.Exact.{Done, join_round-some}

module _ (p : Platform) (session : SessionId) where
  abbrev Seen : ExpiryEngine → JsMap ℕ
  Seen e = table_for e (session_key p session)

  found :
      (key : Text) (heartbeats : JsMap (JsMap ℕ)) (t : JsMap ℕ)
      → JsMap.get key heartbeats ≡ some t
      → JsMap.get_or key [] heartbeats ≡ t
  unfolding JsMap.get_or
  found key heartbeats t e = rw (JsMap.get_or, e) refl

  forget_in-table :
      (key device : Text) (heartbeats : JsMap (JsMap ℕ)) (o : Option (JsMap ℕ))
      → JsMap.get key heartbeats ≡ o
      → JsMap.get_or key [] (forget_in key device heartbeats o)
        ≡ JsMap.delete device (JsMap.get_or key [] heartbeats)
  unfolding forget_in JsMap.get_or JsMap.delete
  forget_in-table key device heartbeats none e = rw (JsMap.get_or, e) refl
  forget_in-table key device heartbeats (some t) e =
      JsMap.get_or-set_self key [] (JsMap.delete device t) heartbeats
      ∙ ap (JsMap.delete device) (sym (found key heartbeats t e))

  forget_device-Seen :
      (e : ExpiryEngine) (device : Text)
      → Seen (forget_device p e session device) ≡ JsMap.delete device (Seen e)
  unfolding forget_device table_for
  forget_device-Seen e device = forget_in-table (session_key p session) device e.heartbeats _ refl

  finish-engine :
      (w : World) (device : Text) (released : List Lock) (updates : List CoordinationUpdate)
      (o : Option (List Presence)) (x : List Lock × List CoordinationUpdate)
      → (finish p session w device released updates o).1 ≡ some x
      → (finish p session w device released updates o).0.engine
        ≡ forget_device p w.engine session device
  unfolding finish
  finish-engine w device released updates none x e = absurd (ground (arith, e))
  finish-engine w device released updates (some l) x e = refl

  sweep_device-engine :
      (w : World) (device : Text) (x : List Lock × List CoordinationUpdate)
      → (sweep_device p session w device).1 ≡ some x
      → (sweep_device p session w device).0.engine ≡ forget_device p w.engine session device
  unfolding sweep_device
  sweep_device-engine w device x e = finish-engine _ device _ _ _ x e

  -- The heartbeats of `e` without those of the devices.
  Without : List Text → ExpiryEngine → ExpiryEngine → Type 0
  Without devices e f =
      (f.config ≡ e.config)
      × (HasKeys (Seen e) → HasKeys (Seen f))
      × ((d : Text)
          → JsMap.get d (Seen f) ≡ (if JsSet.has devices d then none else JsMap.get d (Seen e)))

  config_same :
      (e : ExpiryEngine) (device : Text) → (forget_device p e session device).config ≡ e.config
  unfolding forget_device
  config_same e device = refl

  or_false : (b : Bool) (x y : Option ℕ) → (if b then x else y) ≡ (if b || false then x else y)
  or_false true x y = refl
  or_false false x y = refl

  Without-forget :
      (e : ExpiryEngine) (device : Text)
      → Without (device ∷ []) e (forget_device p e session device)
  unfolding Without JsSet.has
  Without-forget e device = (
    config_same e device,
    (λ h. subst HasKeys (sym (forget_device-Seen e device)) (delete-HasKeys device (Seen e) h)),
    λ d.
        ap (JsMap.get d) (forget_device-Seen e device)
        ∙ (get-delete device d (Seen e) ∙ or_false (text_eq device d) _ _),
  )

  Without-trans :
      (d : Text) (ds : List Text) (e f g : ExpiryEngine)
      → Without (d ∷ []) e f
      → Without ds f g
      → Without (d ∷ ds) e g
  unfolding Without JsSet.has
  Without-trans d ds e f g h k = (k.0 ∙ h.0, (λ a. k.1 (h.1 a)), λ x. ground (arith, h.2 x, k.2 x))

  nothing-Without : (e : ExpiryEngine) → Without [] e e
  unfolding Without JsSet.has
  nothing-Without e = (refl, (λ h. h), λ d. refl)

  join_round-first :
      (a b : Done p session) (x : List Lock × List CoordinationUpdate)
      → (join_round p session a b).1 ≡ some x
      → (z : List Lock × List CoordinationUpdate) × (a.1 ≡ some z)
  unfolding join_round
  join_round-first (w, none) b x e = absurd (ground (arith, e))
  join_round-first (w, some f) b x e = (f, refl)

  sweep_devices-Without :
      (w : World) (devices : List Text) (x : List Lock × List CoordinationUpdate)
      → (sweep_devices p session w devices).1 ≡ some x
      → Without devices w.engine (sweep_devices p session w devices).0.engine
  unfolding sweep_devices
  sweep_devices-Without w [] x e = nothing-Without w.engine
  sweep_devices-Without w (d ∷ ds) x e =
      let a = sweep_device p session w d in
      let (y, good, same) = join_round-some p session a (sweep_devices p session a.0 ds) x e in
      let (z, first) = join_round-first a (sweep_devices p session a.0 ds) x e in
      subst (λ v. Without (d ∷ ds) w.engine v.engine) (sym same)
        (Without-trans d ds w.engine a.0.engine _
          (subst (Without (d ∷ []) w.engine) (sym (sweep_device-engine w d z first))
            (Without-forget w.engine d))
          (sweep_devices-Without a.0 ds y good))

  report_sweep-engine :
      (devices : List Text) (d : Done p session) (result : ExpirySweepResult)
      → (report_sweep p session devices d).1 ≡ some result
      → (x : List Lock × List CoordinationUpdate) × (d.1 ≡ some x)
        × ((report_sweep p session devices d).0.engine ≡ d.0.engine)
  unfolding report_sweep
  report_sweep-engine devices (w, none) result e = absurd (ground (arith, e))
  report_sweep-engine devices (w, some x) result e = (x, refl, refl)

  gone : {b : Bool} → b ≡ true → (x y : Option ℕ) → (if b then x else y) ≡ x
  gone e x y = rw e refl

  kept : {b : Bool} → b ≡ false → (x y : Option ℕ) → (if b then x else y) ≡ y
  kept e x y = rw e refl

  none_stale :
      (devices : List Text) (e f : ExpiryEngine) (now : ℕ) (d : Text)
      → HasKeys (Seen e)
      → devices ≡ stale_devices p e session now
      → Without devices e f
      → JsSet.has (stale_devices p f session now) d ≡ false
  unfolding Without last_seen
  none_stale devices e f now d h same k =
      let before = has-stale_devices p e session now d h in
      let after = has-stale_devices p f session now d (k.1 h) in
      let interval = e.config.lock_expiry_interval_ms in
      elim (Bool-cases (JsSet.has devices d)) [
        | inl t ↦ after ∙ ap (stale_at f.config.lock_expiry_interval_ms now) (k.2 d ∙ gone t _ _)
        | inr n ↦
            after
            ∙ (ap (λ c. stale_at c.lock_expiry_interval_ms now (last_seen p f session d)) k.0
                ∙ (ap (stale_at interval now) (k.2 d ∙ kept n _ _)
                    ∙ (sym before ∙ (ap (λ l. JsSet.has l d) (sym same) ∙ n))))
      ]

  -- What a sweep leaves of a device's most recent heartbeat: nothing when it lies further back than
  -- the interval, and otherwise that heartbeat.
  abbrev pub IsSwept : ℕ → ℕ → Option ℕ → Option ℕ → Type 0
  IsSwept interval now none after = after ≡ none
  IsSwept interval now (some seen) after =
      ((seen + interval < now) × (after ≡ none)) ⊎ ((now ≤ seen + interval) × (after ≡ some seen))

  stale_at-IsSwept :
      (interval now : ℕ) (before after : Option ℕ) (b : Bool)
      → b ≡ stale_at interval now before
      → after ≡ (if b then none else before)
      → IsSwept interval now before after
  unfolding is_stale
  stale_at-IsSwept interval now none after true h e = absurd (ground (arith, h))
  stale_at-IsSwept interval now none after false h e = e
  stale_at-IsSwept interval now (some seen) after true h e = inl (ground (arith, h), e)
  stale_at-IsSwept interval now (some seen) after false h e = inr (ground (arith, h), e)

  heartbeat-IsSwept :
      (e f : ExpiryEngine) (now : ℕ) (d : Text)
      → HasKeys (Seen e)
      → Without (stale_devices p e session now) e f
      → IsSwept e.config.lock_expiry_interval_ms now
          (last_seen p e session d)
          (last_seen p f session d)
  unfolding Without last_seen
  heartbeat-IsSwept e f now d h k =
      stale_at-IsSwept e.config.lock_expiry_interval_ms now (JsMap.get d (Seen e))
        (JsMap.get d (Seen f)) (JsSet.has (stale_devices p e session now) d)
        (has-stale_devices p e session now d h) (k.2 d)

  -- A sweep that returns forgets the most recent heartbeat of exactly the devices of the session for
  -- which it lies further back than the interval, and keeps that of every other device; no device is
  -- stale afterwards at that time. The session's table of heartbeats has distinct keys.
  pub stale_devices-sweep :
      (w : World) (now : ℕ) (d : Text) (result : ExpirySweepResult)
      → HasKeys (table_for w.engine (session_key p session))
      → (sweep p session w now).1 ≡ some result
      → let after = (sweep p session w now).0.engine in
        IsSwept w.engine.config.lock_expiry_interval_ms now
          (last_seen p w.engine session d)
          (last_seen p after session d)
        × (JsSet.has (stale_devices p after session now) d ≡ false)
  unfolding sweep
  stale_devices-sweep w now d result h e =
      let devices = stale_devices p w.engine session now in
      let (x, good, same) =
        report_sweep-engine devices (sweep_devices p session w devices) result e in
      let without = sweep_devices-Without w devices x good in
      subst
        (λ v.
          IsSwept w.engine.config.lock_expiry_interval_ms now (last_seen p w.engine session d)
            (last_seen p v session d)
          × (JsSet.has (stale_devices p v session now) d ≡ false))
        (sym same)
        (
          heartbeat-IsSwept w.engine _ now d h without,
          none_stale devices w.engine _ now d h refl without,
        )
