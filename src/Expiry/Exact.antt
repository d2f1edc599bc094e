-- ===== src/Expiry/Exact.antt =====
-- What a sweep over devices leaves in the registries: exactly what other devices hold.
use multi_agentic_workflow.Base.{
  ℕ, ◌≡◌, refl, sym, ◌∙◌, ap, subst, inl, inr, List, [], ◌∷◌, map, Option, none, some, Bool, not,
  arith, if◌then◌else◌, select, Bool-cases,
}
use multi_agentic_workflow.Base.Text.{Text, text_eq, text_eq_iff, text_eq_comm}
use multi_agentic_workflow.Base.JsMap
use multi_agentic_workflow.Base.JsSet
use multi_agentic_workflow.Base.MapKeys.{HasKeys, delete-HasKeys}
use multi_agentic_workflow.Protocol.{Platform, SessionId, Lock, Presence, CoordinationUpdate}
use multi_agentic_workflow.Session.{session_key}
use multi_agentic_workflow.Locks.Upkeep
use multi_agentic_workflow.Locks.Upkeep.{all_locks}
use multi_agentic_workflow.Locks.Expiry
use multi_agentic_workflow.Locks.Settled.{bare}
use multi_agentic_workflow.Intents.State.{
  IntentRegistry, StoredIntent, Intents, intents_at, stored_at,
}
use multi_agentic_workflow.Intents.Reconcile
use multi_agentic_workflow.Intents.Reconcile.{expire_each, expire_found}
use multi_agentic_workflow.Intents.Stored.{intents_at-put_self, intents_at-some}
use multi_agentic_workflow.Intents.Expired.{unless_owned, expire_by_device-unless_owned}
use multi_agentic_workflow.Expiry.{ExpirySweepResult, stale_devices}
use multi_agentic_workflow.Expiry.Devices.{
  World, finish, sweep_device, join_round, sweep_devices, report_sweep, sweep,
}

-- held by one of the devices.
pub unless_any : List Text → Option StoredIntent → Option StoredIntent
unless_any devices none = none
unless_any devices (some s) = if JsSet.has devices s.intent.owner.device_id then none else some s

module _ (p : Platform) (session : SessionId) where
  expire_each-HasKeys :
      (device : Text) (entries m : Intents) → HasKeys m → HasKeys (expire_each p device entries m).0
  unfolding expire_each
  expire_each-HasKeys device [] m h = h
  expire_each-HasKeys device ((id, s) ∷ rest) m h =
      elim (Bool-cases (text_eq s.intent.owner.device_id device)) [
        | inl e ↦ rw e (expire_each-HasKeys device rest (JsMap.delete id m) (delete-HasKeys id m h))
        | inr e ↦ rw e (expire_each-HasKeys device rest m h)
      ]

  abbrev HasIntentKeys : IntentRegistry → Type 0
  HasIntentKeys r = HasKeys (intents_at r (session_key p session))

  expire_found-HasKeys :
      (r : IntentRegistry) (key device : Text) (o : Option Intents)
      → JsMap.get key r.sessions ≡ o
      → HasKeys (intents_at r key)
      → HasKeys (intents_at (expire_found p r key device o).0 key)
  unfolding expire_found
  expire_found-HasKeys r key device none e h = h
  expire_found-HasKeys r key device (some m) e h =
      subst HasKeys (sym (intents_at-put_self r key _))
        (expire_each-HasKeys device m m (subst HasKeys (intents_at-some r key m e) h))

  expired-HasIntentKeys :
      (r : IntentRegistry) (device : Text)
      → HasIntentKeys r
      → HasIntentKeys (Reconcile.expire_by_device p r session device).0
  unfolding Reconcile.expire_by_device
  expired-HasIntentKeys r device h = expire_found-HasKeys r (session_key p session) device _ refl h

  -- What a round does to locks and intents, whether it ends well or not.
  finish-intents :
      (w : World) (device : Text) (released : List Lock) (updates : List CoordinationUpdate)
      (o : Option (List Presence))
      → ((finish p session w device released updates o).0.intents ≡ w.intents)
        × ((finish p session w device released updates o).0.locks ≡ w.locks)
  unfolding finish
  finish-intents w device released updates none = (refl, refl)
  finish-intents w device released updates (some l) = (refl, refl)

  sweep_device-intents :
      (w : World) (device : Text)
      → (sweep_device p session w device).0.intents
        ≡ (Reconcile.expire_by_device p w.intents session device).0
  unfolding sweep_device
  sweep_device-intents w device = (finish-intents _ device _ _ _).0

  sweep_device-locks :
      (w : World) (device : Text)
      → (sweep_device p session w device).0.locks
        ≡ (Upkeep.expire_by_device p w.locks session device).0
  unfolding sweep_device
  sweep_device-locks w device = (finish-intents _ device _ _ _).1

  -- Taking the device first and the others afterwards.
  unless_any-cons :
      (device : Text) (devices : List Text) (o : Option StoredIntent)
      → unless_any devices (unless_owned device o) ≡ unless_any (device ∷ devices) o
  unfolding unless_any JsSet.has
  unless_any-cons device devices none = refl
  unless_any-cons device devices (some s) = ground (
    arith,
    text_eq_iff device s.intent.owner.device_id,
    text_eq_iff s.intent.owner.device_id device,
  )

  unless_any-nil : (o : Option StoredIntent) → unless_any [] o ≡ o
  unfolding unless_any JsSet.has
  unless_any-nil none = refl
  unless_any-nil (some s) = refl

  abbrev stored : World → Text → Option StoredIntent
  stored w id = stored_at w.intents (session_key p session) id

  sweep_device-stored :
      (w : World) (device id : Text)
      → HasIntentKeys w.intents
      → stored (sweep_device p session w device).0 id ≡ unless_owned device (stored w id)
  sweep_device-stored w device id h =
      ap (λ r. stored_at r (session_key p session) id) (sweep_device-intents w device)
      ∙ expire_by_device-unless_owned p w.intents session device id h

  abbrev pub Done : Type 0
  Done = World × Option (List Lock × List CoordinationUpdate)

  -- The rounds end well only when the later ones do, and in their world.
  pub join_round-some :
      (a b : Done) (x : List Lock × List CoordinationUpdate)
      → (join_round p session a b).1 ≡ some x
      → (y : List Lock × List CoordinationUpdate) × (b.1 ≡ some y)
        × ((join_round p session a b).0 ≡ b.0)
  unfolding join_round
  join_round-some (w, none) b x e = absurd (ground (arith, e))
  join_round-some (w, some f) (v, none) x e = absurd (ground (arith, e))
  join_round-some (w, some f) (v, some l) x e = (l, refl, refl)

  sweep_devices-stored :
      (w : World) (devices : List Text) (id : Text) (x : List Lock × List CoordinationUpdate)
      → HasIntentKeys w.intents
      → (sweep_devices p session w devices).1 ≡ some x
      → stored (sweep_devices p session w devices).0 id ≡ unless_any devices (stored w id)
  unfolding sweep_devices
  sweep_devices-stored w [] id x h e = sym (unless_any-nil (stored w id))
  sweep_devices-stored w (d ∷ ds) id x h e =
      let v = (sweep_device p session w d).0 in
      let (y, good, same) =
        join_round-some (sweep_device p session w d) (sweep_devices p session v ds) x e in
      let keys : HasIntentKeys v.intents =
        subst HasIntentKeys (sym (sweep_device-intents w d))
          (expired-HasIntentKeys w.intents d h) in
      ap (λ u. stored u id) same
      ∙ (sweep_devices-stored v ds id y keys good
          ∙ (ap (unless_any ds) (sweep_device-stored w d id h)
              ∙ unless_any-cons d ds (stored w id)))

  abbrev pub spared : List Text → Lock → Bool
  spared devices l = not (JsSet.has devices l.holder.device_id)

  map-select :
      (f : Lock → Bool) (l : List Lock)
      → ((x : Lock) → f (bare x) ≡ f x)
      → map bare (select f l) ≡ select f (map bare l)
  map-select f [] h = refl
  map-select f (x ∷ xs) h = elim (Bool-cases (f x)) [
    | inl e ↦ rw (h x, e) (ap (λ l. bare x ∷ l) (map-select f xs h))
    | inr e ↦ rw (h x, e) (map-select f xs h)
  ]

  select-spared :
      (d : Text) (ds : List Text) (l : List Lock)
      → select (spared ds) (select (λ x. not (text_eq x.holder.device_id d)) l)
        ≡ select (spared (d ∷ ds)) l
  unfolding JsSet.has
  select-spared d ds [] = refl
  select-spared d ds (x ∷ xs) = elim (Bool-cases (text_eq x.holder.device_id d)) [
    | inl e ↦ rw (text_eq_comm d x.holder.device_id, e) (select-spared d ds xs)
    | inr e ↦ elim (Bool-cases (JsSet.has ds x.holder.device_id)) [
      | inl f ↦ rw (text_eq_comm d x.holder.device_id, e) (rw f (select-spared d ds xs))
      | inr f ↦
          rw (text_eq_comm d x.holder.device_id, e) (rw f (ap (λ l. x ∷ l) (select-spared d ds xs)))
    ]
  ]

  select-spared_none : (l : List Lock) → select (spared []) l ≡ l
  unfolding JsSet.has
  select-spared_none [] = refl
  select-spared_none (x ∷ xs) = ap (λ l. x ∷ l) (select-spared_none xs)

  abbrev held : World → List Lock
  held w = all_locks p w.locks session

  sweep_device-held :
      (w : World) (d : Text)
      → map bare (held (sweep_device p session w d).0)
        ≡ select (λ x. not (text_eq x.holder.device_id d)) (map bare (held w))
  sweep_device-held w d =
      ap (λ r. map bare (all_locks p r session)) (sweep_device-locks w d)
      ∙ ((Expiry.expire_by_device_lem p w.locks session d).0
          ∙ map-select (λ x. not (text_eq x.holder.device_id d)) (held w) (λ x. refl))

  sweep_devices-held :
      (w : World) (devices : List Text) (x : List Lock × List CoordinationUpdate)
      → (sweep_devices p session w devices).1 ≡ some x
      → map bare (held (sweep_devices p session w devices).0)
        ≡ select (spared devices) (map bare (held w))
  unfolding sweep_devices
  sweep_devices-held w [] x e = sym (select-spared_none (map bare (held w)))
  sweep_devices-held w (d ∷ ds) x e =
      let v = (sweep_device p session w d).0 in
      let (y, good, same) =
        join_round-some (sweep_device p session w d) (sweep_devices p session v ds) x e in
      ap (λ u. map bare (held u)) same
      ∙ (sweep_devices-held v ds y good
          ∙ (ap (select (spared ds)) (sweep_device-held w d)
              ∙ select-spared d ds (map bare (held w))))

  pub report_sweep-some :
      (devices : List Text) (d : Done) (result : ExpirySweepResult)
      → (report_sweep p session devices d).1 ≡ some result
      → (x : List Lock × List CoordinationUpdate) × (d.1 ≡ some x)
        × ((report_sweep p session devices d).0.intents ≡ d.0.intents)
        × ((report_sweep p session devices d).0.locks ≡ d.0.locks)
  unfolding report_sweep
  report_sweep-some devices (w, none) result e = absurd (ground (arith, e))
  report_sweep-some devices (w, some x) result e = (x, refl, refl, refl)

  -- A sweep that returns has removed exactly the declared intents that the stale devices own: under
  -- every id the session holds what it held, unless a stale device owned it. The session's map of
  -- intents has distinct keys.
  pub sweep-intents :
      (w : World) (now : ℕ) (id : Text) (result : ExpirySweepResult)
      → HasKeys (intents_at w.intents (session_key p session))
      → (sweep p session w now).1 ≡ some result
      → stored_at (sweep p session w now).0.intents (session_key p session) id
        ≡ unless_any
            (stale_devices p w.engine session now)
            (stored_at w.intents (session_key p session) id)
  unfolding sweep
  sweep-intents w now id result h e =
      let devices = stale_devices p w.engine session now in
      let (x, good, same, _) =
        report_sweep-some devices (sweep_devices p session w devices) result e in
      ap (λ r. stored_at r (session_key p session) id) same
      ∙ sweep_devices-stored w devices id x h good

  -- A sweep that returns has released exactly the locks that the stale devices hold: the session
  -- keeps the locks of all other devices, in order and, but for their flags, as they were.
  pub sweep-locks :
      (w : World) (now : ℕ) (result : ExpirySweepResult)
      → (sweep p session w now).1 ≡ some result
      → map bare (all_locks p (sweep p session w now).0.locks session)
        ≡ map bare
            (select (spared (stale_devices p w.engine session now)) (all_locks p w.locks session))
  unfolding sweep
  sweep-locks w now result e =
      let devices = stale_devices p w.engine session now in
      let (x, good, _, same) =
        report_sweep-some devices (sweep_devices p session w devices) result e in
      ap (λ r. map bare (all_locks p r session)) same
      ∙ (sweep_devices-held w devices x good
          ∙ sym (map-select (spared devices) (held w) (λ y. refl)))
