-- ===== src/Intents/Expired.antt =====
-- Expiring a device's intents removes exactly those, whatever else the session holds.
use multi_agentic_workflow.Base.{
  ◌≡◌, refl, subst, [], ◌∷◌, Option, none, some, arith, if◌then◌else◌,
}
use multi_agentic_workflow.Base.Text.{Text, text_eq, text_eq_iff, text_eq_refl}
use multi_agentic_workflow.Base.JsMap
use multi_agentic_workflow.Base.JsMap.{get-delete, get}
use multi_agentic_workflow.Base.MapKeys.{HasKeys}
use multi_agentic_workflow.Protocol.{Platform, SessionId}
use multi_agentic_workflow.Session.{session_key}
use multi_agentic_workflow.Intents.State.{
  IntentRegistry, StoredIntent, Intents, intents_at, stored_at,
}
use multi_agentic_workflow.Intents.Reconcile.{expire_each, expire_found, expire_by_device}
use multi_agentic_workflow.Intents.Stored.{stored_at-put, intents_at-some, intents_at-none}

-- What is left of a stored intent when a device's intents are removed.
abbrev pub unless_owned : Text → Option StoredIntent → Option StoredIntent
unless_owned device none = none
unless_owned device (some s) = if text_eq s.intent.owner.device_id device then none else some s

-- The loop over the entries, for the entry that it meets.
abbrev after_loop : Text → Option StoredIntent → Option StoredIntent → Option StoredIntent
after_loop device none there = there
after_loop device (some s) there = if text_eq s.intent.owner.device_id device then none else there

module _ (p : Platform) where
  get-expire_each :
      (device id : Text) (entries m : Intents)
      → HasKeys entries
      → get id (expire_each p device entries m).0 ≡ after_loop device (get id entries) (get id m)
  unfolding expire_each JsMap.get
  get-expire_each device id [] m h = refl
  get-expire_each device id ((j, s) ∷ rest) m h = ground (
    arith,
    get-expire_each device id rest (JsMap.delete j m) h.1,
    get-expire_each device id rest m h.1,
    get-delete j id m,
    text_eq_iff j id,
    h.0,
  )

  expire_found-stored :
      (r : IntentRegistry) (k device id : Text) (o : Option Intents)
      → get k r.sessions ≡ o
      → HasKeys (intents_at r k)
      → stored_at (expire_found p r k device o).0 k id ≡ unless_owned device (stored_at r k id)
  unfolding expire_found stored_at JsMap.get
  expire_found-stored r k device id none e h = rw (intents_at-none r k e) refl
  expire_found-stored r k device id (some m) e h =
      let same : intents_at r k ≡ m = intents_at-some r k m e in
      ground (
        arith,
        stored_at-put r k k id (expire_each p device m m).0,
        text_eq_refl k,
        get-expire_each device id m m (subst HasKeys same h),
        same,
        stored_at,
      )

  -- After the expiry of a device, a session whose map has distinct keys holds under each id what it
  -- held before, less the intents that the device owns.
  pub expire_by_device-unless_owned :
      (r : IntentRegistry) (session : SessionId) (device id : Text)
      → HasKeys (intents_at r (session_key p session))
      → stored_at (expire_by_device p r session device).0 (session_key p session) id
        ≡ unless_owned device (stored_at r (session_key p session) id)
  unfolding expire_by_device
  expire_by_device-unless_owned r session device id h =
      expire_found-stored r (session_key p session) device id _ refl h
