-- ===== src/Liveness/Activity.antt =====
-- Activity decides who is active.
use multi_agentic_workflow.Base.{
  ℕ, ◌+◌, ◌≤◌, ◌≡◌, refl, List, [], ◌∷◌, Option, none, some, true, ◌||◌, arith, if◌then◌else◌,
}
use multi_agentic_workflow.Base.Text.{Text}
use multi_agentic_workflow.Base.JsMap
use multi_agentic_workflow.Base.JsSet
use multi_agentic_workflow.Protocol.{Platform, SessionId, active, gone}
use multi_agentic_workflow.Session.{session_key}
use multi_agentic_workflow.Liveness.{
  LivenessTracker, LivenessSessionState, empty_state, state_for, put, later, record_activity,
  set_of, set_connected, within, state_of,
}

state_for-put :
    (t : LivenessTracker) (key : Text) (s : LivenessSessionState) → state_for (put t key s) key ≡ s
unfolding state_for put
state_for-put t key s = JsMap.get_or-set_self key empty_state s t.sessions

has-set_of :
    (acc ms : List Text) (m : Text)
    → JsSet.has (set_of acc ms) m ≡ (JsSet.has acc m || JsSet.has ms m)
unfolding set_of JsSet.has
has-set_of acc [] m = ground arith
has-set_of acc (x ∷ ms) m = ground (arith, has-set_of (JsSet.add acc x) ms m, JsSet.has-add acc x m)

-- The roster that was set last decides who is gone, and the recorded activity who is active: a
-- new roster leaves it as it is.
pub state_of-set_connected :
    (p : Platform) (t : LivenessTracker) (session : SessionId) (ms : List Text) (m : Text) (now : ℕ)
    → state_of p (set_connected p t session ms) session m now ≡ (
        if JsSet.has ms m
        then within t.active_window_ms now
            (JsMap.get m (state_for t (session_key p session)).last_activity)
        else gone)
unfolding state_of set_connected JsSet.has put
state_of-set_connected p t session ms m now =
    let key = session_key p session in
    rw
      (
        state_for-put t key (record (state_for t key) { connected = set_of [] ms }),
        has-set_of [] ms m,
      )
      refl

within-later :
    (window now at : ℕ) (prior : Option ℕ)
    → now ≤ at + window
    → within window now (some (later prior at)) ≡ active
unfolding within later
within-later window now at none h = ground (arith, h)
within-later window now at (some prior) h = ground (arith, h)

-- A connected member is active until the window after an activity has passed, whatever older or
-- newer activity was recorded before it.
pub record_activity-active :
    (p : Platform) (t : LivenessTracker) (session : SessionId) (m : Text) (at now : ℕ)
    → JsSet.has (state_for t (session_key p session)).connected m ≡ true
    → now ≤ at + t.active_window_ms
    → state_of p (record_activity p t session m at) session m now ≡ active
unfolding state_of record_activity put
record_activity-active p t session m at now c h =
    let key = session_key p session in
    let s = state_for t key in
    let last = later (JsMap.get m s.last_activity) at in
    rw
      (
        state_for-put t key (record s { last_activity = JsMap.set m last s.last_activity }),
        c,
        JsMap.get-set_self m last s.last_activity,
      )
      (within-later t.active_window_ms now at (JsMap.get m s.last_activity) h)
