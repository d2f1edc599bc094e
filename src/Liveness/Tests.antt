-- ===== src/Liveness/Tests.antt =====
-- The theorems on liveness, at a concrete tracker.
use multi_agentic_workflow.Base.{
  ℕ, ◌≤◌, ◌+◌, ◌≡◌, refl, List, [], ◌∷◌, Option, none, some, Bool, true, false, if◌then◌else◌,
  arith,
}
use multi_agentic_workflow.Base.Text.{Text, codes}
use multi_agentic_workflow.Base.JsMap
use multi_agentic_workflow.Base.JsSet
use multi_agentic_workflow.Session.{session_key}
use multi_agentic_workflow.Fixtures.{platform, session}
use multi_agentic_workflow.Liveness.{LivenessTracker, state_for}

abbrev tracker : LivenessTracker
tracker = record {
  active_window_ms = 1000;
  sessions =
      (session_key platform session, record { last_activity = []; connected = codes "alice" ∷ [] })
      ∷ [];
}

connected :
    JsSet.has (state_for tracker (session_key platform session)).connected (codes "alice") ≡ true
unfolding JsSet.has state_for JsMap.get_or JsMap.get multi_agentic_workflow.Base.Text.text_eq
    session_key
connected = refl

soon : 1400 ≤ 500 + tracker.active_window_ms
soon = omega arith
