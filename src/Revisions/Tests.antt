-- ===== src/Revisions/Tests.antt =====
-- The theorems on the revision counter, at a concrete one.
use multi_agentic_workflow.Base.{ℕ, ◌<◌, ◌≡◌, refl, List, [], ◌∷◌, Option, none, some}
use multi_agentic_workflow.Base.Text.{Text, codes}
use multi_agentic_workflow.Protocol.{nat}
use multi_agentic_workflow.Session.{session_key}
use multi_agentic_workflow.Fixtures.{platform, session}
use multi_agentic_workflow.Revisions.{RevisionCounter, highest_at, resume}
use multi_agentic_workflow.Revisions.Order.{
  next_call, resume_call, issued, IncreasingFrom, issued-Increasing,
}

abbrev counter : ℕ → RevisionCounter
counter n = record { counters = (session_key platform session, n) ∷ [] }

issued-Increasing_example : IncreasingFrom (highest_at (counter 2) (session_key platform session)) (
    issued platform
      (session_key platform session)
      (counter 2)
      (next_call session ∷ resume_call session (nat 9) ∷ next_call session ∷ []))
issued-Increasing_example =
    issued-Increasing platform (session_key platform session) (counter 2)
      (next_call session ∷ resume_call session (nat 9) ∷ next_call session ∷ [])

resumed : resume platform (counter 2) session (nat 9) ≡ some (counter 9)
unfolding resume multi_agentic_workflow.Base.JsMap.set multi_agentic_workflow.Base.Text.text_eq
    session_key highest_at multi_agentic_workflow.Base.JsMap.get_or
    multi_agentic_workflow.Base.JsMap.get
resumed = refl
