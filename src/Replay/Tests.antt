-- ===== src/Replay/Tests.antt =====
-- The theorems on the replay guard, at concrete attempts.
use multi_agentic_workflow.Base.{List, [], ◌∷◌}
use multi_agentic_workflow.Base.Text.{codes}
use multi_agentic_workflow.Protocol.{nat}
use multi_agentic_workflow.Replay.{ReplayRecord, ReplayGuard, record_or_empty}
use multi_agentic_workflow.Replay.History.{Attempt, accepted_for, Fresh, accepted_for-Fresh}

abbrev known : ReplayRecord
known = record { highest_counter = 4; used_nonces = codes "n4" ∷ [] }

abbrev guard : ReplayGuard
guard = (codes "laptop", known) ∷ []

abbrev attempts : List Attempt
attempts =
    record { device_id = codes "laptop"; counter = nat 5; nonce = codes "n5" }
    ∷ record { device_id = codes "laptop"; counter = nat 5; nonce = codes "n6" }
    ∷ record { device_id = codes "laptop"; counter = nat 7; nonce = codes "n4" }
    ∷ []

accepted_for-Fresh_example :
    Fresh
      (record_or_empty guard (codes "laptop")).highest_counter
      (record_or_empty guard (codes "laptop")).used_nonces
      (accepted_for (codes "laptop") guard attempts)
accepted_for-Fresh_example = accepted_for-Fresh (codes "laptop") guard attempts
