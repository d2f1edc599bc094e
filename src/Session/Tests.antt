-- ===== src/Session/Tests.antt =====
-- The theorems on the session key, at two concrete sessions.
use multi_agentic_workflow.Base.{◌≡◌, ◌↔◌, some}
use multi_agentic_workflow.Base.Text.{codes}
use multi_agentic_workflow.Protocol.{SessionId}
use multi_agentic_workflow.Fixtures.{platform, session}
use multi_agentic_workflow.Session.{session_key}
use multi_agentic_workflow.Session.Encoding.{session_key-injective}

abbrev pinned : SessionId
pinned = record {
  repo_id = codes "repo";
  team_id = codes "team";
  branch = codes "main";
  base_revision = some (codes "null");
}

session_key-injective_example :
    (session_key platform session ≡ session_key platform pinned) ↔ (session ≡ pinned)
session_key-injective_example = session_key-injective platform session pinned (λ e. e)
