-- ===== src/Fixtures.antt =====
-- Concrete data that the tests of the components share: a platform, a session, two members.
use Prim.Native.Nat.{compare, Ordering}
use multi_agentic_workflow.Base.{length, ℕ, ◌+◌, map, none, ◌&&◌, leb, if◌then◌else◌}
use multi_agentic_workflow.Base.Text.{Text, codes}
use multi_agentic_workflow.Protocol.{Platform, SessionId, MemberRef}

abbrev pub lower : ℕ → ℕ
lower c = if leb 65 c && leb c 90 then c + 32 else c

-- An order of texts that is not theirs.
abbrev by_length : Text → Text → Ordering
by_length a b = compare (length a) (length b)

-- A digest without collisions; no time can be read.
abbrev pub platform : Platform
platform = record {
  digest = λ t. t;
  to_lower = map lower;
  date_parse = λ t. none;
  os = codes "linux";
  locale_compare = by_length;
}

abbrev pub session : SessionId
session = record {
  repo_id = codes "repo";
  team_id = codes "team";
  branch = codes "main";
  base_revision = none;
}

abbrev pub alice : MemberRef
alice = record { member_id = codes "alice"; device_id = codes "laptop" }

abbrev pub bob : MemberRef
bob = record { member_id = codes "bob"; device_id = codes "desktop" }
