-- ===== src/Session.antt =====
-- packages/core-state/src/session.ts: the identity of a Repository_Session and its key.
pub mod Encoding
mod Tests
use multi_agentic_workflow.Base.{
  ℕ, zero, suc, ◌+◌, ◌-◌, ◌*◌, ◌/◌, ◌%◌, ◌<◌, ◌≡◌, refl, List, [], ◌∷◌, ◌++◌, map, Option, none,
  some, arith, ltb, if◌then◌else◌, length,
}
use multi_agentic_workflow.Base.Text.{Text, codes}
use multi_agentic_workflow.Protocol.{Platform, SessionId}

-- A number in a template literal, in decimal.
digits_from : ℕ → ℕ → Text → Text
digits_from zero n acc = acc
digits_from (suc f) n acc =
    let rest = digits_from f (n / 10) ((48 + n % 10) ∷ acc) in
    if ltb n 10 then (48 + n % 10) ∷ acc else rest

pub decimal : ℕ → Text
unfolding digits_from
decimal n = digits_from (suc n) n []

-- `Array.prototype.join`
unfoldable pub join : Text → List Text → Text
join sep [] = []
join sep (x ∷ []) = x
join sep (x ∷ y ∷ ys) = x ++ (sep ++ join sep (y ∷ ys))

prefixed : Text → Text
unfolding decimal
prefixed v = decimal (length v) ++ (codes ":" ++ v)

revision_field : Option Text → Text
revision_field none = 0 ∷ codes "null"
revision_field (some r) = codes "s:" ++ r

fields : SessionId → List Text
fields s = s.repo_id ∷ s.team_id ∷ s.branch ∷ revision_field s.base_revision ∷ []

-- The text that `sessionKey` hashes.
pub canonical : SessionId → Text
unfolding prefixed join fields revision_field
canonical s = join (codes "|") (map prefixed (fields s))

unfoldable pub session_key : Platform → SessionId → Text
unfolding canonical
session_key p s = p.digest (canonical s)
