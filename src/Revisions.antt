-- ===== src/Revisions.antt =====
-- packages/core-state/src/revisions.ts: the per-session Event_Revision counter.
pub mod Order
mod Tests
use multi_agentic_workflow.Base.{
  ℕ, zero, suc, ◌+◌, max, List, [], ◌∷◌, Option, none, some, Bool, true, false, ◌==◌, if◌then◌else◌,
}
use multi_agentic_workflow.Base.Text.{Text}
use multi_agentic_workflow.Base.JsMap
use multi_agentic_workflow.Base.JsMap.{JsMap}
use multi_agentic_workflow.Protocol.{Platform, SessionId, Number, nat, other}
use multi_agentic_workflow.Session.{session_key}

pub record RevisionCounter : Type 0 where
  pub counters : JsMap ℕ

-- `this.counters.get(key) ?? 0`
unfoldable pub highest_at : RevisionCounter → Text → ℕ
highest_at c key = JsMap.get_or key 0 c.counters

unfoldable pub highest : Platform → RevisionCounter → SessionId → ℕ
highest p c session = highest_at c (session_key p session)

unfoldable pub next : Platform → RevisionCounter → SessionId → RevisionCounter × ℕ
next p c session =
    let key = session_key p session in
    let next_revision = highest_at c key + 1 in
    (record { counters = JsMap.set key next_revision c.counters }, next_revision)

-- `none` is the RangeError, thrown before anything is written.
unfoldable pub resume : Platform → RevisionCounter → SessionId → Number → Option RevisionCounter
resume p c session other = none
resume p c session (nat persisted) =
    let key = session_key p session in
    some (record { counters = JsMap.set key (max (highest_at c key) persisted) c.counters })

unfoldable pub restore_checkpoint :
    Platform → RevisionCounter → SessionId → Number → Option RevisionCounter
restore_checkpoint p c session other = none
restore_checkpoint p c session (nat revision) =
    let key = session_key p session in
    some (record {
      counters =
          if revision == 0 then JsMap.delete key c.counters else JsMap.set key revision c.counters;
    })

-- The constructor, over its persisted pairs; it throws at the first bad one.
resume_all : Platform → RevisionCounter → List (SessionId × Number) → Option RevisionCounter
resume_all p c [] = some c
resume_all p c ((session, persisted) ∷ rest) = elim (resume p c session persisted) [
  | none ↦ none
  | some c' ↦ resume_all p c' rest
]

unfoldable pub new_counter : Platform → List (SessionId × Number) → Option RevisionCounter
unfolding resume_all
new_counter p persisted = resume_all p (record { counters = [] }) persisted
