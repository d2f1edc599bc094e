-- ===== src/Conflict.antt =====
-- packages/core-state/src/conflict.ts: competing claims are won by the earliest Event_Revision.
pub mod Order
mod Tests
pub mod Winner
use Prim.Native.Nat.{compare, Ordering}
use multi_agentic_workflow.Base.{
  ℕ, List, [], ◌∷◌, map, Option, none, some, Bool, true, false, if◌then◌else◌,
}
use multi_agentic_workflow.Base.Text.{Text, text_eq, text_lt}
use multi_agentic_workflow.Protocol.{MemberRef}

-- The interface `RevisionClaim`: what a claim must show to be resolved.
pub record RevisionClaim (C : Type 0) : Type 0 where
  pub claim_id : C → Text
  pub event_revision : C → ℕ
  pub holder : C → MemberRef

pub record ConflictInfo : Type 0 where
  pub winner : MemberRef
  pub winning_event_revision : ℕ

pub record ResolvedClaim (C : Type 0) : Type 0 where
  pub claim : C
  pub concurrent : Bool
  pub conflict : Option ConflictInfo

pub record Resolution (C : Type 0) : Type 0 where
  pub winner : Option C
  pub resolved : List (ResolvedClaim C)

-- `compareClaims` on revisions and ids: the sign of the number that it returns.
unfoldable pub compare_keys : ℕ → Text → ℕ → Text → Ordering
compare_keys m a n b = elim (compare m n) [
  | Ordering.eq ↦
      if text_lt a b then Ordering.lt else if text_lt b a then Ordering.gt else Ordering.eq
  | Ordering.lt ↦ Ordering.lt
  | Ordering.gt ↦ Ordering.gt
]

-- `… < 0`
abbrev pub is_lt : Ordering → Bool
is_lt Ordering.lt = true
is_lt _ = false

module _ {C : Type 0} ⦃r : RevisionClaim C⦄ where
  unfoldable pub compare_claims : C → C → Ordering
  compare_claims a b =
      compare_keys (r.event_revision a) (r.claim_id a) (r.event_revision b) (r.claim_id b)

  -- The loop over the other claims.
  unfoldable pub earliest : C → List C → C
  earliest winner [] = winner
  earliest winner (candidate ∷ rest) =
      earliest (if is_lt (compare_claims candidate winner) then candidate else winner) rest

  -- A claim beside the winner.
  unfoldable pub tag : C → C → ResolvedClaim C
  tag winner claim =
      if text_eq (r.claim_id claim) (r.claim_id winner)
      then record { claim = claim; concurrent = false; conflict = none }
      else record {
        claim = claim;
        concurrent = true;
        conflict =
            some (record {
              winner = r.holder winner;
              winning_event_revision = r.event_revision winner;
            });
      }

  unfoldable pub resolve_by_earliest_revision : List C → Resolution C
  resolve_by_earliest_revision [] = record { winner = none; resolved = [] }
  resolve_by_earliest_revision (c ∷ cs) =
      let winner = earliest c cs in
      record { winner = some winner; resolved = map (tag winner) (c ∷ cs) }

pub record PlannedFileCreationClaim : Type 0 where
  pub claim_id : Text
  pub event_revision : ℕ
  pub holder : MemberRef
  pub path : Text
  pub branch : Text

instance abbrev pub planned_claim : RevisionClaim PlannedFileCreationClaim
planned_claim = record {
  claim_id = λ c. c.claim_id;
  event_revision = λ c. c.event_revision;
  holder = λ c. c.holder;
}

pub resolve_planned_file_creation_claims :
    List PlannedFileCreationClaim → Resolution PlannedFileCreationClaim
resolve_planned_file_creation_claims claims = resolve_by_earliest_revision claims
