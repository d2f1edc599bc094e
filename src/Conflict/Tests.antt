-- ===== src/Conflict/Tests.antt =====
-- The theorems on conflict resolution, at concrete locks.
use mathlib.Core.List.{Perm, Permᴰ}
use multi_agentic_workflow.Base.{ℕ, ◌≡◌, refl, [], ◌∷◌, some, All, In}
use multi_agentic_workflow.Base.Text.{Text, codes}
use multi_agentic_workflow.Protocol.{MemberRef}
use multi_agentic_workflow.Fixtures.{alice, bob}
use multi_agentic_workflow.Conflict.{RevisionClaim, Resolution, resolve_by_earliest_revision}
use multi_agentic_workflow.Conflict.Winner.{Wins, resolve_least, resolve_perm, winner_key}

record Claim : Type 0 where
  id : Text
  revision : ℕ
  owner : MemberRef

instance abbrev claims_are : RevisionClaim Claim
claims_are = record {
  claim_id = λ c. c.id;
  event_revision = λ c. c.revision;
  holder = λ c. c.owner;
}

abbrev first : Claim
first = record { id = codes "a"; revision = 3; owner = alice }

abbrev second : Claim
second = record { id = codes "b"; revision = 5; owner = bob }

resolve_least_example :
    (w : Claim) × ((resolve_by_earliest_revision (second ∷ first ∷ [])).winner ≡ some w)
    × In w (second ∷ first ∷ [])
    × All (λ x. Wins w x) (second ∷ first ∷ [])
resolve_least_example = resolve_least second (first ∷ [])

swapped : Perm (second ∷ first ∷ []) (first ∷ second ∷ [])
swapped = ∣ Permᴰ.swap refl refl ∣₁

resolve_perm_example :
    winner_key (resolve_by_earliest_revision (second ∷ first ∷ [])).winner
    ≡ winner_key (resolve_by_earliest_revision (first ∷ second ∷ [])).winner
resolve_perm_example = resolve_perm (second ∷ first ∷ []) (first ∷ second ∷ []) swapped

won : (resolve_by_earliest_revision (second ∷ first ∷ [])).winner ≡ some first
unfolding resolve_by_earliest_revision multi_agentic_workflow.Conflict.earliest
    multi_agentic_workflow.Conflict.compare_claims multi_agentic_workflow.Conflict.compare_keys
won = refl
