-- ===== src/Intents/Claims.antt =====
-- Planned file creations of packages/core-state/src/intents.ts: who claims a path under a branch,
-- in the order of the claims, and the conflicts that an intent runs into.
use multi_agentic_workflow.Base.{
  ℕ, List, [], ◌∷◌, ◌++◌, map, Option, none, some, Bool, true, false, not, ◌&&◌, if◌then◌else◌,
  select, any,
}
use multi_agentic_workflow.Base.Text.{Text, text_eq}
use multi_agentic_workflow.Base.JsMap
use multi_agentic_workflow.Protocol.{
  Platform, SessionId, MemberRef, DeclaredIntent, PlannedFileCreation,
}
use multi_agentic_workflow.Session.{session_key}
use multi_agentic_workflow.RepoPath.{normalize_path}
use multi_agentic_workflow.Conflict.{compare_keys, is_lt}
use multi_agentic_workflow.Intents.State.{IntentRegistry, path_key, intents_at}

pub record CreationClaim : Type 0 where
  pub intent : DeclaredIntent
  pub concurrent : Bool

-- A party to a conflict.
pub record Claimant : Type 0 where
  pub holder : MemberRef
  pub event_revision : ℕ
  pub intent_id : Text

pub record CreationConflict : Type 0 where
  pub path : Text
  pub winner : Claimant
  pub concurrent : Claimant

-- Some planned creation has this key.
unfoldable pub plans_key : Platform → IntentRegistry → Text → List PlannedFileCreation → Bool
plans_key p r key creations = any (λ c. text_eq (path_key p r c.path) key) creations

unfoldable pub claims_path : Platform → IntentRegistry → Text → Text → DeclaredIntent → Bool
unfolding plans_key
claims_path p r key branch i = text_eq i.branch branch && plans_key p r key i.create_paths

-- The comparator's sign.
abbrev pub is_before : DeclaredIntent → DeclaredIntent → Bool
is_before a b = is_lt (compare_keys a.event_revision a.intent_id b.event_revision b.intent_id)

unfoldable pub insert_claim : DeclaredIntent → List DeclaredIntent → List DeclaredIntent
insert_claim x [] = x ∷ []
insert_claim x (y ∷ ys) =
    let rest = insert_claim x ys in if is_before y x then y ∷ rest else x ∷ y ∷ ys

-- `Array.prototype.sort` with the comparator
unfoldable pub sort_claims : List DeclaredIntent → List DeclaredIntent
sort_claims [] = []
sort_claims (x ∷ xs) = insert_claim x (sort_claims xs)

unfoldable pub matching_claims :
    Platform → IntentRegistry → Text → Text → Text → List DeclaredIntent
unfolding claims_path
matching_claims p r s_key key branch =
    select (claims_path p r key branch) (map (λ s. s.intent) (JsMap.values (intents_at r s_key)))

unfoldable pub flagged : List DeclaredIntent → List CreationClaim
flagged [] = []
flagged (i ∷ is) =
    record { intent = i; concurrent = false }
    ∷ map (λ j. record { intent = j; concurrent = true }) is

unfoldable pub creation_claims :
    Platform → IntentRegistry → SessionId → Text → Text → List CreationClaim
unfolding flagged
creation_claims p r session path branch =
    flagged (sort_claims (matching_claims p r (session_key p session) (path_key p r path) branch))

unfoldable pub first_intent : List CreationClaim → Option DeclaredIntent
first_intent [] = none
first_intent (c ∷ cs) = some c.intent

unfoldable pub creation_winner :
    Platform → IntentRegistry → SessionId → Text → Text → Option DeclaredIntent
unfolding first_intent
creation_winner p r session path branch = first_intent (creation_claims p r session path branch)

abbrev pub claimant : DeclaredIntent → Claimant
claimant i = record { holder = i.owner; event_revision = i.event_revision; intent_id = i.intent_id }

-- What one planned creation of an intent runs into, given the winner for its path.
unfoldable pub conflict_with : DeclaredIntent → Text → Option DeclaredIntent → List CreationConflict
conflict_with intent path none = []
conflict_with intent path (some winner) =
    if not (text_eq winner.intent_id intent.intent_id)
      && not (text_eq winner.owner.member_id intent.owner.member_id)
    then record {
      path = normalize_path path;
      winner = claimant winner;
      concurrent = claimant intent;
    }
      ∷ []
    else []

unfoldable pub conflicts_of :
    Platform
    → IntentRegistry
    → SessionId
    → DeclaredIntent
    → List PlannedFileCreation
    → List CreationConflict
unfolding conflict_with creation_winner
conflicts_of p r session intent [] = []
conflicts_of p r session intent (c ∷ cs) =
    conflict_with intent c.path (creation_winner p r session c.path intent.branch)
    ++ conflicts_of p r session intent cs

unfoldable pub conflicts_for :
    Platform → IntentRegistry → SessionId → DeclaredIntent → List CreationConflict
unfolding conflicts_of
conflicts_for p r session intent = conflicts_of p r session intent intent.create_paths
