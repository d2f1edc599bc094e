-- ===== src/Intents/Tests.antt =====
-- Runs of the intent registry, and theorems about it at a concrete registry.
use multi_agentic_workflow.Base.{
  ℕ, ◌≡◌, refl, List, [], ◌∷◌, Option, none, some, true, false, All, inl,
}
use multi_agentic_workflow.Base.Text.{Text, codes, text_eq}
use multi_agentic_workflow.Base.JsMap
use multi_agentic_workflow.Base.MapKeys.{HasKeys}
use multi_agentic_workflow.Protocol.{MemberRef, DeclaredIntent, file, not_owner}
use multi_agentic_workflow.Session.{session_key}
use multi_agentic_workflow.RepoPath.{normalize_path}
use multi_agentic_workflow.Conflict.{resolve_by_earliest_revision}
use multi_agentic_workflow.Conflict.Winner.{winner_key}
use multi_agentic_workflow.Fixtures.{platform, session, alice, bob}
use multi_agentic_workflow.Intents.State.{
  IntentRegistry, StoredIntent, Intents, new_registry, stored_at, intents_at, is_tracked, path_key,
}
use multi_agentic_workflow.Intents.Validate.{validate}
use multi_agentic_workflow.Intents.Claims.{creation_winner, matching_claims, plans_key}
use multi_agentic_workflow.Intents.{
  DeclareRequest, UpdateRequest, declare, update, DeclareResult, declared, declare_failed,
}
use multi_agentic_workflow.Intents.Reconcile.{
  reconcile_creation, rename_path, refers_to, expire_by_device,
}
use multi_agentic_workflow.Intents.Queries.{all_intents}
use multi_agentic_workflow.Intents.Invariant.{IsValid}
use multi_agentic_workflow.Intents.Reachable.{Reach, here, next, declares, reachable-IsValid}
use multi_agentic_workflow.Intents.Ownership.{perform, to_update, perform_other}
use multi_agentic_workflow.Intents.Winner.{intent_claim, creation_winner_agrees}
use multi_agentic_workflow.Intents.Declared.{IsRecorded, declare-IsRecorded}
use multi_agentic_workflow.Intents.Effects.{reconcile_creation-Created}
use multi_agentic_workflow.Intents.Moved.{rename_path-Moved}
use multi_agentic_workflow.Intents.Expired.{unless_owned, expire_by_device-unless_owned}

abbrev new_file : Text
new_file = codes "src/new.ts"

abbrev request : MemberRef → Text → ℕ → DeclareRequest
request owner id revision = record {
  session = session;
  intent_id = id;
  owner = owner;
  agent_id = codes "agent";
  modify_paths = codes "src/./old.ts" ∷ [];
  create_paths = new_file ∷ [];
  scope_kind = file;
  branch = codes "main";
  description = codes "work";
  event_revision = revision;
}

abbrev empty : IntentRegistry
empty = new_registry none

abbrev one : IntentRegistry
one = (declare platform empty (request bob (codes "b") 2)).0

abbrev two : IntentRegistry
two = (declare platform one (request alice (codes "a") 1)).0

abbrev key : Text
key = session_key platform session

abbrev two-Reach : Reach platform empty two
two-Reach =
    next (next here (declares (request bob (codes "b") 2))) (declares (request alice (codes "a") 1))

abbrev bob_intent : DeclaredIntent
bob_intent = record {
  intent_id = codes "b";
  owner = bob;
  agent_id = codes "agent";
  modify_paths = codes "src/old.ts" ∷ [];
  create_paths = record { path = new_file } ∷ [];
  scope_kind = file;
  branch = codes "main";
  description = codes "work";
  event_revision = 2;
}

abbrev bob_stored : StoredIntent
bob_stored = record { intent = bob_intent; in_progress = [] }

stored_in_two : stored_at two key (codes "b") ≡ some bob_stored
unfolding stored_at JsMap.get intents_at JsMap.get_or declare validate
    multi_agentic_workflow.Intents.State.put JsMap.set text_eq session_key
    multi_agentic_workflow.Intents.reclassify_from multi_agentic_workflow.Intents.reclassify_one
    is_tracked multi_agentic_workflow.Base.JsSet.has multi_agentic_workflow.Intents.State.tracked_at
    normalize_path
stored_in_two = refl

reachable-IsValid_example : IsValid two
reachable-IsValid_example = reachable-IsValid platform none two two-Reach

abbrev update_by_alice : UpdateRequest
update_by_alice = record {
  session = session;
  intent_id = codes "b";
  requester = alice;
  modify_paths = codes "mine.ts" ∷ [];
  create_paths = [];
  description = codes "taken";
  event_revision = 3;
}

update_refused : (update platform two update_by_alice).1 ≡ declare_failed not_owner []
unfolding update JsMap.get intents_at JsMap.get_or declare validate
    multi_agentic_workflow.Intents.State.put JsMap.set text_eq session_key
update_refused = refl

other_member : text_eq bob_stored.intent.owner.member_id alice.member_id ≡ false
unfolding text_eq
other_member = refl

perform_other_example :
    stored_at (perform platform two (to_update update_by_alice)) key (codes "b") ≡ some bob_stored
perform_other_example =
    perform_other platform two (to_update update_by_alice) key (codes "b") bob_stored
      (λ k id s h. (reachable-IsValid platform none two two-Reach k id s h).0) stored_in_two
      other_member

creation_winner_agrees_example :
    winner_key (creation_winner platform two session new_file (codes "main"))
    ≡ winner_key
        (resolve_by_earliest_revision
          (matching_claims platform two key (path_key platform two new_file) (codes "main"))).winner
creation_winner_agrees_example = creation_winner_agrees platform two session new_file (codes "main")

declare-IsRecorded_example :
    IsRecorded platform one
      (request alice (codes "a") 1)
      (declare platform one (request alice (codes "a") 1))
declare-IsRecorded_example = declare-IsRecorded platform one (request alice (codes "a") 1)

reconcile_creation-Created_example :
    (is_tracked platform (reconcile_creation platform two session new_file).0 session new_file
      ≡ true)
    × All
        (λ i. plans_key platform two (path_key platform two new_file) i.create_paths ≡ false)
        (all_intents platform (reconcile_creation platform two session new_file).0 session)
reconcile_creation-Created_example = reconcile_creation-Created platform two session new_file

target_away :
    text_eq (path_key platform two (codes "src/next.ts")) (path_key platform two new_file) ≡ false
unfolding text_eq path_key multi_agentic_workflow.RepoPath.normalize_path_key declare validate
    multi_agentic_workflow.Intents.State.put multi_agentic_workflow.Session.join
target_away = refl

rename_path-Moved_example :
    All
      (λ i. refers_to platform two (path_key platform two new_file) i ≡ false)
      (all_intents platform
        (rename_path platform two session new_file (codes "src/next.ts")).0
        session)
rename_path-Moved_example =
    rename_path-Moved platform two session new_file (codes "src/next.ts") target_away

two-HasKeys : HasKeys (intents_at two key)
unfolding intents_at JsMap.get_or JsMap.get declare validate
    multi_agentic_workflow.Intents.State.put JsMap.set text_eq session_key
two-HasKeys = (refl, (refl, tt))

expire_by_device-unless_owned_example :
    stored_at (expire_by_device platform two session (codes "desktop")).0 key (codes "b")
    ≡ unless_owned (codes "desktop") (stored_at two key (codes "b"))
expire_by_device-unless_owned_example =
    expire_by_device-unless_owned platform two session (codes "desktop") (codes "b") two-HasKeys
