-- ===== src/Ingest/Tests.antt =====
-- The theorems on the gate, at one whose domain is the list of applied payloads.
use multi_agentic_workflow.Base.{
  ℕ, ◌≡◌, ◌≢◌, ◌⊎◌, refl, inl, inr, List, [], ◌∷◌, Option, none, some,
}
use multi_agentic_workflow.Base.Text.{Text, codes}
use multi_agentic_workflow.Protocol.{EventEnvelope, nat, format_error}
use multi_agentic_workflow.Session.{session_key}
use multi_agentic_workflow.Fixtures.{platform, session}
use multi_agentic_workflow.Ingest.{
  Validation, valid, invalid, ApplierRejection, World, new_gate, permit_all, ingest, applied_at,
}
use multi_agentic_workflow.Ingest.Outcome.{Outcome, accept, ingest-Outcome}
use multi_agentic_workflow.Ingest.Once.{run, ingest_once}
use multi_agentic_workflow.Ingest.Distinct.{run_distinct, started}

abbrev envelope : Text → ℕ → EventEnvelope ℕ
envelope id counter = record {
  event_type = codes "presence";
  version = 1;
  event_id = id;
  session = session;
  device_id = codes "laptop";
  counter = nat counter;
  nonce = id;
  sent_at = [];
  payload = counter;
}

-- An input without an envelope is invalid.
abbrev validate : Option (EventEnvelope ℕ) → Validation ℕ
validate none = invalid format_error []
validate (some e) = valid e

abbrev apply : EventEnvelope ℕ → ℕ → List ℕ → List ℕ × Option ApplierRejection
apply e revision applied = (e.payload ∷ applied, none)

abbrev world : World (List ℕ)
world = record { gate = new_gate platform (record { counters = [] }) [] []; domain = [] }

abbrev first : EventEnvelope ℕ
first = envelope (codes "e1") 1

abbrev second : EventEnvelope ℕ
second = envelope (codes "e2") 2

accepted_first :
    (ingest platform validate permit_all apply world (some first)).1 ≡ accept (some 1) none
unfolding ingest applied_at multi_agentic_workflow.Base.JsMap.get new_gate
    multi_agentic_workflow.Replay.accept_replay multi_agentic_workflow.Replay.evaluate_replay
    multi_agentic_workflow.Replay.record_or_empty multi_agentic_workflow.Base.JsMap.get_or
    multi_agentic_workflow.Base.JsSet.has multi_agentic_workflow.Revisions.next
    multi_agentic_workflow.Revisions.highest_at
accepted_first = refl

ingest_once_example :
    ingest platform validate permit_all apply
      (run platform validate permit_all apply
        (ingest platform validate permit_all apply world (some first)).0
        (some second ∷ []))
      (some first)
    ≡ (
      run platform validate permit_all apply
          (ingest platform validate permit_all apply world (some first)).0
          (some second ∷ []),
      accept (some 1) (some 1),
    )
ingest_once_example =
    ingest_once platform validate permit_all apply world (some first) first 1 (some second ∷ [])
      (some first) first refl accepted_first refl refl refl refl

ingest-Outcome_example :
    Outcome platform validate permit_all apply world
      (some first)
      (ingest platform validate permit_all apply world (some first)).0
      (ingest platform validate permit_all apply world (some first)).1
ingest-Outcome_example = ingest-Outcome platform validate permit_all apply world (some first)

applied_first :
    applied_at
      (run platform validate permit_all apply
        (started platform validate permit_all apply (record { counters = [] }) [] [])
        (some first ∷ [])).gate
      (session_key platform session)
      (codes "e1")
    ≡ some 1
unfolding applied_at multi_agentic_workflow.Base.JsMap.get run ingest new_gate
    multi_agentic_workflow.Replay.accept_replay multi_agentic_workflow.Replay.evaluate_replay
    multi_agentic_workflow.Replay.record_or_empty multi_agentic_workflow.Base.JsMap.get_or
    multi_agentic_workflow.Base.JsSet.has multi_agentic_workflow.Base.JsMap.set
    multi_agentic_workflow.Base.Text.text_eq session_key multi_agentic_workflow.Revisions.next
    multi_agentic_workflow.Revisions.highest_at
applied_first = refl

run_distinct_example : codes "e1" ≡ codes "e1"
run_distinct_example =
    run_distinct platform validate permit_all apply (record { counters = [] }) [] []
      (some first ∷ []) (session_key platform session) (codes "e1") (codes "e1") 1 applied_first
      applied_first
