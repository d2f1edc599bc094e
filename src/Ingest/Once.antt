-- ===== src/Ingest/Once.antt =====
-- An event is applied at most once.
use multi_agentic_workflow.Base.{
  ℕ, ◌≡◌, List, [], ◌∷◌, Option, none, some, arith, if◌then◌else◌, ◌&&◌,
}
use multi_agentic_workflow.Base.Text.{Text, text_eq, text_eq_iff}
use multi_agentic_workflow.Base.JsMap
use multi_agentic_workflow.Base.JsMap.{JsMap}
use multi_agentic_workflow.Protocol.{Platform, EventEnvelope}
use multi_agentic_workflow.Session.{session_key}
use multi_agentic_workflow.Ingest.{
  Validation, valid, PermissionDecision, permitted, ApplierRejection, IngestResult, IngestGate,
  World, applied_at, record_applied, ingest, check, authorize, admit,
}
use multi_agentic_workflow.Ingest.Outcome.{
  accept, consumed, given, Outcome, is_invalid, is_denied, is_duplicate, is_replay, is_rejected,
  is_applied, ingest-Outcome,
}

-- The applied index answers for what was recorded last under the key and the event, and for all
-- else as before.
pub applied_at-record_applied :
    (g : IngestGate) (key event_id k i : Text) (revision : ℕ)
    → applied_at (record_applied g key event_id revision) k i
      ≡ (if text_eq key k && text_eq event_id i then some revision else applied_at g k i)
unfolding applied_at record_applied JsMap.get_or
applied_at-record_applied g key event_id k i revision =
    let events = JsMap.get_or key [] g.applied_by_session in
    ground (
      arith,
      JsMap.get-set key k (JsMap.set event_id revision events) g.applied_by_session,
      JsMap.get-set event_id i revision events,
      text_eq_iff key k,
      JsMap.get_nil {V = ℕ} i,
    )

module _ {P D I : Type 0} (p : Platform) (validate : I → Validation P)
    (check_permission : EventEnvelope P → PermissionDecision)
    (apply : EventEnvelope P → ℕ → D → D × Option ApplierRejection) where
  Outcome-keeps :
      {w w' : World D} {input : I} {r : IngestResult} (k i : Text) (n : ℕ)
      → Outcome p validate check_permission apply w input w' r
      → applied_at w.gate k i ≡ some n
      → applied_at w'.gate k i ≡ some n
  unfolding consumed applied_at
  Outcome-keeps k i n (is_invalid code reason v) a = a
  Outcome-keeps k i n (is_denied e code reason v q) a = a
  Outcome-keeps k i n (is_duplicate e prior v q b) a = a
  Outcome-keeps k i n (is_replay e code reason v q b d) a = a
  Outcome-keeps k i n (is_rejected e guard domain rejection f h) a = a
  Outcome-keeps {w} k i n (is_applied e guard domain f h) a = ground (
    arith,
    f.2,
    text_eq_iff (session_key p e.session) k,
    text_eq_iff e.event_id i,
    applied_at-record_applied (consumed p validate check_permission apply w e guard)
        (session_key p e.session) e.event_id k i (given p validate check_permission apply w e),
  )

  unfoldable pub run : World D → List I → World D
  run w [] = w
  run w (input ∷ inputs) = run (ingest p validate check_permission apply w input).0 inputs

  run-keeps :
      (w : World D) (inputs : List I) (k i : Text) (n : ℕ)
      → applied_at w.gate k i ≡ some n
      → applied_at (run w inputs).gate k i ≡ some n
  unfolding run
  run-keeps w [] k i n a = a
  run-keeps w (input ∷ inputs) k i n a =
      run-keeps (ingest p validate check_permission apply w input).0 inputs k i n
        (Outcome-keeps k i n (ingest-Outcome p validate check_permission apply w input) a)

  Outcome-recorded :
      {w w' : World D} {input : I} {r : IngestResult} (e : EventEnvelope P) (n : ℕ)
      → Outcome p validate check_permission apply w input w' r
      → validate input ≡ valid e
      → r ≡ accept (some n) none
      → applied_at w'.gate (session_key p e.session) e.event_id ≡ some n
  Outcome-recorded e n (is_invalid code reason v) u h = cc
  Outcome-recorded e n (is_denied e' code reason v q) u h = cc
  Outcome-recorded e n (is_duplicate e' prior v q b) u h = cc
  Outcome-recorded e n (is_replay e' code reason v q b d) u h = cc
  Outcome-recorded e n (is_rejected e' guard domain rejection f h') u h = cc
  Outcome-recorded {w} e n (is_applied e' guard domain f h') u h = ground (
    arith,
    f.0,
    text_eq_iff (session_key p e'.session) (session_key p e.session),
    text_eq_iff e'.event_id e.event_id,
    applied_at-record_applied (consumed p validate check_permission apply w e' guard)
        (session_key p e'.session) e'.event_id (session_key p e.session) e.event_id
        (given p validate check_permission apply w e'),
  )

  answer_recorded :
      (w : World D) (input : I) (e : EventEnvelope P) (n : ℕ)
      → validate input ≡ valid e
      → check_permission e ≡ permitted
      → applied_at w.gate (session_key p e.session) e.event_id ≡ some n
      → ingest p validate check_permission apply w input ≡ (w, accept (some n) (some n))
  unfolding ingest check authorize admit
  answer_recorded w input e n v q a = rw (v, check, q, authorize, a, admit)

  -- An event is applied at most once: after it has been accepted under a revision, and after any
  -- inputs since, a valid event of the same session with the same id that the permission check
  -- permits is answered with that revision as a duplicate and changes nothing.
  pub ingest_once :
      (w : World D) (input : I) (e : EventEnvelope P) (n : ℕ) (inputs : List I) (input' : I)
      (e' : EventEnvelope P)
      → validate input ≡ valid e
      → (ingest p validate check_permission apply w input).1 ≡ accept (some n) none
      → validate input' ≡ valid e'
      → check_permission e' ≡ permitted
      → session_key p e'.session ≡ session_key p e.session
      → e'.event_id ≡ e.event_id
      → ingest p validate check_permission apply
          (run (ingest p validate check_permission apply w input).0 inputs)
          input'
        ≡ (
          run (ingest p validate check_permission apply w input).0 inputs,
          accept (some n) (some n),
        )
  ingest_once w input e n inputs input' e' v r v' q k i =
      answer_recorded (run (ingest p validate check_permission apply w input).0 inputs) input' e' n
        v' q
        (rw (k, i)
          (run-keeps (ingest p validate check_permission apply w input).0 inputs
            (session_key p e.session) e.event_id n
            (Outcome-recorded e n (ingest-Outcome p validate check_permission apply w input) v r)))
