-- ===== src/Ingest/Distinct.antt =====
-- The revisions under which a session's events have been applied are distinct, and none is above
-- the session's counter.
use native.Mathlib.Nat.{le_trans}
use multi_agentic_workflow.Base.{
  ℕ, ◌≤◌, ◌≡◌, sym, ◌∙◌, List, [], ◌∷◌, Option, some, arith, ◌⊎◌, inl, inr,
}
use multi_agentic_workflow.Base.Text.{Text, text_eq_iff}
use multi_agentic_workflow.Base.JsMap
use multi_agentic_workflow.Protocol.{Platform, EventEnvelope}
use multi_agentic_workflow.Session.{session_key}
use multi_agentic_workflow.Revisions.{RevisionCounter, highest_at}
use multi_agentic_workflow.Revisions.Order.{highest_at-next, highest_at-next-le, next-above}
use multi_agentic_workflow.Replay.{ReplayGuard}
use multi_agentic_workflow.Ingest.{
  Validation, PermissionDecision, ApplierRejection, IngestResult, IngestGate, World, applied_at,
  record_applied, record_all, new_gate, ingest,
}
use multi_agentic_workflow.Ingest.Outcome.{
  Outcome, is_invalid, is_denied, is_duplicate, is_replay, is_rejected, is_applied, consumed, given,
  ingest-Outcome,
}
use multi_agentic_workflow.Ingest.Once.{applied_at-record_applied, run}

-- Every applied revision is at most the session's highest, and belongs to one event only.
pub record IsOrdered (g : IngestGate) : Type 0 where
  pub bounded : (k i : Text) (r : ℕ) → applied_at g k i ≡ some r → r ≤ highest_at g.revisions k
  pub distinct :
      (k i j : Text) (r : ℕ) → applied_at g k i ≡ some r → applied_at g k j ≡ some r → i ≡ j

new_gate-IsOrdered :
    (p : Platform) (revisions : RevisionCounter) (guard : ReplayGuard)
    → IsOrdered (new_gate p revisions guard [])
unfolding new_gate record_all applied_at JsMap.get_or JsMap.get
new_gate-IsOrdered p revisions guard = record {
  bounded = λ k i r a. absurd (ground (arith, a));
  distinct = λ k i j r a b. absurd (ground (arith, a));
}

module _ {P D I : Type 0} (p : Platform) (validate : I → Validation P)
    (check_permission : EventEnvelope P → PermissionDecision)
    (apply : EventEnvelope P → ℕ → D → D × Option ApplierRejection) where
  consumed-IsOrdered :
      (w : World D) (e : EventEnvelope P) (guard : ReplayGuard)
      → IsOrdered w.gate
      → IsOrdered (consumed p validate check_permission apply w e guard)
  unfolding consumed applied_at
  consumed-IsOrdered w e guard v = record {
    bounded =
        λ k i r a. le_trans (v.bounded k i r a) (highest_at-next-le p w.gate.revisions e.session k);
    distinct = λ k i j r a b. v.distinct k i j r a b;
  }

  -- The index after an application, read at one place, and the revisions beside it.
  applied_cases :
      (w : World D) (e : EventEnvelope P) (guard : ReplayGuard) (k i : Text) (r : ℕ)
      → let g = consumed p validate check_permission apply w e guard in
        let n = given p validate check_permission apply w e in
        let key = session_key p e.session in
        applied_at (record_applied g key e.event_id n) k i ≡ some r
        → ((r ≡ n) × (key ≡ k) × (e.event_id ≡ i)) ⊎ (applied_at w.gate k i ≡ some r)
  unfolding consumed applied_at
  applied_cases w e guard k i r a =
      let key = session_key p e.session in
      let n = given p validate check_permission apply w e in
      ground (
        arith,
        text_eq_iff key k,
        text_eq_iff e.event_id i,
        applied_at-record_applied (consumed p validate check_permission apply w e guard) key
            e.event_id k i n,
      )

  above :
      (w : World D) (e : EventEnvelope P) (r : ℕ) (k : Text)
      → session_key p e.session ≡ k
      → r ≡ given p validate check_permission apply w e
      → r ≤ highest_at w.gate.revisions k
      → ⊥
  above w e r k same q h =
      let le : r ≤ highest_at w.gate.revisions (session_key p e.session) = rw same h in
      omega (arith, next-above p w.gate.revisions e.session)

  applied-IsOrdered :
      (w : World D) (e : EventEnvelope P) (guard : ReplayGuard)
      → IsOrdered w.gate
      → IsOrdered (
          record_applied
            (consumed p validate check_permission apply w e guard)
            (session_key p e.session)
            e.event_id
            (given p validate check_permission apply w e))
  unfolding consumed record_applied
  applied-IsOrdered w e guard v = record {
    bounded = λ k i r a. elim (applied_cases w e guard k i r a) [
      | inl (q, same, _) ↦ ground (
        arith,
        highest_at-next p w.gate.revisions e.session k,
        text_eq_iff (session_key p e.session) k,
      )
      | inr old ↦ le_trans (v.bounded k i r old) (highest_at-next-le p w.gate.revisions e.session k)
    ];
    distinct = λ k i j r a b. elim (applied_cases w e guard k i r a) [
      | inl (q, same, x) ↦ elim (applied_cases w e guard k j r b) [
        | inl (_, _, y) ↦ sym x ∙ y
        | inr old ↦ absurd (above w e r k same q (v.bounded k j r old))
      ]
      | inr old ↦ elim (applied_cases w e guard k j r b) [
        | inl (q, same, _) ↦ absurd (above w e r k same q (v.bounded k i r old))
        | inr old' ↦ v.distinct k i j r old old'
      ]
    ];
  }

  Outcome-IsOrdered :
      {w w' : World D} {input : I} {r : IngestResult}
      → Outcome p validate check_permission apply w input w' r
      → IsOrdered w.gate
      → IsOrdered w'.gate
  Outcome-IsOrdered (is_invalid code reason v) h = h
  Outcome-IsOrdered (is_denied e code reason v q) h = h
  Outcome-IsOrdered (is_duplicate e prior v q b) h = h
  Outcome-IsOrdered (is_replay e code reason v q b d) h = h
  Outcome-IsOrdered {w} (is_rejected e guard domain rejection f x) h =
      consumed-IsOrdered w e guard h
  Outcome-IsOrdered {w} (is_applied e guard domain f x) h = applied-IsOrdered w e guard h

  pub run-IsOrdered :
      (w : World D) (inputs : List I)
      → IsOrdered w.gate
      → IsOrdered (run p validate check_permission apply w inputs).gate
  unfolding run
  run-IsOrdered w [] h = h
  run-IsOrdered w (input ∷ inputs) h =
      run-IsOrdered (ingest p validate check_permission apply w input).0 inputs
        (Outcome-IsOrdered (ingest-Outcome p validate check_permission apply w input) h)

  abbrev pub started : RevisionCounter → ReplayGuard → D → World D
  started revisions guard domain = record { gate = new_gate p revisions guard []; domain = domain }

  -- From a gate without applied events, after any inputs, no two events of a session are applied
  -- under one revision.
  pub run_distinct :
      (revisions : RevisionCounter) (guard : ReplayGuard) (domain : D) (inputs : List I)
      (k i j : Text) (r : ℕ)
      → applied_at
          (run p validate check_permission apply (started revisions guard domain) inputs).gate
          k
          i
        ≡ some r
      → applied_at
          (run p validate check_permission apply (started revisions guard domain) inputs).gate
          k
          j
        ≡ some r
      → i ≡ j
  run_distinct revisions guard domain inputs k i j r a b =
      (run-IsOrdered (started revisions guard domain) inputs
          (new_gate-IsOrdered p revisions guard)).distinct
        k i j r a b
