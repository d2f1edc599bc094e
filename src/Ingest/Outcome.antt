-- ===== src/Ingest/Outcome.antt =====
-- What each path through the gate answers and does to the state.
use multi_agentic_workflow.Base.{
  ℕ, ◌≡◌, ◌≢◌, refl, ap, subst, sym, ◌⊎◌, Option, none, some, true, arith,
}
use multi_agentic_workflow.Base.Text.{Text}
use multi_agentic_workflow.Protocol.{Platform, ErrorCode, EventEnvelope}
use multi_agentic_workflow.Session.{session_key}
use multi_agentic_workflow.Revisions.{next}
use multi_agentic_workflow.Replay
use multi_agentic_workflow.Replay.{ReplayGuard, ReplayDecision, accept_replay}
use multi_agentic_workflow.Replay.History.{accept_replay-rejected}
use multi_agentic_workflow.Ingest.{
  Validation, valid, invalid, PermissionDecision, permitted, denied, ApplierRejection, IngestResult,
  IngestGate, World, refuse, applied_at, record_applied, ingest, check, authorize, admit, commit,
  settle,
}

abbrev pub accept : Option ℕ → Option ℕ → IngestResult
accept revision duplicate = record {
  accepted = true;
  event_revision = revision;
  duplicate_of = duplicate;
  error = none;
  reason = none;
}

module _ {P D I : Type 0} (p : Platform) (validate : I → Validation P)
    (check_permission : EventEnvelope P → PermissionDecision)
    (apply : EventEnvelope P → ℕ → D → D × Option ApplierRejection) where
  -- The state after a fresh event has passed the guard: the guard and the counter have moved.
  unfoldable pub consumed : World D → EventEnvelope P → ReplayGuard → IngestGate
  consumed w e guard = record w.gate {
    revisions = (next p w.gate.revisions e.session).0;
    replay_guard = guard;
  }

  abbrev pub given : World D → EventEnvelope P → ℕ
  given w e = (next p w.gate.revisions e.session).1

  abbrev pub IsFresh : World D → I → EventEnvelope P → ReplayGuard → Type 0
  IsFresh w input e guard =
      (validate input ≡ valid e)
      × (check_permission e ≡ permitted)
      × (applied_at w.gate (session_key p e.session) e.event_id ≡ none)
      × (accept_replay w.gate.replay_guard e.device_id e.counter e.nonce ≡ (guard, Replay.accepted))

  -- What the gate promises: the order of the checks, and what each outcome leaves behind.
  pub data Outcome (w : World D) (input : I) : World D → IngestResult → Type 0 where
    is_invalid :
        (code : ErrorCode) (reason : Text)
        → validate input ≡ invalid code reason
        → Outcome w input w (refuse code reason none)
    is_denied :
        (e : EventEnvelope P) (code : ErrorCode) (reason : Text)
        → validate input ≡ valid e
        → check_permission e ≡ denied code reason
        → Outcome w input w (refuse code reason none)
    is_duplicate :
        (e : EventEnvelope P) (prior : ℕ)
        → validate input ≡ valid e
        → check_permission e ≡ permitted
        → applied_at w.gate (session_key p e.session) e.event_id ≡ some prior
        → Outcome w input w (accept (some prior) (some prior))
    is_replay :
        (e : EventEnvelope P) (code : ErrorCode) (reason : Text)
        → validate input ≡ valid e
        → check_permission e ≡ permitted
        → applied_at w.gate (session_key p e.session) e.event_id ≡ none
        → (accept_replay w.gate.replay_guard e.device_id e.counter e.nonce).1
          ≡ Replay.rejected code reason
        → Outcome w input w (refuse code reason none)
    is_rejected :
        (e : EventEnvelope P) (guard : ReplayGuard) (domain : D) (rejection : ApplierRejection)
        → IsFresh w input e guard
        → apply e (given w e) w.domain ≡ (domain, some rejection)
        → Outcome w input
            (record { gate = consumed w e guard; domain = domain })
            (refuse rejection.code rejection.reason (some (given w e)))
    is_applied :
        (e : EventEnvelope P) (guard : ReplayGuard) (domain : D)
        → IsFresh w input e guard
        → apply e (given w e) w.domain ≡ (domain, none)
        → Outcome w input
            (record {
              gate =
                  record_applied
                    (consumed w e guard)
                    (session_key p e.session)
                    e.event_id
                    (given w e);
              domain = domain;
            })
            (accept (some (given w e)) none)

  settle-Outcome :
      (w : World D) (input : I) (e : EventEnvelope P) (guard : ReplayGuard)
      (verdict : D × Option ApplierRejection)
      → IsFresh w input e guard
      → apply e (given w e) w.domain ≡ verdict
      → let r =
          settle p validate check_permission apply
            (record w { gate = consumed w e guard })
            (session_key p e.session)
            e.event_id
            (given w e)
            verdict in
        Outcome w input r.0 r.1
  unfolding settle
  settle-Outcome w input e guard (domain, some rejection) f h =
      is_rejected e guard domain rejection f h
  settle-Outcome w input e guard (domain, none) f h = is_applied e guard domain f h

  commit-Outcome :
      (w : World D) (input : I) (e : EventEnvelope P) (r : ReplayGuard × ReplayDecision)
      → validate input ≡ valid e
      → check_permission e ≡ permitted
      → applied_at w.gate (session_key p e.session) e.event_id ≡ none
      → accept_replay w.gate.replay_guard e.device_id e.counter e.nonce ≡ r
      → Outcome w input
          (commit p validate check_permission apply w e r).0
          (commit p validate check_permission apply w e r).1
  unfolding commit consumed
  commit-Outcome w input e (guard, Replay.rejected code reason) v q a h =
      subst
        (λ g.
          Outcome w input (record w { gate = record w.gate { replay_guard = g } })
            (refuse code reason none))
        (sym (
          accept_replay-rejected w.gate.replay_guard guard e.device_id e.counter e.nonce code reason
            h))
        (is_replay e code reason v q a (ap (λ x. x.1) h))
  commit-Outcome w input e (guard, Replay.accepted) v q a h =
      settle-Outcome w input e guard (apply e (given w e) w.domain) (v, q, a, h) refl

  admit-Outcome :
      (w : World D) (input : I) (e : EventEnvelope P) (prior : Option ℕ)
      → validate input ≡ valid e
      → check_permission e ≡ permitted
      → applied_at w.gate (session_key p e.session) e.event_id ≡ prior
      → Outcome w input
          (admit p validate check_permission apply w e prior).0
          (admit p validate check_permission apply w e prior).1
  unfolding admit
  admit-Outcome w input e (some prior) v q a = is_duplicate e prior v q a
  admit-Outcome w input e none v q a = commit-Outcome w input e _ v q a refl

  authorize-Outcome :
      (w : World D) (input : I) (e : EventEnvelope P) (d : PermissionDecision)
      → validate input ≡ valid e
      → check_permission e ≡ d
      → Outcome w input
          (authorize p validate check_permission apply w e d).0
          (authorize p validate check_permission apply w e d).1
  unfolding authorize
  authorize-Outcome w input e (denied code reason) v q = is_denied e code reason v q
  authorize-Outcome w input e permitted v q = admit-Outcome w input e _ v q refl

  check-Outcome :
      (w : World D) (input : I) (v : Validation P)
      → validate input ≡ v
      → Outcome w input
          (check p validate check_permission apply w v).0
          (check p validate check_permission apply w v).1
  unfolding check
  check-Outcome w input (invalid code reason) h = is_invalid code reason h
  check-Outcome w input (valid e) h = authorize-Outcome w input e _ h refl

  -- Every input has one of six outcomes, checked in this order. An invalid or denied one, a
  -- duplicate and a replay leave the gate and the domain as they were; an event that the applier
  -- rejects has used up its counter, nonce and revision but is not recorded; any other is applied
  -- under the next revision and recorded.
  pub ingest-Outcome :
      (w : World D) (input : I)
      → Outcome w input
          (ingest p validate check_permission apply w input).0
          (ingest p validate check_permission apply w input).1
  unfolding ingest
  ingest-Outcome w input = check-Outcome w input (validate input) refl

  Outcome-unchanged :
      {w w' : World D} {input : I} {r : IngestResult}
      → Outcome w input w' r
      → (r.event_revision ≡ none) ⊎ (r.duplicate_of ≢ none)
      → w' ≡ w
  Outcome-unchanged (is_invalid code reason v) h = refl
  Outcome-unchanged (is_denied e code reason v q) h = refl
  Outcome-unchanged (is_duplicate e prior v q a) h = refl
  Outcome-unchanged (is_replay e code reason v q a d) h = refl
  Outcome-unchanged (is_rejected e guard domain rejection f h) k = absurd (ground (arith, k))
  Outcome-unchanged (is_applied e guard domain f h) k = absurd (ground (arith, k))

  -- An event that is refused without a revision, or that is answered as a duplicate, leaves the
  -- gate and the domain as they were.
  pub ingest_unchanged :
      (w : World D) (input : I)
      → ((ingest p validate check_permission apply w input).1.event_revision ≡ none)
        ⊎ ((ingest p validate check_permission apply w input).1.duplicate_of ≢ none)
      → (ingest p validate check_permission apply w input).0 ≡ w
  ingest_unchanged w input h = Outcome-unchanged (ingest-Outcome w input) h
