-- ===== src/Replay/History.antt =====
-- Over any history, the events that the guard accepts from one device have increasing counters and
-- distinct nonces.
use multi_agentic_workflow.Base.{
  ℕ, ◌≤◌, ◌<◌, ◌≡◌, refl, ap, sym, subst, ◌∙◌, ◌≢◌, List, [], ◌∷◌, true, false, leb, if◌then◌else◌,
  arith, Bool-cases, ◌⊎◌, inl, inr,
}
use multi_agentic_workflow.Base.Text.{Text, text_eq, text_eq_iff}
use multi_agentic_workflow.Base.JsMap
use multi_agentic_workflow.Base.JsMap.{JsMap}
use multi_agentic_workflow.Base.JsSet
use multi_agentic_workflow.Protocol.{Number, nat, other, ErrorCode}
use multi_agentic_workflow.Replay.{
  ReplayRecord, ReplayDecision, accepted, rejected, evaluate_replay, ReplayGuard, record_or_empty,
  accept_replay,
}

-- Acceptance is exactly a natural counter above the highest one with a fresh nonce. It moves the
-- counter up and uses the nonce; a rejection gives the record back as it was.
pub evaluate_replay_lem :
    (r : ReplayRecord) (counter : ℕ) (nonce : Text)
    → let e = evaluate_replay r (nat counter) nonce in
      ((e.0 ≡ accepted)
        × (r.highest_counter < counter)
        × (JsSet.has r.used_nonces nonce ≡ false)
        × (e.1.highest_counter ≡ counter)
        × (e.1.used_nonces ≡ JsSet.add r.used_nonces nonce))
      ⊎ ((e.0 ≢ accepted)
          × ((counter ≤ r.highest_counter) ⊎ (JsSet.has r.used_nonces nonce ≡ true))
          × (e.1 ≡ r))
unfolding evaluate_replay
evaluate_replay_lem r counter nonce = elim (Bool-cases (leb counter r.highest_counter)) [
  | inl e ↦ rw e (inr ((λ q. cc), inl (ground (arith, e)), refl))
  | inr e ↦ rw e (elim (Bool-cases (JsSet.has r.used_nonces nonce)) [
    | inl u ↦ rw u (inr ((λ q. cc), inr refl, refl))
    | inr u ↦ rw u (inl (refl, ground (arith, e), refl, refl, refl))
  ])
]

-- An event as the guard sees it.
pub record Attempt : Type 0 where
  pub device_id : Text
  pub counter : Number
  pub nonce : Text

note : Text → Attempt → ReplayDecision → List (Number × Text) → List (Number × Text)
note d a accepted later = if text_eq a.device_id d then (a.counter, a.nonce) ∷ later else later
note d a (rejected code reason) later = later

-- The counters and nonces that a history of attempts gets accepted for one device.
pub accepted_for : Text → ReplayGuard → List Attempt → List (Number × Text)
accepted_for d g [] = []
accepted_for d g (a ∷ rest) =
    let r = accept_replay g a.device_id a.counter a.nonce in note d a r.1 (accepted_for d r.0 rest)

-- Counters that increase from `n`, each with a nonce that is not among those used before it.
abbrev pub Fresh : ℕ → List Text → List (Number × Text) → Type 0
Fresh n used [] = Unit {0}
Fresh n used ((other, nonce) ∷ rest) = ⊥
Fresh n used ((nat c, nonce) ∷ rest) =
    (n < c) × (JsSet.has used nonce ≡ false) × Fresh c (JsSet.add used nonce) rest

record_or_empty-set :
    (g : ReplayGuard) (k d : Text) (r : ReplayRecord)
    → record_or_empty (JsMap.set k r g) d ≡ (if text_eq k d then r else record_or_empty g d)
unfolding record_or_empty JsMap.get_or
record_or_empty-set g k d r = ground (arith, JsMap.get-set k d r g)

-- What one call does to the guard.
accept_replay_cases :
    (g : ReplayGuard) (d : Text) (counter : Number) (nonce : Text)
    → let r = record_or_empty g d in
      ((c : ℕ) × (counter ≡ nat c)
        × (r.highest_counter < c)
        × (JsSet.has r.used_nonces nonce ≡ false)
        × (accept_replay g d counter nonce ≡ (
          JsMap.set d
              (record { highest_counter = c; used_nonces = JsSet.add r.used_nonces nonce })
              g,
          accepted,
        )))
      ⊎ ((code : ErrorCode) × (reason : Text) × (accept_replay g d counter nonce
            ≡ (g, rejected code reason)))
unfolding accept_replay evaluate_replay
accept_replay_cases g d other nonce = inr (_, _, refl)
accept_replay_cases g d (nat c) nonce =
    let r = record_or_empty g d in
    elim (Bool-cases (leb c r.highest_counter)) [
      | inl e ↦ rw e (inr (_, _, refl))
      | inr e ↦ rw e (elim (Bool-cases (JsSet.has r.used_nonces nonce)) [
        | inl u ↦ rw u (inr (_, _, refl))
        | inr u ↦ rw u (inl (c, refl, ground (arith, e), refl, refl))
      ])
    ]

-- A rejection leaves the guard as it was.
pub accept_replay-rejected :
    (g g' : ReplayGuard) (d : Text) (counter : Number) (nonce : Text) (code : ErrorCode)
    (reason : Text)
    → accept_replay g d counter nonce ≡ (g', rejected code reason)
    → g' ≡ g
accept_replay-rejected g g' d counter nonce code reason h =
    elim (accept_replay_cases g d counter nonce) [
      | inl (c, q, lt, new, e) ↦ cc (ap (λ r. r.1) (sym h ∙ e))
      | inr (code', reason', e) ↦ ap (λ r. r.0) (sym h ∙ e)
    ]

abbrev advanced : ReplayGuard → Text → Attempt → ℕ → ReplayRecord
advanced g k a c = record {
  highest_counter = c;
  used_nonces = JsSet.add (record_or_empty g k).used_nonces a.nonce;
}

abbrev stored : ReplayGuard → Attempt → ℕ → ReplayGuard
stored g a c = JsMap.set a.device_id (advanced g a.device_id a c) g

-- Over any history of attempts by any devices, what the guard accepts from one device has strictly
-- increasing counters above the highest it knew, and nonces never used by the device before.
pub accepted_for-Fresh :
    (d : Text) (g : ReplayGuard) (attempts : List Attempt)
    → let r = record_or_empty g d in
      Fresh r.highest_counter r.used_nonces (accepted_for d g attempts)
unfolding accepted_for note
accepted_for-Fresh d g [] = tt
accepted_for-Fresh d g (a ∷ rest) = elim (accept_replay_cases g a.device_id a.counter a.nonce) [
  | inr (code, reason, e) ↦ rw (e, note) (accepted_for-Fresh d g rest)
  | inl (c, q, lt, new, e) ↦
      rw (e, note, q)
        (elim (Bool-cases (text_eq a.device_id d)) [
          | inl same ↦
              let p : a.device_id ≡ d = (text_eq_iff a.device_id d).0 same in
              rw same (
                subst (λ k. (record_or_empty g k).highest_counter < c) p lt,
                subst (λ k. JsSet.has (record_or_empty g k).used_nonces a.nonce ≡ false) p new,
                subst
                    (λ r.
                      Fresh r.highest_counter r.used_nonces (accepted_for d (stored g a c) rest))
                    (record_or_empty-set g a.device_id d (advanced g a.device_id a c)
                      ∙ rw (same, p))
                    (accepted_for-Fresh d (stored g a c) rest),
              )
          | inr different ↦ rw different (
              subst
                (λ r. Fresh r.highest_counter r.used_nonces (accepted_for d (stored g a c) rest))
                (record_or_empty-set g a.device_id d (advanced g a.device_id a c) ∙ rw different)
                (accepted_for-Fresh d (stored g a c) rest))
        ])
]
