-- ===== src/Coalesce/History.antt =====
-- Over any history of calls on a new engine, nothing that was buffered is lost.
use multi_agentic_workflow.Base.{
  ℕ, ◌≡◌, subst, ◌⊎◌, inl, inr, List, [], ◌∷◌, Option, some, false, arith, Bool-cases, leb, push,
  length, In,
}
use multi_agentic_workflow.Base.Text.{Text}
use multi_agentic_workflow.Base.JsMap
use multi_agentic_workflow.Base.JsMap.{JsMap}
use multi_agentic_workflow.Base.MapKeys.{HasKeys, set-HasKeys, delete-HasKeys}
use multi_agentic_workflow.Protocol.{Platform, Number, nat, other}
use multi_agentic_workflow.RepoPath.{CaseSensitivity}
use multi_agentic_workflow.Coalesce.{
  OutboundEvent, Coalescer, new_coalescer, with_limit, enqueue, was_sent, discard, emit, flush,
  reset_sent_state, candidates,
}
use multi_agentic_workflow.Coalesce.Flush.{flush_keeps}

pub data Call (T : Type 0) : Type 0 where
  enqueues : OutboundEvent T → Call T
  flushes resets : Call T

module _ {T : Type 0} where
  unfoldable pub step : Platform → Coalescer T → Call T → Coalescer T
  step p c (enqueues e) = enqueue p c e
  step p c flushes = (flush c).0
  step p c resets = reset_sent_state c

  unfoldable pub run : Platform → Coalescer T → List (Call T) → Coalescer T
  run p c [] = c
  run p c (call ∷ calls) = run p (step p c call) calls

  discard-HasKeys :
      (sent : JsMap Text) (es : List (Text × OutboundEvent T)) (m : JsMap (OutboundEvent T))
      → HasKeys m
      → HasKeys (discard sent es m)
  unfolding discard
  discard-HasKeys sent [] m h = h
  discard-HasKeys sent (entry ∷ es) m h = elim (Bool-cases (was_sent sent entry)) [
    | inl e ↦ rw e (discard-HasKeys sent es (JsMap.delete entry.0 m) (delete-HasKeys entry.0 m h))
    | inr e ↦ rw e (discard-HasKeys sent es m h)
  ]

  emit-HasKeys :
      (c : Coalescer T) (emitted : List (OutboundEvent T)) (cs : List (Text × OutboundEvent T))
      → HasKeys c.buffered
      → HasKeys (emit c emitted cs).0.buffered
  unfolding emit
  emit-HasKeys c emitted [] h = h
  emit-HasKeys c emitted ((key, e) ∷ cs) h =
      elim (Bool-cases (leb c.max_events_per_window (length emitted))) [
        | inl y ↦ rw y h
        | inr n ↦ rw n (
            emit-HasKeys
              (record c {
                last_sent = JsMap.set key e.state_signature c.last_sent;
                buffered = JsMap.delete key c.buffered;
              })
              (push emitted e) cs (delete-HasKeys key c.buffered h))
      ]

  step-HasKeys :
      (p : Platform) (c : Coalescer T) (call : Call T)
      → HasKeys c.buffered
      → HasKeys (step p c call).buffered
  unfolding step enqueue flush reset_sent_state
  step-HasKeys p c (enqueues e) h = set-HasKeys _ _ c.buffered h
  step-HasKeys p c flushes h =
      emit-HasKeys (record c { buffered = discard c.last_sent c.buffered c.buffered }) []
        (candidates c) (discard-HasKeys c.last_sent c.buffered c.buffered h)
  step-HasKeys p c resets h = h

  run-HasKeys :
      (p : Platform) (c : Coalescer T) (calls : List (Call T))
      → HasKeys c.buffered
      → HasKeys (run p c calls).buffered
  unfolding run
  run-HasKeys p c [] h = h
  run-HasKeys p c (call ∷ calls) h = run-HasKeys p (step p c call) calls (step-HasKeys p c call h)

  with_limit-HasKeys :
      (window : ℕ) (s : Option CaseSensitivity) (limit : Number) (c : Coalescer T)
      → with_limit window s limit ≡ some c
      → HasKeys c.buffered
  unfolding with_limit
  with_limit-HasKeys window s other c e = absurd (ground (arith, e))
  with_limit-HasKeys window s (nat limit) c e =
      subst HasKeys {x = []} {y = c.buffered} (ground (arith, e)) tt

  -- Nothing is lost: after any history of calls on a new engine, an event that is buffered for a
  -- key, and is not what was last sent for that key, is sent by a flush or stays buffered for the
  -- next one.
  pub flush-run_keeps :
      (p : Platform) (window : Option ℕ) (limit : Option Number) (s : Option CaseSensitivity)
      (c : Coalescer T) (calls : List (Call T)) (k : Text) (e : OutboundEvent T)
      → new_coalescer window limit s ≡ some c
      → JsMap.get k (run p c calls).buffered ≡ some e
      → was_sent (run p c calls).last_sent (k, e) ≡ false
      → (JsMap.get k (flush (run p c calls)).0.buffered ≡ some e) ⊎ In e (flush (run p c calls)).1
  unfolding new_coalescer
  flush-run_keeps p window limit s c calls k e made g n =
      flush_keeps (run p c calls) k e (run-HasKeys p c calls (with_limit-HasKeys _ s _ c made)) g n
