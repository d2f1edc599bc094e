-- ===== src/Coalesce.antt =====
-- packages/core-state/src/coalesce.ts: the engine that collapses, deduplicates and bounds a
-- member's outbound events. A method returns the new engine with its result.
pub mod Flush
pub mod History
mod Tests
use multi_agentic_workflow.Base.{
  ℕ, suc, max, min, ◌++◌, List, [], ◌∷◌, map, Option, none, some, Bool, true, false, not, leb, ltb,
  if◌then◌else◌, select, push, length,
}
use multi_agentic_workflow.Base.Text.{Text, codes, text_eq}
use multi_agentic_workflow.Base.JsMap
use multi_agentic_workflow.Base.JsMap.{JsMap}
use multi_agentic_workflow.Base.Sort.{sort_by}
use multi_agentic_workflow.Protocol.{Platform, MemberRef, Number, nat, other}
use multi_agentic_workflow.RepoPath.{CaseSensitivity, normalize_path, normalized_key}

pub data CoalescableKind : Type 0 where
  presence lock : CoalescableKind

pub record OutboundEvent (T : Type 0) : Type 0 where
  pub seq : ℕ
  pub kind : CoalescableKind
  pub path : Text
  pub member : MemberRef
  pub state_signature : Text
  pub payload : T

pub record Coalescer (T : Type 0) : Type 0 where
  pub window_ms : ℕ
  pub max_events_per_window : ℕ
  pub sensitivity : Option CaseSensitivity
  pub buffered : JsMap (OutboundEvent T)
  pub last_sent : JsMap Text

abbrev pub kind_text : CoalescableKind → Text
kind_text presence = codes "presence"
kind_text lock = codes "lock"

-- A missing or not finite request is `none`; the others are whole milliseconds.
pub clamp_window : Option ℕ → ℕ
clamp_window none = 2000
clamp_window (some requested) = min 10000 (max 1000 requested)

module _ {T : Type 0} where
  pub coalesce_key : Platform → Option CaseSensitivity → OutboundEvent T → Text
  coalesce_key p s e =
      kind_text e.kind ++ 0 ∷ (e.member.member_id ++ 0 ∷ normalized_key p s (normalize_path e.path))

  -- `none` is the RangeError of the constructor.
  pub with_limit : ℕ → Option CaseSensitivity → Number → Option (Coalescer T)
  with_limit window s other = none
  with_limit window s (nat limit) =
      if ltb limit 1
      then none
      else some (record {
        window_ms = window;
        max_events_per_window = limit;
        sensitivity = s;
        buffered = [];
        last_sent = [];
      })

  pub new_coalescer : Option ℕ → Option Number → Option CaseSensitivity → Option (Coalescer T)
  new_coalescer window limit s =
      with_limit (clamp_window window) s (elim limit [ none ↦ nat 20 | some n ↦ n ])

  pub latest : Option (OutboundEvent T) → OutboundEvent T → OutboundEvent T
  latest none e = e
  latest (some existing) e = if leb existing.seq e.seq then e else existing

  pub enqueue : Platform → Coalescer T → OutboundEvent T → Coalescer T
  enqueue p c e =
      let key = coalesce_key p c.sensitivity e in
      record c { buffered = JsMap.set key (latest (JsMap.get key c.buffered) e) c.buffered }

  abbrev pub pending : Coalescer T → ℕ
  pending c = length c.buffered

  -- The signature is the one last sent for the key.
  pub was_sent : JsMap Text → Text × OutboundEvent T → Bool
  was_sent last_sent (key, e) = elim (JsMap.get key last_sent) [
    | none ↦ false
    | some signature ↦ text_eq signature e.state_signature
  ]

  -- The first loop of `flush`: it deletes the entries that were sent already.
  pub discard :
      JsMap Text → List (Text × OutboundEvent T) → JsMap (OutboundEvent T) → JsMap (OutboundEvent T)
  discard last_sent [] buffered = buffered
  discard last_sent (entry ∷ entries) buffered =
      discard last_sent entries
        (if was_sent last_sent entry then JsMap.delete entry.0 buffered else buffered)

  abbrev pub entry_seq : Text × OutboundEvent T → ℕ
  entry_seq entry = entry.1.seq

  abbrev pub unsent : Coalescer T → List (Text × OutboundEvent T)
  unsent c = select (λ entry. not (was_sent c.last_sent entry)) c.buffered

  pub candidates : Coalescer T → List (Text × OutboundEvent T)
  candidates c = sort_by entry_seq (unsent c)

  -- The second loop: it stops at the bound, and what is left stays buffered.
  pub emit :
      Coalescer T
      → List (OutboundEvent T)
      → List (Text × OutboundEvent T)
      → Coalescer T × List (OutboundEvent T)
  emit c emitted [] = (c, emitted)
  emit c emitted ((key, e) ∷ rest) =
      let done =
        emit
          (record c {
            last_sent = JsMap.set key e.state_signature c.last_sent;
            buffered = JsMap.delete key c.buffered;
          })
          (push emitted e) rest in
      if leb c.max_events_per_window (length emitted) then (c, emitted) else done

  pub flush : Coalescer T → Coalescer T × List (OutboundEvent T)
  flush c =
      emit (record c { buffered = discard c.last_sent c.buffered c.buffered }) [] (candidates c)

  pub reset_sent_state : Coalescer T → Coalescer T
  reset_sent_state c = record c { last_sent = [] }
