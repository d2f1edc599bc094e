-- ===== src/Locks/Flagged.antt =====
-- The flags of the stored claims: they single out the claim with the earliest Event_Revision.
use multi_agentic_workflow.Base.{
  ◌≡◌, ◌↔◌, refl, subst, sym, ◌∙◌, List, [], ◌∷◌, map, Option, false, not, arith, All,
}
use multi_agentic_workflow.Base.Text.{Text, text_eq, text_eq_iff}
use multi_agentic_workflow.Base.JsMap.{Holds}
use multi_agentic_workflow.Protocol.{Platform, Lock}
use multi_agentic_workflow.RepoPath.{CaseSensitivity}
use multi_agentic_workflow.Conflict.{earliest}
use multi_agentic_workflow.Conflict.Winner.{earliest-In, earliest-Wins}
use multi_agentic_workflow.Locks.{new_registry}
use multi_agentic_workflow.Locks.Group.{lock_claim, refreshed}
use multi_agentic_workflow.Locks.Settled.{resolve_group-cons}
use multi_agentic_workflow.Locks.Stored.{IsSettled, AreSettled}
use multi_agentic_workflow.Locks.Invariant.{Call, run, run-new_registry-IsValid}
use multi_agentic_workflow.Locks.Contention.{IsEarliest, Holds-map}

-- The claim with the winner's id is not concurrent, and every other one is.
abbrev pub AreFlaggedFor : Lock → List Lock → Type 0
AreFlaggedFor w claims = All (λ l. (l.concurrent ≡ false) ↔ (l.lock_id ≡ w.lock_id)) claims

-- The flags are those for a claim of the group with the earliest Event_Revision.
abbrev pub AreFlagged : List Lock → Type 0
AreFlagged claims = (w : Lock) × IsEarliest w claims × AreFlaggedFor w claims

not-false_iff : (a b : Text) → (not (text_eq a b) ≡ false) ↔ (a ≡ b)
not-false_iff a b =
    ((λ h. (text_eq_iff a b).0 (ground (arith, h))), λ e. ground (arith, (text_eq_iff a b).1 e))

pub refreshed-AreFlaggedFor : (w : Lock) (l : List Lock) → AreFlaggedFor w (map (refreshed w) l)
unfolding refreshed
refreshed-AreFlaggedFor w [] = tt
refreshed-AreFlaggedFor w (c ∷ l) = (not-false_iff c.lock_id w.lock_id, refreshed-AreFlaggedFor w l)

IsSettled-AreFlagged : (claims : List Lock) → IsSettled claims → AreFlagged claims
IsSettled-AreFlagged [] h = absurd (h.0 refl)
IsSettled-AreFlagged (c ∷ cs) h =
    let w = earliest c cs in
    (
      w,
      (earliest-In c cs, earliest-Wins c cs),
      subst (AreFlaggedFor w) (sym (resolve_group-cons c cs) ∙ h.1)
          (refreshed-AreFlaggedFor w (c ∷ cs)),
    )

-- After any history of calls from an empty registry, every stored group of claims has one with the
-- earliest Event_Revision of the group, the lower id deciding between equal revisions, and the
-- claims that are not flagged as concurrent are exactly those with its id.
pub run-new_registry-AreFlagged :
    (p : Platform) (s : Option CaseSensitivity) (cs : List Call)
    → Holds (Holds AreFlagged) (run p (new_registry s) cs).sessions
run-new_registry-AreFlagged p s cs =
    Holds-map AreSettled (Holds AreFlagged)
      (λ groups h. Holds-map IsSettled AreFlagged IsSettled-AreFlagged groups h.0)
      (run p (new_registry s) cs).sessions (run-new_registry-IsValid p s cs)
