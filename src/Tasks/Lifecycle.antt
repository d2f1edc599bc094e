-- ===== src/Tasks/Lifecycle.antt =====
-- What a call does to a task: the moves of the lifecycle, who may make them, and that a terminal
-- task stays as it is.
use multi_agentic_workflow.Base.{
  ℕ, ◌≡◌, refl, subst, inl, inr, List, [], ◌∷◌, Option, none, some, true, ◌&&◌, arith, Bool-cases,
}
use multi_agentic_workflow.Base.Text.{Text, text_eq, text_eq_iff}
use multi_agentic_workflow.Protocol.{Platform, TaskDto}
use multi_agentic_workflow.Tasks.{
  TaskRegistry, TaskResult, AssignTaskRequest, RespondTaskRequest, ProgressTaskRequest,
  WithdrawTaskRequest, is_terminal, assign_found, respond_found, progress_found, withdraw_found,
  settle, assign, respond, progress, withdraw,
}
use multi_agentic_workflow.Tasks.Moves.{
  lookup, Became, after, lookup-settle, assign_found-Became, respond_found-Became,
  progress_found-Became, withdraw_found-Became, responds, advances, withdraws, unchanged, updates,
}

pub data Call : Type 0 where
  assigns : AssignTaskRequest → Call
  responds_to : RespondTaskRequest → Call
  progresses : ProgressTaskRequest → Call
  withdraws_from : WithdrawTaskRequest → Call

abbrev pub actor : Call → Text
actor (assigns q) = q.assigner.member_id
actor (responds_to q) = q.requester.member_id
actor (progresses q) = q.requester.member_id
actor (withdraws_from q) = q.requester.member_id

abbrev pub revision_of : Call → ℕ
revision_of (assigns q) = q.event_revision
revision_of (responds_to q) = q.event_revision
revision_of (progresses q) = q.event_revision
revision_of (withdraws_from q) = q.event_revision

pub step : Platform → TaskRegistry → Call → TaskRegistry
step p r (assigns q) = (assign p r q).0
step p r (responds_to q) = (respond p r q).0
step p r (progresses q) = (progress p r q).0
step p r (withdraws_from q) = (withdraw p r q).0

settle-Became :
    (member : Text) (n : ℕ) (key id : Text) (decide : Option TaskDto → TaskResult)
    (r : TaskRegistry)
    → ((o : Option TaskDto) → Became member n o (after (decide o) o))
    → (k i : Text) → Became member n (lookup r k i) (lookup (settle key id decide r).0 k i)
settle-Became member n key id decide r h k i = elim (Bool-cases (text_eq key k && text_eq id i)) [
  | inl e ↦
      subst (Became member n (lookup r k i))
        (ground (arith, e, lookup-settle key id decide r k i, text_eq_iff key k, text_eq_iff id i))
        (h (lookup r k i))
  | inr e ↦
      subst (Became member n (lookup r k i)) (ground (arith, e, lookup-settle key id decide r k i))
        unchanged
]

-- A call leaves every task as it is or makes one move with it that its caller may make, stamping
-- the call's Event_Revision; a task that appears is a proposal by its assigner.
pub step-Became :
    (p : Platform) (r : TaskRegistry) (c : Call) (key id : Text)
    → Became (actor c) (revision_of c) (lookup r key id) (lookup (step p r c) key id)
unfolding step assign respond progress withdraw
step-Became p r (assigns q) key id =
    settle-Became _ _ _ _ (assign_found q) r (assign_found-Became q) key id
step-Became p r (responds_to q) key id =
    settle-Became _ _ _ _ (respond_found q) r (respond_found-Became q) key id
step-Became p r (progresses q) key id =
    settle-Became _ _ _ _ (progress_found q) r (progress_found-Became q) key id
step-Became p r (withdraws_from q) key id =
    settle-Became _ _ _ _ (withdraw_found q) r (withdraw_found-Became q) key id

pub run : Platform → TaskRegistry → List Call → TaskRegistry
run p r [] = r
run p r (c ∷ cs) = run p (step p r c) cs

Became-terminal :
    (member : Text) (n : ℕ) (t : TaskDto) (o : Option TaskDto)
    → is_terminal t.status ≡ true
    → Became member n (some t) o
    → o ≡ some t
Became-terminal member n t none e x = elim x [ ]
Became-terminal member n t (some _) e unchanged = refl
Became-terminal member n t (some _) e (updates (responds a m s)) = absurd (ground (arith, e, s))
Became-terminal member n t (some _) e (updates (advances a m s)) = absurd (ground (arith, e, s))
Became-terminal member n t (some _) e (updates (withdraws m s)) = absurd (ground (arith, e, s))

-- A rejected, done or withdrawn task is the same after any history of calls.
pub run_terminal :
    (p : Platform) (r : TaskRegistry) (cs : List Call) (key id : Text) (t : TaskDto)
    → lookup r key id ≡ some t
    → is_terminal t.status ≡ true
    → lookup (run p r cs) key id ≡ some t
unfolding run
run_terminal p r [] key id t h e = h
run_terminal p r (c ∷ cs) key id t h e =
    run_terminal p (step p r c) cs key id t
      (Became-terminal _ _ t _ e (
        subst (λ o. Became (actor c) (revision_of c) o (lookup (step p r c) key id)) h
          (step-Became p r c key id)))
      e
