-- ===== src/Tasks/Moves.antt =====
-- The moves of the lifecycle, who may make them, and what each call makes of the task it finds.
use multi_agentic_workflow.Base.{
  ℕ, ◌≡◌, refl, ◌⊎◌, inl, inr, [], Option, none, some, Bool, true, false, ◌&&◌, arith, Bool-cases,
  if◌then◌else◌,
}
use multi_agentic_workflow.Base.Text.{Text, text_eq, text_eq_iff}
use multi_agentic_workflow.Base.JsMap
use multi_agentic_workflow.Protocol.{
  MemberRef, TaskDto, TaskStatus, proposed, accepted, rejected, in_progress, done, withdrawn,
}
use multi_agentic_workflow.Tasks.{
  TaskRegistry, Tasks, TaskResult, updated, refused, AssignTaskRequest, RespondTaskRequest,
  ProgressTaskRequest, WithdrawTaskRequest, Advance, tasks_at, moved, is_proposed, is_underway,
  is_terminal, is_assignee, is_party, advanced, assign_found, respond_found, progress_found,
  withdraw_found, record_result, settle,
}

-- A task of the session with this key.
abbrev pub lookup : TaskRegistry → Text → Text → Option TaskDto
lookup r key id = JsMap.get id (tasks_at r key)

pub after : TaskResult → Option TaskDto → Option TaskDto
after (updated t) old = some t
after (refused code reason) old = old

lookup-set :
    (r : TaskRegistry) (tasks : Tasks) (key k i : Text)
    → lookup (JsMap.set key tasks r) k i
      ≡ (if text_eq key k then JsMap.get i tasks else lookup r k i)
unfolding tasks_at
lookup-set r tasks key k i = ground (arith, JsMap.get_or-set key k [] tasks r)

lookup-record_result :
    (key id : Text) (r : TaskRegistry) (result : TaskResult) (k i : Text)
    → lookup (record_result key id (tasks_at r key) r result).0 k i
      ≡ (if text_eq key k && text_eq id i then after result (lookup r k i) else lookup r k i)
unfolding record_result after
lookup-record_result key id r (updated t) k i = ground (
  arith,
  lookup-set r (JsMap.set id t (tasks_at r key)) key k i,
  JsMap.get-set id i t (tasks_at r key),
  text_eq_iff key k,
)
lookup-record_result key id r (refused code reason) k i =
    ground (arith, lookup-set r (tasks_at r key) key k i, text_eq_iff key k)

pub lookup-settle :
    (key id : Text) (decide : Option TaskDto → TaskResult) (r : TaskRegistry) (k i : Text)
    → lookup (settle key id decide r).0 k i ≡ (
        if text_eq key k && text_eq id i
        then after (decide (lookup r key id)) (lookup r k i)
        else lookup r k i)
unfolding settle
lookup-settle key id decide r k i = lookup-record_result key id r (decide (lookup r key id)) k i

-- The moves that a member may make, each to the task's new status.
pub data Move : Text → TaskStatus → TaskDto → Type 0 where
  responds :
      {member : Text} {t : TaskDto} (agreed : Bool)
      → t.assignee.member_id ≡ member
      → t.status ≡ proposed
      → Move member (if agreed then accepted else rejected) t
  advances :
      {member : Text} {t : TaskDto} (a : Advance)
      → t.assignee.member_id ≡ member
      → (t.status ≡ accepted) ⊎ (t.status ≡ in_progress)
      → Move member (advanced a) t
  withdraws :
      {member : Text} {t : TaskDto}
      → (t.assigner.member_id ≡ member) ⊎ (t.assignee.member_id ≡ member)
      → (t.status ≡ proposed) ⊎ ((t.status ≡ accepted) ⊎ (t.status ≡ in_progress))
      → Move member withdrawn t

-- What a call by `member` with revision `n` may make of the slot of a task id.
pub data Became (member : Text) (n : ℕ) : Option TaskDto → Option TaskDto → Type 0 where
  unchanged : {o : Option TaskDto} → Became member n o o
  created :
      {t : TaskDto}
      → t.status ≡ proposed
      → t.assigner.member_id ≡ member
      → t.event_revision ≡ n
      → Became member n none (some t)
  updates :
      {t : TaskDto} {s : TaskStatus}
      → Move member s t
      → Became member n (some t) (some (moved t s n))

proposed_lem : (s : TaskStatus) → is_proposed s ≡ true → s ≡ proposed
proposed_lem proposed e = refl
proposed_lem accepted e = absurd (ground arith)
proposed_lem rejected e = absurd (ground arith)
proposed_lem in_progress e = absurd (ground arith)
proposed_lem done e = absurd (ground arith)
proposed_lem withdrawn e = absurd (ground arith)

underway_lem : (s : TaskStatus) → is_underway s ≡ true → (s ≡ accepted) ⊎ (s ≡ in_progress)
underway_lem proposed e = absurd (ground arith)
underway_lem accepted e = inl refl
underway_lem rejected e = absurd (ground arith)
underway_lem in_progress e = inr refl
underway_lem done e = absurd (ground arith)
underway_lem withdrawn e = absurd (ground arith)

open_lem :
    (s : TaskStatus) → is_terminal s ≡ false → (s ≡ proposed) ⊎ ((s ≡ accepted) ⊎ (s ≡ in_progress))
open_lem proposed e = inl refl
open_lem accepted e = inr (inl refl)
open_lem rejected e = absurd (ground arith)
open_lem in_progress e = inr (inr refl)
open_lem done e = absurd (ground arith)
open_lem withdrawn e = absurd (ground arith)

party_lem :
    (m : MemberRef) (t : TaskDto)
    → is_party m t ≡ true
    → (t.assigner.member_id ≡ m.member_id) ⊎ (t.assignee.member_id ≡ m.member_id)
party_lem m t e = ground (
  arith,
  e,
  text_eq_iff t.assigner.member_id m.member_id,
  text_eq_iff t.assignee.member_id m.member_id,
)

assignee_lem :
    (m : MemberRef) (t : TaskDto) → is_assignee m t ≡ true → t.assignee.member_id ≡ m.member_id
assignee_lem m t e = ground (arith, e, text_eq_iff t.assignee.member_id m.member_id)

pub assign_found-Became :
    (q : AssignTaskRequest) (o : Option TaskDto)
    → Became q.assigner.member_id q.event_revision o (after (assign_found q o) o)
unfolding assign_found after
assign_found-Became q none = created refl refl refl
assign_found-Became q (some t) = unchanged

pub respond_found-Became :
    (q : RespondTaskRequest) (o : Option TaskDto)
    → Became q.requester.member_id q.event_revision o (after (respond_found q o) o)
unfolding respond_found after
respond_found-Became q none = unchanged
respond_found-Became q (some t) = elim (Bool-cases (is_assignee q.requester t)) [
  | inl mine ↦ elim (Bool-cases (is_proposed t.status)) [
    | inl e ↦
        rw (mine, e)
          (updates (responds q.accept (assignee_lem q.requester t mine) (proposed_lem t.status e)))
    | inr e ↦ rw (mine, e) unchanged
  ]
  | inr other ↦ rw other unchanged
]

pub progress_found-Became :
    (q : ProgressTaskRequest) (o : Option TaskDto)
    → Became q.requester.member_id q.event_revision o (after (progress_found q o) o)
unfolding progress_found after
progress_found-Became q none = unchanged
progress_found-Became q (some t) = elim (Bool-cases (is_assignee q.requester t)) [
  | inl mine ↦ elim (Bool-cases (is_underway t.status)) [
    | inl e ↦
        rw (mine, e)
          (updates (advances q.status (assignee_lem q.requester t mine) (underway_lem t.status e)))
    | inr e ↦ rw (mine, e) unchanged
  ]
  | inr other ↦ rw other unchanged
]

pub withdraw_found-Became :
    (q : WithdrawTaskRequest) (o : Option TaskDto)
    → Became q.requester.member_id q.event_revision o (after (withdraw_found q o) o)
unfolding withdraw_found after
withdraw_found-Became q none = unchanged
withdraw_found-Became q (some t) = elim (Bool-cases (is_party q.requester t)) [
  | inl mine ↦ elim (Bool-cases (is_terminal t.status)) [
    | inl e ↦ rw (mine, e) unchanged
    | inr e ↦
        rw (mine, e) (updates (withdraws (party_lem q.requester t mine) (open_lem t.status e)))
  ]
  | inr other ↦ rw other unchanged
]
