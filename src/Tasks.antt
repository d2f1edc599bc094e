-- ===== src/Tasks.antt =====
-- packages/core-state/src/tasks.ts: the task registry. A call returns the new registry with its
-- result.
pub mod Moves
pub mod Lifecycle
mod Tests
pub mod Listing
use multi_agentic_workflow.Base.{
  ℕ, ◌++◌, List, [], ◌∷◌, Option, none, some, Bool, true, false, not, ◌&&◌, ◌||◌, if◌then◌else◌,
  select,
}
use multi_agentic_workflow.Base.Text.{Text, codes, text_eq}
use multi_agentic_workflow.Base.JsMap
use multi_agentic_workflow.Base.JsMap.{JsMap}
use multi_agentic_workflow.Base.Sort.{sort_by}
use multi_agentic_workflow.Protocol.{
  Platform, SessionId, MemberRef, TaskDto, TaskStatus, proposed, accepted, rejected, in_progress,
  done, withdrawn, ErrorCode, not_found, auth_not_authorized, format_error,
}
use multi_agentic_workflow.Session.{session_key}

pub record AssignTaskRequest : Type 0 where
  pub session : SessionId
  pub task_id : Text
  pub title : Text
  pub description : Text
  pub assignee : MemberRef
  pub assigner : MemberRef
  pub event_revision : ℕ

pub record RespondTaskRequest : Type 0 where
  pub session : SessionId
  pub task_id : Text
  pub requester : MemberRef
  pub accept : Bool
  pub event_revision : ℕ

-- The two statuses that progress may report.
pub data Advance : Type 0 where
  begin finish : Advance

pub record ProgressTaskRequest : Type 0 where
  pub session : SessionId
  pub task_id : Text
  pub requester : MemberRef
  pub status : Advance
  pub event_revision : ℕ

pub record WithdrawTaskRequest : Type 0 where
  pub session : SessionId
  pub task_id : Text
  pub requester : MemberRef
  pub event_revision : ℕ

pub data TaskResult : Type 0 where
  updated : TaskDto → TaskResult
  refused : ErrorCode → Text → TaskResult

abbrev pub Tasks : Type 0
Tasks = JsMap TaskDto

abbrev pub TaskRegistry : Type 0
TaskRegistry = JsMap Tasks

pub tasks_at : TaskRegistry → Text → Tasks
tasks_at r key = JsMap.get_or key [] r

-- The status as the template strings show it.
abbrev pub status_text : TaskStatus → Text
status_text proposed = codes "proposed"
status_text accepted = codes "accepted"
status_text rejected = codes "rejected"
status_text in_progress = codes "in_progress"
status_text done = codes "done"
status_text withdrawn = codes "withdrawn"

abbrev pub unknown_task : TaskResult
unknown_task = refused not_found (codes "Unknown task.")

abbrev pub unauthorized : Text → TaskResult
unauthorized reason = refused auth_not_authorized reason

abbrev pub invalid_transition : Text → TaskStatus → TaskResult
invalid_transition start status = refused format_error (start ++ (status_text status ++ codes "'."))

abbrev pub is_proposed : TaskStatus → Bool
is_proposed proposed = true
is_proposed accepted = false
is_proposed rejected = false
is_proposed in_progress = false
is_proposed done = false
is_proposed withdrawn = false

-- `accepted` or `in_progress`
abbrev pub is_underway : TaskStatus → Bool
is_underway proposed = false
is_underway accepted = true
is_underway rejected = false
is_underway in_progress = true
is_underway done = false
is_underway withdrawn = false

-- `done`, `withdrawn` or `rejected`
abbrev pub is_terminal : TaskStatus → Bool
is_terminal proposed = false
is_terminal accepted = false
is_terminal rejected = true
is_terminal in_progress = false
is_terminal done = true
is_terminal withdrawn = true

abbrev pub advanced : Advance → TaskStatus
advanced begin = in_progress
advanced finish = done

abbrev pub is_assignee : MemberRef → TaskDto → Bool
is_assignee requester t = text_eq t.assignee.member_id requester.member_id

abbrev pub is_party : MemberRef → TaskDto → Bool
is_party requester t =
    text_eq t.assigner.member_id requester.member_id
    || text_eq t.assignee.member_id requester.member_id

-- The task as the in-place update of its two fields leaves it.
abbrev pub moved : TaskDto → TaskStatus → ℕ → TaskDto
moved t status revision = record t { status = status; event_revision = revision }

abbrev pub proposal : AssignTaskRequest → TaskDto
proposal q = record {
  task_id = q.task_id;
  title = q.title;
  description = q.description;
  assignee = q.assignee;
  assigner = q.assigner;
  status = proposed;
  event_revision = q.event_revision;
}

-- What a call makes of the task that it finds.
pub assign_found : AssignTaskRequest → Option TaskDto → TaskResult
assign_found q none = updated (proposal q)
assign_found q (some existing) = updated existing

pub respond_found : RespondTaskRequest → Option TaskDto → TaskResult
respond_found q none = unknown_task
respond_found q (some t) =
    if not (is_assignee q.requester t)
    then unauthorized (codes "Only the assignee may respond to a task.")
    else if not (is_proposed t.status)
    then invalid_transition (codes "Cannot respond to a task in status '") t.status
    else updated (moved t (if q.accept then accepted else rejected) q.event_revision)

pub progress_found : ProgressTaskRequest → Option TaskDto → TaskResult
progress_found q none = unknown_task
progress_found q (some t) =
    if not (is_assignee q.requester t)
    then unauthorized (codes "Only the assignee may report task progress.")
    else if not (is_underway t.status)
    then invalid_transition (codes "Cannot report progress on a task in status '") t.status
    else updated (moved t (advanced q.status) q.event_revision)

pub withdraw_found : WithdrawTaskRequest → Option TaskDto → TaskResult
withdraw_found q none = unknown_task
withdraw_found q (some t) =
    if not (is_party q.requester t)
    then unauthorized (codes "Only the assigner or assignee may withdraw a task.")
    else if is_terminal t.status
    then invalid_transition (codes "Cannot withdraw a task in status '") t.status
    else updated (moved t withdrawn q.event_revision)

-- The session's tasks are made when missing; the updated task stands under its id, where an
-- existing one that `assign` returns already stands.
pub record_result : Text → Text → Tasks → TaskRegistry → TaskResult → TaskRegistry × TaskResult
record_result key id tasks r (updated t) = (JsMap.set key (JsMap.set id t tasks) r, updated t)
record_result key id tasks r (refused code reason) = (JsMap.set key tasks r, refused code reason)

unfoldable pub settle :
    Text → Text → (Option TaskDto → TaskResult) → TaskRegistry → TaskRegistry × TaskResult
settle key id decide r =
    let tasks = tasks_at r key in record_result key id tasks r (decide (JsMap.get id tasks))

pub assign : Platform → TaskRegistry → AssignTaskRequest → TaskRegistry × TaskResult
assign p r q = settle (session_key p q.session) q.task_id (assign_found q) r

pub respond : Platform → TaskRegistry → RespondTaskRequest → TaskRegistry × TaskResult
respond p r q = settle (session_key p q.session) q.task_id (respond_found q) r

pub progress : Platform → TaskRegistry → ProgressTaskRequest → TaskRegistry × TaskResult
progress p r q = settle (session_key p q.session) q.task_id (progress_found q) r

pub withdraw : Platform → TaskRegistry → WithdrawTaskRequest → TaskRegistry × TaskResult
withdraw p r q = settle (session_key p q.session) q.task_id (withdraw_found q) r

unfoldable pub upsert : Platform → TaskRegistry → SessionId → TaskDto → TaskRegistry
upsert p r session t =
    let key = session_key p session in JsMap.set key (JsMap.set t.task_id t (tasks_at r key)) r

pub task_of : Platform → TaskRegistry → SessionId → Text → Option TaskDto
task_of p r session id = JsMap.get id (tasks_at r (session_key p session))

pub filter_tasks : Platform → TaskRegistry → SessionId → (TaskDto → Bool) → List TaskDto
filter_tasks p r session test =
    sort_by (λ t. t.event_revision)
      (select test (JsMap.values (tasks_at r (session_key p session))))

-- `accepted`, `in_progress` or `done`
abbrev pub is_taken : TaskStatus → Bool
is_taken proposed = false
is_taken accepted = true
is_taken rejected = false
is_taken in_progress = true
is_taken done = true
is_taken withdrawn = false

abbrev pub is_listed : Text → TaskDto → Bool
is_listed member t = text_eq t.assignee.member_id member && is_taken t.status

abbrev pub is_incoming : Text → TaskDto → Bool
is_incoming member t = text_eq t.assignee.member_id member && is_proposed t.status

pub task_list_for : Platform → TaskRegistry → SessionId → Text → List TaskDto
task_list_for p r session member = filter_tasks p r session (is_listed member)

pub incoming_proposals_for : Platform → TaskRegistry → SessionId → Text → List TaskDto
incoming_proposals_for p r session member = filter_tasks p r session (is_incoming member)

unfoldable pub all_tasks : Platform → TaskRegistry → SessionId → List TaskDto
all_tasks p r session = filter_tasks p r session (λ t. true)

unfoldable pub restored : List TaskDto → Tasks → Tasks
restored [] tasks = tasks
restored (t ∷ ts) tasks = restored ts (JsMap.set t.task_id t tasks)

unfoldable pub restore : Platform → TaskRegistry → SessionId → List TaskDto → TaskRegistry
restore p r session ts = JsMap.set (session_key p session) (restored ts []) r
