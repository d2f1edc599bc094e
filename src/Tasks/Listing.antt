-- ===== src/Tasks/Listing.antt =====
-- What a member's task list and incoming proposals contain, and in which order.
use multi_agentic_workflow.Base.{
  select-In, ◌≡◌, ◌≢◌, refl, ◌⊎◌, inl, inr, List, [], ◌∷◌, some, Bool, true, arith, Bool-cases, All,
  In, select,
}
use multi_agentic_workflow.Base.Text.{Text, text_eq_refl}
use multi_agentic_workflow.Base.JsMap
use multi_agentic_workflow.Base.JsMap.{JsMap}
use multi_agentic_workflow.Base.Sort.{IsSorted, sort_by-IsSorted, sort_onto-All, sort_onto-In}
use multi_agentic_workflow.Protocol.{
  Platform, SessionId, TaskDto, TaskStatus, proposed, accepted, rejected, in_progress, done,
  withdrawn,
}
use multi_agentic_workflow.Session.{session_key}
use multi_agentic_workflow.Tasks.{
  TaskRegistry, tasks_at, filter_tasks, is_listed, is_incoming, task_list_for,
  incoming_proposals_for, task_of, is_taken, is_proposed,
}

abbrev Passes : (TaskDto → Bool) → TaskDto → Type 0
Passes test t = test t ≡ true

select-Passes : (test : TaskDto → Bool) (ts : List TaskDto) → All (Passes test) (select test ts)
select-Passes test [] = tt
select-Passes test (t ∷ ts) = elim (Bool-cases (test t)) [
  | inl e ↦ rw e (e, select-Passes test ts)
  | inr e ↦ rw e (select-Passes test ts)
]

-- The list is in revision order, and each of its tasks passes.
abbrev pub IsListing : (TaskDto → Bool) → List TaskDto → Type 0
IsListing test listed = IsSorted (λ x. x.event_revision) listed × All (λ x. test x ≡ true) listed

filter_tasks-IsListing :
    (p : Platform) (r : TaskRegistry) (session : SessionId) (test : TaskDto → Bool)
    → IsListing test (filter_tasks p r session test)
unfolding filter_tasks
filter_tasks-IsListing p r session test =
    let stored = JsMap.values (tasks_at r (session_key p session)) in
    (
      sort_by-IsSorted (λ x. x.event_revision) (select test stored),
      sort_onto-All (λ x. x.event_revision) (Passes test) [] (select test stored) tt
          (select-Passes test stored),
    )

filter_tasks-In :
    (p : Platform) (r : TaskRegistry) (session : SessionId) (test : TaskDto → Bool) (id : Text)
    (t : TaskDto)
    → task_of p r session id ≡ some t
    → test t ≡ true
    → In t (filter_tasks p r session test)
unfolding filter_tasks task_of
filter_tasks-In p r session test id t found h =
    let stored = JsMap.values (tasks_at r (session_key p session)) in
    sort_onto-In (λ x. x.event_revision) t [] (select test stored)
      (inr (select-In test t stored (JsMap.values-In id t _ found) h))

-- A member's task list and its incoming proposals are in revision order. The one holds only tasks
-- assigned to the member that are accepted, in progress or done, the other only those that are
-- proposed.
pub task_list_for-IsListing :
    (p : Platform) (r : TaskRegistry) (session : SessionId) (member : Text)
    → IsListing (is_listed member) (task_list_for p r session member)
      × IsListing (is_incoming member) (incoming_proposals_for p r session member)
unfolding task_list_for incoming_proposals_for
task_list_for-IsListing p r session member = (
  filter_tasks-IsListing p r session (is_listed member),
  filter_tasks-IsListing p r session (is_incoming member),
)

kept :
    (s : TaskStatus) → s ≢ rejected → s ≢ withdrawn → (is_taken s ≡ true) ⊎ (is_proposed s ≡ true)
kept proposed n m = inr refl
kept accepted n m = inl refl
kept rejected n m = absurd (n refl)
kept in_progress n m = inl refl
kept done n m = inl refl
kept withdrawn n m = absurd (m refl)

-- A stored task that is assigned to a member and neither rejected nor withdrawn is in the member's
-- task list or among its incoming proposals.
pub task_of-In :
    (p : Platform) (r : TaskRegistry) (session : SessionId) (id : Text) (t : TaskDto)
    → task_of p r session id ≡ some t
    → t.status ≢ rejected
    → t.status ≢ withdrawn
    → In t (task_list_for p r session t.assignee.member_id)
      ⊎ In t (incoming_proposals_for p r session t.assignee.member_id)
unfolding task_list_for incoming_proposals_for
task_of-In p r session id t found n m = elim (kept t.status n m) [
  | inl taken ↦ inl (
      filter_tasks-In p r session _ id t found
        (ground (arith, taken, text_eq_refl t.assignee.member_id)))
  | inr new ↦ inr (
      filter_tasks-In p r session _ id t found
        (ground (arith, new, text_eq_refl t.assignee.member_id)))
]
