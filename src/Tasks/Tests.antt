-- ===== src/Tasks/Tests.antt =====
-- The theorems on tasks, at concrete registries.
use multi_agentic_workflow.Base.{◌≡◌, refl, [], ◌∷◌, some, true, ◌≢◌}
use multi_agentic_workflow.Base.Text.{codes, text_eq}
use multi_agentic_workflow.Base.JsMap
use multi_agentic_workflow.Protocol.{TaskDto, proposed, rejected, done, withdrawn}
use multi_agentic_workflow.Session.{session_key}
use multi_agentic_workflow.Fixtures.{platform, session, alice, bob}
use multi_agentic_workflow.Tasks.{
  TaskRegistry, tasks_at, task_of, moved, WithdrawTaskRequest, RespondTaskRequest,
}
use multi_agentic_workflow.Tasks.Moves.{lookup, Became}
use multi_agentic_workflow.Tasks.Lifecycle.{responds_to, step, step-Became}

abbrev review : TaskDto
review = record {
  task_id = codes "t1";
  title = codes "Review";
  description = [];
  assignee = bob;
  assigner = alice;
  status = proposed;
  event_revision = 4;
}

abbrev registry : TaskDto → TaskRegistry
registry t = (session_key platform session, (codes "t1", t) ∷ []) ∷ []

abbrev acceptance : RespondTaskRequest
acceptance = record {
  session = session;
  task_id = codes "t1";
  requester = bob;
  accept = true;
  event_revision = 5;
}

abbrev withdrawal : WithdrawTaskRequest
withdrawal = record {
  session = session;
  task_id = codes "t1";
  requester = alice;
  event_revision = 6;
}

step-Became_example :
    Became
      (codes "bob")
      5
      (lookup (registry review) (codes "key") (codes "t1"))
      (lookup (step platform (registry review) (responds_to acceptance)) (codes "key") (codes "t1"))
step-Became_example =
    step-Became platform (registry review) (responds_to acceptance) (codes "key") (codes "t1")

abbrev finished : TaskDto
finished = moved review done 9

found : lookup (registry finished) (session_key platform session) (codes "t1") ≡ some finished
unfolding tasks_at JsMap.get_or JsMap.get text_eq session_key
found = refl

stored : task_of platform (registry finished) session (codes "t1") ≡ some finished
unfolding task_of JsMap.get tasks_at JsMap.get_or text_eq session_key
stored = refl

not_rejected : done ≢ rejected
not_rejected e = cc

not_withdrawn : done ≢ withdrawn
not_withdrawn e = cc
