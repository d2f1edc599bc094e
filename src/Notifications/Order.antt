-- ===== src/Notifications/Order.antt =====
-- Notifications are listed in the order of their Event_Revisions, and none is lost.
use multi_agentic_workflow.Base.{ℕ, ◌<◌, ◌≡◌, ◌⊎◌, List, [], ◌∷◌, arith, In, select-In}
use multi_agentic_workflow.Base.Text.{Text, text_eq_refl}
use multi_agentic_workflow.Base.JsMap
use multi_agentic_workflow.Base.JsMap.{Holds, set-Holds, get_or-Holds}
use multi_agentic_workflow.Base.Sort.{
  IsSorted, insert_ordered, insert_ordered-IsSorted, insert_ordered-In, sort_by-IsSorted,
  select-IsSorted,
}
use multi_agentic_workflow.Protocol.{Platform, SessionId}
use multi_agentic_workflow.Session.{session_key}
use multi_agentic_workflow.Protocol.{NotificationDto}
use multi_agentic_workflow.Notifications.{
  NotificationRegistry, notified_at, list_for, add, for_member, since, restore, all_notifications,
}

pub data Call : Type 0 where
  adds : SessionId → NotificationDto → Call
  restores : SessionId → List NotificationDto → Call

pub step : Platform → NotificationRegistry → Call → NotificationRegistry
step p r (adds session n) = add p r session n
step p r (restores session ns) = restore p r session ns

pub run : Platform → NotificationRegistry → List Call → NotificationRegistry
run p r [] = r
run p r (c ∷ cs) = run p (step p r c) cs

abbrev pub AreSorted : NotificationRegistry → Type 0
AreSorted r = Holds (λ l. IsSorted notified_at l) r

list_for-IsSorted :
    (r : NotificationRegistry) (key : Text) → AreSorted r → IsSorted notified_at (list_for r key)
unfolding list_for
list_for-IsSorted r key h = get_or-Holds (λ l. IsSorted notified_at l) key [] r h tt

step-AreSorted :
    (p : Platform) (r : NotificationRegistry) (c : Call) → AreSorted r → AreSorted (step p r c)
unfolding step add restore
step-AreSorted p r (adds session n) h =
    set-Holds (λ l. IsSorted notified_at l) (session_key p session) _ r h
      (insert_ordered-IsSorted notified_at n _ (list_for-IsSorted r (session_key p session) h))
step-AreSorted p r (restores session ns) h =
    set-Holds (λ l. IsSorted notified_at l) (session_key p session) _ r h
      (sort_by-IsSorted notified_at ns)

run-AreSorted :
    (p : Platform) (r : NotificationRegistry) (cs : List Call)
    → AreSorted r
    → AreSorted (run p r cs)
unfolding run
run-AreSorted p r [] h = h
run-AreSorted p r (c ∷ cs) h = run-AreSorted p (step p r c) cs (step-AreSorted p r c h)

-- After any history of added and restored notifications, what a member that reconnects is sent
-- from a revision on is in the order of the Event_Revisions.
pub since-IsSorted :
    (p : Platform) (cs : List Call) (session : SessionId) (member : Text) (from_revision : ℕ)
    → IsSorted notified_at (since p (run p [] cs) session member from_revision)
unfolding since for_member
since-IsSorted p cs session member from_revision = select-IsSorted notified_at _ _ (
    select-IsSorted notified_at _ _
      (list_for-IsSorted _ (session_key p session) (run-AreSorted p [] cs tt)))

list_for-add :
    (p : Platform) (r : NotificationRegistry) (session : SessionId) (n : NotificationDto)
    → list_for (add p r session n) (session_key p session)
      ≡ insert_ordered notified_at n (list_for r (session_key p session))
unfolding add list_for
list_for-add p r session n = JsMap.get_or-set_self (session_key p session) [] _ r

-- A notification that has just been added is among those that its member is sent from any earlier
-- revision on, and what the member was to be sent before still is.
pub since-add :
    (p : Platform) (r : NotificationRegistry) (session : SessionId) (n m : NotificationDto)
    (from_revision : ℕ)
    → from_revision < m.event_revision
    → (n ≡ m) ⊎ In m (all_notifications p r session)
    → In m (since p (add p r session n) session m.to_member_id from_revision)
unfolding since for_member all_notifications
since-add p r session n m from_revision h i = rw (list_for-add p r session n) (
    select-In _ m _
      (select-In _ m _ (insert_ordered-In notified_at m n (list_for r (session_key p session)) i)
        (text_eq_refl m.to_member_id))
      (ground (arith, h)))
