-- ===== src/Messaging/Order.antt =====
-- The messages of a session stay in the order of their Event_Revisions.
use multi_agentic_workflow.Base.{
  ◌≤◌, ◌≡◌, refl, subst, inl, inr, List, [], ◌∷◌, Option, none, some, Bool, arith, Bool-cases, All,
}
use multi_agentic_workflow.Base.Text.{Text}
use multi_agentic_workflow.Base.JsMap
use multi_agentic_workflow.Base.JsMap.{Holds, set-Holds, get-Holds, get_or-Holds}
use multi_agentic_workflow.Base.Sort.{IsSorted, insert_ordered, insert_ordered-IsSorted}
use multi_agentic_workflow.Protocol.{Platform, SessionId, MessageDto}
use multi_agentic_workflow.Session.{session_key}
use multi_agentic_workflow.Messaging.{
  AppendMessageInput, MessageState, MessageRegistry, empty_state, state_for, revision, message_of,
  with_id, update_first, as_answered, is_answer, mark_answered, close_question, append_to, append,
  is_recipient, mark_read_in, mark_read_at, store_read, mark_read, restore_each, restore,
  all_messages, reopen,
}

update_first-All {κ} :
    (P : MessageDto → Type κ) (test : MessageDto → Bool) (ms : List MessageDto)
    → ((m : MessageDto) → P m → P (as_answered m))
    → All P ms
    → All P (update_first test as_answered ms)
unfolding update_first
update_first-All P test [] f h = tt
update_first-All P test (m ∷ ms) f h = elim (Bool-cases (test m)) [
  | inl e ↦ rw e (f m h.0, h.1)
  | inr e ↦ rw e (h.0, update_first-All P test ms f h.1)
]

update_first-IsSorted :
    (test : MessageDto → Bool) (ms : List MessageDto)
    → IsSorted revision ms
    → IsSorted revision (update_first test as_answered ms)
unfolding update_first
update_first-IsSorted test [] s = tt
update_first-IsSorted test (m ∷ ms) s = elim (Bool-cases (test m)) [
  | inl e ↦ rw e s
  | inr e ↦ rw e (
    update_first-All (λ x. m.event_revision ≤ x.event_revision) test ms (λ x. λ h. h) s.0,
    update_first-IsSorted test ms s.1,
  )
]

abbrev pub IsOrdered : MessageState → Type 0
IsOrdered s = IsSorted revision s.messages

mark_answered-IsOrdered :
    (s : MessageState) (correlation : Text) (o : Option Text)
    → IsOrdered s
    → IsOrdered (mark_answered s correlation o).0
unfolding mark_answered
mark_answered-IsOrdered s correlation none h = h
mark_answered-IsOrdered s correlation (some id) h = update_first-IsSorted (with_id id) s.messages h

close_question-IsOrdered :
    (m : MessageDto) (o : Option Text) (s : MessageState)
    → IsOrdered s
    → IsOrdered (close_question m o s).0
unfolding close_question
close_question-IsOrdered m none s h = h
close_question-IsOrdered m (some correlation) s h = elim (Bool-cases (is_answer m.kind)) [
  | inl e ↦ rw e (mark_answered-IsOrdered s correlation (JsMap.get correlation s.open_questions) h)
  | inr e ↦ rw e h
]

append_to-IsOrdered :
    (s : MessageState) (m : MessageDto) → IsOrdered s → IsOrdered (append_to s m).0
unfolding append_to
append_to-IsOrdered s m h =
    close_question-IsOrdered m m.correlation_id _ (insert_ordered-IsSorted revision m s.messages h)

restore_each-IsOrdered :
    (s : MessageState) (ms : List MessageDto) → IsOrdered s → IsOrdered (restore_each s ms)
unfolding restore_each
restore_each-IsOrdered s [] h = h
restore_each-IsOrdered s (m ∷ ms) h =
    restore_each-IsOrdered
      (record s {
        messages = insert_ordered revision m s.messages;
        open_questions = reopen m m.correlation_id s.open_questions;
      })
      ms (insert_ordered-IsSorted revision m s.messages h)

abbrev pub AreOrdered : MessageRegistry → Type 0
AreOrdered r = Holds IsOrdered r

mark_read_in-IsOrdered :
    (s t : MessageState) (id member : Text) (o : Option MessageDto)
    → mark_read_in s id member o ≡ some t
    → IsOrdered s
    → IsOrdered t
unfolding mark_read_in
mark_read_in-IsOrdered s t id member none e h = absurd (ground arith)
mark_read_in-IsOrdered s t id member (some m) e h = elim (Bool-cases (is_recipient m member)) [
  | inl y ↦ subst (IsSorted revision) {x = s.messages} {y = t.messages} (ground (arith, e, y)) h
  | inr n ↦ absurd (ground (arith, e, n))
]

store_read-AreOrdered :
    (r : MessageRegistry) (key : Text) (o : Option MessageState)
    → ((t : MessageState) → o ≡ some t → IsOrdered t)
    → AreOrdered r
    → AreOrdered (store_read r key o).0
unfolding store_read
store_read-AreOrdered r key none f h = h
store_read-AreOrdered r key (some t) f h = set-Holds IsOrdered key t r h (f t refl)

mark_read_at-AreOrdered :
    (r : MessageRegistry) (key id member : Text) (o : Option MessageState)
    → JsMap.get key r ≡ o
    → AreOrdered r
    → AreOrdered (mark_read_at r key id member o).0
unfolding mark_read_at
mark_read_at-AreOrdered r key id member none e h = h
mark_read_at-AreOrdered r key id member (some s) e h =
    store_read-AreOrdered r key _
      (λ t. λ y. mark_read_in-IsOrdered s t id member _ y (get-Holds IsOrdered key s r h e)) h

-- The calls of the host, which assigns each message its Event_Revision.
pub data Call : Type 0 where
  appends : AppendMessageInput → Call
  reads : SessionId → Text → Text → Call
  restores : SessionId → List MessageDto → Call

pub step : Platform → MessageRegistry → Call → MessageRegistry
step p r (appends q) = (append p r q).0
step p r (reads session id member) = (mark_read p r session id member).0
step p r (restores session ms) = restore p r session ms

step-AreOrdered :
    (p : Platform) (r : MessageRegistry) (c : Call) → AreOrdered r → AreOrdered (step p r c)
unfolding step append mark_read restore state_for
step-AreOrdered p r (appends q) h =
    let key = session_key p q.session in
    set-Holds IsOrdered key _ r h
      (append_to-IsOrdered _ (message_of q) (get_or-Holds IsOrdered key empty_state r h tt))
step-AreOrdered p r (reads session id member) h =
    mark_read_at-AreOrdered r (session_key p session) id member _ refl h
step-AreOrdered p r (restores session ms) h =
    set-Holds IsOrdered (session_key p session) _ r h (restore_each-IsOrdered empty_state ms tt)

pub run : Platform → MessageRegistry → List Call → MessageRegistry
run p r [] = r
run p r (c ∷ cs) = run p (step p r c) cs

run-AreOrdered :
    (p : Platform) (r : MessageRegistry) (cs : List Call) → AreOrdered r → AreOrdered (run p r cs)
unfolding run
run-AreOrdered p r [] h = h
run-AreOrdered p r (c ∷ cs) h = run-AreOrdered p (step p r c) cs (step-AreOrdered p r c h)

-- After any history of appended, read and restored messages from an empty registry, the messages
-- of every session are in the order of their Event_Revisions, whatever order they came in.
pub all_messages-IsSorted :
    (p : Platform) (cs : List Call) (session : SessionId)
    → IsSorted revision (all_messages p (run p [] cs) session)
unfolding all_messages state_for
all_messages-IsSorted p cs session =
    get_or-Holds IsOrdered (session_key p session) empty_state (run p [] cs)
      (run-AreOrdered p [] cs tt) tt
