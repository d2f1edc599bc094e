-- ===== src/Messaging/Tests.antt =====
-- The theorems on messages, at concrete ones.
use multi_agentic_workflow.Base.{◌≡◌, refl, [], ◌∷◌, none, some, true, false, find}
use multi_agentic_workflow.Base.Text.{codes, text_eq}
use multi_agentic_workflow.Base.JsMap
use multi_agentic_workflow.Base.Sort.{IsSorted, insert_ordered}
use multi_agentic_workflow.Protocol.{MessageDto, question, answer, normal}
use multi_agentic_workflow.Session.{session_key}
use multi_agentic_workflow.Fixtures.{platform, session, alice, bob}
use multi_agentic_workflow.Messaging.{
  MessageState, MessageRegistry, AppendMessageInput, revision, all_messages, with_id, as_answered,
  append_to, mark_read, is_read, unread_count_for, state_for, is_recipient,
}
use multi_agentic_workflow.Messaging.Order.{restores, run, all_messages-IsSorted}

abbrev asked : MessageDto
asked = record {
  message_id = codes "m1";
  kind = question;
  sender = alice;
  to_member_id = some (codes "bob");
  priority = normal;
  body = codes "Ready?";
  correlation_id = some (codes "c1");
  answered = some false;
  event_revision = 8;
  sent_at = [];
}

abbrev reply : MessageDto
reply = record {
  message_id = codes "m2";
  kind = answer;
  sender = bob;
  to_member_id = some (codes "alice");
  priority = normal;
  body = codes "Yes";
  correlation_id = some (codes "c1");
  answered = none;
  event_revision = 9;
  sent_at = [];
}

abbrev state : MessageState
state = record { messages = asked ∷ []; read = []; open_questions = (codes "c1", codes "m1") ∷ [] }

abbrev registry : MessageRegistry
registry = (session_key platform session, state) ∷ []

all_messages-IsSorted_example :
    IsSorted revision
      (all_messages platform (run platform [] (restores session (reply ∷ asked ∷ []) ∷ [])) session)
all_messages-IsSorted_example =
    all_messages-IsSorted platform (restores session (reply ∷ asked ∷ []) ∷ []) session

marks : (mark_read platform registry session (codes "m1") (codes "bob")).1 ≡ true
unfolding mark_read multi_agentic_workflow.Messaging.mark_read_at JsMap.get text_eq session_key
    multi_agentic_workflow.Messaging.store_read multi_agentic_workflow.Messaging.mark_read_in
    is_recipient
marks = refl

is_open : JsMap.get (codes "c1") state.open_questions ≡ some (codes "m1")
unfolding JsMap.get text_eq
is_open = refl

is_there : find (with_id (codes "m1")) (insert_ordered revision reply state.messages) ≡ some asked
unfolding insert_ordered text_eq
is_there = refl
