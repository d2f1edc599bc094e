-- ===== src/Messaging.antt =====
-- packages/core-state/src/messaging.ts: the messages of a session, who has read them and which
-- questions are open. A call returns the new registry with its result.
pub mod Order
mod Tests
pub mod Reading
use multi_agentic_workflow.Base.{
  ℕ, suc, ◌++◌, List, [], ◌∷◌, Option, none, some, Bool, true, false, not, ◌&&◌, ◌||◌,
  if◌then◌else◌, select, find, any, length,
}
use multi_agentic_workflow.Base.Text.{Text, text_eq}
use multi_agentic_workflow.Base.JsMap
use multi_agentic_workflow.Base.JsMap.{JsMap}
use multi_agentic_workflow.Base.JsSet
use multi_agentic_workflow.Base.Sort.{insert_ordered}
use multi_agentic_workflow.Protocol.{
  Platform, SessionId, MemberRef, MessageDto, MessageKind, direct, broadcast, question, answer,
  heads_up, MessagePriority,
}
use multi_agentic_workflow.Session.{session_key}

pub record AppendMessageInput : Type 0 where
  pub session : SessionId
  pub message_id : Text
  pub kind : MessageKind
  pub sender : MemberRef
  pub to_member_id : Option Text
  pub priority : MessagePriority
  pub body : Text
  pub correlation_id : Option Text
  pub event_revision : ℕ
  pub sent_at : Text

pub record MessageState : Type 0 where
  pub messages : List MessageDto
  pub read : JsMap (List Text)
  pub open_questions : JsMap Text

abbrev pub MessageRegistry : Type 0
MessageRegistry = JsMap MessageState

abbrev pub empty_state : MessageState
empty_state = record { messages = []; read = []; open_questions = [] }

unfoldable pub state_for : MessageRegistry → Text → MessageState
state_for r key = JsMap.get_or key empty_state r

-- A member is a recipient of what is sent to all, and of what names it.
abbrev pub to_all : MessageKind → Bool
to_all direct = false
to_all broadcast = true
to_all question = false
to_all answer = false
to_all heads_up = true

abbrev pub is_question : MessageKind → Bool
is_question direct = false
is_question broadcast = false
is_question question = true
is_question answer = false
is_question heads_up = false

abbrev pub is_answer : MessageKind → Bool
is_answer direct = false
is_answer broadcast = false
is_answer question = false
is_answer answer = true
is_answer heads_up = false

-- `optional === text`
abbrev pub names : Option Text → Text → Bool
names none t = false
names (some s) t = text_eq s t

pub is_recipient : MessageDto → Text → Bool
is_recipient m member = if to_all m.kind then true else names m.to_member_id member

abbrev pub with_id : Text → MessageDto → Bool
with_id id m = text_eq m.message_id id

abbrev pub revision : MessageDto → ℕ
revision m = m.event_revision

abbrev pub message_of : AppendMessageInput → MessageDto
message_of q = record {
  message_id = q.message_id;
  kind = q.kind;
  sender = q.sender;
  to_member_id = q.to_member_id;
  priority = q.priority;
  body = q.body;
  correlation_id = q.correlation_id;
  answered = if is_question q.kind then some false else none;
  event_revision = q.event_revision;
  sent_at = q.sent_at;
}

-- Writing to the first message that passes the test, as an assignment through the found reference
-- or at the found index does.
pub update_first :
    (MessageDto → Bool) → (MessageDto → MessageDto) → List MessageDto → List MessageDto
update_first test f [] = []
update_first test f (m ∷ ms) =
    let rest = update_first test f ms in if test m then f m ∷ ms else m ∷ rest

abbrev pub as_answered : MessageDto → MessageDto
as_answered m = record m { answered = some true }

-- A question with a correlation id is open under it.
pub open_question : MessageDto → Option Text → JsMap Text → JsMap Text
open_question m none opened = opened
open_question m (some correlation) opened =
    if is_question m.kind then JsMap.set correlation m.message_id opened else opened

pub mark_answered : MessageState → Text → Option Text → MessageState × Option MessageDto
mark_answered s correlation none = (s, none)
mark_answered s correlation (some question_id) = (
  record s {
    messages = update_first (with_id question_id) as_answered s.messages;
    open_questions = JsMap.delete correlation s.open_questions;
  },
  elim (find (with_id question_id) s.messages) [ none ↦ none | some q ↦ some (as_answered q) ],
)

pub close_question : MessageDto → Option Text → MessageState → MessageState × Option MessageDto
close_question m none s = (s, none)
close_question m (some correlation) s =
    if is_answer m.kind
    then mark_answered s correlation (JsMap.get correlation s.open_questions)
    else (s, none)

pub append_to : MessageState → MessageDto → MessageState × Option MessageDto
append_to s m = close_question m m.correlation_id (record s {
  messages = insert_ordered revision m s.messages;
  open_questions = open_question m m.correlation_id s.open_questions;
})

-- The appended message, and the question that it answered. (Message ids are globally unique: an
-- answer is not itself the question that it marks.)
pub append :
    Platform
    → MessageRegistry
    → AppendMessageInput
    → MessageRegistry × (MessageDto × Option MessageDto)
append p r q =
    let key = session_key p q.session in
    let done = append_to (state_for r key) (message_of q) in
    (JsMap.set key done.0 r, (message_of q, done.1))

pub mark_read_in : MessageState → Text → Text → Option MessageDto → Option MessageState
mark_read_in s id member none = none
mark_read_in s id member (some m) =
    if is_recipient m member
    then some
        (record s { read = JsMap.set id (JsSet.add (JsMap.get_or id [] s.read) member) s.read })
    else none

pub store_read : MessageRegistry → Text → Option MessageState → MessageRegistry × Bool
store_read r key none = (r, false)
store_read r key (some s) = (JsMap.set key s r, true)

pub mark_read_at :
    MessageRegistry → Text → Text → Text → Option MessageState → MessageRegistry × Bool
mark_read_at r key id member none = (r, false)
mark_read_at r key id member (some s) =
    store_read r key (mark_read_in s id member (find (with_id id) s.messages))

pub mark_read : Platform → MessageRegistry → SessionId → Text → Text → MessageRegistry × Bool
mark_read p r session id member =
    let key = session_key p session in mark_read_at r key id member (JsMap.get key r)

pub has_read : MessageState → Text → Text → Bool
has_read s id member = JsSet.has (JsMap.get_or id [] s.read) member

pub is_read : Platform → MessageRegistry → SessionId → Text → Text → Bool
is_read p r session id member = has_read (state_for r (session_key p session)) id member

abbrev pub is_sender : Text → MessageDto → Bool
is_sender member m = text_eq m.sender.member_id member

unfoldable pub messages_for : Platform → MessageRegistry → SessionId → Text → List MessageDto
messages_for p r session member =
    select (λ m. is_sender member m || is_recipient m member)
      (state_for r (session_key p session)).messages

-- The loop of `unreadCountFor`.
pub count_unread : MessageState → Text → List MessageDto → ℕ
count_unread s member [] = 0
count_unread s member (m ∷ ms) =
    let rest = count_unread s member ms in
    if is_sender member m
    then rest
    else if is_recipient m member && not (has_read s m.message_id member)
    then suc rest
    else rest

pub unread_count_for : Platform → MessageRegistry → SessionId → Text → ℕ
unread_count_for p r session member =
    let s = state_for r (session_key p session) in count_unread s member s.messages

-- `answered === true`
abbrev pub was_answered : MessageDto → Bool
was_answered m = elim m.answered [ none ↦ false | some b ↦ b ]

unfoldable pub open_questions_for : Platform → MessageRegistry → SessionId → Text → List MessageDto
open_questions_for p r session member =
    select (λ m. is_question m.kind && (not (was_answered m) && names m.to_member_id member))
      (state_for r (session_key p session)).messages

-- `upsert` keeps in step what is open from the message.
unfoldable pub track_question : MessageDto → Option Text → JsMap Text → JsMap Text
track_question m none opened = opened
track_question m (some correlation) opened =
    if not (is_question m.kind)
    then opened
    else if was_answered m
    then JsMap.delete correlation opened
    else JsMap.set correlation m.message_id opened

unfoldable pub upsert_in : MessageState → MessageDto → MessageState
upsert_in s m = record s {
  messages =
      if any (with_id m.message_id) s.messages
      then update_first (with_id m.message_id) (λ old. m) s.messages
      else insert_ordered revision m s.messages;
  open_questions = track_question m m.correlation_id s.open_questions;
}

unfoldable pub upsert : Platform → MessageRegistry → SessionId → MessageDto → MessageRegistry
upsert p r session m =
    let key = session_key p session in JsMap.set key (upsert_in (state_for r key) m) r

pub all_messages : Platform → MessageRegistry → SessionId → List MessageDto
all_messages p r session = (state_for r (session_key p session)).messages

-- The round of the loop of `restore`: an answered question opens nothing.
unfoldable pub reopen : MessageDto → Option Text → JsMap Text → JsMap Text
reopen m none opened = opened
reopen m (some correlation) opened =
    if is_question m.kind && not (was_answered m)
    then JsMap.set correlation m.message_id opened
    else opened

pub restore_each : MessageState → List MessageDto → MessageState
restore_each s [] = s
restore_each s (m ∷ ms) =
    restore_each
      (record s {
        messages = insert_ordered revision m s.messages;
        open_questions = reopen m m.correlation_id s.open_questions;
      })
      ms

unfoldable pub restore : Platform → MessageRegistry → SessionId → List MessageDto → MessageRegistry
restore p r session ms = JsMap.set (session_key p session) (restore_each empty_state ms) r
