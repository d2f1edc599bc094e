-- ===== src/Messaging/Reading.antt =====
-- Who has read what, the unread count, and the questions that an answer closes.
use multi_agentic_workflow.Base.{
  suc, ◌≡◌, refl, ap, sym, ◌∙◌, inl, inr, List, [], ◌∷◌, Option, none, some, Bool, true, not, ◌&&◌,
  ◌||◌, arith, Bool-cases, if◌then◌else◌, find, select, length,
}
use multi_agentic_workflow.Base.Text.{Text, text_eq, text_eq_iff}
use multi_agentic_workflow.Base.JsMap
use multi_agentic_workflow.Base.JsSet
use multi_agentic_workflow.Base.Sort.{insert_ordered}
use multi_agentic_workflow.Protocol.{Platform, SessionId, MessageDto, answer}
use multi_agentic_workflow.Session.{session_key}
use multi_agentic_workflow.Messaging.{
  MessageState, MessageRegistry, empty_state, state_for, revision, with_id, update_first,
  as_answered, mark_answered, close_question, append_to, is_recipient, mark_read_in, mark_read_at,
  store_read, mark_read, has_read, is_read, all_messages, open_question, is_sender, count_unread,
  unread_count_for,
}

abbrev pub is_unread : MessageState → Text → MessageDto → Bool
is_unread s member m =
    not (is_sender member m) && (is_recipient m member && not (has_read s m.message_id member))

count_unread_lem :
    (s : MessageState) (member : Text) (ms : List MessageDto)
    → count_unread s member ms ≡ length (select (is_unread s member) ms)
unfolding count_unread
count_unread_lem s member [] = refl
count_unread_lem s member (m ∷ ms) = elim (Bool-cases (is_sender member m)) [
  | inl e ↦ rw e (count_unread_lem s member ms)
  | inr e ↦ elim (Bool-cases (is_recipient m member && not (has_read s m.message_id member))) [
    | inl y ↦ rw (e, y) (ap suc (count_unread_lem s member ms))
    | inr n ↦ rw (e, n) (count_unread_lem s member ms)
  ]
]

-- The unread count of a member is the number of the session's messages that somebody else sent,
-- that are addressed to the member and that the member has not read.
pub unread_count_for_lem :
    (p : Platform) (r : MessageRegistry) (session : SessionId) (member : Text)
    → unread_count_for p r session member
      ≡ length (
          select
            (is_unread (state_for r (session_key p session)) member)
            (all_messages p r session))
unfolding unread_count_for all_messages
unread_count_for_lem p r session member =
    count_unread_lem (state_for r (session_key p session)) member _

read_after :
    (s t : MessageState) (id member : Text) (m : MessageDto)
    → mark_read_in s id member (some m) ≡ some t
    → is_recipient m member ≡ true
    → t.read ≡ JsMap.set id (JsSet.add (JsMap.get_or id [] s.read) member) s.read
unfolding mark_read_in
read_after s t id member m e y = ground (arith, e, y)

has_read-mark_read_in :
    (s t : MessageState) (id member i other : Text) (o : Option MessageDto)
    → mark_read_in s id member o ≡ some t
    → has_read t i other ≡ (has_read s i other || (text_eq id i && text_eq member other))
unfolding mark_read_in has_read
has_read-mark_read_in s t id member i other none e = absurd (ground arith)
has_read-mark_read_in s t id member i other (some m) e =
    let before = JsMap.get_or id [] s.read in
    elim (Bool-cases (is_recipient m member)) [
      | inl y ↦
          let now = read_after s t id member m e y in
          ground (
            arith,
            now,
            JsMap.get_or-set id i [] (JsSet.add before member) s.read,
            JsSet.has-add before member other,
            text_eq_iff id i,
          )
      | inr n ↦ absurd (ground (arith, e, n))
    ]

state_for-store_read :
    (r : MessageRegistry) (key : Text) (o : Option MessageState)
    → (store_read r key o).1 ≡ true
    → o ≡ some (state_for (store_read r key o).0 key)
unfolding store_read state_for
state_for-store_read r key none e = absurd (ground arith)
state_for-store_read r key (some t) e = ap some (sym (JsMap.get_or-set_self key empty_state t r))

state_for_lem :
    (r : MessageRegistry) (key : Text) (s : MessageState)
    → JsMap.get key r ≡ some s
    → state_for r key ≡ s
unfolding state_for JsMap.get_or
state_for_lem r key s e = ground (arith, e)

has_read-mark_read_at :
    (r : MessageRegistry) (key id member i other : Text) (o : Option MessageState)
    → JsMap.get key r ≡ o
    → (mark_read_at r key id member o).1 ≡ true
    → has_read (state_for (mark_read_at r key id member o).0 key) i other
      ≡ (has_read (state_for r key) i other || (text_eq id i && text_eq member other))
unfolding mark_read_at
has_read-mark_read_at r key id member i other none g e = absurd (ground arith)
has_read-mark_read_at r key id member i other (some s) g e =
    rw (state_for_lem r key s g)
      (has_read-mark_read_in s _ id member i other _ (state_for-store_read r key _ e))

-- A read mark that is accepted makes the message read by that member, and changes what nobody
-- else and no other message has.
pub is_read-mark_read :
    (p : Platform) (r : MessageRegistry) (session : SessionId) (id member i other : Text)
    → (mark_read p r session id member).1 ≡ true
    → is_read p (mark_read p r session id member).0 session i other
      ≡ (is_read p r session i other || (text_eq id i && text_eq member other))
unfolding mark_read is_read
is_read-mark_read p r session id member i other e =
    has_read-mark_read_at r (session_key p session) id member i other _ refl e

find-update_first :
    (id : Text) (q : MessageDto) (ms : List MessageDto)
    → find (with_id id) ms ≡ some q
    → find (with_id id) (update_first (with_id id) as_answered ms) ≡ some (as_answered q)
unfolding update_first
find-update_first id q [] f = absurd (ground arith)
find-update_first id q (m ∷ ms) f = elim (Bool-cases (with_id id m)) [
  | inl e ↦ rw e (ground (arith, f, e))
  | inr e ↦ ground (arith, e, find-update_first id q ms (ground (arith, f, e)))
]

open_question-answer :
    (m : MessageDto) (o : Option Text) (opened : JsMap.JsMap Text)
    → m.kind ≡ answer
    → open_question m o opened ≡ opened
unfolding open_question
open_question-answer m none opened k = refl
open_question-answer m (some correlation) opened k = rw k refl

close_question-answer :
    (s : MessageState) (m q : MessageDto) (o : Option Text) (correlation question_id other : Text)
    → m.kind ≡ answer
    → o ≡ some correlation
    → JsMap.get correlation s.open_questions ≡ some question_id
    → find (with_id question_id) s.messages ≡ some q
    → (JsMap.get other (close_question m o s).0.open_questions
        ≡ (if text_eq correlation other then none else JsMap.get other s.open_questions))
      × (((close_question m o s).1 ≡ some (as_answered q))
          × (find (with_id question_id) (close_question m o s).0.messages ≡ some (as_answered q)))
unfolding close_question mark_answered
close_question-answer s m q o correlation question_id other k c g f =
    rw (c, k, g)
      (
        JsMap.get-delete correlation other s.open_questions,
        (ground (arith, f), find-update_first question_id q s.messages f),
      )

-- An answer with the correlation id of an open question closes that question and no other, marks
-- the stored question as answered, and returns it as it now stands in the session's list.
pub append_to_answer :
    (s : MessageState) (m q : MessageDto) (correlation question_id other : Text)
    → m.kind ≡ answer
    → m.correlation_id ≡ some correlation
    → JsMap.get correlation s.open_questions ≡ some question_id
    → find (with_id question_id) (insert_ordered revision m s.messages) ≡ some q
    → (JsMap.get other (append_to s m).0.open_questions
        ≡ (if text_eq correlation other then none else JsMap.get other s.open_questions))
      × (((append_to s m).1 ≡ some (as_answered q))
          × (find (with_id question_id) (append_to s m).0.messages ≡ some (as_answered q)))
unfolding append_to
append_to_answer s m q correlation question_id other k c o f =
    let same = open_question-answer m m.correlation_id s.open_questions k in
    let opened = record s {
      messages = insert_ordered revision m s.messages;
      open_questions = open_question m m.correlation_id s.open_questions;
    } in
    let closed =
      close_question-answer opened m q m.correlation_id correlation question_id other k c
        (ap (JsMap.get correlation) same ∙ o) f in
    (ground (arith, closed.0, same), closed.1)
