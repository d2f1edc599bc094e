-- ===== src/Intents/Ownership.antt =====
-- Who may change a declared intent: on a member's request, only its owner.
use multi_agentic_workflow.Base.{
  ◌≡◌, refl, sym, ap, subst, List, [], ◌∷◌, Option, none, some, true, false, arith, inl, inr,
  Bool-cases, length, ◌==◌, ◌∙◌,
}
use multi_agentic_workflow.Base.Text.{Text, text_eq, text_eq_iff}
use multi_agentic_workflow.Base.JsMap
use multi_agentic_workflow.Protocol.{Platform, SessionId, MemberRef}
use multi_agentic_workflow.Session.{session_key}
use multi_agentic_workflow.RepoPath.{normalize_path}
use multi_agentic_workflow.Intents.State.{
  IntentRegistry, StoredIntent, Intents, path_key, intents_at, put, put_tracked, stored_at,
  touch_each,
}
use multi_agentic_workflow.Intents.{
  UpdateRequest, WithdrawRequest, update, update_found, update_valid, record_intent, open_session,
  withdraw, withdraw_found, complete,
}
use multi_agentic_workflow.Intents.Reconcile.{
  withdraw_planned_creation, withdraw_creation_found, withdraw_creation_of, delete_path_for_member,
  deleted_in, in_session, in_tracked, walk_session, change_tracked, without_creation,
}
use multi_agentic_workflow.Intents.Stored.{
  intents_at-some, stored_at-put, stored_at-set, stored_at-delete, stored_at-touch_each,
}

-- Every stored intent has the id that it is stored under.
abbrev pub AreUnderIds : IntentRegistry → Type 0
AreUnderIds r =
    (k id : Text) (s : StoredIntent) → stored_at r k id ≡ some s → s.intent.intent_id ≡ id

-- A request that names a member.
pub data Call : Type 0 where
  to_update : UpdateRequest → Call
  to_withdraw to_complete : WithdrawRequest → Call
  to_withdraw_creation : SessionId → Text → Text → MemberRef → Call
  to_delete_path : SessionId → Text → MemberRef → Call

abbrev pub requester : Call → MemberRef
requester (to_update q) = q.requester
requester (to_withdraw q) = q.requester
requester (to_complete q) = q.requester
requester (to_withdraw_creation session id path m) = m
requester (to_delete_path session path m) = m

module _ (p : Platform) where
  pub perform : IntentRegistry → Call → IntentRegistry
  perform r (to_update q) = (update p r q).0
  perform r (to_withdraw q) = (withdraw p r q).0
  perform r (to_complete q) = (complete p r q).0
  perform r (to_withdraw_creation session id path m) =
      (withdraw_planned_creation p r session id path m).0
  perform r (to_delete_path session path m) = (delete_path_for_member p r session path m).0

  module _ (k id : Text) (s : StoredIntent) where
    -- `s` is what is stored.
    Keeps : IntentRegistry → Type 0
    Keeps r = stored_at r k id ≡ some s

    Keeps-open : (r : IntentRegistry) (key : Text) → Keeps r → Keeps (open_session p r key)
    unfolding Keeps open_session stored_at
    Keeps-open r key h =
        ground (arith, stored_at-put r key k id (intents_at r key), text_eq_iff key k, h)

    Keeps-set :
        (r : IntentRegistry) (key id' : Text) (v : StoredIntent)
        → Keeps r
        → (key ≡ k → id' ≡ id → ⊥)
        → Keeps (put r key (JsMap.set id' v (intents_at r key)))
    unfolding Keeps
    Keeps-set r key id' v h n =
        ground (arith, stored_at-set r key k id' id v, text_eq_iff key k, text_eq_iff id' id, h, n)

    Keeps-delete :
        (r : IntentRegistry) (key id' : Text)
        → Keeps r
        → (key ≡ k → id' ≡ id → ⊥)
        → Keeps (put r key (JsMap.delete id' (intents_at r key)))
    unfolding Keeps
    Keeps-delete r key id' h n =
        ground (arith, stored_at-delete r key k id' id, text_eq_iff key k, text_eq_iff id' id, h, n)

    touched-Keeps :
        (r : IntentRegistry) (key : Text) (change : StoredIntent → Option StoredIntent)
        → change s ≡ none
        → Keeps r
        → Keeps (put r key (touch_each change (intents_at r key)).0)
    unfolding Keeps
    touched-Keeps r key change c h = ground (arith, stored_at-touch_each r change key k id, h, c)

    -- A stored intent that belongs to the requester is another one than `s`.
    abbrev Elsewhere :
        (r : IntentRegistry) (key id' : Text) (m : MemberRef) (t : StoredIntent) → Type 0
    Elsewhere r key id' m t =
        JsMap.get id' (intents_at r key) ≡ some t
        → text_eq t.intent.owner.member_id m.member_id ≡ true
        → key ≡ k
        → id' ≡ id
        → ⊥

    elsewhere :
        (r : IntentRegistry) (key id' : Text) (m : MemberRef) (t : StoredIntent)
        → Keeps r
        → text_eq s.intent.owner.member_id m.member_id ≡ false
        → Elsewhere r key id' m t
    unfolding Keeps stored_at
    elsewhere r key id' m t h n g mine a b =
        let e : t ≡ s = cc (h, g, a, b) in
        ground (arith, ap (λ x. x.intent.owner.member_id) e, mine, n)

    update_valid-Keeps :
        (r : IntentRegistry) (q : UpdateRequest) (t : StoredIntent) (es : List Text)
        → Keeps r
        → (session_key p q.session ≡ k → t.intent.intent_id ≡ id → ⊥)
        → Keeps (update_valid p r q t es).0
    unfolding update_valid record_intent
    update_valid-Keeps r q t [] h n = Keeps-set r (session_key p q.session) t.intent.intent_id _ h n
    update_valid-Keeps r q t (e ∷ es) h n = h

    update_found-Keeps :
        (r : IntentRegistry) (q : UpdateRequest) (o : Option StoredIntent)
        → Keeps r
        → ((t : StoredIntent)
            → o ≡ some t
            → text_eq t.intent.owner.member_id q.requester.member_id ≡ true
            → session_key p q.session ≡ k
            → t.intent.intent_id ≡ id
            → ⊥)
        → Keeps (update_found p r q o).0
    unfolding update_found
    update_found-Keeps r q none h n = h
    update_found-Keeps r q (some t) h n =
        elim (Bool-cases (text_eq t.intent.owner.member_id q.requester.member_id)) [
          | inl e ↦ rw e (update_valid-Keeps r q t _ h (n t refl e))
          | inr e ↦ rw e h
        ]

    withdraw_found-Keeps :
        (r : IntentRegistry) (q : WithdrawRequest) (o : Option StoredIntent)
        → Keeps r
        → ((t : StoredIntent)
            → o ≡ some t
            → text_eq t.intent.owner.member_id q.requester.member_id ≡ true
            → session_key p q.session ≡ k
            → q.intent_id ≡ id
            → ⊥)
        → Keeps (withdraw_found p r q o).0
    unfolding withdraw_found
    withdraw_found-Keeps r q none h n = h
    withdraw_found-Keeps r q (some t) h n =
        elim (Bool-cases (text_eq t.intent.owner.member_id q.requester.member_id)) [
          | inl e ↦ rw e (Keeps-delete r (session_key p q.session) q.intent_id h (n t refl e))
          | inr e ↦ rw e h
        ]

    withdraw_creation_of-Keeps :
        (r : IntentRegistry) (key id' path : Text) (t : StoredIntent)
        → Keeps r
        → (key ≡ k → id' ≡ id → ⊥)
        → Keeps (withdraw_creation_of p r key id' path t).0
    unfolding withdraw_creation_of
    withdraw_creation_of-Keeps r key id' path t h n =
        elim (Bool-cases (
          length (without_creation p r (path_key p r path) t.intent.create_paths)
          == length t.intent.create_paths)) [
            | inl e ↦ rw e h
            | inr e ↦ rw e (Keeps-set r key id' _ h n)
          ]

    withdraw_creation_found-Keeps :
        (r : IntentRegistry) (key id' path : Text) (m : MemberRef) (o : Option StoredIntent)
        → Keeps r
        → ((t : StoredIntent)
            → o ≡ some t
            → text_eq t.intent.owner.member_id m.member_id ≡ true
            → key ≡ k
            → id' ≡ id
            → ⊥)
        → Keeps (withdraw_creation_found p r key id' path m o).0
    unfolding withdraw_creation_found
    withdraw_creation_found-Keeps r key id' path m none h n = h
    withdraw_creation_found-Keeps r key id' path m (some t) h n =
        elim (Bool-cases (text_eq t.intent.owner.member_id m.member_id)) [
          | inl e ↦ rw e (withdraw_creation_of-Keeps r key id' path t h (n t refl e))
          | inr e ↦ rw e h
        ]

    deleted_in-other :
        (r : IntentRegistry) (key path : Text) (m : MemberRef)
        → text_eq s.intent.owner.member_id m.member_id ≡ false
        → deleted_in p r key path m s ≡ none
    unfolding deleted_in
    deleted_in-other r key path m n = rw n refl

    walk_session-Keeps :
        (r : IntentRegistry) (key : Text) (change : StoredIntent → Option StoredIntent)
        (o : Option Intents)
        → JsMap.get key r.sessions ≡ o
        → change s ≡ none
        → Keeps r
        → Keeps (walk_session p r key change o).0
    unfolding walk_session
    walk_session-Keeps r key change none e c h = h
    walk_session-Keeps r key change (some l) e c h =
        subst (λ l. Keeps (put r key (touch_each change l).0)) (intents_at-some r key l e)
          (touched-Keeps r key change c h)

    change_tracked-Keeps :
        (r : IntentRegistry) (key : Text) (change : List Text → List Text) (o : Option (List Text))
        → Keeps r
        → Keeps (change_tracked p r key change o)
    unfolding change_tracked put_tracked Keeps stored_at intents_at
    change_tracked-Keeps r key change none h = h
    change_tracked-Keeps r key change (some files) h = h

    delete_path-Keeps :
        (r : IntentRegistry) (session : SessionId) (path : Text) (m : MemberRef)
        → text_eq s.intent.owner.member_id m.member_id ≡ false
        → Keeps r
        → Keeps (delete_path_for_member p r session path m).0
    unfolding delete_path_for_member in_session in_tracked
    delete_path-Keeps r session path m n h = change_tracked-Keeps _ _ _ _ (
        walk_session-Keeps r (session_key p session) _ _ refl
          (deleted_in-other r (path_key p r path) (normalize_path path) m n) h)

  -- A member's call to update, withdraw, complete, drop a planned creation of, or delete a path
  -- from declared intents leaves every intent that another member owns as it is, in every
  -- registry whose intents are stored under their ids.
  pub perform_other :
      (r : IntentRegistry) (call : Call) (k id : Text) (s : StoredIntent)
      → AreUnderIds r
      → stored_at r k id ≡ some s
      → text_eq s.intent.owner.member_id (requester call).member_id ≡ false
      → stored_at (perform r call) k id ≡ some s
  unfolding perform update withdraw complete withdraw_planned_creation Keeps stored_at
  perform_other r (to_update q) k id s v h n =
      let key = session_key p q.session in
      update_found-Keeps k id s (open_session p r key) q _ (Keeps-open k id s r key h)
        λ t g mine a b.
          elsewhere k id s r key q.intent_id q.requester t h n g mine a
            (sym (v key q.intent_id t g) ∙ b)
  perform_other r (to_withdraw q) k id s v h n =
      let key = session_key p q.session in
      withdraw_found-Keeps k id s (open_session p r key) q _ (Keeps-open k id s r key h)
        λ t g. elsewhere k id s r key q.intent_id q.requester t h n g
  perform_other r (to_complete q) k id s v h n =
      let key = session_key p q.session in
      withdraw_found-Keeps k id s (open_session p r key) q _ (Keeps-open k id s r key h)
        λ t g. elsewhere k id s r key q.intent_id q.requester t h n g
  perform_other r (to_withdraw_creation session id' path m) k id s v h n =
      let key = session_key p session in
      withdraw_creation_found-Keeps k id s (open_session p r key) key id' path m _
        (Keeps-open k id s r key h) λ t g. elsewhere k id s r key id' m t h n g
  perform_other r (to_delete_path session path m) k id s v h n =
      delete_path-Keeps k id s r session path m n h
