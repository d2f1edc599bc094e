-- ===== src/Intents/Kept.antt =====
-- The operations of the intent registry keep its invariant, one by one.
use multi_agentic_workflow.Base.{refl, List, [], ◌∷◌, Option, none, some, inl, inr, Bool-cases}
use multi_agentic_workflow.Base.Text.{Text, text_eq}
use multi_agentic_workflow.Protocol.{Platform, SessionId}
use multi_agentic_workflow.Session.{session_key}
use multi_agentic_workflow.Intents.State.{
  IntentRegistry, StoredIntent, intents_at, put_tracked, stored_at,
}
use multi_agentic_workflow.Intents.{
  DeclareRequest, UpdateRequest, WithdrawRequest, declare, declare_valid, reclassify, record_intent,
  update, update_found, update_valid, open_session, withdraw, withdraw_found,
}
use multi_agentic_workflow.Intents.Invariant.{
  IsValid, HasCanonicalPaths, put_same-IsValid, set-IsValid, delete-IsValid,
}
use multi_agentic_workflow.Intents.Paths.{reclassify-IsResolved}

module _ (p : Platform) where
  record_intent-IsValid :
      (r : IntentRegistry) (session : SessionId) (s : StoredIntent) (reclassified : List Text)
      → IsValid r
      → HasCanonicalPaths s.intent
      → IsValid (record_intent p r session s reclassified).0
  unfolding record_intent
  record_intent-IsValid r session s reclassified v h =
      set-IsValid r v (session_key p session) s.intent.intent_id s (refl, h)

  declare_valid-IsValid :
      (r : IntentRegistry) (q : DeclareRequest) (es : List Text)
      → IsValid r
      → IsValid (declare_valid p r q es).0
  unfolding declare_valid
  declare_valid-IsValid r q [] v =
      record_intent-IsValid r q.session _
        (reclassify p r q.session q.modify_paths q.create_paths).reclassified v
        (reclassify-IsResolved p r q.session q.modify_paths q.create_paths)
  declare_valid-IsValid r q (e ∷ es) v = v

  pub declare-IsValid :
      (r : IntentRegistry) (q : DeclareRequest) → IsValid r → IsValid (declare p r q).0
  unfolding declare
  declare-IsValid r q v = declare_valid-IsValid r q _ v

  pub open-IsValid : (r : IntentRegistry) (key : Text) → IsValid r → IsValid (open_session p r key)
  unfolding open_session
  open-IsValid r key v = put_same-IsValid r v key

  update_valid-IsValid :
      (r : IntentRegistry) (q : UpdateRequest) (s : StoredIntent) (es : List Text)
      → IsValid r
      → IsValid (update_valid p r q s es).0
  unfolding update_valid
  update_valid-IsValid r q s [] v =
      record_intent-IsValid r q.session _
        (reclassify p r q.session q.modify_paths q.create_paths).reclassified v
        (reclassify-IsResolved p r q.session q.modify_paths q.create_paths)
  update_valid-IsValid r q s (e ∷ es) v = v

  update_found-IsValid :
      (r : IntentRegistry) (q : UpdateRequest) (o : Option StoredIntent)
      → IsValid r
      → IsValid (update_found p r q o).0
  unfolding update_found
  update_found-IsValid r q none v = v
  update_found-IsValid r q (some s) v =
      elim (Bool-cases (text_eq s.intent.owner.member_id q.requester.member_id)) [
        | inl e ↦ rw e (update_valid-IsValid r q s _ v)
        | inr e ↦ rw e v
      ]

  pub update-IsValid :
      (r : IntentRegistry) (q : UpdateRequest) → IsValid r → IsValid (update p r q).0
  unfolding update
  update-IsValid r q v = update_found-IsValid _ q _ (open-IsValid r (session_key p q.session) v)

  withdraw_found-IsValid :
      (r : IntentRegistry) (q : WithdrawRequest) (o : Option StoredIntent)
      → IsValid r
      → IsValid (withdraw_found p r q o).0
  unfolding withdraw_found
  withdraw_found-IsValid r q none v = v
  withdraw_found-IsValid r q (some s) v =
      elim (Bool-cases (text_eq s.intent.owner.member_id q.requester.member_id)) [
        | inl e ↦ rw e (delete-IsValid r v (session_key p q.session) q.intent_id)
        | inr e ↦ rw e v
      ]

  pub withdraw-IsValid :
      (r : IntentRegistry) (q : WithdrawRequest) → IsValid r → IsValid (withdraw p r q).0
  unfolding withdraw
  withdraw-IsValid r q v = withdraw_found-IsValid _ q _ (open-IsValid r (session_key p q.session) v)

  pub tracked-IsValid :
      (r : IntentRegistry) (k : Text) (files : List Text)
      → IsValid r
      → IsValid (put_tracked r k files)
  unfolding put_tracked stored_at intents_at
  tracked-IsValid r k files v = v
