-- ===== src/Intents/Declared.antt =====
-- What a declaration or an update reports and stores: no planned creation of a tracked file, and
-- conflicts with earlier claims of other members only.
use multi_agentic_workflow.Base.{
  ◌≡◌, ◌≢◌, refl, ◌∙◌, ap, List, [], ◌∷◌, ◌++◌, map, Option, none, some, true, false, not, ◌&&◌,
  arith, inl, inr, Bool-cases, All, All-append, In, select-In,
}
use multi_agentic_workflow.Base.Checked.{IsChecked, cons-ne}
use multi_agentic_workflow.Base.Text.{Text, text_eq, text_eq_iff, text_eq_refl}
use multi_agentic_workflow.Base.JsMap.{values-In}
use multi_agentic_workflow.Protocol.{
  Platform, SessionId, DeclaredIntent, PlannedFileCreation, format_error,
}
use multi_agentic_workflow.Session.{session_key}
use multi_agentic_workflow.RepoPath.{normalize_path, normalize_path_key}
use multi_agentic_workflow.RepoPath.Canonical.{normalize_path_idem}
use multi_agentic_workflow.Conflict.Order.{Le}
use multi_agentic_workflow.Intents.State.{
  IntentRegistry, StoredIntent, path_key, intents_at, is_tracked, stored_at,
}
use multi_agentic_workflow.Intents.Validate.{validate}
use multi_agentic_workflow.Intents.Sound.{AreSound, validate-IsChecked}
use multi_agentic_workflow.Intents.Claims.{
  CreationConflict, claimant, claims_path, plans_key, matching_claims, conflict_with, conflicts_of,
  conflicts_for,
}
use multi_agentic_workflow.Intents.{
  DeclareRequest, DeclareResult, declared, declare_failed, Resolved, reclassify_one,
  reclassify_from, reclassify, record_intent, requested, declare_valid, declare,
}
use multi_agentic_workflow.Intents.Stored.{stored_at-set}
use multi_agentic_workflow.Intents.Winner.{creation_winner-Wins}

module _ (p : Platform) (r : IntentRegistry) where
  is_tracked-normalize_path :
      (session : SessionId) (raw : Text)
      → is_tracked p r session (normalize_path raw) ≡ is_tracked p r session raw
  unfolding is_tracked path_key normalize_path_key
  is_tracked-normalize_path session raw = rw (normalize_path_idem raw) refl

  abbrev AreUntracked : SessionId → List PlannedFileCreation → Type 0
  AreUntracked session cs = All (λ c. is_tracked p r session c.path ≡ false) cs

  reclassify_one-AreUntracked :
      (session : SessionId) (raw : Text) (d : Resolved)
      → AreUntracked session d.create
      → AreUntracked session
          (reclassify_one (is_tracked p r session raw) (normalize_path raw) d).create
  unfolding reclassify_one
  reclassify_one-AreUntracked session raw d h = elim (Bool-cases (is_tracked p r session raw)) [
    | inl e ↦ rw e h
    | inr e ↦ rw e (
        All-append _ d.create (record { path = normalize_path raw } ∷ []) h
          (is_tracked-normalize_path session raw ∙ e, tt))
  ]

  reclassify_from-AreUntracked :
      (session : SessionId) (d : Resolved) (raws : List Text)
      → AreUntracked session d.create
      → AreUntracked session (reclassify_from p r session d raws).create
  unfolding reclassify_from
  reclassify_from-AreUntracked session d [] h = h
  reclassify_from-AreUntracked session d (raw ∷ raws) h =
      reclassify_from-AreUntracked session
        (reclassify_one (is_tracked p r session raw) (normalize_path raw) d) raws
        (reclassify_one-AreUntracked session raw d h)

  pub reclassify-AreUntracked :
      (session : SessionId) (ms cs : List Text)
      → AreUntracked session (reclassify p r session ms cs).create
  unfolding reclassify
  reclassify-AreUntracked session ms cs = reclassify_from-AreUntracked session _ cs tt

  plans_key-In :
      (c : PlannedFileCreation) (cs : List PlannedFileCreation)
      → In c cs
      → plans_key p r (path_key p r c.path) cs ≡ true
  unfolding plans_key
  plans_key-In c (d ∷ cs) (inl e) = ground (
    arith,
    ap (λ x. path_key p r x.path) e,
    text_eq_iff (path_key p r d.path) (path_key p r c.path),
  )
  plans_key-In c (d ∷ cs) (inr i) = ground (arith, plans_key-In c cs i)
  plans_key-In c [] i = absurd i

  intents-In :
      (s : StoredIntent) (l : List StoredIntent) → In s l → In s.intent (map (λ t. t.intent) l)
  intents-In s (t ∷ l) (inl e) = inl (ap (λ x. x.intent) e)
  intents-In s (t ∷ l) (inr i) = inr (intents-In s l i)
  intents-In s [] i = absurd i

  -- A stored intent claims what it plans to create.
  matching_claims-In :
      (k id : Text) (s : StoredIntent) (c : PlannedFileCreation)
      → stored_at r k id ≡ some s
      → In c s.intent.create_paths
      → In s.intent (matching_claims p r k (path_key p r c.path) s.intent.branch)
  unfolding matching_claims stored_at claims_path
  matching_claims-In k id s c h i =
      select-In _ s.intent _ (intents-In s _ (values-In id s (intents_at r k) h))
        (rw (text_eq_refl s.intent.branch) (plans_key-In c s.intent.create_paths i))

  -- What a reported conflict says of the intent that ran into it.
  abbrev pub IsLost : DeclaredIntent → CreationConflict → Type 0
  IsLost i c =
      (c.concurrent ≡ claimant i)
      × (c.winner.holder.member_id ≢ i.owner.member_id)
      × (c.winner.intent_id ≢ i.intent_id)
      × Le c.winner.event_revision c.winner.intent_id i.event_revision i.intent_id

  conflict_with-IsLost :
      (i : DeclaredIntent) (path : Text) (o : Option DeclaredIntent)
      → ((w : DeclaredIntent)
          → o ≡ some w
          → Le w.event_revision w.intent_id i.event_revision i.intent_id)
      → All (IsLost i) (conflict_with i path o)
  unfolding conflict_with
  conflict_with-IsLost i path none h = tt
  conflict_with-IsLost i path (some w) h =
      elim (Bool-cases (
        not (text_eq w.intent_id i.intent_id)
        && not (text_eq w.owner.member_id i.owner.member_id))) [
          | inl e ↦ rw e (
            (
              refl,
              (λ a. ground (arith, e, a, text_eq_iff w.owner.member_id i.owner.member_id)),
              (λ a. ground (arith, e, a, text_eq_iff w.intent_id i.intent_id)),
              h w refl,
            ),
            tt,
          )
          | inr e ↦ rw e tt
        ]

  conflicts_of-IsLost :
      (session : SessionId) (id : Text) (s : StoredIntent) (cs : List PlannedFileCreation)
      → stored_at r (session_key p session) id ≡ some s
      → ((c : PlannedFileCreation) → In c cs → In c s.intent.create_paths)
      → All (IsLost s.intent) (conflicts_of p r session s.intent cs)
  unfolding conflicts_of
  conflicts_of-IsLost session id s [] h k = tt
  conflicts_of-IsLost session id s (c ∷ cs) h k =
      All-append _ _ _
        (conflict_with-IsLost s.intent c.path _ (λ w e.
          creation_winner-Wins p r session c.path s.intent.branch w s.intent e
            (matching_claims-In (session_key p session) id s c h (k c (inl refl)))))
        (conflicts_of-IsLost session id s cs h (λ d i. k d (inr i)))

module _ (p : Platform) where
  record_intent-stored :
      (r : IntentRegistry) (session : SessionId) (s : StoredIntent) (reclassified : List Text)
      → stored_at
          (record_intent p r session s reclassified).0
          (session_key p session)
          s.intent.intent_id
        ≡ some s
  unfolding record_intent
  record_intent-stored r session s reclassified = ground (
    arith,
    stored_at-set r (session_key p session) (session_key p session) s.intent.intent_id
        s.intent.intent_id s,
    text_eq_refl (session_key p session),
    text_eq_refl s.intent.intent_id,
  )

  -- What may be declared.
  abbrev pub IsSoundRequest : DeclareRequest → Type 0
  IsSoundRequest q = AreSound q.scope_kind (q.modify_paths ++ q.create_paths)

  abbrev pub IsRecorded : IntentRegistry → DeclareRequest → IntentRegistry × DeclareResult → Type 0
  IsRecorded r q (after, declare_failed code errors) =
      (IsSoundRequest q → ⊥) × (after ≡ r) × (code ≡ format_error) × (errors ≢ [])
  IsRecorded r q (after, declared i reclassified conflicts) =
      IsSoundRequest q
      × ((s : StoredIntent) × (stored_at after (session_key p q.session) q.intent_id ≡ some s)
          × (s.intent ≡ i))
      × All (λ c. is_tracked p r q.session c.path ≡ false) i.create_paths
      × All (IsLost p after i) conflicts

  declare_valid-IsRecorded :
      (r : IntentRegistry) (q : DeclareRequest) (es : List Text)
      → IsChecked (IsSoundRequest q) es
      → IsRecorded r q (declare_valid p r q es)
  unfolding declare_valid record_intent conflicts_for
  declare_valid-IsRecorded r q [] (inl (sound, e)) =
      let paths = reclassify p r q.session q.modify_paths q.create_paths in
      let s : StoredIntent = record { intent = requested p q paths; in_progress = [] } in
      let stored = record_intent-stored r q.session s paths.reclassified in
      (
        sound,
        (s, stored, refl),
        reclassify-AreUntracked p r q.session q.modify_paths q.create_paths,
        conflicts_of-IsLost p (record_intent p r q.session s paths.reclassified).0 q.session
            q.intent_id s paths.create stored (λ c i. i),
      )
  declare_valid-IsRecorded r q [] (inr (unsound, e)) = absurd (e refl)
  declare_valid-IsRecorded r q (x ∷ xs) (inl (sound, e)) = absurd (cons-ne x xs e)
  declare_valid-IsRecorded r q (x ∷ xs) (inr (unsound, e)) = (unsound, refl, refl, e)

  -- A declaration is refused, with a problem reported and nothing changed, exactly when it has no path,
  -- or a path of more than 4096 characters, or is for globs and has one that is blank or has unbalanced
  -- brackets. Any other is stored under its id as reported, plans to create no file that is tracked,
  -- and reports conflicts only with claims of other members under other ids that have an earlier
  -- Event_Revision, or the same one with an id that is not later.
  pub declare-IsRecorded :
      (r : IntentRegistry) (q : DeclareRequest) → IsRecorded r q (declare p r q)
  unfolding declare
  declare-IsRecorded r q =
      declare_valid-IsRecorded r q (validate q.modify_paths q.create_paths q.scope_kind)
        (validate-IsChecked q.modify_paths q.create_paths q.scope_kind)
