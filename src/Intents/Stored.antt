-- ===== src/Intents/Stored.antt =====
-- What the writes to the intent registry leave in it, read back by session and id.
use multi_agentic_workflow.Base.{
  ◌≡◌, refl, List, [], ◌∷◌, Option, none, some, Bool, true, false, arith, inl, inr, if◌then◌else◌,
  Bool-cases,
}
use multi_agentic_workflow.Base.Text.{Text, text_eq, text_eq_iff, text_eq_refl}
use multi_agentic_workflow.Base.JsMap
use multi_agentic_workflow.Base.JsMap.{JsMap, get_or-set, get-set, get-delete, get}
use multi_agentic_workflow.Protocol.{DeclaredIntent}
use multi_agentic_workflow.Intents.State.{
  IntentRegistry, StoredIntent, Intents, intents_at, tracked_at, put, put_tracked, touch,
  touch_each, stored_at,
}

module _ (r : IntentRegistry) where
  pub intents_at-put :
      (k j : Text) (m : Intents)
      → intents_at (put r k m) j ≡ (if text_eq k j then m else intents_at r j)
  unfolding intents_at put
  intents_at-put k j m = get_or-set k j [] m r.sessions

  pub intents_at-put_self : (k : Text) (m : Intents) → intents_at (put r k m) k ≡ m
  intents_at-put_self k m = ground (arith, intents_at-put k k m, text_eq_refl k)

  pub tracked_at-put : (k j : Text) (m : Intents) → tracked_at (put r k m) j ≡ tracked_at r j
  unfolding tracked_at put
  tracked_at-put k j m = refl

  pub intents_at-put_tracked :
      (k j : Text) (files : List Text) → intents_at (put_tracked r k files) j ≡ intents_at r j
  unfolding intents_at put_tracked
  intents_at-put_tracked k j files = refl

  pub tracked_at-put_tracked :
      (k j : Text) (files : List Text)
      → tracked_at (put_tracked r k files) j ≡ (if text_eq k j then files else tracked_at r j)
  unfolding tracked_at put_tracked
  tracked_at-put_tracked k j files = get_or-set k j [] files r.tracked

  pub stored_at-put :
      (k j id : Text) (m : Intents)
      → stored_at (put r k m) j id ≡ (if text_eq k j then get id m else stored_at r j id)
  unfolding stored_at
  stored_at-put k j id m = elim (Bool-cases (text_eq k j)) [
    | inl e ↦ ground (arith, intents_at-put k j m, e)
    | inr e ↦ ground (arith, intents_at-put k j m, e)
  ]

  -- Opening a session changes no intent.
  pub stored_at-reopen :
      (k j id : Text) → stored_at (put r k (intents_at r k)) j id ≡ stored_at r j id
  unfolding stored_at
  stored_at-reopen k j id = ground (arith, stored_at-put k j id (intents_at r k), text_eq_iff k j)

  pub stored_at-set :
      (k j id id' : Text) (v : StoredIntent)
      → stored_at (put r k (JsMap.set id v (intents_at r k))) j id' ≡ (
          if text_eq k j
          then (if text_eq id id' then some v else stored_at r j id')
          else stored_at r j id')
  unfolding stored_at
  stored_at-set k j id id' v = ground (
    arith,
    stored_at-put k j id' (JsMap.set id v (intents_at r k)),
    get-set id id' v (intents_at r k),
    text_eq_iff k j,
  )

  pub stored_at-delete :
      (k j id id' : Text)
      → stored_at (put r k (JsMap.delete id (intents_at r k))) j id' ≡ (
          if text_eq k j
          then (if text_eq id id' then none else stored_at r j id')
          else stored_at r j id')
  unfolding stored_at
  stored_at-delete k j id id' = ground (
    arith,
    stored_at-put k j id' (JsMap.delete id (intents_at r k)),
    get-delete id id' (intents_at r k),
    text_eq_iff k j,
  )

-- What a loop makes of a stored intent.
abbrev pub changed_or : StoredIntent → Option StoredIntent → StoredIntent
changed_or s none = s
changed_or s (some t) = t

abbrev pub after_each :
    (StoredIntent → Option StoredIntent) → Option StoredIntent → Option StoredIntent
after_each change none = none
after_each change (some s) = some (changed_or s (change s))

get-touch :
    (id j : Text) (s : StoredIntent) (o : Option StoredIntent)
    (rest : Intents × List DeclaredIntent)
    → get id (touch j s o rest).0 ≡ (if text_eq j id then some (changed_or s o) else get id rest.0)
unfolding touch JsMap.get
get-touch id j s none rest = refl
get-touch id j s (some t) rest = refl

-- A loop keeps the keys, and changes every intent by its round.
pub get-touch_each :
    (change : StoredIntent → Option StoredIntent) (id : Text) (m : Intents)
    → get id (touch_each change m).0 ≡ after_each change (get id m)
unfolding touch_each JsMap.get
get-touch_each change id [] = refl
get-touch_each change id ((j, s) ∷ m) = elim (Bool-cases (text_eq j id)) [
  | inl f ↦ ground (arith, get-touch id j s (change s) (touch_each change m), f)
  | inr f ↦
      ground
        (arith, get-touch id j s (change s) (touch_each change m), get-touch_each change id m, f)
]

pub stored_at-touch_each :
    (r : IntentRegistry) (change : StoredIntent → Option StoredIntent) (k j id : Text)
    → stored_at (put r k (touch_each change (intents_at r k)).0) j id
      ≡ (if text_eq k j then after_each change (stored_at r j id) else stored_at r j id)
unfolding stored_at
stored_at-touch_each r change k j id = ground (
  arith,
  stored_at-put r k j id (touch_each change (intents_at r k)).0,
  get-touch_each change id (intents_at r k),
  text_eq_iff k j,
)

-- A round that reports has its test passed.
pub if_some_inv : (b : Bool) (x t : StoredIntent) → (if b then some x else none) ≡ some t → x ≡ t
if_some_inv b x t h = ground (arith, h)

pub if_none_inv : (b : Bool) (x t : StoredIntent) → (if b then none else some x) ≡ some t → x ≡ t
if_none_inv b x t h = ground (arith, h)

pub intents_at-some :
    (r : IntentRegistry) (key : Text) (m : Intents)
    → get key r.sessions ≡ some m
    → intents_at r key ≡ m
unfolding intents_at JsMap.get_or
intents_at-some r key m e = rw (JsMap.get_or, e) refl

pub intents_at-none :
    (r : IntentRegistry) (key : Text) → get key r.sessions ≡ none → intents_at r key ≡ []
unfolding intents_at JsMap.get_or
intents_at-none r key e = rw (JsMap.get_or, e) refl

-- A round with two tests that leave an intent alone.
pub if_three_elim {κ} :
    (P : StoredIntent → Type κ) (a b : Bool) (s t : StoredIntent)
    → (a ≡ true → P s)
    → (b ≡ true → P s)
    → P t
    → P (changed_or s (if a then none else if b then none else some t))
if_three_elim P true b s t h k l = h refl
if_three_elim P false true s t h k l = k refl
if_three_elim P false false s t h k l = l
