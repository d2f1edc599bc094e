-- ===== src/Snapshot/Refiled.antt =====
-- A session's maps, filled again from what they hold, one entity after the other.
use mathlib.Core.List.{append_assoc, append-nil}
use multi_agentic_workflow.Base.{
  ◌≡◌, ◌≢◌, refl, sym, ◌∙◌, ap, subst, List, [], ◌∷◌, ◌++◌, map, Option, none, arith, All, push,
}
use multi_agentic_workflow.Base.Text.{Text}
use multi_agentic_workflow.Base.JsMap
use multi_agentic_workflow.Base.JsMap.{JsMap, Holds}
use multi_agentic_workflow.Base.MapKeys.{
  HasKeys, AreUnder, set_new, set_last, get_last, get-before, HasKeys-shift,
}
use multi_agentic_workflow.Protocol.{Platform, Lock, Presence}
use multi_agentic_workflow.RepoPath.{CaseSensitivity, normalize_path}
use multi_agentic_workflow.Locks.{Groups, claims_at}
use multi_agentic_workflow.Locks.Group.{group_key}
use multi_agentic_workflow.Locks.Stored.{IsSettled, AreSettled}
use multi_agentic_workflow.Locks.Upkeep.{regroup, resolve_all, concat_claims}
use multi_agentic_workflow.Presence.{Entries, entry_key, newest, reinstall, reinstalled}
use multi_agentic_workflow.Intents.State.{Intents, StoredIntent}
use multi_agentic_workflow.Intents.Reconcile

module _ (p : Platform) (s : Option CaseSensitivity) where
  abbrev pub IsUnder : Text → Lock → Type 0
  IsUnder k l = group_key p s l.scope l.scope_kind l.branch ≡ k

  abbrev pub AreClaims : Text → List Lock → Type 0
  AreClaims k claims = All (λ (l : Lock). IsUnder k l) claims

  filed_last :
      (k : Text) (done : Groups) (xs : List Lock) (y : Lock)
      → JsMap.get k done ≡ none
      → JsMap.set k (push (claims_at (done ++ (k, xs) ∷ []) k) y) (done ++ (k, xs) ∷ [])
        ≡ done ++ (k, push xs y) ∷ []
  unfolding claims_at JsMap.get_or
  filed_last k done xs y new =
      rw (get_last k xs done new, claims_at, JsMap.get_or) (set_last k (push xs y) xs done new)

  filed_new :
      (k : Text) (done : Groups) (y : Lock)
      → JsMap.get k done ≡ none
      → JsMap.set k (push (claims_at done k) y) done ≡ done ++ (k, y ∷ []) ∷ []
  unfolding claims_at JsMap.get_or
  filed_new k done y new = rw (new, claims_at, JsMap.get_or) (set_new k (y ∷ []) done new)

  -- Claims of a group whose first part is filed already.
  regroup_claims :
      (k : Text) (done : Groups) (xs ys : List Lock) (rest : List Lock)
      → JsMap.get k done ≡ none
      → AreClaims k ys
      → regroup p s (done ++ (k, xs) ∷ []) (ys ++ rest)
        ≡ regroup p s (done ++ (k, xs ++ ys) ∷ []) rest
  unfolding regroup
  regroup_claims k done xs [] rest new h = rw (append-nil xs) refl
  regroup_claims k done xs (y ∷ ys) rest new h =
      ap (λ d. regroup p s d (ys ++ rest))
        (subst
          (λ j.
            JsMap.set j (push (claims_at (done ++ (k, xs) ∷ []) j) y) (done ++ (k, xs) ∷ [])
            ≡ done ++ (k, push xs y) ∷ [])
          (sym h.0) (filed_last k done xs y new))
      ∙ regroup_claims k done (push xs y) ys rest new h.1
      ∙ ap (λ l. regroup p s (done ++ (k, l) ∷ []) rest) (append_assoc xs (y ∷ []) ys)

  regroup_group :
      (k : Text) (done : Groups) (claims : List Lock) (rest : List Lock)
      → JsMap.get k done ≡ none
      → claims ≢ []
      → AreClaims k claims
      → regroup p s done (claims ++ rest) ≡ regroup p s (done ++ (k, claims) ∷ []) rest
  unfolding regroup
  regroup_group k done [] rest new ne h = absurd (ne refl)
  regroup_group k done (c ∷ cs) rest new ne h =
      ap (λ d. regroup p s d (cs ++ rest))
        (subst (λ j. JsMap.set j (push (claims_at done j) c) done ≡ done ++ (k, c ∷ []) ∷ [])
          (sym h.0) (filed_new k done c new))
      ∙ regroup_claims k done (c ∷ []) cs rest new h.1

  regroup_all :
      (done groups : Groups)
      → HasKeys (done ++ groups)
      → Holds IsSettled groups
      → AreUnder AreClaims groups
      → regroup p s done (concat_claims groups) ≡ done ++ groups
  unfolding regroup concat_claims
  regroup_all done [] keys settled h = sym (append-nil done)
  regroup_all done ((k, claims) ∷ groups) keys settled h =
      regroup_group k done claims (concat_claims groups) (get-before k claims done groups keys)
        settled.0.0 h.0
      ∙ regroup_all (done ++ (k, claims) ∷ []) groups (HasKeys-shift k claims done groups keys)
          settled.1 h.1
      ∙ append_assoc done ((k, claims) ∷ []) groups

  resolve_all_settled : (groups : Groups) → Holds IsSettled groups → resolve_all groups ≡ groups
  unfolding resolve_all
  resolve_all_settled [] h = refl
  resolve_all_settled ((k, claims) ∷ groups) h =
      ap (λ l. (k, l) ∷ resolve_all groups) h.0.1
      ∙ ap (λ g. (k, claims) ∷ g) (resolve_all_settled groups h.1)

  pub refiled_locks :
      (groups : Groups)
      → AreSettled groups
      → AreUnder AreClaims groups
      → resolve_all (regroup p s [] (concat_claims groups)) ≡ groups
  refiled_locks groups h under =
      ap resolve_all (regroup_all [] groups h.1 h.0 under) ∙ resolve_all_settled groups h.0

  abbrev pub IsEntry : Text → Presence → Type 0
  IsEntry k e = (entry_key p s e.member e.path ≡ k) × (normalize_path e.path ≡ e.path)

  with_path : Presence → Text → Presence
  with_path e path = record e { path = path }

  installed :
      (k : Text) (done : Entries) (e : Presence)
      → JsMap.get k done ≡ none
      → normalize_path e.path ≡ e.path
      → JsMap.set k (newest (JsMap.get k done) (reinstalled e)) done ≡ done ++ (k, e) ∷ []
  unfolding newest with_path
  installed k done e new canonical =
      rw new (ap (λ q. JsMap.set k (with_path e q) done) canonical ∙ set_new k e done new)

  refiled_from :
      (done entries : Entries)
      → HasKeys (done ++ entries)
      → AreUnder IsEntry entries
      → reinstall p s done (JsMap.values entries) ≡ done ++ entries
  unfolding reinstall newest
  refiled_from done [] keys h = sym (append-nil done)
  refiled_from done ((k, e) ∷ entries) keys h =
      ap (λ d. reinstall p s d (JsMap.values entries))
        (subst
          (λ j. JsMap.set j (newest (JsMap.get j done) (reinstalled e)) done ≡ done ++ (k, e) ∷ [])
          (sym h.0.0) (installed k done e (get-before k e done entries keys) h.0.1))
      ∙ refiled_from (done ++ (k, e) ∷ []) entries (HasKeys-shift k e done entries keys) h.1
      ∙ append_assoc done ((k, e) ∷ []) entries

  pub refiled_presence :
      (entries : Entries)
      → HasKeys entries
      → AreUnder IsEntry entries
      → reinstall p s [] (JsMap.values entries) ≡ entries
  refiled_presence entries keys h = refiled_from [] entries keys h

-- An intent comes back without its progress markers.
abbrev pub unmarked : StoredIntent → StoredIntent
unmarked s = record { intent = s.intent; in_progress = [] }

abbrev pub HasId : Text → StoredIntent → Type 0
HasId k s = s.intent.intent_id ≡ k

pub unmarked_each : Intents → Intents
unmarked_each [] = []
unmarked_each ((k, s) ∷ m) = (k, unmarked s) ∷ unmarked_each m

get-unmarked_each :
    (k : Text) (m : Intents) → JsMap.get k m ≡ none → JsMap.get k (unmarked_each m) ≡ none
unfolding unmarked_each JsMap.get
get-unmarked_each k [] h = refl
get-unmarked_each k ((j, s) ∷ m) h = ground (arith, h, get-unmarked_each k m)

unmarked_each-HasKeys : (m : Intents) → HasKeys m → HasKeys (unmarked_each m)
unfolding unmarked_each
unmarked_each-HasKeys [] h = tt
unmarked_each-HasKeys ((k, s) ∷ m) h = (get-unmarked_each k m h.0, unmarked_each-HasKeys m h.1)

declared_from :
    (p : Platform) (done m : Intents)
    → HasKeys (done ++ unmarked_each m)
    → AreUnder HasId m
    → Reconcile.reinstall p done (map (λ s. s.intent) (JsMap.values m)) ≡ done ++ unmarked_each m
unfolding Reconcile.reinstall unmarked_each
declared_from p done [] keys h = sym (append-nil done)
declared_from p done ((k, s) ∷ m) keys h =
    let new = get-before k (unmarked s) done (unmarked_each m) keys in
    ap (λ d. Reconcile.reinstall p d (map (λ (t : StoredIntent). t.intent) (JsMap.values m)))
      (subst (λ j. JsMap.set j (unmarked s) done ≡ done ++ (k, unmarked s) ∷ []) (sym h.0)
        (set_new k (unmarked s) done new))
    ∙ declared_from p (done ++ (k, unmarked s) ∷ []) m
        (HasKeys-shift k (unmarked s) done (unmarked_each m) keys) h.1
    ∙ append_assoc done ((k, unmarked s) ∷ []) (unmarked_each m)

pub refiled_intents :
    (p : Platform) (m : Intents)
    → HasKeys m
    → AreUnder HasId m
    → Reconcile.reinstall p [] (map (λ s. s.intent) (JsMap.values m)) ≡ unmarked_each m
refiled_intents p m keys h = declared_from p [] m (unmarked_each-HasKeys m keys) h
