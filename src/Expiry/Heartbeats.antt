-- ===== src/Expiry/Heartbeats.antt =====
-- Which devices are stale.
use multi_agentic_workflow.Base.{
  ℕ, ◌≡◌, refl, ◌∙◌, inl, inr, List, [], ◌∷◌, Option, none, some, Bool, false, ◌||◌, arith,
  Bool-cases,
}
use multi_agentic_workflow.Base.Text.{Text, text_eq, text_eq_iff, text_lt}
use multi_agentic_workflow.Base.JsMap
use multi_agentic_workflow.Base.JsMap.{JsMap}
use multi_agentic_workflow.Base.MapKeys.{HasKeys}
use multi_agentic_workflow.Base.JsSet
use multi_agentic_workflow.Protocol.{Platform, SessionId}
use multi_agentic_workflow.Session.{session_key}
use multi_agentic_workflow.Expiry.{
  ExpiryEngine, table_for, last_seen, is_stale, stale_in, insert_text, sort_texts, stale_devices,
}

has-insert_text :
    (t : Text) (ts : List Text) (d : Text)
    → JsSet.has (insert_text t ts) d ≡ (text_eq t d || JsSet.has ts d)
unfolding insert_text JsSet.has
has-insert_text t [] d = refl
has-insert_text t (x ∷ xs) d = elim (Bool-cases (text_lt t x)) [
  | inl e ↦ rw e refl
  | inr e ↦ rw e (ground (arith, has-insert_text t xs d))
]

has-sort_texts :
    (sorted ts : List Text) (d : Text)
    → JsSet.has (sort_texts sorted ts) d ≡ (JsSet.has sorted d || JsSet.has ts d)
unfolding sort_texts JsSet.has
has-sort_texts sorted [] d = ground arith
has-sort_texts sorted (t ∷ ts) d =
    ground (arith, has-sort_texts (insert_text t sorted) ts d, has-insert_text t sorted d)

abbrev pub stale_at : ℕ → ℕ → Option ℕ → Bool
stale_at interval now none = false
stale_at interval now (some seen) = is_stale interval now seen

has-stale_in :
    (interval now : ℕ) (table : JsMap ℕ) (d : Text)
    → HasKeys table
    → JsSet.has (stale_in interval now table) d ≡ stale_at interval now (JsMap.get d table)
unfolding stale_in JsSet.has JsMap.get
has-stale_in interval now [] d h = refl
has-stale_in interval now ((k, seen) ∷ table) d h =
    let ih = has-stale_in interval now table d h.1 in
    elim (Bool-cases (is_stale interval now seen)) [
      | inl e ↦ ground (arith, e, h.0, ih, text_eq_iff k d)
      | inr e ↦ ground (arith, e, h.0, ih, text_eq_iff k d)
    ]

-- A device is stale exactly when its most recent heartbeat lies further back than the interval; one
-- without a heartbeat is not.
pub has-stale_devices :
    (p : Platform) (e : ExpiryEngine) (session : SessionId) (now : ℕ) (d : Text)
    → HasKeys (table_for e (session_key p session))
    → JsSet.has (stale_devices p e session now) d
      ≡ stale_at e.config.lock_expiry_interval_ms now (last_seen p e session d)
unfolding stale_devices last_seen JsSet.has
has-stale_devices p e session now d h =
    has-sort_texts [] _ d
    ∙ has-stale_in e.config.lock_expiry_interval_ms now (table_for e (session_key p session)) d h
