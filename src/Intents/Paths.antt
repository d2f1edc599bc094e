-- ===== src/Intents/Paths.antt =====
-- The paths that the intent registry stores are canonical: what a request, a rename and a deletion
-- make of them.
use multi_agentic_workflow.Base.{
  List, [], ◌∷◌, map, Bool, true, false, inl, inr, Bool-cases, All-append, select-All,
}
use multi_agentic_workflow.Base.Text.{Text, text_eq}
use multi_agentic_workflow.Base.JsSet
use multi_agentic_workflow.Protocol.{Platform, SessionId, DeclaredIntent, PlannedFileCreation}
use multi_agentic_workflow.RepoPath.{normalize_path}
use multi_agentic_workflow.RepoPath.Canonical.{normalize_path_idem}
use multi_agentic_workflow.Intents.State.{IntentRegistry, path_key, is_tracked}
use multi_agentic_workflow.Intents.{Resolved, reclassify, reclassify_from, reclassify_one}
use multi_agentic_workflow.Intents.Reconcile.{
  renamed_path, distinct_onto, distinct_creations, renamed_intent, deleted_intent, without_creation,
}
use multi_agentic_workflow.Intents.Invariant.{
  IsCanonical, AreCanonical, ArePlanned, HasCanonicalPaths,
}

normalized-AreCanonical : (paths : List Text) → AreCanonical (map normalize_path paths)
normalized-AreCanonical [] = tt
normalized-AreCanonical (x ∷ xs) = (normalize_path_idem x, normalized-AreCanonical xs)

abbrev IsResolved : Resolved → Type 0
IsResolved d = AreCanonical d.modify × ArePlanned d.create

reclassify_one-IsResolved :
    (known : Bool) (path : Text) (d : Resolved)
    → IsCanonical path
    → IsResolved d
    → IsResolved (reclassify_one known path d)
unfolding reclassify_one
reclassify_one-IsResolved true path d c h = (JsSet.add-All IsCanonical d.modify path h.0 c, h.1)
reclassify_one-IsResolved false path d c h =
    (h.0, All-append (λ x. IsCanonical x.path) d.create (record { path = path } ∷ []) h.1 (c, tt))

module _ (p : Platform) (r : IntentRegistry) where
  reclassify_from-IsResolved :
      (session : SessionId) (d : Resolved) (raws : List Text)
      → IsResolved d
      → IsResolved (reclassify_from p r session d raws)
  unfolding reclassify_from
  reclassify_from-IsResolved session d [] h = h
  reclassify_from-IsResolved session d (raw ∷ raws) h =
      reclassify_from-IsResolved session
        (reclassify_one (is_tracked p r session raw) (normalize_path raw) d) raws
        (reclassify_one-IsResolved (is_tracked p r session raw) (normalize_path raw) d
          (normalize_path_idem raw) h)

  pub reclassify-IsResolved :
      (session : SessionId) (modify_paths create_paths : List Text)
      → IsResolved (reclassify p r session modify_paths create_paths)
  unfolding reclassify
  reclassify-IsResolved session ms cs =
      reclassify_from-IsResolved session _ cs (normalized-AreCanonical ms, tt)

  module _ (from_key target : Text) (c : IsCanonical target) where
    renamed_path-IsCanonical :
        (path : Text) → IsCanonical path → IsCanonical (renamed_path p r from_key target path)
    unfolding renamed_path
    renamed_path-IsCanonical path h = elim (Bool-cases (text_eq (path_key p r path) from_key)) [
      | inl e ↦ rw e c
      | inr e ↦ rw e h
    ]

    map-renamed :
        (paths : List Text)
        → AreCanonical paths
        → AreCanonical (map (renamed_path p r from_key target) paths)
    map-renamed [] h = tt
    map-renamed (x ∷ xs) h = (renamed_path-IsCanonical x h.0, map-renamed xs h.1)

    map-planned :
        (cs : List PlannedFileCreation)
        → ArePlanned cs
        → ArePlanned (map (λ x. record { path = renamed_path p r from_key target x.path }) cs)
    map-planned [] h = tt
    map-planned (x ∷ xs) h = (renamed_path-IsCanonical x.path h.0, map-planned xs h.1)

    distinct_onto-All :
        (seen paths : List Text)
        → AreCanonical seen
        → AreCanonical paths
        → AreCanonical (distinct_onto p seen paths)
    unfolding distinct_onto
    distinct_onto-All seen [] h k = h
    distinct_onto-All seen (x ∷ xs) h k =
        distinct_onto-All (JsSet.add seen x) xs (JsSet.add-All IsCanonical seen x h k.0) k.1

    distinct_creations-All :
        (seen : List Text) (cs : List PlannedFileCreation)
        → ArePlanned cs
        → ArePlanned (distinct_creations p r seen cs)
    unfolding distinct_creations
    distinct_creations-All seen [] h = tt
    distinct_creations-All seen (x ∷ xs) h =
        elim (Bool-cases (JsSet.has seen (path_key p r x.path))) [
          | inl e ↦ rw e (distinct_creations-All seen xs h.1)
          | inr e ↦ rw e (h.0, distinct_creations-All (JsSet.add seen (path_key p r x.path)) xs h.1)
        ]

    pub renamed-HasCanonicalPaths :
        (i : DeclaredIntent)
        → HasCanonicalPaths i
        → HasCanonicalPaths (renamed_intent p r from_key target i)
    renamed-HasCanonicalPaths i h = (
      distinct_onto-All [] _ tt (map-renamed i.modify_paths h.0),
      distinct_creations-All [] _ (map-planned i.create_paths h.1),
    )

  pub without-ArePlanned :
      (key : Text) (cs : List PlannedFileCreation)
      → ArePlanned cs
      → ArePlanned (without_creation p r key cs)
  unfolding without_creation
  without-ArePlanned key cs h = select-All (λ x. IsCanonical x.path) _ cs h

  pub deleted-HasCanonicalPaths :
      (key : Text) (i : DeclaredIntent)
      → HasCanonicalPaths i
      → HasCanonicalPaths (deleted_intent p r key i)
  deleted-HasCanonicalPaths key i h =
      (select-All IsCanonical _ i.modify_paths h.0, without-ArePlanned key i.create_paths h.1)
