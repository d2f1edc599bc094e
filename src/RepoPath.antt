-- ===== src/RepoPath.antt =====
-- packages/core-state/src/path.ts: the canonical spelling of repository-relative paths, and the
-- key that two spellings of one file share.
pub mod Segments
mod Tests
pub mod Canonical
pub mod Spellings
use mathlib.Core.List.{foldl, reverse}
use multi_agentic_workflow.Base.{
  ℕ, List, [], ◌∷◌, map, Option, none, some, Bool, true, false, ◌||◌, ◌==◌, if◌then◌else◌,
}
use multi_agentic_workflow.Base.Text.{Text, codes, text_eq}
use multi_agentic_workflow.Protocol.{Platform}
use multi_agentic_workflow.Session.{join}

pub data CaseSensitivity : Type 0 where
  case_sensitive case_insensitive : CaseSensitivity

pub default_case_sensitivity : Text → CaseSensitivity
default_case_sensitivity os =
    if text_eq os (codes "win32") || text_eq os (codes "darwin")
    then case_insensitive
    else case_sensitive

-- `rawPath.replace(/\\/g, "/")`
pub unify : Text → Text
unify = map (λ c. if c == 92 then 47 else c)

-- One more character in front of a cut text.
prepend : ℕ → Text × List Text → Text × List Text
prepend c (w, ws) = if c == 47 then ([], w ∷ ws) else (c ∷ w, ws)

-- The text up to the first separator, and the pieces after it.
pub cut : Text → Text × List Text
unfolding prepend
cut [] = ([], [])
cut (c ∷ cs) = prepend c (cut cs)

-- `unified.split("/")`
unfoldable pub split : Text → List Text
unfolding cut
split t = (cut t).0 ∷ (cut t).1

abbrev pub dot : Text
dot = 46 ∷ []

abbrev pub dotdot : Text
dotdot = 46 ∷ 46 ∷ []

-- The array `resolved`, its last element first, after a ".." segment.
up : List Text → List Text
up [] = dotdot ∷ []
up (top ∷ rest) = if text_eq top dotdot then dotdot ∷ top ∷ rest else rest

-- One round of the loop over the segments.
pub resolve : List Text → Text → List Text
unfolding up
resolve resolved segment =
    if text_eq segment [] || text_eq segment dot
    then resolved
    else if text_eq segment dotdot
    then up resolved
    else segment ∷ resolved

unfoldable pub normalize_path : Text → Text
unfolding unify split resolve
normalize_path raw = join (codes "/") (reverse (foldl resolve [] (split (unify raw))))

pub path_match_key : Platform → CaseSensitivity → Text → Text
path_match_key p case_insensitive path = p.to_lower path
path_match_key p case_sensitive path = path

-- An optional `sensitivity` argument, with its default.
sensitivity_or_default : Platform → Option CaseSensitivity → CaseSensitivity
unfolding default_case_sensitivity
sensitivity_or_default p none = default_case_sensitivity p.os
sensitivity_or_default p (some s) = s

unfoldable pub normalize_path_key : Platform → Option CaseSensitivity → Text → Text
unfolding normalize_path path_match_key sensitivity_or_default
normalize_path_key p s raw = path_match_key p (sensitivity_or_default p s) (normalize_path raw)

-- The key of a path that is normalized already.
unfoldable pub normalized_key : Platform → Option CaseSensitivity → Text → Text
unfolding path_match_key sensitivity_or_default
normalized_key p s path = path_match_key p (sensitivity_or_default p s) path
