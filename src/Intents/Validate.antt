-- ===== src/Intents/Validate.antt =====
-- The validation of a declared intent's paths in packages/core-state/src/intents.ts. The check
-- that `scopeKind` is one of three holds by its type.
use multi_agentic_workflow.Base.{
  ℕ, suc, ◌-◌, List, [], ◌∷◌, ◌++◌, Bool, true, false, not, ◌&&◌, ◌==◌, ltb, if◌then◌else◌, length,
}
use multi_agentic_workflow.Base.Text.{Text, codes, has_content}
use multi_agentic_workflow.Protocol.{ScopeKind, file, folder, glob}

-- The loop over the characters, with the depth of open brackets: it stops when the depth would
-- become negative.
unfoldable pub unbalanced : ℕ → Text → Bool
unbalanced depth [] = not (depth == 0)
unbalanced depth (c ∷ cs) =
    let deeper = unbalanced (suc depth) cs in
    let shallower = unbalanced (depth - 1) cs in
    let same = unbalanced depth cs in
    if c == 91 then deeper else if c == 93 then (if depth == 0 then true else shallower) else same

unfoldable pub is_malformed_glob : Text → Bool
unfolding unbalanced
is_malformed_glob pattern = if not (has_content pattern) then true else unbalanced 0 pattern

-- `path.slice(0, n)`
pub slice : ℕ → Text → Text
slice n [] = []
slice n (c ∷ cs) = let rest = slice (n - 1) cs in if n == 0 then [] else c ∷ rest

unfoldable pub is_glob : ScopeKind → Bool
is_glob glob = true
is_glob file = false
is_glob folder = false

unfoldable pub max_path_length : ℕ
max_path_length = 4096

unfoldable pub too_long : Text → List Text
unfolding slice max_path_length
too_long path =
    if ltb max_path_length (length path)
    then (codes "Path exceeds 4096 characters: '" ++ (slice 32 path ++ 8230 ∷ codes "'.")) ∷ []
    else []

unfoldable pub bad_glob : ScopeKind → Text → List Text
unfolding is_glob is_malformed_glob
bad_glob kind path =
    if is_glob kind && is_malformed_glob path
    then (codes "Malformed glob pattern: '" ++ (path ++ codes "'.")) ∷ []
    else []

unfoldable pub path_errors : ScopeKind → List Text → List Text
unfolding too_long bad_glob
path_errors kind [] = []
path_errors kind (path ∷ paths) = too_long path ++ (bad_glob kind path ++ path_errors kind paths)

unfoldable pub empty_errors : List Text → List Text
empty_errors [] = codes "Declared_Intent must include at least one modify or create path." ∷ []
empty_errors (path ∷ paths) = []

unfoldable pub validate : List Text → List Text → ScopeKind → List Text
unfolding empty_errors path_errors
validate modify_paths create_paths kind =
    empty_errors (modify_paths ++ create_paths) ++ path_errors kind (modify_paths ++ create_paths)
