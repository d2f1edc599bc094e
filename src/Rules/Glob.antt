-- ===== src/Rules/Glob.antt =====
-- The glob matching of packages/core-state/src/rules.ts: a segment is compiled to an anchored
-- regular expression, and "**" stands for any number of whole segments.
use multi_agentic_workflow.Base.{
  List, [], ◌∷◌, map, Bool, true, false, not, ◌&&◌, ◌||◌, ◌==◌, if◌then◌else◌, any, select, ℕ,
}
use multi_agentic_workflow.Base.Text.{Text, text_eq}
use multi_agentic_workflow.RepoPath.{normalize_path, split}

-- A part of the compiled expression: `[^/]*`, `[^/]`, or an escaped character.
pub data Part : Type 0 where
  run single : Part
  literal : ℕ → Part

pub part : ℕ → Part
part c = if c == 42 then run else if c == 63 then single else literal c

pub segment_to_reg_exp : Text → List Part
unfolding part
segment_to_reg_exp = map part

unfoldable pub is_separator : ℕ → Bool
is_separator c = c == 47

-- `RegExp.prototype.test` on such an expression between `^` and `$`.
unfoldable pub test : List Part → Text → Bool
unfolding is_separator
test [] [] = true
test [] (c ∷ cs) = false
test (run ∷ ps) [] = test ps []
test (run ∷ ps) (c ∷ cs) =
    let skip = test ps (c ∷ cs) in
    let more = test (run ∷ ps) cs in skip || (not (is_separator c) && more)
test (single ∷ ps) [] = false
test (single ∷ ps) (c ∷ cs) = let rest = test ps cs in not (is_separator c) && rest
test (literal x ∷ ps) [] = false
test (literal x ∷ ps) (c ∷ cs) = let rest = test ps cs in c == x && rest

abbrev pub globstar : Text
globstar = 42 ∷ 42 ∷ []

-- What is left of the path for each `k` from `p` to its length.
unfoldable pub rests : List Text → List (List Text)
rests [] = [] ∷ []
rests (p ∷ ps) = (p ∷ ps) ∷ rests ps

unfoldable pub is_empty : List Text → Bool
is_empty [] = true
is_empty (p ∷ ps) = false

-- One round of the loop at a segment that is no globstar, with the rest of the loop.
unfoldable pub match_one : Text → (List Text → Bool) → List Text → Bool
unfolding segment_to_reg_exp test
match_one segment next [] = false
match_one segment next (p ∷ ps) = if test (segment_to_reg_exp segment) p then next ps else false

-- The segments of the glob from `gi` on, and those of the path from `pi` on.
unfoldable pub match_segments : List Text → List Text → Bool
unfolding rests is_empty match_one
match_segments [] ps = is_empty ps
match_segments (g ∷ gs) ps =
    if text_eq g globstar
    then any (match_segments gs) (rests ps)
    else match_one g (match_segments gs) ps

pub not_empty : Text → Bool
not_empty [] = false
not_empty (c ∷ cs) = true

pub segments : Text → List Text
unfolding normalize_path split not_empty
segments value = select not_empty (split (normalize_path value))

unfoldable pub glob_match : Text → Text → Bool
unfolding match_segments segments
glob_match glob path = match_segments (segments glob) (segments path)
