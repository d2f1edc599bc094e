-- ===== src/RepoPath/Tests.antt =====
-- The theorems on paths, at concrete ones.
use multi_agentic_workflow.Base.{◌≡◌, ◌≢◌, arith, List, ◌++◌, All}
use multi_agentic_workflow.Base.Text.{Text, codes}
use multi_agentic_workflow.Session.{join}
use multi_agentic_workflow.RepoPath.{normalize_path, dotdot}
use multi_agentic_workflow.RepoPath.Canonical.{IsProper, IsDotdot}
use multi_agentic_workflow.RepoPath.Spellings.{normalize_path_form}

normalize_path_form_example :
    (ups names : List Text) × (normalize_path (codes "../a/./b") ≡ join (codes "/") (ups ++ names))
    × All IsDotdot ups
    × All (λ w. IsProper w × (w ≢ dotdot)) names
normalize_path_form_example = normalize_path_form (codes "../a/./b")

proper : IsProper (codes "w")
proper = (
  (((λ e. absurd (omega arith)), (λ e. absurd (omega arith))), tt),
  (λ e. cc),
  (λ e. absurd (ground (arith, e))),
)

not_dotdot : codes "w" ≢ dotdot
not_dotdot e = cc
