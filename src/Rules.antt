-- ===== src/Rules.antt =====
-- packages/core-state/src/rules.ts: the rules of a repository, which map globs to coordination
-- modes, and the mode of a path.
pub mod Glob
pub mod Modes
pub mod Parse
pub mod Documents
pub mod WellFormed
pub mod Malformed
mod Tests
pub mod Patterns
use multi_agentic_workflow.Base.{ℕ, List, [], ◌∷◌, map, Bool, ltb, if◌then◌else◌, select, push}
use multi_agentic_workflow.Base.Text.{Text}
use multi_agentic_workflow.Protocol.{RiskLevel, soft, coordination_required, hard}
use Glob.{glob_match}

pub record RuleEntry : Type 0 where
  pub glob : Text
  pub mode : RiskLevel

-- `RepositoryRulesConfig`, with `defaults.mode` as one field.
pub record RulesConfig : Type 0 where
  pub version : ℕ
  pub default_mode : RiskLevel
  pub rules : List RuleEntry

abbrev pub restrictiveness : RiskLevel → ℕ
restrictiveness soft = 0
restrictiveness coordination_required = 1
restrictiveness hard = 2

abbrev pub all_soft_config : RulesConfig
all_soft_config = record { version = 1; default_mode = soft; rules = [] }

pub stricter : RiskLevel → RiskLevel → RiskLevel
stricter winner mode = if ltb (restrictiveness winner) (restrictiveness mode) then mode else winner

-- The loop over the modes.
pub most_restrictive_from : RiskLevel → List RiskLevel → RiskLevel
unfolding stricter
most_restrictive_from winner [] = winner
most_restrictive_from winner (mode ∷ modes) = most_restrictive_from (stricter winner mode) modes

pub most_restrictive : List RiskLevel → RiskLevel
unfolding most_restrictive_from
most_restrictive modes = most_restrictive_from soft modes

pub resolve_mode : Text → RulesConfig → RiskLevel
unfolding most_restrictive
resolve_mode path cfg =
    let matches = map (λ r. r.mode) (select (λ r. glob_match r.glob path) cfg.rules) in
    most_restrictive (push matches cfg.default_mode)
