-- ===== src/Rules/Parse.antt =====
-- `parseRulesConfig` of packages/core-state/src/rules.ts: the validation of a rules document that
-- has been read already. Any problem makes the whole configuration soft.

use multi_agentic_workflow.Base.{
  ℕ, suc, List, [], ◌∷◌, ◌++◌, Option, none, some, Bool, true, false, ◌==◌, if◌then◌else◌,
}
use multi_agentic_workflow.Base.Text.{Text, codes, text_eq, has_content}
use multi_agentic_workflow.Protocol.{RiskLevel, soft, coordination_required, hard}
use multi_agentic_workflow.Session.{decimal}
use multi_agentic_workflow.Rules.{RuleEntry, RulesConfig, all_soft_config}

-- A JavaScript value as `unknown`: `primitive` is a boolean or a number that is not a natural one,
-- with what `String` makes of it. A mapping has its own keys in order.
mutual
  pub data Value : Type 0 where
    undefined null : Value
    number : ℕ → Value
    primitive text : Text → Value
    list : Values → Value
    mapping : Fields → Value

  pub data Values : Type 0 where
    no_more : Values
    and_more : Value → Values → Values

  pub data Fields : Type 0 where
    no_field : Fields
    field : Text → Value → Fields → Fields

pub record ConfigError : Type 0 where
  pub location : Text
  pub message : Text

pub record ParseResult : Type 0 where
  pub config : RulesConfig
  pub errors : List ConfigError
  pub malformed : Bool

-- `key in object`, and the value there.
unfoldable pub field_at : Text → Fields → Option Value
field_at k no_field = none
field_at k (field j v rest) = if text_eq j k then some v else field_at k rest

-- The destructuring of an entry: a missing key gives undefined.
unfoldable pub field_or_undefined : Text → Fields → Value
unfolding field_at
field_or_undefined k fs = elim (field_at k fs) [ none ↦ undefined | some v ↦ v ]

-- `isRiskLevel`, with the level that it narrows to.
unfoldable pub risk_level_of : Text → Option RiskLevel
risk_level_of t =
    if text_eq t (codes "soft")
    then some soft
    else if text_eq t (codes "coordination-required")
    then some coordination_required
    else if text_eq t (codes "hard")
    then some hard
    else none

unfoldable pub is_risk_level : Value → Option RiskLevel
unfolding risk_level_of
is_risk_level (text t) = risk_level_of t
is_risk_level _ = none

unfoldable pub glob_text : Value → Option Text
unfolding has_content
glob_text (text t) = if has_content t then some t else none
glob_text _ = none

unfoldable pub is_one : Value → Bool
is_one (number n) = n == 1
is_one _ = false

abbrev pub expected_modes : Text
expected_modes = codes "; expected one of soft, coordination-required, hard."

abbrev pub problem : Text → Text → ConfigError
problem location message = record { location = location; message = message }

abbrev pub rule_location : ℕ → Text
rule_location index = codes "rules[" ++ (decimal index ++ codes "]")

-- `JSON.stringify` on a string is a parameter.
module _ (stringify : Text → Text) where
  pub describe : Value → Text
  describe undefined = codes "undefined"
  describe null = codes "null"
  describe (number n) = decimal n
  describe (primitive t) = t
  describe (text t) = stringify t
  describe (list vs) = codes "a list"
  describe (mapping fs) = codes "a mapping"

  unfoldable pub version_errors : Option Value → List ConfigError
  unfolding describe is_one
  version_errors none = problem (codes "version") (codes "Missing required 'version' field.") ∷ []
  version_errors (some v) =
      if is_one v
      then []
      else problem (codes "version")
          (codes "Unsupported version " ++ (describe v ++ codes "; expected 1."))
        ∷ []

  pub invalid_mode : Text → Value → ConfigError
  unfolding describe
  invalid_mode location v =
      problem location (codes "Invalid mode " ++ (describe v ++ expected_modes))

  unfoldable pub default_of : Value → Option RiskLevel → RiskLevel × List ConfigError
  unfolding invalid_mode
  default_of v (some m) = (m, [])
  default_of v none = (soft, invalid_mode (codes "defaults.mode") v ∷ [])

  unfoldable pub default_mode_of : Option Value → RiskLevel × List ConfigError
  unfolding default_of is_risk_level
  default_mode_of none = (soft, [])
  default_mode_of (some undefined) = (soft, [])
  default_mode_of (some v) = default_of v (is_risk_level v)

  unfoldable pub defaults_of : Option Value → RiskLevel × List ConfigError
  unfolding default_mode_of describe field_at
  defaults_of none = (soft, [])
  defaults_of (some undefined) = (soft, [])
  defaults_of (some (mapping fs)) = default_mode_of (field_at (codes "mode") fs)
  defaults_of (some v) = (
    soft,
    problem (codes "defaults")
          (codes "'defaults' must be a mapping, got " ++ (describe v ++ codes "."))
        ∷ [],
  )

  unfoldable pub glob_errors : Text → Value → Option Text → List ConfigError
  unfolding describe
  glob_errors location v (some t) = []
  glob_errors location v none =
      problem (location ++ codes ".glob")
        (codes "Rule 'glob' must be a non-empty string, got " ++ (describe v ++ codes "."))
      ∷ []

  unfoldable pub mode_errors : Text → Value → Option RiskLevel → List ConfigError
  unfolding invalid_mode
  mode_errors location v (some m) = []
  mode_errors location v none = invalid_mode (location ++ codes ".mode") v ∷ []

  unfoldable pub both : Option Text → Option RiskLevel → List RuleEntry
  both (some t) (some m) = record { glob = t; mode = m } ∷ []
  both _ _ = []

  -- One entry of the list: the rule that it gives, if any, and its problems.
  unfoldable pub rule_of : ℕ → Value → List RuleEntry × List ConfigError
  unfolding glob_errors mode_errors both glob_text is_risk_level field_or_undefined describe
  rule_of index (mapping fs) =
      let g = field_or_undefined (codes "glob") fs in
      let m = field_or_undefined (codes "mode") fs in
      (
        both (glob_text g) (is_risk_level m),
        glob_errors (rule_location index) g (glob_text g)
            ++ mode_errors (rule_location index) m (is_risk_level m),
      )
  rule_of index v = (
    [],
    problem (rule_location index)
          (codes "Rule must be a mapping, got " ++ (describe v ++ codes "."))
        ∷ [],
  )

  -- What one entry adds in front of the others.
  unfoldable pub gather :
      List RuleEntry × List ConfigError
      → List RuleEntry × List ConfigError
      → List RuleEntry × List ConfigError
  gather one others = (one.0 ++ others.0, one.1 ++ others.1)

  -- `raw.rules.forEach`
  unfoldable pub each_rule : ℕ → Values → List RuleEntry × List ConfigError
  unfolding rule_of gather
  each_rule index no_more = ([], [])
  each_rule index (and_more v vs) = gather (rule_of index v) (each_rule (suc index) vs)

  unfoldable pub rules_of : Option Value → List RuleEntry × List ConfigError
  unfolding each_rule describe
  rules_of none = ([], [])
  rules_of (some undefined) = ([], [])
  rules_of (some (list vs)) = each_rule 0 vs
  rules_of (some v) = (
    [],
    problem (codes "rules") (codes "'rules' must be a list, got " ++ (describe v ++ codes "."))
        ∷ [],
  )

  unfoldable pub settle_config : RulesConfig → List ConfigError → ParseResult
  settle_config config [] = record { config = config; errors = []; malformed = false }
  settle_config config (e ∷ es) = record {
    config = all_soft_config;
    errors = e ∷ es;
    malformed = true;
  }

  unfoldable pub parse_rules_config : Value → ParseResult
  unfolding version_errors defaults_of rules_of settle_config describe field_at
  parse_rules_config (mapping fs) =
      let defaults = defaults_of (field_at (codes "defaults") fs) in
      let rules = rules_of (field_at (codes "rules") fs) in
      settle_config (record { version = 1; default_mode = defaults.0; rules = rules.0 })
        (version_errors (field_at (codes "version") fs) ++ (defaults.1 ++ rules.1))
  parse_rules_config v = record {
    config = all_soft_config;
    errors =
        problem (codes "(root)")
          (codes "Repository_Rules_Config must be a mapping, got " ++ (describe v ++ codes "."))
        ∷ [];
    malformed = true;
  }
