-- ===== src/Rules/Documents.antt =====
-- Rules documents: what is malformed is soft everywhere, and a configuration that is written as a
-- document is read back as it was.

use multi_agentic_workflow.Base.{
  ℕ, suc, ◌≡◌, ◌⊎◌, refl, ap, inl, inr, List, [], ◌∷◌, ◌++◌, Option, none, some, Bool, true, false,
  arith, All, Bool-cases, Option-cases,
}
use multi_agentic_workflow.Base.Text.{Text, codes, text_eq, has_content}
use multi_agentic_workflow.Protocol.{RiskLevel, soft, coordination_required, hard}
use multi_agentic_workflow.Rules.{RuleEntry}
use multi_agentic_workflow.Rules.Parse.{
  Value, number, text, list, mapping, Values, no_more, and_more, no_field, field, ConfigError,
  settle_config, parse_rules_config, each_rule, gather, rule_of, field_at, is_risk_level,
  risk_level_of, glob_text, field_or_undefined, version_errors, defaults_of, rules_of,
  default_mode_of, default_of, is_one, both, glob_errors, mode_errors,
}

-- A configuration as a document.
abbrev pub mode_text : RiskLevel → Text
mode_text soft = codes "soft"
mode_text coordination_required = codes "coordination-required"
mode_text hard = codes "hard"

abbrev pub rule_value : RuleEntry → Value
rule_value r =
    mapping
      (field (codes "glob") (text r.glob) (field (codes "mode") (text (mode_text r.mode)) no_field))

abbrev pub rule_values : List RuleEntry → Values
rule_values [] = no_more
rule_values (r ∷ rs) = and_more (rule_value r) (rule_values rs)

abbrev pub document : RiskLevel → List RuleEntry → Value
document mode rules = mapping (
    field (codes "version") (number 1) (
      field (codes "defaults") (mapping (field (codes "mode") (text (mode_text mode)) no_field))
        (field (codes "rules") (list (rule_values rules)) no_field)))

pub level-mode_text : (m : RiskLevel) → risk_level_of (mode_text m) ≡ some m
unfolding risk_level_of multi_agentic_workflow.Base.Text.text_eq
level-mode_text soft = refl
level-mode_text coordination_required = refl
level-mode_text hard = refl

module _ (stringify : Text → Text) where
  rule_of-rule_value :
      (i : ℕ) (r : RuleEntry)
      → has_content r.glob ≡ true
      → rule_of stringify i (rule_value r) ≡ (r ∷ [], [])
  unfolding rule_of field_or_undefined field_at glob_text is_risk_level both glob_errors mode_errors
      text_eq
  rule_of-rule_value i r h = rw (h, level-mode_text r.mode) refl

  gather_one :
      (r : RuleEntry) (rs : List RuleEntry) (one others : List RuleEntry × List ConfigError)
      → one ≡ (r ∷ [], [])
      → others ≡ (rs, [])
      → gather stringify one others ≡ (r ∷ rs, [])
  unfolding gather
  gather_one r rs one others e f = rw (e, f) refl

  each_rule-rule_values :
      (i : ℕ) (rs : List RuleEntry)
      → All (λ r. has_content r.glob ≡ true) rs
      → each_rule stringify i (rule_values rs) ≡ (rs, [])
  unfolding each_rule
  each_rule-rule_values i [] h = refl
  each_rule-rule_values i (r ∷ rs) h =
      gather_one r rs (rule_of stringify i (rule_value r))
        (each_rule stringify (suc i) (rule_values rs)) (rule_of-rule_value i r h.0)
        (each_rule-rule_values (suc i) rs h.1)

  -- A configuration whose globs are not blank is read back from its document with no problem.
  pub parse-document :
      (mode : RiskLevel) (rules : List RuleEntry)
      → All (λ r. has_content r.glob ≡ true) rules
      → parse_rules_config stringify (document mode rules) ≡ record {
        config = record { version = 1; default_mode = mode; rules = rules };
        errors = [];
        malformed = false;
      }
  unfolding parse_rules_config settle_config version_errors defaults_of default_mode_of default_of
      rules_of field_at is_one is_risk_level text_eq
  parse-document mode rules h = rw (level-mode_text mode, each_rule-rule_values 0 rules h) refl
