-- ===== src/Rules/Malformed.antt =====
-- Which rules documents are malformed, and that such a one makes every path soft.
use multi_agentic_workflow.Base.{
  ℕ, suc, ◌≡◌, ◌≢◌, ◌⊎◌, refl, inl, inr, List, [], ◌∷◌, Option, none, some, true, false, arith,
}
use multi_agentic_workflow.Base.Checked.{IsChecked, IsChecked-append, IsChecked-iff, cons-ne}
use multi_agentic_workflow.Base.Text.{Text, codes}
use multi_agentic_workflow.Protocol.{soft}
use multi_agentic_workflow.Rules.{
  RulesConfig, all_soft_config, resolve_mode, stricter, most_restrictive_from, most_restrictive,
}
use multi_agentic_workflow.Rules.Parse.{
  Value, undefined, null, number, primitive, text, list, mapping, Values, no_more, and_more,
  ConfigError, ParseResult, settle_config, parse_rules_config, each_rule, gather, rule_of, field_at,
  is_risk_level, glob_text, field_or_undefined, version_errors, defaults_of, rules_of,
  default_mode_of, default_of, glob_errors, mode_errors, rule_location,
}
use multi_agentic_workflow.Rules.WellFormed.{
  IsLevel, IsOptional, IsGlob, HasField, AreDefaults, IsRule, AreRules, IsRuleList, IsVersion,
  IsWellFormed, IsLevel-cases, IsGlob-cases, IsVersion-cases,
}

-- A well-formed document is read without a problem; any other is reported as malformed, with a
-- problem, and every path is soft.
abbrev pub IsJudged : Type 0 → ParseResult → Type 0
IsJudged P r =
    (P × (r.malformed ≡ false) × (r.errors ≡ []))
    ⊎ ((P → ⊥)
        × (r.malformed ≡ true)
        × (r.errors ≢ [])
        × ((path : Text) → resolve_mode path r.config ≡ soft))

module _ (stringify : Text → Text) where
  IsVersion-IsChecked :
      (o : Option Value) → IsChecked (HasField IsVersion o) (version_errors stringify o)
  unfolding version_errors
  IsVersion-IsChecked none = inr ((λ h. h), cons-ne _ _)
  IsVersion-IsChecked (some v) = elim (IsVersion-cases v) [
    | inl (a, e) ↦ rw e (inl (a, refl))
    | inr (a, e) ↦ rw e (inr (a, cons-ne _ _))
  ]

  default-IsChecked :
      (v : Value) → IsChecked (IsLevel v) (default_of stringify v (is_risk_level v)).1
  unfolding default_of
  default-IsChecked v = elim (IsLevel-cases v) [
    | inl (m, a, e) ↦ rw e (inl ((m, a), refl))
    | inr (a, e) ↦ rw e (inr (a, cons-ne _ _))
  ]

  default_mode-IsChecked :
      (o : Option Value) → IsChecked (IsOptional IsLevel o) (default_mode_of stringify o).1
  unfolding default_mode_of
  default_mode-IsChecked none = inl (tt, refl)
  default_mode-IsChecked (some undefined) = inl (tt, refl)
  default_mode-IsChecked (some null) = default-IsChecked null
  default_mode-IsChecked (some (number n)) = default-IsChecked (number n)
  default_mode-IsChecked (some (primitive t)) = default-IsChecked (primitive t)
  default_mode-IsChecked (some (text t)) = default-IsChecked (text t)
  default_mode-IsChecked (some (list vs)) = default-IsChecked (list vs)
  default_mode-IsChecked (some (mapping fs)) = default-IsChecked (mapping fs)

  defaults-IsChecked :
      (o : Option Value) → IsChecked (IsOptional AreDefaults o) (defaults_of stringify o).1
  unfolding defaults_of
  defaults-IsChecked none = inl (tt, refl)
  defaults-IsChecked (some undefined) = inl (tt, refl)
  defaults-IsChecked (some (mapping fs)) = default_mode-IsChecked (field_at (codes "mode") fs)
  defaults-IsChecked (some null) = inr ((λ h. h), cons-ne _ _)
  defaults-IsChecked (some (number n)) = inr ((λ h. h), cons-ne _ _)
  defaults-IsChecked (some (primitive t)) = inr ((λ h. h), cons-ne _ _)
  defaults-IsChecked (some (text t)) = inr ((λ h. h), cons-ne _ _)
  defaults-IsChecked (some (list vs)) = inr ((λ h. h), cons-ne _ _)

  IsGlob-IsChecked :
      (location : Text) (v : Value)
      → IsChecked (IsGlob v) (glob_errors stringify location v (glob_text v))
  unfolding glob_errors
  IsGlob-IsChecked location v = elim (IsGlob-cases v) [
    | inl (t, a, c, e) ↦ rw e (inl ((t, a, c), refl))
    | inr (a, e) ↦ rw e (inr (a, cons-ne _ _))
  ]

  mode-IsChecked :
      (location : Text) (v : Value)
      → IsChecked (IsLevel v) (mode_errors stringify location v (is_risk_level v))
  unfolding mode_errors
  mode-IsChecked location v = elim (IsLevel-cases v) [
    | inl (m, a, e) ↦ rw e (inl ((m, a), refl))
    | inr (a, e) ↦ rw e (inr (a, cons-ne _ _))
  ]

  -- A missing key reads as undefined, which is no text.
  field-IsChecked :
      (P : Value → Type 0) (o : Option Value) (errors : Value → List ConfigError)
      → (P undefined → ⊥)
      → ((v : Value) → IsChecked (P v) (errors v))
      → IsChecked (HasField P o) (errors (elim o [ none ↦ undefined | some v ↦ v ]))
  field-IsChecked P none errors n h =
      IsChecked-iff (P undefined) ⊥ (errors undefined) n (λ x. absurd x) (h undefined)
  field-IsChecked P (some v) errors n h = h v

  not_glob : IsGlob undefined → ⊥
  not_glob h = ground (arith, h.1)

  not_level : IsLevel undefined → ⊥
  not_level h = ground (arith, h.1)

  IsRule-IsChecked : (i : ℕ) (v : Value) → IsChecked (IsRule v) (rule_of stringify i v).1
  unfolding rule_of field_or_undefined
  IsRule-IsChecked i (mapping fs) =
      IsChecked-append (HasField IsGlob (field_at (codes "glob") fs))
        (HasField IsLevel (field_at (codes "mode") fs)) _ _
        (field-IsChecked IsGlob (field_at (codes "glob") fs)
          (λ v. glob_errors stringify (rule_location i) v (glob_text v)) not_glob
          (IsGlob-IsChecked (rule_location i)))
        (field-IsChecked IsLevel (field_at (codes "mode") fs)
          (λ v. mode_errors stringify (rule_location i) v (is_risk_level v)) not_level
          (mode-IsChecked (rule_location i)))
  IsRule-IsChecked i undefined = inr ((λ h. h), cons-ne _ _)
  IsRule-IsChecked i null = inr ((λ h. h), cons-ne _ _)
  IsRule-IsChecked i (number n) = inr ((λ h. h), cons-ne _ _)
  IsRule-IsChecked i (primitive t) = inr ((λ h. h), cons-ne _ _)
  IsRule-IsChecked i (text t) = inr ((λ h. h), cons-ne _ _)
  IsRule-IsChecked i (list vs) = inr ((λ h. h), cons-ne _ _)

  each_rule-IsChecked : (i : ℕ) (vs : Values) → IsChecked (AreRules vs) (each_rule stringify i vs).1
  unfolding each_rule gather
  each_rule-IsChecked i no_more = inl (tt, refl)
  each_rule-IsChecked i (and_more v vs) =
      IsChecked-append (IsRule v) (AreRules vs) _ _ (IsRule-IsChecked i v)
        (each_rule-IsChecked (suc i) vs)

  rules-IsChecked :
      (o : Option Value) → IsChecked (IsOptional IsRuleList o) (rules_of stringify o).1
  unfolding rules_of
  rules-IsChecked none = inl (tt, refl)
  rules-IsChecked (some undefined) = inl (tt, refl)
  rules-IsChecked (some (list vs)) = each_rule-IsChecked 0 vs
  rules-IsChecked (some null) = inr ((λ h. h), cons-ne _ _)
  rules-IsChecked (some (number n)) = inr ((λ h. h), cons-ne _ _)
  rules-IsChecked (some (primitive t)) = inr ((λ h. h), cons-ne _ _)
  rules-IsChecked (some (text t)) = inr ((λ h. h), cons-ne _ _)
  rules-IsChecked (some (mapping fs)) = inr ((λ h. h), cons-ne _ _)

  all_soft : (path : Text) → resolve_mode path all_soft_config ≡ soft
  unfolding resolve_mode most_restrictive most_restrictive_from stricter
  all_soft path = refl

  settle_config-IsJudged :
      (P : Type 0) (config : RulesConfig) (errors : List ConfigError)
      → IsChecked P errors
      → IsJudged P (settle_config stringify config errors)
  unfolding settle_config
  settle_config-IsJudged P config [] (inl (a, e)) = inl (a, refl, refl)
  settle_config-IsJudged P config [] (inr (a, e)) = absurd (e refl)
  settle_config-IsJudged P config (x ∷ xs) (inl (a, e)) = absurd (cons-ne x xs e)
  settle_config-IsJudged P config (x ∷ xs) (inr (a, e)) = inr (a, refl, e, all_soft)

  -- A document is read without a problem exactly when it is a mapping with version 1 in which the
  -- defaults, if given, are a mapping whose mode, if given, is one of the three levels, and the rules,
  -- if given, are a list of mappings that each have a glob that is not blank and one of the levels.
  -- Any other document is malformed, with a problem reported, and makes every path soft.
  pub parse_fail_safe : (v : Value) → IsJudged (IsWellFormed v) (parse_rules_config stringify v)
  unfolding parse_rules_config
  parse_fail_safe (mapping fs) =
      let version = field_at (codes "version") fs in
      let defaults = field_at (codes "defaults") fs in
      let rules = field_at (codes "rules") fs in
      let last = IsOptional AreDefaults defaults × IsOptional IsRuleList rules in
      let checked =
        IsChecked-append (HasField IsVersion version) last _ _ (IsVersion-IsChecked version) (
          IsChecked-append (IsOptional AreDefaults defaults) (IsOptional IsRuleList rules) _ _
            (defaults-IsChecked defaults) (rules-IsChecked rules)) in
      settle_config-IsJudged (IsWellFormed (mapping fs)) _ _ (
        IsChecked-iff (HasField IsVersion version × last) (IsWellFormed (mapping fs)) _
          (λ h. (h.0, h.1.0, h.1.1)) (λ h. (h.0, (h.1, h.2))) checked)
  parse_fail_safe undefined = inr ((λ h. h), refl, cons-ne _ _, all_soft)
  parse_fail_safe null = inr ((λ h. h), refl, cons-ne _ _, all_soft)
  parse_fail_safe (number n) = inr ((λ h. h), refl, cons-ne _ _, all_soft)
  parse_fail_safe (primitive t) = inr ((λ h. h), refl, cons-ne _ _, all_soft)
  parse_fail_safe (text t) = inr ((λ h. h), refl, cons-ne _ _, all_soft)
  parse_fail_safe (list vs) = inr ((λ h. h), refl, cons-ne _ _, all_soft)
