-- ===== src/Rules/WellFormed.antt =====
-- The rules documents that are well-formed, and that the parser's tests decide their parts.
use multi_agentic_workflow.Base.{
  ℕ, ◌≡◌, ◌⊎◌, refl, ap, ◌∙◌, inl, inr, [], Option, none, some, true, false, arith, Bool-cases,
  Option-cases, ◌==◌,
}
use multi_agentic_workflow.Base.Text.{Text, codes, text_eq_iff, has_content}
use multi_agentic_workflow.Protocol.{RiskLevel, soft, coordination_required, hard}
use multi_agentic_workflow.Rules.Documents.{mode_text, level-mode_text}
use multi_agentic_workflow.Rules.Parse.{
  Value, undefined, null, number, primitive, text, list, mapping, Values, no_more, and_more,
  field_at, is_risk_level, risk_level_of, glob_text, is_one,
}

-- A value that names a level.
abbrev pub IsLevel : Value → Type 0
IsLevel v = (m : RiskLevel) × (v ≡ text (mode_text m))

-- A field that may be left out, or given as undefined.
abbrev pub IsOptional : (Value → Type 0) → Option Value → Type 0
IsOptional P none = Unit {0}
IsOptional P (some undefined) = Unit {0}
IsOptional P (some v) = P v

abbrev pub IsGlob : Value → Type 0
IsGlob v = (t : Text) × (v ≡ text t) × (has_content t ≡ true)

abbrev pub HasField : (Value → Type 0) → Option Value → Type 0
HasField P none = ⊥
HasField P (some v) = P v

-- `mode`, if given, names a level.
abbrev pub AreDefaults : Value → Type 0
AreDefaults (mapping fs) = IsOptional IsLevel (field_at (codes "mode") fs)
AreDefaults _ = ⊥

abbrev pub IsRule : Value → Type 0
IsRule (mapping fs) =
    HasField IsGlob (field_at (codes "glob") fs) × HasField IsLevel (field_at (codes "mode") fs)
IsRule _ = ⊥

abbrev pub AreRules : Values → Type 0
AreRules no_more = Unit {0}
AreRules (and_more v vs) = IsRule v × AreRules vs

abbrev pub IsRuleList : Value → Type 0
IsRuleList (list vs) = AreRules vs
IsRuleList _ = ⊥

abbrev pub IsVersion : Value → Type 0
IsVersion v = v ≡ number 1

-- A mapping with version 1 whose defaults name a level and whose rules all have a glob that is not
-- blank and a level, where these are given.
abbrev pub IsWellFormed : Value → Type 0
IsWellFormed (mapping fs) =
    HasField IsVersion (field_at (codes "version") fs)
    × IsOptional AreDefaults (field_at (codes "defaults") fs)
    × IsOptional IsRuleList (field_at (codes "rules") fs)
IsWellFormed _ = ⊥

risk_level_of-mode_text : (t : Text) (m : RiskLevel) → risk_level_of t ≡ some m → t ≡ mode_text m
unfolding risk_level_of
risk_level_of-mode_text t soft e = ground (arith, e, text_eq_iff t (codes "soft"))
risk_level_of-mode_text t coordination_required e =
    ground (arith, e, text_eq_iff t (codes "coordination-required"))
risk_level_of-mode_text t hard e = ground (arith, e, text_eq_iff t (codes "hard"))

text_of : Value → Text
text_of (text t) = t
text_of _ = []

pub IsLevel-cases :
    (v : Value)
    → ((m : RiskLevel) × (v ≡ text (mode_text m)) × (is_risk_level v ≡ some m))
      ⊎ ((IsLevel v → ⊥) × (is_risk_level v ≡ none))
unfolding is_risk_level text_of
IsLevel-cases (text t) = elim (Option-cases (risk_level_of t)) [
  | inl e ↦ inr (
    (λ h.
        let same : t ≡ mode_text h.0 = ap text_of h.1 in
        ground (arith, e, ap risk_level_of same ∙ level-mode_text h.0)),
    e,
  )
  | inr (m, e) ↦ inl (m, ap text (risk_level_of-mode_text t m e), e)
]
IsLevel-cases undefined = inr ((λ h. ground (arith, h.1)), refl)
IsLevel-cases null = inr ((λ h. ground (arith, h.1)), refl)
IsLevel-cases (number n) = inr ((λ h. ground (arith, h.1)), refl)
IsLevel-cases (primitive t) = inr ((λ h. ground (arith, h.1)), refl)
IsLevel-cases (list vs) = inr ((λ h. ground (arith, h.1)), refl)
IsLevel-cases (mapping fs) = inr ((λ h. ground (arith, h.1)), refl)

pub IsGlob-cases :
    (v : Value)
    → ((t : Text) × (v ≡ text t) × (has_content t ≡ true) × (glob_text v ≡ some t))
      ⊎ ((IsGlob v → ⊥) × (glob_text v ≡ none))
unfolding glob_text text_of
IsGlob-cases (text t) = elim (Bool-cases (has_content t)) [
  | inl e ↦ inl (t, refl, e, ground (arith, e))
  | inr e ↦ inr (
    (λ h. let same : t ≡ h.0 = ap text_of h.1 in ground (arith, e, ap has_content same, h.2)),
    ground (arith, e),
  )
]
IsGlob-cases undefined = inr ((λ h. ground (arith, h.1)), refl)
IsGlob-cases null = inr ((λ h. ground (arith, h.1)), refl)
IsGlob-cases (number n) = inr ((λ h. ground (arith, h.1)), refl)
IsGlob-cases (primitive t) = inr ((λ h. ground (arith, h.1)), refl)
IsGlob-cases (list vs) = inr ((λ h. ground (arith, h.1)), refl)
IsGlob-cases (mapping fs) = inr ((λ h. ground (arith, h.1)), refl)

number_of : Value → ℕ
number_of (number n) = n
number_of _ = 0

pub IsVersion-cases :
    (v : Value) → (IsVersion v × (is_one v ≡ true)) ⊎ ((IsVersion v → ⊥) × (is_one v ≡ false))
unfolding is_one number_of
IsVersion-cases (number n) = elim (Bool-cases (n == 1)) [
  | inl e ↦ inl (ap number (ground (arith, e)), e)
  | inr e ↦ inr ((λ h. ground (arith, e, ap number_of h)), e)
]
IsVersion-cases undefined = inr ((λ h. ground (arith, h)), refl)
IsVersion-cases null = inr ((λ h. ground (arith, h)), refl)
IsVersion-cases (text t) = inr ((λ h. ground (arith, h)), refl)
IsVersion-cases (primitive t) = inr ((λ h. ground (arith, h)), refl)
IsVersion-cases (list vs) = inr ((λ h. ground (arith, h)), refl)
IsVersion-cases (mapping fs) = inr ((λ h. ground (arith, h)), refl)
