-- ===== src/Rules/Tests.antt =====
-- Runs of the glob matcher and of the rules parser, and theorems about them at concrete rules.
use multi_agentic_workflow.Base.{◌≡◌, ◌↔◌, ◌≤◌, refl, List, [], ◌∷◌, true, false, All, In}
use multi_agentic_workflow.Base.Text.{Text, codes, text_eq, has_content}
use multi_agentic_workflow.Protocol.{soft, coordination_required, hard}
use multi_agentic_workflow.Rules.{RuleEntry, RulesConfig, restrictiveness, resolve_mode}
use multi_agentic_workflow.Rules.Glob.{glob_match, segments}
use multi_agentic_workflow.Rules.Patterns.{Covers, glob_match_iff}
use multi_agentic_workflow.Rules.Modes.{applying, resolve_mode_strictest}
use multi_agentic_workflow.Rules.Parse.{
  Value, text, mapping, no_field, field, ConfigError, problem, parse_rules_config,
}
use multi_agentic_workflow.Rules.Documents.{document, parse-document}
use multi_agentic_workflow.Rules.WellFormed.{IsWellFormed}
use multi_agentic_workflow.Rules.Malformed.{IsJudged, parse_fail_safe}

abbrev rules : List RuleEntry
rules =
    record { glob = codes "src/**"; mode = coordination_required }
    ∷ record { glob = codes "**/*.lock"; mode = hard }
    ∷ []

abbrev config : RulesConfig
config = record { version = 1; default_mode = soft; rules = rules }

globstar_matches : glob_match (codes "src/**/a?.ts") (codes "./src\\x/y/ab.ts") ≡ true
unfolding glob_match multi_agentic_workflow.Session.join text_eq
globstar_matches = refl

star_stays_in_segment : glob_match (codes "src/*.ts") (codes "src/x/a.ts") ≡ false
unfolding glob_match multi_agentic_workflow.Session.join text_eq
star_stays_in_segment = refl

lock_file_is_hard : resolve_mode (codes "src/pnpm.lock") config ≡ hard
unfolding resolve_mode glob_match multi_agentic_workflow.Session.join text_eq
lock_file_is_hard = refl

glob_match_iff_example :
    (glob_match (codes "src/**") (codes "src/a.ts") ≡ true)
    ↔ Covers (segments (codes "src/**")) (segments (codes "src/a.ts"))
glob_match_iff_example = glob_match_iff (codes "src/**") (codes "src/a.ts")

resolve_mode_strictest_example :
    In (resolve_mode (codes "src/a.ts") config) (applying (codes "src/a.ts") config)
    × All
        (λ m. restrictiveness m ≤ restrictiveness (resolve_mode (codes "src/a.ts") config))
        (applying (codes "src/a.ts") config)
resolve_mode_strictest_example = resolve_mode_strictest (codes "src/a.ts") config

-- `JSON.stringify` stands here as the identity.
abbrev stringify : Text → Text
stringify t = t

abbrev wrong_version : Value
wrong_version = mapping (field (codes "version") (text (codes "2")) no_field)

abbrev version_problem : ConfigError
version_problem = problem (codes "version") (codes "Unsupported version 2; expected 1.")

wrong_version_errors : (parse_rules_config stringify wrong_version).errors ≡ version_problem ∷ []
unfolding parse_rules_config text_eq
wrong_version_errors = refl

parse_fail_safe_example :
    IsJudged (IsWellFormed wrong_version) (parse_rules_config stringify wrong_version)
parse_fail_safe_example = parse_fail_safe stringify wrong_version

globs_have_content : All (λ r. has_content r.glob ≡ true) rules
unfolding has_content
globs_have_content = (refl, (refl, tt))

parse-document_example :
    parse_rules_config stringify (document soft rules)
    ≡ record { config = config; errors = []; malformed = false }
parse-document_example = parse-document stringify soft rules globs_have_content
