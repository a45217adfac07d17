-- ===== src/Security/Watchdog/Judge.antt =====
-- internal/security/watchdog.go and signals.go: the classifications of a content and what they come
-- to together. A classifier is an argument.
use frost_agent.Prelude.{
  ℕ, ◌==◌, ◌⊎◌, inl, inr, Bool, true, false, not, ◌&&◌, ◌||◌, Option, none, some, ◌++◌, ltb,
  if◌then◌else◌,
}
use frost_agent.Text.{Text, codes, is_empty, text_eq}
use frost_agent.Security.{
  Source, user_direct, user_quote, group_context, tool_argument, tool_result, model_output,
  vision_result, platform_meta, Action, pass, warn, filter, block, strike, lock, RiskLevel, safe,
  medium, high, critical, unknown_level, RiskCategory, no_category, prompt_injection,
  malicious_execution, data_exfiltration, politics, pornography, violence_terrorism, contraband,
  fraud_gambling, harassment_manipulation, unknown_category, ClassificationResult,
}

-- Classify of a classifier, by the content that it is to judge: an error or a result.
abbrev pub Classifier : Type 0
Classifier = Text → Text ⊎ ClassificationResult

-- RiskLevelSeverity, one higher than in the code, which gives -1 to an unknown level.
unfoldable pub severity : RiskLevel → ℕ
severity (unknown_level t) = 0
severity safe = 1
severity medium = 2
severity high = 3
severity critical = 4

unfoldable pub is_no_category : RiskCategory → Bool
is_no_category no_category = true
is_no_category prompt_injection = false
is_no_category malicious_execution = false
is_no_category data_exfiltration = false
is_no_category politics = false
is_no_category pornography = false
is_no_category violence_terrorism = false
is_no_category contraband = false
is_no_category fraud_gambling = false
is_no_category harassment_manipulation = false
is_no_category (unknown_category t) = false

-- IsRisky
unfoldable pub is_risky : ClassificationResult → Bool
unfolding severity is_no_category
is_risky c = not (is_no_category c.category) && not (severity c.risk_level == 1)

unfoldable pub is_direct : Source → Bool
is_direct user_direct = true
is_direct user_quote = false
is_direct group_context = false
is_direct tool_argument = false
is_direct tool_result = false
is_direct model_output = false
is_direct vision_result = false
is_direct platform_meta = false

unfoldable pub is_pass : Action → Bool
is_pass pass = true
is_pass warn = false
is_pass filter = false
is_pass block = false
is_pass strike = false
is_pass lock = false

-- Both classifications of a content and whether one of them failed.
pub record Judgement : Type 0 where
  pub failed : Bool
  pub normal : ClassificationResult
  pub raw : ClassificationResult

-- The result that stands for a classifier that is missing or fails.
abbrev pub closed_result : Source → Text → ClassificationResult
closed_result source why = record {
  category = prompt_injection;
  risk_level = high;
  origin = source;
  reason = why;
}

abbrev pub closed : Source → Text → Judgement
closed source why = record {
  failed = true;
  normal = closed_result source why;
  raw = closed_result source why;
}

abbrev pub classifier_error : Text → Text
classifier_error e = codes "classifier evaluation error: " ++ e ++ codes "; fail-closed block"

-- The classification of the normalised content and, where it differs, of the raw one.
unfoldable pub judge : Option Classifier → Source → Text → Text → Bool → Judgement
judge cls source content normalized modified = elim cls [
  | none ↦ closed source (codes "llm security provider not configured; fail-closed block")
  | some classify ↦ elim (classify normalized) [
    | inl e ↦ closed source (classifier_error e)
    | inr c ↦
        if not modified
        then record { failed = false; normal = c; raw = c }
        else (elim (classify content) [
          | inl e ↦ closed source (classifier_error e)
          | inr r ↦ record { failed = false; normal = c; raw = r }
        ])
  ]
]

-- isEvasion; `last` is the hash of the last block, empty where there was none.
unfoldable pub is_evasion : Judgement → Bool → Text → Text → Text → Bool
unfolding is_risky
is_evasion j modified last raw_hash norm_hash =
    not j.failed
    && modified
    && ((not (is_risky j.raw) && is_risky j.normal)
        || (not (is_empty last) && text_eq norm_hash last && not (text_eq raw_hash norm_hash)))

-- The classification of the stronger risk.
unfoldable pub strongest : Judgement → ClassificationResult
unfolding severity
strongest j =
    if ltb (severity j.normal.risk_level) (severity j.raw.risk_level) then j.raw else j.normal
