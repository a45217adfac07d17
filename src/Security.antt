-- ===== src/Security.antt =====
-- internal/security: who a message comes from, how its content was judged, and what is done about it.
-- Strings that Go cuts at bytes are cut by an argument of the operations.
pub mod Access
pub mod Audit
pub mod Watchdog
pub mod Gate
use frost_agent.Prelude.{ℕ, ◌+◌, Bool, Option, List, [], ◌∷◌, ◌++◌, ltb, leb, if◌then◌else◌}
use frost_agent.Text.{Text, codes, trim_space, text_eq}

pub record Principal : Type 0 where
  pub platform : Text
  pub user_id : Text

-- Key
unfoldable pub principal_key : Principal → Text
principal_key p = p.platform ++ codes ":" ++ p.user_id

-- CanonicalPlatform; `lower` is strings.ToLower.
unfoldable pub canonical_platform : (Text → Text) → Text → Text
canonical_platform lower platform =
    let p = lower (trim_space platform) in
    if text_eq p (codes "onebot")
    then codes "qq"
    else if text_eq p (codes "aiocqhttp")
    then codes "qq"
    else if text_eq p (codes "cqhttp")
    then codes "qq"
    else if text_eq p (codes "qq")
    then codes "qq"
    else if text_eq p []
    then codes "unknown"
    else p

-- len(s): the bytes of the UTF-8 encoding.
unfoldable pub byte_length : Text → ℕ
byte_length [] = 0
byte_length (c ∷ cs) =
    let rest = byte_length cs in
    if ltb c 128
    then 1 + rest
    else if ltb c 2048
    then 2 + rest
    else if ltb c 65536
    then 3 + rest
    else 4 + rest

-- truncate; `cut` is value[:limit].
unfoldable pub truncate : (ℕ → Text → Text) → ℕ → Text → Text
truncate cut limit value =
    let v = trim_space value in if leb (byte_length v) limit then v else cut limit v

-- WatchdogStage
pub data Stage : Type 0 where
  ingress tool_argument_stage tool_result_stage model_output_stage : Stage

-- WatchdogSource
pub data Source : Type 0 where
  user_direct user_quote group_context tool_argument tool_result : Source
  model_output vision_result platform_meta : Source

-- WatchdogAction
pub data Action : Type 0 where
  pass warn filter block strike lock : Action

-- RiskLevel; a classifier of another make may give any other string.
pub data RiskLevel : Type 0 where
  safe medium high critical : RiskLevel
  unknown_level : Text → RiskLevel

pub data RiskCategory : Type 0 where
  no_category prompt_injection malicious_execution data_exfiltration politics : RiskCategory
  pornography violence_terrorism contraband fraud_gambling : RiskCategory
  harassment_manipulation : RiskCategory
  unknown_category : Text → RiskCategory

pub record ClassificationResult : Type 0 where
  pub category : RiskCategory
  pub risk_level : RiskLevel
  pub origin : Source
  pub reason : Text

pub record AuditEvent : Type 0 where
  pub id : Text
  pub at : ℕ
  pub principal : Principal
  pub instance_id : Text
  pub session : Text
  pub tool : Text
  pub stage : Stage
  pub source : Source
  pub action : Action
  pub reason : Text
  pub hash : Text
  pub preview : Text
  pub encoded : Bool
  pub category : RiskCategory
  pub risk_level : RiskLevel

-- WatchdogDecision, without the strings that describe an error.
pub record Decision : Type 0 where
  pub action : Action
  pub reason : Text
  pub classification : Option ClassificationResult
  pub sanitized_content : Text
  pub warning_notice : Text
  pub event : AuditEvent
  pub is_failure : Bool
