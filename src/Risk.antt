-- ===== src/Risk.antt =====
-- gateway/internal/risk/engine.go: the rules on what a user types, and `handleInput` of
-- gateway/internal/server/server.go, which asks them.
-- regexp and encoding/json are parameters: `compile` gives `MatchString` of the compiled pattern or
-- fails; `unmarshal_wrapper` and `unmarshal_array` decode a RulesFileWrapper and a list of
-- configurations. A file is read by `LoadRules` alone, and what os.ReadFile gives is an argument.
-- The lock makes each method one step. The JSON tags have no model.
pub mod Rules
mod Tests
use Prim.Native.String.{String, ◌++◌ as str_append}
use text.Mathlib.Text.{◌==◌ as str_eq}
use multi_terminal.Base.{
  ℕ, ◌+◌, Bool, true, false, ◌&&◌, Option, none, some, List, [], ◌∷◌, if◌then◌else◌, ltb, length,
}

-- RiskLevel and Action are strings, and JSON can hold any.
abbrev pub risk_level_low : String
risk_level_low = "low"

abbrev pub risk_level_medium : String
risk_level_medium = "medium"

abbrev pub risk_level_high : String
risk_level_high = "high"

abbrev pub action_allow : String
action_allow = "allow"

abbrev pub action_block : String
action_block = "block"

abbrev pub action_confirm : String
action_confirm = "confirm"

pub record Rule : Type 0 where
  pub id : String
  pub pattern : String → Bool
  pub level : String
  pub action : String
  pub message : String

pub record RuleConfig : Type 0 where
  pub id : String
  pub pattern : String
  pub level : String
  pub action : String
  pub message : String

pub record Engine : Type 0 where
  pub rules : List Rule

pub data RiskError : Type 0 where
  read_failed parse_failed : RiskError
  compile_failed : String → RiskError

unfoldable pub new_engine : Engine
new_engine = record { rules = [] }

-- The rules of the loop of `LoadRulesFromJSON`, or the error it returns with.
pub data Compiled : Type 0 where
  rules_of : List Rule → Compiled
  stopped : RiskError → Compiled

unfoldable pub prepend_rule : Rule → Compiled → Compiled
prepend_rule r (rules_of rs) = rules_of (r ∷ rs)
prepend_rule r (stopped e) = stopped e

abbrev pub rule_of : RuleConfig → (String → Bool) → Rule
rule_of cfg re = record {
  id = cfg.id;
  pattern = re;
  level = cfg.level;
  action = cfg.action;
  message = cfg.message;
}

-- One turn of the loop, before the turns that come after it.
unfoldable pub add_rule : RuleConfig → Option (String → Bool) → Compiled → Compiled
add_rule cfg none rest = stopped (compile_failed cfg.id)
add_rule cfg (some re) rest = prepend_rule (rule_of cfg re) rest

module _ (compile : String → Option (String → Bool)) where
  unfoldable pub compile_all : List RuleConfig → Compiled
  compile_all [] = rules_of []
  compile_all (cfg ∷ configs) =
      let rest = compile_all configs in add_rule cfg (compile cfg.pattern) rest

  unfoldable pub set_rules : Engine → Compiled → Engine × Option RiskError
  set_rules e (rules_of rs) = (record e { rules = rs }, none)
  set_rules e (stopped err) = (e, some err)

  -- The rest of `LoadRulesFromJSON` on the configurations, `none` if they do not parse.
  unfoldable pub load_configs : Engine → Option (List RuleConfig) → Engine × Option RiskError
  load_configs e none = (e, some parse_failed)
  load_configs e (some configs) = set_rules e (compile_all configs)

  module _ (unmarshal_wrapper unmarshal_array : String → Option (List RuleConfig)) where
    -- The configurations in the data, `none` for the parse error.
    unfoldable pub configs_of : String → Option (List RuleConfig)
    configs_of data_ = elim (unmarshal_wrapper data_) [
      | none ↦ unmarshal_array data_
      | some configs ↦ if ltb 0 (length configs) then some configs else unmarshal_array data_
    ]

    unfoldable pub load_rules_from_json : Engine → String → Engine × Option RiskError
    load_rules_from_json e data_ = load_configs e (configs_of data_)

    -- `LoadRules` on what os.ReadFile gives.
    unfoldable pub load_rules : Engine → Option String → Engine × Option RiskError
    load_rules e none = (e, some read_failed)
    load_rules e (some data_) = load_rules_from_json e data_

-- The walk of `Check` over the rules.
unfoldable pub check_rules : List Rule → String → Option Rule × String × String
check_rules [] command = (none, risk_level_low, action_allow)
check_rules (rule ∷ rules) command =
    let rest = check_rules rules command in
    if rule.pattern command then (some rule, rule.level, rule.action) else rest

unfoldable pub check : Engine → String → Option Rule × String × String
check e command = check_rules e.rules command

unfoldable pub check_and_block : Engine → String → Bool × Option Rule
check_and_block e command =
    let (rule, level, action) = check e command in
    if str_eq action action_block then (true, rule) else (false, none)

unfoldable pub check_and_confirm : Engine → String → Bool × Option Rule
check_and_confirm e command =
    let (rule, level, action) = check e command in
    if str_eq action action_confirm then (true, rule) else (false, none)

unfoldable pub get_block_message : Option Rule → String
get_block_message none = ""
get_block_message (some rule) =
    str_append "\r\n\u{1b}[31m[BLOCKED]\u{1b}[0m " (str_append rule.message "\r\n")

unfoldable pub get_confirm_message : Option Rule → String
get_confirm_message none = ""
get_confirm_message (some rule) =
    str_append "\r\n\u{1b}[33m[CONFIRM]\u{1b}[0m " (str_append rule.message "\r\n")

-- `handleInput`: whether the input goes on, and what is sent.
unfoldable pub handle_input : Engine → String → Bool × String
handle_input e data_ =
    let (blocked, block_rule) = check_and_block e data_ in
    let (confirm, confirm_rule) = check_and_confirm e data_ in
    if blocked
    then (false, get_block_message block_rule)
    else if confirm
    then (true, get_confirm_message confirm_rule)
    else (true, data_)

-- The configurations of `AddDefaultRules`.
abbrev pub default_rules : List RuleConfig
default_rules =
    let rm : RuleConfig = record {
      id = "rule_rm_rf_root";
      pattern = "^rm\\s+-r[fF]?\\s+/(?!\\w)";
      level = risk_level_high;
      action = action_block;
      message = "高危操作拦截：禁止删除根目录或关键系统目录";
    } in
    let restart : RuleConfig = record {
      id = "rule_service_restart";
      pattern = "^(systemctl|service)\\s+(restart|stop|halt)";
      level = risk_level_medium;
      action = action_confirm;
      message = "您正在尝试停止或重启基础服务，请确认该操作不影响业务";
    } in
    let mkfs : RuleConfig = record {
      id = "rule_mkfs";
      pattern = "^mkfs";
      level = risk_level_high;
      action = action_block;
      message = "高危操作拦截：禁止执行 mkfs";
    } in
    let reboot : RuleConfig = record {
      id = "rule_reboot";
      pattern = "^reboot|^shutdown|^init\\s+0|^init\\s+6";
      level = risk_level_medium;
      action = action_confirm;
      message = "系统将重启，请确认操作";
    } in
    rm ∷ restart ∷ mkfs ∷ reboot ∷ []

-- `AddDefaultRules`; `marshal` is json.Marshal.
unfoldable pub add_default_rules :
    (String → Option (String → Bool))
    → (String → Option (List RuleConfig))
    → (String → Option (List RuleConfig))
    → (List RuleConfig → String)
    → Engine
    → Engine × Option RiskError
add_default_rules compile unmarshal_wrapper unmarshal_array marshal e =
    load_rules_from_json compile unmarshal_wrapper unmarshal_array e (marshal default_rules)
