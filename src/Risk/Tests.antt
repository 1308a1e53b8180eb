-- ===== src/Risk/Tests.antt =====
-- The theorems on risk/engine.go with small stand-ins for regexp and encoding/json.
use Prim.Native.String.{String}
use text.Mathlib.Text.{◌==◌ as str_eq}
use multi_terminal.Base.{Bool, Option, none, some, List, [], ◌∷◌, if◌then◌else◌}
use multi_terminal.Risk.{
  Rule, RuleConfig, Engine, action_block, risk_level_high, configs_of, load_rules_from_json,
  default_rules,
}
use multi_terminal.Risk.Rules.{Loads, load_rules_lem}

-- A pattern matches its own text, and one with a look-ahead does not compile.
abbrev compile_text : String → Option (String → Bool)
compile_text pattern =
    if str_eq pattern "^rm\\s+-r[fF]?\\s+/(?!\\w)" then none else some (str_eq pattern)

-- No text is an object.
abbrev no_wrapper : String → Option (List RuleConfig)
no_wrapper text = none

-- Every text is an array, of the default rules.
abbrev array_text : String → Option (List RuleConfig)
array_text text = some default_rules

abbrev rule_on : String → Rule
rule_on text = record {
  id = text;
  pattern = str_eq text;
  level = risk_level_high;
  action = action_block;
  message = "no";
}

abbrev one_rule_engine : Engine
one_rule_engine = record { rules = rule_on "mkfs" ∷ [] }

load_rules_lem_example :
    Loads compile_text one_rule_engine
      (configs_of compile_text no_wrapper array_text "[]")
      (load_rules_from_json compile_text no_wrapper array_text one_rule_engine "[]")
load_rules_lem_example = load_rules_lem compile_text no_wrapper array_text one_rule_engine "[]"
