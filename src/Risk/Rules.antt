-- ===== src/Risk/Rules.antt =====
-- Which rules are loaded and which one decides (risk/engine.go).
use Prim.Native.String.{String}
use text.Mathlib.Text.{◌==◌ as str_eq}
use multi_terminal.Base.{
  ◌≡◌, refl, ap, ◌∙◌, Bool, true, false, Option, none, some, List, [], ◌∷◌, ◌++◌, if◌then◌else◌,
  arith, All,
}
use multi_terminal.Risk.{
  action_block, action_confirm, Rule, RuleConfig, Engine, RiskError, parse_failed, compile_failed,
  Compiled, rules_of, stopped, prepend_rule, add_rule, rule_of, compile_all, set_rules, configs_of,
  load_configs, load_rules_from_json, check_rules, check, check_and_block, check_and_confirm,
  get_block_message, get_confirm_message, handle_input, default_rules, add_default_rules,
  new_engine,
}

-- The first rule that matches decides, and no rule after it is asked.
pub check_first :
    (before after : List Rule) (r : Rule) (command : String)
    → All (λ q. q.pattern command ≡ false) before
    → r.pattern command ≡ true
    → check (record { rules = before ++ r ∷ after }) command ≡ (some r, r.level, r.action)
unfolding check check_rules
check_first [] after r command misses hit = rw hit refl
check_first (q ∷ before) after r command misses hit =
    rw misses.0 (check_first before after r command misses.1 hit)

-- What `handleInput` makes of the verdict of `Check`.
abbrev pub verdict : String → Option Rule × String × String → Bool × String
verdict data_ (rule, level, action) =
    if str_eq action action_block
    then (false, get_block_message rule)
    else if str_eq action action_confirm
    then (true, get_confirm_message rule)
    else (true, data_)

-- Input is refused, with the rule's message, exactly on a block verdict; a confirm verdict lets it go
-- on but replaces it by the message; all else goes on unchanged.
pub handle_input_lem :
    (e : Engine) (data_ : String) → handle_input e data_ ≡ verdict data_ (check e data_)
unfolding handle_input check_and_block check_and_confirm
handle_input_lem e data_ = ground arith

-- The rules that a list of configurations means, one for each in order.
pub data Means (compile : String → Option (String → Bool))
    : List RuleConfig → List Rule → Type 0 where
  no_rule : Means compile [] []
  one_rule :
      {configs : List RuleConfig} {rs : List Rule} (cfg : RuleConfig) (re : String → Bool)
      → compile cfg.pattern ≡ some re
      → Means compile configs rs
      → Means compile (cfg ∷ configs) (rule_of cfg re ∷ rs)

-- What compiling a list comes to: all of its rules, or the first pattern that does not compile.
pub data Compiles (compile : String → Option (String → Bool))
    : List RuleConfig → Compiled → Type 0 where
  all_of :
      {configs : List RuleConfig} {rs : List Rule}
      → Means compile configs rs
      → Compiles compile configs (rules_of rs)
  first_bad :
      {before : List RuleConfig} {rs : List Rule} (cfg : RuleConfig) (after : List RuleConfig)
      → Means compile before rs
      → compile cfg.pattern ≡ none
      → Compiles compile (before ++ cfg ∷ after) (stopped (compile_failed cfg.id))

prepend-Compiles :
    {compile : String → Option (String → Bool)} (cfg : RuleConfig) (re : String → Bool)
    (configs : List RuleConfig) (c : Compiled)
    → compile cfg.pattern ≡ some re
    → Compiles compile configs c
    → Compiles compile (cfg ∷ configs) (prepend_rule (rule_of cfg re) c)
unfolding prepend_rule
prepend-Compiles cfg re _ _ good (all_of means) = all_of (one_rule cfg re good means)
prepend-Compiles cfg re _ _ good (first_bad bad_cfg after means bad) =
    first_bad bad_cfg after (one_rule cfg re good means) bad

compile_all_lem :
    (compile : String → Option (String → Bool)) (configs : List RuleConfig)
    → Compiles compile configs (compile_all compile configs)
unfolding compile_all add_rule
compile_all_lem compile [] = all_of no_rule
compile_all_lem compile (cfg ∷ configs) =
    step (compile cfg.pattern) refl (compile_all_lem compile configs)
  where
    step :
        (re : Option (String → Bool))
        → compile cfg.pattern ≡ re
        → Compiles compile configs (compile_all compile configs)
        → Compiles compile (cfg ∷ configs) (add_rule cfg re (compile_all compile configs))
    step none bad rest = first_bad cfg configs no_rule bad
    step (some re) good rest = prepend-Compiles cfg re configs _ good rest

-- What loading does to an engine, by the configurations that are read.
pub data Loads (compile : String → Option (String → Bool)) (e : Engine)
    : Option (List RuleConfig) → Engine × Option RiskError → Type 0 where
  unreadable : Loads compile e none (e, some parse_failed)
  replaced :
      {configs : List RuleConfig} {rs : List Rule}
      → Means compile configs rs
      → Loads compile e (some configs) (record e { rules = rs }, none)
  bad_pattern :
      {before : List RuleConfig} {rs : List Rule} (cfg : RuleConfig) (after : List RuleConfig)
      → Means compile before rs
      → compile cfg.pattern ≡ none
      → Loads compile e (some (before ++ cfg ∷ after)) (e, some (compile_failed cfg.id))

set_rules-Loads :
    (compile : String → Option (String → Bool)) (e : Engine) (configs : List RuleConfig)
    (c : Compiled)
    → Compiles compile configs c
    → Loads compile e (some configs) (set_rules compile e c)
unfolding set_rules
set_rules-Loads compile e _ _ (all_of means) = replaced means
set_rules-Loads compile e _ _ (first_bad cfg after means bad) = bad_pattern cfg after means bad

load_configs-Loads :
    (compile : String → Option (String → Bool)) (e : Engine) (configs : Option (List RuleConfig))
    → Loads compile e configs (load_configs compile e configs)
unfolding load_configs
load_configs-Loads compile e none = unreadable
load_configs-Loads compile e (some configs) =
    set_rules-Loads compile e configs _ (compile_all_lem compile configs)

-- Loading is all or nothing: either every pattern compiles and the rules are replaced by the
-- compiled ones in order, or the engine keeps its rules and the error names what failed: the parse,
-- or the first configuration whose pattern does not compile.
pub load_rules_lem :
    (compile : String → Option (String → Bool))
    (unmarshal_wrapper unmarshal_array : String → Option (List RuleConfig)) (e : Engine)
    (text : String)
    → Loads compile e
        (configs_of compile unmarshal_wrapper unmarshal_array text)
        (load_rules_from_json compile unmarshal_wrapper unmarshal_array e text)
unfolding load_rules_from_json
load_rules_lem compile unmarshal_wrapper unmarshal_array e text =
    load_configs-Loads compile e (configs_of compile unmarshal_wrapper unmarshal_array text)

configs_of_array :
    (compile : String → Option (String → Bool))
    (unmarshal_wrapper unmarshal_array : String → Option (List RuleConfig))
    (marshal : List RuleConfig → String) (configs : List RuleConfig)
    → unmarshal_wrapper (marshal configs) ≡ none
    → unmarshal_array (marshal configs) ≡ some configs
    → configs_of compile unmarshal_wrapper unmarshal_array (marshal configs) ≡ some configs
unfolding configs_of
configs_of_array compile unmarshal_wrapper unmarshal_array marshal configs object array =
    rw (object, configs_of) array

load_configs_rejected :
    (compile : String → Option (String → Bool)) (e : Engine) (cfg : RuleConfig)
    (configs : List RuleConfig)
    → compile cfg.pattern ≡ none
    → load_configs compile e (some (cfg ∷ configs)) ≡ (e, some (compile_failed cfg.id))
unfolding load_configs compile_all add_rule set_rules
load_configs_rejected compile e cfg configs rejects = rw rejects refl

add_defaults :
    (compile : String → Option (String → Bool))
    (unmarshal_wrapper unmarshal_array : String → Option (List RuleConfig))
    (marshal : List RuleConfig → String)
    → compile "^rm\\s+-r[fF]?\\s+/(?!\\w)" ≡ none
    → unmarshal_wrapper (marshal default_rules) ≡ none
    → unmarshal_array (marshal default_rules) ≡ some default_rules
    → add_default_rules compile unmarshal_wrapper unmarshal_array marshal new_engine
      ≡ (new_engine, some (compile_failed "rule_rm_rf_root"))
unfolding add_default_rules load_rules_from_json
add_defaults compile unmarshal_wrapper unmarshal_array marshal rejects object array =
    ap (load_configs compile new_engine) (
      configs_of_array compile unmarshal_wrapper unmarshal_array marshal default_rules object array)
    ∙ load_configs_rejected compile new_engine _ _ rejects

-- If regexp rejects the first default pattern, which has a look-ahead, and json decodes the encoded
-- default rules as an array and not as an object, then no default rule is loaded: `AddDefaultRules` ends in an
-- error and the engine of the server, whose start ignores it, lets every input go on unchanged.
pub defaults_never_load :
    (compile : String → Option (String → Bool))
    (unmarshal_wrapper unmarshal_array : String → Option (List RuleConfig))
    (marshal : List RuleConfig → String) (text : String)
    → compile "^rm\\s+-r[fF]?\\s+/(?!\\w)" ≡ none
    → unmarshal_wrapper (marshal default_rules) ≡ none
    → unmarshal_array (marshal default_rules) ≡ some default_rules
    → let loaded = add_default_rules compile unmarshal_wrapper unmarshal_array marshal new_engine in
      (loaded.1 ≡ some (compile_failed "rule_rm_rf_root"))
      × (handle_input loaded.0 text ≡ (true, text))
unfolding check check_rules new_engine
defaults_never_load compile unmarshal_wrapper unmarshal_array marshal text rejects object array =
    rw
      (
        add_defaults compile unmarshal_wrapper unmarshal_array marshal rejects object array,
        handle_input_lem,
      )
      (refl, refl)
