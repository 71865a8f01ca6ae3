-- ===== src/Grl/Compile.antt =====
-- `compileRuleToGRL` and `compileSetFactToGRL` of grltranslate.go.
use markov.Prelude.{nat_eq, ℤ, String, List, [], ◌∷◌, ◌++◌, if◌then◌else◌, ◌==◌}
use markov.Value.{Value, Vars}
use markov.Workflow.{Rule}
use markov.Grl.Bytes.{join, Bytes, bytes, concat}
use markov.Grl.Translate.{Translated, done, ◌>>=◌, translate_condition}

-- `strings.ReplaceAll(s, "\"", "\\\"")`
unfoldable pub escape_quotes : Bytes → Bytes
escape_quotes [] = []
escape_quotes (c ∷ s) =
    let rest = escape_quotes s in if nat_eq c 0x22 then 0x5c ∷ 0x22 ∷ rest else c ∷ rest

-- `%v` of a value, and `%.1f` of an integer as a float
module _ (show : Value → String) (one_decimal : ℤ → String) where
  abbrev setter : String → String → Bytes → Bytes
  setter method key arg = concat (
      bytes "Facts."
      ∷ bytes method
      ∷ bytes "(\""
      ∷ bytes key
      ∷ bytes "\", "
      ∷ arg
      ∷ bytes ");"
      ∷ [])

  abbrev quoted_arg : Bytes → Bytes
  quoted_arg s = concat (bytes "\"" ∷ escape_quotes s ∷ bytes "\"" ∷ [])

  unfoldable pub compile_set_fact : String → Value → Bytes
  unfolding escape_quotes
  compile_set_fact key (Value.bool b) =
      setter "SetBool" key (if b then bytes "true" else bytes "false")
  compile_set_fact key (Value.str s) = setter "SetStr" key (quoted_arg (bytes s))
  compile_set_fact key (Value.int n) = setter "SetNum" key (bytes (one_decimal n))
  compile_set_fact key (Value.float x) = setter "SetNum" key (bytes x)
  compile_set_fact key v = setter "SetStr" key (quoted_arg (bytes (show v)))

  abbrev then_parts : Vars → List Bytes
  then_parts [] = []
  then_parts ((k, v) ∷ m) = compile_set_fact k v ∷ then_parts m

  -- what a rule does when it fires: its assignments, the mark, and its retraction
  unfoldable pub rule_actions : Rule → List Bytes
  unfolding compile_set_fact
  rule_actions rule =
      then_parts rule.set_fact
      ++ (concat (bytes "Facts.MarkFired(\"" ∷ bytes rule.name ∷ bytes "\");" ∷ [])
          ∷ bytes "Changed(\"Facts\");"
          ∷ concat (bytes "Retract(\"" ∷ bytes rule.name ∷ bytes "\");" ∷ [])
          ∷ [])

  unfoldable pub compile_rule : Rule → Translated Bytes
  unfolding translate_condition rule_actions escape_quotes
  compile_rule rule = translate_condition (bytes rule.when) >>= (λ condition.
      let desc = if rule.description == "" then rule.name else rule.description in
      done (
        concat (
          bytes "rule "
          ∷ bytes rule.name
          ∷ bytes " \""
          ∷ escape_quotes (bytes desc)
          ∷ bytes "\" salience "
          ∷ bytes (show (Value.int rule.salience))
          ∷ bytes " {\n    when\n        "
          ∷ condition
          ∷ bytes "\n    then\n        "
          ∷ join (bytes "\n        ") (rule_actions rule)
          ∷ bytes "\n}"
          ∷ [])))
