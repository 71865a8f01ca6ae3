-- ===== src/Engine/Gate.antt =====
-- pkg/engine/gate.go: rules evaluated on facts, and the action that the rules which fired ask for.
pub mod Salience
use markov.Prelude.{
  ℕ, String, none, some, List, [], ◌∷◌, ◌++◌, insert, merge, has_key, concat, if◌then◌else◌, ◌==◌,
  ℤ, pos, negsuc, ltb_int,
}
use markov.Value.{Vars, int}
use markov.Failure.{Error, message, wrap, Result, ok, err}
use markov.Workflow.{Rule, get_rule}
use markov.Grl.Bytes
use markov.Grl.Bytes.{Bytes, bytes}
use markov.Grl.Lexer.{
  TokenKind, ident, number, string, op, and, or, not, none_token, true_token, false_token, lparen,
  rparen, Token,
}
use markov.Grl.Translate.{
  TranslateError, unexpected_token, unexpected_end, unexpected_after_op, done, failed,
}
use markov.Grl.Compile.{compile_rule}
use markov.Engine.FactStore.{FactStore, new_fact_store, get, has_fired}
use markov.Engine.Env.{Env}

pub record GateResult : Type 0 where
  pub action : String
  pub fired_rules : List String
  pub facts : Vars

-- the numbers of the constants `tokIdent`, … in their order
abbrev kind_number : TokenKind → ℕ
kind_number ident = 0
kind_number number = 1
kind_number string = 2
kind_number op = 3
kind_number and = 4
kind_number or = 5
kind_number not = 6
kind_number none_token = 7
kind_number true_token = 8
kind_number false_token = 9
kind_number lparen = 10
kind_number rparen = 11

-- What the rules that fired add up to.
pub record Tally : Type 0 where
  pub fired : List String
  pub action : String
  pub salience : ℤ
  pub set_facts : Vars

abbrev pub no_tally : Tally
no_tally = record { fired = []; action = "continue"; salience = negsuc 0; set_facts = [] }

abbrev pub action_of : Rule → String
action_of rule = if rule.action == "" then "continue" else rule.action

abbrev pub set_from : FactStore → Vars → Vars → Vars
set_from facts [] m = m
set_from facts ((k, v) ∷ assigned) m = set_from facts assigned (insert k (get facts k) m)

-- One round of the loop that collects the results.
unfoldable pub tally_rule : FactStore → Tally → Rule → Tally
unfolding has_fired
tally_rule facts t rule =
    if has_fired facts rule.name
    then record {
      fired = t.fired ++ rule.name ∷ [];
      action = if ltb_int t.salience rule.salience then action_of rule else t.action;
      salience = if ltb_int t.salience rule.salience then rule.salience else t.salience;
      set_facts = set_from facts rule.set_fact t.set_facts;
    }
    else t

unfoldable pub tally_rules : FactStore → Tally → List Rule → Tally
unfolding tally_rule
tally_rules facts t [] = t
tally_rules facts t (rule ∷ rules) = tally_rules facts (tally_rule facts t rule) rules

-- The input facts that no rule assigned: added to the receipt, and to the run's context.
unfoldable pub keep_inputs : Vars → Vars → Vars → Vars × Vars
keep_inputs [] set_facts ctx = (set_facts, ctx)
keep_inputs ((k, v) ∷ inputs) set_facts ctx =
    if has_key k set_facts
    then keep_inputs inputs set_facts ctx
    else keep_inputs inputs (insert k v set_facts) (insert k v ctx)

-- The end of `evaluateGate`: the result, and the run's context.
unfoldable pub settle_gate : FactStore → List Rule → Vars → Vars → GateResult × Vars
unfolding tally_rules keep_inputs
settle_gate facts rules gate_facts ctx =
    let t = tally_rules facts no_tally rules in
    let kept = keep_inputs gate_facts t.set_facts (merge ctx t.set_facts) in
    (record { action = t.action; fired_rules = t.fired; facts = kept.0 }, kept.1)

module _ (env : Env) where
  open env use {go, file, run_rules}

  abbrev show_number : ℕ → String
  show_number n = go.show (int (pos n))

  abbrev describe : Token → String
  describe t =
      concat ("kind=" ∷ show_number (kind_number t.kind) ∷ " val=" ∷ go.quote_bytes t.val ∷ [])

  unfoldable pub translate_error : TranslateError → Error
  translate_error (unexpected_token position t) =
      message
        (concat ("unexpected token at position " ∷ show_number position ∷ ": " ∷ describe t ∷ []))
  translate_error (unexpected_end position) =
      message (concat ("unexpected end after operator at position " ∷ show_number position ∷ []))
  translate_error (unexpected_after_op t) =
      message (concat ("unexpected token after operator: " ∷ describe t ∷ []))

  -- the first loop: the rules of these names
  unfoldable pub rules_named : List String → Result (List Rule)
  rules_named [] = ok []
  rules_named (name ∷ names) = elim (get_rule file name) [
    | none ↦ err (message (concat ("rule " ∷ go.quote name ∷ " not found" ∷ [])))
    | some rule ↦ elim (rules_named names) [ ok rules ↦ ok (rule ∷ rules) | err e ↦ err e ]
  ]

  abbrev compile_error : Rule → TranslateError → Error
  compile_error rule e = wrap (concat ("compiling rule " ∷ go.quote rule.name ∷ [])) (
      wrap (concat ("translating condition for rule " ∷ go.quote rule.name ∷ []))
        (translate_error e))

  unfoldable pub compile_rules : List Rule → Result (List Bytes)
  compile_rules [] = ok []
  compile_rules (rule ∷ rules) = elim (compile_rule go.show go.one_decimal rule) [
    | failed e ↦ err (compile_error rule e)
    | done text ↦ elim (compile_rules rules) [ ok texts ↦ ok (text ∷ texts) | err e ↦ err e ]
  ]

  -- `evaluateGate`: the result of the gate, and the run's context after it
  unfoldable pub evaluate_gate : List String → Vars → Vars → Result (GateResult × Vars)
  unfolding rules_named compile_rules settle_gate
  evaluate_gate names gate_facts ctx = elim (rules_named names) [
    | err e ↦ err e
    | ok rules ↦ elim (compile_rules rules) [
      | err e ↦ err e
      | ok texts ↦
          elim (run_rules (Bytes.join (bytes "\n\n") texts)
            (new_fact_store (merge (merge [] ctx) gate_facts))) [
              | err e ↦ err e
              | ok facts ↦ ok (settle_gate facts rules gate_facts ctx)
            ]
    ]
  ]
