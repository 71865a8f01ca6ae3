-- ===== src/Parser/Jev.antt =====
-- The checks of pkg/parser/jev.go, and `Validate` of connections and questions in pkg/jev/types.go.
use markov.Prelude.{
  String, Bool, false, not, ◌&&◌, ◌||◌, Option, none, some, List, [], ◌∷◌, ◌==◌, ltb, nat_eq,
  ltb_int, pos, concat, is_empty, length, lookup, has_key, or_else, if◌then◌else◌, Dict, ℤ,
}
use markov.Value.{Value, Vars, slice, any_slice, as_map, as_string, is_null, index, of_slice}
use markov.Failure.{Error, message, wrap, error_of, Result, ok, err}
use markov.Workflow.{Step, Connection, Decision, WorkflowFile, resolve_step_type, member}
use markov.Engine.Env.{Go}
use markov.Parser.Checks.{refuse_if, first_of, each}

-- `url.URL`, as far as it is read
pub record Url : Type 0 where
  pub scheme : String
  pub host : String
  pub has_user : Bool
  pub raw_query : String
  pub fragment : String

-- `Question` of pkg/jev
pub record Question : Type 0 where
  pub type : String
  pub instructions : Value
  pub criteria : Value

-- What the checks use of other packages: `url.Parse`, and encoding/json to and from a map of
-- questions without unknown fields.
pub record Library : Type 0 where
  pub parse_url : String → Option Url
  pub read_questions : Value → Result (Dict Question)

abbrev pub question : Decision → Question
question d = record { type = d.type; instructions = d.instructions; criteria = d.criteria }

abbrev say : List String → Error
say parts = message (concat parts)

abbrev text_at : String → Vars → String
text_at key m = elim (lookup key m) [ none ↦ "" | some v ↦ or_else (as_string v) "" ]

module _ (go : Go) where
  -- the keys of the criteria of a yes-or-no question
  abbrev check_noul : Value → Option Error
  check_noul criteria = elim (as_map criteria) [
    | none ↦ some (message "noul criteria must contain true and false")
    | some m ↦ first_of (
        refuse_if (not (nat_eq (length m) 2)) (message "noul criteria must contain true and false")
        ∷ refuse_if (not (has_key "true" m)) (message "noul criteria missing true")
        ∷ refuse_if (not (has_key "false" m)) (message "noul criteria missing false")
        ∷ [])
  ]

  abbrev check_choice : Value → Option Error
  check_choice criteria = elim (as_map criteria) [
    | none ↦ some (message "choice requires 1–255 criteria")
    | some m ↦ first_of (
        refuse_if (is_empty m || ltb 255 (length m)) (message "choice requires 1–255 criteria")
        ∷ each
            (λ (e : String × Value).
              refuse_if (go.trim_space e.0 == "") (message "choice criteria keys cannot be empty"))
            m
        ∷ [])
  ]

  abbrev check_score : Value → Option Error
  check_score (slice any_slice vs) =
      refuse_if (is_empty (or_else (of_slice any_slice vs) []))
        (message "score requires a nonempty criteria list")
  check_score _ = some (message "score requires a nonempty criteria list")

  -- `Question.Validate`
  unfoldable pub validate_question : Question → Option Error
  unfolding has_key
  validate_question q =
      if q.type == "noul"
      then (if is_null q.criteria then none else check_noul q.criteria)
      else if q.type == "choice"
      then check_choice q.criteria
      else if q.type == "score"
      then check_score q.criteria
      else some (say ("unknown question type " ∷ go.quote q.type ∷ []))

  module _ (lib : Library) where
    abbrev has_good_url : Connection → Bool
    has_good_url c = elim (lib.parse_url c.base_url) [
      | none ↦ false
      | some u ↦
          not (u.host == "")
          && ((u.scheme == "http" || u.scheme == "https")
              && (not u.has_user && (u.raw_query == "" && u.fragment == "")))
    ]

    abbrev is_negative : ℤ → Bool
    is_negative n = ltb_int n (pos 0)

    -- `Connection.Validate`
    unfoldable pub validate_connection : Connection → Option Error
    validate_connection c = first_of (
        refuse_if (not (has_good_url c))
          (message "base_url must be an HTTP(S) URL without credentials, query, or fragment")
        ∷ refuse_if (not (c.type == "jev")) (message "connection type must be jev")
        ∷ refuse_if (not (c.api_key_env == "") && not (c.api_key_file == ""))
            (message "choose api_key_env or api_key_file")
        ∷ refuse_if (is_negative c.timeout || is_negative c.concurrency)
            (message "timeout and concurrency cannot be negative")
        ∷ [])

    abbrev wrapped : List String → Option Error → Option Error
    wrapped parts none = none
    wrapped parts (some e) = some (wrap (concat parts) e)

    -- `jev.Questions`, of which the parser keeps the error
    unfoldable pub questions : Value → Result (Dict Question)
    unfolding validate_question
    questions raw = elim (lib.read_questions raw) [
      | err e ↦ err e
      | ok qs ↦
          elim (first_of (
            refuse_if (is_empty qs) (message "questions cannot be empty")
            ∷ each
                (λ (e : String × Question). first_of (
                  refuse_if (e.0 == "") (message "question name cannot be empty")
                  ∷ wrapped ("question " ∷ go.quote e.0 ∷ []) (validate_question e.1)
                  ∷ []))
                qs
            ∷ [])) [ none ↦ ok qs | some e ↦ err e ]
    ]

    abbrev check_connection : String × Connection → Option Error
    check_connection (name, c) = first_of (
        refuse_if (name == "") (message "connection name cannot be empty")
        ∷ wrapped ("connection " ∷ go.quote name ∷ []) (validate_connection c)
        ∷ [])

    abbrev check_decision : WorkflowFile → String × Decision → Option Error
    check_decision file (name, d) = first_of (
        refuse_if (name == "") (message "decision name cannot be empty")
        ∷ refuse_if (not (has_key d.connection file.connections)) (
            say
              ("decision " ∷ go.quote name ∷ ": unknown connection " ∷ go.quote d.connection ∷ []))
        ∷ wrapped ("decision " ∷ go.quote name ∷ []) (validate_question (question d))
        ∷ [])

    -- `validateJev`
    unfoldable pub validate_jev : WorkflowFile → Option Error
    unfolding validate_connection validate_question has_key
    validate_jev file =
        first_of
          (each check_connection file.connections ∷ each (check_decision file) file.decisions ∷ [])

    -- the parameters of a `jev` step
    unfoldable pub check_jev_params : WorkflowFile → Vars → Option Error
    unfolding questions has_key
    check_jev_params file params = first_of (
        each
          (λ (e : String × Value).
            refuse_if (not (member e.0 ("connection" ∷ "state" ∷ "questions" ∷ [])))
              (say ("jev: unknown param " ∷ go.quote e.0 ∷ [])))
          params
        ∷ refuse_if (not (has_key (text_at "connection" params) file.connections))
            (say ("jev: unknown connection " ∷ go.quote (text_at "connection" params) ∷ []))
        ∷ refuse_if (is_null (index params "state")) (message "jev: state is required")
        ∷ error_of (questions (index params "questions"))
        ∷ [])

    abbrev is_text : Value → String → Bool
    is_text v s = elim (as_string v) [ none ↦ false | some t ↦ t == s ]

    abbrev selects_field : Decision → Value → Bool
    selects_field d select =
        is_text select d.type
        || (not (d.type == "noul")
            && (is_text select "confidence" || is_text select "probabilities"))

    abbrev fact_error : String → List String → Error
    fact_error name parts = say ("fact " ∷ go.quote name ∷ ": " ∷ parts)

    -- a fact's specification that names a decision
    unfoldable pub check_decision_fact : WorkflowFile → String → Vars → Value → Option Error
    unfolding lookup
    check_decision_fact file name spec decision = elim (as_string decision) [
      | none ↦ some (fact_error name ("decision must be a name" ∷ []))
      | some dn ↦ elim (lookup dn file.decisions) [
        | none ↦ some (fact_error name ("unknown decision " ∷ go.quote dn ∷ []))
        | some d ↦ first_of (
            each
              (λ (e : String × Value).
                refuse_if (not (member e.0 ("decision" ∷ "state" ∷ "select" ∷ "refresh" ∷ [])))
                  (fact_error name ("unknown decision field " ∷ go.quote e.0 ∷ [])))
              spec
            ∷ refuse_if (is_null (index spec "state")) (fact_error name ("state is required" ∷ []))
            ∷ elim (lookup "select" spec) [
              | none ↦ none
              | some select ↦
                  refuse_if (not (selects_field d select))
                    (fact_error name ("invalid select " ∷ go.show select ∷ " for " ∷ d.type ∷ []))
            ]
            ∷ [])
      ]
    ]

    abbrev pub check_fact : WorkflowFile → String × Value → Option Error
    check_fact file (name, raw) = elim (as_map raw) [
      | none ↦ none
      | some spec ↦ elim (lookup "decision" spec) [
        | none ↦ none
        | some decision ↦ check_decision_fact file name spec decision
      ]
    ]

    -- `validateJevStep`
    unfoldable pub validate_jev_step : WorkflowFile → Step → Option Error
    unfolding check_jev_params check_decision_fact resolve_step_type lookup
    validate_jev_step file s =
        let (base, params) = resolve_step_type file s in
        first_of (
          (if base == "jev" then check_jev_params file params else none)
          ∷ (if base == "gate" then each (check_fact file) s.facts else none)
          ∷ [])
