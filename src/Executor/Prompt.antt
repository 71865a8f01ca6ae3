-- ===== src/Executor/Prompt.antt =====
-- pkg/executor/prompt.go: one answer from the terminal.
pub mod Answers
use markov.Prelude.{
  ℕ, zero, suc, String, Bool, true, false, ◌&&◌, ◌||◌, not, Option, none, some, List, [], ◌∷◌, ◌++◌,
  concat, join, is_empty, lookup, if◌then◌else◌, ◌==◌,
}
use markov.Value.{
  Value, Items, Vars, SliceType, any_slice, string_slice, map_slice, str, bool, slice, nil, cons,
  list_of, as_string,
}
use markov.Failure.{Error, Result, ok, err, message, returning}
use markov.Engine.Env.{Go, Execution}

abbrev problem : List String → Error
problem parts = message (concat ("prompt: " ∷ parts))

-- `promptStringParam`
unfoldable pub prompt_string_param : Vars → String → Result String
prompt_string_param params name = elim (lookup name params) [
  | none ↦ ok ""
  | some v ↦ elim (as_string v) [
    | none ↦ err (problem (name ∷ " must be a string" ∷ []))
    | some s ↦ ok s
  ]
]

-- `promptBoolParam`
unfoldable pub prompt_bool_param : Vars → String → Result Bool
prompt_bool_param params name = elim (lookup name params) [
  | none ↦ ok false
  | some (bool b) ↦ ok b
  | some v ↦ err (problem (name ∷ " must be a boolean" ∷ []))
]

-- What the parameters ask for.
pub record Settings : Type 0 where
  pub text : String
  pub default : String
  pub choices : List String
  pub fold : Bool

-- One round of the loop: the answer, or what is printed before the next round.
pub data Round : Type 0 where
  answered : String → Round
  again : String → Round

abbrev pub answer_output : String → Vars
answer_output value = ("value", str value) ∷ []

abbrev pub execution_of : Result String → Execution
execution_of (ok value) = record { output = some (answer_output value); error = none; reports = [] }
execution_of (err e) = record { output = none; error = some e; reports = [] }

module _ (go : Go) (decimal : ℕ → String) (equal_fold : String → String → Bool) where
  abbrev bad_choice : ℕ → Error
  bad_choice i = problem ("choices[" ∷ decimal i ∷ "] must be a non-empty string" ∷ [])

  -- the items of a list are texts, and none is empty
  unfoldable pub choices_from : ℕ → List Value → Result (List String)
  choices_from i [] = ok []
  choices_from i (v ∷ vs) =
      let rest = choices_from (suc i) vs in
      elim (as_string v) [
        | none ↦ err (bad_choice i)
        | some s ↦ if s == "" then err (bad_choice i) else returning rest (λ ss. ok (s ∷ ss))
      ]

  abbrev no_list : Error
  no_list = problem ("choices must be a list of strings" ∷ [])

  abbrev pub some_choices : List String → Result (List String)
  some_choices [] = err (problem ("choices must not be empty" ∷ []))
  some_choices (c ∷ cs) = ok (c ∷ cs)

  -- a `[]string` and a `[]any` are lists of choices
  abbrev pub choices_of : Value → Result (List String)
  choices_of (slice any_slice vs) = returning (choices_from 0 (list_of vs)) some_choices
  choices_of (slice string_slice vs) = returning (choices_from 0 (list_of vs)) some_choices
  choices_of v = err no_list

  -- `promptChoices`
  unfoldable pub prompt_choices : Vars → Result (List String)
  unfolding choices_from
  prompt_choices params = elim (lookup "choices" params) [ none ↦ ok [] | some v ↦ choices_of v ]

  -- `matchingChoice`
  unfoldable pub matching_choice : List String → String → Bool → Option String
  matching_choice [] value fold = none
  matching_choice (c ∷ cs) value fold =
      let rest = matching_choice cs value fold in
      if c == value || fold && equal_fold c value then some c else rest

  abbrev pub required : Option String → Result String
  required none = err (problem ("message is required" ∷ []))
  required (some s) =
      if go.trim_space s == "" then err (problem ("message is required" ∷ [])) else ok s

  abbrev pub message_param : Vars → Option String
  message_param params = elim (lookup "message" params) [ none ↦ none | some v ↦ as_string v ]

  -- the default is spelled as the choice that it is
  abbrev pub with_default : Settings → Result Settings
  with_default s =
      if not (s.default == "") && not (is_empty s.choices)
      then elim (matching_choice s.choices s.default s.fold) [
        | none ↦ err (
            problem
              ("default " ∷ go.quote s.default ∷ " is not one of the configured choices" ∷ []))
        | some c ↦ ok (record s { default = c })
      ]
      else ok s

  -- `Execute` up to its loop reads the message, the default, the choices and the flag in this order.
  abbrev pub read_flag : Vars → String → String → List String → Result Settings
  read_flag params text default choices =
      returning (prompt_bool_param params "case_insensitive") λ fold.
        with_default (record { text = text; default = default; choices = choices; fold = fold })

  abbrev pub read_choices : Vars → String → String → Result Settings
  read_choices params text default =
      returning (prompt_choices params) (read_flag params text default)

  abbrev pub read_default : Vars → String → Result Settings
  read_default params text =
      returning (prompt_string_param params "default") (read_choices params text)

  unfoldable pub settings_of : Vars → Result Settings
  unfolding prompt_string_param prompt_choices prompt_bool_param matching_choice
  settings_of params = returning (required (message_param params)) (read_default params)

  -- `writePrompt`
  unfoldable pub write_prompt : Settings → String
  write_prompt s = concat (
      s.text
      ∷ (if is_empty s.choices then "" else concat (" [" ∷ join "/" s.choices ∷ "]" ∷ []))
      ∷ (if s.default == "" then "" else concat (" (default: " ∷ s.default ∷ ")" ∷ []))
      ∷ ": "
      ∷ [])

  abbrev or_default : Settings → String → String
  or_default s value = if value == "" then s.default else value

  unfoldable pub judge_line : Settings → String → Round
  unfolding matching_choice
  judge_line s line =
      let value = or_default s (go.trim_space line) in
      if value == ""
      then again "Input is required.\n"
      else if is_empty s.choices
      then answered value
      else elim (matching_choice s.choices value s.fold) [
        | some c ↦ answered c
        | none ↦ again (
            concat (
              "Invalid input "
              ∷ go.quote value
              ∷ ". Choose one of: "
              ∷ join ", " s.choices
              ∷ ".\n"
              ∷ []))
      ]

  -- The loop, over the lines that the terminal gives and the reason why it gives no more; the
  -- result and what was printed.
  unfoldable pub prompt_loop : Settings → List String → Option Error → Result String × List String
  unfolding judge_line write_prompt
  prompt_loop s [] none = (err (problem ("no input received" ∷ [])), write_prompt s ∷ [])
  prompt_loop s [] (some e) = (err (Error.wrap "prompt: reading input" e), write_prompt s ∷ [])
  prompt_loop s (line ∷ lines) failure =
      let (answer, printed) = prompt_loop s lines failure in
      elim (judge_line s line) [
        | answered value ↦ (ok value, write_prompt s ∷ [])
        | again note ↦ (answer, write_prompt s ∷ note ∷ printed)
      ]

  -- `Execute`
  unfoldable pub execute_prompt : Bool → Vars → List String → Option Error → Execution
  unfolding settings_of prompt_loop
  execute_prompt interactive params lines failure = execution_of (
      if interactive
      then returning (settings_of params) (λ s. (prompt_loop s lines failure).0)
      else err (
          problem (
            "interactive terminal input is required; use gate pause/resume for non-interactive approval"
            ∷ [])))
