-- ===== src/Executor/Prompt/Answers.antt =====
-- What an answer of the prompt is.
use markov.Prelude.{
  ℕ, suc, String, Bool, true, false, ◌&&◌, not, Option, none, some, List, [], ◌∷◌, ◌≡◌, refl, sym,
  ap, ◌∙◌, subst, ◌⊎◌, inl, inr, arith, is_empty, if◌then◌else◌, Option-cases, ◌==◌, eq_iff, lookup,
}
use markov.Value.{Value, Vars, list_of, slice, any_slice, string_slice}
use markov.Failure.{Error, Result, ok, err, returning, returning-ok, Result-cases}
use markov.Workflow.{member}
use markov.Engine.Env.{Go}
use markov.Executor.Prompt.{
  choices_from, some_choices, choices_of, with_default, read_flag, read_choices, read_default,
  required, message_param, prompt_choices, prompt_string_param, prompt_bool_param, matching_choice,
  Settings, settings_of, Round, answered, again, judge_line, prompt_loop, execute_prompt,
  answer_output, execution_of,
}

-- No text of the list is empty.
abbrev all_filled : List String → Bool
all_filled [] = true
all_filled (s ∷ ss) = not (s == "") && all_filled ss

member-filled :
    (v : String) (cs : List String) → all_filled cs ≡ true → member v cs ≡ true → (v == "") ≡ false
member-filled v [] f h = cc
member-filled v (c ∷ cs) f h =
    ground (arith, eq_iff v c, eq_iff v "", eq_iff c "", member-filled v cs)

Round-cases : (r : Round) → ((v : String) × (r ≡ answered v)) ⊎ ((n : String) × (r ≡ again n))
Round-cases (answered v) = inl (v, refl)
Round-cases (again n) = inr (n, refl)

-- An answer that the settings allow.
pub record IsAnswer (choices : List String) (value : String) : Type 0 where
  pub filled : (value == "") ≡ false
  pub chosen : (is_empty choices ≡ true) ⊎ (member value choices ≡ true)

module _ (go : Go) (decimal : ℕ → String) (equal_fold : String → String → Bool) where
  matching_choice-member :
      (cs : List String) (v c : String) (fold : Bool)
      → matching_choice go decimal equal_fold cs v fold ≡ some c
      → member c cs ≡ true
  unfolding matching_choice
  matching_choice-member [] v c fold h = cc
  matching_choice-member (d ∷ cs) v c fold h =
      ground (arith, eq_iff c d, matching_choice-member cs v c fold)

  choices_from-filled :
      (i : ℕ) (vs : List Value) (cs : List String)
      → choices_from go decimal equal_fold i vs ≡ ok cs
      → all_filled cs ≡ true
  unfolding choices_from
  choices_from-filled i [] cs h = ground arith
  choices_from-filled i (v ∷ vs) cs h =
      elim (Result-cases (choices_from go decimal equal_fold (suc i) vs)) [
        | inl (rest, e) ↦ ground (arith, choices_from-filled (suc i) vs rest e)
        | inr (e, bad) ↦ ground arith
      ]

  judge_line-IsAnswer :
      (s : Settings) (line value : String)
      → all_filled s.choices ≡ true
      → judge_line go decimal equal_fold s line ≡ answered value
      → IsAnswer s.choices value
  unfolding judge_line
  judge_line-IsAnswer s line value f h =
      let text = if go.trim_space line == "" then s.default else go.trim_space line in
      elim (Option-cases (matching_choice go decimal equal_fold s.choices text s.fold)) [
        | inl no_match ↦ ground arith
        | inr (c, e) ↦
            let known = matching_choice-member s.choices text c s.fold e in
            ground (arith, known, member-filled c s.choices f known)
      ]

  prompt_loop-IsAnswer :
      (s : Settings) (lines : List String) (failure : Option Error) (value : String)
      → all_filled s.choices ≡ true
      → (prompt_loop go decimal equal_fold s lines failure).0 ≡ ok value
      → IsAnswer s.choices value
  unfolding prompt_loop
  prompt_loop-IsAnswer s [] none value f h = cc
  prompt_loop-IsAnswer s [] (some e) value f h = cc
  prompt_loop-IsAnswer s (line ∷ lines) failure value f h =
      elim (Round-cases (judge_line go decimal equal_fold s line)) [
        | inl (v, e) ↦
            let same : v ≡ value = cc (rw (e, prompt_loop) at h) in
            subst (IsAnswer s.choices) same (judge_line-IsAnswer s line v f e)
        | inr (note, e) ↦ prompt_loop-IsAnswer s lines failure value f (rw (e, prompt_loop) at h)
      ]

  some_choices-filled :
      (vs : List Value) (cs : List String)
      → returning (choices_from go decimal equal_fold 0 vs) (some_choices go decimal equal_fold)
        ≡ ok cs
      → all_filled cs ≡ true
  some_choices-filled vs cs h = elim (Result-cases (choices_from go decimal equal_fold 0 vs)) [
    | inl (rest, e) ↦ ground (arith, choices_from-filled 0 vs rest e)
    | inr (e, bad) ↦ ground arith
  ]

  choices_of-filled :
      (v : Value) (cs : List String)
      → choices_of go decimal equal_fold v ≡ ok cs
      → all_filled cs ≡ true
  choices_of-filled (slice any_slice vs) cs h = some_choices-filled (list_of vs) cs h
  choices_of-filled (slice string_slice vs) cs h = some_choices-filled (list_of vs) cs h
  choices_of-filled v cs h = cc

  prompt_choices-filled :
      (params : Vars) (cs : List String)
      → prompt_choices go decimal equal_fold params ≡ ok cs
      → all_filled cs ≡ true
  unfolding prompt_choices
  prompt_choices-filled params cs h = elim (Option-cases (lookup "choices" params)) [
    | inl absent ↦ ground arith
    | inr (v, e) ↦ choices_of-filled v cs (rw (e, prompt_choices) at h)
  ]

  with_default-choices :
      (t s : Settings) → with_default go decimal equal_fold t ≡ ok s → s.choices ≡ t.choices
  with_default-choices t s h = ground arith

  settings_of-choices :
      (params : Vars) (s : Settings)
      → settings_of go decimal equal_fold params ≡ ok s
      → prompt_choices go decimal equal_fold params ≡ ok s.choices
  unfolding settings_of
  settings_of-choices params s h =
      let (text, _, h1) =
        returning-ok (required go decimal equal_fold (message_param go decimal equal_fold params))
          (read_default go decimal equal_fold params) h in
      let (default, _, h2) =
        returning-ok (prompt_string_param params "default")
          (read_choices go decimal equal_fold params text) h1 in
      let (choices, known, h3) =
        returning-ok (prompt_choices go decimal equal_fold params)
          (read_flag go decimal equal_fold params text default) h2 in
      let settings = λ (fold : Bool).
        let s : Settings = record {
          text = text;
          default = default;
          choices = choices;
          fold = fold;
        } in
        s in
      let (fold, _, h4) =
        returning-ok (prompt_bool_param params "case_insensitive")
          (λ fold. with_default go decimal equal_fold (settings fold)) h3 in
      known ∙ ap ok (sym (with_default-choices (settings fold) s h4))

  execution_of-answer :
      (r : Result String) (value : String)
      → (execution_of r).output ≡ some (answer_output value)
      → r ≡ ok value
  execution_of-answer (ok v) value h = cc
  execution_of-answer (err e) value h = cc

  -- The answer that the prompt returns is not empty, and where choices are configured, it is one of
  -- them, spelled as configured; whatever lines the terminal gives, and whether the answer is a
  -- line or the default.
  pub execute_prompt-IsAnswer :
      (interactive : Bool) (params : Vars) (lines : List String) (failure : Option Error)
      (value : String)
      → (execute_prompt go decimal equal_fold interactive params lines failure).output
        ≡ some (answer_output value)
      → (cs : List String) × (prompt_choices go decimal equal_fold params ≡ ok cs)
        × IsAnswer cs value
  unfolding execute_prompt
  execute_prompt-IsAnswer true params lines failure value h =
      elim (Result-cases (settings_of go decimal equal_fold params)) [
        | inl (s, e) ↦
            let choices = settings_of-choices params s e in
            let answer =
              execution_of-answer (prompt_loop go decimal equal_fold s lines failure).0 value
                (rw (e, execute_prompt) at h) in
            (
              s.choices,
              choices,
              prompt_loop-IsAnswer s lines failure value
                  (prompt_choices-filled params s.choices choices) answer,
            )
        | inr (e, bad) ↦ absurd (cc (rw (bad, execute_prompt) at h))
      ]
  execute_prompt-IsAnswer false params lines failure value h = cc
