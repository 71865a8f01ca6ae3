-- ===== src/Examples/Values.antt =====
-- Parameters with no template in them, and an answer of the prompt.
use markov.Prelude.{
  ℕ, String, Bool, true, none, List, [], ◌∷◌, ◌≡◌, refl, ◌==◌, pos, negsuc, ◌&&◌, lookup,
}
use markov.Value.{Value, Items, Vars, int, str, object, slice, any_slice, nil, cons}
use markov.Failure.{ok, message}
use markov.Template.{Pongo, Rendering, render_map}
use markov.Template.Plain.{IsLiteral, EachLiteral, AllLiteral, render_map-literal}
use markov.Template.Filters.{flatten, leaves_of, flatten-leaves}
use markov.Executor.Prompt.{prompt_choices, execute_prompt}
use markov.Executor.Prompt.Answers.{IsAnswer, execute_prompt-IsAnswer}
use markov.Examples.Setting.{go}

abbrev pongo : Pongo
pongo = record { run = λ tmpl ctx. Rendering.unparsed (message "no template") }

abbrev params : Vars
params =
    ("image", str "tools")
    ∷ ("args", slice any_slice (cons (str "-v") (cons (int (pos 3)) nil)))
    ∷ ("env", object (("MODE", str "{fast}") ∷ []))
    ∷ []

render_map-literal_example : render_map go pongo "1" [] params ≡ ok params
unfolding IsLiteral EachLiteral AllLiteral
render_map-literal_example =
    render_map-literal go pongo "1" [] params (refl, ((refl, (tt, tt)), ((refl, tt), tt)))

flatten_nested :
    flatten
      (slice any_slice (cons (slice any_slice (cons (int (pos 1)) nil)) (cons (int (pos 2)) nil)))
      (negsuc 0)
    ≡ int (pos 1) ∷ int (pos 2) ∷ []
unfolding flatten
flatten_nested = refl

abbrev words : Items
words = cons (slice any_slice (cons (str "a") nil)) (cons (str "b") nil)

flatten-leaves_example : flatten (slice any_slice words) (negsuc 0) ≡ leaves_of words
flatten-leaves_example = flatten-leaves any_slice words 0

abbrev decimal : ℕ → String
decimal n = "n"

abbrev fold : String → String → Bool
fold s t = s == "Yes" && t == "yes"

abbrev question : Vars
question =
    ("message", str "Go on?")
    ∷ ("choices", slice any_slice (cons (str "Yes") (cons (str "No") nil)))
    ∷ ("case_insensitive", Value.bool true)
    ∷ []

execute_prompt-IsAnswer_example :
    (cs : List String) × (prompt_choices go decimal fold question ≡ ok cs) × IsAnswer cs "Yes"
unfolding execute_prompt lookup
execute_prompt-IsAnswer_example =
    execute_prompt-IsAnswer go decimal fold true question ("" ∷ "maybe" ∷ "yes" ∷ []) none "Yes"
      refl
