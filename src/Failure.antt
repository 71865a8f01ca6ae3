-- ===== src/Failure.antt =====
-- The errors of pkg/engine: messages, wrapped errors, joined errors, and the pause that a gate asks for.
use markov.Prelude.{
  ◌≡◌, refl, ◌⊎◌, inl, inr, String, Bool, Option, none, some, List, [], ◌∷◌, is_some, concat,
}
use markov.Value.{Vars}

-- `PauseError`
pub record Pause : Type 0 where
  pub workflow_name : String
  pub step_name : String
  pub fired_rules : List String
  pub facts : Vars

mutual
  -- `too_deep` is the model's: the depth of nested workflows that it follows is used up.
  -- `wrap prefix e` is `fmt.Errorf("prefix: %w", e)`, and `joined` is `errors.Join`.
  pub data Error : Type 0 where
    message : String → Error
    wrap : String → Error → Error
    joined : Errors → Error
    paused : Pause → Error
    too_deep : Error

  pub data Errors : Type 0 where
    one : Error → Errors
    more : Error → Errors → Errors

-- `errors.As(err, &paused)`: the first pause in the tree of wrapped errors, depth first.
abbrev first : {A : Type 0} → Option A → Option A → Option A
first none b = b
first (some a) b = some a

unfoldable mutual
  pub find_pause : Error → Option Pause
  find_pause (message m) = none
  find_pause (wrap prefix e) = find_pause e
  find_pause (joined es) = find_pauses es
  find_pause (paused p) = some p
  find_pause too_deep = none

  pub find_pauses : Errors → Option Pause
  find_pauses (one e) = find_pause e
  find_pauses (more e es) = first (find_pause e) (find_pauses es)

-- `IsPaused` of an error that is not nil
abbrev pub is_paused : Error → Bool
is_paused e = is_some (find_pause e)

-- `errors.Join` of a slice of errors, none of which is nil
abbrev pub join_from : Error → List Error → Errors
join_from e [] = one e
join_from e (f ∷ fs) = more e (join_from f fs)

unfoldable pub join_errors : List Error → Option Error
join_errors [] = none
join_errors (e ∷ es) = some (joined (join_from e es))

-- `err.Error()`, with `%q` given as `quote`.
module _ (quote : String → String) where
  unfoldable mutual
    pub error_text : Error → String
    error_text (message m) = m
    error_text (wrap prefix e) = concat (prefix ∷ ": " ∷ error_text e ∷ [])
    error_text (joined es) = errors_text es
    error_text (paused p) = concat ("paused by gate step " ∷ quote p.step_name ∷ [])
    error_text too_deep = ""

    pub errors_text : Errors → String
    errors_text (one e) = error_text e
    errors_text (more e es) = concat (error_text e ∷ "\n" ∷ errors_text es ∷ [])

pub data Result {ℓ} (A : Type ℓ) : Type ℓ where
  ok : A → Result A
  err : Error → Result A

-- To split on a computed result and keep the equation.
pub Result-cases {ℓ} :
    {A : Type ℓ} (r : Result A) → ((a : A) × (r ≡ ok a)) ⊎ ((e : Error) × (r ≡ err e))
Result-cases (ok a) = inl (a, refl)
Result-cases (err e) = inr (e, refl)

abbrev pub map_result {ℓ κ} : {A : Type ℓ} {B : Type κ} → (A → B) → Result A → Result B
map_result f (ok a) = ok (f a)
map_result f (err e) = err e

-- the early return of an error
abbrev pub returning {ℓ κ} : {A : Type ℓ} {B : Type κ} → Result A → (A → Result B) → Result B
returning (ok a) f = f a
returning (err e) f = err e

-- What ran before a result was returned.
pub returning-ok {ℓ κ} :
    {A : Type ℓ} {B : Type κ} (m : Result A) (f : A → Result B) {b : B}
    → returning m f ≡ ok b
    → (a : A) × (m ≡ ok a) × (f a ≡ ok b)
returning-ok (ok a) f h = (a, refl, h)
returning-ok (err e) f h = cc

pub map_result-ok {ℓ κ} :
    {A : Type ℓ} {B : Type κ} (f : A → B) (m : Result A) {b : B}
    → map_result f m ≡ ok b
    → (a : A) × (m ≡ ok a) × (f a ≡ b)
map_result-ok f (ok a) h = (a, refl, cc)
map_result-ok f (err e) h = cc

abbrev pub map_error {ℓ} : {A : Type ℓ} → (Error → Error) → Result A → Result A
map_error f (ok a) = ok a
map_error f (err e) = err (f e)

-- A result as an `error` value, which is nil on success.
abbrev pub error_of {ℓ} : {A : Type ℓ} → Result A → Option Error
error_of (ok a) = none
error_of (err e) = some e
