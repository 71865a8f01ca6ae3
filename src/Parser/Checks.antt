-- ===== src/Parser/Checks.antt =====
-- Sequences of checks, each an early return with an error.
use markov.Prelude.{Bool, true, false, Option, none, some, List, [], ◌∷◌, ◌≡◌, refl, All}
use markov.Failure.{Error}

abbrev pub refuse_if : Bool → Error → Option Error
refuse_if true e = some e
refuse_if false e = none

abbrev pub or_next : Option Error → Option Error → Option Error
or_next none next = next
or_next (some e) next = some e

-- one check after another
abbrev pub first_of : List (Option Error) → Option Error
first_of [] = none
first_of (c ∷ cs) = or_next c (first_of cs)

-- a loop of checks
abbrev pub each {ℓ} : {A : Type ℓ} → (A → Option Error) → List A → Option Error
each f [] = none
each f (x ∷ xs) = or_next (f x) (each f xs)

pub or_next-none : (c d : Option Error) → or_next c d ≡ none → (c ≡ none) × (d ≡ none)
or_next-none none d h = (refl, h)
or_next-none (some e) d h = cc

pub refuse_if-none : (b : Bool) (e : Error) → refuse_if b e ≡ none → b ≡ false
refuse_if-none true e h = cc
refuse_if-none false e h = refl

-- Checks that find no error have each found none.
pub first_of-none : (cs : List (Option Error)) → first_of cs ≡ none → All (λ c. c ≡ none) cs
first_of-none [] h = tt
first_of-none (c ∷ cs) h =
    let both = or_next-none c (first_of cs) h in (both.0, first_of-none cs both.1)

pub each-none {ℓ} :
    {A : Type ℓ} (f : A → Option Error) (xs : List A) → each f xs ≡ none → All (λ x. f x ≡ none) xs
each-none f [] h = tt
each-none f (x ∷ xs) h =
    let both = or_next-none (f x) (each f xs) h in (both.0, each-none f xs both.1)
