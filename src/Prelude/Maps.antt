-- ===== src/Prelude/Maps.antt =====
-- Go's `map[string]T` as an association list; its order stands for the order of iteration.
use Prim.Native.String.{String}
use mathlib.Core.Path.{◌≡◌, refl, ◌∙◌}
use mathlib.Core.Bool.{Bool}
use mathlib.Core.Option.{Option, none, some}
use mathlib.Core.List.{List, [], ◌∷◌}
use native.Mathlib.Omega.{arith}
use text.Mathlib.Text.{◌==◌}
use text.Mathlib.TextEquality.{eq_iff}
use markov.Prelude.Tests.{if◌then◌else◌, is_some}

abbrev pub Dict {ℓ} : Type ℓ → Type ℓ
Dict V = List (String × V)

module _ {ℓ} {V : Type ℓ} where
  -- `value, ok := entries[key]`
  unfoldable pub lookup : String → Dict V → Option V
  lookup key [] = none
  lookup key ((name, value) ∷ entries) = if name == key then some value else lookup key entries

  -- `entries[key] = value`
  unfoldable pub insert : String → V → Dict V → Dict V
  insert key new [] = (key, new) ∷ []
  insert key new ((name, value) ∷ entries) =
      if name == key then (key, new) ∷ entries else (name, value) ∷ insert key new entries

  -- `for k, v := range over { base[k] = v }`
  unfoldable pub merge : Dict V → Dict V → Dict V
  merge base [] = base
  merge base ((k, v) ∷ over) = merge (insert k v base) over

  unfoldable pub has_key : String → Dict V → Bool
  unfolding lookup
  has_key k m = is_some (lookup k m)

  -- A written key has the new value, and every other key its old one.
  pub lookup-insert :
      (key other : String) (new : V) (entries : Dict V)
      → lookup other (insert key new entries)
        ≡ (if key == other then some new else lookup other entries)
  unfolding insert lookup
  lookup-insert key other new [] = refl
  lookup-insert key other new ((name, value) ∷ entries) =
      let later = lookup-insert key other new entries in
      ground (arith, later, eq_iff name key, eq_iff name other, eq_iff key other)

  -- The last value that a loop of assignments gives to a key.
  unfoldable pub last : String → Dict V → Option V → Option V
  last k [] d = d
  last k ((j, v) ∷ m) d = last k m (if j == k then some v else d)

  pub lookup-merge :
      (j : String) (base over : Dict V) → lookup j (merge base over) ≡ last j over (lookup j base)
  unfolding merge last
  lookup-merge j base [] = refl
  lookup-merge j base ((k, v) ∷ over) =
      lookup-merge j (insert k v base) over ∙ ap_last (lookup-insert k j v base)
    where
      ap_last : {a b : Option V} → a ≡ b → last j over a ≡ last j over b
      ap_last p = λ i. last j over (p i)

  abbrev pub keys : Dict V → List String
  keys [] = []
  keys ((k, v) ∷ m) = k ∷ keys m
