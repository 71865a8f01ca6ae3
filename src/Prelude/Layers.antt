-- ===== src/Prelude/Layers.antt =====
-- Maps laid over one another: of which layer a key has its value.
use Prim.Native.String.{String}
use mathlib.Core.Path.{◌≡◌, refl, ◌∙◌, ap, subst}
use mathlib.Core.Logic.{inl, inr}
use mathlib.Core.Option.{Option, none, some}
use mathlib.Core.List.{[], ◌∷◌}
use text.Mathlib.Text.{◌==◌}
use text.Mathlib.TextEquality.{eq_iff}
use markov.Prelude.Tests.{Bool-cases}
use markov.Prelude.Maps.{Dict, lookup, merge, last, lookup-merge}

module _ {ℓ} {V : Type ℓ} where
  -- a key occurs once
  abbrev pub UniqueKeys : Dict V → Type ℓ
  UniqueKeys [] = Unit
  UniqueKeys ((k, v) ∷ m) = (lookup k m ≡ none) × UniqueKeys m

  -- the first of two values that is there
  abbrev pub prefer : Option V → Option V → Option V
  prefer none b = b
  prefer (some a) b = some a

  pub last-lookup :
      (k : String) (m : Dict V) (d : Option V) → UniqueKeys m → last k m d ≡ prefer (lookup k m) d
  unfolding last lookup
  last-lookup k [] d u = refl
  last-lookup k ((j, v) ∷ m) d (fresh, u) = elim (Bool-cases (j == k)) [
    | inl same ↦ rw same (
        last-lookup k m (some v) u
        ∙ ap (λ o. prefer o (some v)) (subst (λ i. lookup i m ≡ none) ((eq_iff j k).0 same) fresh))
    | inr other ↦ rw other (last-lookup k m d u)
  ]

  -- A map laid over another has its own value for a key, and else the other's.
  pub lookup-layers :
      (k : String) (base over : Dict V)
      → UniqueKeys over
      → lookup k (merge base over) ≡ prefer (lookup k over) (lookup k base)
  lookup-layers k base over u = lookup-merge k base over ∙ last-lookup k over (lookup k base) u

  prefer-none : (o : Option V) → prefer o none ≡ o
  prefer-none none = refl
  prefer-none (some v) = refl

  pub lookup-copied : (k : String) (m : Dict V) → UniqueKeys m → lookup k (merge [] m) ≡ lookup k m
  unfolding lookup
  lookup-copied k m u = lookup-layers k [] m u ∙ prefer-none (lookup k m)
