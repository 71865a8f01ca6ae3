-- ===== src/Engine/Rewind/Index.antt =====
-- `rewindIndex` of pkg/engine/rewind.go, over all targets: where a rewind starts.
use markov.Prelude.{
  ℕ, ◌≤◌, ◌≡◌, refl, sym, ap, ◌∙◌, ◌⊎◌, inl, inr, List, [], ◌∷◌, ltb, if◌then◌else◌, arith,
  Bool-cases,
}
use markov.Failure.{Result, ok, err}
use markov.Workflow.{Workflow}
use markov.Engine.Env.{Env, RewindTarget}
use markov.Engine.Rewind.{rewind_index, rewind_from_index}
use mathlib.Core.List.{Memᴰ}

module _ (env : Env) (wf : Workflow) where
  -- The least of the positions of targets and of a bound.
  abbrev pub Least : ℕ → ℕ → List RewindTarget → Type 0
  Least from i ts =
      (i ≤ from)
      × ((t : RewindTarget) → Memᴰ t ts → (j : ℕ) × (rewind_index env wf t ≡ ok j) × (i ≤ j))
      × ((i ≡ from) ⊎ ((t : RewindTarget) × Memᴰ t ts × (rewind_index env wf t ≡ ok i)))

  -- The index at which a rewind starts is the least position of a target, and the bound that was
  -- given if no target is before it: each target is a step of the workflow's steps, at this index
  -- or later, and the index is the bound or the position of a target.
  pub rewind_from_index-Least :
      (from i : ℕ) (ts : List RewindTarget)
      → rewind_from_index env wf from ts ≡ ok i
      → Least from i ts
  unfolding rewind_from_index
  rewind_from_index-Least from i [] h =
      let same : i ≡ from = cc in (omega (arith, same), λ t m. elim m [ ], inl same)
  rewind_from_index-Least from i (t ∷ ts) h =
      found (rewind_index env wf t) refl h (λ from'. rewind_from_index-Least from' i ts)
    where
      nearest :
          (j k : ℕ)
          → k ≡ (if ltb j from then j else from)
          → (k ≤ from) × (k ≤ j) × ((k ≡ j) ⊎ (k ≡ from))
      nearest j k e = elim (Bool-cases (ltb j from)) [
        | inl before ↦
            let same : k ≡ j = rw before at e in
            (ground (arith, before, same), omega (arith, same), inl same)
        | inr after ↦
            let same : k ≡ from = rw after at e in
            (omega (arith, same), ground (arith, after, same), inr same)
      ]

      with_target :
          (j k : ℕ)
          → rewind_index env wf t ≡ ok j
          → (k ≤ from) × (k ≤ j) × ((k ≡ j) ⊎ (k ≡ from))
          → Least k i ts
          → Least from i (t ∷ ts)
      with_target j k e (below, near, which) (least, every, attained) = (
        omega (arith, below, least),
        λ u m. elim m [
          | Memᴰ.head same ↦
              (j, ap (λ v. rewind_index env wf v) same ∙ e, omega (arith, near, least))
          | Memᴰ.tail later ↦ every u later
        ],
        elim attained [
          | inr (u, m, e2) ↦ inr (u, Memᴰ.tail m, e2)
          | inl at_k ↦ elim which [
            | inl at_j ↦ inr (t, Memᴰ.head refl, e ∙ ap (λ n. ok n) (sym (at_k ∙ at_j)))
            | inr at_from ↦ inl (at_k ∙ at_from)
          ]
        ],
      )

      found :
          (r : Result ℕ)
          → rewind_index env wf t ≡ r
          → elim r as (λ _. Result ℕ) [
            | err e ↦ err e
            | ok j ↦ rewind_from_index env wf (if ltb j from then j else from) ts
          ]
            ≡ ok i
          → ((k : ℕ) → rewind_from_index env wf k ts ≡ ok i → Least k i ts)
          → Least from i (t ∷ ts)
      found (err e) h1 h2 rest = cc
      found (ok j) h1 h2 rest =
          let k = if ltb j from then j else from in
          with_target j k h1 (nearest j k refl) (rest k h2)
