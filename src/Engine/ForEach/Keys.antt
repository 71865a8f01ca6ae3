-- ===== src/Engine/ForEach/Keys.antt =====
-- The keys of a for_each's items, which name their sub-runs and their records.
use markov.Prelude.{
  ℕ, suc, String, ◌≡◌, sym, ◌∙◌, ◌≢◌, Bool, true, false, Option, none, some, List, [], ◌∷◌, ◌==◌,
  eq_iff, lookup, insert, lookup-insert, Bool-cases, Option-cases, inl, inr, All,
}
use mathlib.Core.List.{Memᴰ, Nodup, Pairwise, map}
use mathlib.Core.Logic.{∥∥₁_elim}
use mathlib.Core.HLevel.{⊥_prop}
use markov.Value.{Value, is_null}
use markov.Failure.{Error}
use markov.Engine.Env.{Env}
use markov.Engine.Context.{extract_item_field}
use markov.Engine.ForEach.Items.{sort_key, check_keys}

none-Mem : (s t : String) (ts : List String) → All (λ u. s ≢ u) ts → Memᴰ t ts → s ≢ t
none-Mem s t [] a m = elim m [ ]
none-Mem s t (u ∷ ts) a (Memᴰ.head e) = λ same. a.0 (same ∙ e)
none-Mem s t (u ∷ ts) a (Memᴰ.tail m) = none-Mem s t ts a.1 m

distinct-cons : (s : String) (ts : List String) → All (λ u. s ≢ u) ts → Nodup ts → Nodup (s ∷ ts)
distinct-cons s ts a d = Pairwise.cons (λ t m e. ∥∥₁_elim m ⊥_prop (λ at. none-Mem s t ts a at e)) d

module _ (env : Env) (key : String) where
  -- the texts of the items are there, and none was seen
  Unseen : List (String × ℕ) → List Value → Type 0
  Unseen seen = All (λ (v : Value). lookup (sort_key env key v) seen ≡ none)

  Present : List Value → Type 0
  Present = All (λ (v : Value). is_null (extract_item_field v key) ≡ false)

  later :
      (text : String) (i : ℕ) (seen : List (String × ℕ)) (vs : List Value)
      → Unseen (insert text i seen) vs
      → Unseen seen vs × All (λ (t : String). text ≢ t) (map (sort_key env key) vs)
  unfolding Unseen
  later text i seen [] u = (tt, tt)
  later text i seen (v ∷ vs) (here, u) =
      let (rest, others) = later text i seen vs u in
      let found = sym (lookup-insert text (sort_key env key v) i seen) ∙ here in
      elim (Bool-cases (text == sort_key env key v)) [
        | inl same ↦ absurd (clash (rw same at found))
        | inr other ↦ (
          (rw other at found, rest),
          (λ e. differ other ((eq_iff text (sort_key env key v)).1 e), others),
        )
      ]
    where
      clash : ◌≡◌ {A = Option ℕ} (some i) none → ⊥
      clash e = cc

      differ : {b : Bool} → b ≡ false → b ≡ true → ⊥
      differ h g = cc

  checked-keys :
      (seen : List (String × ℕ)) (i : ℕ) (vs : List Value)
      → check_keys env key seen i vs ≡ none
      → Present vs × Unseen seen vs × Nodup (map (sort_key env key) vs)
  unfolding check_keys Present Unseen
  checked-keys seen i [] h = (tt, tt, Pairwise.nil)
  checked-keys seen i (v ∷ vs) h = elim (Bool-cases (is_null (extract_item_field v key))) [
    | inl missing ↦ absurd (clash (rw missing at h))
    | inr there ↦ elim (Option-cases (lookup (sort_key env key v) seen)) [
      | inr p ↦ absurd (clash (rw (there, p.1) at h))
      | inl new ↦
          let text = sort_key env key v in
          let (present, unseen, distinct) =
            checked-keys (insert text i seen) (suc i) vs (rw (there, new) at h) in
          let (rest, others) = later text i seen vs unseen in
          (
            (there, present),
            (new, rest),
            distinct-cons text (map (sort_key env key) vs) others distinct,
          )
    ]
  ]
    where
      clash : {e : Error} → some e ≡ none → ⊥
      clash e = cc

  -- Where the keys of a for_each's items are checked without an error, every item has the key's
  -- field, and no two items have one key.
  pub check_keys-Distinct :
      (vs : List Value)
      → check_keys env key [] 0 vs ≡ none
      → All (λ (v : Value). is_null (extract_item_field v key) ≡ false) vs
        × Nodup (map (sort_key env key) vs)
  unfolding Present
  check_keys-Distinct vs h = let r = checked-keys [] 0 vs h in (r.0, r.2)
