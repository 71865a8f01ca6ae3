-- ===== src/Engine/ForEach/Sorting.antt =====
-- The order and the keys of a for_each's items.
use markov.Prelude.{
  String, ◌≡◌, refl, sym, ◌∙◌, ap, subst, Bool, true, false, List, [], ◌∷◌, ◌==◌, eq_iff,
  if◌then◌else◌, text_le, arith, Bool-cases, inl, inr,
}
use markov.Prelude.Order.{text_le_total, text_le_refl}
use mathlib.Core.List.{Perm}
use mathlib.Core.List.Perm
use markov.Value.{Value}
use markov.Engine.Env.{Env}
use markov.Engine.ForEach.Items.{sort_key, place_item, sort_items}

module _ (env : Env) (key : String) where
  -- each item's text is at most the next one's
  abbrev pub Ascending : List Value → Type 0
  Ascending [] = Unit
  Ascending (v ∷ []) = Unit
  Ascending (v ∷ u ∷ us) =
      (text_le (sort_key env key v) (sort_key env key u) ≡ true) × Ascending (u ∷ us)

  -- the items of one text, in their order
  unfoldable pub items_with : String → List Value → List Value
  items_with text [] = []
  items_with text (v ∷ vs) =
      let rest = items_with text vs in if sort_key env key v == text then v ∷ rest else rest

  place-Perm : (v : Value) (us : List Value) → Perm (place_item env key v us) (v ∷ us)
  place-Perm v [] = Perm.rfl
  place-Perm v (u ∷ us) = elim (Bool-cases (text_le (sort_key env key v) (sort_key env key u))) [
    | inl le ↦ rw le Perm.rfl
    | inr gt ↦ rw gt (Perm.trans (Perm.cons u (place-Perm v us)) (Perm.swap v u us))
  ]

  sort-Perm : (vs : List Value) → Perm (sort_items env key vs) vs
  unfolding sort_items
  sort-Perm [] = Perm.rfl
  sort-Perm (v ∷ vs) =
      Perm.trans (place-Perm v (sort_items env key vs)) (Perm.cons v (sort-Perm vs))

  at_most : Value → Value → Bool
  at_most v u = text_le (sort_key env key v) (sort_key env key u)

  -- an item that is after the first is placed among the rest
  after-Ascending :
      (v u : Value) (us : List Value)
      → at_most u v ≡ true
      → Ascending (u ∷ us)
      → Ascending (u ∷ place_item env key v us)
  unfolding at_most
  after-Ascending v u [] h a = (h, tt)
  after-Ascending v u (w ∷ ws) h (first, a) = elim (Bool-cases (at_most v w)) [
    | inl le ↦ rw le (h, (le, a))
    | inr gt ↦ rw gt (first, after-Ascending v w ws (text_le_total _ _ gt) a)
  ]

  place-Ascending :
      (v : Value) (us : List Value) → Ascending us → Ascending (place_item env key v us)
  unfolding at_most
  place-Ascending v [] a = tt
  place-Ascending v (u ∷ us) a = elim (Bool-cases (at_most v u)) [
    | inl le ↦ rw le (le, a)
    | inr gt ↦ rw gt (after-Ascending v u us (text_le_total _ _ gt) a)
  ]

  sort-Ascending : (vs : List Value) → Ascending (sort_items env key vs)
  unfolding sort_items
  sort-Ascending [] = tt
  sort-Ascending (v ∷ vs) = place-Ascending v (sort_items env key vs) (sort-Ascending vs)

  -- an item is placed after the items before it in the order, which have other texts
  place-items_with :
      (text : String) (v : Value) (us : List Value)
      → items_with text (place_item env key v us) ≡ items_with text (v ∷ us)
  unfolding items_with
  place-items_with text v [] = refl
  place-items_with text v (u ∷ us) =
      let k = sort_key env key v in
      let j = sort_key env key u in
      ground (arith, place-items_with text v us, eq_iff k text, eq_iff j text, differ k j text)
    where
      differ : (k j text : String) → text_le k j ≡ false → (k == text) ≡ true → (j == text) ≡ false
      differ k j text gt e = elim (Bool-cases (j == text)) [
        | inl f ↦
            let same = (eq_iff k text).0 e ∙ sym ((eq_iff j text).0 f) in
            let le = subst (λ t. text_le k t ≡ true) same (text_le_refl k) in cc
        | inr f ↦ f
      ]

  sort-items_with :
      (text : String) (vs : List Value)
      → items_with text (sort_items env key vs) ≡ items_with text vs
  unfolding sort_items items_with
  sort-items_with text [] = refl
  sort-items_with text (v ∷ vs) =
      place-items_with text v (sort_items env key vs)
      ∙ ap (λ us. if sort_key env key v == text then v ∷ us else us) (sort-items_with text vs)

  -- The sort of a for_each's items by a key returns the same items, in the order of their texts,
  -- and is stable: the items of one text stay in the order of the list.
  pub sort_items-Ascending :
      (vs : List Value)
      → Perm (sort_items env key vs) vs
        × Ascending (sort_items env key vs)
        × ((text : String) → items_with text (sort_items env key vs) ≡ items_with text vs)
  sort_items-Ascending vs = (sort-Perm vs, sort-Ascending vs, λ text. sort-items_with text vs)
