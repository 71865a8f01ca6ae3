-- ===== src/Prelude/Sorted.antt =====
-- `sort.Strings` gives a rearrangement of its texts in ascending order.
use Prim.Native.String.{String}
use mathlib.Core.Path.{◌≡◌}
use mathlib.Core.Bool.{true}
use mathlib.Core.Logic.{inl, inr}
use mathlib.Core.List.{List, [], ◌∷◌, Perm}
use mathlib.Core.List.Perm
use markov.Prelude.Tests.{Bool-cases}
use markov.Prelude.Texts.{text_le, place_text, sort_texts}
use markov.Prelude.Order.{text_le_total}

-- each text is at most the next one
abbrev pub AscendingTexts : List String → Type 0
AscendingTexts [] = Unit
AscendingTexts (s ∷ []) = Unit
AscendingTexts (s ∷ t ∷ ts) = (text_le s t ≡ true) × AscendingTexts (t ∷ ts)

place_text-Perm : (s : String) (ts : List String) → Perm (place_text s ts) (s ∷ ts)
place_text-Perm s [] = Perm.rfl
place_text-Perm s (t ∷ ts) = elim (Bool-cases (text_le s t)) [
  | inl le ↦ rw le Perm.rfl
  | inr gt ↦ rw gt (Perm.trans (Perm.cons t (place_text-Perm s ts)) (Perm.swap s t ts))
]

pub sort_texts-Perm : (ts : List String) → Perm (sort_texts ts) ts
sort_texts-Perm [] = Perm.rfl
sort_texts-Perm (t ∷ ts) =
    Perm.trans (place_text-Perm t (sort_texts ts)) (Perm.cons t (sort_texts-Perm ts))

-- a text that is not below the first is placed among the rest
after-AscendingTexts :
    (s t : String) (ts : List String)
    → text_le t s ≡ true
    → AscendingTexts (t ∷ ts)
    → AscendingTexts (t ∷ place_text s ts)
after-AscendingTexts s t [] h a = (h, tt)
after-AscendingTexts s t (u ∷ us) h (first, a) = elim (Bool-cases (text_le s u)) [
  | inl le ↦ rw le (h, (le, a))
  | inr gt ↦ rw gt (first, after-AscendingTexts s u us (text_le_total s u gt) a)
]

place_text-AscendingTexts :
    (s : String) (ts : List String) → AscendingTexts ts → AscendingTexts (place_text s ts)
place_text-AscendingTexts s [] a = tt
place_text-AscendingTexts s (t ∷ ts) a = elim (Bool-cases (text_le s t)) [
  | inl le ↦ rw le (le, a)
  | inr gt ↦ rw gt (after-AscendingTexts s t ts (text_le_total s t gt) a)
]

pub sort_texts-AscendingTexts : (ts : List String) → AscendingTexts (sort_texts ts)
sort_texts-AscendingTexts [] = tt
sort_texts-AscendingTexts (t ∷ ts) =
    place_text-AscendingTexts t (sort_texts ts) (sort_texts-AscendingTexts ts)
