-- ===== src/Prelude/Order.antt =====
-- The order of texts is total: what `text_le` says of two texts, it says of them the other way.
use Prim.Native.Nat.compare as compare_ℕ
use Prim.Native.Nat.{ℕ, zero, suc, Ordering, compare as compare_ℕ}
use Prim.Native.Char.{code}
use Prim.Native.String.compare
use Prim.Native.String.{String, [], ◌∷◌, compare, then}
use mathlib.Core.Path.{◌≡◌, refl, sym, ◌∙◌, ap}
use mathlib.Core.Bool.{true, false}
use text.Mathlib.Text.{is_le}
use text.Mathlib.TextPositions.{compare_refl}
use markov.Prelude.Texts.{text_le}

abbrev flip : Ordering → Ordering
flip Ordering.lt = Ordering.gt
flip Ordering.eq = Ordering.eq
flip Ordering.gt = Ordering.lt

flip-numbers : (m n : ℕ) → compare_ℕ n m ≡ flip (compare_ℕ m n)
flip-numbers zero zero = refl
flip-numbers zero (suc n) = compare_ℕ.suc-zero n ∙ ap flip (sym (compare_ℕ.zero-suc n))
flip-numbers (suc m) zero = compare_ℕ.zero-suc m ∙ ap flip (sym (compare_ℕ.suc-zero m))
flip-numbers (suc m) (suc n) =
    compare_ℕ.suc-suc n m ∙ flip-numbers m n ∙ ap flip (sym (compare_ℕ.suc-suc m n))

flip-then : (o r : Ordering) → then (flip o) (flip r) ≡ flip (then o r)
flip-then Ordering.lt r = refl
flip-then Ordering.eq r = refl
flip-then Ordering.gt r = refl

flip-texts : (s t : String) → compare t s ≡ flip (compare s t)
flip-texts [] [] = compare.nil-nil ∙ ap flip (sym compare.nil-nil)
flip-texts [] (d ∷ t) = compare.cons-nil d t ∙ ap flip (sym (compare.nil-cons d t))
flip-texts (c ∷ s) [] = compare.nil-cons c s ∙ ap flip (sym (compare.cons-nil c s))
flip-texts (c ∷ s) (d ∷ t) =
    compare.cons-cons d c t s
    ∙ ap (λ o. then o (compare t s)) (flip-numbers (code c) (code d))
    ∙ ap (then (flip (compare_ℕ (code c) (code d)))) (flip-texts s t)
    ∙ flip-then (compare_ℕ (code c) (code d)) (compare s t)
    ∙ ap flip (sym (compare.cons-cons c d s t))

pub text_le_total : (s t : String) → text_le s t ≡ false → text_le t s ≡ true
text_le_total s t h = ap is_le (flip-texts s t) ∙ flipped (compare s t) h
  where
    flipped : (o : Ordering) → is_le o ≡ false → is_le (flip o) ≡ true
    flipped Ordering.lt h = cc
    flipped Ordering.eq h = cc
    flipped Ordering.gt h = refl

pub text_le_refl : (s : String) → text_le s s ≡ true
text_le_refl s = ap is_le (compare_refl s)
